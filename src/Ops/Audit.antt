-- ===== src/Ops/Audit.antt =====
-- ops/reconcile.py: the audit of the authorization store at a start, which reads and reports.
pub mod Clean
pub mod Settled
use rmt_platform.Prelude.{
  ℕ, String, Bool, Option, none, some, List, [], ◌∷◌, ◌==◌, string_eq, if◌then◌else◌, length,
}
use rmt_platform.Prelude.Text.{falsy}
use rmt_platform.Durable.{DurableStore}
use rmt_platform.State.{State}
use rmt_platform.Actions.Approval.{ApprovalHold, ApprovalRecord, hold_by_id, record_by_id}
use rmt_platform.Actions.Authorization.{ExecutionAuthorization}
use rmt_platform.Governance.Approve.{is_pending}
use rmt_platform.Ops.Reconcile.{Summary, decision_status, reconcile_holds_against_records}

pub data Issue : Type 0 where
  missing_record contradicts_rejection record_not_terminal hold_still_pending : Issue

pub record Detail : Type 0 where
  pub authorization_id : String
  pub approval_id : Option String
  pub authorization_type : String
  pub issue : Issue
  pub record_decision : Option String

-- The last test, on the hold of a terminal record.
unfoldable pub hold_issue : Option ApprovalHold → Option Issue
hold_issue none = none
hold_issue (some hold) = if is_pending hold.status then some hold_still_pending else none

-- The issue that the record of an approval raises, and otherwise its hold.
unfoldable pub record_issue : Option ApprovalRecord → Option ApprovalHold → Option Issue
record_issue none hold = some missing_record
record_issue (some r) hold =
    if r.decision == "rejected"
    then some contradicts_rejection
    else elim (decision_status r.decision) [
      | none ↦ some record_not_terminal
      | some true_status ↦ hold_issue hold
    ]

abbrev pub decision_of : Option ApprovalRecord → Option String
decision_of none = none
decision_of (some r) = some r.decision

-- What the audit says of one authorization: nothing, if no approval is linked to it.
unfoldable pub issue_of :
    DurableStore ApprovalRecord → DurableStore ApprovalHold → Option String → Option Issue
issue_of records holds none = none
issue_of records holds (some id) =
    if id == "" then none else record_issue (record_by_id id records) (hold_by_id id holds)

abbrev linked_decision : DurableStore ApprovalRecord → Option String → Option String
linked_decision records none = none
linked_decision records (some id) = decision_of (record_by_id id records)

unfoldable pub details :
    DurableStore ApprovalRecord
    → DurableStore ApprovalHold
    → List ExecutionAuthorization
    → List Detail
details records holds [] = []
details records holds (a ∷ as') =
    let rest = details records holds as' in
    elim (issue_of records holds a.approval_id) [
      | none ↦ rest
      | some issue ↦
          record {
            authorization_id = a.authorization_id;
            approval_id = a.approval_id;
            authorization_type = a.authorization_type;
            issue = issue;
            record_decision = linked_decision records a.approval_id;
          }
          ∷ rest
    ]

pub record AuditSummary : Type 0 where
  pub checked : ℕ
  pub divergences : ℕ
  pub found : List Detail

unfoldable pub audit_authorizations : {W : Type 0} → State W → AuditSummary
audit_authorizations s =
    let found = details s.records s.holds s.authorizations.records in
    record { checked = length s.authorizations.records; divergences = length found; found = found }

-- `reconcile_governance_stores`: the correction, and then the audit.
unfoldable pub reconcile_governance_stores :
    {W : Type 0} → State W → (Summary × AuditSummary) × State W
reconcile_governance_stores s =
    let (holds, s') = reconcile_holds_against_records s in ((holds, audit_authorizations s'), s')
