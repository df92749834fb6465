-- ===== src/Ops/Reconcile.antt =====
-- ops/reconcile.py: the correction of the hold store that runs when the backend starts. Its
-- `except`, which an error of a store would reach, is not modelled, and nor is its logging.
pub mod Healed
pub mod Durable
pub mod Restart
use rmt_platform.Prelude.{
  ℕ, String, Bool, not, Option, none, some, List, [], ◌∷◌, ◌==◌, string_eq, if◌then◌else◌, length,
}
use rmt_platform.Durable.{DurableStore, update}
use rmt_platform.Durable.Sync.{has_id}
use rmt_platform.State.{State, hold_schema}
use rmt_platform.Actions.Approval.{
  ApprovalStatus, approved, rejected, ApprovalHold, ApprovalRecord, hold_id, record_by_id,
}
use rmt_platform.Governance.Approve.{is_pending}

-- `_TERMINAL_DECISIONS` and `_DECISION_TO_STATUS`
unfoldable pub decision_status : String → Option ApprovalStatus
decision_status decision =
    if decision == "approved"
    then some approved
    else if decision == "rejected"
    then some rejected
    else none

-- The status and the approver that the record of a pending hold gives it, if the record is terminal.
unfoldable pub resolution :
    DurableStore ApprovalRecord → ApprovalHold → Option (ApprovalStatus × String)
unfolding decision_status
resolution records hold =
    if not (is_pending hold.status) then none else elim (record_by_id hold.approval_id records) [
      | none ↦ none
      | some r ↦ elim (decision_status r.decision) [
        | none ↦ none
        | some true_status ↦ some (true_status, r.approved_by)
      ]
    ]

-- The `fields` of the correction, on the copy that `update` makes: an approver is not replaced.
abbrev pub corrected : Option String → ApprovalStatus → String → ApprovalHold → ApprovalHold
corrected none true_status by h = record h { status = true_status; approved_by = some by }
corrected (some b) true_status by h = record h { status = true_status }

-- The loop over the holds, with the identifiers that it corrected. The code runs over the live list:
-- an update changes the first hold of an identifier, which the loop has reached already, so the
-- holds still to come are those that were there at the start.
unfoldable pub reconcile_each :
    DurableStore ApprovalRecord
    → List ApprovalHold
    → DurableStore ApprovalHold
    → List String × DurableStore ApprovalHold
reconcile_each records [] holds = ([], holds)
reconcile_each records (hold ∷ rest) holds = elim (resolution records hold) [
  | none ↦ reconcile_each records rest holds
  | some (true_status, by) ↦
      let (ids, holds') = reconcile_each records rest (
        update hold_schema (has_id hold_id (λ h. h.created_at) hold.approval_id)
          (corrected hold.approved_by true_status by) holds) in
      (hold.approval_id ∷ ids, holds')
]

pub record Summary : Type 0 where
  pub checked : ℕ
  pub reconciled : ℕ
  pub ids : List String

unfoldable pub reconcile_holds_against_records : {W : Type 0} → State W → Summary × State W
reconcile_holds_against_records s =
    let (ids, holds) = reconcile_each s.records s.holds.records s.holds in
    (
      record { checked = length s.holds.records; reconciled = length ids; ids = ids },
      record s { holds = holds },
    )
