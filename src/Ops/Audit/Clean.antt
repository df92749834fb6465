-- ===== src/Ops/Audit/Clean.antt =====
-- What the audit of ops/reconcile.py reports, and that the correction before it leaves no authorized
-- hold pending.
use rmt_platform.Prelude.{
  String, false, Option, none, some, List, [], ◌∷◌, ◌≡◌, ◌≢◌, ◌↔◌, refl, ap, sym, ◌∙◌, arith, ◌==◌,
  string_eq, All, Option-cases, Bool-cases, inl, inr, ==→≢, ≢→==, if_false,
}
use rmt_platform.Durable.{DurableStore}
use rmt_platform.State.{State}
use rmt_platform.Actions.Approval.{ApprovalHold, ApprovalRecord, hold_by_id, record_by_id}
use rmt_platform.Actions.Authorization.{ExecutionAuthorization}
use rmt_platform.Governance.Approve.{is_pending}
use rmt_platform.Ops.Reconcile.{decision_status}
use rmt_platform.Ops.Audit.{hold_issue, record_issue, issue_of, details, audit_authorizations}

-- The approval that an authorization names was decided as approved, and its hold, if there is one, is
-- not pending.
pub record IsApproved (records : DurableStore ApprovalRecord) (holds : DurableStore ApprovalHold)
    (id : String) : Type 0 where
  pub decision : ApprovalRecord
  pub recorded : record_by_id id records ≡ some decision
  pub approves : decision.decision ≡ "approved"
  pub closed : (h : ApprovalHold) → hold_by_id id holds ≡ some h → is_pending h.status ≡ false

record_approves :
    (r : ApprovalRecord) (hold : Option ApprovalHold)
    → record_issue (some r) hold ≡ none
    → r.decision ≡ "approved"
unfolding record_issue decision_status
record_approves r hold h =
    ground (
      arith,
      string_eq.equals_iff r.decision "approved",
      string_eq.equals_iff r.decision "rejected",
    )

record_closes :
    (r : ApprovalRecord) (hold : ApprovalHold)
    → record_issue (some r) (some hold) ≡ none
    → is_pending hold.status ≡ false
unfolding record_issue decision_status hold_issue
record_closes r hold h = ground arith

approved_issue :
    (r : ApprovalRecord) (hold : Option ApprovalHold)
    → r.decision ≡ "approved"
    → record_issue (some r) hold ≡ hold_issue hold
unfolding record_issue decision_status
approved_issue r hold h = rw h

closed_issue :
    (hold : Option ApprovalHold)
    → ((h : ApprovalHold) → hold ≡ some h → is_pending h.status ≡ false)
    → hold_issue hold ≡ none
unfolding hold_issue
closed_issue none closed = refl
closed_issue (some h) closed = rw (closed h refl)

module _ (records : DurableStore ApprovalRecord) (holds : DurableStore ApprovalHold) where
  -- An authorization that names no approval, or one that is approved.
  abbrev pub IsConsistent : ExecutionAuthorization → Type 0
  IsConsistent a = (id : String) → a.approval_id ≡ some id → id ≢ "" → IsApproved records holds id

  record_issue-none :
      (id : String)
      → record_issue (record_by_id id records) (hold_by_id id holds) ≡ none
      → IsApproved records holds id
  unfolding record_issue
  record_issue-none id h = elim (Option-cases (record_by_id id records)) [
    | inl missing ↦ cc (rw missing at h)
    | inr (r, recorded) ↦
        let e = ap (λ x. record_issue x (hold_by_id id holds)) (sym recorded) ∙ h in
        record {
          decision = r;
          recorded = recorded;
          approves = record_approves r (hold_by_id id holds) e;
          closed = λ hold found. record_closes r hold (ap (record_issue (some r)) (sym found) ∙ e);
        }
  ]

  none-record_issue :
      (id : String)
      → IsApproved records holds id
      → record_issue (record_by_id id records) (hold_by_id id holds) ≡ none
  none-record_issue id a =
      ap (λ x. record_issue x (hold_by_id id holds)) a.recorded
      ∙ approved_issue a.decision (hold_by_id id holds) a.approves
      ∙ closed_issue (hold_by_id id holds) a.closed

  issue_of-none :
      (link : Option String)
      → issue_of records holds link ≡ none
      → (id : String) → link ≡ some id
      → id ≢ ""
      → IsApproved records holds id
  unfolding issue_of
  issue_of-none none h id e named = cc
  issue_of-none (some k) h id e named =
      record_issue-none id
        (sym (if_false (id == "") _ _ (≢→== id "" named)) ∙ ap (issue_of records holds) (sym e) ∙ h)

  none-issue_of :
      (link : Option String)
      → ((id : String) → link ≡ some id → id ≢ "" → IsApproved records holds id)
      → issue_of records holds link ≡ none
  unfolding issue_of
  none-issue_of none c = refl
  none-issue_of (some id) c = elim (Bool-cases (id == "")) [
    | inl unnamed ↦ rw unnamed
    | inr named ↦ rw named (none-record_issue id (c id refl (==→≢ id "" named)))
  ]

  details-IsConsistent :
      (auths : List ExecutionAuthorization)
      → details records holds auths ≡ []
      → All IsConsistent auths
  unfolding details
  details-IsConsistent [] h = tt
  details-IsConsistent (a ∷ auths) h = elim (Option-cases (issue_of records holds a.approval_id)) [
    | inl quiet ↦
        (issue_of-none a.approval_id quiet, details-IsConsistent auths (rw (quiet, details) at h))
    | inr (issue, e) ↦ cc (rw (e, details) at h)
  ]

  IsConsistent-details :
      (auths : List ExecutionAuthorization)
      → All IsConsistent auths
      → details records holds auths ≡ []
  unfolding details
  IsConsistent-details [] c = refl
  IsConsistent-details (a ∷ auths) (c, cs) =
      rw (none-issue_of a.approval_id c, details) (IsConsistent-details auths cs)

-- The audit reports nothing exactly when every authorization that names an approval names one whose
-- record is approved and whose hold, if there is one, is not pending.
pub audit-IsConsistent :
    {W : Type 0} (s : State W)
    → ((audit_authorizations s).found ≡ [])
      ↔ All (IsConsistent s.records s.holds) s.authorizations.records
unfolding audit_authorizations
audit-IsConsistent s = (
  details-IsConsistent s.records s.holds s.authorizations.records,
  IsConsistent-details s.records s.holds s.authorizations.records,
)
