-- ===== src/Ops/Audit/Settled.antt =====
-- The audit of ops/reconcile.py after the correction that runs before it.
use rmt_platform.Prelude.{
  String, Bool, false, Option, none, some, List, [], ◌∷◌, map, ◌≡◌, ◌≢◌, ap, sym, ◌∙◌, arith, ◌==◌,
  string_eq, All, Option-cases, Bool-cases, inl, inr, if_false,
}
use rmt_platform.Durable.{DurableStore, find}
use rmt_platform.Durable.Lookup.{find-id}
use rmt_platform.State.{State}
use rmt_platform.Actions.Approval.{ApprovalHold, ApprovalRecord, hold_id, hold_by_id, record_by_id}
use rmt_platform.Actions.Authorization.{ExecutionAuthorization}
use rmt_platform.Governance.Approve.{is_pending}
use rmt_platform.Ops.Reconcile.{decision_status, resolution, reconcile_holds_against_records}
use rmt_platform.Ops.Reconcile.Healed.{DistinctHolds, healed, is_hold, reconcile-map}
use rmt_platform.Ops.Reconcile.Durable.{resolution-healed}
use rmt_platform.Ops.Audit.{
  hold_still_pending, hold_issue, record_issue, issue_of, details, audit_authorizations,
  reconcile_governance_stores,
}

find-map_inverse :
    (p : ApprovalHold → Bool) (f : ApprovalHold → ApprovalHold) (xs : List ApprovalHold)
    (b : ApprovalHold)
    → find p (map f xs) ≡ some b
    → (a : ApprovalHold) × (b ≡ f a)
unfolding find
find-map_inverse p f [] b h = cc
find-map_inverse p f (x ∷ xs) b h = elim (Bool-cases (p (f x))) [
  | inl hit ↦ (x, ground arith)
  | inr miss ↦ find-map_inverse p f xs b (rw miss at h)
]

-- A hold with nothing to correct and a terminal record is not pending.
idle_closed :
    (records : DurableStore ApprovalRecord) (h : ApprovalHold) (r : ApprovalRecord)
    → resolution records h ≡ none
    → record_by_id h.approval_id records ≡ some r
    → decision_status r.decision ≢ none
    → is_pending h.status ≡ false
unfolding resolution
idle_closed records h r idle found terminal = elim (Bool-cases (is_pending h.status)) [
  | inr closed ↦ closed
  | inl o ↦ elim (Option-cases (decision_status r.decision)) [
    | inl open_ ↦ absurd (terminal open_)
    | inr (t, e) ↦ ground (arith, idle, found, o, e)
  ]
]

closed_quiet : (h : ApprovalHold) → is_pending h.status ≡ false → hold_issue (some h) ≡ none
unfolding hold_issue
closed_quiet h closed = if_false (is_pending h.status) _ _ closed

-- The record of a hold that is closed, or not there, never leads to the last issue.
not_pending_issue :
    (r : ApprovalRecord) (hold : Option ApprovalHold)
    → (decision_status r.decision ≢ none → hold_issue hold ≡ none)
    → record_issue (some r) hold ≢ some hold_still_pending
unfolding record_issue
not_pending_issue r hold quiet e = elim (Bool-cases (r.decision == "rejected")) [
  | inl is_rejected ↦ cc (rw is_rejected at e)
  | inr other ↦ elim (Option-cases (decision_status r.decision)) [
    | inl open_ ↦ cc (rw (other, open_) at e)
    | inr (t, decided) ↦ cc (rw (other, decided, quiet (λ n. cc (sym decided ∙ n))) at e)
  ]
]

module _ (records : DurableStore ApprovalRecord) (holds : DurableStore ApprovalHold) where
  -- Every hold that can be found has nothing to correct.
  abbrev Corrected : Type 0
  Corrected =
      (id : String) (h : ApprovalHold) → hold_by_id id holds ≡ some h → resolution records h ≡ none

  found_quiet :
      Corrected
      → (id : String) (r : ApprovalRecord) → record_by_id id records ≡ some r
      → decision_status r.decision ≢ none
      → hold_issue (hold_by_id id holds) ≡ none
  unfolding hold_issue
  found_quiet corrected id r recorded terminal = elim (Option-cases (hold_by_id id holds)) [
    | inl absent ↦ rw absent
    | inr (h, found) ↦
        ap hold_issue found
        ∙ closed_quiet h (
            idle_closed records h r (corrected id h found)
              (ap (λ k. record_by_id k records)
                  (find-id hold_id (λ x. x.created_at) id holds.records h found)
                ∙ recorded)
              terminal)
  ]

  issue_settled :
      Corrected → (link : Option String) → issue_of records holds link ≢ some hold_still_pending
  unfolding issue_of record_issue
  issue_settled corrected none e = cc
  issue_settled corrected (some id) e = elim (Bool-cases (id == "")) [
    | inl unnamed ↦ cc (rw unnamed at e)
    | inr named ↦ elim (Option-cases (record_by_id id records)) [
      | inl missing ↦ cc (rw (named, missing) at e)
      | inr (r, recorded) ↦
          not_pending_issue r (hold_by_id id holds) (found_quiet corrected id r recorded) (
            ap (λ x. record_issue x (hold_by_id id holds)) (sym recorded)
            ∙ sym (if_false (id == "") _ _ named)
            ∙ e)
    ]
  ]

  details_settled :
      Corrected
      → (auths : List ExecutionAuthorization)
      → All (λ d. d.issue ≢ hold_still_pending) (details records holds auths)
  unfolding details
  details_settled corrected [] = tt
  details_settled corrected (a ∷ auths) =
      elim (Option-cases (issue_of records holds a.approval_id)) [
        | inl quiet ↦ rw (quiet, details) (details_settled corrected auths)
        | inr (issue, e) ↦
            rw (e, details)
              (
                λ same. issue_settled corrected a.approval_id (e ∙ ap some same),
                details_settled corrected auths,
              )
      ]

-- Where no identifier of a hold occurs twice, the audit that follows the correction at a start never
-- reports an authorization whose hold is still pending.
pub audit-settled :
    {W : Type 0} (s : State W)
    → DistinctHolds s.holds.records
    → All (λ d. d.issue ≢ hold_still_pending) (reconcile_governance_stores s).0.1.found
unfolding reconcile_governance_stores audit_authorizations reconcile_holds_against_records
audit-settled s distinct =
    let s' = (reconcile_holds_against_records s).1 in
    details_settled s.records s'.holds
      (λ id h found.
        let (a, same) =
          find-map_inverse (is_hold id) (healed s.records) s.holds.records h
            (ap (find (is_hold id)) (sym (reconcile-map s distinct)) ∙ found) in
        ap (resolution s.records) same ∙ resolution-healed s.records a)
      s.authorizations.records
