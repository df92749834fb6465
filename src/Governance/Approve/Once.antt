-- ===== src/Governance/Approve/Once.antt =====
-- A held action is continued at most once while the process lives: the answer of
-- `approve_held_action` of actions/approval_service.py after a call that changed anything.
use rmt_platform.Prelude.{
  String, Bool, true, false, some, ◌≡◌, refl, ap, sym, subst, ◌∙◌, inl, inr, ◌⊎◌, Bool-cases,
  Option-cases,
}
use rmt_platform.Prelude.Result.{Result, ok}
use rmt_platform.Environment.{Site, Env}
use rmt_platform.State.{State}
use rmt_platform.Actions.Approval.{rejected, ApprovalHold, hold_by_id}
use rmt_platform.Governance.Platform.{Platform, ApprovalOutcome, approval_already_resolved}
use rmt_platform.Governance.Approve.{
  is_pending, hold_expired, assign_hold, update_record, settle, approve_held_action,
}
use rmt_platform.Governance.Approve.Branches.{
  IsSettled, revalidate-cases, settle-resolved, settle-expired, settle-rejected, settle-alive,
  assign_hold-IsSettled, continue_held-IsSettled,
}
use rmt_platform.Governance.Approve.Boundary.{found-settle, absent-unchanged}

module _ {W : Type 0} where
  -- The hold is settled, and every later call, whoever makes it and whatever it asks, answers that
  -- it is, and changes nothing.
  pub record IsFinal (id : String) (s : State W) : Type 0 where
    pub settled : IsSettled id s
    pub later :
        (p : Platform W) (env : Env) (by : String) (approve : Bool)
        → approve_held_action p env id by approve s
          ≡ (ok (approval_already_resolved settled.hold.status id), s)

  pub IsSettled-IsFinal : {id : String} {s : State W} → IsSettled id s → IsFinal id s
  IsSettled-IsFinal {id = id} {s = s} settled = record {
    settled = settled;
    later = λ p env by approve.
        found-settle p env id by s settled.hold settled.found approve
        ∙ settle-resolved p env id by s settled.hold approve settled.closed;
  }

module _ {W : Type 0} (p : Platform W) (env : Env) (id by : String) (s : State W) where
  abbrev KeptOrSettled : Result String ApprovalOutcome × State W → Type 0
  KeptOrSettled r = (r.1 ≡ s) ⊎ IsSettled id r.1

  by_answer :
      {r r' : Result String ApprovalOutcome × State W} → r ≡ r' → KeptOrSettled r' → KeptOrSettled r
  by_answer e = subst KeptOrSettled (sym e)

  module _ (hold : ApprovalHold) (found : hold_by_id id s.holds ≡ some hold) where
    rejected-IsSettled : IsSettled id (assign_hold id (λ h. record h { status = rejected }) s)
    rejected-IsSettled = assign_hold-IsSettled p env id by s hold _ found (λ h. refl) refl

    recorded-IsSettled :
        IsSettled id
          (update_record id "rejected" by (assign_hold id (λ h. record h { status = rejected }) s))
    unfolding update_record
    recorded-IsSettled = record {
      hold = rejected-IsSettled.hold;
      found = rejected-IsSettled.found;
      closed = rejected-IsSettled.closed;
    }

    open-settled :
        (approve : Bool)
        → is_pending hold.status ≡ true
        → hold_expired hold.expires_at (env.now Site.approval_clock) ≡ false
        → KeptOrSettled (settle p env id by approve hold s)
    open-settled false o alive =
        by_answer (settle-rejected p env id by s hold o alive) (inr recorded-IsSettled)
    open-settled true o alive =
        by_answer (settle-alive p env id by s hold o alive)
          (elim (revalidate-cases p env id by s hold o alive) [
            | inr same ↦ inl same
            | inl (confirmed, continues) ↦
                by_answer continues (inr (continue_held-IsSettled p env id by s hold found))
          ])

    found-settled : (approve : Bool) → KeptOrSettled (settle p env id by approve hold s)
    found-settled approve = elim (Bool-cases (is_pending hold.status)) [
      | inr closed ↦ by_answer (settle-resolved p env id by s hold approve closed) (inl refl)
      | inl o ↦ elim (Bool-cases (hold_expired hold.expires_at (env.now Site.approval_clock))) [
        | inl late ↦
            by_answer (settle-expired p env id by s hold approve o late) (inr rejected-IsSettled)
        | inr alive ↦ open-settled approve o alive
      ]
    ]

  -- A call about a hold either changes nothing at all, or leaves the hold settled: then every later
  -- call, whoever makes it and whatever it asks, is answered that the hold is already resolved, and
  -- changes nothing.
  pub approve-once :
      (approve : Bool)
      → ((approve_held_action p env id by approve s).1 ≡ s)
        ⊎ IsFinal id (approve_held_action p env id by approve s).1
  approve-once approve = elim (Option-cases (hold_by_id id s.holds)) [
    | inl absent ↦ inl (ap (λ r. r.1) (absent-unchanged p env id by s absent approve))
    | inr (hold, found) ↦
        elim (by_answer (found-settle p env id by s hold found approve)
          (found-settled hold found approve)) [
            | inl same ↦ inl same
            | inr settled ↦ inr (IsSettled-IsFinal settled)
          ]
  ]
