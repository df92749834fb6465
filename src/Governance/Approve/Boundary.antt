-- ===== src/Governance/Approve/Boundary.antt =====
-- What must hold before `approve_held_action` of actions/approval_service.py authorizes anything.
use rmt_platform.Prelude.{
  Option, String, Bool, true, false, none, some, ◌≡◌, refl, ap, sym, subst, ◌∙◌, inl, inr, ◌⊎◌,
  Bool-cases, Option-cases, if_false, ◌!=◌, string_eq, option_eq, !=-refl,
}
use rmt_platform.Prelude.Result.{Result, ok}
use rmt_platform.Environment.{Site, Env}
use rmt_platform.State.{State}
use rmt_platform.Actions.Binding.{bind_action}
use rmt_platform.Actions.Approval.{ApprovalHold, hold_by_id}
use rmt_platform.Governance.Platform.{Platform, ApprovalOutcome, approval_not_found}
use rmt_platform.Governance.Service.Boundary.{IsUntouched}
use rmt_platform.Governance.Approve.{
  is_pending, hold_expired, digest_or_empty, assign_hold, update_record, continue_held, revalidate,
  settle, approve_held_action,
}
use rmt_platform.Governance.Approve.Branches.{
  IsConfirmed, untouched, mismatch, revalidate-cases, settle-resolved, settle-expired,
  settle-rejected, settle-alive,
}

-- The call continues a hold that is confirmed, and the call approved it.
pub record IsContinued {W : Type 0} (p : Platform W) (env : Env) (id by : String) (approve : Bool)
    (s : State W) : Type 0 where
  pub hold : ApprovalHold
  pub found : hold_by_id id s.holds ≡ some hold
  pub confirmed : IsConfirmed p (env.now Site.approval_clock) hold
  pub approves : approve ≡ true
  pub continues : approve_held_action p env id by approve s ≡ continue_held p env id by hold s

module _ {W : Type 0} (p : Platform W) (env : Env) (id by : String) (s : State W) where
  pub found-settle :
      (hold : ApprovalHold)
      → hold_by_id id s.holds ≡ some hold
      → (approve : Bool)
      → approve_held_action p env id by approve s ≡ settle p env id by approve hold s
  unfolding approve_held_action
  found-settle hold found approve = rw (found, approve_held_action) refl

  pub absent-unchanged :
      hold_by_id id s.holds ≡ none
      → (approve : Bool)
      → approve_held_action p env id by approve s ≡ (ok (approval_not_found id), s)
  unfolding approve_held_action
  absent-unchanged absent approve = rw (absent, approve_held_action) refl

  -- An answer with an untouched state is untouched.
  by_answer :
      {r r' : Result String ApprovalOutcome × State W}
      → r ≡ r'
      → IsUntouched s r'.1
      → IsUntouched s r.1
  by_answer e u =
      subst (λ (x : Result String ApprovalOutcome × State W). IsUntouched s x.1) (sym e) u

  by_state : {s' : State W} → s' ≡ s → IsUntouched s s'
  by_state e = subst (IsUntouched s) (sym e) (untouched p env id by s)

  by_hold : (f : ApprovalHold → ApprovalHold) → IsUntouched s (assign_hold id f s)
  unfolding assign_hold
  by_hold f = record {
    world = refl;
    authorizations = refl;
    audit = refl;
    traces = refl;
    verifications = refl;
  }

  by_record :
      (decision : String) (f : ApprovalHold → ApprovalHold)
      → IsUntouched s (update_record id decision by (assign_hold id f s))
  unfolding assign_hold update_record
  by_record decision f = record {
    world = refl;
    authorizations = refl;
    audit = refl;
    traces = refl;
    verifications = refl;
  }

  -- A hold that was found, by the branch that the call takes.
  module _ (hold : ApprovalHold) (found : hold_by_id id s.holds ≡ some hold) where
    open-boundary :
        (approve : Bool)
        → is_pending hold.status ≡ true
        → hold_expired hold.expires_at (env.now Site.approval_clock) ≡ false
        → IsContinued p env id by approve s ⊎ IsUntouched s (settle p env id by approve hold s).1
    open-boundary false o alive =
        inr (by_answer (settle-rejected p env id by s hold o alive) (by_record "rejected" _))
    open-boundary true o alive = elim (revalidate-cases p env id by s hold o alive) [
      | inr same ↦ inr (by_answer (settle-alive p env id by s hold o alive) (by_state same))
      | inl (confirmed, continues) ↦ inl (record {
        hold = hold;
        found = found;
        confirmed = confirmed;
        approves = refl;
        continues =
            found-settle hold found true ∙ settle-alive p env id by s hold o alive ∙ continues;
      })
    ]

    settle-boundary :
        (approve : Bool)
        → IsContinued p env id by approve s ⊎ IsUntouched s (settle p env id by approve hold s).1
    settle-boundary approve = elim (Bool-cases (is_pending hold.status)) [
      | inr closed ↦
          inr (
            by_answer (settle-resolved p env id by s hold approve closed) (untouched p env id by s))
      | inl o ↦ elim (Bool-cases (hold_expired hold.expires_at (env.now Site.approval_clock))) [
        | inl late ↦ inr (by_answer (settle-expired p env id by s hold approve o late) (by_hold _))
        | inr alive ↦ open-boundary approve o alive
      ]
    ]

  -- Whatever is asked about a hold, nothing is executed, authorized, audited, traced or verified,
  -- unless the call approves a hold that is confirmed, and then it continues that hold.
  pub approve-boundary :
      (approve : Bool)
      → IsContinued p env id by approve s
        ⊎ IsUntouched s (approve_held_action p env id by approve s).1
  approve-boundary approve = elim (Option-cases (hold_by_id id s.holds)) [
    | inl absent ↦ inr (by_answer (absent-unchanged absent approve) (untouched p env id by s))
    | inr (hold, found) ↦ elim (settle-boundary hold found approve) [
      | inl continued ↦ inl continued
      | inr u ↦ inr (by_answer (found-settle hold found approve) u)
    ]
  ]

  module _ (hold : ApprovalHold)
      (confirmed : IsConfirmed p (env.now Site.approval_clock) hold) where
    no_mismatch : mismatch p env id by s hold confirmed.registration ≡ false
    no_mismatch = rw confirmed.same_evaluators (
        ap (λ d. some (digest_or_empty (bind_action p.hashing hold.action hold.adapter_name)) != d)
          (sym confirmed.same_instruction)
        ∙ !=-refl {A = Option String} _)

    revalidate-continues : revalidate p env id by hold s ≡ continue_held p env id by hold s
    unfolding revalidate
    revalidate-continues =
        rw (confirmed.registered, revalidate)
          (if_false (mismatch p env id by s hold confirmed.registration) _ _ no_mismatch)

    -- A call that approves a hold that is there and confirmed is never turned away: it continues the
    -- hold.
    pub confirmed-continues :
        hold_by_id id s.holds ≡ some hold
        → approve_held_action p env id by true s ≡ continue_held p env id by hold s
    confirmed-continues found =
        found-settle hold found true
        ∙ settle-alive p env id by s hold confirmed.open_status confirmed.alive
        ∙ revalidate-continues
