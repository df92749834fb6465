-- ===== src/Governance/Approve/Branches.antt =====
-- The branches of `approve_held_action` of actions/approval_service.py, each with the tests that lead
-- to it, and what each leaves behind.
use rmt_platform.Prelude.{
  ℕ, String, Bool, true, false, not, some, ◌≡◌, refl, ap, ◌∙◌, inl, inr, ◌⊎◌, arith, Bool-cases,
  Option-cases, if_true, if_false, ◌||◌, ◌!=◌, string_eq, option_eq, !=→≡, not-true,
}
use rmt_platform.Prelude.Dict.{lookup}
use rmt_platform.Prelude.Result.{Result, ok, err}
use rmt_platform.Durable.{mutate}
use rmt_platform.Durable.Lookup.{find-modify_first_self}
use rmt_platform.Environment.{Site, Env}
use rmt_platform.State.{State}
use rmt_platform.Actions.Binding.{bind_action}
use rmt_platform.Actions.Assessment.{AssessmentRegistration}
use rmt_platform.Actions.Approval.{approved, rejected, ApprovalHold, hold_id, hold_by_id}
use rmt_platform.Governance.Platform.{
  Platform, Executed, approval_already_resolved, approval_expired, approval_rejected,
}
use rmt_platform.Governance.Service.Boundary.{IsUntouched}
use rmt_platform.Governance.Approve.{
  is_pending, hold_expired, evaluator_binding, digest_or_empty, assign_hold, update_record,
  continue_held, revalidate, settle, answer_approval,
}
use rmt_platform.Governance.Approve.Stores.{execute_and_verify-SameAuthority}

-- The hold is open and alive, its domain is registered with the evaluators that assessed it, and
-- the held instruction still has the digest that was assessed.
pub record IsConfirmed {W : Type 0} (p : Platform W) (now : ℕ) (hold : ApprovalHold) : Type 0 where
  pub open_status : is_pending hold.status ≡ true
  pub alive : hold_expired hold.expires_at now ≡ false
  pub registration : AssessmentRegistration
  pub registered : lookup hold.governance_domain p.registry ≡ some registration
  pub same_evaluators : evaluator_binding registration hold ≡ true
  pub same_instruction :
      some (digest_or_empty (bind_action p.hashing hold.action hold.adapter_name))
      ≡ hold.instruction_digest

-- The hold is there, and it is no longer pending.
pub record IsSettled {W : Type 0} (id : String) (s : State W) : Type 0 where
  pub hold : ApprovalHold
  pub found : hold_by_id id s.holds ≡ some hold
  pub closed : is_pending hold.status ≡ false

module _ {W : Type 0} (p : Platform W) (env : Env) (id by : String) (s : State W) where
  pub untouched : IsUntouched s s
  untouched = record {
    world = refl;
    authorizations = refl;
    audit = refl;
    traces = refl;
    verifications = refl;
  }

  module _ (hold : ApprovalHold) where
    abbrev pub mismatch : AssessmentRegistration → Bool
    mismatch registration =
        not (evaluator_binding registration hold)
        || (some (digest_or_empty (bind_action p.hashing hold.action hold.adapter_name))
            != hold.instruction_digest)

    or_false : (a b : Bool) → (a || b) ≡ false → (a ≡ false) × (b ≡ false)
    or_false a b h = ground arith

    -- A continuation that is not confirmed changes nothing.
    pub revalidate-cases :
        is_pending hold.status ≡ true
        → hold_expired hold.expires_at (env.now Site.approval_clock) ≡ false
        → (IsConfirmed p (env.now Site.approval_clock) hold
            × (revalidate p env id by hold s ≡ continue_held p env id by hold s))
          ⊎ ((revalidate p env id by hold s).1 ≡ s)
    unfolding revalidate
    revalidate-cases o e = elim (Option-cases (lookup hold.governance_domain p.registry)) [
      | inl gone ↦ inr (rw (gone, revalidate))
      | inr (r, found) ↦ elim (Bool-cases (mismatch r)) [
        | inl differs ↦ inr (rw (found, revalidate, if_true (mismatch r) _ _ differs))
        | inr agrees ↦
            let (bound, same) = or_false (not (evaluator_binding r hold)) _ agrees in
            inl (
              record {
                open_status = o;
                alive = e;
                registration = r;
                registered = found;
                same_evaluators = not-true _ bound;
                same_instruction = !=→≡ _ _ same;
              },
              rw (found, revalidate) (if_false (mismatch r) _ _ agrees),
            )
      ]
    ]

    pub assign_hold-IsSettled :
        (f : ApprovalHold → ApprovalHold)
        → hold_by_id id s.holds ≡ some hold
        → ((h : ApprovalHold) → (f h).approval_id ≡ h.approval_id)
        → is_pending (f hold).status ≡ false
        → IsSettled id (assign_hold id f s)
    unfolding assign_hold mutate
    assign_hold-IsSettled f found keep closed = record {
      hold = f hold;
      found =
          find-modify_first_self hold_id (λ h. h.created_at) id f s.holds.records hold keep found;
      closed = closed;
    }

    -- The continuation ends in the state in which its execution ends.
    answer_approval-state :
        (a : String) (r : Result String Executed × State W) → (answer_approval id a r).1 ≡ r.1
    answer_approval-state a (err e, t) = refl
    answer_approval-state a (ok x, t) = refl

    -- The hold as the continuation leaves it.
    abbrev approve_hold : ApprovalHold → ApprovalHold
    approve_hold h = record h { status = approved; approved_by = some by }

    -- The engine and the verification keep the holds, so what was assigned stays.
    pub continue_held-holds :
        (continue_held p env id by hold s).1.holds ≡ (assign_hold id approve_hold s).holds
    unfolding continue_held update_record
    continue_held-holds =
        ap (λ t. t.holds) (answer_approval-state hold.action_id _)
        ∙ (execute_and_verify-SameAuthority p env _ hold.adapter_name _).holds

    -- They keep the decision records as well.
    pub continue_held-records :
        (continue_held p env id by hold s).1.records ≡ (update_record id "approved" by s).records
    unfolding continue_held update_record assign_hold
    continue_held-records =
        ap (λ t. t.records) (answer_approval-state hold.action_id _)
        ∙ (execute_and_verify-SameAuthority p env _ hold.adapter_name _).records

    pub continue_held-IsSettled :
        hold_by_id id s.holds ≡ some hold → IsSettled id (continue_held p env id by hold s).1
    continue_held-IsSettled found =
        let settled = assign_hold-IsSettled approve_hold found (λ h. refl) refl in
        record {
          hold = settled.hold;
          found = ap (hold_by_id id) continue_held-holds ∙ settled.found;
          closed = settled.closed;
        }

    abbrev is_open : Bool
    is_open = is_pending hold.status

    abbrev is_late : Bool
    is_late = hold_expired hold.expires_at (env.now Site.approval_clock)

    -- The branches of the answer, each with the test that leads to it.
    pub settle-resolved :
        (approve : Bool)
        → is_open ≡ false
        → settle p env id by approve hold s ≡ (ok (approval_already_resolved hold.status id), s)
    unfolding settle
    settle-resolved approve closed = if_true (not is_open) _ _ (ap not closed)

    pub settle-expired :
        (approve : Bool)
        → is_open ≡ true
        → is_late ≡ true
        → settle p env id by approve hold s ≡ (
          ok (approval_expired id hold.action_id),
          assign_hold id (λ h. record h { status = rejected }) s,
        )
    unfolding settle
    settle-expired approve o e = if_false (not is_open) _ _ (ap not o) ∙ if_true is_late _ _ e

    pub settle-rejected :
        is_open ≡ true
        → is_late ≡ false
        → settle p env id by false hold s ≡ (
          ok (approval_rejected id hold.action_id),
          update_record id "rejected" by (assign_hold id (λ h. record h { status = rejected }) s),
        )
    unfolding settle
    settle-rejected o e = if_false (not is_open) _ _ (ap not o) ∙ if_false is_late _ _ e

    pub settle-alive :
        is_open ≡ true
        → is_late ≡ false
        → settle p env id by true hold s ≡ revalidate p env id by hold s
    unfolding settle
    settle-alive o e = if_false (not is_open) _ _ (ap not o) ∙ if_false is_late _ _ e
