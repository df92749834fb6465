-- ===== src/Governance/Approve/Unsaved.antt =====
-- What a restart forgets: `approve_held_action` of actions/approval_service.py assigns to the hold
-- in memory, and saves no hold.
use rmt_platform.Prelude.{
  String, Bool, true, false, ◌≡◌, refl, ap, sym, subst, ◌∙◌, inl, inr, Bool-cases, Option-cases,
}
use rmt_platform.Prelude.Result.{Result}
use rmt_platform.Durable.{DurableStore, mutate, reload}
use rmt_platform.Durable.Sync.{IsSynced, HasDisk}
use rmt_platform.Durable.Restart.{reload-synced}
use rmt_platform.Environment.{Site, Env}
use rmt_platform.State.{State, hold_schema}
use rmt_platform.Actions.Approval.{ApprovalHold, hold_by_id}
use rmt_platform.Governance.Platform.{Platform, ApprovalOutcome}
use rmt_platform.Governance.Approve.{
  is_pending, hold_expired, assign_hold, update_record, settle, approve_held_action,
}
use rmt_platform.Governance.Approve.Branches.{
  revalidate-cases, settle-resolved, settle-expired, settle-rejected, settle-alive,
  continue_held-holds,
}
use rmt_platform.Governance.Approve.Boundary.{found-settle, absent-unchanged}

-- Two stores with one disk.
pub record SameDisk (a b : DurableStore ApprovalHold) : Type 0 where
  pub backend : b.backend ≡ a.backend
  pub rows : b.rows ≡ a.rows

-- Stores with one disk come back alike.
reload-same :
    (a b : DurableStore ApprovalHold) → SameDisk a b → (reload b).records ≡ (reload a).records
unfolding reload
reload-same a b same = rw (same.backend, same.rows) refl

kept : {a b : DurableStore ApprovalHold} → b ≡ a → SameDisk a b
kept e = record { backend = ap (λ h. h.backend) e; rows = ap (λ h. h.rows) e }

module _ {W : Type 0} (p : Platform W) (env : Env) (id by : String) (s : State W) where
  abbrev Unsaved : Result String ApprovalOutcome × State W → Type 0
  Unsaved r = SameDisk s.holds r.1.holds

  by_answer : {r r' : Result String ApprovalOutcome × State W} → r ≡ r' → Unsaved r' → Unsaved r
  by_answer e = subst Unsaved (sym e)

  assigned : (f : ApprovalHold → ApprovalHold) → SameDisk s.holds (assign_hold id f s).holds
  unfolding assign_hold mutate
  assigned f = record { backend = refl; rows = refl }

  recorded :
      (f : ApprovalHold → ApprovalHold)
      → SameDisk s.holds (update_record id "rejected" by (assign_hold id f s)).holds
  unfolding assign_hold mutate update_record
  recorded f = record { backend = refl; rows = refl }

  module _ (hold : ApprovalHold) where
    open-Unsaved :
        (approve : Bool)
        → is_pending hold.status ≡ true
        → hold_expired hold.expires_at (env.now Site.approval_clock) ≡ false
        → Unsaved (settle p env id by approve hold s)
    open-Unsaved false o alive = by_answer (settle-rejected p env id by s hold o alive) (recorded _)
    open-Unsaved true o alive =
        by_answer (settle-alive p env id by s hold o alive)
          (elim (revalidate-cases p env id by s hold o alive) [
            | inr same ↦ kept (ap (λ t. t.holds) same)
            | inl (confirmed, continues) ↦ by_answer continues (
                subst (λ h. SameDisk s.holds h) (sym (continue_held-holds p env id by s hold))
                  (assigned _))
          ])

    found-Unsaved : (approve : Bool) → Unsaved (settle p env id by approve hold s)
    found-Unsaved approve = elim (Bool-cases (is_pending hold.status)) [
      | inr closed ↦ by_answer (settle-resolved p env id by s hold approve closed) (kept refl)
      | inl o ↦ elim (Bool-cases (hold_expired hold.expires_at (env.now Site.approval_clock))) [
        | inl late ↦ by_answer (settle-expired p env id by s hold approve o late) (assigned _)
        | inr alive ↦ open-Unsaved approve o alive
      ]
    ]

  approve-SameDisk :
      (approve : Bool) → SameDisk s.holds (approve_held_action p env id by approve s).1.holds
  approve-SameDisk approve = elim (Option-cases (hold_by_id id s.holds)) [
    | inl absent ↦ by_answer (absent-unchanged p env id by s absent approve) (kept refl)
    | inr (hold, found) ↦
        by_answer (found-settle p env id by s hold found approve) (found-Unsaved hold approve)
  ]

  -- Where the holds on disk mirrored those in memory before a call, a process that starts after it
  -- finds every hold as it was before the call, even if the call approved and executed one.
  pub reload-approve :
      (approve : Bool)
      → HasDisk hold_schema s.holds
      → IsSynced hold_schema s.holds
      → (reload (approve_held_action p env id by approve s).1.holds).records ≡ s.holds.records
  reload-approve approve disk synced =
      reload-same _ _ (approve-SameDisk approve) ∙ reload-synced hold_schema s.holds disk synced
