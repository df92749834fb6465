-- ===== src/Ops/Reconcile/Durable.antt =====
-- That the correction of ops/reconcile.py is complete, that a second run finds nothing to do, and
-- that a later restart keeps it.
use rmt_platform.Prelude.{
  String, true, false, not, Option, none, some, List, [], ◌∷◌, map, string_eq, ◌≡◌, refl, ap, sym,
  ◌∙◌, subst, arith, length, Option-cases, inl, inr, All, if_true,
}
use rmt_platform.Durable.{DurableStore, reload}
use rmt_platform.Durable.Sync.{
  IsSynced, HasDisk, records-update, update-IsSynced, backend-update, modify_first-IsDistinct,
}
use rmt_platform.Durable.Restart.{reload-synced}
use rmt_platform.State.{State, hold_schema}
use rmt_platform.Actions.Approval.{
  ApprovalStatus, approved, ApprovalHold, ApprovalRecord, hold_id, record_by_id,
}
use rmt_platform.Governance.Approve.{is_pending}
use rmt_platform.Ops.Reconcile.{
  decision_status, resolution, corrected, reconcile_each, reconcile_holds_against_records,
}
use rmt_platform.Ops.Reconcile.Healed.{DistinctHolds, healed, corrected-id, reconcile-map, is_hold}

module _ (records : DurableStore ApprovalRecord) where
  -- The status that a record gives is not pending.
  pub resolution-terminal :
      (h : ApprovalHold) (t : ApprovalStatus) (by : String)
      → resolution records h ≡ some (t, by)
      → is_pending t ≡ false
  unfolding resolution decision_status
  resolution-terminal h t by e = ground arith

  resolution-closed : (h : ApprovalHold) → is_pending h.status ≡ false → resolution records h ≡ none
  unfolding resolution
  resolution-closed h closed = if_true (not (is_pending h.status)) _ _ (ap not closed)

  -- What a pending hold with an approved record is corrected to.
  pub resolution-approved :
      (h : ApprovalHold) (r : ApprovalRecord)
      → is_pending h.status ≡ true
      → record_by_id h.approval_id records ≡ some r
      → r.decision ≡ "approved"
      → resolution records h ≡ some (approved, r.approved_by)
  unfolding resolution decision_status
  resolution-approved h r o found decided =
      ground (arith, found, decided, o, string_eq.equals_iff r.decision "approved")

  pub corrected-status :
      (b : Option String) (t : ApprovalStatus) (by : String) (h : ApprovalHold)
      → (corrected b t by h).status ≡ t
  corrected-status none t by h = refl
  corrected-status (some b) t by h = refl

  -- A hold that was corrected needs no correction.
  pub resolution-healed : (h : ApprovalHold) → resolution records (healed records h) ≡ none
  unfolding healed
  resolution-healed h = elim (Option-cases (resolution records h)) [
    | inl kept ↦ rw (kept, healed) kept
    | inr ((t, by), e) ↦
        rw (e, healed)
          (resolution-closed (corrected h.approved_by t by h)
            (ap is_pending (corrected-status h.approved_by t by h) ∙ resolution-terminal h t by e))
  ]

  abbrev NothingToDo : List ApprovalHold → Type 0
  NothingToDo = All (λ h. resolution records h ≡ none)

  NothingToDo-healed : (hs : List ApprovalHold) → NothingToDo (map (healed records) hs)
  NothingToDo-healed [] = tt
  NothingToDo-healed (h ∷ hs) = (resolution-healed h, NothingToDo-healed hs)

  each-idle :
      (hs : List ApprovalHold) (s : DurableStore ApprovalHold)
      → NothingToDo hs
      → reconcile_each records hs s ≡ ([], s)
  unfolding reconcile_each
  each-idle [] s idle = refl
  each-idle (h ∷ hs) s idle = rw (idle.0, reconcile_each) (each-idle hs s idle.1)

  -- The loop keeps disk and memory alike.
  each-IsSynced :
      (hs : List ApprovalHold) (s : DurableStore ApprovalHold)
      → HasDisk hold_schema s
      → DistinctHolds s.records
      → IsSynced hold_schema s
      → HasDisk hold_schema (reconcile_each records hs s).1
        × IsSynced hold_schema (reconcile_each records hs s).1
  unfolding reconcile_each
  each-IsSynced [] s disk distinct synced = (disk, synced)
  each-IsSynced (h ∷ hs) s disk distinct synced = elim (Option-cases (resolution records h)) [
    | inl kept ↦ rw (kept, reconcile_each) (each-IsSynced hs s disk distinct synced)
    | inr ((t, by), e) ↦
        let f = corrected h.approved_by t by in
        rw (e, reconcile_each)
          (each-IsSynced hs _ (rw (backend-update hold_schema (is_hold h.approval_id) f s) disk)
            (subst DistinctHolds (sym (records-update hold_schema (is_hold h.approval_id) f s)) (
              modify_first-IsDistinct hold_id (λ x. x.created_at) h.approval_id f s.records
                (corrected-id h.approved_by t by) distinct))
            (update-IsSynced hold_id (λ x. x.created_at) h.approval_id f s disk distinct synced))
  ]

module _ {W : Type 0} (s : State W) (distinct : DistinctHolds s.holds.records) where
  abbrev corrected_state : State W
  corrected_state = (reconcile_holds_against_records s).1

  -- Where no identifier of a hold occurs twice, a second run of the correction reports no hold and
  -- changes nothing.
  pub reconcile-again : reconcile_holds_against_records corrected_state ≡ (
    record { checked = length corrected_state.holds.records; reconciled = 0; ids = [] },
    corrected_state,
  )
  unfolding reconcile_holds_against_records
  reconcile-again =
      ap
        (λ (r : List String × DurableStore ApprovalHold). (
          record {
            checked = length corrected_state.holds.records;
            reconciled = length r.0;
            ids = r.0;
          },
          record corrected_state { holds = r.1 },
        ))
        (each-idle s.records corrected_state.holds.records corrected_state.holds (
          subst (NothingToDo s.records) (sym (reconcile-map s distinct))
            (NothingToDo-healed s.records s.holds.records)))

  -- Where, besides, the disk mirrors the memory, a restart after the correction finds the corrected
  -- holds.
  pub reload-reconcile :
      HasDisk hold_schema s.holds
      → IsSynced hold_schema s.holds
      → (reload corrected_state.holds).records ≡ map (healed s.records) s.holds.records
  unfolding reconcile_holds_against_records
  reload-reconcile disk synced =
      let (disk', synced') = each-IsSynced s.records s.holds.records s.holds disk distinct synced in
      reload-synced hold_schema corrected_state.holds disk' synced' ∙ reconcile-map s distinct
