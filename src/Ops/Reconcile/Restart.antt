-- ===== src/Ops/Reconcile/Restart.antt =====
-- A restart between two approvals of one hold: the correction of ops/reconcile.py runs before the
-- new process answers any call of `approve_held_action`.
use rmt_platform.Prelude.{String, true, false, some, map, string_eq, ◌≡◌, refl, ap, sym, ◌∙◌, subst}
use rmt_platform.Durable.{DurableStore, reload, find, modify_first}
use rmt_platform.Durable.Sync.{has_id, IsDistinct, IsSynced, HasDisk}
use rmt_platform.Durable.Restart.{reload-update}
use rmt_platform.Durable.Lookup.{find-modify_first_self, find-map, find-id}
use rmt_platform.Environment.{Env}
use rmt_platform.State.{State, hold_schema, record_schema}
use rmt_platform.Actions.Approval.{
  approved, ApprovalRecord, hold_id, record_id, hold_by_id, record_by_id,
}
use rmt_platform.Governance.Platform.{Platform}
use rmt_platform.Governance.Approve.{is_pending, approve_held_action, update_record}
use rmt_platform.Governance.Approve.Branches.{continue_held-records}
use rmt_platform.Governance.Approve.Boundary.{IsContinued}
use rmt_platform.Governance.Approve.Once.{IsFinal, IsSettled-IsFinal}
use rmt_platform.Governance.Approve.Unsaved.{reload-approve}
use rmt_platform.Ops.Reconcile.{resolution, reconcile_holds_against_records}
use rmt_platform.Ops.Reconcile.Healed.{DistinctHolds, healed, healed-id, reconcile-map}
use rmt_platform.Ops.Reconcile.Durable.{resolution-approved, corrected-status}

module _ {W : Type 0} where
  -- A new process over the same evidence and the same world.
  abbrev pub restart : State W → State W
  restart s = record {
    holds = reload s.holds;
    records = reload s.records;
    authorizations = reload s.authorizations;
    audit = reload s.audit;
    traces = reload s.traces;
    verifications = reload s.verifications;
    world = s.world;
  }

  -- A restart and the correction at its start.
  abbrev pub restart_and_reconcile : State W → State W
  restart_and_reconcile s = (reconcile_holds_against_records (restart s)).1

  -- The evidence of holds and decisions is on disk, under distinct identifiers.
  pub record IsEvident (s : State W) : Type 0 where
    pub holds_disk : HasDisk hold_schema s.holds
    pub holds_synced : IsSynced hold_schema s.holds
    pub holds_distinct : DistinctHolds s.holds.records
    pub records_disk : HasDisk record_schema s.records
    pub records_synced : IsSynced record_schema s.records
    pub records_distinct : IsDistinct record_id (λ r. r.created_at) s.records.records

module _ {W : Type 0} (p : Platform W) (env : Env) (id by : String) (s : State W)
    (evident : IsEvident s) (r : ApprovalRecord) (recorded : record_by_id id s.records ≡ some r)
    (continued : IsContinued p env id by true s) where
  abbrev after : State W
  after = (approve_held_action p env id by true s).1

  abbrev decided : ApprovalRecord → ApprovalRecord
  decided r = record r { decision = "approved"; approved_by = by }

  -- The decision is on disk, and the new process finds it.
  after-records :
      (reload after.records).records
      ≡ modify_first (has_id record_id (λ r. r.created_at) id) decided s.records.records
  unfolding update_record
  after-records =
      ap (λ (t : State W). (reload t.records).records) (ap (λ x. x.1) continued.continues)
      ∙ ap (λ (d : DurableStore ApprovalRecord). (reload d).records)
          (continue_held-records p env id by s continued.hold)
      ∙ reload-update record_id (λ r. r.created_at) id decided s.records evident.records_disk
          evident.records_distinct evident.records_synced

  found-decision : record_by_id id (reload after.records) ≡ some (decided r)
  found-decision =
      ap (find (has_id record_id (λ r. r.created_at) id)) after-records
      ∙ find-modify_first_self record_id (λ r. r.created_at) id decided s.records.records r
          (λ x. refl) recorded

  -- The hold itself comes back pending.
  after-holds : (reload after.holds).records ≡ s.holds.records
  after-holds = reload-approve p env id by s true evident.holds_disk evident.holds_synced

  hold-resolution : resolution (reload after.records) continued.hold ≡ some (approved, by)
  hold-resolution =
      resolution-approved (reload after.records) continued.hold (decided r)
        continued.confirmed.open_status
        (ap (λ k. record_by_id k (reload after.records))
            (find-id hold_id (λ h. h.created_at) id s.holds.records continued.hold continued.found)
          ∙ found-decision)
        refl

  hold-closed : is_pending (healed (reload after.records) continued.hold).status ≡ false
  unfolding healed
  hold-closed =
      rw (hold-resolution, healed)
        (ap is_pending (
          corrected-status (reload after.records) continued.hold.approved_by approved by
            continued.hold))

  corrected-found :
      hold_by_id id (restart_and_reconcile after).holds
      ≡ some (healed (reload after.records) continued.hold)
  corrected-found =
      ap (find (has_id hold_id (λ h. h.created_at) id)) (
        reconcile-map (restart after) (subst DistinctHolds (sym after-holds) evident.holds_distinct)
        ∙ ap (map (healed (reload after.records))) after-holds)
      ∙ find-map hold_id (λ h. h.created_at) id (healed (reload after.records)) s.holds.records
          continued.hold (healed-id (reload after.records)) continued.found

  -- Where the holds and the decision records are on disk under distinct identifiers, and the hold
  -- has a record: after a call that approved and continued the hold, a restart and the correction
  -- at its start, every call about that hold is answered that it is already resolved, and changes
  -- nothing. So no held action is continued a second time across a restart.
  pub restart-IsFinal : IsFinal id (restart_and_reconcile after)
  restart-IsFinal = IsSettled-IsFinal (record {
    hold = healed (reload after.records) continued.hold;
    found = corrected-found;
    closed = hold-closed;
  })
