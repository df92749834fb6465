-- ===== src/Tests/Restarts.antt =====
-- The correction at a start, on a hold that is pending although its record is approved.
use rmt_platform.Prelude.{[], length, map, ◌≡◌}
use rmt_platform.Durable.{reload}
use rmt_platform.State.{State}
use rmt_platform.Governance.Approve.{update_record}
use rmt_platform.Ops.Reconcile.{reconcile_holds_against_records}
use rmt_platform.Ops.Reconcile.Healed.{DistinctHolds, healed, AreHealed, reconcile-AreHealed}
use rmt_platform.Ops.Reconcile.Durable.{reconcile-again, reload-reconcile}
use rmt_platform.Tests.Fixtures.{World}
use rmt_platform.Tests.Approvals.{waiting, waiting-IsEvident}

abbrev stale : State World
stale = update_record "u1" "approved" "alice" waiting

stale-distinct : DistinctHolds stale.holds.records
unfolding update_record
stale-distinct = waiting-IsEvident.holds_distinct

reconcile-AreHealed_example :
    AreHealed stale.records stale.holds.records
      (reconcile_holds_against_records stale).1.holds.records
reconcile-AreHealed_example = reconcile-AreHealed stale stale-distinct

reconcile-again_example :
    reconcile_holds_against_records (reconcile_holds_against_records stale).1 ≡ (
      record {
        checked = length (reconcile_holds_against_records stale).1.holds.records;
        reconciled = 0;
        ids = [];
      },
      (reconcile_holds_against_records stale).1,
    )
reconcile-again_example = reconcile-again stale stale-distinct

reload-reconcile_example :
    (reload (reconcile_holds_against_records stale).1.holds).records
    ≡ map (healed stale.records) stale.holds.records
unfolding update_record
reload-reconcile_example =
    reload-reconcile stale stale-distinct waiting-IsEvident.holds_disk
      waiting-IsEvident.holds_synced
