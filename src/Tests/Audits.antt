-- ===== src/Tests/Audits.antt =====
-- The audit at a start, after a removal was approved and the process restarted.
use rmt_platform.Prelude.{[], ◌≡◌, ◌≢◌, ◌↔◌, true, All, sym, subst}
use rmt_platform.State.{State}
use rmt_platform.Governance.Approve.{approve_held_action}
use rmt_platform.Governance.Approve.Unsaved.{reload-approve}
use rmt_platform.Ops.Audit.{hold_still_pending, audit_authorizations, reconcile_governance_stores}
use rmt_platform.Ops.Audit.Clean.{IsConsistent, audit-IsConsistent}
use rmt_platform.Ops.Audit.Settled.{audit-settled}
use rmt_platform.Ops.Reconcile.Healed.{DistinctHolds}
use rmt_platform.Ops.Reconcile.Restart.{restart}
use rmt_platform.Tests.Fixtures.{World, platform, env}
use rmt_platform.Tests.Approvals.{waiting, waiting-IsEvident}

abbrev restarted : State World
restarted = restart (approve_held_action platform env "u1" "alice" true waiting).1

restarted-distinct : DistinctHolds restarted.holds.records
restarted-distinct =
    subst DistinctHolds
      (sym (
        reload-approve platform env "u1" "alice" waiting true waiting-IsEvident.holds_disk
          waiting-IsEvident.holds_synced))
      waiting-IsEvident.holds_distinct

audit-IsConsistent_example :
    ((audit_authorizations restarted).found ≡ [])
    ↔ All (IsConsistent restarted.records restarted.holds) restarted.authorizations.records
audit-IsConsistent_example = audit-IsConsistent restarted

audit-settled_example :
    All (λ d. d.issue ≢ hold_still_pending) (reconcile_governance_stores restarted).0.1.found
audit-settled_example = audit-settled restarted restarted-distinct
