-- ===== src/Tests/Approvals.antt =====
-- A removal that waits for approval, and the calls about its hold.
use rmt_platform.Prelude.{none, some, option_beq, true, ◌≡◌, ◌⊎◌, inl, refl, string_eq}
use rmt_platform.Durable.{reload, save, find, find_index}
use rmt_platform.State.{State}
use rmt_platform.Prelude.Dict.{lookup}
use rmt_platform.Actions.Models.{ActionRequest, remove, value}
use rmt_platform.Actions.Binding.{bind_action, instruction_payload, digest_payload}
use rmt_platform.Actions.Policy.{evaluate_action_policy}
use rmt_platform.Actions.Simulation.{simulate_action}
use rmt_platform.Actions.ApprovalPolicy.{evaluate_approval}
use rmt_platform.Actions.Assessment.{
  GovernanceAssessment, assessment_of, default_registration, resolve_assessment, check_results,
}
use rmt_platform.Governance.Records.{
  approval_hold, approval_record, record_approval_decision, hold_for_manual_approval,
}
use rmt_platform.Governance.Service.{approval_of, execute_governed_action, govern_assessed, follow}
use rmt_platform.Governance.Service.Boundary.{IsUntouched}
use rmt_platform.Governance.Approve.{approve_held_action, evaluator_binding}
use rmt_platform.Governance.Approve.Branches.{IsConfirmed}
use rmt_platform.Governance.Approve.Boundary.{IsContinued, approve-boundary, confirmed-continues}
use rmt_platform.Governance.Approve.Once.{IsFinal, approve-once}
use rmt_platform.Governance.Approve.Unsaved.{reload-approve}
use rmt_platform.Actions.Approval.{ApprovalHold, ApprovalRecord, hold_by_id, record_by_id}
use rmt_platform.Actions.Authorization.{assessment_provenance}
use rmt_platform.Ops.Reconcile.Restart.{restart_and_reconcile, IsEvident, restart-IsFinal}
use rmt_platform.Tests.Policies.{payload}
use rmt_platform.Tests.Fixtures.{World, platform, env, start, restart_web}

abbrev pub remove_web : ActionRequest
remove_web = record restart_web { action_type = remove }

-- The platform after the removal was asked for: its hold is pending.
abbrev pub waiting : State World
waiting = (execute_governed_action platform env remove_web "simulation" start).1

approve-boundary_example :
    IsContinued platform env "u1" "alice" true waiting
    ⊎ IsUntouched waiting (approve_held_action platform env "u1" "alice" true waiting).1
approve-boundary_example = approve-boundary platform env "u1" "alice" waiting true

approve-once_example :
    ((approve_held_action platform env "u1" "alice" true waiting).1 ≡ waiting)
    ⊎ IsFinal "u1" (approve_held_action platform env "u1" "alice" true waiting).1
approve-once_example = approve-once platform env "u1" "alice" waiting true

reload-approve_example :
    (reload (approve_held_action platform env "u1" "alice" true waiting).1.holds).records
    ≡ waiting.holds.records
unfolding execute_governed_action govern_assessed follow record_approval_decision
    hold_for_manual_approval save resolve_assessment lookup value bind_action instruction_payload
    digest_payload check_results evaluate_action_policy simulate_action evaluate_approval
reload-approve_example = reload-approve platform env "u1" "alice" waiting true (inl refl) refl

abbrev pub removal_assessed : GovernanceAssessment
removal_assessed =
    assessment_of env remove_web "simulation" default_registration
      (evaluate_action_policy remove_web none) (simulate_action remove_web)
      ("44136fa3", record payload { operation = "remove" })

abbrev pub removal_hold : ApprovalHold
removal_hold =
    approval_hold env remove_web (approval_of env remove_web removal_assessed) "simulation"
      (some "high") (some removal_assessed)

pub removal_hold-found : hold_by_id "u1" waiting.holds ≡ some removal_hold
unfolding execute_governed_action govern_assessed follow record_approval_decision
    hold_for_manual_approval save resolve_assessment lookup value bind_action instruction_payload
    digest_payload check_results evaluate_action_policy simulate_action evaluate_approval
    approval_hold assessment_provenance find evaluator_binding option_beq approval_record find_index
removal_hold-found = refl

pub removal_hold-IsConfirmed : IsConfirmed platform 1000 removal_hold
unfolding execute_governed_action govern_assessed follow record_approval_decision
    hold_for_manual_approval save resolve_assessment lookup value bind_action instruction_payload
    digest_payload check_results evaluate_action_policy simulate_action evaluate_approval
    approval_hold assessment_provenance find evaluator_binding option_beq approval_record find_index
removal_hold-IsConfirmed = record {
  open_status = refl;
  alive = refl;
  registration = default_registration;
  registered = refl;
  same_evaluators = refl;
  same_instruction = refl;
}

pub removal-IsContinued : IsContinued platform env "u1" "alice" true waiting
removal-IsContinued = record {
  hold = removal_hold;
  found = removal_hold-found;
  confirmed = removal_hold-IsConfirmed;
  approves = refl;
  continues =
      confirmed-continues platform env "u1" "alice" waiting removal_hold removal_hold-IsConfirmed
        removal_hold-found;
}

pub waiting-IsEvident : IsEvident waiting
unfolding execute_governed_action govern_assessed follow record_approval_decision
    hold_for_manual_approval save resolve_assessment lookup value bind_action instruction_payload
    digest_payload check_results evaluate_action_policy simulate_action evaluate_approval
    approval_hold assessment_provenance find evaluator_binding option_beq approval_record find_index
waiting-IsEvident = record {
  holds_disk = inl refl;
  holds_synced = refl;
  holds_distinct = (refl, tt);
  records_disk = inl refl;
  records_synced = refl;
  records_distinct = (refl, tt);
}

abbrev removal_record : ApprovalRecord
removal_record =
    approval_record env remove_web (approval_of env remove_web removal_assessed) "manual_required"
      "" (some "u1") (some removal_assessed)

removal-recorded : record_by_id "u1" waiting.records ≡ some removal_record
unfolding execute_governed_action govern_assessed follow record_approval_decision
    hold_for_manual_approval save resolve_assessment lookup value bind_action instruction_payload
    digest_payload check_results evaluate_action_policy simulate_action evaluate_approval
    approval_hold assessment_provenance find evaluator_binding option_beq approval_record find_index
removal-recorded = refl

restart-IsFinal_example :
    IsFinal "u1"
      (restart_and_reconcile (approve_held_action platform env "u1" "alice" true waiting).1)
restart-IsFinal_example =
    restart-IsFinal platform env "u1" "alice" waiting waiting-IsEvident removal_record
      removal-recorded removal-IsContinued
