-- ===== src/Tests/Continuations.antt =====
-- The approved removal, performed.
use rmt_platform.Prelude.{
  String, true, Option, some, none, ◌≡◌, refl, arith, ==→≢, string_eq, option_eq, option_beq,
}
use rmt_platform.Prelude.Dict.{lookup}
use rmt_platform.Durable.{save, find}
use rmt_platform.Actions.Models.{value}
use rmt_platform.Actions.Policy.{evaluate_action_policy}
use rmt_platform.Actions.Simulation.{simulate_action}
use rmt_platform.Actions.ApprovalPolicy.{evaluate_approval}
use rmt_platform.Actions.Binding.{bind_action, instruction_payload, digest_payload}
use rmt_platform.Actions.Assessment.{resolve_assessment, check_results}
use rmt_platform.Actions.Authorization.{assessment_provenance, authorization_by_id}
use rmt_platform.Execution.Adapters.{simulation_adapter}
use rmt_platform.Governance.Records.{
  approval_hold, record_approval_decision, hold_for_manual_approval,
}
use rmt_platform.Governance.Service.{execute_governed_action, govern_assessed, follow}
use rmt_platform.Governance.Approve.{approve_held_action}
use rmt_platform.Governance.Approve.Reaches.{IsIntact, held_performed, approved-performed}
use rmt_platform.Tests.Fixtures.{platform, simulation, env}
use rmt_platform.Tests.Approvals.{
  waiting, removal_hold, removal_hold-found, removal_hold-IsConfirmed,
}

removal_hold-IsIntact : IsIntact removal_hold
unfolding approval_hold assessment_provenance option_beq
removal_hold-IsIntact = record {
  digest_given = ==→≢ {A = Option String} (some "44136fa3") (some "") refl;
  version = refl;
}

unauthorized : authorization_by_id "u1" waiting.authorizations ≡ none
unfolding execute_governed_action govern_assessed follow record_approval_decision
    hold_for_manual_approval save resolve_assessment lookup value bind_action instruction_payload
    digest_payload check_results evaluate_action_policy simulate_action evaluate_approval find
unauthorized = refl

approved-performed_example :
    approve_held_action platform env "u1" "alice" true waiting
    ≡ held_performed platform env "u1" "alice" waiting removal_hold simulation
unfolding lookup simulation_adapter approval_hold
approved-performed_example =
    approved-performed platform env "u1" "alice" waiting removal_hold (λ t. ==→≢ _ _ refl)
      unauthorized (omega arith) removal_hold-found removal_hold-IsConfirmed removal_hold-IsIntact
      simulation refl refl
