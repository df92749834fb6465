-- ===== src/Tests/Policies.antt =====
-- Decisions and assessments of one action.
use rmt_platform.Prelude.{Bool, true, false, none, some, [], ◌≡◌, ◌↔◌, ◌⊎◌, refl, arith, string_eq}
use rmt_platform.Prelude.Dict.{lookup}
use rmt_platform.Prelude.Result.{ok}
use rmt_platform.Prelude.Json.{no_fields}
use rmt_platform.Actions.Models.{ExpectedOutcome, value}
use rmt_platform.Actions.Binding.{
  Payload, canonicalization, bind_action, instruction_payload, digest_payload,
}
use rmt_platform.Actions.Policy.{evaluate_action_policy}
use rmt_platform.Actions.Simulation.{simulate_action}
use rmt_platform.Actions.Simulation.Defaults.{default-automatic}
use rmt_platform.Actions.ApprovalPolicy.{auto, reject, evaluate_approval}
use rmt_platform.Actions.ApprovalPolicy.Modes.{IsAutomatic, evaluate_approval_modes}
use rmt_platform.Actions.Assessment.{
  GovernanceAssessment, resolve_assessment, assessment_of, check_results, register,
  default_registration, default_governance_domain,
}
use rmt_platform.Actions.Assessment.Registry.{
  IsWellFormed, IsWellFormed-empty, register-IsWellFormed,
}
use rmt_platform.Actions.Assessment.Accepted.{
  IsAcceptable, Carries, resolve_assessment-IsAcceptable, IsAcceptable-resolve_assessment,
}
use rmt_platform.Verification.Models.{ObservedState}
use rmt_platform.Verification.Verifier.{verify}
use rmt_platform.Verification.Verifier.Statuses.{IsMet, verify-statuses}
use rmt_platform.Tests.Fixtures.{constant_hashing, default_registry, env, restart_web}

evaluate_approval_modes_example :
    let policy = evaluate_action_policy restart_web none in
    let risk = simulate_action restart_web in
    let decision = evaluate_approval "u1" restart_web policy risk in
    ((decision.mode ≡ auto) ↔ IsAutomatic restart_web policy risk)
    × ((decision.mode ≡ reject) ↔ ((policy.allowed ≡ false) ⊎ (risk.risk_level ≡ "unknown")))
    × ((decision.approved ≡ true) ↔ (decision.mode ≡ auto))
    × ((b : Bool)
        → evaluate_approval "u1" restart_web (record policy { requires_approval = b }) risk
          ≡ decision)
evaluate_approval_modes_example =
    evaluate_approval_modes "u1" restart_web (evaluate_action_policy restart_web none)
      (simulate_action restart_web)

registered_default : register default_registration [] ≡ ok default_registry
unfolding register lookup
registered_default = refl

pub default_registry-IsWellFormed : IsWellFormed default_registry
default_registry-IsWellFormed =
    register-IsWellFormed default_registration [] default_registry IsWellFormed-empty
      registered_default

register-IsWellFormed_example : IsWellFormed default_registry
register-IsWellFormed_example =
    register-IsWellFormed default_registration [] default_registry IsWellFormed-empty
      registered_default

abbrev pub payload : Payload
payload = record {
  canonicalization_version = canonicalization;
  governance_domain = default_governance_domain;
  action_id = "a1";
  decision_id = "d1";
  target = "web";
  operation = "restart_component";
  parameters = no_fields;
  expected_outcome = none;
  adapter_name = "simulation";
}

abbrev pub assessed : GovernanceAssessment
assessed =
    assessment_of env restart_web "simulation" default_registration
      (evaluate_action_policy restart_web none) (simulate_action restart_web) ("44136fa3", payload)

pub restart_web-resolved :
    resolve_assessment constant_hashing default_registry env restart_web "simulation" ≡ ok assessed
unfolding resolve_assessment lookup value bind_action instruction_payload digest_payload
    check_results evaluate_action_policy simulate_action
restart_web-resolved = refl

resolve_assessment-IsAcceptable_example :
    (f : IsAcceptable constant_hashing default_registry restart_web "simulation") × Carries
      constant_hashing default_registry restart_web "simulation" f assessed
resolve_assessment-IsAcceptable_example =
    resolve_assessment-IsAcceptable constant_hashing default_registry restart_web "simulation" env
      assessed restart_web-resolved

acceptable : IsAcceptable constant_hashing default_registry restart_web "simulation"
acceptable =
    (resolve_assessment-IsAcceptable constant_hashing default_registry restart_web "simulation" env
      assessed restart_web-resolved).0

IsAcceptable-resolve_assessment_example :
    (a : GovernanceAssessment) × (resolve_assessment constant_hashing default_registry env
        restart_web "simulation"
      ≡ ok a)
    × Carries constant_hashing default_registry restart_web "simulation" acceptable a
IsAcceptable-resolve_assessment_example =
    IsAcceptable-resolve_assessment constant_hashing default_registry restart_web "simulation" env
      acceptable

abbrev running : ExpectedOutcome
running = record { target = "web"; operation = "create"; expected_state = "registered" }

abbrev seen : ObservedState
seen = record { target = "web"; state = "registered"; source = "module_registry"; timestamp = 1000 }

verify-statuses_example :
    (((verify env "e1" (some running) (some seen)).status ≡ "verified_success")
      ↔ IsMet (some running) (some seen))
    × (((verify env "e1" (some running) (some seen)).status ≡ "verification_failure")
        ↔ (some running ≡ none))
verify-statuses_example = verify-statuses env "e1" (some running) (some seen)

pub restart_web-IsAutomatic : IsAutomatic restart_web assessed.policy_result assessed.risk_result
restart_web-IsAutomatic = (default-automatic restart_web).1 (refl, omega arith, refl)
