-- ===== src/Actions/Assessment.antt =====
-- actions/assessment.py: the registry of governance domains and the assessment of one action.
pub mod Registry
pub mod Resolve
pub mod Accepted
use rmt_platform.Prelude.{
  ℕ, String, Bool, true, false, not, ◌&&◌, ◌||◌, Option, none, some, List, [], ◌∷◌, ◌++◌, ◌==◌,
  ◌!=◌, string_eq, elem, all, is_some, if◌then◌else◌,
}
use rmt_platform.Prelude.Dict.{Dict, lookup}
use rmt_platform.Prelude.Result.{Result, ok, err, ◌>>=◌, ◌>>◌, raise_if, or_raise}
use rmt_platform.Environment.{Site, Env}
use rmt_platform.Actions.Models.{ActionRequest, value}
use rmt_platform.Actions.Policy.{ActionPolicyResult, evaluate_action_policy}
use rmt_platform.Actions.Simulation.{ActionSimulationResult, simulate_action}
use rmt_platform.Actions.Binding.{Hashing, Payload, InvalidInstruction, bind_action}

pub data AssessmentError : Type 0 where
  -- of `register`
  domain_already_registered : String → AssessmentError
  operations_and_adapters_required : AssessmentError
  evaluator_identity_required : AssessmentError
  -- of `resolve_assessment`
  unknown_domain : String → AssessmentError
  operation_not_registered : String → AssessmentError
  adapter_not_registered : String → AssessmentError
  assessment_unavailable : AssessmentError
  malformed_policy_evidence : AssessmentError
  malformed_risk_level : AssessmentError
  action_mismatch : AssessmentError
  malformed_risk_fields : AssessmentError
  malformed_risk_evidence : AssessmentError
  evidence_required : AssessmentError

abbrev pub default_governance_domain : String
default_governance_domain = "rmt.default"

abbrev pub default_evaluator_version : String
default_evaluator_version = "1"

-- `none` is an evaluation that raises. The results are typed, so the `isinstance` tests that
-- `resolve_assessment` makes of them are met.
pub record PolicyEvaluator : Type 0 where
  pub evaluator_id : String
  pub version : String
  pub evaluate : ActionRequest → Option ActionPolicyResult

pub record RiskEvaluator : Type 0 where
  pub evaluator_id : String
  pub version : String
  pub evaluate : ActionRequest → Option ActionSimulationResult

abbrev pub default_policy_evaluator : PolicyEvaluator
default_policy_evaluator = record {
  evaluator_id = "rmt.default.action-policy";
  version = default_evaluator_version;
  evaluate = λ action. some (evaluate_action_policy action none);
}

abbrev pub default_risk_evaluator : RiskEvaluator
default_risk_evaluator = record {
  evaluator_id = "rmt.default.action-simulation";
  version = default_evaluator_version;
  evaluate = λ action. some (simulate_action action);
}

pub record AssessmentRegistration : Type 0 where
  pub domain : String
  pub policy : PolicyEvaluator
  pub risk : RiskEvaluator
  pub operations : List String
  pub adapters : List String

abbrev pub AssessmentRegistry : Type 0
AssessmentRegistry = Dict String AssessmentRegistration

pub record GovernanceAssessment : Type 0 where
  pub assessment_id : String
  pub governance_domain : String
  pub policy_result : ActionPolicyResult
  pub risk_result : ActionSimulationResult
  pub policy_evaluator_id : String
  pub policy_evaluator_version : String
  pub risk_evaluator_id : String
  pub risk_evaluator_version : String
  pub instruction_digest : String
  pub canonicalization_version : String
  pub adapter_name : String
  pub assessed_at : ℕ
  pub policy_evidence_references : List String
  pub risk_evidence_references : List String
  pub uncertainty : String
  pub recovery_semantics : String

abbrev pub is_empty {ℓ} : {A : Type ℓ} → List A → Bool
is_empty [] = true
is_empty (x ∷ xs) = false

-- `AssessmentRegistry.register`; a new key goes to the end of the dict.
unfoldable pub register :
    AssessmentRegistration → AssessmentRegistry → Result AssessmentError AssessmentRegistry
register new registry = do
  raise_if ((new.domain == "") || is_some (lookup new.domain registry))
      (domain_already_registered new.domain)
  raise_if (is_empty new.operations || is_empty new.adapters) operations_and_adapters_required
  raise_if ((new.policy.evaluator_id == "") || (new.policy.version == ""))
      evaluator_identity_required
  raise_if ((new.risk.evaluator_id == "") || (new.risk.version == "")) evaluator_identity_required
  ok (registry ++ (new.domain, new) ∷ [])

-- The registration that the module makes for the default domain.
abbrev pub default_registration : AssessmentRegistration
default_registration = record {
  domain = default_governance_domain;
  policy = default_policy_evaluator;
  risk = default_risk_evaluator;
  operations =
      "restart_component" ∷ "create_checkpoint" ∷ "scale_down" ∷ "isolate_component" ∷ "start"
      ∷ "stop" ∷ "restart" ∷ "create" ∷ "remove" ∷ [];
  adapters = "simulation" ∷ "docker" ∷ "git" ∷ "module_change" ∷ [];
}

-- All references of an assessment are texts that are not empty.
abbrev pub references_given : List String → Bool
references_given = all (λ reference. not (reference == ""))

abbrev pub risk_levels : List String
risk_levels = "low" ∷ "medium" ∷ "high" ∷ "critical" ∷ "unknown" ∷ []

-- The digest and the payload, or the exception that `except Exception` turns into one error.
abbrev pub bound :
    Result InvalidInstruction (String × Payload) → Result AssessmentError (String × Payload)
bound (ok p) = ok p
bound (err e) = err assessment_unavailable

-- The tests on what the two evaluators returned.
unfoldable pub check_results :
    ActionRequest → ActionPolicyResult → ActionSimulationResult → Result AssessmentError (Unit {0})
check_results action policy risk = do
  raise_if (not (references_given policy.evidence_references)) malformed_policy_evidence
  raise_if (not (elem risk.risk_level risk_levels)) malformed_risk_level
  raise_if (risk.action_id != action.action_id) action_mismatch
  raise_if ((risk.component != action.component) || (risk.action_type != value action.action_type))
      malformed_risk_fields
  raise_if (not (references_given risk.evidence_references)) malformed_risk_evidence
  raise_if
      ((action.governance_domain != default_governance_domain)
        && (is_empty policy.evidence_references
            || is_empty risk.evidence_references
            || (risk.uncertainty == "")
            || (risk.recovery_semantics == "")))
      evidence_required
  ok tt

-- The assessment that is returned when every test has passed.
abbrev pub assessment_of :
    Env
    → ActionRequest
    → String
    → AssessmentRegistration
    → ActionPolicyResult
    → ActionSimulationResult
    → String × Payload
    → GovernanceAssessment
assessment_of env action adapter registration policy risk (digest, payload) = record {
  assessment_id = env.uuid Site.assessment;
  governance_domain = action.governance_domain;
  policy_result = policy;
  risk_result = risk;
  policy_evaluator_id = registration.policy.evaluator_id;
  policy_evaluator_version = registration.policy.version;
  risk_evaluator_id = registration.risk.evaluator_id;
  risk_evaluator_version = registration.risk.version;
  instruction_digest = digest;
  canonicalization_version = payload.canonicalization_version;
  adapter_name = adapter;
  assessed_at = env.now Site.assessment;
  policy_evidence_references = policy.evidence_references;
  risk_evidence_references = risk.evidence_references;
  uncertainty = risk.uncertainty;
  recovery_semantics = risk.recovery_semantics;
}

unfoldable pub resolve_assessment :
    Hashing
    → AssessmentRegistry
    → Env
    → ActionRequest
    → String
    → Result AssessmentError GovernanceAssessment
resolve_assessment hashing registry env action adapter = do
  registration ←
      or_raise (lookup action.governance_domain registry) (unknown_domain action.governance_domain)
  raise_if (not (elem (value action.action_type) registration.operations))
      (operation_not_registered (value action.action_type))
  raise_if (not (elem adapter registration.adapters)) (adapter_not_registered adapter)
  instruction ← bound (bind_action hashing action adapter)
  policy ← or_raise (registration.policy.evaluate action) assessment_unavailable
  risk ← or_raise (registration.risk.evaluate action) assessment_unavailable
  check_results action policy risk
  ok (assessment_of env action adapter registration policy risk instruction)
