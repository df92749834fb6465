-- ===== src/Execution/Translator.antt =====
-- execution/translator.py
pub mod Carries
use rmt_platform.Prelude.{String, Option, none, some, List, [], ◌∷◌, ◌==◌, string_eq, if◌then◌else◌}
use rmt_platform.Environment.{Site, Env}
use rmt_platform.Actions.Models.{ActionRequest, value}
use rmt_platform.Actions.Assessment.{GovernanceAssessment}
use rmt_platform.Actions.Approval.{ApprovalHold}
use rmt_platform.Actions.Authorization.{assessment_provenance, hold_provenance}
use rmt_platform.Execution.Models.{Provenance, ExecutionRequest}

-- `a or b` on a text that may be `None`: an empty text gives way too.
unfoldable pub or_text : Option String → Option String → Option String
or_text none b = b
or_text (some s) b = if s == "" then b else some s

-- `a or b` on a text.
unfoldable pub or_string : String → String → String
or_string a b = if a == "" then b else a

-- `a or b` on a list.
abbrev pub or_list : List String → List String → List String
or_list [] b = b
or_list (x ∷ xs) b = x ∷ xs

unfoldable pub or_provenance : Provenance → Provenance → Provenance
or_provenance a b = record {
  assessment_id = or_text a.assessment_id b.assessment_id;
  policy_evaluator_id = or_text a.policy_evaluator_id b.policy_evaluator_id;
  policy_evaluator_version = or_text a.policy_evaluator_version b.policy_evaluator_version;
  risk_evaluator_id = or_text a.risk_evaluator_id b.risk_evaluator_id;
  risk_evaluator_version = or_text a.risk_evaluator_version b.risk_evaluator_version;
  canonicalization_version = or_text a.canonicalization_version b.canonicalization_version;
  instruction_digest = or_text a.instruction_digest b.instruction_digest;
  policy_evidence_references = or_list a.policy_evidence_references b.policy_evidence_references;
  risk_evidence_references = or_list a.risk_evidence_references b.risk_evidence_references;
  uncertainty = or_string a.uncertainty b.uncertainty;
  recovery_semantics = or_string a.recovery_semantics b.recovery_semantics;
}

unfoldable pub translate_action_to_execution :
    Env
    → ActionRequest
    → String
    → Option String
    → Option String
    → Option GovernanceAssessment
    → Option ApprovalHold
    → ExecutionRequest
unfolding value or_provenance
translate_action_to_execution env action authorization_id risk_level adapter assessment hold =
    record {
      execution_id = env.uuid Site.request;
      authorization_id = authorization_id;
      action_id = action.action_id;
      decision_id = action.decision_id;
      governance_domain = action.governance_domain;
      target = action.component;
      operation = value action.action_type;
      parameters = action.parameters;
      risk_level = risk_level;
      expected_outcome = action.expected_outcome;
      adapter_name = adapter;
      provenance = or_provenance (assessment_provenance assessment) (hold_provenance hold);
      created_at = env.now Site.request;
    }
