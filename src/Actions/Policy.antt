-- ===== src/Actions/Policy.antt =====
-- actions/policy.py
use rmt_platform.Prelude.{
  String, Bool, true, false, Option, some, List, [], ◌∷◌, ltb, ◌==◌, string_eq, option_eq,
  option_beq, elem, if◌then◌else◌,
}
use rmt_platform.Actions.Models.{ActionRequest, value}

pub record ActionPolicyResult : Type 0 where
  pub allowed : Bool
  pub reason : String
  pub requires_approval : Bool
  pub evidence_references : List String

abbrev pub allowed_action_types : List String
allowed_action_types = "restart_component" ∷ "start" ∷ "stop" ∷ "restart" ∷ "create" ∷ "remove" ∷ []

-- `criticality` is what the context holds under that key or attribute, if anything.
unfoldable pub evaluate_action_policy : ActionRequest → Option String → ActionPolicyResult
unfolding value option_beq
evaluate_action_policy action criticality =
    if ltb action.confidence 70
    then record {
      allowed = false;
      reason = "Confidence below action threshold";
      requires_approval = true;
      evidence_references = [];
    }
    else if criticality == some "critical"
    then record {
      allowed = true;
      reason = "Critical component requires approval";
      requires_approval = true;
      evidence_references = [];
    }
    else if elem (value action.action_type) allowed_action_types
    then record {
      allowed = true;
      reason = "Action type allowed by policy";
      requires_approval = action.requires_approval;
      evidence_references = [];
    }
    else record {
      allowed = false;
      reason = "Action type not approved by policy";
      requires_approval = true;
      evidence_references = [];
    }
