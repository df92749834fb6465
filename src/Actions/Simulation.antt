-- ===== src/Actions/Simulation.antt =====
-- actions/simulation.py
pub mod Defaults
use rmt_platform.Prelude.{
  String, Bool, true, false, List, [], ◌∷◌, ◌==◌, string_eq, elem, if◌then◌else◌,
}
use rmt_platform.Actions.Models.{ActionRequest, value}

pub record ActionSimulationResult : Type 0 where
  pub action_id : String
  pub component : String
  pub action_type : String
  pub expected_impact : String
  pub risk_level : String
  pub rollback_available : Bool
  pub uncertainty : String
  pub recovery_semantics : String
  pub evidence_references : List String

-- The constructor with the defaults that every call here leaves.
abbrev simulated : ActionRequest → String → String → Bool → ActionSimulationResult
simulated action impact risk rollback = record {
  action_id = action.action_id;
  component = action.component;
  action_type = value action.action_type;
  expected_impact = impact;
  risk_level = risk;
  rollback_available = rollback;
  uncertainty = "unspecified";
  recovery_semantics = "";
  evidence_references = [];
}

unfoldable pub simulate_action : ActionRequest → ActionSimulationResult
unfolding value
simulate_action action =
    let action_type = value action.action_type in
    if action_type == "restart_component"
    then simulated action "Temporary component restart" "medium" true
    else if elem action_type ("start" ∷ "stop" ∷ [])
    then simulated action "Temporary container operation" "low" true
    else if action_type == "restart"
    then simulated action "Restart container" "medium" true
    else if action_type == "create"
    then simulated action "Create new container" "medium" true
    else if action_type == "remove"
    then simulated action "Remove container" "high" false
    else simulated action "Unknown action impact" "unknown" false
