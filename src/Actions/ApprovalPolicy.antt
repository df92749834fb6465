-- ===== src/Actions/ApprovalPolicy.antt =====
-- actions/approval_policy.py
pub mod Modes
use rmt_platform.Prelude.{
  ℕ, String, Bool, true, false, not, List, [], ◌∷◌, ltb, ◌==◌, string_eq, elem, if◌then◌else◌,
}
use rmt_platform.Actions.Models.{ActionRequest}
use rmt_platform.Actions.Policy.{ActionPolicyResult}
use rmt_platform.Actions.Simulation.{ActionSimulationResult}

pub data ApprovalMode : Type 0 where
  auto manual reject : ApprovalMode

pub record ApprovalDecision : Type 0 where
  pub approval_id : String
  pub action_id : String
  pub mode : ApprovalMode
  pub approved : Bool
  pub reason : String

abbrev decide : String → ActionRequest → ApprovalMode → Bool → String → ApprovalDecision
decide id action mode approved reason = record {
  approval_id = id;
  action_id = action.action_id;
  mode = mode;
  approved = approved;
  reason = reason;
}

-- `id` is the identifier that the constructor of the decision draws.
unfoldable pub evaluate_approval :
    String → ActionRequest → ActionPolicyResult → ActionSimulationResult → ApprovalDecision
evaluate_approval id action policy_result simulation_result =
    let risk_level = simulation_result.risk_level in
    if not policy_result.allowed
    then decide id action reject false policy_result.reason
    else if risk_level == "unknown"
    then decide id action reject false "Simulation risk is unknown"
    else if elem risk_level ("high" ∷ "critical" ∷ [])
    then decide id action manual false "High-risk action requires human approval"
    else if ltb action.confidence 90
    then decide id action manual false "Confidence below automatic approval threshold"
    else if action.requires_approval
    then decide id action manual false "Action explicitly requires approval"
    else if not simulation_result.rollback_available
    then decide id action manual false "Rollback is not available"
    else if elem risk_level ("low" ∷ "medium" ∷ [])
    then decide id action auto true "Action meets automatic approval criteria"
    else decide id action manual false "Action requires human approval"
