-- ===== src/Execution/Policy.antt =====
-- execution/policy.py and execution/risk.py: the last gate, and the fallback classification.
use rmt_platform.Prelude.{String, [], ◌∷◌, string_eq, elem, if◌then◌else◌}
use rmt_platform.Prelude.Text.{lower}
use rmt_platform.Execution.Models.{ExecutionRequest}

pub data PolicyDecision : Type 0 where
  allow deny requires_approval : PolicyDecision

unfoldable pub decision_value : PolicyDecision → String
decision_value allow = "allow"
decision_value deny = "deny"
decision_value requires_approval = "requires_approval"

-- `ExecutionPolicy.evaluate`
unfoldable pub evaluate_policy : ExecutionRequest → PolicyDecision
evaluate_policy request =
    if elem (lower request.operation) ("format" ∷ "wipe" ∷ []) then deny else allow

pub data ExecutionRisk : Type 0 where
  low medium high : ExecutionRisk

unfoldable pub risk_value : ExecutionRisk → String
risk_value low = "low"
risk_value medium = "medium"
risk_value high = "high"

-- `ExecutionRiskAnalyzer.evaluate`
unfoldable pub evaluate_risk : ExecutionRequest → ExecutionRisk
evaluate_risk request =
    let operation = lower request.operation in
    if elem operation ("delete" ∷ "destroy" ∷ "remove" ∷ "wipe" ∷ "format" ∷ [])
    then high
    else if elem operation ("restart" ∷ "create" ∷ "rebuild" ∷ "update" ∷ [])
    then medium
    else low
