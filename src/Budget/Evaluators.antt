-- ===== src/Budget/Evaluators.antt =====
-- budget/evaluators.py: the policy and the risk that the governance of the budget domain gives an
-- action, both from `validate_mutation`. The digest of the action is an argument.
pub mod Agree
use rmt_platform.Prelude.{ℕ, String, Bool, true, false, Option, none, some, List, [], ◌∷◌}
use rmt_platform.Prelude.Int.{ℤ}
use rmt_platform.Prelude.Text.{join}
use rmt_platform.Prelude.Json.{Json, Fields}
use rmt_platform.Prelude.Result.{Result, err, ok}
use rmt_platform.Actions.Models.{ActionRequest, value}
use rmt_platform.Actions.Policy.{ActionPolicyResult}
use rmt_platform.Actions.Simulation.{ActionSimulationResult}
use rmt_platform.Budget.Models.{Failure, budget_error, exception, mutation_value}
use rmt_platform.Budget.Storage.{Database}
use rmt_platform.Budget.Repository.{Runtime, Call}
use rmt_platform.Budget.Validate.{Evidence, validate_mutation}

-- A `BudgetError` denies; another exception goes on to the caller.
unfoldable pub policy_of : Result Failure Evidence → Result String ActionPolicyResult
policy_of (ok evidence) = ok (record {
  allowed = true;
  reason = "Budget domain policy and permission checks passed";
  requires_approval = false;
  evidence_references = evidence.evidence;
})
policy_of (err (budget_error code message)) = ok (record {
  allowed = false;
  reason = join ("Budget policy denied [" ∷ code ∷ "]: " ∷ message ∷ []);
  requires_approval = false;
  evidence_references = join ("budget:denial:" ∷ code ∷ []) ∷ [];
})
policy_of (err (exception name)) = err name

-- `BudgetPolicyEvaluator.evaluate`
unfoldable pub evaluate_policy :
    Runtime → Call → ActionRequest → String → Database → Result String ActionPolicyResult
evaluate_policy rt call action digest db =
    policy_of (validate_mutation rt call action.parameters (some digest) db)

-- How the text of an impact writes a JSON value.
module _ (show : Json → String) (rt : Runtime) where
  abbrev impact : Evidence → String
  impact e = join (
      "Apply "
      ∷ mutation_value e.mutation_type
      ∷ " for "
      ∷ show e.amount_minor
      ∷ " "
      ∷ e.currency
      ∷ " minor units; available changes from "
      ∷ rt.decimal e.available_before
      ∷ " to "
      ∷ rt.decimal e.available_after
      ∷ [])

  unfoldable pub risk_of :
      ActionRequest → Result Failure Evidence → Result String ActionSimulationResult
  risk_of action (ok evidence) = ok (record {
    action_id = action.action_id;
    component = action.component;
    action_type = value action.action_type;
    expected_impact = impact evidence;
    risk_level = "medium";
    rollback_available = true;
    uncertainty = "low: serialized transaction revalidates all evidence";
    recovery_semantics = join (
        "query durable receipt by immutable instruction digest; "
        ∷ "never replay an unresolved outcome" ∷ []);
    evidence_references = evidence.evidence;
  })
  risk_of action (err (budget_error code message)) = ok (record {
    action_id = action.action_id;
    component = action.component;
    action_type = value action.action_type;
    expected_impact = join ("Budget mutation cannot be safely assessed: " ∷ message ∷ []);
    risk_level = "unknown";
    rollback_available = false;
    uncertainty = join ("denied:" ∷ code ∷ []);
    recovery_semantics = "stop without adapter invocation";
    evidence_references = join ("budget:denial:" ∷ code ∷ []) ∷ [];
  })
  risk_of action (err (exception name)) = err name

  -- `BudgetRiskEvaluator.evaluate`
  unfoldable pub evaluate_risk :
      Call → ActionRequest → String → Database → Result String ActionSimulationResult
  evaluate_risk call action digest db =
      risk_of action (validate_mutation rt call action.parameters (some digest) db)
