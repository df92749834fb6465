-- ===== src/Budget/Evaluators/Agree.antt =====
-- The two evaluators of the budget domain agree with the validation, and with each other.
use rmt_platform.Prelude.{String, true, false, some, ◌≡◌, refl, sym, ap, ◌∙◌, ◌⊎◌, inl, inr}
use rmt_platform.Prelude.Json.{Json}
use rmt_platform.Prelude.Result.{Result, ok, err, ok_injective}
use rmt_platform.Actions.Models.{ActionRequest}
use rmt_platform.Actions.Policy.{ActionPolicyResult}
use rmt_platform.Actions.Simulation.{ActionSimulationResult}
use rmt_platform.Budget.Models.{Failure, budget_error, exception}
use rmt_platform.Budget.Storage.{Database}
use rmt_platform.Budget.Repository.{Runtime, Call}
use rmt_platform.Budget.Validate.{Evidence, validate_mutation}
use rmt_platform.Budget.Evaluators.{policy_of, evaluate_policy, risk_of, evaluate_risk}

-- Both allow, on the evidence of the validation, or both deny, with one reference.
abbrev pub AreAgreed :
    Result Failure Evidence → ActionPolicyResult → ActionSimulationResult → Type 0
AreAgreed validated policy risk =
    (policy.evidence_references ≡ risk.evidence_references)
    × (((evidence : Evidence) × (validated ≡ ok evidence)
          × (policy.allowed ≡ true)
          × (risk.risk_level ≡ "medium"))
        ⊎ ((code : String) × (message : String) × (validated ≡ err (budget_error code message))
            × (policy.allowed ≡ false)
            × (risk.risk_level ≡ "unknown")))

module _ (show : Json → String) (rt : Runtime) (action : ActionRequest) where
  of-AreAgreed :
      (validated : Result Failure Evidence) (policy : ActionPolicyResult)
      (risk : ActionSimulationResult)
      → policy_of validated ≡ ok policy
      → risk_of show rt action validated ≡ ok risk
      → AreAgreed validated policy risk
  unfolding policy_of risk_of
  of-AreAgreed (ok evidence) policy risk h k =
      let p = sym (ok_injective h) in
      let r = sym (ok_injective k) in
      (
        ap (λ x. x.evidence_references) p ∙ sym (ap (λ x. x.evidence_references) r),
        inl (evidence, refl, ap (λ x. x.allowed) p, ap (λ x. x.risk_level) r),
      )
  of-AreAgreed (err (budget_error code message)) policy risk h k =
      let p = sym (ok_injective h) in
      let r = sym (ok_injective k) in
      (
        ap (λ x. x.evidence_references) p ∙ sym (ap (λ x. x.evidence_references) r),
        inr (code, message, refl, ap (λ x. x.allowed) p, ap (λ x. x.risk_level) r),
      )
  of-AreAgreed (err (exception name)) policy risk h k = cc

  -- When both evaluators return, they give the same references, and either the mutation is valid,
  -- the policy allows it and the risk is medium, or its validation raised a BudgetError, the policy
  -- denies it and the risk is unknown.
  pub evaluators-agree :
      (call : Call) (digest : String) (db : Database) (policy : ActionPolicyResult)
      (risk : ActionSimulationResult)
      → evaluate_policy rt call action digest db ≡ ok policy
      → evaluate_risk show rt call action digest db ≡ ok risk
      → AreAgreed (validate_mutation rt call action.parameters (some digest) db) policy risk
  unfolding evaluate_policy evaluate_risk
  evaluators-agree call digest db =
      of-AreAgreed (validate_mutation rt call action.parameters (some digest) db)
