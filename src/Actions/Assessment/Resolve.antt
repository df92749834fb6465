-- ===== src/Actions/Assessment/Resolve.antt =====
-- What `resolve_assessment` of actions/assessment.py has established when it returns.
use rmt_platform.Prelude.{String, true, some, ◌≡◌, arith, elem, string_eq, Option-cases, inl, inr}
use rmt_platform.Prelude.Dict.{lookup}
use rmt_platform.Prelude.Result.{ok, Result-cases}
use rmt_platform.Environment.{Env}
use rmt_platform.Actions.Models.{ActionRequest, value}
use rmt_platform.Actions.Policy.{ActionPolicyResult}
use rmt_platform.Actions.Simulation.{ActionSimulationResult}
use rmt_platform.Actions.Binding.{Hashing, Payload, bind_action}
use rmt_platform.Actions.Assessment.{
  AssessmentRegistration, AssessmentRegistry, GovernanceAssessment, check_results, assessment_of,
  resolve_assessment,
}

pub record IsResolved (hashing : Hashing) (registry : AssessmentRegistry) (env : Env)
    (action : ActionRequest) (adapter : String) (a : GovernanceAssessment) : Type 0 where
  pub registration : AssessmentRegistration
  pub registered : lookup action.governance_domain registry ≡ some registration
  pub operation : elem (value action.action_type) registration.operations ≡ true
  pub adapter_listed : elem adapter registration.adapters ≡ true
  pub digest : String
  pub payload : Payload
  pub bound : bind_action hashing action adapter ≡ ok (digest, payload)
  pub policy : ActionPolicyResult
  pub policy_evaluated : registration.policy.evaluate action ≡ some policy
  pub risk : ActionSimulationResult
  pub risk_evaluated : registration.risk.evaluate action ≡ some risk
  pub checked : check_results action policy risk ≡ ok tt
  pub assessment : a ≡ assessment_of env action adapter registration policy risk (digest, payload)

module _ (hashing : Hashing) (registry : AssessmentRegistry) (env : Env) (action : ActionRequest)
    (adapter : String) (a : GovernanceAssessment) where
  -- With the four values that the chain computes at hand, the rest are its tests.
  resolved_with :
      (registration : AssessmentRegistration) (digest : String) (payload : Payload)
      (policy : ActionPolicyResult) (risk : ActionSimulationResult)
      → lookup action.governance_domain registry ≡ some registration
      → bind_action hashing action adapter ≡ ok (digest, payload)
      → registration.policy.evaluate action ≡ some policy
      → registration.risk.evaluate action ≡ some risk
      → resolve_assessment hashing registry env action adapter ≡ ok a
      → (elem (value action.action_type) registration.operations ≡ true)
        × (elem adapter registration.adapters ≡ true)
        × (check_results action policy risk ≡ ok tt)
        × (a ≡ assessment_of env action adapter registration policy risk (digest, payload))
  unfolding resolve_assessment
  resolved_with registration digest payload policy risk e1 e2 e3 e4 h = ground arith

  -- The values and tests of the chain, from its result.
  pub resolve_assessment-IsResolved :
      resolve_assessment hashing registry env action adapter ≡ ok a
      → IsResolved hashing registry env action adapter a
  unfolding resolve_assessment
  resolve_assessment-IsResolved h = elim (Option-cases (lookup action.governance_domain registry)) [
    | inl missing ↦ ground arith
    | inr (registration, e1) ↦ elim (Result-cases (bind_action hashing action adapter)) [
      | inl (e, unbound) ↦ ground arith
      | inr ((digest, payload), e2) ↦ elim (Option-cases (registration.policy.evaluate action)) [
        | inl raised ↦ ground arith
        | inr (policy, e3) ↦ elim (Option-cases (registration.risk.evaluate action)) [
          | inl raised ↦ ground arith
          | inr (risk, e4) ↦
              let (operation, listed, checked, same) =
                resolved_with registration digest payload policy risk e1 e2 e3 e4 h in
              record {
                registration = registration;
                registered = e1;
                operation = operation;
                adapter_listed = listed;
                digest = digest;
                payload = payload;
                bound = e2;
                policy = policy;
                policy_evaluated = e3;
                risk = risk;
                risk_evaluated = e4;
                checked = checked;
                assessment = same;
              }
        ]
      ]
    ]
  ]
