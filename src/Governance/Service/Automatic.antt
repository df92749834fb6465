-- ===== src/Governance/Service/Automatic.antt =====
-- The automatic path of actions/service.py from end to end: a cleared action passes every test of
-- the execution engine, so it reaches the adapter that it was assessed for.
use rmt_platform.Prelude.{
  ℕ, ◌≤◌, String, false, some, ◌≡◌, ◌≢◌, refl, arith, ap, sym, ◌∙◌, string_eq, ≢→==, ==→≢, elem, [],
  ◌∷◌,
}
use rmt_platform.Prelude.Text.{lower, falsy}
use rmt_platform.Environment.{Site, Env}
use rmt_platform.Actions.Models.{
  ActionRequest, ActionType, value, restart_component, create_checkpoint, scale_down,
  isolate_component, start, stop, restart, create, remove,
}
use rmt_platform.Actions.Binding.{Hashing, bind_action, bind_execution_request}
use rmt_platform.Actions.Binding.Digest.{bind_action-digest}
use rmt_platform.Actions.ApprovalPolicy.{ApprovalDecision}
use rmt_platform.Actions.Assessment.{AssessmentRegistry, GovernanceAssessment}
use rmt_platform.Actions.Assessment.Registry.{IsWellFormed}
use rmt_platform.Actions.Assessment.Resolve.{IsResolved}
use rmt_platform.Actions.Authorization.{
  ExecutionAuthorization, expiry, assessment_provenance, automatic_authorization,
}
use rmt_platform.Execution.Models.{Provenance, ExecutionRequest}
use rmt_platform.Execution.Translator.{translate_action_to_execution}
use rmt_platform.Execution.Translator.Carries.{HasTexts, or_provenance-assessment}
use rmt_platform.Execution.Policy.{allow, evaluate_policy}
use rmt_platform.Execution.Engine.Permit.{Permits, IsInstruction}
use rmt_platform.Governance.Service.{automatic_request}

-- What the pipeline relies on outside its code: a digest is never the empty text, and nor is a
-- UUID.
pub record HasNames (hashing : Hashing) (env : Env) : Type 0 where
  pub digest_given : (t : String) → hashing.sha256 t ≢ ""
  pub uuid_given : (s : Site) → env.uuid s ≢ ""

module _ (hashing : Hashing) where
  -- The engine binds the request to the payload that the action was assessed with.
  pub bind_execution_request-translate :
      (env : Env) (action : ActionRequest) (adapter : String) (a : GovernanceAssessment)
      (auth : ExecutionAuthorization)
      → bind_execution_request hashing (automatic_request env action adapter a auth) adapter
        ≡ bind_action hashing action adapter
  unfolding bind_execution_request bind_action translate_action_to_execution
  bind_execution_request-translate env action adapter a auth = refl

not_denied : (t : ActionType) → elem (lower (value t)) ("format" ∷ "wipe" ∷ []) ≡ false
unfolding value lower
not_denied restart_component = refl
not_denied create_checkpoint = refl
not_denied scale_down = refl
not_denied isolate_component = refl
not_denied start = refl
not_denied stop = refl
not_denied restart = refl
not_denied create = refl
not_denied remove = refl

-- No action type is an operation that the last gate denies.
pub evaluate_policy-allow :
    (request : ExecutionRequest) (t : ActionType)
    → request.operation ≡ value t
    → evaluate_policy request ≡ allow
unfolding evaluate_policy
evaluate_policy-allow request t e = rw (e, not_denied t)

module _ (hashing : Hashing) (env : Env) (action : ActionRequest) (adapter : String)
    (a : GovernanceAssessment) (names : HasNames hashing env) (registry : AssessmentRegistry)
    (well_formed : IsWellFormed registry)
    (resolved : IsResolved hashing registry env action adapter a) where
  -- An assessment by a well-formed registry has every text that the request must carry.
  pub resolved-HasTexts : HasTexts a
  resolved-HasTexts =
      let (complete, _) =
        well_formed.at_domain action.governance_domain resolved.registration resolved.registered in
      let (digest, version) =
        bind_action-digest hashing action adapter resolved.digest resolved.payload
          names.digest_given resolved.bound in
      rw resolved.assessment (record {
        assessment_id = names.uuid_given Site.assessment;
        policy_evaluator_id = complete.policy_id;
        policy_evaluator_version = complete.policy_version;
        risk_evaluator_id = complete.risk_id;
        risk_evaluator_version = complete.risk_version;
        canonicalization_version = rw version (==→≢ _ _ refl);
        instruction_digest = digest;
      })

  module _ (d : ApprovalDecision) where
    abbrev auth : ExecutionAuthorization
    auth = automatic_authorization env action d (some a)

    abbrev request : ExecutionRequest
    request = automatic_request env action adapter a auth

    same_provenance : request.provenance ≡ assessment_provenance (some a)
    unfolding translate_action_to_execution
    same_provenance = or_provenance-assessment a resolved-HasTexts

    -- The authorization permits the request, until it expires.
    pub automatic-Permits : (now : ℕ) → now ≤ expiry env → Permits now auth request adapter
    unfolding translate_action_to_execution automatic_authorization assessment_provenance
    automatic-Permits now h = record {
      approved = refl;
      unexpired = λ t e. ground arith;
      action_id = refl;
      target = refl;
      operation = refl;
      expected_outcome = refl;
      bound = record {
        has_digest =
            ap (λ (p : Provenance). falsy p.instruction_digest) same_provenance
            ∙ ≢→== _ _ resolved-HasTexts.instruction_digest;
        authorized_adapter = rw resolved.assessment;
        requested_adapter = refl;
        domain = refl;
        provenance = sym same_provenance;
      };
    }

    -- The request carries the digest of the instruction that it holds.
    pub automatic-IsInstruction : IsInstruction hashing request adapter
    unfolding assessment_provenance
    automatic-IsInstruction = record {
      payload = resolved.payload;
      digest = resolved.digest;
      bound = bind_execution_request-translate hashing env action adapter a auth ∙ resolved.bound;
      requested_digest = rw (same_provenance, resolved.assessment);
      requested_version = rw (same_provenance, resolved.assessment);
    }
