-- ===== src/Actions/Assessment/Accepted.antt =====
-- When `resolve_assessment` of actions/assessment.py returns, and what the assessment then carries.
use rmt_platform.Prelude.{
  String, true, false, ◌&&◌, ◌||◌, some, List, [], ◌∷◌, ◌≡◌, ◌≢◌, ◌⊎◌, ◌==◌, ◌!=◌, refl, sym, ap,
  ◌∙◌, arith, inl, inr, elem, All, string_eq, Bool-cases, !=-refl, ≢→==, ==→≢,
}
use rmt_platform.Prelude.Dict.{lookup}
use rmt_platform.Prelude.Result.{ok}
use rmt_platform.Environment.{Env}
use rmt_platform.Actions.Models.{ActionRequest, value}
use rmt_platform.Actions.Policy.{ActionPolicyResult}
use rmt_platform.Actions.Simulation.{ActionSimulationResult}
use rmt_platform.Actions.Binding.{Hashing, Payload, bind_action}
use rmt_platform.Actions.Assessment.{
  AssessmentRegistration, AssessmentRegistry, GovernanceAssessment, references_given, is_empty,
  risk_levels, default_governance_domain, check_results, assessment_of, resolve_assessment,
}
use rmt_platform.Actions.Assessment.Resolve.{resolve_assessment-IsResolved}

abbrev IsLevel : String → Type 0
IsLevel level =
    (level ≡ "low")
    ⊎ (level ≡ "medium")
    ⊎ (level ≡ "high")
    ⊎ (level ≡ "critical")
    ⊎ (level ≡ "unknown")

-- Outside the default domain both results come with evidence, and the risk with what is uncertain
-- and how to recover.
abbrev IsEvidenced : ActionRequest → ActionPolicyResult → ActionSimulationResult → Type 0
IsEvidenced action policy risk =
    action.governance_domain ≢ "rmt.default"
    → (policy.evidence_references ≢ [])
      × (risk.evidence_references ≢ [])
      × (risk.uncertainty ≢ "")
      × (risk.recovery_semantics ≢ "")

-- Two results of evaluators that may become an assessment of the action.
pub record AreSound (action : ActionRequest) (policy : ActionPolicyResult)
    (risk : ActionSimulationResult) : Type 0 where
  pub policy_references : All (λ r. r ≢ "") policy.evidence_references
  pub level : IsLevel risk.risk_level
  pub same_action : risk.action_id ≡ action.action_id
  pub same_component : risk.component ≡ action.component
  pub same_operation : risk.action_type ≡ value action.action_type
  pub risk_references : All (λ r. r ≢ "") risk.evidence_references
  pub evidenced : IsEvidenced action policy risk

references-All : (rs : List String) → references_given rs ≡ true → All (λ r. r ≢ "") rs
references-All [] h = tt
references-All (r ∷ rs) h = elim (Bool-cases (r == "")) [
  | inl empty ↦ absurd (ground (arith, h, empty))
  | inr given ↦ (==→≢ r "" given, references-All rs (ground (arith, h, given)))
]

All-references : (rs : List String) → All (λ r. r ≢ "") rs → references_given rs ≡ true
All-references [] given = refl
All-references (r ∷ rs) (g, gs) = rw (≢→== r "" g) (All-references rs gs)

elem-IsLevel : (level : String) → elem level risk_levels ≡ true → IsLevel level
elem-IsLevel level h = ground (
  arith,
  string_eq.equals_iff level "low",
  string_eq.equals_iff level "medium",
  string_eq.equals_iff level "high",
  string_eq.equals_iff level "critical",
  string_eq.equals_iff level "unknown",
)

≡→!= : (a b : String) → a ≡ b → (a != b) ≡ false
≡→!= a b e = ap (λ x. x != b) e ∙ !=-refl {A = String} b

IsLevel-elem : (level : String) → IsLevel level → elem level risk_levels ≡ true
IsLevel-elem level (inl e) = rw e refl
IsLevel-elem level (inr (inl e)) = rw e refl
IsLevel-elem level (inr (inr (inl e))) = rw e refl
IsLevel-elem level (inr (inr (inr (inl e)))) = rw e refl
IsLevel-elem level (inr (inr (inr (inr e)))) = rw e refl

is_empty-≢ : (rs : List String) → is_empty rs ≡ false → rs ≢ []
is_empty-≢ rs h e = cc (sym h ∙ ap is_empty e)

≢-is_empty : (rs : List String) → rs ≢ [] → is_empty rs ≡ false
≢-is_empty [] h = absurd (h refl)
≢-is_empty (r ∷ rs) h = refl

module _ (action : ActionRequest) (policy : ActionPolicyResult)
    (risk : ActionSimulationResult) where
  checked-tests :
      check_results action policy risk ≡ ok tt
      → (references_given policy.evidence_references ≡ true)
        × (elem risk.risk_level risk_levels ≡ true)
        × (risk.action_id ≡ action.action_id)
        × (risk.component ≡ action.component)
        × (risk.action_type ≡ value action.action_type)
        × (references_given risk.evidence_references ≡ true)
        × ((action.governance_domain == "rmt.default") ≡ false
            → (is_empty policy.evidence_references ≡ false)
              × (is_empty risk.evidence_references ≡ false)
              × ((risk.uncertainty == "") ≡ false)
              × ((risk.recovery_semantics == "") ≡ false))
  unfolding check_results
  checked-tests h = ground (
    arith,
    string_eq.equals_iff risk.action_id action.action_id,
    string_eq.equals_iff risk.component action.component,
    string_eq.equals_iff risk.action_type (value action.action_type),
  )

  checked-AreSound : check_results action policy risk ≡ ok tt → AreSound action policy risk
  checked-AreSound h =
      let (listed, level, id, component, operation, given, evidence) = checked-tests h in
      record {
        policy_references = references-All policy.evidence_references listed;
        level = elem-IsLevel risk.risk_level level;
        same_action = id;
        same_component = component;
        same_operation = operation;
        risk_references = references-All risk.evidence_references given;
        evidenced = λ outside.
            let (p, r, u, w) = evidence (≢→== action.governance_domain "rmt.default" outside) in
            (
              is_empty-≢ policy.evidence_references p,
              is_empty-≢ risk.evidence_references r,
              ==→≢ risk.uncertainty "" u,
              ==→≢ risk.recovery_semantics "" w,
            );
      }

  tests-checked :
      references_given policy.evidence_references ≡ true
      → elem risk.risk_level risk_levels ≡ true
      → (risk.action_id != action.action_id) ≡ false
      → (risk.component != action.component) ≡ false
      → (risk.action_type != value action.action_type) ≡ false
      → references_given risk.evidence_references ≡ true
      → ((action.governance_domain != default_governance_domain)
          && (is_empty policy.evidence_references
              || is_empty risk.evidence_references
              || (risk.uncertainty == "")
              || (risk.recovery_semantics == "")))
        ≡ false
      → check_results action policy risk ≡ ok tt
  unfolding check_results
  tests-checked listed level id component operation given evidence =
      rw (listed, level, id, component, operation, given, evidence, check_results) refl

  evidence-test :
      IsEvidenced action policy risk
      → ((action.governance_domain != default_governance_domain)
          && (is_empty policy.evidence_references
              || is_empty risk.evidence_references
              || (risk.uncertainty == "")
              || (risk.recovery_semantics == "")))
        ≡ false
  evidence-test evidenced =
      elim (Bool-cases (action.governance_domain == default_governance_domain)) [
        | inl inside ↦ ground (arith, inside)
        | inr outside ↦
            let (p, r, u, w) = evidenced (==→≢ action.governance_domain "rmt.default" outside) in
            ground (
              arith,
              ≢-is_empty policy.evidence_references p,
              ≢-is_empty risk.evidence_references r,
              ≢→== risk.uncertainty "" u,
              ≢→== risk.recovery_semantics "" w,
            )
      ]

  AreSound-checked : AreSound action policy risk → check_results action policy risk ≡ ok tt
  AreSound-checked f =
      tests-checked (All-references policy.evidence_references f.policy_references)
        (IsLevel-elem risk.risk_level f.level) (≡→!= _ _ f.same_action) (≡→!= _ _ f.same_component)
        (≡→!= _ _ f.same_operation) (All-references risk.evidence_references f.risk_references)
        (evidence-test f.evidenced)

-- What an assessment is made from: the registration of the action's domain, which lists the
-- operation and the adapter, the digest of the instruction, and two sound results.
pub record IsAcceptable (hashing : Hashing) (registry : AssessmentRegistry) (action : ActionRequest)
    (adapter : String) : Type 0 where
  pub registration : AssessmentRegistration
  pub registered : lookup action.governance_domain registry ≡ some registration
  pub operation : elem (value action.action_type) registration.operations ≡ true
  pub adapter_listed : elem adapter registration.adapters ≡ true
  pub digest : String
  pub payload : Payload
  pub bound : bind_action hashing action adapter ≡ ok (digest, payload)
  pub policy : ActionPolicyResult
  pub policy_evaluated : registration.policy.evaluate action ≡ some policy
  pub risk : ActionSimulationResult
  pub risk_evaluated : registration.risk.evaluate action ≡ some risk
  pub sound : AreSound action policy risk

module _ (hashing : Hashing) (registry : AssessmentRegistry) (action : ActionRequest)
    (adapter : String) where
  -- The assessment carries the values that it was made from.
  pub record Carries (f : IsAcceptable hashing registry action adapter) (a : GovernanceAssessment)
      : Type 0 where
    pub domain : a.governance_domain ≡ action.governance_domain
    pub policy_result : a.policy_result ≡ f.policy
    pub risk_result : a.risk_result ≡ f.risk
    pub policy_evaluator : a.policy_evaluator_id ≡ f.registration.policy.evaluator_id
    pub policy_version : a.policy_evaluator_version ≡ f.registration.policy.version
    pub risk_evaluator : a.risk_evaluator_id ≡ f.registration.risk.evaluator_id
    pub risk_version : a.risk_evaluator_version ≡ f.registration.risk.version
    pub instruction : a.instruction_digest ≡ f.digest
    pub through : a.adapter_name ≡ adapter
    pub policy_references : a.policy_evidence_references ≡ f.policy.evidence_references
    pub risk_references : a.risk_evidence_references ≡ f.risk.evidence_references

  module _ (env : Env) where
    -- An assessment is returned only when the domain of the action is registered and lists the
    -- operation and the adapter, the instruction can be bound, and both evaluators answered: with
    -- references that are not empty, a risk level of low, medium, high, critical or unknown, a
    -- risk for this action, component and operation, and, outside the default domain, with
    -- references on both sides, an uncertainty and recovery semantics. It carries the results and
    -- references of the evaluators, their identities, the digest, the domain and the adapter.
    pub resolve_assessment-IsAcceptable :
        (a : GovernanceAssessment)
        → resolve_assessment hashing registry env action adapter ≡ ok a
        → (f : IsAcceptable hashing registry action adapter) × Carries f a
    resolve_assessment-IsAcceptable a h =
        let r = resolve_assessment-IsResolved hashing registry env action adapter a h in
        (
          record {
            registration = r.registration;
            registered = r.registered;
            operation = r.operation;
            adapter_listed = r.adapter_listed;
            digest = r.digest;
            payload = r.payload;
            bound = r.bound;
            policy = r.policy;
            policy_evaluated = r.policy_evaluated;
            risk = r.risk;
            risk_evaluated = r.risk_evaluated;
            sound = checked-AreSound action r.policy r.risk r.checked;
          },
          record {
            domain = ap (λ b. b.governance_domain) r.assessment;
            policy_result = ap (λ b. b.policy_result) r.assessment;
            risk_result = ap (λ b. b.risk_result) r.assessment;
            policy_evaluator = ap (λ b. b.policy_evaluator_id) r.assessment;
            policy_version = ap (λ b. b.policy_evaluator_version) r.assessment;
            risk_evaluator = ap (λ b. b.risk_evaluator_id) r.assessment;
            risk_version = ap (λ b. b.risk_evaluator_version) r.assessment;
            instruction = ap (λ b. b.instruction_digest) r.assessment;
            through = ap (λ b. b.adapter_name) r.assessment;
            policy_references = ap (λ b. b.policy_evidence_references) r.assessment;
            risk_references = ap (λ b. b.risk_evidence_references) r.assessment;
          },
        )

    -- When the domain of the action is registered and lists the operation and the adapter, the
    -- instruction can be bound, and both evaluators answer with results that are sound for the
    -- action, an assessment is returned that carries their results and references, their
    -- identities, the digest, the domain and the adapter.
    pub IsAcceptable-resolve_assessment :
        (f : IsAcceptable hashing registry action adapter)
        → (a : GovernanceAssessment) × (resolve_assessment hashing registry env action adapter
            ≡ ok a)
          × Carries f a
    unfolding resolve_assessment
    IsAcceptable-resolve_assessment f = (
      assessment_of env action adapter f.registration f.policy f.risk (f.digest, f.payload),
      rw
          (
            f.registered,
            f.operation,
            f.adapter_listed,
            f.bound,
            f.policy_evaluated,
            f.risk_evaluated,
            AreSound-checked action f.policy f.risk f.sound,
            resolve_assessment,
          )
          refl,
      record {
        domain = refl;
        policy_result = refl;
        risk_result = refl;
        policy_evaluator = refl;
        policy_version = refl;
        risk_evaluator = refl;
        risk_version = refl;
        instruction = refl;
        through = refl;
        policy_references = refl;
        risk_references = refl;
      },
    )
