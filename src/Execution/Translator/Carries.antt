-- ===== src/Execution/Translator/Carries.antt =====
-- The request of execution/translator.py carries the provenance of what it was made from: the
-- `or` of each field drops nothing that the assessment registry lets through.
use rmt_platform.Prelude.{
  String, Option, none, some, List, [], ◌∷◌, ◌≡◌, ◌≢◌, refl, ◌==◌, string_eq, ≢→==, ==→≡,
  Bool-cases, inl, inr, sym,
}
use rmt_platform.Actions.Assessment.{GovernanceAssessment}
use rmt_platform.Actions.Approval.{ApprovalHold}
use rmt_platform.Actions.Authorization.{assessment_provenance, hold_provenance}
use rmt_platform.Execution.Translator.{or_text, or_string, or_list, or_provenance}

-- The texts of an assessment that `or` would drop if they were empty.
pub record HasTexts (a : GovernanceAssessment) : Type 0 where
  pub assessment_id : a.assessment_id ≢ ""
  pub policy_evaluator_id : a.policy_evaluator_id ≢ ""
  pub policy_evaluator_version : a.policy_evaluator_version ≢ ""
  pub risk_evaluator_id : a.risk_evaluator_id ≢ ""
  pub risk_evaluator_version : a.risk_evaluator_version ≢ ""
  pub canonicalization_version : a.canonicalization_version ≢ ""
  pub instruction_digest : a.instruction_digest ≢ ""

or_text-given : (s : String) (b : Option String) → s ≢ "" → or_text (some s) b ≡ some s
unfolding or_text
or_text-given s b h = rw (≢→== s "" h)

or_string-empty : (s : String) → or_string s "" ≡ s
unfolding or_string
or_string-empty s = elim (Bool-cases (s == "")) [
  | inl empty ↦ rw empty (sym (==→≡ s "" empty))
  | inr given ↦ rw given
]

or_list-empty : (xs : List String) → or_list xs [] ≡ xs
or_list-empty [] = refl
or_list-empty (x ∷ xs) = refl

-- Nothing of an assessment is lost on the way to the request.
pub or_provenance-assessment :
    (a : GovernanceAssessment)
    → HasTexts a
    → or_provenance (assessment_provenance (some a)) (hold_provenance none)
      ≡ assessment_provenance (some a)
unfolding or_provenance assessment_provenance hold_provenance
or_provenance-assessment a h = λ i. record {
  assessment_id = or_text-given _ none h.assessment_id i;
  policy_evaluator_id = or_text-given _ none h.policy_evaluator_id i;
  policy_evaluator_version = or_text-given _ none h.policy_evaluator_version i;
  risk_evaluator_id = or_text-given _ none h.risk_evaluator_id i;
  risk_evaluator_version = or_text-given _ none h.risk_evaluator_version i;
  canonicalization_version = or_text-given _ none h.canonicalization_version i;
  instruction_digest = or_text-given _ none h.instruction_digest i;
  policy_evidence_references = or_list-empty a.policy_evidence_references i;
  risk_evidence_references = or_list-empty a.risk_evidence_references i;
  uncertainty = or_string-empty a.uncertainty i;
  recovery_semantics = or_string-empty a.recovery_semantics i;
}

-- Nor of a hold, whatever its texts are.
pub or_provenance-hold :
    (h : ApprovalHold)
    → or_provenance (assessment_provenance none) (hold_provenance (some h)) ≡ h.provenance
unfolding or_provenance assessment_provenance hold_provenance or_text or_string
or_provenance-hold h = refl
