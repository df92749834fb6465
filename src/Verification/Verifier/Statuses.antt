-- ===== src/Verification/Verifier/Statuses.antt =====
-- The status that `Verifier.verify` of verification/verifier.py gives, by what was expected and
-- what was observed.
use rmt_platform.Prelude.{
  String, false, Option, none, some, ◌≡◌, ◌↔◌, refl, arith, ◌==◌, string_eq, inl, inr, Bool-cases,
  ==→≡, ==→≢, ◌≢◌,
}
use rmt_platform.Environment.{Env}
use rmt_platform.Actions.Models.{ExpectedOutcome}
use rmt_platform.Verification.Models.{ObservedState}
use rmt_platform.Verification.Verifier.{verify}

-- The observation that was expected was made.
pub record IsMet (expected : Option ExpectedOutcome) (observed : Option ObservedState)
    : Type 0 where
  pub outcome : ExpectedOutcome
  pub expects : expected ≡ some outcome
  pub observation : ObservedState
  pub observes : observed ≡ some observation
  pub same_state : observation.state ≡ outcome.expected_state

differ : (a b : String) → (a == b) ≡ false → a ≢ b
differ a b h = ==→≢ a b h

module _ (env : Env) (execution_id : String) where
  verified-IsMet :
      (expected : Option ExpectedOutcome) (observed : Option ObservedState)
      → (verify env execution_id expected observed).status ≡ "verified_success"
      → IsMet expected observed
  unfolding verify
  verified-IsMet none observed h = absurd (differ "verification_failure" "verified_success" refl h)
  verified-IsMet (some e) none h =
      absurd (differ "observation_unavailable" "verified_success" refl h)
  verified-IsMet (some e) (some o) h = record {
    outcome = e;
    expects = refl;
    observation = o;
    observes = refl;
    same_state = same;
  }
    where
      same : o.state ≡ e.expected_state
      same = elim (Bool-cases (o.state == e.expected_state)) [
        | inl met ↦ ==→≡ _ _ met
        | inr other ↦ absurd (differ "state_mismatch" "verified_success" refl (rw other at h))
      ]

  IsMet-verified :
      (expected : Option ExpectedOutcome) (observed : Option ObservedState)
      → IsMet expected observed
      → (verify env execution_id expected observed).status ≡ "verified_success"
  unfolding verify
  IsMet-verified expected observed m =
      rw (m.expects, m.observes)
        (ground
          (arith, m.same_state, string_eq.equals_iff m.observation.state m.outcome.expected_state))

  failure-unexpected :
      (expected : Option ExpectedOutcome) (observed : Option ObservedState)
      → ((verify env execution_id expected observed).status ≡ "verification_failure")
        ↔ (expected ≡ none)
  unfolding verify
  failure-unexpected none observed = (λ h. refl, λ h. refl)
  failure-unexpected (some e) none =
      (λ h. absurd (differ "observation_unavailable" "verification_failure" refl h), λ h. cc)
  failure-unexpected (some e) (some o) = elim (Bool-cases (o.state == e.expected_state)) [
    | inl same ↦
        rw same (λ h. absurd (differ "verified_success" "verification_failure" refl h), λ h. cc)
    | inr other ↦
        rw other (λ h. absurd (differ "state_mismatch" "verification_failure" refl h), λ h. cc)
  ]

  -- An execution is verified as a success exactly when an outcome was expected and the state that
  -- was observed is the one expected; it fails verification exactly when no outcome was expected,
  -- whatever was observed.
  pub verify-statuses :
      (expected : Option ExpectedOutcome) (observed : Option ObservedState)
      → (((verify env execution_id expected observed).status ≡ "verified_success")
          ↔ IsMet expected observed)
        × (((verify env execution_id expected observed).status ≡ "verification_failure")
            ↔ (expected ≡ none))
  verify-statuses expected observed = (
    (verified-IsMet expected observed, IsMet-verified expected observed),
    failure-unexpected expected observed,
  )
