-- ===== src/Execution/Engine/Permit.antt =====
-- What the tests of execution/engine.py establish together: the stored authorization permits
-- exactly the request, and the request is the instruction that its digest stands for.
use rmt_platform.Prelude.{
  ℕ, ◌≤◌, String, false, Option, none, some, ◌≡◌, refl, sym, arith, ltb→ge, ge→ltb, ◌!=◌, string_eq,
  option_eq, list_eq, !=→≡, !=-refl, any_of, any_of-false, AllFalse, AllFalse-any_of, ==-refl, ap,
  ◌∙◌, HasEquality,
}
use rmt_platform.Prelude.Text.{falsy}
use rmt_platform.Prelude.Result.{Result, ok, err}
use rmt_platform.Actions.Models.{outcome_eq}
use rmt_platform.Actions.Binding.{Hashing, Payload, InvalidInstruction, bind_execution_request}
use rmt_platform.Actions.Authorization.{ExecutionAuthorization}
use rmt_platform.Execution.Models.{Provenance, ExecutionRequest}
use rmt_platform.Execution.Engine.{
  is_expired, instruction_tests, binding_mismatches, authorization_failure, instruction_mismatch,
}

-- The instruction digest is there and not empty.
abbrev pub HasDigest : Option String → Type 0
HasDigest digest = falsy digest ≡ false

-- The two agree on the adapter, the domain and the whole provenance.
pub record IsBound (auth : ExecutionAuthorization) (request : ExecutionRequest) (adapter : String)
    : Type 0 where
  pub has_digest : HasDigest request.instruction_digest
  pub authorized_adapter : auth.adapter_name ≡ some adapter
  pub requested_adapter : request.adapter_name ≡ some adapter
  pub domain : auth.governance_domain ≡ request.governance_domain
  pub provenance : auth.provenance ≡ request.provenance

-- The authorization permits this request at this time.
pub record Permits (now : ℕ) (auth : ExecutionAuthorization) (request : ExecutionRequest)
    (adapter : String) : Type 0 where
  pub approved : auth.status ≡ "approved"
  pub unexpired : (t : ℕ) → auth.expires_at ≡ some t → now ≤ t
  pub action_id : auth.action_id ≡ request.action_id
  pub target : auth.target ≡ request.target
  pub operation : auth.operation ≡ request.operation
  pub expected_outcome : request.expected_outcome ≡ auth.expected_outcome
  pub bound : IsBound auth request adapter

same {ℓ} : {A : Type ℓ} ⦃e : HasEquality A⦄ {a b : A} → a ≡ b → (a != b) ≡ false
same {b = b} p = rw p (!=-refl b)

module _ (auth : ExecutionAuthorization) (request : ExecutionRequest) (adapter : String) where
  provenance-eq :
      AllFalse (binding_mismatches auth request adapter) → auth.provenance ≡ request.provenance
  unfolding binding_mismatches
  provenance-eq
        (
          _,
          (
            _,
            (digest, (_, (_, (_, (id, (pid, (pv, (rid, (rv, (cv, (pe, (re, (u, (rs, _)))))))))))))),
          ),
        ) =
      λ i. record {
        assessment_id = !=→≡ _ _ id i;
        policy_evaluator_id = !=→≡ _ _ pid i;
        policy_evaluator_version = !=→≡ _ _ pv i;
        risk_evaluator_id = !=→≡ _ _ rid i;
        risk_evaluator_version = !=→≡ _ _ rv i;
        canonicalization_version = !=→≡ _ _ cv i;
        instruction_digest = !=→≡ _ _ digest i;
        policy_evidence_references = !=→≡ _ _ pe i;
        risk_evidence_references = !=→≡ _ _ re i;
        uncertainty = !=→≡ _ _ u i;
        recovery_semantics = !=→≡ _ _ rs i;
      }

  IsBound-of :
      any_of (binding_mismatches auth request adapter) ≡ false → IsBound auth request adapter
  unfolding binding_mismatches
  IsBound-of h =
      let all : AllFalse (binding_mismatches auth request adapter) =
        any_of-false (binding_mismatches auth request adapter) h in
      record {
        has_digest = all.1.0;
        authorized_adapter = !=→≡ _ _ all.1.1.1.0;
        requested_adapter = !=→≡ _ _ all.1.1.1.1.0;
        domain = !=→≡ _ _ all.1.1.1.1.1.0;
        provenance = provenance-eq all;
      }

  IsBound-not_mismatched :
      IsBound auth request adapter → any_of (binding_mismatches auth request adapter) ≡ false
  unfolding binding_mismatches
  IsBound-not_mismatched b = AllFalse-any_of (binding_mismatches auth request adapter) (
    ap (λ (p : Provenance). falsy p.instruction_digest) b.provenance ∙ b.has_digest,
    (
      b.has_digest,
      (
        same (ap (λ (p : Provenance). p.instruction_digest) b.provenance),
        (
          same b.authorized_adapter,
          (
            same b.requested_adapter,
            (
              same b.domain,
              (
                same (ap (λ (p : Provenance). p.assessment_id) b.provenance),
                (
                  same (ap (λ (p : Provenance). p.policy_evaluator_id) b.provenance),
                  (
                    same (ap (λ (p : Provenance). p.policy_evaluator_version) b.provenance),
                    (
                      same (ap (λ (p : Provenance). p.risk_evaluator_id) b.provenance),
                      (
                        same (ap (λ (p : Provenance). p.risk_evaluator_version) b.provenance),
                        (
                          same (ap (λ (p : Provenance). p.canonicalization_version) b.provenance),
                          (
                            same (
                                ap (λ (p : Provenance). p.policy_evidence_references) b.provenance),
                            (
                              same (
                                  ap (λ (p : Provenance). p.risk_evidence_references) b.provenance),
                              (
                                same (ap (λ (p : Provenance). p.uncertainty) b.provenance),
                                (
                                  same (ap (λ (p : Provenance). p.recovery_semantics) b.provenance),
                                  tt,
                                ),
                              ),
                            ),
                          ),
                        ),
                      ),
                    ),
                  ),
                ),
              ),
            ),
          ),
        ),
      ),
    ),
  )

  abbrev AllPassed : ℕ → Type 0
  AllPassed now =
      ((auth.status != "approved") ≡ false)
      × (is_expired auth.expires_at now ≡ false)
      × ((auth.action_id != request.action_id) ≡ false)
      × ((auth.target != request.target) ≡ false)
      × ((auth.operation != request.operation) ≡ false)
      × ((request.expected_outcome != auth.expected_outcome) ≡ false)
      × (any_of (binding_mismatches auth request adapter) ≡ false)

  all_passed : (now : ℕ) → authorization_failure now auth request adapter ≡ none → AllPassed now
  unfolding authorization_failure
  all_passed now h = ground arith

  none_failed : (now : ℕ) → AllPassed now → authorization_failure now auth request adapter ≡ none
  unfolding authorization_failure
  none_failed now (a, b, c, d, e, f, g) = rw (a, b, c, d, e, f, g)

  -- The tests on the authorization let through only what it permits.
  pub Permits-of :
      (now : ℕ)
      → authorization_failure now auth request adapter ≡ none
      → Permits now auth request adapter
  Permits-of now h =
      let passed : AllPassed now = all_passed now h in
      record {
        approved = !=→≡ _ _ passed.0;
        unexpired = λ t e. ltb→ge t now (rw e at passed.1);
        action_id = !=→≡ _ _ passed.2;
        target = !=→≡ _ _ passed.3;
        operation = !=→≡ _ _ passed.4;
        expected_outcome = !=→≡ _ _ passed.5;
        bound = IsBound-of passed.6;
      }

  unexpired-test :
      (now : ℕ) (expires : Option ℕ)
      → ((t : ℕ) → expires ≡ some t → now ≤ t)
      → is_expired expires now ≡ false
  unexpired-test now none h = refl
  unexpired-test now (some t) h = ge→ltb t now (h t refl)

  -- And all of it.
  pub Permits-passes :
      (now : ℕ)
      → Permits now auth request adapter
      → authorization_failure now auth request adapter ≡ none
  Permits-passes now p = none_failed now (
    same p.approved,
    unexpired-test now auth.expires_at p.unexpired,
    same p.action_id,
    same p.target,
    same p.operation,
    same p.expected_outcome,
    IsBound-not_mismatched p.bound,
  )

-- The request's own digest is the one of the instruction that is about to be executed, in the
-- current canonical form.
pub record IsInstruction (hashing : Hashing) (request : ExecutionRequest) (adapter : String)
    : Type 0 where
  pub payload : Payload
  pub digest : String
  pub bound : bind_execution_request hashing request adapter ≡ ok (digest, payload)
  pub requested_digest : request.instruction_digest ≡ some digest
  pub requested_version : request.canonicalization_version ≡ some payload.canonicalization_version

module _ (hashing : Hashing) (request : ExecutionRequest) (adapter : String) where
  -- An instruction that cannot be bound has the empty digest, which no request with a digest has.
  IsInstruction-cases :
      (r : Result InvalidInstruction (String × Payload))
      → bind_execution_request hashing request adapter ≡ r
      → HasDigest request.instruction_digest
      → instruction_mismatch hashing request adapter ≡ false
      → IsInstruction hashing request adapter
  unfolding instruction_mismatch
  IsInstruction-cases (ok (digest, payload)) e h m =
      let all : AllFalse
          (instruction_tests (digest, some payload.canonicalization_version) request) =
        any_of-false (instruction_tests (digest, some payload.canonicalization_version) request)
          (rw e at m) in
      record {
        payload = payload;
        digest = digest;
        bound = e;
        requested_digest = sym (!=→≡ _ _ all.0);
        requested_version = !=→≡ _ _ all.1.0;
      }
  IsInstruction-cases (err x) e h m =
      let all : AllFalse (instruction_tests ("", none) request) =
        any_of-false (instruction_tests ("", none) request) (rw e at m) in
      cc (==-refl {A = String} "", rw (← !=→≡ (some "") request.instruction_digest all.0) at h)

  pub IsInstruction-of :
      HasDigest request.instruction_digest
      → instruction_mismatch hashing request adapter ≡ false
      → IsInstruction hashing request adapter
  IsInstruction-of = IsInstruction-cases (bind_execution_request hashing request adapter) refl

  pub IsInstruction-not_mismatched :
      IsInstruction hashing request adapter → instruction_mismatch hashing request adapter ≡ false
  unfolding instruction_mismatch
  IsInstruction-not_mismatched i = rw i.bound (
      AllFalse-any_of
        (instruction_tests (i.digest, some i.payload.canonicalization_version) request)
        (same (sym i.requested_digest), (same i.requested_version, tt)))
