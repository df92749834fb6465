-- ===== src/Actions/Binding/Digest.antt =====
-- What a digest of actions/binding.py is, when the instruction can be bound.
use rmt_platform.Prelude.{String, Option, ◌≡◌, ◌≢◌, arith, Option-cases, inl, inr}
use rmt_platform.Prelude.Json.{Fields}
use rmt_platform.Prelude.Result.{ok, ◌>>=◌, >>=-eq-ok}
use rmt_platform.Actions.Models.{ActionRequest, ExpectedOutcome, value}
use rmt_platform.Actions.Binding.{
  Hashing, Payload, canonicalization, instruction_payload, digest_payload, bind_action,
}

digest_payload-sha256 :
    (hashing : Hashing) (payload : Payload) (digest : String)
    → digest_payload hashing payload ≡ ok digest
    → (t : String) × (digest ≡ hashing.sha256 t)
unfolding digest_payload
digest_payload-sha256 hashing payload digest h = elim (Option-cases (hashing.dumps payload)) [
  | inl raised ↦ cc (rw (raised, digest_payload) at h)
  | inr (t, e) ↦ (t, ground arith)
]

instruction_payload-version :
    (domain action_id decision_id target operation : String) (parameters : Fields)
    (expected : Option ExpectedOutcome) (adapter : String) (payload : Payload)
    → instruction_payload domain action_id decision_id target operation parameters expected adapter
      ≡ ok payload
    → payload.canonicalization_version ≡ canonicalization
unfolding instruction_payload
instruction_payload-version domain action_id decision_id target operation parameters expected
      adapter payload h =
    ground arith

module _ (hashing : Hashing) where
  -- A digest that was bound is a digest of SHA-256, in the current canonical form.
  pub bind_action-digest :
      (action : ActionRequest) (adapter digest : String) (payload : Payload)
      → ((t : String) → hashing.sha256 t ≢ "")
      → bind_action hashing action adapter ≡ ok (digest, payload)
      → (digest ≢ "") × (payload.canonicalization_version ≡ canonicalization)
  unfolding bind_action
  bind_action-digest action adapter digest payload given h =
      let (payload', h', e) =
        >>=-eq-ok (λ q. digest_payload hashing q >>= λ d. ok (d, q))
          (instruction_payload action.governance_domain action.action_id action.decision_id
            action.component (value action.action_type) action.parameters action.expected_outcome
            adapter)
          h in
      let (digest', same, e') =
        >>=-eq-ok (λ d. ok (d, payload')) (digest_payload hashing payload') h' in
      let (t, hashed) = digest_payload-sha256 hashing payload' digest' e' in
      let version =
        instruction_payload-version action.governance_domain action.action_id action.decision_id
          action.component (value action.action_type) action.parameters action.expected_outcome
          adapter payload' e in
      (λ empty. given t (ground arith), ground arith)
