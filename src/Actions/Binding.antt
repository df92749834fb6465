-- ===== src/Actions/Binding.antt =====
-- actions/binding.py: the digest of the exact instruction that is assessed, approved and executed.
pub mod Digest
use rmt_platform.Prelude.{String, Bool, ◌||◌, Option, none, some, ◌==◌, string_eq, if◌then◌else◌}
use rmt_platform.Prelude.Json.{Fields}
use rmt_platform.Prelude.Result.{Result, ok, err, ◌>>=◌}
use rmt_platform.Actions.Models.{ActionRequest, ExpectedOutcome, value}
use rmt_platform.Execution.Models.{ExecutionRequest}

abbrev pub canonicalization : String
canonicalization = "rmt-instruction-v1"

-- The dict that `instruction_payload` returns.
pub record Payload : Type 0 where
  pub canonicalization_version : String
  pub governance_domain : String
  pub action_id : String
  pub decision_id : String
  pub target : String
  pub operation : String
  pub parameters : Fields
  pub expected_outcome : Option ExpectedOutcome
  pub adapter_name : String

pub data InvalidInstruction : Type 0 where
  not_canonical_json domain_and_adapter_required : InvalidInstruction

-- `json.dumps` in canonical form, which may raise, and the hex digest of SHA-256.
pub record Hashing : Type 0 where
  pub dumps : Payload → Option String
  pub sha256 : String → String

unfoldable pub instruction_payload :
    String
    → String
    → String
    → String
    → String
    → Fields
    → Option ExpectedOutcome
    → String
    → Result InvalidInstruction Payload
instruction_payload domain action_id decision_id target operation parameters expected adapter =
    if (domain == "") || (adapter == "")
    then err domain_and_adapter_required
    else ok (record {
      canonicalization_version = canonicalization;
      governance_domain = domain;
      action_id = action_id;
      decision_id = decision_id;
      target = target;
      operation = operation;
      parameters = parameters;
      expected_outcome = expected;
      adapter_name = adapter;
    })

module _ (hashing : Hashing) where
  unfoldable pub digest_payload : Payload → Result InvalidInstruction String
  digest_payload payload = elim (hashing.dumps payload) [
    | none ↦ err not_canonical_json
    | some encoded ↦ ok (hashing.sha256 encoded)
  ]

  unfoldable pub bind_action : ActionRequest → String → Result InvalidInstruction (String × Payload)
  unfolding instruction_payload digest_payload value
  bind_action action adapter = do
    payload ←
        instruction_payload action.governance_domain action.action_id action.decision_id
          action.component (value action.action_type) action.parameters action.expected_outcome
          adapter
    digest ← digest_payload payload
    ok (digest, payload)

  unfoldable pub bind_execution_request :
      ExecutionRequest → String → Result InvalidInstruction (String × Payload)
  unfolding instruction_payload digest_payload
  bind_execution_request request adapter = do
    payload ←
        instruction_payload request.governance_domain request.action_id request.decision_id
          request.target request.operation request.parameters request.expected_outcome adapter
    digest ← digest_payload payload
    ok (digest, payload)
