-- ===== src/Execution/Engine.antt =====
-- execution/engine.py: `ExecutionEngine.execute`, the only caller of an adapter's `execute`.
pub mod Permit
pub mod Mediation
pub mod Evidence
use Prim.Native.String.{◌++◌}
use rmt_platform.Prelude.{
  ℕ, String, Bool, true, false, not, Option, none, some, List, [], ◌∷◌, ltb, ◌==◌, ◌!=◌, string_eq,
  option_eq, option_beq, list_eq, list_beq, any_of, if◌then◌else◌,
}
use rmt_platform.Prelude.Json.{no_fields}
use rmt_platform.Prelude.Text.{falsy}
use rmt_platform.Prelude.Result.{Result, ok, err}
use rmt_platform.Durable.{save}
use rmt_platform.Environment.{Site, Env}
use rmt_platform.State.{State, trace_schema, audit_schema}
use rmt_platform.Actions.Models.{outcome_eq}
use rmt_platform.Actions.Binding.{Hashing, Payload, InvalidInstruction, bind_execution_request}
use rmt_platform.Actions.Authorization.{ExecutionAuthorization, authorization_by_id}
use rmt_platform.Execution.Models.{
  ExecutionRequest, ExecutionResult, ExecutionTrace, ExecutionAuditRecord,
}
use rmt_platform.Execution.Policy.{
  PolicyDecision, allow, deny, requires_approval, decision_value, evaluate_policy, risk_value,
  evaluate_risk,
}
use rmt_platform.Execution.Adapters
use rmt_platform.Execution.Adapters.{Adapter, AdapterRegistry}

-- `_create_blocked_trace`
unfoldable pub create_blocked_trace :
    Env → ExecutionRequest → String → String → String → String → ExecutionTrace
create_blocked_trace env request policy_decision risk_level outcome reason = record {
  trace_id = env.uuid Site.trace;
  execution_id = request.execution_id;
  action_id = request.action_id;
  authorization_id = request.authorization_id;
  policy_decision = policy_decision;
  risk_level = risk_level;
  outcome = outcome;
  reason = reason;
  governance_domain = request.governance_domain;
  adapter_name = request.adapter_name;
  provenance = request.provenance;
  created_at = env.now Site.trace;
}

abbrev pub failed_result : ExecutionRequest → String → ExecutionResult
failed_result request message = record {
  execution_id = request.execution_id;
  status = "failed";
  success = false;
  message = message;
  output = no_fields;
}

abbrev pub is_expired : Option ℕ → ℕ → Bool
is_expired none now = false
is_expired (some t) now = ltb t now

-- The long condition on the instruction and adapter binding.
unfoldable pub binding_mismatches : ExecutionAuthorization → ExecutionRequest → String → List Bool
binding_mismatches auth request adapter =
    falsy auth.instruction_digest
    ∷ falsy request.instruction_digest
    ∷ (auth.instruction_digest != request.instruction_digest)
    ∷ (auth.adapter_name != some adapter)
    ∷ (request.adapter_name != some adapter)
    ∷ (auth.governance_domain != request.governance_domain)
    ∷ (auth.assessment_id != request.assessment_id)
    ∷ (auth.policy_evaluator_id != request.policy_evaluator_id)
    ∷ (auth.policy_evaluator_version != request.policy_evaluator_version)
    ∷ (auth.risk_evaluator_id != request.risk_evaluator_id)
    ∷ (auth.risk_evaluator_version != request.risk_evaluator_version)
    ∷ (auth.canonicalization_version != request.canonicalization_version)
    ∷ (auth.policy_evidence_references != request.policy_evidence_references)
    ∷ (auth.risk_evidence_references != request.risk_evidence_references)
    ∷ (auth.uncertainty != request.uncertainty)
    ∷ (auth.recovery_semantics != request.recovery_semantics)
    ∷ []

-- The tests on the authorization that was found, in order: the reason of the first that fails.
unfoldable pub authorization_failure :
    ℕ → ExecutionAuthorization → ExecutionRequest → String → Option String
authorization_failure now auth request adapter =
    if auth.status != "approved"
    then some "Authorization not approved"
    else if is_expired auth.expires_at now
    then some "Authorization expired"
    else if auth.action_id != request.action_id
    then some "Authorization action_id mismatch"
    else if auth.target != request.target
    then some "Authorization target mismatch"
    else if auth.operation != request.operation
    then some "Authorization operation mismatch"
    else if request.expected_outcome != auth.expected_outcome
    then some "Authorization expected_outcome mismatch"
    else if any_of (binding_mismatches auth request adapter)
    then some "Authorization instruction or adapter binding mismatch"
    else none

-- `actual_digest` and `payload.get("canonicalization_version")`.
abbrev pub bound_or_empty : Result InvalidInstruction (String × Payload) → String × Option String
bound_or_empty (ok (digest, payload)) = (digest, some payload.canonicalization_version)
bound_or_empty (err e) = ("", none)

abbrev pub instruction_tests : String × Option String → ExecutionRequest → List Bool
instruction_tests (digest, version) request =
    (some digest != request.instruction_digest) ∷ (request.canonicalization_version != version) ∷ []

-- The second test of the digest: the engine computes it anew from what it is about to execute.
unfoldable pub instruction_mismatch : Hashing → ExecutionRequest → String → Bool
instruction_mismatch hashing request adapter =
    any_of
      (instruction_tests (bound_or_empty (bind_execution_request hashing request adapter)) request)

unfoldable pub risk_of : ExecutionRequest → String
risk_of request = elim request.risk_level [
  | none ↦ risk_value (evaluate_risk request)
  | some level ↦ level
]

abbrev policy_message : PolicyDecision → String
policy_message decision = "Execution blocked by policy: " ++ decision_value decision

unfoldable pub audit_of :
    Env → ExecutionRequest → ExecutionResult → String → String → ExecutionAuditRecord
audit_of env request result adapter risk = record {
  execution_id = result.execution_id;
  action_id = request.action_id;
  authorization_id = request.authorization_id;
  adapter = adapter;
  status = result.status;
  message = result.message;
  risk_level = risk;
  approval_type = "unknown";
  decision_reason = "";
  governance_domain = request.governance_domain;
  provenance = request.provenance;
  created_at = env.now Site.audit;
}

unfoldable pub trace_of :
    Env → ExecutionRequest → ExecutionResult → String → String → ExecutionTrace
trace_of env request result decision risk = record {
  trace_id = env.uuid Site.trace;
  execution_id = result.execution_id;
  action_id = request.action_id;
  authorization_id = request.authorization_id;
  policy_decision = decision;
  risk_level = risk;
  outcome = result.status;
  reason = result.message;
  governance_domain = request.governance_domain;
  adapter_name = request.adapter_name;
  provenance = request.provenance;
  created_at = env.now Site.trace;
}

module _ {W : Type 0} where
  -- A trace is saved, and the result says that the execution failed.
  unfoldable pub block :
      Env
      → ExecutionRequest
      → String
      → String
      → String
      → State W
      → Result String ExecutionResult × State W
  block env request decision risk reason s = (
    ok (failed_result request reason),
    record s {
      traces =
          save trace_schema (create_blocked_trace env request decision risk "blocked" reason)
            s.traces;
    },
  )

  -- The adapter has returned: the audit record and the trace are saved. Where it has raised, the
  -- exception leaves the engine and nothing is saved.
  unfoldable pub conclude :
      Env
      → ExecutionRequest
      → String
      → String
      → String
      → Result String ExecutionResult × W
      → State W
      → Result String ExecutionResult × State W
  conclude env request adapter decision risk (err e, world) s = (err e, record s { world = world })
  conclude env request adapter decision risk (ok result, world) s = (
    ok result,
    record s {
      world = world;
      audit = save audit_schema (audit_of env request result adapter risk) s.audit;
      traces = save trace_schema (trace_of env request result decision risk) s.traces;
    },
  )

  -- From the look-up of the adapter on. A missing adapter leaves no trace.
  unfoldable pub dispatch :
      AdapterRegistry W
      → Env
      → ExecutionRequest
      → String
      → String
      → String
      → State W
      → Result String ExecutionResult × State W
  dispatch adapters env request name decision risk s = elim (Adapters.get name adapters) [
    | none ↦ (ok (failed_result request ("Adapter '" ++ (name ++ "' not found"))), s)
    | some adapter ↦
        if not (adapter.supports request)
        then (ok (failed_result request "Adapter does not support request"), s)
        else conclude env request name decision risk (adapter.execute request s.world) s
  ]

  -- From the policy gate on.
  unfoldable pub gate :
      AdapterRegistry W
      → Env
      → ExecutionRequest
      → String
      → State W
      → Result String ExecutionResult × State W
  gate adapters env request name s = elim (evaluate_policy request) [
    | allow ↦ dispatch adapters env request name (decision_value allow) (risk_of request) s
    | deny ↦ block env request (decision_value deny) (risk_of request) (policy_message deny) s
    | requires_approval ↦
        block env request (decision_value requires_approval) (risk_of request)
          (policy_message requires_approval) s
  ]

  -- `ExecutionEngine.execute`
  unfoldable pub execute :
      Hashing
      → AdapterRegistry W
      → Env
      → ExecutionRequest
      → String
      → State W
      → Result String ExecutionResult × State W
  execute hashing adapters env request name s =
      elim (authorization_by_id request.authorization_id s.authorizations) [
        | none ↦ block env request "not_evaluated" "not_evaluated" "Authorization not found" s
        | some auth ↦ elim (authorization_failure (env.now Site.engine_clock) auth request name) [
          | some reason ↦ block env request "not_evaluated" "not_evaluated" reason s
          | none ↦
              if instruction_mismatch hashing request name
              then block env request "not_evaluated" "not_evaluated"
                  "Execution instruction binding mismatch" s
              else gate adapters env request name s
        ]
      ]
