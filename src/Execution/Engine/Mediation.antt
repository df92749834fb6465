-- ===== src/Execution/Engine/Mediation.antt =====
-- Complete mediation: `ExecutionEngine.execute` of execution/engine.py reaches an adapter only for
-- the instruction that a stored, live authorization permits, and otherwise changes nothing but
-- the trace store.
use rmt_platform.Prelude.{String, true, some, ◌≡◌, refl, ◌⊎◌, inl, inr, Option-cases, Bool-cases}
use rmt_platform.Prelude.Result.{Result, ok}
use rmt_platform.Environment.{Site, Env}
use rmt_platform.State.{State}
use rmt_platform.Actions.Binding.{Hashing}
use rmt_platform.Actions.Authorization.{ExecutionAuthorization, authorization_by_id}
use rmt_platform.Execution.Models.{ExecutionRequest, ExecutionResult}
use rmt_platform.Execution.Policy.{
  allow, deny, requires_approval, PolicyDecision, decision_value, evaluate_policy,
}
use rmt_platform.Execution.Adapters
use rmt_platform.Execution.Adapters.{Adapter, AdapterRegistry}
use rmt_platform.Execution.Engine.{
  failed_result, authorization_failure, instruction_mismatch, risk_of, block, conclude, dispatch,
  gate, execute,
}
use rmt_platform.Execution.Engine.Permit.{
  Permits, IsInstruction, Permits-of, IsInstruction-of, Permits-passes,
  IsInstruction-not_mismatched,
}

module _ {W : Type 0} where
  -- The execution failed before any adapter was called, and at most a trace was saved.
  pub record Refused (request : ExecutionRequest) (s : State W) (r : Result String ExecutionResult)
      (s' : State W) : Type 0 where
    pub message : String
    pub failed : r ≡ ok (failed_result request message)
    pub unchanged : s' ≡ record s { traces = s'.traces }

  -- The adapter of that name was called, for a request that a stored authorization permits.
  pub record Performed (hashing : Hashing) (adapters : AdapterRegistry W) (env : Env)
      (request : ExecutionRequest) (name : String) (s : State W) (r : Result String ExecutionResult)
      (s' : State W) : Type 0 where
    pub authorization : ExecutionAuthorization
    pub stored : authorization_by_id request.authorization_id s.authorizations ≡ some authorization
    pub permits : Permits (env.now Site.engine_clock) authorization request name
    pub instruction : IsInstruction hashing request name
    pub allowed : evaluate_policy request ≡ allow
    pub adapter : Adapter W
    pub registered : Adapters.get name adapters ≡ some adapter
    pub supported : adapter.supports request ≡ true
    pub called :
        (r, s')
        ≡ conclude env request name "allow" (risk_of request) (adapter.execute request s.world) s

  abbrev pub Outcome :
      Hashing
      → AdapterRegistry W
      → Env
      → ExecutionRequest
      → String
      → State W
      → Result String ExecutionResult × State W
      → Type 0
  Outcome hashing adapters env request name s (r, s') =
      Refused request s r s' ⊎ Performed hashing adapters env request name s r s'

  block-Refused :
      (env : Env) (request : ExecutionRequest) (decision risk reason : String) (s : State W)
      → let (r, s') = block env request decision risk reason s in Refused request s r s'
  unfolding block
  block-Refused env request decision risk reason s = record {
    message = reason;
    failed = refl;
    unchanged = refl;
  }

module _ {W : Type 0} (hashing : Hashing) (adapters : AdapterRegistry W) (env : Env)
    (request : ExecutionRequest) (name : String) (s : State W) where
  dispatch-Outcome :
      (auth : ExecutionAuthorization)
      → authorization_by_id request.authorization_id s.authorizations ≡ some auth
      → Permits (env.now Site.engine_clock) auth request name
      → IsInstruction hashing request name
      → evaluate_policy request ≡ allow
      → Outcome hashing adapters env request name s
          (dispatch adapters env request name "allow" (risk_of request) s)
  unfolding dispatch
  dispatch-Outcome auth stored permits instruction allowed =
      elim (Option-cases (Adapters.get name adapters)) [
        | inl missing ↦
            rw (missing, dispatch) (inl (record { message = _; failed = refl; unchanged = refl }))
        | inr (adapter, e) ↦ elim (Bool-cases (adapter.supports request)) [
          | inl supported ↦
              rw (e, dispatch, supported)
                (inr (record {
                  authorization = auth;
                  stored = stored;
                  permits = permits;
                  instruction = instruction;
                  allowed = allowed;
                  adapter = adapter;
                  registered = e;
                  supported = supported;
                  called = refl;
                }))
          | inr unsupported ↦
              rw (e, dispatch, unsupported)
                (inl (record { message = _; failed = refl; unchanged = refl }))
        ]
      ]

  gate-Outcome :
      (auth : ExecutionAuthorization)
      → authorization_by_id request.authorization_id s.authorizations ≡ some auth
      → Permits (env.now Site.engine_clock) auth request name
      → IsInstruction hashing request name
      → (d : PolicyDecision) → evaluate_policy request ≡ d
      → Outcome hashing adapters env request name s (gate adapters env request name s)
  unfolding gate decision_value
  gate-Outcome auth stored permits instruction allow e =
      rw (e, gate) (dispatch-Outcome auth stored permits instruction e)
  gate-Outcome auth stored permits instruction deny e =
      rw (e, gate) (inl (block-Refused _ _ _ _ _ _))
  gate-Outcome auth stored permits instruction requires_approval e =
      rw (e, gate) (inl (block-Refused _ _ _ _ _ _))

  permitted-Outcome :
      (auth : ExecutionAuthorization)
      → authorization_by_id request.authorization_id s.authorizations ≡ some auth
      → Permits (env.now Site.engine_clock) auth request name
      → Outcome hashing adapters env request name s (execute hashing adapters env request name s)
  unfolding execute
  permitted-Outcome auth stored permits =
      elim (Bool-cases (instruction_mismatch hashing request name)) [
        | inl mismatch ↦
            rw (stored, execute, Permits-passes auth request name _ permits, mismatch)
              (inl (block-Refused _ _ _ _ _ _))
        | inr matches ↦
            rw (stored, execute, Permits-passes auth request name _ permits, matches)
              (gate-Outcome auth stored permits
                (IsInstruction-of hashing request name permits.bound.has_digest matches) _ refl)
      ]

  -- Every execution is refused with a failed result, and then nothing but the trace store may
  -- differ, or it is exactly one call of the registered adapter, for an instruction with the digest
  -- that the request carries, under a stored, approved and unexpired authorization that agrees with
  -- the request on its action, target, operation, expected outcome, adapter and provenance.
  pub execute-Outcome :
      Outcome hashing adapters env request name s (execute hashing adapters env request name s)
  unfolding execute
  execute-Outcome =
      elim (Option-cases (authorization_by_id request.authorization_id s.authorizations)) [
        | inl missing ↦ rw (missing, execute) (inl (block-Refused _ _ _ _ _ _))
        | inr (auth, stored) ↦
            elim (Option-cases
              (authorization_failure (env.now Site.engine_clock) auth request name)) [
                | inl passes ↦ permitted-Outcome auth stored (Permits-of auth request name _ passes)
                | inr (reason, fails) ↦
                    rw (stored, execute, fails) (inl (block-Refused _ _ _ _ _ _))
              ]
      ]

  -- A request that a stored authorization permits, that carries the digest of its instruction, that
  -- the last policy gate allows, and whose adapter is registered and supports it, is performed by
  -- one call of that adapter.
  pub execute-permitted :
      (auth : ExecutionAuthorization) (adapter : Adapter W)
      → authorization_by_id request.authorization_id s.authorizations ≡ some auth
      → Permits (env.now Site.engine_clock) auth request name
      → IsInstruction hashing request name
      → evaluate_policy request ≡ allow
      → Adapters.get name adapters ≡ some adapter
      → adapter.supports request ≡ true
      → execute hashing adapters env request name s
        ≡ conclude env request name "allow" (risk_of request) (adapter.execute request s.world) s
  unfolding execute gate dispatch decision_value
  execute-permitted auth adapter stored permits instruction allowed registered supported = rw (
    stored,
    execute,
    Permits-passes auth request name _ permits,
    IsInstruction-not_mismatched hashing request name instruction,
    allowed,
    gate,
    registered,
    dispatch,
    supported,
  )
