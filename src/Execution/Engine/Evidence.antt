-- ===== src/Execution/Engine/Evidence.antt =====
-- What `ExecutionEngine.execute` of execution/engine.py writes of an adapter's call.
use rmt_platform.Prelude.{String, some, [], ◌∷◌, ◌++◌, ◌≡◌, ◌⊎◌, inl, inr, refl, sym, subst}
use rmt_platform.Prelude.Result.{Result, ok, err}
use rmt_platform.Environment.{Env}
use rmt_platform.State.{State, audit_schema, trace_schema}
use rmt_platform.Durable.Lookup.{records-save}
use rmt_platform.Actions.Binding.{Hashing}
use rmt_platform.Execution.Models.{
  ExecutionRequest, ExecutionResult, ExecutionAuditRecord, ExecutionTrace,
}
use rmt_platform.Execution.Adapters
use rmt_platform.Execution.Adapters.{Adapter, AdapterRegistry}
use rmt_platform.Execution.Engine.{audit_of, trace_of, conclude, execute, risk_of}
use rmt_platform.Execution.Engine.Mediation.{Refused, Performed, execute-Outcome}

-- An audit record and a trace of the result of a request through an adapter.
pub record IsAuditOf (request : ExecutionRequest) (name : String) (result : ExecutionResult)
    (a : ExecutionAuditRecord) : Type 0 where
  pub execution : a.execution_id ≡ result.execution_id
  pub action : a.action_id ≡ request.action_id
  pub authorization : a.authorization_id ≡ request.authorization_id
  pub through : a.adapter ≡ name
  pub status : a.status ≡ result.status
  pub message : a.message ≡ result.message
  pub domain : a.governance_domain ≡ request.governance_domain
  pub provenance : a.provenance ≡ request.provenance

pub record IsTraceOf (request : ExecutionRequest) (result : ExecutionResult) (t : ExecutionTrace)
    : Type 0 where
  pub execution : t.execution_id ≡ result.execution_id
  pub action : t.action_id ≡ request.action_id
  pub authorization : t.authorization_id ≡ request.authorization_id
  pub policy : t.policy_decision ≡ "allow"
  pub outcome : t.outcome ≡ result.status
  pub reason : t.reason ≡ result.message
  pub domain : t.governance_domain ≡ request.governance_domain
  pub provenance : t.provenance ≡ request.provenance

module _ {W : Type 0} (adapters : AdapterRegistry W) (request : ExecutionRequest) (name : String)
    (s : State W) where
  -- The adapter returned: its result and its world are those of the execution, and one audit record
  -- and one trace were added.
  pub record Audited (r : Result String ExecutionResult) (s' : State W) : Type 0 where
    pub adapter : Adapter W
    pub registered : Adapters.get name adapters ≡ some adapter
    pub result : ExecutionResult
    pub returned : r ≡ ok result
    pub called : adapter.execute request s.world ≡ (ok result, s'.world)
    pub entry : ExecutionAuditRecord
    pub entry_added : s'.audit.records ≡ s.audit.records ++ entry ∷ []
    pub entry_is : IsAuditOf request name result entry
    pub trace : ExecutionTrace
    pub trace_added : s'.traces.records ≡ s.traces.records ++ trace ∷ []
    pub trace_is : IsTraceOf request result trace

  -- The adapter raised: what it did to the world is all that changed.
  pub record Raised (r : Result String ExecutionResult) (s' : State W) : Type 0 where
    pub adapter : Adapter W
    pub registered : Adapters.get name adapters ≡ some adapter
    pub message : String
    pub raised : r ≡ err message
    pub called : adapter.execute request s.world ≡ (err message, s'.world)
    pub unchanged : s' ≡ record s { world = s'.world }

  abbrev pub Accounted : Result String ExecutionResult × State W → Type 0
  Accounted (r, s') = Refused request s r s' ⊎ Audited r s' ⊎ Raised r s'

  concluded :
      (env : Env) (adapter : Adapter W) (risk : String)
      → Adapters.get name adapters ≡ some adapter
      → (o : Result String ExecutionResult × W) → adapter.execute request s.world ≡ o
      → Accounted (conclude env request name "allow" risk o s)
  unfolding conclude audit_of trace_of
  concluded env adapter risk registered (err m, world) called = inr (
      inr (record {
        adapter = adapter;
        registered = registered;
        message = m;
        raised = refl;
        called = called;
        unchanged = refl;
      }))
  concluded env adapter risk registered (ok result, world) called = inr (
      inl (record {
        adapter = adapter;
        registered = registered;
        result = result;
        returned = refl;
        called = called;
        entry = audit_of env request result name risk;
        entry_added = records-save audit_schema _ s.audit;
        entry_is = record {
          execution = refl;
          action = refl;
          authorization = refl;
          through = refl;
          status = refl;
          message = refl;
          domain = refl;
          provenance = refl;
        };
        trace = trace_of env request result "allow" risk;
        trace_added = records-save trace_schema _ s.traces;
        trace_is = record {
          execution = refl;
          action = refl;
          authorization = refl;
          policy = refl;
          outcome = refl;
          reason = refl;
          domain = refl;
          provenance = refl;
        };
      }))

  Performed-Accounted :
      (hashing : Hashing) (env : Env) {r : Result String ExecutionResult} {s' : State W}
      → Performed hashing adapters env request name s r s'
      → Accounted (r, s')
  Performed-Accounted hashing env p =
      subst Accounted (sym p.called) (concluded env p.adapter (risk_of request) p.registered _ refl)

  -- Every execution is accounted for: it is refused with a failed result, and nothing but the trace
  -- store may differ; or the registered adapter returned a result for the request, which is that of
  -- the execution, and one audit record and one trace were added that give the result's status and
  -- message under the request's action, authorization, domain and provenance; or the adapter
  -- raised, the exception is that of the execution, and nothing but the world may differ.
  pub execute-Accounted :
      (hashing : Hashing) (env : Env) → Accounted (execute hashing adapters env request name s)
  execute-Accounted hashing env = elim (execute-Outcome hashing adapters env request name s) [
    | inl refused ↦ inl refused
    | inr performed ↦ Performed-Accounted hashing env performed
  ]
