-- ===== src/Governance/Approve/Stores.antt =====
-- Which stores the execution engine and the verification leave alone: the holds, the decision
-- records and the authorizations.
use rmt_platform.Prelude.{String, ◌≡◌, refl, sym, ◌∙◌, subst, inl, inr, arith}
use rmt_platform.Prelude.Result.{Result, ok, err}
use rmt_platform.Environment.{Env}
use rmt_platform.State.{State}
use rmt_platform.Execution.Models.{ExecutionRequest, ExecutionResult}
use rmt_platform.Execution.Engine.{conclude, execute, risk_of}
use rmt_platform.Execution.Engine.Mediation.{Outcome, execute-Outcome}
use rmt_platform.Governance.Platform.{Platform, conclude_execution, execute_and_verify}
use rmt_platform.Verification.Service.{verify_execution}

module _ {W : Type 0} where
  -- The three stores that decide what may be executed.
  pub record SameAuthority (s s' : State W) : Type 0 where
    pub holds : s'.holds ≡ s.holds
    pub records : s'.records ≡ s.records
    pub authorizations : s'.authorizations ≡ s.authorizations

  conclude-SameAuthority :
      (env : Env) (request : ExecutionRequest) (adapter decision risk : String)
      (r : Result String ExecutionResult × W) (s : State W)
      → SameAuthority s (conclude env request adapter decision risk r s).1
  unfolding conclude
  conclude-SameAuthority env request adapter decision risk (err e, w) s = record {
    holds = refl;
    records = refl;
    authorizations = refl;
  }
  conclude-SameAuthority env request adapter decision risk (ok r, w) s = record {
    holds = refl;
    records = refl;
    authorizations = refl;
  }

  conclude_execution-SameAuthority :
      (p : Platform W) (env : Env) (request : ExecutionRequest)
      (r : Result String ExecutionResult × State W)
      → SameAuthority r.1 (conclude_execution p env request r).1
  unfolding conclude_execution verify_execution
  conclude_execution-SameAuthority p env request (err e, s) = record {
    holds = refl;
    records = refl;
    authorizations = refl;
  }
  conclude_execution-SameAuthority p env request (ok r, s) = record {
    holds = ground arith;
    records = ground arith;
    authorizations = ground arith;
  }

  trans : {a b c : State W} → SameAuthority a b → SameAuthority b c → SameAuthority a c
  trans x y = record {
    holds = y.holds ∙ x.holds;
    records = y.records ∙ x.records;
    authorizations = y.authorizations ∙ x.authorizations;
  }

  Outcome-SameAuthority :
      (p : Platform W) (env : Env) (request : ExecutionRequest) (adapter : String) (s : State W)
      (r : Result String ExecutionResult × State W)
      → Outcome p.hashing p.adapters env request adapter s r
      → SameAuthority s r.1
  Outcome-SameAuthority p env request adapter s (r, s') (inl refused) =
      rw refused.unchanged (record { holds = refl; records = refl; authorizations = refl })
  Outcome-SameAuthority p env request adapter s (r, s') (inr performed) =
      subst (λ (x : Result String ExecutionResult × State W). SameAuthority s x.1)
        (sym performed.called)
        (conclude-SameAuthority env request adapter "allow" (risk_of request) _ s)

  -- An execution and its verification, refused or performed, leave the holds, the decision records
  -- and the authorizations as they are.
  pub execute_and_verify-SameAuthority :
      (p : Platform W) (env : Env) (request : ExecutionRequest) (adapter : String) (s : State W)
      → SameAuthority s (execute_and_verify p env request adapter s).1
  unfolding execute_and_verify
  execute_and_verify-SameAuthority p env request adapter s =
      let r = execute p.hashing p.adapters env request adapter s in
      trans
        (Outcome-SameAuthority p env request adapter s r
          (execute-Outcome p.hashing p.adapters env request adapter s))
        (conclude_execution-SameAuthority p env request r)
