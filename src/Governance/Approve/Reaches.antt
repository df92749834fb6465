-- ===== src/Governance/Approve/Reaches.antt =====
-- The manual path of actions/approval_service.py from end to end: a confirmed hold that is approved
-- passes every test of the execution engine, so it reaches the adapter that it was held for.
use rmt_platform.Prelude.{
  ℕ, ◌≤◌, String, true, false, none, some, ◌≡◌, ◌≢◌, refl, arith, ap, sym, ◌∙◌, ==-refl, string_eq,
  ≢→==, inl, inr,
}
use rmt_platform.Prelude.Result.{Result, ok, Result-cases}
use rmt_platform.Prelude.Text.{falsy}
use rmt_platform.Durable.{save}
use rmt_platform.Durable.Lookup.{find-save}
use rmt_platform.Environment.{Site, Env}
use rmt_platform.State.{State, authorization_schema}
use rmt_platform.Actions.Binding.{
  Hashing, Payload, InvalidInstruction, canonicalization, bind_action, bind_execution_request,
}
use rmt_platform.Actions.Binding.Digest.{bind_action-digest}
use rmt_platform.Actions.Approval.{approved, ApprovalHold, hold_by_id}
use rmt_platform.Actions.Authorization.{
  ExecutionAuthorization, expiry, hold_provenance, create_manual_authorization, authorization_by_id,
}
use rmt_platform.Execution.Models.{Provenance, ExecutionRequest}
use rmt_platform.Execution.Translator.{translate_action_to_execution}
use rmt_platform.Execution.Translator.Carries.{or_provenance-hold}
use rmt_platform.Execution.Adapters
use rmt_platform.Execution.Adapters.{Adapter}
use rmt_platform.Execution.Engine.{conclude, risk_of}
use rmt_platform.Execution.Engine.Permit.{Permits, IsInstruction}
use rmt_platform.Execution.Engine.Mediation.{execute-permitted}
use rmt_platform.Governance.Platform.{
  Platform, ApprovalOutcome, conclude_execution, execute_and_verify,
}
use rmt_platform.Governance.Service.Automatic.{evaluate_policy-allow}
use rmt_platform.Governance.Approve.{
  digest_or_empty, manual_request, assign_hold, update_record, answer_approval, continue_held,
  approve_held_action,
}
use rmt_platform.Governance.Approve.Branches.{IsConfirmed}
use rmt_platform.Governance.Approve.Boundary.{confirmed-continues}

-- A hold with the digest and the version of its instruction, as the pipeline makes it.
pub record IsIntact (hold : ApprovalHold) : Type 0 where
  pub digest_given : hold.instruction_digest ≢ some ""
  pub version : hold.canonicalization_version ≡ some canonicalization

module _ (env : Env) (id by : String) (hold : ApprovalHold) where
  -- The hold as the call leaves it.
  abbrev held : ApprovalHold
  held = record hold { status = approved; approved_by = some by }

  abbrev pub manual_authorization : ExecutionAuthorization
  manual_authorization =
      create_manual_authorization env held.action by held.reason (some id) (some held)

  abbrev pub held_request : ExecutionRequest
  held_request = manual_request env held manual_authorization

  held-provenance : held_request.provenance ≡ hold.provenance
  unfolding translate_action_to_execution
  held-provenance = or_provenance-hold held

  module _ (p : Hashing) (intact : IsIntact hold) where
    abbrev bound : Result InvalidInstruction (String × Payload)
    bound = bind_action p hold.action hold.adapter_name

    -- The instruction was bound, to the digest that the hold carries.
    held-bound :
        some (digest_or_empty bound) ≡ hold.instruction_digest
        → (digest : String) × (payload : Payload) × (bound ≡ ok (digest, payload))
          × (hold.instruction_digest ≡ some digest)
    held-bound same = elim (Result-cases bound) [
      | inl (e, failed) ↦
          absurd (intact.digest_given (sym same ∙ ap (λ b. some (digest_or_empty b)) failed))
      | inr ((digest, payload), e) ↦
          (digest, payload, e, sym same ∙ ap (λ b. some (digest_or_empty b)) e)
    ]

    held-HasDigest :
        some (digest_or_empty bound) ≡ hold.instruction_digest
        → falsy hold.instruction_digest ≡ false
    held-HasDigest same =
        let (digest, payload, e, d) = held-bound same in
        ap falsy d ∙ ≢→== digest "" (λ empty. intact.digest_given (d ∙ ap some empty))

    bind_execution_request-held : bind_execution_request p held_request hold.adapter_name ≡ bound
    unfolding bind_execution_request bind_action translate_action_to_execution
    bind_execution_request-held = refl

    held-IsInstruction :
        some (digest_or_empty bound) ≡ hold.instruction_digest
        → ((t : String) → p.sha256 t ≢ "")
        → IsInstruction p held_request hold.adapter_name
    held-IsInstruction same given =
        let (digest, payload, e, d) = held-bound same in
        let (_, version) =
          bind_action-digest p hold.action hold.adapter_name digest payload given e in
        record {
          payload = payload;
          digest = digest;
          bound = bind_execution_request-held ∙ e;
          requested_digest = ap (λ (q : Provenance). q.instruction_digest) held-provenance ∙ d;
          requested_version =
              ap (λ (q : Provenance). q.canonicalization_version) held-provenance
              ∙ intact.version
              ∙ ap some (sym version);
        }

    held-Permits :
        some (digest_or_empty bound) ≡ hold.instruction_digest
        → (now : ℕ) → now ≤ expiry env
        → Permits now manual_authorization held_request hold.adapter_name
    unfolding translate_action_to_execution create_manual_authorization hold_provenance
    held-Permits same now h = record {
      approved = refl;
      unexpired = λ t e. ground arith;
      action_id = refl;
      target = refl;
      operation = refl;
      expected_outcome = refl;
      bound = record {
        has_digest =
            ap (λ (q : Provenance). falsy q.instruction_digest) held-provenance
            ∙ held-HasDigest same;
        authorized_adapter = refl;
        requested_adapter = refl;
        domain = refl;
        provenance = sym held-provenance;
      };
    }

module _ {W : Type 0} (p : Platform W) (env : Env) (id by : String) (s : State W)
    (hold : ApprovalHold) where
  -- The state in which the engine is called: the hold, its record and the authorization are set.
  abbrev pub held_state : State W
  held_state =
      let s' =
        update_record id "approved" by
          (assign_hold id (λ h. record h { status = approved; approved_by = some by }) s) in
      record s' {
        authorizations =
            save authorization_schema (manual_authorization env id by hold) s'.authorizations;
      }

  -- What an approved hold comes to: one call of the adapter, its audit record and trace, and its
  -- verification.
  abbrev pub held_performed : Adapter W → Result String ApprovalOutcome × State W
  held_performed adapter = answer_approval id hold.action_id (
      conclude_execution p env (held_request env id by hold) (
        conclude env (held_request env id by hold) hold.adapter_name "allow"
          (risk_of (held_request env id by hold))
          (adapter.execute (held_request env id by hold) s.world) held_state))

  module _ (given : (t : String) → p.hashing.sha256 t ≢ "")
      (fresh : authorization_by_id (env.uuid Site.authorization) s.authorizations ≡ none)
      (in_time : env.now Site.engine_clock ≤ expiry env) (found : hold_by_id id s.holds ≡ some hold)
      (confirmed : IsConfirmed p (env.now Site.approval_clock) hold) (intact : IsIntact hold)
      (adapter : Adapter W) (registered : Adapters.get hold.adapter_name p.adapters ≡ some adapter)
      (supported : adapter.supports (held_request env id by hold) ≡ true) where
    stored :
        authorization_by_id
          (manual_authorization env id by hold).authorization_id
          held_state.authorizations
        ≡ some (manual_authorization env id by hold)
    unfolding update_record assign_hold create_manual_authorization
    stored =
        find-save authorization_schema _ (manual_authorization env id by hold) s.authorizations
          fresh (==-refl {A = String} _)

    held_engine :
        execute_and_verify p env (held_request env id by hold) hold.adapter_name held_state
        ≡ conclude_execution p env (held_request env id by hold) (
            conclude env
              (held_request env id by hold)
              hold.adapter_name
              "allow"
              (risk_of (held_request env id by hold))
              (adapter.execute (held_request env id by hold) s.world)
              held_state)
    unfolding execute_and_verify translate_action_to_execution update_record assign_hold
    held_engine = ap (conclude_execution p env (held_request env id by hold)) (
        execute-permitted p.hashing p.adapters env (held_request env id by hold) hold.adapter_name
          held_state (manual_authorization env id by hold) adapter stored
          (held-Permits env id by hold p.hashing intact confirmed.same_instruction
            (env.now Site.engine_clock) in_time)
          (held-IsInstruction env id by hold p.hashing intact confirmed.same_instruction given)
          (evaluate_policy-allow (held_request env id by hold) hold.action.action_type refl)
          registered supported)

    -- With digests that are not empty, a fresh authorization identifier and an engine clock no later
    -- than the expiry that is set, a call that approves a confirmed hold, with the digest and the
    -- version of its instruction, whose adapter is registered and supports the request, performs
    -- the held action: its result and the whole state after it are those of one call of that
    -- adapter on the held request, audited, traced and verified.
    pub approved-performed : approve_held_action p env id by true s ≡ held_performed adapter
    unfolding continue_held
    approved-performed =
        confirmed-continues p env id by s hold confirmed found
        ∙ ap (answer_approval id hold.action_id) held_engine
