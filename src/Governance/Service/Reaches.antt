-- ===== src/Governance/Service/Reaches.antt =====
-- `execute_governed_action` of actions/service.py on a cleared action, as one equation.
use rmt_platform.Prelude.{
  ◌≤◌, String, true, not, none, some, ◌≡◌, refl, ap, ◌∙◌, ==-refl, string_eq, if_false,
}
use rmt_platform.Prelude.Result.{Result, ok}
use rmt_platform.Durable.{save}
use rmt_platform.Durable.Lookup.{find-save}
use rmt_platform.Environment.{Site, Env}
use rmt_platform.State.{State, authorization_schema}
use rmt_platform.Actions.Models.{ActionRequest}
use rmt_platform.Actions.ApprovalPolicy.{auto, ApprovalDecision}
use rmt_platform.Actions.ApprovalPolicy.Modes.{IsAutomatic, evaluate_approval_modes}
use rmt_platform.Actions.Assessment.{GovernanceAssessment, resolve_assessment}
use rmt_platform.Actions.Assessment.Registry.{IsWellFormed}
use rmt_platform.Actions.Assessment.Resolve.{IsResolved, resolve_assessment-IsResolved}
use rmt_platform.Actions.Authorization.{
  ExecutionAuthorization, expiry, automatic_authorization, create_execution_authorization, is_auto,
  authorization_by_id,
}
use rmt_platform.Execution.Models.{ExecutionRequest}
use rmt_platform.Execution.Translator.{translate_action_to_execution}
use rmt_platform.Execution.Adapters
use rmt_platform.Execution.Adapters.{Adapter}
use rmt_platform.Execution.Engine.{conclude, risk_of}
use rmt_platform.Execution.Engine.Mediation.{execute-permitted}
use rmt_platform.Governance.Platform.{
  Platform, GovernedOutcome, conclude_execution, execute_and_verify,
}
use rmt_platform.Governance.Records.{record_approval_decision}
use rmt_platform.Governance.Service.{
  answer, automatic_request, approval_of, authorize_and_execute, follow, execute_governed_action,
}
use rmt_platform.Governance.Service.Boundary.{govern_assessed-allowed, execute-resolved}
use rmt_platform.Governance.Service.Automatic.{
  HasNames, evaluate_policy-allow, automatic-Permits, automatic-IsInstruction,
}

create-automatic :
    (env : Env) (action : ActionRequest) (d : ApprovalDecision) (a : GovernanceAssessment)
    → d.mode ≡ auto
    → d.approved ≡ true
    → create_execution_authorization env action d (some a)
      ≡ some (automatic_authorization env action d (some a))
unfolding create_execution_authorization
create-automatic env action d a mode approved =
    if_false (not (is_auto d.mode)) _ _ (ap (λ m. not (is_auto m)) mode)
    ∙ if_false (not d.approved) _ _ (ap not approved)

module _ {W : Type 0} (p : Platform W) (env : Env) (action : ActionRequest) (name : String)
    (s : State W) (a : GovernanceAssessment) where
  abbrev decided : ApprovalDecision
  decided = approval_of env action a

  abbrev pub authorization : ExecutionAuthorization
  authorization = automatic_authorization env action decided (some a)

  abbrev pub authorized_request : ExecutionRequest
  authorized_request = automatic_request env action name a authorization

  -- The state in which the engine is called: the decision and the authorization are saved.
  abbrev pub authorized_state : State W
  authorized_state =
      let s' =
        record_approval_decision env action decided "approved" "approval_policy" none (some a) s in
      record s' { authorizations = save authorization_schema authorization s'.authorizations }

  -- What a cleared action comes to: one call of the adapter, its audit record and trace, and its
  -- verification.
  abbrev pub performed : Adapter W → Result String GovernedOutcome × State W
  performed adapter = answer (
      conclude_execution p env authorized_request (
        conclude env authorized_request name "allow" a.risk_result.risk_level
          (adapter.execute authorized_request s.world) authorized_state))

  module _ (well_formed : IsWellFormed p.registry) (names : HasNames p.hashing env)
      (fresh : authorization_by_id (env.uuid Site.authorization) s.authorizations ≡ none)
      (in_time : env.now Site.engine_clock ≤ expiry env)
      (resolved : resolve_assessment p.hashing p.registry env action name ≡ ok a)
      (cleared : IsAutomatic action a.policy_result a.risk_result) (adapter : Adapter W)
      (registered : Adapters.get name p.adapters ≡ some adapter)
      (supported : adapter.supports authorized_request ≡ true) where
    facts : IsResolved p.hashing p.registry env action name a
    facts = resolve_assessment-IsResolved p.hashing p.registry env action name a resolved

    stored :
        authorization_by_id authorization.authorization_id authorized_state.authorizations
        ≡ some authorization
    unfolding record_approval_decision automatic_authorization
    stored =
        find-save authorization_schema _ authorization s.authorizations fresh
          (==-refl {A = String} _)

    mode : decided.mode ≡ auto
    mode =
        (evaluate_approval_modes (env.uuid Site.decision) action a.policy_result a.risk_result).0.1
          cleared

    approved : decided.approved ≡ true
    approved =
        (evaluate_approval_modes (env.uuid Site.decision) action a.policy_result a.risk_result).2.1
          mode

    engine :
        execute_and_verify p env authorized_request name authorized_state
        ≡ conclude_execution p env authorized_request (
            conclude env authorized_request name "allow" a.risk_result.risk_level
              (adapter.execute authorized_request s.world)
              authorized_state)
    unfolding execute_and_verify translate_action_to_execution risk_of record_approval_decision
    engine = ap (conclude_execution p env authorized_request) (
        execute-permitted p.hashing p.adapters env authorized_request name authorized_state
          authorization adapter stored
          (automatic-Permits p.hashing env action name a names p.registry well_formed facts decided
            (env.now Site.engine_clock) in_time)
          (automatic-IsInstruction p.hashing env action name a names p.registry well_formed facts
            decided)
          (evaluate_policy-allow authorized_request action.action_type refl) registered supported)

    authorized :
        authorize_and_execute p env action name a decided
          (record_approval_decision env action decided "approved" "approval_policy" none (some a) s)
        ≡ performed adapter
    unfolding authorize_and_execute
    authorized =
        rw (create-automatic env action decided a mode approved, authorize_and_execute)
          (ap answer engine)

    -- With a well-formed registry, digests and UUIDs that are not empty, a fresh authorization
    -- identifier, an engine clock no later than the expiry that is set, and a registered adapter
    -- that supports the request, an action whose assessment clears it to run by itself is performed:
    -- its result and the whole state after it are those of one call of that adapter on the
    -- authorized request, audited, traced and verified.
    pub cleared-performed : execute_governed_action p env action name s ≡ performed adapter
    unfolding follow
    cleared-performed =
        execute-resolved p env action name s a resolved
        ∙ govern_assessed-allowed p env action name s a cleared.allowed
        ∙ ap (λ m. follow p env action name a decided m s) mode
        ∙ authorized
