-- ===== src/Governance/Service.antt =====
-- `execute_governed_action` of actions/service.py: from an action to the execution boundary.
pub mod Boundary
pub mod Automatic
pub mod Reaches
use rmt_platform.Prelude.{String, Bool, not, Option, none, some, List, if◌then◌else◌}
use rmt_platform.Prelude.Result.{Result, ok, err}
use rmt_platform.Durable.{save}
use rmt_platform.Environment.{Site, Env}
use rmt_platform.State.{State, authorization_schema}
use rmt_platform.Actions.Models.{ActionRequest}
use rmt_platform.Actions.ApprovalPolicy.{
  ApprovalMode, auto, manual, reject, ApprovalDecision, evaluate_approval,
}
use rmt_platform.Actions.Assessment.{GovernanceAssessment, resolve_assessment}
use rmt_platform.Actions.Authorization.{ExecutionAuthorization, create_execution_authorization}
use rmt_platform.Execution.Models.{ExecutionRequest}
use rmt_platform.Execution.Translator.{translate_action_to_execution}
use rmt_platform.Governance.Platform.{
  Platform, Executed, GovernedOutcome, assessment_failed, policy_denied, rejected,
  manual_approval_required, authorization_not_created, executed, execute_and_verify,
}
use rmt_platform.Governance.Records.{record_approval_decision, hold_for_manual_approval}

-- The request that an automatic authorization leads to.
abbrev pub automatic_request :
    Env → ActionRequest → String → GovernanceAssessment → ExecutionAuthorization → ExecutionRequest
automatic_request env action adapter assessment authorization =
    translate_action_to_execution env action authorization.authorization_id
      (some assessment.risk_result.risk_level) (some adapter) (some assessment) none

-- The decision of `process_approval` on an assessment.
abbrev pub approval_of : Env → ActionRequest → GovernanceAssessment → ApprovalDecision
approval_of env action assessment =
    evaluate_approval (env.uuid Site.decision) action assessment.policy_result
      assessment.risk_result

module _ {W : Type 0} where
  abbrev answer : Result String Executed × State W → Result String GovernedOutcome × State W
  answer (err e, s) = (err e, s)
  answer (ok result, s) = (ok (executed result), s)

  -- The part after the approval decision was recorded as approved.
  unfoldable pub authorize_and_execute :
      Platform W
      → Env
      → ActionRequest
      → String
      → GovernanceAssessment
      → ApprovalDecision
      → State W
      → Result String GovernedOutcome × State W
  authorize_and_execute p env action adapter assessment decision s =
      elim (create_execution_authorization env action decision (some assessment)) [
        | none ↦
            (ok (authorization_not_created "Approval was not auto-approved" action.action_id), s)
        | some authorization ↦ answer (
            execute_and_verify p env (automatic_request env action adapter assessment authorization)
              adapter
              (record s {
                authorizations = save authorization_schema authorization s.authorizations;
              }))
      ]

  -- The part that the approval decision leads to.
  unfoldable pub follow :
      Platform W
      → Env
      → ActionRequest
      → String
      → GovernanceAssessment
      → ApprovalDecision
      → ApprovalMode
      → State W
      → Result String GovernedOutcome × State W
  follow p env action adapter assessment decision reject s = (
    ok (rejected decision.reason action.action_id),
    record_approval_decision env action decision "rejected" "approval_policy" none (some assessment)
        s,
  )
  follow p env action adapter assessment decision manual s =
      let (hold, s') =
        hold_for_manual_approval env action decision adapter
          (some assessment.risk_result.risk_level) (some assessment) s in
      (
        ok (manual_approval_required decision.reason action.action_id hold.approval_id),
        record_approval_decision env action decision "manual_required" "" (some hold.approval_id)
            (some assessment) s',
      )
  follow p env action adapter assessment decision auto s =
      authorize_and_execute p env action adapter assessment decision (
        record_approval_decision env action decision "approved" "approval_policy" none
          (some assessment) s)

  unfoldable pub govern_assessed :
      Platform W
      → Env
      → ActionRequest
      → String
      → GovernanceAssessment
      → State W
      → Result String GovernedOutcome × State W
  govern_assessed p env action adapter assessment s =
      if not assessment.policy_result.allowed
      then (
        ok (
            policy_denied assessment.policy_result.reason assessment.policy_result.requires_approval
              action.action_id),
        s,
      )
      else (let decision = approval_of env action assessment in
          follow p env action adapter assessment decision decision.mode s)

  unfoldable pub execute_governed_action :
      Platform W → Env → ActionRequest → String → State W → Result String GovernedOutcome × State W
  execute_governed_action p env action adapter s =
      elim (resolve_assessment p.hashing p.registry env action adapter) [
        | err e ↦ (ok (assessment_failed e action.action_id), s)
        | ok assessment ↦ govern_assessed p env action adapter assessment s
      ]
