-- ===== src/Governance/Approve.antt =====
-- `approve_held_action` of actions/approval_service.py: the continuation of a held action.
pub mod Stores
pub mod Branches
pub mod Boundary
pub mod Once
pub mod Unsaved
pub mod Reaches
use rmt_platform.Prelude.{
  ℕ, String, Bool, true, false, not, ◌&&◌, ◌||◌, Option, none, some, List, ltb, ◌==◌, ◌!=◌,
  string_eq, option_eq, option_beq, if◌then◌else◌,
}
use rmt_platform.Prelude.Dict.{lookup}
use rmt_platform.Prelude.Result.{Result, ok, err}
use rmt_platform.Durable.{mutate, update, save}
use rmt_platform.Durable.Sync.{has_id}
use rmt_platform.Environment.{Site, Env}
use rmt_platform.State.{State, record_schema, authorization_schema}
use rmt_platform.Actions.Binding.{Payload, InvalidInstruction, bind_action}
use rmt_platform.Actions.Assessment.{AssessmentRegistration}
use rmt_platform.Actions.Approval.{
  ApprovalStatus, pending, approved, rejected, ApprovalHold, ApprovalRecord, hold_id, record_id,
  hold_by_id,
}
use rmt_platform.Actions.Authorization.{ExecutionAuthorization, create_manual_authorization}
use rmt_platform.Execution.Models.{ExecutionRequest}
use rmt_platform.Execution.Translator.{translate_action_to_execution}
use rmt_platform.Governance.Platform.{
  Platform, Executed, ApprovalOutcome, approval_not_found, approval_already_resolved,
  approval_expired, approval_rejected, assessment_invalid, approval_executed, execute_and_verify,
}

abbrev pub is_pending : ApprovalStatus → Bool
is_pending pending = true
is_pending _ = false

abbrev pub hold_expired : Option ℕ → ℕ → Bool
hold_expired none now = false
hold_expired (some t) now = ltb t now

-- Whether the evaluators registered now are those that assessed the held action.
unfoldable pub evaluator_binding : AssessmentRegistration → ApprovalHold → Bool
evaluator_binding registration hold =
    (some registration.policy.evaluator_id == hold.policy_evaluator_id)
    && ((some registration.policy.version == hold.policy_evaluator_version)
        && ((some registration.risk.evaluator_id == hold.risk_evaluator_id)
            && (some registration.risk.version == hold.risk_evaluator_version)))

-- The digest, and the empty text where the instruction cannot be bound.
abbrev pub digest_or_empty : Result InvalidInstruction (String × Payload) → String
digest_or_empty (ok (digest, payload)) = digest
digest_or_empty (err e) = ""

-- The request that the authorization of a held action leads to.
abbrev pub manual_request : Env → ApprovalHold → ExecutionAuthorization → ExecutionRequest
manual_request env hold authorization =
    translate_action_to_execution env hold.action authorization.authorization_id hold.risk_level
      (some hold.adapter_name) none (some hold)

module _ {W : Type 0} where
  -- `hold.status = …` on the object in memory; nothing is written to disk.
  unfoldable pub assign_hold : String → (ApprovalHold → ApprovalHold) → State W → State W
  assign_hold id f s = record s { holds = mutate (has_id hold_id (λ h. h.created_at) id) f s.holds }

  unfoldable pub update_record : String → String → String → State W → State W
  update_record id decision approved_by s = record s {
    records =
        update record_schema (has_id record_id (λ r. r.created_at) id)
          (λ r. record r { decision = decision; approved_by = approved_by }) s.records;
  }

  abbrev pub answer_approval :
      String → String → Result String Executed × State W → Result String ApprovalOutcome × State W
  answer_approval approval_id action_id (err e, s) = (err e, s)
  answer_approval approval_id action_id (ok result, s) =
      (ok (approval_executed result approval_id action_id), s)

  -- The last part: the hold is approved, authorized and executed.
  unfoldable pub continue_held :
      Platform W
      → Env
      → String
      → String
      → ApprovalHold
      → State W
      → Result String ApprovalOutcome × State W
  continue_held p env approval_id approved_by hold s =
      let held : ApprovalHold = record hold { status = approved; approved_by = some approved_by } in
      let authorization =
        create_manual_authorization env held.action approved_by held.reason (some approval_id)
          (some held) in
      let s' = update_record approval_id "approved" approved_by (
        assign_hold approval_id
          (λ h. record h { status = approved; approved_by = some approved_by }) s) in
      answer_approval approval_id held.action_id (
        execute_and_verify p env (manual_request env held authorization) held.adapter_name
          (record s' {
            authorizations = save authorization_schema authorization s'.authorizations;
          }))

  -- From the look-up of the held domain on.
  unfoldable pub revalidate :
      Platform W
      → Env
      → String
      → String
      → ApprovalHold
      → State W
      → Result String ApprovalOutcome × State W
  revalidate p env approval_id approved_by hold s =
      elim (lookup hold.governance_domain p.registry) [
        | none ↦ (
          ok (
              assessment_invalid "Held governance domain is no longer registered" approval_id
                hold.action_id),
          s,
        )
        | some registration ↦
            if not (evaluator_binding registration hold)
              || (some (digest_or_empty (bind_action p.hashing hold.action hold.adapter_name))
                  != hold.instruction_digest)
            then (
              ok (
                  assessment_invalid "Held assessment or instruction binding mismatch" approval_id
                    hold.action_id),
              s,
            )
            else continue_held p env approval_id approved_by hold s
      ]

  -- The answers for a hold that is no longer open, that has expired or that is rejected, in the
  -- order of the code.
  unfoldable pub settle :
      Platform W
      → Env
      → String
      → String
      → Bool
      → ApprovalHold
      → State W
      → Result String ApprovalOutcome × State W
  settle p env approval_id approved_by approve hold s =
      if not (is_pending hold.status)
      then (ok (approval_already_resolved hold.status approval_id), s)
      else if hold_expired hold.expires_at (env.now Site.approval_clock)
      then (
        ok (approval_expired approval_id hold.action_id),
        assign_hold approval_id (λ h. record h { status = rejected }) s,
      )
      else if not approve
      then (
        ok (approval_rejected approval_id hold.action_id),
        update_record approval_id "rejected" approved_by
            (assign_hold approval_id (λ h. record h { status = rejected }) s),
      )
      else revalidate p env approval_id approved_by hold s

  unfoldable pub approve_held_action :
      Platform W → Env → String → String → Bool → State W → Result String ApprovalOutcome × State W
  approve_held_action p env approval_id approved_by approve s =
      elim (hold_by_id approval_id s.holds) [
        | none ↦ (ok (approval_not_found approval_id), s)
        | some hold ↦ settle p env approval_id approved_by approve hold s
      ]
