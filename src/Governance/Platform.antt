-- ===== src/Governance/Platform.antt =====
-- What the governed operations are run with, and how they end.
use rmt_platform.Prelude.{String, Bool, Option, none, some, List, if◌then◌else◌}
use rmt_platform.Prelude.Result.{Result, ok, err}
use rmt_platform.Environment.{Env}
use rmt_platform.State.{State}
use rmt_platform.Actions.Binding.{Hashing}
use rmt_platform.Actions.Assessment.{AssessmentRegistry, AssessmentError}
use rmt_platform.Actions.Approval.{ApprovalStatus}
use rmt_platform.Execution.Models.{ExecutionRequest, ExecutionResult}
use rmt_platform.Execution.Adapters.{AdapterRegistry}
use rmt_platform.Execution.Engine.{execute}
use rmt_platform.Verification.Service.{Module, verify_execution}

-- The two registries, the hashing, and the file of the registered modules.
pub record Platform (W : Type 0) : Type 0 where
  pub hashing : Hashing
  pub registry : AssessmentRegistry
  pub adapters : AdapterRegistry W
  pub get_modules : W → Option (List Module)

-- The fields of the answer that an execution gives.
pub record Executed : Type 0 where
  pub execution_id : String
  pub status_detail : String
  pub success : Bool
  pub message : String
  pub verification_status : Option String
  pub verification_reason : String

-- The dict that `execute_governed_action` returns, by its `status`.
pub data GovernedOutcome : Type 0 where
  assessment_failed : AssessmentError → String → GovernedOutcome
  policy_denied : String → Bool → String → GovernedOutcome
  rejected : String → String → GovernedOutcome
  manual_approval_required : String → String → String → GovernedOutcome
  authorization_not_created : String → String → GovernedOutcome
  executed : Executed → GovernedOutcome

-- The dict that `approve_held_action` returns, by its `status`.
pub data ApprovalOutcome : Type 0 where
  approval_not_found : String → ApprovalOutcome
  approval_already_resolved : ApprovalStatus → String → ApprovalOutcome
  approval_expired : String → String → ApprovalOutcome
  approval_rejected : String → String → ApprovalOutcome
  assessment_invalid : String → String → String → ApprovalOutcome
  approval_executed : Executed → String → String → ApprovalOutcome

module _ {W : Type 0} where
  -- What follows the engine in both operations: a success is verified.
  unfoldable pub conclude_execution :
      Platform W
      → Env
      → ExecutionRequest
      → Result String ExecutionResult × State W
      → Result String Executed × State W
  conclude_execution p env request (err e, s) = (err e, s)
  conclude_execution p env request (ok result, s) =
      if result.success
      then (let (verification, s') =
            verify_execution p.get_modules env result.execution_id request.expected_outcome request
              s in
          (
            ok (record {
              execution_id = result.execution_id;
              status_detail = result.status;
              success = result.success;
              message = result.message;
              verification_status = some verification.status;
              verification_reason = verification.reason;
            }),
            s',
          ))
      else (
        ok (record {
          execution_id = result.execution_id;
          status_detail = result.status;
          success = result.success;
          message = result.message;
          verification_status = none;
          verification_reason = "";
        }),
        s,
      )

  -- The engine, and what follows it.
  unfoldable pub execute_and_verify :
      Platform W → Env → ExecutionRequest → String → State W → Result String Executed × State W
  execute_and_verify p env request adapter s =
      conclude_execution p env request (execute p.hashing p.adapters env request adapter s)
