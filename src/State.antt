-- ===== src/State.antt =====
-- The state that the governed operations share: the six evidence stores, and the world outside.
use rmt_platform.Prelude.{none}
use rmt_platform.Durable.{DurableStore, Schema}
use rmt_platform.Durable.Sync.{keyed}
use rmt_platform.Actions.Approval.{ApprovalHold, ApprovalRecord, hold_id, record_id}
use rmt_platform.Actions.Authorization.{ExecutionAuthorization, authorization_key}
use rmt_platform.Execution.Models.{ExecutionTrace, ExecutionAuditRecord}
use rmt_platform.Verification.Models.{VerificationResult}

pub record State (W : Type 0) : Type 0 where
  pub holds : DurableStore ApprovalHold
  pub records : DurableStore ApprovalRecord
  pub authorizations : DurableStore ExecutionAuthorization
  pub audit : DurableStore ExecutionAuditRecord
  pub traces : DurableStore ExecutionTrace
  pub verifications : DurableStore VerificationResult
  pub world : W

-- What each store's class fixes; the audit and the trace store have no key field.
abbrev pub hold_schema : Schema ApprovalHold
hold_schema = keyed hold_id (λ h. h.created_at)

abbrev pub record_schema : Schema ApprovalRecord
record_schema = keyed record_id (λ r. r.created_at)

abbrev pub authorization_schema : Schema ExecutionAuthorization
authorization_schema = keyed authorization_key (λ a. a.created_at)

abbrev pub audit_schema : Schema ExecutionAuditRecord
audit_schema = record { key_of = λ a. none; created_at_of = λ a. a.created_at }

abbrev pub trace_schema : Schema ExecutionTrace
trace_schema = record { key_of = λ t. none; created_at_of = λ t. t.created_at }

abbrev pub verification_schema : Schema VerificationResult
verification_schema = keyed (λ v. v.execution_id) (λ v. v.created_at)
