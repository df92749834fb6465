-- ===== src/Actions/Approval.antt =====
-- actions/approval.py and approval_storage.py: holds, decision records, and their two stores.
use rmt_platform.Prelude.{ℕ, String, Option, List}
use rmt_platform.Durable.{DurableStore, find}
use rmt_platform.Durable.Sync.{has_id}
use rmt_platform.Actions.Models.{ActionRequest}
use rmt_platform.Execution.Models.{Provenance}

pub data ApprovalStatus : Type 0 where
  pending approved rejected : ApprovalStatus

pub record ApprovalRecord : Type 0 where
  pub approval_id : String
  pub action_id : String
  pub decision : String
  pub approved_by : String
  pub reason : String
  pub governance_domain : String
  pub assessment_id : Option String
  pub instruction_digest : Option String
  pub adapter_name : Option String
  pub policy_evidence_references : List String
  pub risk_evidence_references : List String
  pub created_at : ℕ

pub record ApprovalHold : Type 0 where
  pub approval_id : String
  pub action_id : String
  pub action : ActionRequest
  pub adapter_name : String
  pub reason : String
  pub status : ApprovalStatus
  pub approved_by : Option String
  pub expires_at : Option ℕ
  pub risk_level : Option String
  pub governance_domain : String
  pub provenance : Provenance
  pub open provenance use *
  pub created_at : ℕ

abbrev pub hold_id : ApprovalHold → String
hold_id h = h.approval_id

abbrev pub record_id : ApprovalRecord → String
record_id r = r.approval_id

-- `ApprovalHoldStorage.get_by_id`
abbrev pub hold_by_id : String → DurableStore ApprovalHold → Option ApprovalHold
hold_by_id k s = find (has_id hold_id (λ h. h.created_at) k) s.records

-- `ApprovalRecordStorage.get_by_id`
abbrev pub record_by_id : String → DurableStore ApprovalRecord → Option ApprovalRecord
record_by_id k s = find (has_id record_id (λ r. r.created_at) k) s.records
