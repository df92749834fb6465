-- ===== src/Execution/Models.antt =====
-- execution/models.py, trace.py and audit.py. The eleven fields of provenance that the models of
-- holds, authorizations, requests, traces and audit records all declare stand in one record.
use rmt_platform.Prelude.{ℕ, String, Bool, Option, List}
use rmt_platform.Prelude.Json.{Fields}
use rmt_platform.Actions.Models.{ExpectedOutcome}

pub record Provenance : Type 0 where
  pub assessment_id : Option String
  pub policy_evaluator_id : Option String
  pub policy_evaluator_version : Option String
  pub risk_evaluator_id : Option String
  pub risk_evaluator_version : Option String
  pub canonicalization_version : Option String
  pub instruction_digest : Option String
  pub policy_evidence_references : List String
  pub risk_evidence_references : List String
  pub uncertainty : String
  pub recovery_semantics : String

pub record ExecutionRequest : Type 0 where
  pub execution_id : String
  pub authorization_id : String
  pub action_id : String
  pub decision_id : String
  pub governance_domain : String
  pub target : String
  pub operation : String
  pub parameters : Fields
  pub risk_level : Option String
  pub expected_outcome : Option ExpectedOutcome
  pub adapter_name : Option String
  pub provenance : Provenance
  pub open provenance use *
  pub created_at : ℕ

pub record ExecutionResult : Type 0 where
  pub execution_id : String
  pub status : String
  pub success : Bool
  pub message : String
  pub output : Fields

pub record ExecutionTrace : Type 0 where
  pub trace_id : String
  pub execution_id : String
  pub action_id : String
  pub authorization_id : String
  pub policy_decision : String
  pub risk_level : String
  pub outcome : String
  pub reason : String
  pub governance_domain : String
  pub adapter_name : Option String
  pub provenance : Provenance
  pub open provenance use *
  pub created_at : ℕ

pub record ExecutionAuditRecord : Type 0 where
  pub execution_id : String
  pub action_id : String
  pub authorization_id : String
  pub adapter : String
  pub status : String
  pub message : String
  pub risk_level : String
  pub approval_type : String
  pub decision_reason : String
  pub governance_domain : String
  pub provenance : Provenance
  pub open provenance use *
  pub created_at : ℕ
