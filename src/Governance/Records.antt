-- ===== src/Governance/Records.antt =====
-- `record_approval_decision` and `hold_for_manual_approval` of actions/approval_service.py.
use rmt_platform.Prelude.{ℕ, ◌+◌, ◌*◌, String, Option, none, some}
use rmt_platform.Durable.{save}
use rmt_platform.Environment.{Site, Env}
use rmt_platform.State.{State, hold_schema, record_schema}
use rmt_platform.Actions.Models.{ActionRequest, second}
use rmt_platform.Actions.ApprovalPolicy.{ApprovalDecision}
use rmt_platform.Actions.Assessment.{GovernanceAssessment}
use rmt_platform.Actions.Approval.{ApprovalStatus, ApprovalHold, ApprovalRecord}
use rmt_platform.Actions.Authorization.{assessment_provenance, assessment_adapter}

abbrev pub approval_hold_ttl_seconds : ℕ
approval_hold_ttl_seconds = 300

-- `approval_id or approval_decision.approval_id`: the identifier of a hold is never empty.
abbrev id_or : Option String → String → String
id_or none id = id
id_or (some hold_id) id = hold_id

unfoldable pub approval_record :
    Env
    → ActionRequest
    → ApprovalDecision
    → String
    → String
    → Option String
    → Option GovernanceAssessment
    → ApprovalRecord
unfolding assessment_provenance
approval_record env action approval_decision decision approved_by approval_id assessment =
    let p = assessment_provenance assessment in
    record {
      approval_id = id_or approval_id approval_decision.approval_id;
      action_id = action.action_id;
      decision = decision;
      approved_by = approved_by;
      reason = approval_decision.reason;
      governance_domain = action.governance_domain;
      assessment_id = p.assessment_id;
      instruction_digest = p.instruction_digest;
      adapter_name = assessment_adapter assessment;
      policy_evidence_references = p.policy_evidence_references;
      risk_evidence_references = p.risk_evidence_references;
      created_at = env.now Site.approval_record;
    }

unfoldable pub approval_hold :
    Env
    → ActionRequest
    → ApprovalDecision
    → String
    → Option String
    → Option GovernanceAssessment
    → ApprovalHold
approval_hold env action approval_decision adapter risk_level assessment = record {
  approval_id = env.uuid Site.hold;
  action_id = action.action_id;
  action = action;
  adapter_name = adapter;
  reason = approval_decision.reason;
  status = ApprovalStatus.pending;
  approved_by = none;
  expires_at = some (env.now Site.hold_expiry + approval_hold_ttl_seconds * second);
  risk_level = risk_level;
  governance_domain = action.governance_domain;
  provenance = assessment_provenance assessment;
  created_at = env.now Site.hold;
}

module _ {W : Type 0} where
  unfoldable pub record_approval_decision :
      Env
      → ActionRequest
      → ApprovalDecision
      → String
      → String
      → Option String
      → Option GovernanceAssessment
      → State W
      → State W
  record_approval_decision env action approval_decision decision approved_by id assessment s =
      record s {
        records =
            save record_schema
              (approval_record env action approval_decision decision approved_by id assessment)
              s.records;
      }

  unfoldable pub hold_for_manual_approval :
      Env
      → ActionRequest
      → ApprovalDecision
      → String
      → Option String
      → Option GovernanceAssessment
      → State W
      → ApprovalHold × State W
  hold_for_manual_approval env action approval_decision adapter risk_level assessment s =
      let hold = approval_hold env action approval_decision adapter risk_level assessment in
      (hold, record s { holds = save hold_schema hold s.holds })
