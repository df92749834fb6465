-- ===== src/Actions/Authorization.antt =====
-- actions/authorization.py, authorization_storage.py and authorization_service.py.
use rmt_platform.Prelude.{
  ℕ, ◌+◌, ◌*◌, String, Bool, true, false, not, Option, none, some, [], if◌then◌else◌,
}
use rmt_platform.Durable.{DurableStore, find}
use rmt_platform.Durable.Sync.{has_id}
use rmt_platform.Environment.{Site, Env}
use rmt_platform.Actions.Models.{ActionRequest, ExpectedOutcome, value, second}
use rmt_platform.Actions.ApprovalPolicy.{ApprovalMode, ApprovalDecision}
use rmt_platform.Actions.Assessment.{GovernanceAssessment}
use rmt_platform.Actions.Approval.{ApprovalHold}
use rmt_platform.Execution.Models.{Provenance}

pub record ExecutionAuthorization : Type 0 where
  pub authorization_id : String
  pub action_id : String
  pub status : String
  pub authorized_by : Option String
  pub authorization_type : String
  pub decision_id : Option String
  pub approval_id : Option String
  pub created_at : ℕ
  pub expires_at : Option ℕ
  pub reason : String
  pub target : String
  pub operation : String
  pub governance_domain : String
  pub adapter_name : Option String
  pub provenance : Provenance
  pub open provenance use *
  pub expected_outcome : Option ExpectedOutcome

abbrev pub authorization_key : ExecutionAuthorization → String
authorization_key a = a.authorization_id

-- `AuthorizationStorage.get_by_id`
abbrev pub authorization_by_id :
    String → DurableStore ExecutionAuthorization → Option ExecutionAuthorization
authorization_by_id k s = find (has_id authorization_key (λ a. a.created_at) k) s.records

abbrev pub authorization_ttl_seconds : ℕ
authorization_ttl_seconds = 300

-- `_expiry`
abbrev pub expiry : Env → ℕ
expiry env = env.now Site.authorization_expiry + authorization_ttl_seconds * second

abbrev pub no_provenance : Provenance
no_provenance = record {
  assessment_id = none;
  policy_evaluator_id = none;
  policy_evaluator_version = none;
  risk_evaluator_id = none;
  risk_evaluator_version = none;
  canonicalization_version = none;
  instruction_digest = none;
  policy_evidence_references = [];
  risk_evidence_references = [];
  uncertainty = "";
  recovery_semantics = "";
}

-- The `getattr(assessment, …)` of each field, with its default.
unfoldable pub assessment_provenance : Option GovernanceAssessment → Provenance
assessment_provenance none = no_provenance
assessment_provenance (some a) = record {
  assessment_id = some a.assessment_id;
  policy_evaluator_id = some a.policy_evaluator_id;
  policy_evaluator_version = some a.policy_evaluator_version;
  risk_evaluator_id = some a.risk_evaluator_id;
  risk_evaluator_version = some a.risk_evaluator_version;
  canonicalization_version = some a.canonicalization_version;
  instruction_digest = some a.instruction_digest;
  policy_evidence_references = a.policy_evidence_references;
  risk_evidence_references = a.risk_evidence_references;
  uncertainty = a.uncertainty;
  recovery_semantics = a.recovery_semantics;
}

-- The `getattr(hold, …)` of each field, with its default.
unfoldable pub hold_provenance : Option ApprovalHold → Provenance
hold_provenance none = no_provenance
hold_provenance (some h) = h.provenance

abbrev pub assessment_adapter : Option GovernanceAssessment → Option String
assessment_adapter none = none
assessment_adapter (some a) = some a.adapter_name

abbrev pub hold_adapter : Option ApprovalHold → Option String
hold_adapter none = none
hold_adapter (some h) = some h.adapter_name

abbrev pub is_auto : ApprovalMode → Bool
is_auto ApprovalMode.auto = true
is_auto _ = false

-- The authorization that an automatic approval leads to.
unfoldable pub automatic_authorization :
    Env → ActionRequest → ApprovalDecision → Option GovernanceAssessment → ExecutionAuthorization
unfolding value
automatic_authorization env action decision assessment = record {
  authorization_id = env.uuid Site.authorization;
  action_id = action.action_id;
  status = "approved";
  authorized_by = some "approval_policy";
  authorization_type = "automatic";
  decision_id = some action.decision_id;
  approval_id = some decision.approval_id;
  created_at = env.now Site.authorization;
  expires_at = some (expiry env);
  reason = decision.reason;
  target = action.component;
  operation = value action.action_type;
  governance_domain = action.governance_domain;
  adapter_name = assessment_adapter assessment;
  provenance = assessment_provenance assessment;
  expected_outcome = action.expected_outcome;
}

unfoldable pub create_execution_authorization :
    Env
    → ActionRequest
    → ApprovalDecision
    → Option GovernanceAssessment
    → Option ExecutionAuthorization
create_execution_authorization env action decision assessment =
    if not (is_auto decision.mode)
    then none
    else if not decision.approved
    then none
    else some (automatic_authorization env action decision assessment)

unfoldable pub create_manual_authorization :
    Env
    → ActionRequest
    → String
    → String
    → Option String
    → Option ApprovalHold
    → ExecutionAuthorization
unfolding value
create_manual_authorization env action approved_by reason approval_id hold = record {
  authorization_id = env.uuid Site.authorization;
  action_id = action.action_id;
  status = "approved";
  authorized_by = some approved_by;
  authorization_type = "manual";
  decision_id = some action.decision_id;
  approval_id = approval_id;
  created_at = env.now Site.authorization;
  expires_at = some (expiry env);
  reason = reason;
  target = action.component;
  operation = value action.action_type;
  governance_domain = action.governance_domain;
  adapter_name = hold_adapter hold;
  provenance = hold_provenance hold;
  expected_outcome = action.expected_outcome;
}
