-- ===== src/Decision.antt =====
-- core/intelligence/decision/engine.py and its models, and `decision_to_action` of
-- actions/translator.py: from the evaluation of a component's health to an action.
pub mod Advisory
use Prim.Native.String.{◌++◌}
use rmt_platform.Prelude.{
  ℕ, String, Bool, true, false, Option, none, some, List, ◌==◌, string_eq, if◌then◌else◌,
}
use rmt_platform.Prelude.Json.{Json, Fields, no_fields, truthy}
use rmt_platform.Actions.Models.{
  ActionRequest, ActionType, restart_component, create_checkpoint, scale_down, isolate_component,
  ActionStatus, ExpectedOutcome,
}
use rmt_platform.Actions.Assessment.{default_governance_domain}

pub data HealthStatus : Type 0 where
  healthy warning critical unknown : HealthStatus

-- The fields of an evaluation that the engine reads.
pub record HealthEvaluation : Type 0 where
  pub component : String
  pub status : HealthStatus
  pub message : String
  pub confidence : ℕ
  pub evidence : List String

-- `history.get("recurring")` of an analysis, and its dominant reason as `str` shows it.
pub record History : Type 0 where
  pub recurring : Option Json
  pub dominant_reason : String

pub record IntelligenceDecision : Type 0 where
  pub component : String
  pub priority : String
  pub action : String
  pub reason : String
  pub confidence : ℕ
  pub intended_outcome : Option ExpectedOutcome
  pub evidence : List String

-- `_decision`; no caller gives an intended outcome.
abbrev pub decision : HealthEvaluation → String → String → String → IntelligenceDecision
decision evaluation priority action reason = record {
  component = evaluation.component;
  priority = priority;
  action = action;
  reason = reason;
  confidence = evaluation.confidence;
  intended_outcome = none;
  evidence = evaluation.evidence;
}

-- `analysis and analysis.history.get("recurring")`
abbrev pub is_recurring : Option History → Bool
is_recurring none = false
is_recurring (some h) = elim h.recurring [ none ↦ false | some v ↦ truthy v ]

abbrev pub dominant : Option History → String
dominant none = ""
dominant (some h) = h.dominant_reason

unfoldable pub make_decision : HealthEvaluation → Option History → IntelligenceDecision
make_decision evaluation analysis = elim evaluation.status [
  | critical ↦ decision evaluation "high" "investigate_immediately" evaluation.message
  | warning ↦
      if is_recurring analysis
      then decision evaluation "high" "investigate_recurring_issue"
          ("Recurring issue: " ++ dominant analysis)
      else decision evaluation "medium" "monitor" evaluation.message
  | unknown ↦
      decision evaluation "medium" "uncertain"
        (if evaluation.message == "" then "State is unresolved" else evaluation.message)
  | healthy ↦ decision evaluation "low" "continue_monitoring" "Component is healthy"
]

-- `ACTION_MAPPING`
unfoldable pub action_mapping : String → Option ActionType
action_mapping action =
    if action == "restart_component"
    then some restart_component
    else if action == "create_checkpoint"
    then some create_checkpoint
    else if action == "scale_down"
    then some scale_down
    else if action == "isolate_component"
    then some isolate_component
    else none

-- `decision_to_action`, with the identifier and the time that the constructor draws; every field
-- that it does not name has its default.
unfoldable pub decision_to_action : String → ℕ → IntelligenceDecision → Option ActionRequest
decision_to_action id now d = elim (action_mapping d.action) [
  | none ↦ none
  | some action_type ↦ some (record {
    action_id = id;
    created_at = now;
    decision_id = "decision-" ++ d.component;
    governance_domain = default_governance_domain;
    component = d.component;
    action_type = action_type;
    status = ActionStatus.pending;
    reason = d.reason;
    confidence = d.confidence;
    requires_approval = true;
    rollback_required = true;
    parameters = no_fields;
    expected_outcome = d.intended_outcome;
  })
]
