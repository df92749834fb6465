-- ===== src/Actions/Models.antt =====
-- actions/models.py, and `ExpectedOutcome` of verification/models.py.
use rmt_platform.Prelude.{
  ℕ, String, Bool, true, ◌&&◌, Option, ◌≡◌, ◌↔◌, arith, HasEquality, ◌==◌, string_eq,
}
use rmt_platform.Prelude.Json.{Fields}

pub data ActionType : Type 0 where
  restart_component create_checkpoint scale_down isolate_component : ActionType
  start stop restart create remove : ActionType

-- `.value`
unfoldable pub value : ActionType → String
value restart_component = "restart_component"
value create_checkpoint = "create_checkpoint"
value scale_down = "scale_down"
value isolate_component = "isolate_component"
value start = "start"
value stop = "stop"
value restart = "restart"
value create = "create"
value remove = "remove"

pub data ActionStatus : Type 0 where
  pending validating approved rejected completed failed : ActionStatus

pub record ExpectedOutcome : Type 0 where
  pub target : String
  pub operation : String
  pub expected_state : String

-- Identifiers are the texts of UUIDs, and times are counted in microseconds.
pub record ActionRequest : Type 0 where
  pub action_id : String
  pub created_at : ℕ
  pub decision_id : String
  pub governance_domain : String
  pub component : String
  pub action_type : ActionType
  pub status : ActionStatus
  pub reason : String
  pub confidence : ℕ
  pub requires_approval : Bool
  pub rollback_required : Bool
  pub parameters : Fields
  pub expected_outcome : Option ExpectedOutcome

pub outcome_beq : ExpectedOutcome → ExpectedOutcome → Bool
outcome_beq a b =
    (a.target == b.target)
    && ((a.operation == b.operation) && (a.expected_state == b.expected_state))

pub outcome_beq_iff : (a b : ExpectedOutcome) → (outcome_beq a b ≡ true) ↔ (a ≡ b)
unfolding outcome_beq
outcome_beq_iff a b = ground (
  arith,
  string_eq.equals_iff a.target b.target,
  string_eq.equals_iff a.operation b.operation,
  string_eq.equals_iff a.expected_state b.expected_state,
)

instance abbrev pub outcome_eq : HasEquality ExpectedOutcome
outcome_eq = record { equals = outcome_beq; equals_iff = outcome_beq_iff }

-- A second of wall-clock time.
abbrev pub second : ℕ
second = 1_000_000
