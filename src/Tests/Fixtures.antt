-- ===== src/Tests/Fixtures.antt =====
-- A platform with the default domain and the simulation adapter, over a world of log lines.
use rmt_platform.Prelude.{String, false, none, some, List, [], ◌∷◌, string_eq}
use rmt_platform.Prelude.Json.{no_fields}
use rmt_platform.Durable.{sqlite, empty}
use rmt_platform.Environment.{Env}
use rmt_platform.State.{State}
use rmt_platform.Actions.Models.{ActionRequest, ActionStatus, restart_component}
use rmt_platform.Actions.Binding.{Hashing}
use rmt_platform.Actions.Assessment.{
  AssessmentRegistry, default_registration, default_governance_domain,
}
use rmt_platform.Execution.Adapters.{Adapter, simulation_adapter}
use rmt_platform.Governance.Platform.{Platform}

abbrev pub World : Type 0
World = List String

abbrev pub constant_hashing : Hashing
constant_hashing = record { dumps = λ payload. some "{}"; sha256 = λ t. "44136fa3" }

abbrev pub simulation : Adapter World
simulation = simulation_adapter

abbrev pub default_registry : AssessmentRegistry
default_registry = (default_governance_domain, default_registration) ∷ []

abbrev pub platform : Platform World
platform = record {
  hashing = constant_hashing;
  registry = default_registry;
  adapters = ("simulation", simulation) ∷ [];
  get_modules = λ w. some [];
}

abbrev pub env : Env
env = record { uuid = λ s. "u1"; now = λ s. 1000 }

abbrev pub start : State World
start = record {
  holds = empty sqlite;
  records = empty sqlite;
  authorizations = empty sqlite;
  audit = empty sqlite;
  traces = empty sqlite;
  verifications = empty sqlite;
  world = [];
}

abbrev pub restart_web : ActionRequest
restart_web = record {
  action_id = "a1";
  created_at = 900;
  decision_id = "d1";
  governance_domain = default_governance_domain;
  component = "web";
  action_type = restart_component;
  status = ActionStatus.pending;
  reason = "high memory";
  confidence = 95;
  requires_approval = false;
  rollback_required = false;
  parameters = no_fields;
  expected_outcome = none;
}
