-- ===== src/Tests/Governed.antt =====
-- A governed action that runs, and one that waits for approval.
use rmt_platform.Prelude.{◌≡◌, ◌⊎◌, refl, arith, ==→≢, string_eq}
use rmt_platform.Durable.{find}
use rmt_platform.Prelude.Dict.{lookup}
use rmt_platform.Execution.Adapters.{simulation_adapter}
use rmt_platform.Governance.Service.{execute_governed_action}
use rmt_platform.Governance.Service.Boundary.{IsCleared, IsUntouched, boundary}
use rmt_platform.Governance.Service.Automatic.{HasNames}
use rmt_platform.Governance.Service.Reaches.{performed, cleared-performed}
use rmt_platform.Tests.Fixtures.{constant_hashing, platform, simulation, env, start, restart_web}
use rmt_platform.Tests.Policies.{
  default_registry-IsWellFormed, assessed, restart_web-resolved, restart_web-IsAutomatic,
}

pub env-HasNames : HasNames constant_hashing env
env-HasNames = record { digest_given = λ t. ==→≢ _ _ refl; uuid_given = λ s. ==→≢ _ _ refl }

cleared-performed_example :
    execute_governed_action platform env restart_web "simulation" start
    ≡ performed platform env restart_web "simulation" start assessed simulation
unfolding lookup find simulation_adapter
cleared-performed_example =
    cleared-performed platform env restart_web "simulation" start assessed
      default_registry-IsWellFormed env-HasNames refl (omega arith) restart_web-resolved
      restart_web-IsAutomatic simulation refl refl

boundary_example :
    IsCleared platform env restart_web "simulation" start
    ⊎ IsUntouched start (execute_governed_action platform env restart_web "simulation" start).1
boundary_example = boundary platform env restart_web "simulation" start
