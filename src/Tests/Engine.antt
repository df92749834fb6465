-- ===== src/Tests/Engine.antt =====
-- The engine on the request that the authorized restart leads to.
use rmt_platform.Prelude.{string_eq}
use rmt_platform.State.{State}
use rmt_platform.Execution.Models.{ExecutionRequest}
use rmt_platform.Execution.Engine.{execute}
use rmt_platform.Execution.Engine.Mediation.{Outcome, execute-Outcome}
use rmt_platform.Execution.Engine.Evidence.{Accounted, execute-Accounted}
use rmt_platform.Governance.Service.Reaches.{authorized_request, authorized_state}
use rmt_platform.Tests.Fixtures.{World, constant_hashing, platform, env, start, restart_web}
use rmt_platform.Tests.Policies.{assessed}

abbrev request : ExecutionRequest
request = authorized_request platform env restart_web "simulation" start assessed

abbrev ready : State World
ready = authorized_state platform env restart_web "simulation" start assessed

execute-Outcome_example :
    Outcome constant_hashing platform.adapters env request "simulation" ready
      (execute constant_hashing platform.adapters env request "simulation" ready)
execute-Outcome_example =
    execute-Outcome constant_hashing platform.adapters env request "simulation" ready

execute-Accounted_example :
    Accounted platform.adapters request "simulation" ready
      (execute constant_hashing platform.adapters env request "simulation" ready)
execute-Accounted_example =
    execute-Accounted platform.adapters request "simulation" ready constant_hashing env
