-- ===== src/Execution/Adapters.antt =====
-- execution/adapters/base.py, registry.py and simulation.py. What an adapter acts on outside the
-- platform (containers, repositories, files) is a world of a type that stays abstract.
use rmt_platform.Prelude.{String, Bool, true, Option, string_eq}
use rmt_platform.Prelude.Json.{text, boolean, field, no_fields}
use rmt_platform.Prelude.Dict.{Dict, lookup, insert}
use rmt_platform.Prelude.Result.{Result, ok}
use rmt_platform.Execution.Models.{ExecutionRequest, ExecutionResult}

-- `ExecutionAdapter`. An execution may raise, and may have changed the world before it does.
pub record Adapter (W : Type 0) : Type 0 where
  pub supports : ExecutionRequest → Bool
  pub execute : ExecutionRequest → W → Result String ExecutionResult × W

abbrev pub AdapterRegistry : Type 0 → Type 0
AdapterRegistry W = Dict String (Adapter W)

module _ {W : Type 0} where
  -- `AdapterRegistry.register`
  abbrev pub register : String → Adapter W → AdapterRegistry W → AdapterRegistry W
  register name adapter registry = insert name adapter registry

  -- `AdapterRegistry.get`
  abbrev pub get : String → AdapterRegistry W → Option (Adapter W)
  get name registry = lookup name registry

  unfoldable pub simulation_adapter : Adapter W
  simulation_adapter = record {
    supports = λ request. true;
    execute = λ request world. (
      ok (record {
        execution_id = request.execution_id;
        status = "completed";
        success = true;
        message = "Execution simulated successfully";
        output = field "simulation" (boolean true) (
            field "operation" (text request.operation)
              (field "target" (text request.target) no_fields));
      }),
      world,
    );
  }
