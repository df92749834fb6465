-- ===== src/Verification/Service.antt =====
-- verification/service.py. The list of modules is read from a file of the world, which may raise.
use rmt_platform.Prelude.{
  String, Bool, true, false, ◌&&◌, ◌||◌, Option, none, some, List, [], ◌∷◌, ◌==◌, string_eq,
  option_eq, option_beq, if◌then◌else◌,
}
use rmt_platform.Prelude.Json
use rmt_platform.Prelude.Json.{Json, Fields, text, truthy}
use rmt_platform.Prelude.Text.{lower}
use rmt_platform.Durable.{save}
use rmt_platform.Environment.{Site, Env}
use rmt_platform.State.{State, verification_schema}
use rmt_platform.Actions.Models.{ExpectedOutcome}
use rmt_platform.Execution.Models.{ExecutionRequest}
use rmt_platform.Verification.Models.{ObservedState, VerificationResult}
use rmt_platform.Verification.Verifier.{verify}

-- The fields of a registered module that are read here.
pub record Module : Type 0 where
  pub name : String
  pub container : Option String

-- Whether the loop over the modules finds the target.
unfoldable pub is_registered : String → List Module → Bool
unfolding option_beq
is_registered target [] = false
is_registered target (m ∷ ms) =
    if (m.name == target) || (m.container == some target) then true else is_registered target ms

abbrev observed_module : Env → String → String → ObservedState
observed_module env target state = record {
  target = target;
  state = state;
  source = "module_registry";
  timestamp = env.now Site.observation;
}

-- `_module_registry_observer(target)()`; `none` is an observation that raises, as it does where
-- the list cannot be read or the target is no text.
unfoldable pub module_registry_observer : Env → Option (List Module) → Json → Option ObservedState
module_registry_observer env none target = none
module_registry_observer env (some modules) (text target) =
    if is_registered target modules
    then some (observed_module env target "registered")
    else some (observed_module env target "not_registered")
module_registry_observer env (some modules) _ = none

abbrev module_name : Fields → Option Json
module_name parameters = Json.get "module_name" parameters

-- What `_resolve_trusted_observer` finds and the observation gives: `none` where no observer
-- applies, and where it raises.
unfoldable pub observe : Env → Option (List Module) → ExecutionRequest → Option ObservedState
observe env modules request = elim (module_name request.parameters) [
  | none ↦ none
  | some name ↦
      if (lower request.operation == "create") && truthy name
      then module_registry_observer env modules name
      else none
]

-- `verify_execution`. The verifier does not raise, so its `except` branch is not reached.
unfoldable pub verify_execution :
    {W : Type 0}
    → (W → Option (List Module))
    → Env
    → String
    → Option ExpectedOutcome
    → ExecutionRequest
    → State W
    → VerificationResult × State W
verify_execution get_modules env execution_id expected request s =
    let result = verify env execution_id expected (observe env (get_modules s.world) request) in
    (result, record s { verifications = save verification_schema result s.verifications })
