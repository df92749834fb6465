-- ===== src/Verification/Verifier.antt =====
-- verification/verifier.py
pub mod Statuses
use Prim.Native.String.{◌++◌}
use rmt_platform.Prelude.{String, Option, none, some, ◌==◌, string_eq, if◌then◌else◌}
use rmt_platform.Environment.{Site, Env}
use rmt_platform.Actions.Models.{ExpectedOutcome}
use rmt_platform.Verification.Models.{ObservedState, VerificationResult}

abbrev verdict :
    Env
    → String
    → String
    → Option ExpectedOutcome
    → Option ObservedState
    → String
    → VerificationResult
verdict env execution_id status expected observed reason = record {
  verification_id = env.uuid Site.verification;
  execution_id = execution_id;
  status = status;
  expected = expected;
  observed = observed;
  reason = reason;
  created_at = env.now Site.verification;
}

-- `Verifier.verify`
unfoldable pub verify :
    Env → String → Option ExpectedOutcome → Option ObservedState → VerificationResult
verify env execution_id none observed =
    verdict env execution_id "verification_failure" none observed "No expected outcome supplied"
verify env execution_id (some expected) none =
    verdict env execution_id "observation_unavailable" (some expected) none
      "Observation unavailable"
verify env execution_id (some expected) (some observed) =
    if observed.state == expected.expected_state
    then verdict env execution_id "verified_success" (some expected) (some observed)
        "Observed state matches expected outcome"
    else verdict env execution_id "state_mismatch" (some expected) (some observed) (
        "Expected state '"
        ++ (expected.expected_state ++ ("' but observed '" ++ (observed.state ++ "'"))))
