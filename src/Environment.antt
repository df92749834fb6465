-- ===== src/Environment.antt =====
-- What a call of the platform reads from its surroundings: the clock and fresh UUIDs.
use rmt_platform.Prelude.{ℕ, String}

-- The places in the code that read the clock or draw a UUID during one governed call. Each is
-- passed at most once in a call, so the readings of a call are functions of the place.
pub data Site : Type 0 where
  assessment decision hold hold_expiry approval_record approval_clock : Site
  authorization authorization_expiry request engine_clock trace audit : Site
  verification observation : Site

pub record Env : Type 0 where
  pub uuid : Site → String
  pub now : Site → ℕ
