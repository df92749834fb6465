-- ===== src/Ops/RateLimit.antt =====
-- ops/ratelimit.py: the fixed-window limiter. The clock is monotonic, and the lock makes one check
-- one step; the principal of a request and the limits of the configuration are arguments.
pub mod Bound
use rmt_platform.Prelude.{
  ℕ, suc, ◌+◌, ◌-◌, ◌*◌, ◌/◌, max, String, Bool, true, false, ◌&&◌, not, Option, none, some, List,
  [], ◌∷◌, ◌≡◌, ◌↔◌, arith, ltb, leb, ◌==◌, HasEquality, string_eq, if◌then◌else◌,
}
use rmt_platform.Prelude.Dict.{Dict, lookup, insert}
use rmt_platform.Actions.Models.{second}

-- `(principal, bucket)`
pub record Key : Type 0 where
  pub principal : String
  pub bucket : String

unfoldable pub key_beq : Key → Key → Bool
key_beq a b = (a.principal == b.principal) && (a.bucket == b.bucket)

pub key_beq_iff : (a b : Key) → (key_beq a b ≡ true) ↔ (a ≡ b)
unfolding key_beq
key_beq_iff a b =
    ground
      (arith, string_eq.equals_iff a.principal b.principal, string_eq.equals_iff a.bucket b.bucket)

instance abbrev pub key_eq : HasEquality Key
key_eq = record { equals = key_beq; equals_iff = key_beq_iff }

-- `_WINDOW_SECONDS`, in the unit of the clock.
abbrev pub window_seconds : ℕ
window_seconds = 60

abbrev pub window : ℕ
window = window_seconds * second

-- `_hits`: the start of the window of a key, and the requests counted in it.
abbrev pub Hits : Type 0
Hits = Dict Key (ℕ × ℕ)

-- The window after one more request.
unfoldable pub tick : ℕ → Option (ℕ × ℕ) → ℕ × ℕ
tick now none = (now, 1)
tick now (some (start, count)) = if leb window (now - start) then (now, 1) else (start, suc count)

-- `max(1, int(_WINDOW_SECONDS - (now - start)))`
abbrev pub retry_after : ℕ → ℕ → ℕ
retry_after now start = max 1 ((window - (now - start)) / second)

-- `_check`: `none` lets the request pass, and `some` is the 429 with its Retry-After.
unfoldable pub check : ℕ → Key → ℕ → Hits → Option ℕ × Hits
unfolding tick
check now key limit hits =
    let (start, count) = tick now (lookup key hits) in
    (if ltb limit count then some (retry_after now start) else none, insert key (start, count) hits)

-- `rate_limit_execute` and `rate_limit_agent`, which differ in the bucket and the limit.
unfoldable pub rate_limit : Bool → ℕ → String → String → ℕ → Hits → Option ℕ × Hits
unfolding check
rate_limit enabled now principal bucket limit hits =
    if not enabled
    then (none, hits)
    else check now (record { principal = principal; bucket = bucket }) limit hits
