-- ===== src/Tests/Operations.antt =====
-- The limiter and the grants of authority on concrete calls.
use rmt_platform.Prelude.{
  ℕ, ◌≤◌, ◌*◌, true, false, none, some, List, [], ◌∷◌, ◌≡◌, ◌↔◌, inl, refl, arith, string_eq,
  option_eq, option_beq,
}
use rmt_platform.Prelude.Dict.{lookup}
use rmt_platform.Durable.{sqlite, find, find_index, reload}
use rmt_platform.Ops.RateLimit.{Key, key_eq, key_beq}
use rmt_platform.Ops.RateLimit.Bound.{Call, passed, times, burst-bound}
use rmt_platform.Ops.Separation.{record_hold_provenance, check_separation}
use rmt_platform.Ops.Separation.Enforced.{
  Event, recording, reading, checking, play_all, check-enforced,
}
use rmt_platform.Agent.Authority
use rmt_platform.Agent.Authority.{AuthorityGrant, Grants, consume}
use rmt_platform.Agent.Authority.Single.{Authorizes, check_iff, IsSpent, reload-consume-IsSpent}
use rmt_platform.Agent.Authority.Lifetime
use rmt_platform.Agent.Authority.Lifetime.{granting, consuming, consume-IsSpent}

abbrev alice : Key
alice = record { principal = "alice"; bucket = "execute" }

abbrev bob : Key
bob = record { principal = "bob"; bucket = "execute" }

abbrev calls : List Call
calls = (10, alice) ∷ (11, bob) ∷ (12, alice) ∷ []

burst-bound_example :
    (passed (λ bucket. 1) alice calls [] ≤ 2 * 1)
    × (lookup {K = Key} {V = ℕ × ℕ} alice [] ≡ none → passed (λ bucket. 1) alice calls [] ≤ 1)
unfolding times key_beq
burst-bound_example =
    burst-bound (λ bucket. 1) alice 10 calls []
      ((omega arith, omega arith), ((omega arith, omega arith), tt))

abbrev pub start_grant : AuthorityGrant
start_grant = record {
  grant_id = "g1";
  operation = "start";
  target = "web";
  granted_by = "alice";
  expires_at = 500;
  consumed = false;
  consumed_at = none;
  created_at = 100;
}

abbrev pub grants : Grants
grants = record {
  backend = sqlite;
  records = start_grant ∷ [];
  rows = record { key = some "g1"; created_at = 100; payload = start_grant } ∷ [];
}

check_iff_example :
    ((Authority.check 200 "g1" "start" "web" grants).0 ≡ true)
    ↔ Authorizes 200 "g1" "start" "web" grants
check_iff_example = check_iff 200 "g1" "start" "web" grants

abbrev grant_events : List Lifetime.Event
grant_events =
    granting "g2" 210 211 "stop" "db" "bob" 60 ∷ consuming 220 "g2" ∷ consuming 230 "g1" ∷ []

consume-IsSpent_example : IsSpent "g1" (Lifetime.play_all grant_events (consume 200 "g1" grants).1)
unfolding consume find
consume-IsSpent_example = consume-IsSpent "g1" 200 grants grant_events refl

reload-consume-IsSpent_example : IsSpent "g1" (reload (consume 200 "g1" grants).1)
unfolding consume find find_index
reload-consume-IsSpent_example =
    reload-consume-IsSpent "g1" 200 grants (inl refl) (refl, tt) refl refl

abbrev later_events : List Event
later_events =
    recording 12 (some "h2") none (some "olga") none
    ∷ checking true 15 (some "h2") (some "gina")
    ∷ reading 16 (some "h1")
    ∷ []

check-enforced_example :
    (check_separation true 20 (some "h1") (some "gina") (
      play_all later_events
        (record_hold_provenance 10 (some "h1") (some "g1") (some "gina") (some "bot") []))).0.0
    ≡ false
unfolding option_beq
check-enforced_example =
    check-enforced "h1" (some "g1") (some "gina") (some "bot") (some "gina") 10 20 later_events []
      refl refl ((omega arith, refl), (omega arith, (omega arith, tt))) (omega arith)
