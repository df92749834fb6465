-- ===== src/Ops/Separation.antt =====
-- ops/separation.py: who is behind an agent's hold, and the test that keeps them from approving it.
-- The configuration's switch is an argument, and the clock is the time of a call; nothing in the
-- modelled code raises on values of these types.
pub mod Enforced
use rmt_platform.Prelude.{
  ℕ, ◌-◌, ◌*◌, String, Bool, true, false, not, ◌&&◌, Option, none, some, List, [], ◌∷◌, ltb, ◌==◌,
  ◌!=◌, string_eq, if◌then◌else◌,
}
use rmt_platform.Prelude.Dict.{Dict, lookup, insert, erase}
use rmt_platform.Actions.Models.{second}

-- `PROVENANCE_MAX_AGE_SECONDS`, in the unit of the clock.
abbrev pub provenance_max_age : ℕ
provenance_max_age = 3600 * second

pub record HoldProvenance : Type 0 where
  pub approval_id : String
  pub grant_id : Option String
  pub granted_by : Option String
  pub agent_id : Option String
  pub recorded_at : ℕ

-- `_provenance`
abbrev pub Provenance : Type 0
Provenance = Dict String HoldProvenance

abbrev reset : Provenance → Provenance
reset d = []

abbrev pub is_stale : ℕ → HoldProvenance → Bool
is_stale now p = ltb provenance_max_age (now - p.recorded_at)

-- `_prune`
unfoldable pub prune : ℕ → Provenance → Provenance
prune now [] = []
prune now ((id, p) ∷ d) = let rest = prune now d in if is_stale now p then rest else (id, p) ∷ rest

unfoldable pub record_hold_provenance :
    ℕ → Option String → Option String → Option String → Option String → Provenance → Provenance
record_hold_provenance now none grant_id granted_by agent_id d = d
record_hold_provenance now (some id) grant_id granted_by agent_id d =
    if id == ""
    then d
    else insert id
        (record {
          approval_id = id;
          grant_id = grant_id;
          granted_by = granted_by;
          agent_id = agent_id;
          recorded_at = now;
        })
        (prune now d)

-- The answer for the entry of the identifier; a stale one is dropped.
unfoldable pub fresh :
    ℕ → String → Option HoldProvenance → Provenance → Option HoldProvenance × Provenance
fresh now id none d = (none, d)
fresh now id (some p) d = if is_stale now p then (none, erase id d) else (some p, d)

unfoldable pub get_hold_provenance :
    ℕ → Option String → Provenance → Option HoldProvenance × Provenance
get_hold_provenance now none d = (none, d)
get_hold_provenance now (some id) d = if id == "" then (none, d) else fresh now id (lookup id d) d

-- `a and b and a == b`
abbrev pub is_same : Option String → Option String → Bool
is_same (some a) (some b) = a != "" && b != "" && (a == b)
is_same _ _ = false

unfoldable pub ruling : Option String → Option HoldProvenance → Bool × String
ruling approver none = (true, "not_agent_originated")
ruling approver (some p) =
    if is_same approver p.granted_by
    then (false, "approver_is_grantor")
    else if is_same approver p.agent_id
    then (false, "approver_is_proposer")
    else (true, "ok")

unfoldable pub check_separation :
    Bool → ℕ → Option String → Option String → Provenance → (Bool × String) × Provenance
check_separation enabled now approval_id approver d =
    if not enabled
    then ((true, "separation_disabled"), d)
    else let (found, d') = get_hold_provenance now approval_id d in (ruling approver found, d')
