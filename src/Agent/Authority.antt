-- ===== src/Agent/Authority.antt =====
-- agent/authority.py: the grants of authority, over a durable store. The clock and the identifier
-- that a call draws are arguments, as is the configured time to live.
pub mod Single
pub mod Lifetime
use rmt_platform.Prelude.{
  ℕ, ◌+◌, ◌*◌, String, Bool, true, false, not, ◌&&◌, ◌||◌, Option, none, some, List, [], ◌∷◌, leb,
  ltb, ◌==◌, ◌!=◌, string_eq, if◌then◌else◌,
}
use rmt_platform.Durable.{DurableStore, Schema, find, save, update, replace_records}
use rmt_platform.Durable.Sync.{keyed, has_id}
use rmt_platform.Actions.Models.{second}

pub record AuthorityGrant : Type 0 where
  pub grant_id : String
  pub operation : String
  pub target : String
  pub granted_by : String
  pub expires_at : ℕ
  pub consumed : Bool
  pub consumed_at : Option ℕ
  pub created_at : ℕ

abbrev pub grant_key : AuthorityGrant → String
grant_key g = g.grant_id

abbrev pub grant_schema : Schema AuthorityGrant
grant_schema = keyed grant_key (λ g. g.created_at)

abbrev pub is_grant : String → AuthorityGrant → Bool
is_grant = has_id grant_key (λ g. g.created_at)

abbrev pub Grants : Type 0
Grants = DurableStore AuthorityGrant

-- `AuthorityGrantStorage.get_by_id`
abbrev pub grant_by_id : String → Grants → Option AuthorityGrant
grant_by_id id s = find (is_grant id) s.records

-- `AuthorityStore.reset`
abbrev pub reset : Grants → Grants
reset s = replace_records grant_schema [] s

-- `AuthorityStore.grant`; `created` and `now` are the two readings of the clock.
unfoldable pub grant :
    String → ℕ → ℕ → String → String → String → ℕ → Grants → AuthorityGrant × Grants
grant id created now operation target granted_by ttl_seconds s =
    let g : AuthorityGrant = record {
      grant_id = id;
      operation = operation;
      target = target;
      granted_by = granted_by;
      expires_at = now + ttl_seconds * second;
      consumed = false;
      consumed_at = none;
      created_at = created;
    } in
    (g, save grant_schema g s)

-- `AuthorityStore.check`
unfoldable pub check : ℕ → String → String → String → Grants → Bool × String
check now id operation target s = elim (if id == "" then none else grant_by_id id s) [
  | none ↦ (false, "no_grant")
  | some g ↦
      if g.consumed
      then (false, "grant_consumed")
      else if leb g.expires_at now
      then (false, "grant_expired")
      else if (g.operation != operation) || (g.target != target)
      then (false, "grant_scope_mismatch")
      else (true, "ok")
]

abbrev pub spend : ℕ → AuthorityGrant → AuthorityGrant
spend now g = record g { consumed = true; consumed_at = some now }

-- `AuthorityStore.consume`
unfoldable pub consume : ℕ → String → Grants → Bool × Grants
consume now id s = elim (grant_by_id id s) [
  | none ↦ (false, s)
  | some g ↦
      if g.consumed then (false, s) else (true, update grant_schema (is_grant id) (spend now) s)
]

-- `AuthorityStore.list_active`
unfoldable pub list_active : ℕ → List AuthorityGrant → List AuthorityGrant
list_active now [] = []
list_active now (g ∷ gs) =
    let rest = list_active now gs in
    if not g.consumed && ltb now g.expires_at then g ∷ rest else rest
