-- ===== src/Agent/Authority/Single.antt =====
-- A grant of agent/authority.py is good for its operation and target, for its time, and once.
use rmt_platform.Prelude.{
  ℕ, ◌<◌, String, Bool, true, false, ◌||◌, some, ◌≡◌, ◌≢◌, ◌↔◌, refl, ap, sym, ◌∙◌, arith, ◌==◌,
  ◌!=◌, string_eq, leb, Option-cases, Bool-cases, inl, inr, if◌then◌else◌, ==→≢, ≢→==,
}
use rmt_platform.Durable.{find, update, reload}
use rmt_platform.Durable.Sync.{IsSynced, HasDisk, IsDistinct, records-update}
use rmt_platform.Durable.Lookup.{find-modify_first_self}
use rmt_platform.Durable.Restart.{reload-update}
use rmt_platform.Agent.Authority.{
  AuthorityGrant, grant_key, grant_schema, is_grant, Grants, grant_by_id, check, spend, consume,
}

-- The grant is there, unspent and unexpired, for this operation and target.
pub record Authorizes (now : ℕ) (id operation target : String) (s : Grants) : Type 0 where
  pub named : id ≢ ""
  pub grant : AuthorityGrant
  pub found : grant_by_id id s ≡ some grant
  pub unspent : grant.consumed ≡ false
  pub unexpired : now < grant.expires_at
  pub same_operation : grant.operation ≡ operation
  pub same_target : grant.target ≡ target

module _ (now : ℕ) (id operation target : String) (s : Grants) where
  check-found :
      (g : AuthorityGrant)
      → id ≢ ""
      → grant_by_id id s ≡ some g
      → check now id operation target s ≡ (
          if g.consumed
          then (false, "grant_consumed")
          else if leb g.expires_at now
          then (false, "grant_expired")
          else if (g.operation != operation) || (g.target != target)
          then (false, "grant_scope_mismatch")
          else (true, "ok"))
  unfolding check
  check-found g named found = rw (≢→== id "" named, check, found) refl

  -- The tests on a grant that was found, when the check passes.
  passed_tests :
      (g : AuthorityGrant)
      → id ≢ ""
      → grant_by_id id s ≡ some g
      → (check now id operation target s).0 ≡ true
      → (g.consumed ≡ false)
        × (now < g.expires_at)
        × (g.operation ≡ operation)
        × (g.target ≡ target)
  passed_tests g named found h =
      let tests = ap (λ (r : Bool × String). r.0) (sym (check-found g named found)) ∙ h in
      ground (
        arith,
        tests,
        string_eq.equals_iff g.operation operation,
        string_eq.equals_iff g.target target,
      )

  check-Authorizes :
      (check now id operation target s).0 ≡ true → Authorizes now id operation target s
  unfolding check
  check-Authorizes h = elim (Bool-cases (id == "")) [
    | inl unnamed ↦ cc (rw (unnamed, check) at h)
    | inr named ↦ elim (Option-cases (grant_by_id id s)) [
      | inl missing ↦ cc (rw (named, check, missing) at h)
      | inr (g, found) ↦
          let (unspent, unexpired, operation_, target_) =
            passed_tests g (==→≢ id "" named) found h in
          record {
            named = ==→≢ id "" named;
            grant = g;
            found = found;
            unspent = unspent;
            unexpired = unexpired;
            same_operation = operation_;
            same_target = target_;
          }
    ]
  ]

  Authorizes-check :
      Authorizes now id operation target s → (check now id operation target s).0 ≡ true
  Authorizes-check a = rw (check-found a.grant a.named a.found) (
      ground (
        arith,
        a.unspent,
        a.unexpired,
        a.same_operation,
        a.same_target,
        string_eq.equals_iff a.grant.operation operation,
        string_eq.equals_iff a.grant.target target,
      ))

  -- A check passes exactly when the identifier names a grant that is unspent, expires later than
  -- now, and is for this operation and this target.
  pub check_iff :
      ((check now id operation target s).0 ≡ true) ↔ Authorizes now id operation target s
  check_iff = (check-Authorizes, Authorizes-check)

-- No call takes the grant any more.
pub record IsSpent (id : String) (s : Grants) : Type 0 where
  pub consume_fails : (now : ℕ) → consume now id s ≡ (false, s)
  pub check_fails :
      (now : ℕ) (operation target : String) → (check now id operation target s).0 ≡ false

module _ (id : String) where
  pub spent :
      (g : AuthorityGrant) (s : Grants)
      → grant_by_id id s ≡ some g
      → g.consumed ≡ true
      → IsSpent id s
  unfolding consume check
  spent g s found used = record {
    consume_fails = λ now. rw (found, consume, used) refl;
    check_fails = λ now operation target. elim (Bool-cases (id == "")) [
      | inl unnamed ↦ rw (unnamed, check) refl
      | inr named ↦ rw (named, check, found, used) refl
    ];
  }

  taken :
      (now : ℕ) (s : Grants)
      → (consume now id s).0 ≡ true
      → (g : AuthorityGrant) × (grant_by_id id s ≡ some g)
        × (consume now id s ≡ (true, update grant_schema (is_grant id) (spend now) s))
  unfolding consume
  taken now s h = elim (Option-cases (grant_by_id id s)) [
    | inl missing ↦ cc (rw (missing, consume) at h)
    | inr (g, found) ↦ elim (Bool-cases g.consumed) [
      | inl used ↦ cc (rw (found, consume, used) at h)
      | inr unused ↦ (g, found, rw (found, consume, unused) refl)
    ]
  ]

  -- What is found after a consume that succeeds: the grant, spent.
  pub consume-found :
      (now : ℕ) (s : Grants)
      → (consume now id s).0 ≡ true
      → (g : AuthorityGrant) × (grant_by_id id (consume now id s).1 ≡ some g) × (g.consumed ≡ true)
  consume-found now s h =
      let (g, found, e) = taken now s h in
      (
        spend now g,
        ap (λ (r : Bool × Grants). grant_by_id id r.1) e
            ∙ ap (find (is_grant id)) (records-update grant_schema (is_grant id) (spend now) s)
            ∙ find-modify_first_self grant_key (λ x. x.created_at) id (spend now) s.records g
                (λ x. refl) found,
        refl,
      )

  -- Where the grants are on disk under distinct identifiers, a consumed grant stays spent in a new
  -- process.
  pub reload-consume-IsSpent :
      (now : ℕ) (s : Grants)
      → HasDisk grant_schema s
      → IsDistinct grant_key (λ g. g.created_at) s.records
      → IsSynced grant_schema s
      → (consume now id s).0 ≡ true
      → IsSpent id (reload (consume now id s).1)
  reload-consume-IsSpent now s disk distinct synced h =
      let (g, found, e) = taken now s h in
      spent (spend now g) (reload (consume now id s).1)
        (ap (λ (r : Bool × Grants). grant_by_id id (reload r.1)) e
          ∙ ap (find (is_grant id))
              (reload-update grant_key (λ x. x.created_at) id (spend now) s disk distinct synced)
          ∙ find-modify_first_self grant_key (λ x. x.created_at) id (spend now) s.records g
              (λ x. refl) found)
        refl
