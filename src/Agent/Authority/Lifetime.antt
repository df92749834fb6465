-- ===== src/Agent/Authority/Lifetime.antt =====
-- agent/authority.py over a sequence of calls, of which `reset`, a hook for tests, is none.
use rmt_platform.Prelude.{
  ℕ, String, true, false, some, List, [], ◌∷◌, ◌≡◌, refl, ap, sym, ◌∙◌, ◌==◌, string_eq,
  Option-cases, Bool-cases, inl, inr, ==→≡, some_injective,
}
use rmt_platform.Durable.{find}
use rmt_platform.Durable.Sync.{records-update}
use rmt_platform.Durable.Lookup.{records-save, find-append_old, find-modify_first_ne}
use rmt_platform.Agent.Authority.{
  AuthorityGrant, grant_key, grant_schema, is_grant, Grants, grant_by_id, grant, spend, consume,
}
use rmt_platform.Agent.Authority.Single.{IsSpent, spent, consume-found}

-- A call that changes the store: a grant under the identifier that it draws, or a consume.
pub data Event : Type 0 where
  granting :
      (id : String) (created now : ℕ) (operation target granted_by : String) (ttl_seconds : ℕ)
      → Event
  consuming : (now : ℕ) (id : String) → Event

unfoldable pub play : Event → Grants → Grants
play (granting id created now operation target granted_by ttl_seconds) s =
    (grant id created now operation target granted_by ttl_seconds s).1
play (consuming now id) s = (consume now id s).1

unfoldable pub play_all : List Event → Grants → Grants
play_all [] s = s
play_all (e ∷ es) s = play_all es (play e s)

module _ (id : String) (g : AuthorityGrant) (used : g.consumed ≡ true) where
  -- A new grant goes behind the one that is there, whatever identifier it draws.
  grant-keeps :
      (other : String) (created now : ℕ) (operation target granted_by : String) (ttl : ℕ)
      (s : Grants)
      → grant_by_id id s ≡ some g
      → grant_by_id id (grant other created now operation target granted_by ttl s).1 ≡ some g
  unfolding grant
  grant-keeps other created now operation target granted_by ttl s found =
      ap (find (is_grant id)) (records-save grant_schema _ s)
      ∙ find-append_old (is_grant id) s.records _ g found

  consume-keeps :
      (now : ℕ) (other : String) (s : Grants)
      → grant_by_id id s ≡ some g
      → grant_by_id id (consume now other s).1 ≡ some g
  unfolding consume
  consume-keeps now other s found = elim (Option-cases (grant_by_id other s)) [
    | inl missing ↦ rw (missing, consume) found
    | inr (h, there) ↦ elim (Bool-cases h.consumed) [
      | inl spent_already ↦ rw (there, consume, spent_already) found
      | inr unspent ↦
          rw (there, consume, unspent)
            (ap (find (is_grant id)) (records-update grant_schema (is_grant other) (spend now) s)
              ∙ find-modify_first_ne grant_key (λ x. x.created_at) id other (spend now) s.records
                  (λ x. refl) (apart h there unspent)
              ∙ found)
    ]
  ]
    where
      apart :
          (h : AuthorityGrant)
          → grant_by_id other s ≡ some h
          → h.consumed ≡ false
          → (other == id) ≡ false
      apart h there unspent = elim (Bool-cases (other == id)) [
        | inr differs ↦ differs
        | inl same ↦
            let is_g : h ≡ g =
              some_injective (sym there ∙ ap (λ k. grant_by_id k s) (==→≡ other id same) ∙ found) in
            absurd (cc (sym unspent ∙ ap (λ (x : AuthorityGrant). x.consumed) is_g ∙ used))
      ]

  play_all-keeps :
      (es : List Event) (s : Grants)
      → grant_by_id id s ≡ some g
      → grant_by_id id (play_all es s) ≡ some g
  unfolding play play_all
  play_all-keeps [] s found = found
  play_all-keeps (granting other created now operation target granted_by ttl ∷ es) s found =
      play_all-keeps es _ (grant-keeps other created now operation target granted_by ttl s found)
  play_all-keeps (consuming now other ∷ es) s found =
      play_all-keeps es _ (consume-keeps now other s found)

-- Once a grant is consumed, then after any sequence of grants and consumes, of whatever
-- identifiers, no call consumes it, and no check of it passes, for any operation and target at any
-- time.
pub consume-IsSpent :
    (id : String) (now : ℕ) (s : Grants) (es : List Event)
    → (consume now id s).0 ≡ true
    → IsSpent id (play_all es (consume now id s).1)
consume-IsSpent id now s es h =
    let (g, found, used) = consume-found id now s h in
    spent id g (play_all es (consume now id s).1)
      (play_all-keeps id g used es (consume now id s).1 found) used
