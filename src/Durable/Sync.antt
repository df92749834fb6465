-- ===== src/Durable/Sync.antt =====
-- What lies on disk mirrors the list in memory: `save`, `update` and `_replace_records` of
-- durable_store.py keep that, on every backend that has a disk.
use mathlib.Core.List.{map-append}
use rmt_platform.Prelude.{
  ℕ, String, ◌≡◌, refl, ◌⊎◌, Bool, none, some, List, [], ◌∷◌, ◌++◌, map, arith, ◌==◌, string_eq,
  ==→≡, Bool-cases, inl, inr, Option-cases, sym, ◌∙◌,
}
use rmt_platform.Durable.{
  json, sqlite, DurableStore, Schema, key_matches, set, find_index, find, modify_first, row,
  sql_update_by_key, save, commit_update, update, replace_records,
}

module _ {A : Type 0} where
  pub set-eq-modify_first :
      (p : A → Bool) (f : A → A) (xs : List A) (i : ℕ) (a : A)
      → find_index p xs ≡ some (i, a)
      → set xs i (f a) ≡ modify_first p f xs
  unfolding find_index set modify_first
  set-eq-modify_first p f [] i a h = cc
  set-eq-modify_first p f (x ∷ xs) i a h = elim (Bool-cases (p x)) [
    | inl hit ↦ ground arith
    | inr miss ↦ elim (Option-cases (find_index p xs)) [
      | inl nowhere ↦ ground arith
      | inr ((j, b), e) ↦ ground (arith, set-eq-modify_first p f xs j b e)
    ]
  ]

  pub modify_first-absent :
      (p : A → Bool) (f : A → A) (xs : List A) → find_index p xs ≡ none → modify_first p f xs ≡ xs
  unfolding find_index modify_first
  modify_first-absent p f [] h = refl
  modify_first-absent p f (x ∷ xs) h = ground (arith, modify_first-absent p f xs)

  -- The two loops of a subclass find the same record.
  pub find-eq-find_index :
      (p : A → Bool) (xs : List A)
      → find p xs ≡ elim (find_index p xs) [ none ↦ none | some (i, a) ↦ some a ]
  unfolding find find_index
  find-eq-find_index p [] = refl
  find-eq-find_index p (x ∷ xs) = ground (arith, find-eq-find_index p xs)

module _ {A : Type 0} (schema : Schema A) where
  -- The disk holds a row for each record, in order.
  abbrev pub IsSynced : DurableStore A → Type 0
  IsSynced s = s.rows ≡ map (row schema) s.records

  abbrev pub HasDisk : DurableStore A → Type 0
  HasDisk s = (s.backend ≡ sqlite) ⊎ (s.backend ≡ json)

  map-row-append :
      (xs : List A) (x : A)
      → map (row schema) xs ++ row schema x ∷ [] ≡ map (row schema) (xs ++ x ∷ [])
  map-row-append xs x = simp map-append

  pub save-IsSynced :
      (r : A) (s : DurableStore A) → HasDisk s → IsSynced s → IsSynced (save schema r s)
  unfolding save
  save-IsSynced r s (inl b) h = rw (b, h) (map-row-append s.records r)
  save-IsSynced r s (inr b) h = rw b

  pub replace_records-IsSynced :
      (new : List A) (s : DurableStore A) → HasDisk s → IsSynced (replace_records schema new s)
  unfolding replace_records
  replace_records-IsSynced new s (inl b) = rw b
  replace_records-IsSynced new s (inr b) = rw b

  records-commit_update :
      (i : ℕ) (old new : A) (s : DurableStore A)
      → (commit_update schema i old new s).records ≡ set s.records i new
  unfolding commit_update
  records-commit_update i old new s = ground arith

  -- On every backend an update changes the first record that fits, in memory.
  pub records-update :
      (p : A → Bool) (f : A → A) (s : DurableStore A)
      → (update schema p f s).records ≡ modify_first p f s.records
  unfolding update
  records-update p f s = elim (Option-cases (find_index p s.records)) [
    | inl absent ↦ rw (absent, update) (sym (modify_first-absent p f s.records absent))
    | inr ((i, a), e) ↦
        rw (e, update) (records-commit_update i a (f a) s ∙ set-eq-modify_first p f s.records i a e)
  ]

  pub backend-update :
      (p : A → Bool) (f : A → A) (s : DurableStore A) → (update schema p f s).backend ≡ s.backend
  unfolding update
  backend-update p f s = ground arith

-- Records with an identifier that is also the key column: the subclasses of the module, but the
-- audit and the trace store.
module _ {A : Type 0} (id_of : A → String) (created : A → ℕ) where
  abbrev pub keyed : Schema A
  keyed = record { key_of = λ a. some (id_of a); created_at_of = created }

  abbrev pub has_id : String → A → Bool
  has_id k a = id_of a == k

  -- No identifier occurs twice.
  abbrev pub IsDistinct : List A → Type 0
  IsDistinct [] = Unit
  IsDistinct (x ∷ xs) = (find_index (has_id (id_of x)) xs ≡ none) × IsDistinct xs

  -- An UPDATE by a key that no row has changes nothing.
  sql_update_by_key-absent :
      (k : String) (new : A) (xs : List A)
      → find_index (has_id k) xs ≡ none
      → sql_update_by_key keyed (some k) new (map (row keyed) xs) ≡ map (row keyed) xs
  unfolding sql_update_by_key find_index key_matches
  sql_update_by_key-absent k new [] h = refl
  sql_update_by_key-absent k new (x ∷ xs) h = ground (arith, sql_update_by_key-absent k new xs)

  sql_update_by_key-modify_first :
      (k : String) (f : A → A) (xs : List A) (i : ℕ) (a : A)
      → find_index (has_id k) xs ≡ some (i, a)
      → IsDistinct xs
      → sql_update_by_key keyed (some k) (f a) (map (row keyed) xs)
        ≡ map (row keyed) (modify_first (has_id k) f xs)
  unfolding sql_update_by_key find_index key_matches modify_first
  sql_update_by_key-modify_first k f [] i a h d = cc
  sql_update_by_key-modify_first k f (x ∷ xs) i a h d = elim (Bool-cases (id_of x == k)) [
    | inl hit ↦ ground (arith, ==→≡ (id_of x) k hit, sql_update_by_key-absent k (f a) xs, d.0)
    | inr miss ↦ elim (Option-cases (find_index (has_id k) xs)) [
      | inl nowhere ↦ ground arith
      | inr ((j, b), e) ↦ ground (arith, sql_update_by_key-modify_first k f xs j b e d.1)
    ]
  ]

  find_index_matches :
      (k : String) (xs : List A) (i : ℕ) (a : A)
      → find_index (has_id k) xs ≡ some (i, a)
      → id_of a ≡ k
  unfolding find_index
  find_index_matches k [] i a h = cc
  find_index_matches k (x ∷ xs) i a h = elim (Bool-cases (id_of x == k)) [
    | inl hit ↦ ground (arith, ==→≡ (id_of x) k hit)
    | inr miss ↦ elim (Option-cases (find_index (has_id k) xs)) [
      | inl nowhere ↦ ground arith
      | inr ((j, b), e) ↦ ground (arith, find_index_matches k xs j b e)
    ]
  ]

  -- Where the identifiers of the records in memory are distinct, an update by identifier keeps the
  -- rows on disk equal to the records in memory, for SQLite and for JSON.
  pub update-IsSynced :
      (k : String) (f : A → A) (s : DurableStore A)
      → HasDisk keyed s
      → IsDistinct s.records
      → IsSynced keyed s
      → IsSynced keyed (update keyed (has_id k) f s)
  unfolding update commit_update
  update-IsSynced k f s (inl b) d h = elim (Option-cases (find_index (has_id k) s.records)) [
    | inl absent ↦ ground arith
    | inr ((i, a), e) ↦ ground (
      arith,
      set-eq-modify_first (has_id k) f s.records i a e,
      sql_update_by_key-modify_first k f s.records i a e d,
      find_index_matches k s.records i a e,
    )
  ]
  update-IsSynced k f s (inr b) d h = ground arith

  find_index-modify_first :
      (j k : String) (f : A → A) (xs : List A)
      → ((a : A) → id_of (f a) ≡ id_of a)
      → find_index (has_id j) xs ≡ none
      → find_index (has_id j) (modify_first (has_id k) f xs) ≡ none
  unfolding find_index modify_first
  find_index-modify_first j k f [] keep h = refl
  find_index-modify_first j k f (x ∷ xs) keep h =
      ground (arith, keep x, find_index-modify_first j k f xs keep)

  -- A change that leaves the identifier alone keeps identifiers distinct.
  pub modify_first-IsDistinct :
      (k : String) (f : A → A) (xs : List A)
      → ((a : A) → id_of (f a) ≡ id_of a)
      → IsDistinct xs
      → IsDistinct (modify_first (has_id k) f xs)
  unfolding modify_first
  modify_first-IsDistinct k f [] keep d = tt
  modify_first-IsDistinct k f (x ∷ xs) keep d = elim (Bool-cases (id_of x == k)) [
    | inl hit ↦ rw (hit, keep x) d
    | inr miss ↦
        rw miss (
          find_index-modify_first (id_of x) k f xs keep d.0,
          modify_first-IsDistinct k f xs keep d.1,
        )
  ]
