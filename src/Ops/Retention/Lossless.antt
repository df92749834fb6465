-- ===== src/Ops/Retention/Lossless.antt =====
-- Where ops/retention.py leaves the records of a store.
use rmt_platform.Prelude.{
  ℕ, ◌+◌, ◌≤◌, ◌<◌, Bool, List, [], ◌∷◌, ◌++◌, ◌≡◌, refl, ap, ◌∙◌, arith, if◌then◌else◌, All,
  Bool-cases, inl, inr, if_true, if_false,
}
use rmt_platform.Durable.{DurableStore, Schema, replace_records}
use rmt_platform.Ops.Retention.{
  Archived, ArchiveResult, is_in_memory, older_than, split, write_archive, replace_kept,
  archive_store, move,
}

module _ {A : Type 0} where
  -- How many records of a list pass a test.
  abbrev pub count : (A → Bool) → List A → ℕ
  count p [] = 0
  count p (x ∷ xs) = (if p x then 1 else 0) + count p xs

  count-append : (p : A → Bool) (xs ys : List A) → count p (xs ++ ys) ≡ count p xs + count p ys
  count-append p [] ys = omega arith
  count-append p (x ∷ xs) ys = ground (arith, count-append p xs ys)

  -- The records of a store and of its archive, by a test.
  abbrev pub total : (A → Bool) → Archived A → ℕ
  total p s = count p s.lines + count p s.store.records

module _ {A : Type 0} (schema : Schema A) (cutoff : ℕ) where
  count-split :
      (p : A → Bool) (rs : List A)
      → count p (split schema cutoff rs).1 + count p (split schema cutoff rs).0 ≡ count p rs
  unfolding split
  count-split p [] = omega arith
  count-split p (r ∷ rs) = elim (Bool-cases (older_than schema cutoff r)) [
    | inl old ↦ rw old (ground (arith, count-split p rs))
    | inr new ↦ rw new (ground (arith, count-split p rs))
  ]

  -- No record of the list was created before the cutoff, or every one was.
  abbrev pub AllRecent : List A → Type 0
  AllRecent = All (λ r. cutoff ≤ schema.created_at_of r)

  abbrev pub AllOld : List A → Type 0
  AllOld = All (λ r. schema.created_at_of r < cutoff)

  records-replace :
      (new : List A) (s : DurableStore A) → (replace_records schema new s).records ≡ new
  unfolding replace_records
  records-replace new s = ground arith

  -- What is moved to the archive is what is not kept.
  total-move :
      (p : A → Bool) (keep archive : List A) (s : Archived A)
      → count p archive + count p keep ≡ count p s.store.records
      → total p (move schema keep archive s).1 ≡ total p s
  unfolding move write_archive replace_kept
  total-move p keep [] s h = refl
  total-move p keep (r ∷ rs) s h =
      rw (records-replace keep s.store, count-append p s.lines (r ∷ rs)) (omega (arith, h))

  -- For every test, as many records pass it in the store and its archive together after a run as
  -- before it: no record is lost, invented or duplicated.
  pub archive-total :
      (p : A → Bool) (s : Archived A) → total p (archive_store schema cutoff s).1 ≡ total p s
  unfolding archive_store
  archive-total p s = elim (Bool-cases (is_in_memory s.store.backend)) [
    | inl memory ↦
        ap (λ (r : ArchiveResult × Archived A). total p r.1)
          (if_true (is_in_memory s.store.backend) _ _ memory)
    | inr disk ↦
        ap (λ (r : ArchiveResult × Archived A). total p r.1)
          (if_false (is_in_memory s.store.backend) _ _ disk)
        ∙ total-move p (split schema cutoff s.store.records).0
            (split schema cutoff s.store.records).1 s (count-split p s.store.records)
  ]

  -- The store keeps recent records, and old ones follow the lines of the archive.
  abbrev pub IsArchived : Archived A → Archived A → Type 0
  IsArchived s s' =
      AllRecent s'.store.records × (moved : List A) × (s'.lines ≡ s.lines ++ moved) × AllOld moved
