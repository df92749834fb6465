-- ===== src/Durable/Lookup.antt =====
-- What the loops of the subclasses of durable_store.py find after a save or a change.
use rmt_platform.Prelude.{
  ℕ, String, ◌≡◌, refl, Bool, true, false, none, some, List, [], ◌∷◌, ◌++◌, arith, ◌==◌, string_eq,
  ==→≡, Bool-cases, inl, inr, map,
}
use rmt_platform.Durable.{DurableStore, Schema, find, modify_first, save}
use rmt_platform.Durable.Sync.{has_id}

module _ {A : Type 0} where
  pub records-save :
      (schema : Schema A) (r : A) (s : DurableStore A)
      → (save schema r s).records ≡ s.records ++ r ∷ []
  unfolding save
  records-save schema r s = ground arith

  pub backend-save :
      (schema : Schema A) (r : A) (s : DurableStore A) → (save schema r s).backend ≡ s.backend
  unfolding save
  backend-save schema r s = ground arith

  pub find-append :
      (p : A → Bool) (xs : List A) (x : A)
      → find p xs ≡ none
      → p x ≡ true
      → find p (xs ++ x ∷ []) ≡ some x
  unfolding find
  find-append p [] x h hx = rw hx
  find-append p (y ∷ xs) x h hx = ground (arith, find-append p xs x)

  pub find-append_old :
      (p : A → Bool) (xs : List A) (x a : A) → find p xs ≡ some a → find p (xs ++ x ∷ []) ≡ some a
  unfolding find
  find-append_old p [] x a h = cc
  find-append_old p (y ∷ xs) x a h = ground (arith, find-append_old p xs x a)

  -- A saved record whose identifier is new is found.
  pub find-save :
      (schema : Schema A) (p : A → Bool) (r : A) (s : DurableStore A)
      → find p s.records ≡ none
      → p r ≡ true
      → find p (save schema r s).records ≡ some r
  find-save schema p r s fresh hit = rw records-save (find-append p s.records r fresh hit)

module _ {A : Type 0} (id_of : A → String) (created : A → ℕ) where
  -- A change to the record with an identifier, which it keeps, is what is found under it.
  pub find-modify_first_self :
      (k : String) (f : A → A) (xs : List A) (a : A)
      → ((x : A) → id_of (f x) ≡ id_of x)
      → find (has_id id_of created k) xs ≡ some a
      → find (has_id id_of created k) (modify_first (has_id id_of created k) f xs) ≡ some (f a)
  unfolding find modify_first
  find-modify_first_self k f [] a keep h = cc
  find-modify_first_self k f (x ∷ xs) a keep h =
      ground (arith, keep x, find-modify_first_self k f xs a keep)

  pub find-modify_first_absent :
      (j k : String) (f : A → A) (xs : List A)
      → ((x : A) → id_of (f x) ≡ id_of x)
      → find (has_id id_of created j) xs ≡ none
      → find (has_id id_of created j) (modify_first (has_id id_of created k) f xs) ≡ none
  unfolding find modify_first
  find-modify_first_absent j k f [] keep h = refl
  find-modify_first_absent j k f (x ∷ xs) keep h =
      ground (arith, keep x, find-modify_first_absent j k f xs keep)

  -- The records with other identifiers stay.
  pub find-modify_first_ne :
      (j k : String) (f : A → A) (xs : List A)
      → ((x : A) → id_of (f x) ≡ id_of x)
      → (k == j) ≡ false
      → find (has_id id_of created j) (modify_first (has_id id_of created k) f xs)
        ≡ find (has_id id_of created j) xs
  unfolding find modify_first
  find-modify_first_ne j k f [] keep h = refl
  find-modify_first_ne j k f (x ∷ xs) keep h = ground (
    arith,
    keep x,
    find-modify_first_ne j k f xs keep h,
    string_eq.equals_iff (id_of x) k,
    string_eq.equals_iff (id_of x) j,
    string_eq.equals_iff k j,
  )

  -- A record that is found has the identifier.
  pub find-id :
      (k : String) (xs : List A) (a : A) → find (has_id id_of created k) xs ≡ some a → id_of a ≡ k
  unfolding find
  find-id k [] a h = cc
  find-id k (x ∷ xs) a h = elim (Bool-cases (id_of x == k)) [
    | inl hit ↦ ground (arith, ==→≡ (id_of x) k hit)
    | inr miss ↦ ground (arith, find-id k xs a)
  ]

  -- A change of every record that keeps identifiers changes what is found.
  pub find-map :
      (k : String) (f : A → A) (xs : List A) (a : A)
      → ((x : A) → id_of (f x) ≡ id_of x)
      → find (has_id id_of created k) xs ≡ some a
      → find (has_id id_of created k) (map f xs) ≡ some (f a)
  unfolding find
  find-map k f [] a keep h = cc
  find-map k f (x ∷ xs) a keep h = elim (Bool-cases (id_of x == k)) [
    | inl hit ↦ ground (arith, keep x)
    | inr miss ↦ ground (arith, keep x, find-map k f xs a keep)
  ]
