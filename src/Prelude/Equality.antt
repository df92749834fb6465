-- ===== src/Prelude/Equality.antt =====
-- Python's `==` on the values that the program compares, as one operator by instances.
use Prim.Native.Nat.{ℕ}
use Prim.Native.String.{String}
use mathlib.Core.Path.{◌≡◌, refl, ap}
use mathlib.Core.Logic.{◌↔◌}
use mathlib.Core.Bool.{Bool, true, false, not, ◌&&◌, ◌||◌}
use mathlib.Core.Option.{Option, none, some}
use mathlib.Core.List.{List, [], ◌∷◌}
use native.Mathlib.Omega.{arith}
use text.Mathlib.Text.{◌==◌ as str_eq}
use text.Mathlib.TextEquality.{eq_iff}
use rmt_platform.Prelude.Tests.{nat_beq, nat_beq_iff}

-- A Boolean test that decides equality.
pub record HasEquality {ℓ} (A : Type ℓ) : Type ℓ where
  pub equals : A → A → Bool
  pub equals_iff : (x y : A) → (equals x y ≡ true) ↔ (x ≡ y)

module _ {ℓ} {A : Type ℓ} ⦃e : HasEquality A⦄ where
  infix 50 ◌==◌ ◌!=◌
  abbrev pub ◌==◌ : A → A → Bool
  x == y = e.equals x y

  abbrev pub ◌!=◌ : A → A → Bool
  x != y = not (e.equals x y)

instance abbrev pub string_eq : HasEquality String
string_eq = record { equals_iff = eq_iff; equals = str_eq }

instance abbrev pub nat_eq : HasEquality ℕ
nat_eq = record { equals_iff = nat_beq_iff; equals = nat_beq }

module _ {ℓ} {A : Type ℓ} ⦃e : HasEquality A⦄ where
  pub ==-refl : (a : A) → (a == a) ≡ true
  ==-refl a = (e.equals_iff a a).1 refl

  pub !=-refl : (a : A) → (a != a) ≡ false
  !=-refl a = ap not (==-refl a)

  pub ==→≡ : (a b : A) → (a == b) ≡ true → a ≡ b
  ==→≡ a b h = (e.equals_iff a b).0 h

  pub !=→≡ : (a b : A) → (a != b) ≡ false → a ≡ b
  !=→≡ a b h = ground (arith, e.equals_iff a b)

  pub ==→≢ : (a b : A) → (a == b) ≡ false → ¬ (a ≡ b)
  ==→≢ a b h = ground (arith, e.equals_iff a b)

  pub ≢→== : (a b : A) → ¬ (a ≡ b) → (a == b) ≡ false
  ≢→== a b h = ground (arith, e.equals_iff a b)

  unfoldable pub option_beq : Option A → Option A → Bool
  option_beq none none = true
  option_beq (some a) (some b) = a == b
  option_beq _ _ = false

  pub option_beq_iff : (a b : Option A) → (option_beq a b ≡ true) ↔ (a ≡ b)
  unfolding option_beq
  option_beq_iff none none = ground arith
  option_beq_iff none (some b) = ground arith
  option_beq_iff (some a) none = ground arith
  option_beq_iff (some a) (some b) = ground (arith, e.equals_iff a b)

  unfoldable pub list_beq : List A → List A → Bool
  list_beq [] [] = true
  list_beq (a ∷ as') (b ∷ bs) = (a == b) && list_beq as' bs
  list_beq _ _ = false

  pub list_beq_iff : (a b : List A) → (list_beq a b ≡ true) ↔ (a ≡ b)
  unfolding list_beq
  list_beq_iff [] [] = ground arith
  list_beq_iff [] (b ∷ bs) = ground arith
  list_beq_iff (a ∷ as') [] = ground arith
  list_beq_iff (a ∷ as') (b ∷ bs) = ground (arith, e.equals_iff a b, list_beq_iff as' bs)

  -- `a in {x, y, …}`
  abbrev pub elem : A → List A → Bool
  elem a [] = false
  elem a (x ∷ xs) = (a == x) || elem a xs

instance abbrev pub option_eq {ℓ} : {A : Type ℓ} ⦃e : HasEquality A⦄ → HasEquality (Option A)
option_eq = record { equals = option_beq; equals_iff = option_beq_iff }

instance abbrev pub list_eq {ℓ} : {A : Type ℓ} ⦃e : HasEquality A⦄ → HasEquality (List A)
list_eq = record { equals = list_beq; equals_iff = list_beq_iff }
