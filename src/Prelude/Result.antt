-- ===== src/Prelude/Result.antt =====
-- A call that may raise: its value, or the exception.
use mathlib.Core.Path.{◌≡◌, refl}
use mathlib.Core.Logic.{◌⊎◌, inl, inr}
use mathlib.Core.Bool.{Bool, true, false}
use mathlib.Core.Option.{Option, none, some}

pub data Result {ℓ} (E A : Type ℓ) : Type ℓ where
  err : E → Result E A
  ok : A → Result E A

module _ {ℓ} {E A B : Type ℓ} where
  infixl 5 ◌>>=◌
  abbrev pub ◌>>=◌ : Result E A → (A → Result E B) → Result E B
  err raised >>= next = err raised
  ok returned >>= next = next returned

  -- The parts of a chain that returned.
  pub >>=-eq-ok :
      (next : A → Result E B) (first : Result E A) {last : B}
      → (first >>= next) ≡ ok last
      → (found : A) × (next found ≡ ok last) × (first ≡ ok found)
  >>=-eq-ok next (err raised) h = cc
  >>=-eq-ok next (ok found) h = (found, h, refl)

module _ {E B : Type 0} where
  infixl 5 ◌>>◌
  abbrev pub ◌>>◌ : Result E (Unit {0}) → Result E B → Result E B
  test >> rest = test >>= λ _. rest

module _ {E : Type 0} where
  -- `if test: raise e`
  abbrev pub raise_if : Bool → E → Result E (Unit {0})
  raise_if false raised = ok tt
  raise_if true raised = err raised

  abbrev pub or_raise : {A : Type 0} → Option A → E → Result E A
  or_raise (some found) raised = ok found
  or_raise none raised = err raised

pub ok_injective {ℓ} : {E A : Type ℓ} {a b : A} → ◌≡◌ {A = Result E A} (ok a) (ok b) → a ≡ b
ok_injective h = cc

-- To split on how a call ended and keep the equation.
pub Result-cases {ℓ} :
    {E A : Type ℓ} (r : Result E A) → ((e : E) × (r ≡ err e)) ⊎ ((a : A) × (r ≡ ok a))
Result-cases (err e) = inl (e, refl)
Result-cases (ok a) = inr (a, refl)
