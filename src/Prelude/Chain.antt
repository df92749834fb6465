-- ===== src/Prelude/Chain.antt =====
-- A chain of calls that may raise, kept closed: a proof takes it apart one call at a time.
use mathlib.Core.Path.{◌≡◌, refl}
use mathlib.Core.Bool.{Bool, true, false}
use mathlib.Core.Option.{Option, none, some}
use rmt_platform.Prelude.Result.{Result, err, ok}

infixl 5 ◌>>=◌ ◌>>◌
unfoldable pub ◌>>=◌ : {E A B : Type 0} → Result E A → (A → Result E B) → Result E B
err raised >>= next = err raised
ok returned >>= next = next returned

unfoldable pub ◌>>◌ : {E B : Type 0} → Result E (Unit {0}) → Result E B → Result E B
err raised >> rest = err raised
ok returned >> rest = rest

-- `if test: raise e`
unfoldable pub raise_if : {E : Type 0} → Bool → E → Result E (Unit {0})
raise_if false raised = ok tt
raise_if true raised = err raised

-- `if value is None: raise e`
unfoldable pub or_raise : {E A : Type 0} → Option A → E → Result E A
or_raise (some found) raised = ok found
or_raise none raised = err raised

module _ {E B : Type 0} where
  -- The parts of a chain that returned.
  pub bind-eq-ok :
      {A : Type 0} {first : Result E A} {next : A → Result E B} {last : B}
      → (first >>= next) ≡ ok last
      → (found : A) × (first ≡ ok found) × (next found ≡ ok last)
  unfolding ◌>>=◌
  bind-eq-ok {first = err raised} h = cc
  bind-eq-ok {first = ok found} h = (found, refl, h)

  pub then-eq-ok :
      {first : Result E (Unit {0})} {rest : Result E B} {last : B}
      → (first >> rest) ≡ ok last
      → (first ≡ ok tt) × (rest ≡ ok last)
  unfolding ◌>>◌
  then-eq-ok {first = err raised} h = cc
  then-eq-ok {first = ok tt} h = (refl, h)

  -- The same for a proof of a goal, in which what the call returned is a variable.
  pub bind-elim :
      {A C : Type 0} {first : Result E A} {next : A → Result E B} {last : B}
      → (first >>= next) ≡ ok last
      → ((found : A) → first ≡ ok found → next found ≡ ok last → C)
      → C
  bind-elim h use_parts =
      let (found, returned, rest) = bind-eq-ok h in use_parts found returned rest

module _ {E : Type 0} (raised : E) where
  pub raise_if-eq-ok : {test : Bool} {u : Unit {0}} → raise_if test raised ≡ ok u → test ≡ false
  unfolding raise_if
  raise_if-eq-ok {test = false} h = refl
  raise_if-eq-ok {test = true} h = cc

  pub guard-eq-ok :
      {B : Type 0} {test : Bool} {rest : Result E B} {last : B}
      → (raise_if test raised >> rest) ≡ ok last
      → (test ≡ false) × (rest ≡ ok last)
  guard-eq-ok h = let (passed, rest) = then-eq-ok h in (raise_if-eq-ok passed, rest)

  pub or_raise-eq-ok :
      {A : Type 0} {o : Option A} {found : A} → or_raise o raised ≡ ok found → o ≡ some found
  unfolding or_raise
  or_raise-eq-ok {o = none} h = cc
  or_raise-eq-ok {o = some a} h = cc
