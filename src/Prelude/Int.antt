-- ===== src/Prelude/Int.antt =====
-- Python's integers over the native numbers, by their sign.
use Prim.Native.Nat.{ℕ, suc, ◌+◌, ◌-◌, ◌≤◌, ◌<◌}
use mathlib.Core.Path.{◌≡◌}
use mathlib.Core.Logic.{◌↔◌}
use mathlib.Core.Bool.{Bool, true, false}
use native.Mathlib.Omega.{arith}
use rmt_platform.Prelude.Tests.{ltb, nat_beq, if◌then◌else◌}
use rmt_platform.Prelude.Equality.{HasEquality}

-- `negsuc n` is -(n + 1).
pub data ℤ : Type 0 where
  pos negsuc : ℕ → ℤ

-- How far an integer lies over 0, and how far under it.
abbrev pub over : ℤ → ℕ
over (pos n) = n
over (negsuc n) = 0

abbrev pub under : ℤ → ℕ
under (negsuc n) = suc n
under (pos n) = 0

-- The first number without the second.
abbrev pub difference : ℕ → ℕ → ℤ
difference m n = if ltb m n then negsuc (n - m - 1) else pos (m - n)

infix 50 ◌≤ℤ◌ ◌<ℤ◌
infixl 65 ◌+ℤ◌ ◌-ℤ◌
abbrev pub ◌≤ℤ◌ : ℤ → ℤ → Type 0
i ≤ℤ j = over i + under j ≤ over j + under i

abbrev pub ◌<ℤ◌ : ℤ → ℤ → Type 0
i <ℤ j = over i + under j < over j + under i

abbrev pub ltb_ℤ : ℤ → ℤ → Bool
ltb_ℤ i j = ltb (over i + under j) (over j + under i)

unfoldable pub ◌+ℤ◌ : ℤ → ℤ → ℤ
i +ℤ j = difference (over i + over j) (under i + under j)

unfoldable pub ◌-ℤ◌ : ℤ → ℤ → ℤ
i -ℤ j = difference (over i + under j) (under i + over j)

pub ℤ_ext : (i j : ℤ) → over i + under j ≡ over j + under i → i ≡ j
ℤ_ext i j h = ground arith

pub over-+ℤ : (i j : ℤ) → over (i +ℤ j) + under i + under j ≡ under (i +ℤ j) + over i + over j
unfolding ◌+ℤ◌
over-+ℤ i j = ground arith

pub over--ℤ : (i j : ℤ) → over (i -ℤ j) + under i + over j ≡ under (i -ℤ j) + over i + under j
unfolding ◌-ℤ◌
over--ℤ i j = ground arith

-- Linear arithmetic on integers, for `omega` and `ground`.
pub ruleset integers = (arith, over-+ℤ, over--ℤ, ℤ_ext)

abbrev pub int_beq : ℤ → ℤ → Bool
int_beq (pos m) (pos n) = nat_beq m n
int_beq (negsuc m) (negsuc n) = nat_beq m n
int_beq i j = false

pub int_beq_iff : (i j : ℤ) → (int_beq i j ≡ true) ↔ (i ≡ j)
int_beq_iff (pos m) (pos n) = ground arith
int_beq_iff (pos m) (negsuc n) = ground arith
int_beq_iff (negsuc m) (pos n) = ground arith
int_beq_iff (negsuc m) (negsuc n) = ground arith

instance abbrev pub int_eq : HasEquality ℤ
int_eq = record { equals = int_beq; equals_iff = int_beq_iff }
