-- ===== src/Budget/Sound.antt =====
-- The invariant of the budget database on which its balances stand.
pub mod Rows
use rmt_platform.Prelude.{
  ℕ, String, Bool, true, false, ◌&&◌, Option, none, some, List, [], ◌∷◌, ◌≡◌, refl, sym, ap, ◌∙◌,
  subst, inl, inr, Bool-cases, if_true, if_false, some_injective, arith, ◌==◌, string_eq, ==→≡, All,
}
use rmt_platform.Prelude.Int.{ℤ, pos, ◌≤ℤ◌, ◌+ℤ◌, ◌-ℤ◌, integers}
use rmt_platform.Prelude.Text.{strip}
use rmt_platform.Budget.Storage.{
  Budget, PurchaseRequest, LedgerEntry, is_balance_change, fetch_one, exists,
}
use rmt_platform.Budget.Balance.{
  is_allocated, is_settled, is_committed, any_time, available_in, sum_of, of_budget, is_open,
}
use rmt_platform.Budget.Balance.Sums.{IsKeyed}
use rmt_platform.Budget.Balance.Posting.{IsLinked}
use rmt_platform.Budget.Balance.Ended.{IsOnce}
use rmt_platform.Budget.Apply.Bootstrapped.{Books}

abbrev pub IsBudgeted : List Budget → LedgerEntry → Type 0
IsBudgeted budgets e = exists (λ b. b.id == e.budget_id) budgets ≡ true

-- The request of a commitment is in the table, and of the commitment's budget.
abbrev pub IsFiled : List PurchaseRequest → LedgerEntry → Type 0
IsFiled requests e =
    is_committed e.entry_type ≡ true
    → (r : PurchaseRequest) × (e.request_id ≡ some r.id)
      × (fetch_one (λ q. q.id == r.id) requests ≡ some r)
      × (r.budget_id ≡ e.budget_id)

abbrev pub IsStripped : PurchaseRequest → Type 0
IsStripped r = strip r.id ≡ r.id

-- Keys are unique, references point to rows, identifiers have no white space around them, no
-- commitment is ended twice, and no budget has less than nothing.
pub record IsSound (b : Books) : Type 0 where
  pub keyed : IsKeyed b.2
  pub linked : IsLinked b.2
  pub budgeted : All (IsBudgeted b.0) b.2
  pub filed : All (IsFiled b.1) b.2
  pub stripped : All IsStripped b.1
  pub once : IsOnce b.2
  pub solvent : (budget : String) → pos 0 ≤ℤ available_in any_time budget b.2

module _ {A : Type 0} (P : A → Type 0) (m : A → Bool) where
  pub fetch_one-All :
      (rows : List A) {found : A} → All P rows → fetch_one m rows ≡ some found → P found
  unfolding fetch_one
  fetch_one-All [] given h = cc
  fetch_one-All (row ∷ rows) (p, ps) h = elim (Bool-cases (m row)) [
    | inl holds ↦ subst P (some_injective (sym (if_true (m row) _ _ holds) ∙ h)) p
    | inr fails ↦ fetch_one-All rows ps (sym (if_false (m row) _ _ fails) ∙ h)
  ]

pub fetch_one-holds :
    {A : Type 0} (m : A → Bool) (rows : List A) {found : A}
    → fetch_one m rows ≡ some found
    → m found ≡ true
unfolding fetch_one
fetch_one-holds m [] h = cc
fetch_one-holds m (row ∷ rows) h = elim (Bool-cases (m row)) [
  | inl holds ↦ subst (λ r. m r ≡ true) (some_injective (sym (if_true (m row) _ _ holds) ∙ h)) holds
  | inr fails ↦ fetch_one-holds m rows (sym (if_false (m row) _ _ fails) ∙ h)
]

-- A request that exists has a stripped identifier.
pub exists-stripped :
    (requests : List PurchaseRequest) (id : String)
    → All IsStripped requests
    → exists (λ r. r.id == id) requests ≡ true
    → strip id ≡ id
unfolding exists
exists-stripped [] id given h = cc
exists-stripped (r ∷ rs) id (p, ps) h = elim (Bool-cases (r.id == id)) [
  | inl same ↦ subst (λ i. strip i ≡ i) (==→≡ r.id id same) p
  | inr differs ↦ exists-stripped rs id ps (ground (arith, h, differs))
]

-- A budget that has no row has no entries.
module _ (budgets : List Budget) (budget : String) where
  foreign :
      (e : LedgerEntry)
      → exists (λ b. b.id == budget) budgets ≡ false
      → IsBudgeted budgets e
      → (e.budget_id == budget) ≡ false
  foreign e new given = elim (Bool-cases (e.budget_id == budget)) [
    | inl same ↦
        let taken =
          subst (λ i. exists (λ b. b.id == i) budgets ≡ true) (==→≡ e.budget_id budget same)
            given in
        absurd (ground (arith, taken, new))
    | inr differs ↦ differs
  ]

  sum_of-foreign :
      (p : LedgerEntry → Bool) (es : List LedgerEntry)
      → ((e : LedgerEntry) → (e.budget_id == budget) ≡ false → p e ≡ false)
      → exists (λ b. b.id == budget) budgets ≡ false
      → All (IsBudgeted budgets) es
      → sum_of p es ≡ pos 0
  unfolding sum_of
  sum_of-foreign p [] apart new given = refl
  sum_of-foreign p (e ∷ es) apart new (g, gs) =
      rw (apart e (foreign e new g), sum_of-foreign p es apart new gs) refl

  pub available-foreign :
      (es : List LedgerEntry)
      → exists (λ b. b.id == budget) budgets ≡ false
      → All (IsBudgeted budgets) es
      → available_in any_time budget es ≡ pos 0
  unfolding available_in ◌+ℤ◌ ◌-ℤ◌
  available-foreign es new given =
      let none_of : (p : LedgerEntry → Bool)
          → ((e : LedgerEntry) → (e.budget_id == budget) ≡ false → p e ≡ false)
          → sum_of p es ≡ pos 0 =
        λ p apart. sum_of-foreign p es apart new given in
      rw
        (
          none_of (of_budget any_time is_allocated budget) (λ e h. ground (arith, h)),
          none_of (of_budget any_time is_balance_change budget) (λ e h. ground (arith, h)),
          none_of (of_budget any_time is_settled budget) (λ e h. ground (arith, h)),
          none_of (λ c. of_budget any_time is_committed budget c && is_open any_time es c)
              (λ e h. ground (arith, h)),
        )
        refl
