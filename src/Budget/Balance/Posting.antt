-- ===== src/Budget/Balance/Posting.antt =====
-- The balance of a budget when an entry is added to the ledger.
use rmt_platform.Prelude.{
  String, Bool, true, false, not, ◌&&◌, ◌||◌, Option, none, some, List, [], ◌∷◌, ◌≡◌, refl, sym, ap,
  ◌∙◌, inl, inr, Bool-cases, arith, ◌==◌, string_eq, option_eq, option_beq, if◌then◌else◌, ==→≡,
  subst,
}
use rmt_platform.Prelude.Int.{ℤ, pos, ◌+ℤ◌, ◌-ℤ◌, integers}
use rmt_platform.Budget.Storage.{LedgerEntry, EntryType, is_balance_change, fetch_one, exists}
use rmt_platform.Budget.Storage.EntryType.{
  allocated, adjusted, committed_entry, settled_entry, cancelled_entry, corrected_entry,
}
use rmt_platform.Budget.Balance.{
  is_allocated, is_settled, is_committed, is_terminal, any_time, closes, is_open, sum_of, of_budget,
  available_in,
}
use rmt_platform.Budget.Balance.Sums.{IsNew, IsKeyed, sum_of_ext, without, sum_of-without}

-- What an entry alone does to the balance of its budget.
unfoldable pub effect : EntryType → ℤ → ℤ
effect allocated amount = amount
effect adjusted amount = amount
effect corrected_entry amount = amount
effect committed_entry amount = pos 0 -ℤ amount
effect settled_entry amount = pos 0 -ℤ amount
effect cancelled_entry amount = pos 0

-- The entry refers to an older one, if to any.
abbrev pub IsLinkedTo : List LedgerEntry → Option String → Type 0
IsLinkedTo es none = Unit
IsLinkedTo es (some id) = exists (λ e. e.id == id) es ≡ true

abbrev pub IsLinked : List LedgerEntry → Type 0
IsLinked [] = Unit
IsLinked (e ∷ es) = IsLinkedTo es e.related_entry_id × IsLinked es

abbrev open_committed : String → List LedgerEntry → LedgerEntry → Bool
open_committed budget ledger c =
    of_budget any_time is_committed budget c && is_open any_time ledger c

-- The four sums with one more entry of the kind.
posting :
    (kind : EntryType) (same open_ : Bool) (amount i j k l : ℤ)
    → (is_committed kind ≡ true → open_ ≡ true)
    → (if same && is_allocated kind && true then amount +ℤ i else i)
        +ℤ (if same && is_balance_change kind && true then amount +ℤ j else j)
        -ℤ (if same && is_settled kind && true then amount +ℤ k else k)
        -ℤ (if (same && is_committed kind && true) && open_ then amount +ℤ l else l)
      ≡ i +ℤ j -ℤ k -ℤ l +ℤ (if same then effect kind amount else pos 0)
unfolding effect
posting kind false open_ amount i j k l h = omega integers
posting allocated true open_ amount i j k l h = omega integers
posting adjusted true open_ amount i j k l h = omega integers
posting corrected_entry true open_ amount i j k l h = omega integers
posting settled_entry true open_ amount i j k l h = omega integers
posting cancelled_entry true open_ amount i j k l h = omega integers
posting committed_entry true true amount i j k l h = omega integers
posting committed_entry true false amount i j k l h = absurd (ground (arith, h refl))

terminal-committed : (kind : EntryType) → is_terminal kind ≡ true → is_committed kind ≡ true → ⊥
terminal-committed kind h k = ground (arith, h, k)

exists-IsNew :
    (id : String) (es : List LedgerEntry) → IsNew id es → exists (λ e. e.id == id) es ≡ false
unfolding exists
exists-IsNew id [] h = refl
exists-IsNew id (e ∷ es) (h, hs) = rw (h, exists-IsNew id es hs) refl

linked-apart :
    (id : String) (es : List LedgerEntry) (link : Option String)
    → IsNew id es
    → IsLinkedTo es link
    → (link == some id) ≡ false
unfolding option_beq
linked-apart id es none new h = refl
linked-apart id es (some target) new h = elim (Bool-cases (target == id)) [
  | inl same ↦
      let taken = subst (λ i. exists (λ e. e.id == i) es ≡ true) (==→≡ target id same) h in
      absurd (ground (arith, taken, exists-IsNew id es new))
  | inr other ↦ other
]

-- Nothing refers to an identifier that is not taken.
closes_none :
    (id : String) (es : List LedgerEntry)
    → IsNew id es
    → IsLinked es
    → exists (closes any_time id) es ≡ false
unfolding exists
closes_none id [] new linked = refl
closes_none id (e ∷ es) (h, hs) (to, linked) =
    rw (linked-apart id es e.related_entry_id hs to, closes_none id es hs linked) refl

-- Giving an amount back to the balance is taking it out of the open commitments.
release :
    (same : Bool) (i j k l amount own : ℤ)
    → i +ℤ j -ℤ k -ℤ l +ℤ own
      ≡ i +ℤ j -ℤ k -ℤ (if same then amount +ℤ l else l) +ℤ (if same then amount else pos 0) +ℤ own
release true i j k l amount own = omega integers
release false i j k l amount own = omega integers

split_closed :
    (mine equal opened : Bool)
    → (mine && not (equal || opened)) ≡ (not equal && (mine && not opened))
split_closed true true opened = refl
split_closed true false opened = refl
split_closed false true opened = refl
split_closed false false opened = refl

module _ (t : LedgerEntry) (budget : String) (es : List LedgerEntry) where
  -- The sum over the open commitments is taken before the entry's own part is looked at.
  available-posting :
      (is_committed t.entry_type ≡ true → is_open any_time (t ∷ es) t ≡ true)
      → available_in any_time budget (t ∷ es)
        ≡ sum_of (of_budget any_time is_allocated budget) es
          +ℤ sum_of (of_budget any_time is_balance_change budget) es
          -ℤ sum_of (of_budget any_time is_settled budget) es
          -ℤ sum_of (open_committed budget (t ∷ es)) es
          +ℤ (if t.budget_id == budget then effect t.entry_type t.amount_minor else pos 0)
  unfolding available_in sum_of
  available-posting h = posting t.entry_type (t.budget_id == budget) _ t.amount_minor _ _ _ _ h

  closes-other : (id : String) → is_terminal t.entry_type ≡ false → closes any_time id t ≡ false
  closes-other id other = ground (arith, other)

  -- An entry that closes nothing adds its own effect.
  pub available-post :
      is_terminal t.entry_type ≡ false
      → IsNew t.id es
      → IsLinked es
      → available_in any_time budget (t ∷ es)
        ≡ available_in any_time budget es
          +ℤ (if t.budget_id == budget then effect t.entry_type t.amount_minor else pos 0)
  unfolding available_in exists
  available-post other new linked =
      available-posting (λ _. rw (closes-other t.id other, closes_none t.id es new linked) refl)
      ∙ ap
          (λ sum.
            sum_of (of_budget any_time is_allocated budget) es
            +ℤ sum_of (of_budget any_time is_balance_change budget) es
            -ℤ sum_of (of_budget any_time is_settled budget) es
            -ℤ sum
            +ℤ (if t.budget_id == budget then effect t.entry_type t.amount_minor else pos 0))
          (sum_of_ext _ _ es (λ c. rw (closes-other c.id other) refl))

  closes-target :
      (id : String) {target : String}
      → is_terminal t.entry_type ≡ true
      → t.related_entry_id ≡ some target
      → closes any_time id t ≡ (id == target)
  unfolding option_beq
  closes-target id {target} terminal related =
      ap (λ o. (o == some id) && is_terminal t.entry_type && true) related
      ∙ ground (arith, terminal, string_eq.equals_iff id target, string_eq.equals_iff target id)

  abbrev total : ℤ → ℤ
  total sum =
      sum_of (of_budget any_time is_allocated budget) es
      +ℤ sum_of (of_budget any_time is_balance_change budget) es
      -ℤ sum_of (of_budget any_time is_settled budget) es
      -ℤ sum

  abbrev own : ℤ
  own = if t.budget_id == budget then effect t.entry_type t.amount_minor else pos 0

  mine :
      (c : LedgerEntry)
      → is_committed c.entry_type ≡ true
      → is_open any_time es c ≡ true
      → (c.budget_id == budget) ≡ open_committed budget es c
  mine c committed open_ = ground (arith, committed, open_)

  -- An entry that closes an open commitment also gives the commitment back.
  pub available-close :
      (m : LedgerEntry → Bool) {c : LedgerEntry}
      → is_terminal t.entry_type ≡ true
      → t.related_entry_id ≡ some c.id
      → IsKeyed es
      → fetch_one m es ≡ some c
      → is_committed c.entry_type ≡ true
      → is_open any_time es c ≡ true
      → available_in any_time budget (t ∷ es)
        ≡ available_in any_time budget es
          +ℤ (if c.budget_id == budget then c.amount_minor else pos 0)
          +ℤ (if t.budget_id == budget then effect t.entry_type t.amount_minor else pos 0)
  unfolding available_in exists
  available-close m {c} terminal related keyed found committed open_ =
      available-posting (λ h. absurd (terminal-committed t.entry_type terminal h))
      ∙ ap (λ sum. total sum +ℤ own)
          (sum_of_ext _ _ es (λ e.
            ap
              (λ b.
                of_budget any_time is_committed budget e
                && not (b || exists (closes any_time e.id) es))
              (closes-target e.id terminal related)
            ∙ split_closed _ _ _))
      ∙ release (c.budget_id == budget) _ _ _ _ c.amount_minor own
      ∙ ap (λ sum. total sum +ℤ (if c.budget_id == budget then c.amount_minor else pos 0) +ℤ own)
          (ap
              (λ counted.
                let rest = sum_of (without c.id (open_committed budget es)) es in
                if counted then c.amount_minor +ℤ rest else rest)
              (mine c committed open_)
            ∙ sym (sum_of-without m (open_committed budget es) es keyed found))
