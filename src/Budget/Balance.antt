-- ===== src/Budget/Balance.antt =====
-- budget/repository.py: the available balance of a budget, recomputed from the ledger.
pub mod Sums
pub mod Posting
pub mod Ended
use rmt_platform.Prelude.{
  ℕ, String, Bool, true, false, not, ◌&&◌, ◌||◌, Option, none, some, List, [], ◌∷◌, ◌==◌, string_eq,
  nat_eq, option_eq, if◌then◌else◌, leb,
}
use rmt_platform.Prelude.Int.{ℤ, pos, ◌+ℤ◌, ◌-ℤ◌}
use rmt_platform.Prelude.Result.{Result}
use rmt_platform.Prelude.Chain.{or_raise}
use rmt_platform.Budget.Models.{Failure, budget_error}
use rmt_platform.Budget.Storage.{
  LedgerEntry, EntryType, is_balance_change, Database, fetch_one, exists,
}
use rmt_platform.Budget.Storage.EntryType.{
  allocated, committed_entry, settled_entry, cancelled_entry,
}

abbrev pub is_allocated : EntryType → Bool
is_allocated allocated = true
is_allocated _ = false

abbrev pub is_settled : EntryType → Bool
is_settled settled_entry = true
is_settled _ = false

abbrev pub is_committed : EntryType → Bool
is_committed committed_entry = true
is_committed _ = false

-- `entry_type IN ('settlement', 'cancellation')`
abbrev pub is_terminal : EntryType → Bool
is_terminal settled_entry = true
is_terminal cancelled_entry = true
is_terminal _ = false

-- The test of the rows that `available_minor_at` reads; `available_minor` reads all of them.
abbrev pub Scope : Type 0
Scope = LedgerEntry → Bool

abbrev pub any_time : Scope
any_time e = true

abbrev pub until : ℕ → Scope
until at e = leb e.created_at at

abbrev pub closes : Scope → String → LedgerEntry → Bool
closes scope id t = t.related_entry_id == some id && is_terminal t.entry_type && scope t

-- No terminal entry of the ledger refers to the commitment.
abbrev pub is_open : Scope → List LedgerEntry → LedgerEntry → Bool
is_open scope ledger c = not (exists (closes scope c.id) ledger)

-- `COALESCE(SUM(amount_minor), 0)` over the rows that pass the test.
unfoldable pub sum_of : (LedgerEntry → Bool) → List LedgerEntry → ℤ
sum_of test [] = pos 0
sum_of test (e ∷ es) = let rest = sum_of test es in if test e then e.amount_minor +ℤ rest else rest

abbrev pub of_budget : Scope → (EntryType → Bool) → String → LedgerEntry → Bool
of_budget scope kind budget e = e.budget_id == budget && kind e.entry_type && scope e

unfoldable pub available_in : Scope → String → List LedgerEntry → ℤ
available_in scope budget ledger =
    sum_of (of_budget scope is_allocated budget) ledger
    +ℤ sum_of (of_budget scope is_balance_change budget) ledger
    -ℤ sum_of (of_budget scope is_settled budget) ledger
    -ℤ sum_of (λ c. of_budget scope is_committed budget c && is_open scope ledger c) ledger

unfoldable pub available_minor : String → Database → ℤ
available_minor budget db = available_in any_time budget db.ledger_entries

unfoldable pub available_minor_at : String → ℕ → Database → ℤ
available_minor_at budget at db = available_in (until at) budget db.ledger_entries

abbrev pub is_open_commitment : String → ℕ → List LedgerEntry → LedgerEntry → Bool
is_open_commitment request version ledger c =
    c.request_id == some request
    && c.request_version == some version
    && is_committed c.entry_type
    && is_open any_time ledger c

-- `_open_commitment`
unfoldable pub open_commitment : String → ℕ → Database → Result Failure LedgerEntry
open_commitment request version db =
    or_raise (fetch_one (is_open_commitment request version db.ledger_entries) db.ledger_entries)
      (budget_error "invalid_transition" "Open commitment not found")
