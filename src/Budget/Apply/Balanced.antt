-- ===== src/Budget/Apply/Balanced.antt =====
-- The balances after the entry of a mutation is added.
use rmt_platform.Prelude.{
  ℕ, String, Bool, true, false, some, ◌∷◌, ◌≡◌, sym, ap, ◌∙◌, subst, inl, inr, Bool-cases, if_true,
  if_false, arith, if◌then◌else◌, ◌==◌, string_eq, ==→≡,
}
use rmt_platform.Prelude.Int.{ℤ, pos, negsuc, ◌+ℤ◌, integers}
use rmt_platform.Prelude.Json.{text, Fields}
use rmt_platform.Prelude.Result.{ok, ok_injective}
use rmt_platform.Prelude.Chain.{bind-elim}
use rmt_platform.Budget.Storage.{LedgerEntry, Database, fetch_one}
use rmt_platform.Budget.Repository.{Call, text_at}
use rmt_platform.Budget.Balance.{
  available_minor, available_in, any_time, is_terminal, is_open_commitment,
}
use rmt_platform.Budget.Balance.Sums.{IsNew}
use rmt_platform.Budget.Balance.Posting.{effect, available-post, available-close}
use rmt_platform.Budget.Validate.{Evidence, json_of}
use rmt_platform.Budget.Post.{Destination, amount_column, entry_type_of, budget_destination}
use rmt_platform.Budget.Apply.Bootstrapped.{books}
use rmt_platform.Budget.Apply.Posted.{IsPosted}
use rmt_platform.Budget.Sound.{IsSound, fetch_one-holds}

-- The amount that is written is the amount that was read.
pub amount_column-json_of :
    (amount : ℤ) {found : ℤ} → amount_column (json_of amount) ≡ ok found → amount ≡ found
amount_column-json_of (pos n) h = ok_injective h
amount_column-json_of (negsuc n) h = ok_injective h

-- A destination that is a budget of the table writes nothing.
pub budget_destination-kept :
    (budget_id : String) (parameters : Fields) (db : Database) {to : Destination} {db1 : Database}
    → budget_destination (some (text budget_id)) parameters db ≡ ok (to, db1)
    → (budget_id ≡ to.budget_id) × (text_at parameters "actor" ≡ ok to.actor) × (db ≡ db1)
unfolding budget_destination
budget_destination-kept budget_id parameters db h = bind-elim h (λ key given h1.
    bind-elim h1 (λ row _ h2. bind-elim h2 (λ actor acts h3.
      let same = ok_injective h3 in
      (
        ok_injective given ∙ ap (λ r. r.0.budget_id) same,
        acts ∙ ap (λ r. ok r.0.actor) same,
        ap (λ r. r.1) same,
      ))))

pub +ℤ_zero : (i : ℤ) → i +ℤ pos 0 ≡ i
+ℤ_zero i = omega integers

+ℤ_if :
    (test : Bool) (i j k : ℤ)
    → i +ℤ (if test then j else pos 0) +ℤ (if test then k else pos 0)
      ≡ i +ℤ (if test then j +ℤ k else pos 0)
+ℤ_if true i j k = omega integers
+ℤ_if false i j k = omega integers

-- The balances of the budgets, when one of them changes from what it was by an amount.
pub foreseen :
    (mine budget b : String) (balance : String → ℤ) (change : ℤ) {after found : ℤ}
    → mine ≡ budget
    → after ≡ balance budget +ℤ change
    → found ≡ balance b +ℤ (if mine == b then change else pos 0)
    → found ≡ (if mine == b then after else balance b)
foreseen mine budget b balance change {after} {found} same expected h =
    elim (Bool-cases (mine == b)) [
      | inl equal ↦
          h
          ∙ ap (λ i. balance b +ℤ i) (if_true _ _ _ equal)
          ∙ ap (λ k. balance k +ℤ change) (sym (==→≡ mine b equal) ∙ same)
          ∙ sym expected
          ∙ sym (if_true _ _ _ equal)
      | inr differs ↦
          h
          ∙ ap (λ i. balance b +ℤ i) (if_false _ _ _ differs)
          ∙ +ℤ_zero (balance b)
          ∙ sym (if_false _ _ _ differs)
    ]

module _ (call : Call) (parameters : Fields) (evidence : Evidence) (db : Database) (t : LedgerEntry)
    (db' : Database) (b : String) (p : IsPosted call parameters evidence db t db')
    (sound : IsSound (books db)) (kept : p.db1.ledger_entries ≡ db.ledger_entries) where
  here-IsNew : IsNew t.id db.ledger_entries
  here-IsNew = subst (IsNew t.id) kept p.new

  grown : db'.ledger_entries ≡ t ∷ db.ledger_entries
  grown = p.posted ∙ ap (λ es. t ∷ es) kept

  -- An entry that ends no commitment.
  pub balance-post :
      is_terminal (entry_type_of evidence.mutation_type) ≡ false
      → available_minor b db'
        ≡ available_minor b db
          +ℤ (if t.budget_id == b
              then effect (entry_type_of evidence.mutation_type) t.amount_minor
              else pos 0)
  unfolding available_minor
  balance-post plain =
      ap (available_in any_time b) grown
      ∙ available-post t b db.ledger_entries (subst (λ k. is_terminal k ≡ false) (sym p.kind) plain)
          here-IsNew sound.linked
      ∙ ap
          (λ k.
            available_in any_time b db.ledger_entries
            +ℤ (if t.budget_id == b then effect k t.amount_minor else pos 0))
          p.kind

  -- An entry that ends the commitment.
  pub balance-close :
      (c : LedgerEntry) (request : String) (version : ℕ)
      → is_terminal (entry_type_of evidence.mutation_type) ≡ true
      → t.related_entry_id ≡ some c.id
      → fetch_one (is_open_commitment request version db.ledger_entries) db.ledger_entries ≡ some c
      → c.budget_id ≡ t.budget_id
      → available_minor b db'
        ≡ available_minor b db
          +ℤ (if t.budget_id == b
              then c.amount_minor +ℤ effect (entry_type_of evidence.mutation_type) t.amount_minor
              else pos 0)
  unfolding available_minor
  balance-close c request version ends related found same =
      let holds =
        fetch_one-holds (is_open_commitment request version db.ledger_entries) db.ledger_entries
          found in
      ap (available_in any_time b) grown
      ∙ available-close t b db.ledger_entries (is_open_commitment request version db.ledger_entries)
          (subst (λ k. is_terminal k ≡ true) (sym p.kind) ends) related sound.keyed found
          (ground (arith, holds)) (ground (arith, holds))
      ∙ ap
          (λ i.
            available_in any_time b db.ledger_entries
            +ℤ (if i == b then c.amount_minor else pos 0)
            +ℤ (if t.budget_id == b then effect t.entry_type t.amount_minor else pos 0))
          same
      ∙ ap
          (λ k.
            available_in any_time b db.ledger_entries
            +ℤ (if t.budget_id == b then c.amount_minor else pos 0)
            +ℤ (if t.budget_id == b then effect k t.amount_minor else pos 0))
          p.kind
      ∙ +ℤ_if (t.budget_id == b) _ _ _
