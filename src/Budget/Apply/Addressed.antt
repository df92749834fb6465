-- ===== src/Budget/Apply/Addressed.antt =====
-- The budget that the entry of a mutation is for.
use rmt_platform.Prelude.{String, Option, some, ◌≡◌, sym, ap, ◌∙◌, subst}
use rmt_platform.Prelude.Int.{ℤ}
use rmt_platform.Prelude.Json.{Fields, text}
use rmt_platform.Prelude.Result.{ok, ok_injective}
use rmt_platform.Prelude.Chain.{bind-elim, guard-eq-ok, then-eq-ok}
use rmt_platform.Budget.Models.{
  MutationType, bootstrap, adjustment, correction, commitment, settlement, cancellation,
}
use rmt_platform.Budget.Storage.{LedgerEntry, Database}
use rmt_platform.Budget.Repository.{Runtime, Call, text_at}
use rmt_platform.Budget.Balance.{available_minor}
use rmt_platform.Budget.Validate.{Evidence, validate_new, validate_entry, entry_evidence}
use rmt_platform.Budget.Post.{Destination, destination_of, budget_destination}
use rmt_platform.Budget.Apply.Bootstrapped.{bootstrap_rows-books}
use rmt_platform.Budget.Apply.Balanced.{budget_destination-kept}
use rmt_platform.Budget.Apply.Named.{validate_bootstrap-parts}
use rmt_platform.Budget.Apply.Posted.{IsPosted}

module _ (rt : Runtime) (call : Call) (mutation : MutationType) (actor currency : String)
    (parameters : Fields) (digest : Option String) (db : Database) where
  validate_entry-named :
      {evidence : Evidence}
      → validate_entry rt call mutation actor currency parameters digest db ≡ ok evidence
      → (budget_id : String) × (amount : ℤ) × (after : ℤ) × (text_at parameters "budget_id"
          ≡ ok budget_id)
        × (entry_evidence rt mutation budget_id currency amount (available_minor budget_id db) after
            ≡ evidence)
  unfolding validate_entry
  validate_entry-named h = bind-elim h (λ budget_id named h1. bind-elim h1 (λ budget _ h2.
      let (_, h3) = guard-eq-ok _ h2 in
      let (_, h4) = then-eq-ok h3 in
      let (_, h5) = then-eq-ok h4 in
      bind-elim h5 (λ found _ h6. (budget_id, found.0, found.1, named, ok_injective h6))))

  -- The entry of a mutation that is no bootstrap.
  entry-addressed :
      (evidence : Evidence) (t : LedgerEntry) (db' : Database)
      → ((id : String) (to : Destination) (db1 : Database)
          → destination_of call mutation (some (text id)) currency parameters db ≡ ok (to, db1)
          → budget_destination (some (text id)) parameters db ≡ ok (to, db1))
      → validate_entry rt call mutation actor currency parameters digest db ≡ ok evidence
      → IsPosted call parameters evidence db t db'
      → text_at parameters "budget_id" ≡ ok t.budget_id
  entry-addressed evidence t db' plain h p =
      let (id, _, _, named, same) = validate_entry-named h in
      let q = subst (λ e. IsPosted call parameters e db t db') (sym same) p in
      let (kept, _, _) = budget_destination-kept id parameters db (plain id q.to q.db1 q.sent) in
      named ∙ ap ok (kept ∙ sym q.budget)

-- The entry is for the budget that the parameters name.
pub new-addressed :
    (rt : Runtime) (call : Call) (mutation : MutationType) (actor currency : String)
    (parameters : Fields) (digest : Option String) (db : Database) (evidence : Evidence)
    (t : LedgerEntry) (db' : Database)
    → validate_new rt call mutation actor currency parameters digest db ≡ ok evidence
    → IsPosted call parameters evidence db t db'
    → text_at parameters "budget_id" ≡ ok t.budget_id
unfolding validate_new destination_of
new-addressed rt call bootstrap actor currency parameters digest db evidence t db' h p =
    let (_, _, same) = validate_bootstrap-parts rt actor currency parameters db h in
    let q = subst (λ e. IsPosted call parameters e db t db') (sym same) p in
    let (_, _, _, _, named) = bootstrap_rows-books call currency parameters db q.sent in
    named ∙ ap ok (sym q.budget)
new-addressed rt call adjustment actor currency parameters digest db evidence t db' h p =
    entry-addressed rt call adjustment actor currency parameters digest db evidence t db'
      (λ id to db1 sent. sent) h p
new-addressed rt call correction actor currency parameters digest db evidence t db' h p =
    entry-addressed rt call correction actor currency parameters digest db evidence t db'
      (λ id to db1 sent. sent) h p
new-addressed rt call commitment actor currency parameters digest db evidence t db' h p =
    entry-addressed rt call commitment actor currency parameters digest db evidence t db'
      (λ id to db1 sent. sent) h p
new-addressed rt call settlement actor currency parameters digest db evidence t db' h p =
    entry-addressed rt call settlement actor currency parameters digest db evidence t db'
      (λ id to db1 sent. sent) h p
new-addressed rt call cancellation actor currency parameters digest db evidence t db' h p =
    entry-addressed rt call cancellation actor currency parameters digest db evidence t db'
      (λ id to db1 sent. sent) h p
