-- ===== src/Budget/Apply/Linked.antt =====
-- Where the entry of a mutation is filed: its budget, its request and the entry that it refers to.
use rmt_platform.Prelude.{
  ℕ, String, Bool, true, Option, some, List, [], ◌∷◌, ◌≡◌, refl, sym, ap, ◌∙◌, subst, inl, inr,
  Bool-cases, if_true, if_false, some_injective, arith, ◌==◌, string_eq, All, ==-refl,
}
use rmt_platform.Prelude.Json.{Fields}
use rmt_platform.Prelude.Result.{ok, ok_injective}
use rmt_platform.Budget.Models.{
  MutationType, bootstrap, adjustment, correction, commitment, settlement, cancellation,
}
use rmt_platform.Budget.Storage.{LedgerEntry, Database, exists, fetch_one}
use rmt_platform.Budget.Repository.{Runtime, Call}
use rmt_platform.Budget.Balance.{available_minor}
use rmt_platform.Budget.Balance.Posting.{IsLinkedTo}
use rmt_platform.Budget.Validate.{Evidence}
use rmt_platform.Budget.Terms.{assess}
use rmt_platform.Budget.Validate.Assessed.{validate_request-IsNamed}
use rmt_platform.Budget.Post.{or_none}
use rmt_platform.Budget.Apply.Bootstrapped.{books}
use rmt_platform.Budget.Apply.Posted.{IsPosted}
use rmt_platform.Budget.Apply.Named.{validate_entry-parts}
use rmt_platform.Budget.Sound.{IsSound, IsBudgeted, IsFiled}
use rmt_platform.Budget.Sound.Rows.{IsBudgeted-insert}
use rmt_platform.Prelude.Json.{Json}
use rmt_platform.Prelude.Chain.{bind-elim, or_raise-eq-ok}
use rmt_platform.Budget.Storage.{Budget, is_request}
use rmt_platform.Budget.Repository.{budget_by_id}
use rmt_platform.Budget.Validate.{validate_entry}
use rmt_platform.Budget.Post.{Destination, budget_destination, destination_of, ended_by, links_of}
use rmt_platform.Budget.Apply.Bootstrapped.{bootstrap_rows-books}
use rmt_platform.Budget.Apply.Balanced.{budget_destination-kept}
use rmt_platform.Budget.Apply.Named.{named-entry, open_commitment-found}
use rmt_platform.Budget.Sound.Rows.{fetch_one-exists}

-- The budget of a destination is in the table.
found-exists :
    (bs : List Budget) (id : String) {b : Budget}
    → fetch_one (λ c. c.id == id) bs ≡ some b
    → exists (λ c. c.id == id) bs ≡ true
found-exists bs id h = fetch_one-exists (λ c. c.id == id) bs h

-- What a destination leaves of the tables, and the budget that it finds or adds.
abbrev pub HasDestination : Database → Destination → Database → Type 0
HasDestination db to db1 =
    (db1.ledger_entries ≡ db.ledger_entries)
    × (db1.purchase_requests ≡ db.purchase_requests)
    × (All (IsBudgeted db.budgets) db.ledger_entries
        → All (IsBudgeted db1.budgets) db.ledger_entries)
    × (exists (λ b. b.id == to.budget_id) db1.budgets ≡ true)
    × (db1.domain_decisions ≡ db.domain_decisions)

budget_destination-HasDestination :
    (key : Option Json) (parameters : Fields) (db : Database) {to : Destination} {db1 : Database}
    → budget_destination key parameters db ≡ ok (to, db1)
    → HasDestination db to db1
unfolding budget_destination budget_by_id
budget_destination-HasDestination key parameters db h = bind-elim h (λ id given h1.
    bind-elim h1 (λ row found h2. bind-elim h2 (λ actor acts h3.
      subst (λ r. HasDestination db r.0 r.1) (ok_injective h3)
        (refl, refl, λ g. g, found-exists db.budgets id (or_raise-eq-ok _ found), refl))))

pub destination_of-HasDestination :
    (call : Call) (mutation : MutationType) (key : Option Json) (currency : String)
    (parameters : Fields) (db : Database) {to : Destination} {db1 : Database}
    → destination_of call mutation key currency parameters db ≡ ok (to, db1)
    → HasDestination db to db1
unfolding destination_of exists
destination_of-HasDestination call bootstrap key currency parameters db {to} {db1} h =
    let (row, id, new, left, _) = bootstrap_rows-books call currency parameters db h in
    (
      ap (λ k. k.2) (sym left),
      ap (λ k. k.1) (sym left),
      (λ g.
          subst (λ bs. All (IsBudgeted bs) db.ledger_entries) (ap (λ k. k.0) left)
            (IsBudgeted-insert row db.budgets db.ledger_entries g)),
      subst (λ bs. exists (λ b. b.id == to.budget_id) bs ≡ true) (ap (λ k. k.0) left)
          (subst (λ i. exists (λ b. b.id == i) (row ∷ db.budgets) ≡ true) id
            (rw (==-refl {A = String} row.id) refl)),
      ap (λ k. k.3) (sym left),
    )
destination_of-HasDestination call adjustment key currency parameters db h =
    budget_destination-HasDestination key parameters db h
destination_of-HasDestination call correction key currency parameters db h =
    budget_destination-HasDestination key parameters db h
destination_of-HasDestination call commitment key currency parameters db h =
    budget_destination-HasDestination key parameters db h
destination_of-HasDestination call settlement key currency parameters db h =
    budget_destination-HasDestination key parameters db h
destination_of-HasDestination call cancellation key currency parameters db h =
    budget_destination-HasDestination key parameters db h

-- A link to a commitment that was found is a link to a row.
fetch_one-linked :
    (m : LedgerEntry → Bool) (es : List LedgerEntry) {e : LedgerEntry}
    → fetch_one m es ≡ some e
    → IsLinkedTo es (some e.id)
unfolding fetch_one exists
fetch_one-linked m [] h = cc
fetch_one-linked m (row ∷ rows) {e} h = elim (Bool-cases (m row)) [
  | inl holds ↦
      subst (λ r. IsLinkedTo (row ∷ rows) (some r.id))
        (some_injective (sym (if_true _ _ _ holds) ∙ h)) (rw (==-refl {A = String} row.id) refl)
  | inr fails ↦
      let later = fetch_one-linked m rows (sym (if_false _ _ _ fails) ∙ h) in ground (arith, later)
]

ended_by-linked :
    (request : Option String) (version : Option ℕ) (db : Database)
    → {links : Option String × Option String} → ended_by request version db ≡ ok links
    → IsLinkedTo db.ledger_entries links.0
unfolding ended_by
ended_by-linked request version db h = bind-elim h (λ n _ h1. bind-elim h1 (λ entry found h2.
    subst (λ l. IsLinkedTo db.ledger_entries l.0) (ok_injective h2)
      (fetch_one-linked _ db.ledger_entries (open_commitment-found (or_none request) n db found))))

pub links_of-linked :
    (mutation : MutationType) (request : Option String) (version : Option ℕ) (parameters : Fields)
    (db : Database) {links : Option String × Option String}
    → links_of mutation request version parameters db ≡ ok links
    → IsLinkedTo db.ledger_entries links.0
unfolding links_of
links_of-linked settlement request version parameters db h = ended_by-linked request version db h
links_of-linked cancellation request version parameters db h = ended_by-linked request version db h
links_of-linked correction request version parameters db h =
    bind-elim h (λ target _ h1. subst (λ l. IsLinkedTo db.ledger_entries l.0) (ok_injective h1) tt)
links_of-linked bootstrap request version parameters db h =
    subst (λ l. IsLinkedTo db.ledger_entries l.0) (ok_injective h) tt
links_of-linked adjustment request version parameters db h =
    subst (λ l. IsLinkedTo db.ledger_entries l.0) (ok_injective h) tt
links_of-linked commitment request version parameters db h =
    subst (λ l. IsLinkedTo db.ledger_entries l.0) (ok_injective h) tt

-- A commitment is filed under the request that its parameters name.
pub commitment-IsFiled :
    (rt : Runtime) (call : Call) (actor currency : String) (parameters : Fields)
    (digest : Option String) (db : Database) {evidence : Evidence} {t : LedgerEntry}
    {db' : Database}
    → IsSound (books db)
    → validate_entry rt call commitment actor currency parameters digest db ≡ ok evidence
    → IsPosted call parameters evidence db t db'
    → IsFiled db.purchase_requests t
unfolding assess destination_of
commitment-IsFiled rt call actor currency parameters digest db {evidence} {t} {db'} sound h p
      is_commitment =
    let (budget_id, amount, after, assessed, same) =
      validate_entry-parts rt call commitment actor currency parameters digest db h in
    let q = subst (λ e. IsPosted call parameters e db t db') (sym same) p in
    let (here, _, on_db) = budget_destination-kept budget_id parameters db q.sent in
    let (request, row, given, named, sized, terms) =
      validate_request-IsNamed commitment budget_id (available_minor budget_id db) actor parameters
        digest db assessed in
    let (to_request, _) =
      named-entry parameters db budget_id request t.request_id t.request_version sound.stripped
        named q.request_given q.version_given
        (subst (λ d. is_request t.request_id d ≡ true) (sym on_db) q.filed) in
    (request, to_request, named.1, named.2 ∙ here ∙ sym q.budget)
