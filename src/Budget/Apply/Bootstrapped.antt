-- ===== src/Budget/Apply/Bootstrapped.antt =====
-- What the rows of a bootstrap leave as it was: the requests, the ledger and the decisions, and the
-- budgets but for the new one.
use rmt_platform.Prelude.{
  String, true, false, List, ◌∷◌, ◌≡◌, sym, ap, ◌∙◌, subst, arith, ◌==◌, string_eq,
}
use rmt_platform.Prelude.Json.{Fields}
use rmt_platform.Prelude.Result.{ok, ok_injective}
use rmt_platform.Prelude.Chain.{bind-elim, guard-eq-ok}
use rmt_platform.Budget.Storage.{
  Organization, Budget, RoleAssignment, PurchaseRequest, LedgerEntry, DomainDecision, Database,
  exists, insert_organization, insert_budget, insert_role,
}
use rmt_platform.Budget.Repository.{Call, text_at}
use rmt_platform.Budget.Post.{Destination, bootstrap_rows}

-- The tables that the invariants speak of.
abbrev pub Books : Type 0
Books = List Budget × List PurchaseRequest × List LedgerEntry × List DomainDecision

abbrev pub books : Database → Books
books db = (db.budgets, db.purchase_requests, db.ledger_entries, db.domain_decisions)

insert_organization-books :
    (o : Organization) (db : Database) {db' : Database}
    → insert_organization o db ≡ ok db'
    → books db ≡ books db'
unfolding insert_organization
insert_organization-books o db h =
    let (_, h1) = guard-eq-ok _ h in let (_, h2) = guard-eq-ok _ h1 in ap books (ok_injective h2)

insert_role-books :
    (a : RoleAssignment) (db : Database) {db' : Database}
    → insert_role a db ≡ ok db'
    → books db ≡ books db'
unfolding insert_role
insert_role-books a db h =
    let (_, h1) = guard-eq-ok _ h in let (_, h2) = guard-eq-ok _ h1 in ap books (ok_injective h2)

insert_budget-books :
    (b : Budget) (db : Database) {db' : Database}
    → insert_budget b db ≡ ok db'
    → (exists (λ c. c.id == b.id) db.budgets ≡ false)
      × ((b ∷ db.budgets, db.purchase_requests, db.ledger_entries, db.domain_decisions) ≡ books db')
unfolding insert_budget
insert_budget-books b db h =
    let (new, h1) = guard-eq-ok _ h in
    let (_, h2) = guard-eq-ok _ h1 in
    let (_, h3) = guard-eq-ok _ h2 in
    let (_, h4) = guard-eq-ok _ h3 in (ground (arith, new), ap books (ok_injective h4))

pub bootstrap_rows-books :
    (call : Call) (currency : String) (parameters : Fields) (db : Database)
    → {to : Destination} {db' : Database}
    → bootstrap_rows call currency parameters db ≡ ok (to, db')
    → (b : Budget) × (b.id ≡ to.budget_id)
      × (exists (λ c. c.id == b.id) db.budgets ≡ false)
      × ((b ∷ db.budgets, db.purchase_requests, db.ledger_entries, db.domain_decisions) ≡ books db')
      × (text_at parameters "budget_id" ≡ ok to.budget_id)
unfolding bootstrap_rows
bootstrap_rows-books call currency parameters db h = bind-elim h (λ organization_id _ h1.
    bind-elim h1 (λ budget_id named h2. bind-elim h2 (λ actor _ h3. bind-elim h3 (λ name _ h4.
      bind-elim h4 (λ db1 made h5. bind-elim h5 (λ budget_name _ h6.
        bind-elim h6 (λ owner_type _ h7. bind-elim h7 (λ owner_name _ h8.
          bind-elim h8 (λ period_start _ h9. bind-elim h9 (λ period_end _ h10.
            bind-elim h10 (λ db2 opened h11. bind-elim h11 (λ owner _ h12.
              bind-elim h12 (λ requesting _ h13. bind-elim h13 (λ db3 first h14.
                bind-elim h14 (λ db4 second h15. bind-elim h15 (λ db5 third h16.
                  let budget : Budget = record {
                    id = budget_id;
                    organization_id = organization_id;
                    name = budget_name;
                    owner_type = owner_type;
                    owner_name = owner_name;
                    period_start = period_start;
                    period_end = period_end;
                    currency = currency;
                    is_open = true;
                    created_at = call.now;
                  } in
                  let to_opened = insert_organization-books _ db made in
                  let (new, from_opened) = insert_budget-books _ db1 opened in
                  let last = ok_injective h16 in
                  (
                    budget,
                    ap (λ r. r.0.budget_id) last,
                    subst (λ k. exists (λ c. c.id == budget_id) k.0 ≡ false) (sym to_opened) new,
                    ap (λ k. (budget ∷ k.0, k.1, k.2, k.3)) to_opened
                        ∙ from_opened
                        ∙ insert_role-books _ db2 first
                        ∙ insert_role-books _ db3 second
                        ∙ insert_role-books _ db4 third
                        ∙ ap (λ r. books r.1) last,
                    named ∙ ap (λ r. ok r.0.budget_id) last,
                  )))))))))))))))))
