-- ===== src/Budget/Apply/Posted.antt =====
-- What the writes of a mutation that came through leave in the ledger.
use rmt_platform.Prelude.{
  ℕ, String, true, false, ◌&&◌, Option, List, [], ◌∷◌, ◌≡◌, refl, sym, ap, ◌∙◌, arith, subst, ◌==◌,
  string_eq,
}
use rmt_platform.Prelude.Json.{Fields, get}
use rmt_platform.Prelude.Result.{ok, ok_injective}
use rmt_platform.Prelude.Chain.{bind-elim, guard-eq-ok}
use rmt_platform.Budget.Models.{
  MutationType, bootstrap, adjustment, correction, commitment, settlement, cancellation,
  RequestStatus, approved, committed, settled, cancelled, status_eq,
}
use rmt_platform.Budget.Storage.{
  Budget, LedgerEntry, DomainDecision, Database, exists, insert_entry, is_request, PurchaseRequest,
  update_request,
}
use rmt_platform.Budget.Repository.{Call, transition, assign_status}
use rmt_platform.Budget.Validate.{Evidence}
use rmt_platform.Budget.Post.{
  Destination, destination_of, text_column, version_column, amount_column, links_of, entry_type_of,
  move_request, or_none, post,
}
use rmt_platform.Budget.Balance.Sums.{IsNew}

exists-false-IsNew :
    (id : String) (es : List LedgerEntry) → exists (λ e. e.id == id) es ≡ false → IsNew id es
unfolding exists
exists-false-IsNew id [] h = tt
exists-false-IsNew id (e ∷ es) h = (ground (arith, h), exists-false-IsNew id es (ground (arith, h)))

-- An inserted entry is the newest row; its key is new, and its request is in the table.
pub insert_entry-ok :
    (t : LedgerEntry) (db : Database) {db' : Database}
    → insert_entry t db ≡ ok db'
    → IsNew t.id db.ledger_entries
      × (is_request t.request_id db ≡ true)
      × (record db { ledger_entries = t ∷ db.ledger_entries } ≡ db')
unfolding insert_entry
insert_entry-ok t db h =
    let (new, h1) = guard-eq-ok _ h in
    let (_, h2) = guard-eq-ok _ h1 in
    let (_, h3) = guard-eq-ok _ h2 in
    let (filed, h4) = guard-eq-ok _ h3 in
    let (_, h5) = guard-eq-ok _ h4 in
    let (_, h6) = guard-eq-ok _ h5 in
    (
      exists-false-IsNew t.id db.ledger_entries (ground (arith, new)),
      ground (arith, filed),
      ok_injective h6,
    )

abbrev pub moved : RequestStatus → ℕ → String → List PurchaseRequest → List PurchaseRequest
moved target now id requests = update_request (assign_status target now) id requests

-- A transition needs the expected status and moves the request alone.
pub transition-moved :
    (call : Call) (id : String) (expected target : RequestStatus) (db : Database) {db' : Database}
    → transition call id expected target db ≡ ok db'
    → (exists (λ r. r.id == id && r.status == expected) db.purchase_requests ≡ true)
      × (record db { purchase_requests = moved target call.later id db.purchase_requests } ≡ db')
unfolding transition
transition-moved call id expected target db h =
    let (ready, h1) = guard-eq-ok _ h in (ground (arith, ready), ok_injective h1)

abbrev other_rows : Database → List Budget × List LedgerEntry × List DomainDecision
other_rows db = (db.budgets, db.ledger_entries, db.domain_decisions)

-- The move that goes with an entry leaves the budgets, the ledger and the decisions as they are.
move_request-ledger :
    (call : Call) (mutation : MutationType) (id : Option String) (db : Database) {db' : Database}
    → move_request call mutation id db ≡ ok db'
    → other_rows db' ≡ other_rows db
unfolding move_request
move_request-ledger call bootstrap id db h = ap other_rows (sym (ok_injective h))
move_request-ledger call adjustment id db h = ap other_rows (sym (ok_injective h))
move_request-ledger call correction id db h = ap other_rows (sym (ok_injective h))
move_request-ledger call commitment id db h =
    let same = (transition-moved call (or_none id) approved committed db h).1 in
    ap other_rows (sym same)
move_request-ledger call settlement id db h =
    let same = (transition-moved call (or_none id) committed settled db h).1 in
    ap other_rows (sym same)
move_request-ledger call cancellation id db h =
    let same = (transition-moved call (or_none id) committed cancelled db h).1 in
    ap other_rows (sym same)

abbrev pub with_entry : LedgerEntry → Database → Database
with_entry t db = record db { ledger_entries = t ∷ db.ledger_entries }

-- How the new entry and the tables after it come from the evidence and the parameters.
pub record IsPosted (call : Call) (parameters : Fields) (evidence : Evidence) (db : Database)
    (t : LedgerEntry) (db' : Database) : Type 0 where
  pub to : Destination
  pub db1 : Database
  pub sent :
      destination_of call evidence.mutation_type evidence.budget_id evidence.currency parameters db
      ≡ ok (to, db1)
  pub request_given : text_column (get "request_id" parameters) ≡ ok t.request_id
  pub version_given : version_column (get "request_version" parameters) ≡ ok t.request_version
  pub amount_given : amount_column evidence.amount_minor ≡ ok t.amount_minor
  pub linked :
      links_of evidence.mutation_type t.request_id t.request_version parameters db1
      ≡ ok (t.related_entry_id, t.correction_of)
  pub kind : t.entry_type ≡ entry_type_of evidence.mutation_type
  pub budget : t.budget_id ≡ to.budget_id
  pub actor : t.actor ≡ to.actor
  pub new : IsNew t.id db1.ledger_entries
  pub filed : is_request t.request_id db1 ≡ true
  pub moved_on : move_request call evidence.mutation_type t.request_id (with_entry t db1) ≡ ok db'
  pub budgets_kept : db'.budgets ≡ db1.budgets
  pub decisions_kept : db'.domain_decisions ≡ db1.domain_decisions
  pub posted : db'.ledger_entries ≡ t ∷ db1.ledger_entries

pub post-IsPosted :
    (call : Call) (parameters : Fields) (digest execution_id : String) (evidence : Evidence)
    (db : Database) {t : LedgerEntry} {db' : Database}
    → post call parameters digest execution_id evidence db ≡ ok (t, db')
    → IsPosted call parameters evidence db t db'
unfolding post
post-IsPosted call parameters digest execution_id evidence db {t} {db'} h =
    bind-elim h (λ reached sent h1. bind-elim h1 (λ request_id request_given h2.
      bind-elim h2 (λ version version_given h3. bind-elim h3 (λ amount amount_given h4.
        bind-elim h4 (λ links linked h5. bind-elim h5 (λ db2 inserted h6.
          bind-elim h6 (λ db3 moved_on h7.
            let (new, filed, added) = insert_entry-ok _ reached.1 inserted in
            let kept = move_request-ledger call evidence.mutation_type request_id db2 moved_on in
            subst (λ r. IsPosted call parameters evidence db r.0 r.1) (ok_injective h7)
              (record {
                to = reached.0;
                db1 = reached.1;
                sent = sent;
                request_given = request_given;
                version_given = version_given;
                amount_given = amount_given;
                linked = linked;
                kind = refl;
                budget = refl;
                actor = refl;
                new = new;
                filed = filed;
                moved_on =
                    subst (λ d. move_request call evidence.mutation_type request_id d ≡ ok db3)
                      (sym added) moved_on;
                budgets_kept = ap (λ k. k.0) kept ∙ ap (λ d. d.budgets) (sym added);
                decisions_kept = ap (λ k. k.2) kept ∙ ap (λ d. d.domain_decisions) (sym added);
                posted = ap (λ k. k.1) kept ∙ ap (λ d. d.ledger_entries) (sym added);
              }))))))))
