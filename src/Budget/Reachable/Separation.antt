-- ===== src/Budget/Reachable/Separation.antt =====
-- The separation of duties in every state that the budget database can reach.
use rmt_platform.Prelude.{
  String, Bool, true, false, not, ◌||◌, Option, none, some, List, ◌≡◌, refl, ap, ◌∙◌, subst, arith,
  if◌then◌else◌, ◌==◌, string_eq,
}
use rmt_platform.Prelude.Int.{pos, ltb_ℤ}
use rmt_platform.Prelude.Text.{strip}
use rmt_platform.Prelude.Json.{Fields}
use rmt_platform.Prelude.Result.{Result, ok, err, ok_injective}
use rmt_platform.Prelude.Chain.{bind-elim, guard-eq-ok, then-eq-ok, or_raise-eq-ok}
use rmt_platform.Budget.Models.{Failure, MutationReceipt}
use rmt_platform.Budget.Storage.{
  PurchaseRequest, LedgerEntry, Database, fetch_one, insert_request, update_request,
}
use rmt_platform.Budget.Repository.{Runtime, Call, text_at, receipt_by_digest, request_by_id}
use rmt_platform.Budget.Balance.{is_committed}
use rmt_platform.Budget.Requests.{
  Proposal, Ruling, insert_draft, create_request, insert_next, add_request_version, submit,
  submit_request, decide, save_decision,
}
use rmt_platform.Budget.Requests.Kept.{insert_version-books, insert_decision-added}
use rmt_platform.Budget.Apply.{apply_mutation, apply_keyed, apply_once, apply_under}
use rmt_platform.Budget.Apply.Bootstrapped.{books}
use rmt_platform.Budget.Apply.Posted.{post-IsPosted}
use rmt_platform.Budget.Apply.Applied.{
  transaction-keeps, finish-books, validate_mutation-new, apply_new-parts,
}
use rmt_platform.Budget.Sound.{IsSound, fetch_one-All}
use rmt_platform.Budget.Sound.Rows.{identity, IsKept, update-IsKept, insert-IsKept}
use rmt_platform.Budget.Apart.{IsApart, IsAppliedApart, kept-decided, kept-applied, new-IsApart}
use rmt_platform.Budget.Reachable.{
  empty_database, Step, create_step, version_step, submit_step, decide_step, apply_step,
  IsReachable, start, step, reachable-IsSound,
}

rows-IsApart :
    (db : Database) (requests : List PurchaseRequest)
    → IsApart (books db)
    → IsKept db.purchase_requests requests
    → IsApart (db.budgets, requests, db.ledger_entries, db.domain_decisions)
rows-IsApart db requests separate kept = record {
  applied = kept-applied db.purchase_requests requests db.ledger_entries kept separate.applied;
  decided = kept-decided db.purchase_requests requests db.domain_decisions kept separate.decided;
}

change-IsApart :
    (change : PurchaseRequest → PurchaseRequest) (id : String) (db : Database)
    → ((r : PurchaseRequest) → identity (change r) ≡ identity r)
    → IsApart (books db)
    → IsApart (
      db.budgets,
      update_request change id db.purchase_requests,
      db.ledger_entries,
      db.domain_decisions,
    )
change-IsApart change id db tame separate =
    rows-IsApart db _ separate (update-IsKept change tame id db.purchase_requests)

submit-IsApart :
    (call : Call) (actor id : String) (db : Database) {returned : String} {db' : Database}
    → IsApart (books db)
    → submit call actor id db ≡ ok (returned, db')
    → IsApart (books db')
unfolding submit
submit-IsApart call actor id db separate h = bind-elim h (λ request _ h1.
    let (_, h2) = guard-eq-ok _ h1 in
    let (_, h3) = guard-eq-ok _ h2 in
    subst (λ r. IsApart (books r.1)) (ok_injective h3)
      (change-IsApart _ id db (λ r. refl) separate))

-- The decision that is added is by another than the requester.
decide-IsApart :
    (rt : Runtime) (call : Call) (actor id : String) (r : Ruling) (db : Database)
    → {returned : String} {db' : Database} → IsApart (books db)
    → decide rt call actor id r db ≡ ok (returned, db')
    → IsApart (books db')
unfolding decide request_by_id
decide-IsApart rt call actor id r db separate h = bind-elim h (λ request found h1.
    let (_, h2) = then-eq-ok h1 in
    let (apart, h3) = guard-eq-ok _ h2 in
    let (_, h4) = guard-eq-ok _ h3 in
    let (_, h5) = guard-eq-ok _ h4 in
    bind-elim h5 (λ db1 inserted h6.
      subst (λ r. IsApart (books r.1)) (ok_injective h6)
        (change-IsApart _ id db1 (λ r. refl)
          (subst IsApart (insert_decision-added _ db inserted) (record {
            applied = separate.applied;
            decided = ((λ approval. (request, or_raise-eq-ok _ found, apart)), separate.decided);
          })))))

insert_next-IsApart :
    (rt : Runtime) (call : Call) (actor id : String) (p : Proposal) (db : Database)
    → {returned : String} {db' : Database} → IsApart (books db)
    → insert_next rt call actor id p db ≡ ok (returned, db')
    → IsApart (books db')
unfolding insert_next
insert_next-IsApart rt call actor id p db separate h = bind-elim h (λ request _ h1.
    let (_, h2) = guard-eq-ok _ h1 in
    let (_, h3) = guard-eq-ok _ h2 in
    bind-elim h3 (λ budget _ h4.
      let (_, h5) = guard-eq-ok _ h4 in
      bind-elim h5 (λ db1 inserted h6.
        subst (λ r. IsApart (books r.1)) (ok_injective h6)
          (change-IsApart _ id db1 (λ r. refl)
            (subst IsApart (insert_version-books _ db inserted) separate)))))

insert_draft-IsApart :
    (rt : Runtime) (call : Call) (actor budget_id : String) (p : Proposal) (db : Database)
    → {returned : String} {db' : Database} → IsApart (books db)
    → insert_draft rt call actor budget_id p db ≡ ok (returned, db')
    → IsApart (books db')
unfolding insert_draft insert_request
insert_draft-IsApart rt call actor budget_id p db separate h =
    let (_, h1) = then-eq-ok h in
    bind-elim h1 (λ budget _ h2.
      let (_, h3) = guard-eq-ok _ h2 in
      let (_, h4) = then-eq-ok h3 in
      bind-elim h4 (λ db1 made h5. bind-elim h5 (λ db2 versioned h6.
        let (fresh, made1) = guard-eq-ok _ made in
        let same = ap books (ok_injective made1) ∙ insert_version-books _ db1 versioned in
        subst (λ r. IsApart (books r.1)) (ok_injective h6)
          (subst IsApart same (
            rows-IsApart db _ separate
              (insert-IsKept _ db.purchase_requests (ground (arith, fresh))))))))

apply_under-IsApart :
    (existing : Option MutationReceipt) (rt : Runtime) (call : Call) (key : String)
    (parameters : Fields) (digest execution_id : String) (db : Database) {receipt : MutationReceipt}
    {db' : Database}
    → receipt_by_digest digest db ≡ existing
    → IsSound (books db)
    → IsApart (books db)
    → apply_under existing rt call key parameters digest execution_id db ≡ ok (receipt, db')
    → IsApart (books db')
unfolding apply_under
apply_under-IsApart (some existing) rt call key parameters digest execution_id db known sound
      separate h =
    let (_, h1) = guard-eq-ok _ h in subst (λ r. IsApart (books r.1)) (ok_injective h1) separate
apply_under-IsApart none rt call key parameters digest execution_id db known sound separate h =
    let (evidence, t, posted, validated, written, finished) =
      apply_new-parts rt call key parameters digest execution_id db h in
    let (mutation, actor, currency, acts, fresh) =
      validate_mutation-new rt call parameters digest db known validated in
    subst IsApart (finish-books rt key parameters evidence t posted finished) (
      new-IsApart rt call mutation actor currency parameters (some digest) db sound separate acts
        fresh (post-IsPosted call parameters digest execution_id evidence db written))

apply_keyed-IsApart :
    (key : Result Failure String) (rt : Runtime) (call : Call) (parameters : Fields)
    (digest execution_id : String) (db : Database)
    → IsSound (books db)
    → IsApart (books db)
    → IsApart (books (apply_keyed key rt call parameters digest execution_id db).1)
unfolding apply_keyed apply_once
apply_keyed-IsApart (err raised) rt call parameters digest execution_id db sound separate = separate
apply_keyed-IsApart (ok key) rt call parameters digest execution_id db sound separate =
    transaction-keeps (λ d. IsApart (books d))
      (apply_once rt call key parameters digest execution_id) db separate
      (λ receipt db'.
        apply_under-IsApart (receipt_by_digest digest db) rt call key parameters digest execution_id
          db refl sound separate)

guarded-IsApart :
    {A : Type 0} (test : Bool) (raised : A) (rest : A × Database) (db : Database)
    → IsApart (books db)
    → IsApart (books rest.1)
    → IsApart (books (if test then (raised, db) else rest).1)
guarded-IsApart true raised rest db separate later = separate
guarded-IsApart false raised rest db separate later = later

Step-IsApart :
    (rt : Runtime) {db db' : Database}
    → Step rt db db'
    → IsSound (books db)
    → IsApart (books db)
    → IsApart (books db')
unfolding create_request add_request_version submit_request save_decision apply_mutation
Step-IsApart rt (create_step call actor budget_id p db stripped) sound separate =
    guarded-IsApart (not (ltb_ℤ (pos 0) p.amount_minor)) _ _ db separate (
      guarded-IsApart (strip p.purpose == "") _ _ db separate (
        transaction-keeps (λ d. IsApart (books d)) (insert_draft rt call actor budget_id p) db
          separate (λ id db'. insert_draft-IsApart rt call actor budget_id p db separate)))
Step-IsApart rt (version_step call actor id p db) sound separate =
    guarded-IsApart (not (ltb_ℤ (pos 0) p.amount_minor) || (strip p.purpose == "")) _ _ db separate
      (transaction-keeps (λ d. IsApart (books d)) (insert_next rt call actor id p) db separate
        (λ returned db'. insert_next-IsApart rt call actor id p db separate))
Step-IsApart rt (submit_step call actor id db) sound separate =
    transaction-keeps (λ d. IsApart (books d)) (submit call actor id) db separate
      (λ returned db'. submit-IsApart call actor id db separate)
Step-IsApart rt (decide_step call actor id r db) sound separate =
    transaction-keeps (λ d. IsApart (books d)) (decide rt call actor id r) db separate
      (λ returned db'. decide-IsApart rt call actor id r db separate)
Step-IsApart rt (apply_step call parameters digest execution_id db) sound separate =
    apply_keyed-IsApart (text_at parameters "idempotency_key") rt call parameters digest
      execution_id db sound separate

reachable-IsApart : (rt : Runtime) {db : Database} → IsReachable rt db → IsApart (books db)
unfolding empty_database
reachable-IsApart rt start = record { applied = tt; decided = tt }
reachable-IsApart rt (step before one) =
    Step-IsApart rt one (reachable-IsSound rt before) (reachable-IsApart rt before)

-- In every database that the operations can reach from an empty one, a commitment of funds that the
-- ledger holds is for a request in the database, and its actor is not the requester of it.
pub reachable-apart :
    (rt : Runtime) (db : Database) (id : String) (entry : LedgerEntry)
    → IsReachable rt db
    → fetch_one (λ e. e.id == id) db.ledger_entries ≡ some entry
    → is_committed entry.entry_type ≡ true
    → (request : PurchaseRequest) × (entry.request_id ≡ some request.id)
      × (fetch_one (λ q. q.id == request.id) db.purchase_requests ≡ some request)
      × ((request.requester == entry.actor) ≡ false)
reachable-apart rt db id entry reached found commits =
    fetch_one-All (IsAppliedApart db.purchase_requests) (λ e. e.id == id) db.ledger_entries
      (reachable-IsApart rt reached).applied found commits
