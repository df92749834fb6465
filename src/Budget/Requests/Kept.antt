-- ===== src/Budget/Requests/Kept.antt =====
-- The operations on requests keep the invariant of the ledger.
use rmt_platform.Prelude.{String, List, ◌∷◌, ◌≡◌, refl, ap, ◌∙◌, subst, arith, string_eq, All}
use rmt_platform.Prelude.Text.{strip}
use rmt_platform.Prelude.Result.{ok, ok_injective}
use rmt_platform.Prelude.Chain.{bind-elim, guard-eq-ok, then-eq-ok}
use rmt_platform.Budget.Storage.{
  PurchaseRequest, RequestVersion, DomainDecision, Database, insert_request, insert_version,
  insert_decision, update_request,
}
use rmt_platform.Budget.Repository.{Runtime, Call}
use rmt_platform.Budget.Requests.{Proposal, Ruling, insert_draft, insert_next, submit, decide}
use rmt_platform.Budget.Apply.Bootstrapped.{books}
use rmt_platform.Budget.Sound.{IsSound, IsStripped}
use rmt_platform.Budget.Sound.Rows.{
  identity, IsKept, update-IsKept, update-IsStripped, insert-IsKept, kept-IsFiled,
}

-- The invariant does not look at how the rows of a request change, nor at the decisions.
rows-IsSound :
    (db : Database) (requests : List PurchaseRequest) (decisions : List DomainDecision)
    → IsSound (books db)
    → IsKept db.purchase_requests requests
    → All IsStripped requests
    → IsSound (db.budgets, requests, db.ledger_entries, decisions)
rows-IsSound db requests decisions sound kept stripped = record {
  keyed = sound.keyed;
  linked = sound.linked;
  budgeted = sound.budgeted;
  filed = kept-IsFiled db.purchase_requests requests db.ledger_entries kept sound.filed;
  stripped = stripped;
  once = sound.once;
  solvent = sound.solvent;
}

pub insert_version-books :
    (v : RequestVersion) (db : Database) {db' : Database}
    → insert_version v db ≡ ok db'
    → books db ≡ books db'
unfolding insert_version
insert_version-books v db h =
    let (_, h1) = guard-eq-ok _ h in
    let (_, h2) = guard-eq-ok _ h1 in let (_, h3) = guard-eq-ok _ h2 in ap books (ok_injective h3)

pub insert_decision-added :
    (d : DomainDecision) (db : Database) {db' : Database}
    → insert_decision d db ≡ ok db'
    → (db.budgets, db.purchase_requests, db.ledger_entries, d ∷ db.domain_decisions) ≡ books db'
unfolding insert_decision
insert_decision-added d db h =
    let (_, h1) = guard-eq-ok _ h in
    let (_, h2) = guard-eq-ok _ h1 in let (_, h3) = guard-eq-ok _ h2 in ap books (ok_injective h3)

-- A change of one request that keeps its identity keeps the invariant.
change-IsSound :
    (change : PurchaseRequest → PurchaseRequest) (id : String) (db : Database)
    → ((r : PurchaseRequest) → identity (change r) ≡ identity r)
    → IsSound (books db)
    → IsSound (
      db.budgets,
      update_request change id db.purchase_requests,
      db.ledger_entries,
      db.domain_decisions,
    )
change-IsSound change id db tame sound =
    rows-IsSound db _ db.domain_decisions sound (update-IsKept change tame id db.purchase_requests)
      (update-IsStripped change tame id db.purchase_requests sound.stripped)

pub submit-IsSound :
    (call : Call) (actor id : String) (db : Database) {returned : String} {db' : Database}
    → IsSound (books db)
    → submit call actor id db ≡ ok (returned, db')
    → IsSound (books db')
unfolding submit
submit-IsSound call actor id db sound h = bind-elim h (λ request _ h1.
    let (_, h2) = guard-eq-ok _ h1 in
    let (_, h3) = guard-eq-ok _ h2 in
    subst (λ r. IsSound (books r.1)) (ok_injective h3) (change-IsSound _ id db (λ r. refl) sound))

pub decide-IsSound :
    (rt : Runtime) (call : Call) (actor id : String) (r : Ruling) (db : Database)
    → {returned : String} {db' : Database} → IsSound (books db)
    → decide rt call actor id r db ≡ ok (returned, db')
    → IsSound (books db')
unfolding decide
decide-IsSound rt call actor id r db sound h = bind-elim h (λ request _ h1.
    let (_, h2) = then-eq-ok h1 in
    let (_, h3) = guard-eq-ok _ h2 in
    let (_, h4) = guard-eq-ok _ h3 in
    let (_, h5) = guard-eq-ok _ h4 in
    bind-elim h5 (λ db1 inserted h6.
      subst (λ r. IsSound (books r.1)) (ok_injective h6)
        (change-IsSound _ id db1 (λ r. refl)
          (subst IsSound (insert_decision-added _ db inserted)
            (rows-IsSound db _ _ sound (λ key q fetched. (q, fetched, refl)) sound.stripped)))))

pub insert_next-IsSound :
    (rt : Runtime) (call : Call) (actor id : String) (p : Proposal) (db : Database)
    → {returned : String} {db' : Database} → IsSound (books db)
    → insert_next rt call actor id p db ≡ ok (returned, db')
    → IsSound (books db')
unfolding insert_next
insert_next-IsSound rt call actor id p db sound h = bind-elim h (λ request _ h1.
    let (_, h2) = guard-eq-ok _ h1 in
    let (_, h3) = guard-eq-ok _ h2 in
    bind-elim h3 (λ budget _ h4.
      let (_, h5) = guard-eq-ok _ h4 in
      bind-elim h5 (λ db1 inserted h6.
        subst (λ r. IsSound (books r.1)) (ok_injective h6)
          (change-IsSound _ id db1 (λ r. refl)
            (subst IsSound (insert_version-books _ db inserted) sound)))))

pub insert_draft-IsSound :
    (rt : Runtime) (call : Call) (actor budget_id : String) (p : Proposal) (db : Database)
    → {returned : String} {db' : Database} → strip (call.uuid 0) ≡ call.uuid 0
    → IsSound (books db)
    → insert_draft rt call actor budget_id p db ≡ ok (returned, db')
    → IsSound (books db')
unfolding insert_draft insert_request
insert_draft-IsSound rt call actor budget_id p db stripped sound h =
    let (_, h1) = then-eq-ok h in
    bind-elim h1 (λ budget _ h2.
      let (_, h3) = guard-eq-ok _ h2 in
      let (_, h4) = then-eq-ok h3 in
      bind-elim h4 (λ db1 made h5. bind-elim h5 (λ db2 versioned h6.
        let (fresh, made1) = guard-eq-ok _ made in
        let same = ap books (ok_injective made1) ∙ insert_version-books _ db1 versioned in
        subst (λ r. IsSound (books r.1)) (ok_injective h6)
          (subst IsSound same (
            rows-IsSound db _ db.domain_decisions sound
              (insert-IsKept _ db.purchase_requests (ground (arith, fresh)))
              (stripped, sound.stripped))))))
