-- ===== src/Budget/Apply/Kept.antt =====
-- What a validated mutation keeps: the identities of the requests, and a balance of 0 or more.
use rmt_platform.Prelude.{String, Option, ◌≡◌, refl, sym, subst, arith, string_eq, All}
use rmt_platform.Prelude.Int.{ℤ, pos, ◌≤ℤ◌, ◌+ℤ◌, ◌-ℤ◌, integers}
use rmt_platform.Prelude.Json.{Fields}
use rmt_platform.Prelude.Result.{ok, ok_injective}
use rmt_platform.Budget.Models.{
  RequestStatus, MutationType, bootstrap, adjustment, correction, commitment, settlement,
  cancellation, approved, committed, settled, cancelled,
}
use rmt_platform.Budget.Storage.{PurchaseRequest, RequestVersion, Database}
use rmt_platform.Budget.Repository.{Runtime, Call, transition, assign_status}
use rmt_platform.Budget.Balance.{available_minor}
use rmt_platform.Budget.Validate.{Evidence, validate_new}
use rmt_platform.Budget.Terms.{Assessed, validate_terms, assess}
use rmt_platform.Budget.Validate.Assessed.{
  validate_change-after, validate_request-IsNamed, commitment-after, settlement-after,
  cancellation-after,
}
use rmt_platform.Budget.Post.{move_request, or_none}
use rmt_platform.Budget.Apply.Bootstrapped.{books}
use rmt_platform.Budget.Apply.Posted.{transition-moved}
use rmt_platform.Budget.Apply.Named.{validate_entry-parts, validate_bootstrap-parts}
use rmt_platform.Budget.Sound.{IsSound, IsStripped}
use rmt_platform.Budget.Sound.Rows.{IsKept, update-IsKept, update-IsStripped}

-- The requests keep their identities, and identifiers stay stripped.
abbrev pub AreKept : Database → Database → Type 0
AreKept db db' =
    IsKept db.purchase_requests db'.purchase_requests
    × (All IsStripped db.purchase_requests → All IsStripped db'.purchase_requests)

unmoved : (db : Database) {db' : Database} → db ≡ db' → AreKept db db'
unmoved db same = subst (AreKept db) same ((λ key r fetched. (r, fetched, refl)), λ given. given)

transition-kept :
    (call : Call) (id : String) (expected target : RequestStatus) (db : Database) {db' : Database}
    → transition call id expected target db ≡ ok db'
    → AreKept db db'
transition-kept call id expected target db h =
    subst (AreKept db) (transition-moved call id expected target db h).1 (
      update-IsKept (assign_status target call.later) (λ r. refl) id db.purchase_requests,
      update-IsStripped (assign_status target call.later) (λ r. refl) id db.purchase_requests,
    )

-- The move that goes with an entry keeps the requests.
pub move_request-kept :
    (call : Call) (mutation : MutationType) (id : Option String) (db : Database) {db' : Database}
    → move_request call mutation id db ≡ ok db'
    → AreKept db db'
unfolding move_request
move_request-kept call bootstrap id db h = unmoved db (ok_injective h)
move_request-kept call adjustment id db h = unmoved db (ok_injective h)
move_request-kept call correction id db h = unmoved db (ok_injective h)
move_request-kept call commitment id db h =
    transition-kept call (or_none id) approved committed db h
move_request-kept call settlement id db h = transition-kept call (or_none id) committed settled db h
move_request-kept call cancellation id db h =
    transition-kept call (or_none id) committed cancelled db h

taken_less : (i j k : ℤ) → k ≡ i -ℤ j → j ≤ℤ i → pos 0 ≤ℤ k
taken_less i j k h enough = subst (λ n. pos 0 ≤ℤ n) (sym h) (omega integers)

given_back : (i j c k : ℤ) → k ≡ i +ℤ c -ℤ j → j ≤ℤ c → pos 0 ≤ℤ i → pos 0 ≤ℤ k
given_back i j c k h enough had = subst (λ n. pos 0 ≤ℤ n) (sym h) (omega integers)

added : (i j k : ℤ) → k ≡ i +ℤ j → pos 0 ≤ℤ j → pos 0 ≤ℤ i → pos 0 ≤ℤ k
added i j k h more had = subst (λ n. pos 0 ≤ℤ n) (sym h) (omega integers)

no_terms :
    (request : PurchaseRequest) (row : RequestVersion) (id : String) (given before : ℤ)
    (actor : String) (parameters : Fields) (digest : Option String) (db : Database) {r : Assessed}
    → validate_terms bootstrap request row id given before actor parameters digest db ≡ ok r
    → ⊥
unfolding validate_terms
no_terms request row id given before actor parameters digest db h = cc

assess-solvent :
    (mutation : MutationType) (budget : String) (before : ℤ) (actor : String) (parameters : Fields)
    (digest : Option String) (db : Database) {amount after : ℤ}
    → pos 0 ≤ℤ before
    → assess mutation budget before actor parameters digest db ≡ ok (amount, after)
    → pos 0 ≤ℤ after
unfolding assess
assess-solvent adjustment budget before actor parameters digest db had h =
    (validate_change-after adjustment budget before parameters db h).1
assess-solvent correction budget before actor parameters digest db had h =
    (validate_change-after correction budget before parameters db h).1
assess-solvent commitment budget before actor parameters digest db had h =
    let (request, row, given, named, sized, terms) =
      validate_request-IsNamed commitment budget before actor parameters digest db h in
    let (_, expected, enough, _, _, _, _) =
      commitment-after request row request.id given before actor parameters digest db terms in
    taken_less before _ _ expected enough
assess-solvent settlement budget before actor parameters digest db had h =
    let (request, row, given, named, sized, terms) =
      validate_request-IsNamed settlement budget before actor parameters digest db h in
    let (_, c, _, expected, enough) =
      settlement-after request row request.id given before actor parameters digest db terms in
    given_back before _ c.amount_minor _ expected enough had
assess-solvent cancellation budget before actor parameters digest db had h =
    let (request, row, given, named, sized, terms) =
      validate_request-IsNamed cancellation budget before actor parameters digest db h in
    let (_, c, _, expected, _, same) =
      cancellation-after request row request.id given before actor parameters digest db terms in
    added before _ _ expected (subst (λ i. pos 0 ≤ℤ i) same (ground (arith, sized))) had
assess-solvent bootstrap budget before actor parameters digest db had h =
    let (request, row, given, named, sized, terms) =
      validate_request-IsNamed bootstrap budget before actor parameters digest db h in
    absurd (no_terms request row request.id given before actor parameters digest db terms)

-- A validated mutation leaves no budget with less than nothing.
pub new-solvent :
    (rt : Runtime) (call : Call) (mutation : MutationType) (actor currency : String)
    (parameters : Fields) (digest : Option String) (db : Database) {evidence : Evidence}
    → IsSound (books db)
    → validate_new rt call mutation actor currency parameters digest db ≡ ok evidence
    → pos 0 ≤ℤ evidence.available_after
unfolding validate_new available_minor
new-solvent rt call bootstrap actor currency parameters digest db sound h =
    let (amount, positive, same) = validate_bootstrap-parts rt actor currency parameters db h in
    subst (λ e. pos 0 ≤ℤ e.available_after) same positive
new-solvent rt call mutation actor currency parameters digest db sound h =
    let (budget_id, amount, after, assessed, same) =
      validate_entry-parts rt call mutation actor currency parameters digest db h in
    subst (λ e. pos 0 ≤ℤ e.available_after) same
      (assess-solvent mutation budget_id (available_minor budget_id db) actor parameters digest db
        (sound.solvent budget_id) assessed)
