-- ===== src/Budget/Validate/Assessed.antt =====
-- What a validated mutation has been found to be: the balance after it, and the rows it names.
use rmt_platform.Prelude.{
  ℕ, String, true, Option, none, some, ◌≡◌, refl, sym, ap, ◌∙◌, subst, arith, ◌==◌, string_eq,
  Bool-cases, inl, inr, !=→≡, ==→≡, List, [], ◌∷◌, some_injective, if_true, if_false,
}
use rmt_platform.Prelude.Int.{ℤ, pos, ◌+ℤ◌, ◌-ℤ◌, ◌≤ℤ◌, int_eq, ltb_ℤ}
use rmt_platform.Prelude.Text.{strip}
use rmt_platform.Prelude.Json.{
  Json, null, boolean, natural, negative, text, array, object, other, Fields,
}
use rmt_platform.Prelude.Result.{ok, ok_injective}
use rmt_platform.Prelude.Chain.{bind-elim, then-eq-ok, guard-eq-ok, or_raise-eq-ok}
use rmt_platform.Budget.Models.{
  MutationType, commitment, settlement, cancellation, approved, committed, status_eq,
}
use rmt_platform.Budget.Storage.{
  PurchaseRequest, RequestVersion, DomainDecision, LedgerEntry, Database, fetch_one,
}
use rmt_platform.Budget.Repository.{
  required_text, text_at, required_integer, positive_at, integer_at, request_by_id,
}
use rmt_platform.Budget.Balance.{open_commitment}
use rmt_platform.Budget.Terms.{
  Assessed, is_bound, bound_decision, validate_change, validate_commitment, commitment_of,
  validate_settlement, validate_cancellation, validate_request, validate_terms,
}

-- A required text is the stripped value of its key.
pub required_text-raw :
    (key : String) (found : Option Json) {value : String}
    → required_text key found ≡ ok value
    → (raw : String) × (found ≡ some (text raw)) × (strip raw ≡ value)
unfolding required_text
required_text-raw key (some (text raw)) h = (raw, refl, ground (arith, h))
required_text-raw key none h = cc
required_text-raw key (some null) h = cc
required_text-raw key (some (boolean b)) h = cc
required_text-raw key (some (natural n)) h = cc
required_text-raw key (some (negative n)) h = cc
required_text-raw key (some (array v)) h = cc
required_text-raw key (some (object v)) h = cc
required_text-raw key (some (other b r)) h = cc

-- A required number that is not negative is the number of its key.
pub required_integer-raw :
    (key : String) (found : Option Json) {n : ℕ}
    → required_integer key found ≡ ok (pos n)
    → found ≡ some (natural n)
unfolding required_integer
required_integer-raw key (some (natural n)) h = cc
required_integer-raw key (some (negative n)) h = cc
required_integer-raw key none h = cc
required_integer-raw key (some null) h = cc
required_integer-raw key (some (boolean b)) h = cc
required_integer-raw key (some (text n)) h = cc
required_integer-raw key (some (array v)) h = cc
required_integer-raw key (some (object v)) h = cc
required_integer-raw key (some (other b r)) h = cc

pub positive_at-raw :
    (parameters : Fields) (key : String) {value : ℤ}
    → positive_at parameters key ≡ ok value
    → (integer_at parameters key ≡ ok value) × (ltb_ℤ (pos 0) value ≡ true)
unfolding positive_at
positive_at-raw parameters key h = bind-elim h (λ found given h1.
    let (positive, same) = guard-eq-ok _ h1 in
    subst (λ v. (integer_at parameters key ≡ ok v) × (ltb_ℤ (pos 0) v ≡ true)) (ok_injective same)
      (given, ground (arith, positive)))

-- An adjustment or a correction adds its amount, and leaves the budget at 0 or more.
pub validate_change-after :
    (mutation : MutationType) (budget : String) (before : ℤ) (parameters : Fields) (db : Database)
    → {amount after : ℤ} → validate_change mutation budget before parameters db ≡ ok (amount, after)
    → (after ≡ before +ℤ amount) × (pos 0 ≤ℤ after)
unfolding validate_change
validate_change-after mutation budget before parameters db {amount} {after} h =
    bind-elim h (λ found _ h1.
      let (_, h2) = guard-eq-ok _ h1 in
      let (_, h3) = then-eq-ok h2 in
      let (enough, h4) = guard-eq-ok _ h3 in
      subst (λ r. (r.1 ≡ before +ℤ r.0) × (pos 0 ≤ℤ r.1)) (ok_injective h4)
        (refl, ground (arith, enough)))

-- The request that the parameters name, of the budget and in its current version.
abbrev pub IsNamed : Fields → Database → String → PurchaseRequest → Type 0
IsNamed parameters db budget request =
    (text_at parameters "request_id" ≡ ok request.id)
    × (fetch_one (λ q. q.id == request.id) db.purchase_requests ≡ some request)
    × (request.budget_id ≡ budget)
    × (integer_at parameters "request_version" ≡ ok (pos request.current_version))

fetched-id :
    (rs : List PurchaseRequest) {id : String} {r : PurchaseRequest}
    → fetch_one (λ q. q.id == id) rs ≡ some r
    → id ≡ r.id
unfolding fetch_one
fetched-id [] h = cc
fetched-id (q ∷ rs) {id} {r} h = elim (Bool-cases (q.id == id)) [
  | inl same ↦
      sym (==→≡ q.id id same)
      ∙ ap (λ p. p.id) (some_injective (sym (if_true (q.id == id) _ _ same) ∙ h))
  | inr differs ↦ fetched-id rs (sym (if_false (q.id == id) _ _ differs) ∙ h)
]

pub validate_request-IsNamed :
    (mutation : MutationType) (budget : String) (before : ℤ) (actor : String) (parameters : Fields)
    (digest : Option String) (db : Database)
    → {r : Assessed} → validate_request mutation budget before actor parameters digest db ≡ ok r
    → (request : PurchaseRequest) × (row : RequestVersion) × (amount : ℤ) × IsNamed parameters db
        budget request
      × (ltb_ℤ (pos 0) amount ≡ true)
      × (validate_terms mutation request row request.id amount before actor parameters digest db
          ≡ ok r)
unfolding validate_request request_by_id
validate_request-IsNamed mutation budget before actor parameters digest db {r} h =
    bind-elim h (λ id named h1. bind-elim h1 (λ request found h2.
      let row_of = or_raise-eq-ok _ found in
      let same = fetched-id db.purchase_requests row_of in
      let (mine, h3) = guard-eq-ok _ h2 in
      bind-elim h3 (λ version given h4.
        let (current, h5) = guard-eq-ok _ h4 in
        bind-elim h5 (λ row _ h6. bind-elim h6 (λ amount sized h7. (
          request,
          row,
          amount,
          (
            named ∙ ap ok same,
            subst (λ i. fetch_one (λ q. q.id == i) db.purchase_requests ≡ some request) same row_of,
            !=→≡ request.budget_id budget mine,
            (positive_at-raw parameters "request_version" given).0
                ∙ ap ok (sym (!=→≡ (pos request.current_version) version current)),
          ),
          (positive_at-raw parameters "amount_minor" sized).1,
          subst
              (λ i.
                validate_terms mutation request row i amount before actor parameters digest db
                ≡ ok r)
              same h7,
        ))))))

commitment_of-open :
    (request : PurchaseRequest) (id : String) (db : Database) {entry : LedgerEntry}
    → commitment_of request id db ≡ ok entry
    → (request.status ≡ committed) × (open_commitment id request.current_version db ≡ ok entry)
unfolding commitment_of
commitment_of-open request id db h =
    let (ready, h1) = guard-eq-ok _ h in (!=→≡ request.status committed ready, h1)

bound_decision-found :
    (id : String) (version : ℤ) (actor : String) (digest : Option String)
    (found : Option DomainDecision) {decision : DomainDecision}
    → bound_decision found id version actor digest ≡ ok decision
    → (found ≡ some decision) × (is_bound id version actor digest decision ≡ true)
unfolding bound_decision
bound_decision-found id version actor digest none h = cc
bound_decision-found id version actor digest (some d) h =
    elim (Bool-cases (is_bound id version actor digest d)) [
      | inl binds ↦
          let same = ok_injective (sym (if_true _ _ _ binds) ∙ h) in
          (ap some same, subst (λ e. is_bound id version actor digest e ≡ true) same binds)
      | inr loose ↦ absurd (cc (sym (if_false _ _ _ loose) ∙ h))
    ]

module _ (request : PurchaseRequest) (row : RequestVersion) (id : String) (given before : ℤ)
    (actor : String) (parameters : Fields) (digest : Option String) (db : Database)
    {amount after : ℤ} where
  -- A commitment takes an amount that the budget has.
  pub commitment-after :
      validate_terms commitment request row id given before actor parameters digest db
        ≡ ok (amount, after)
      → (request.status ≡ approved)
        × (after ≡ before -ℤ amount)
        × (amount ≤ℤ before)
        × (decision : DomainDecision) × (is_bound id
              (pos request.current_version)
              actor
              digest
              decision
            ≡ true)
        × (decision_id : String) × (fetch_one (λ d. d.id == decision_id) db.domain_decisions
            ≡ some decision)
  unfolding validate_terms validate_commitment
  commitment-after h =
      let (ready, h1) = guard-eq-ok _ h in
      let (_, h2) = guard-eq-ok _ h1 in
      bind-elim h2 (λ decision_id _ h3. bind-elim h3 (λ decision bound h4.
        bind-elim h4 (λ evidence _ h5.
          let (_, h6) = guard-eq-ok _ h5 in
          let (enough, h7) = guard-eq-ok _ h6 in
          let (found, binds) = bound_decision-found _ _ actor digest _ bound in
          let same = ok_injective h7 in
          (
            !=→≡ request.status approved ready,
            subst (λ r. r.1 ≡ before -ℤ r.0) same refl,
            subst (λ r. r.0 ≤ℤ before) same (ground (arith, enough)),
            decision,
            binds,
            decision_id,
            found,
          ))))

  -- A settlement gives the commitment back and takes no more than it.
  pub settlement-after :
      validate_terms settlement request row id given before actor parameters digest db
        ≡ ok (amount, after)
      → (request.status ≡ committed)
        × (entry : LedgerEntry) × (open_commitment id request.current_version db ≡ ok entry)
        × (after ≡ before +ℤ entry.amount_minor -ℤ amount)
        × (amount ≤ℤ entry.amount_minor)
  unfolding validate_terms validate_settlement
  settlement-after h = bind-elim h (λ entry found h1.
      let (enough, h2) = guard-eq-ok _ h1 in
      let (ready, opened) = commitment_of-open request id db found in
      let same = ok_injective h2 in
      (
        ready,
        entry,
        opened,
        subst (λ r. r.1 ≡ before +ℤ entry.amount_minor -ℤ r.0) same refl,
        subst (λ r. r.0 ≤ℤ entry.amount_minor) same (ground (arith, enough)),
      ))

  -- A cancellation gives the commitment back.
  pub cancellation-after :
      validate_terms cancellation request row id given before actor parameters digest db
        ≡ ok (amount, after)
      → (request.status ≡ committed)
        × (entry : LedgerEntry) × (open_commitment id request.current_version db ≡ ok entry)
        × (after ≡ before +ℤ amount)
        × (amount ≡ entry.amount_minor)
        × (given ≡ amount)
  unfolding validate_terms validate_cancellation
  cancellation-after h = bind-elim h (λ entry found h1.
      let (equal, h2) = guard-eq-ok _ h1 in
      let (ready, opened) = commitment_of-open request id db found in
      let same = ok_injective h2 in
      (
        ready,
        entry,
        opened,
        subst (λ r. r.1 ≡ before +ℤ r.0) same refl,
        subst (λ r. r.0 ≡ entry.amount_minor) same (!=→≡ given entry.amount_minor equal),
        ap (λ r. r.0) same,
      ))
