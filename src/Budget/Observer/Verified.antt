-- ===== src/Budget/Observer/Verified.antt =====
-- What a verified outcome of the observer establishes.
use rmt_platform.Prelude.{
  ℕ, String, Bool, true, false, Option, none, some, List, [], ◌∷◌, ◌≡◌, refl, sym, ap, ◌∙◌,
  some_injective, inl, inr, string_eq, ==→≡, All,
}
use rmt_platform.Prelude.Int.{ℤ, int_beq_iff}
use rmt_platform.Prelude.Json.{
  Json, null, boolean, natural, negative, text, array, object, other, Fields, get,
}
use rmt_platform.Prelude.Result.{Result, ok, err, ok_injective, Result-cases}
use rmt_platform.Prelude.Chain.{bind-elim, or_raise-eq-ok}
use rmt_platform.Budget.Models.{Failure, mutation_value, MutationReceipt, verified_success}
use rmt_platform.Budget.Storage.{Database}
use rmt_platform.Budget.Repository.{Runtime, Call, receipt_by_digest}
use rmt_platform.Budget.Balance.{available_minor_at}
use rmt_platform.Budget.Validate.{equals_text}
use rmt_platform.Budget.Observer.{
  integer_value, is_integer, budget_key, observed_balance, equals_optional_text,
  equals_optional_integer, comparisons, mismatches, judge, compare_receipt, observed_or_unknown,
  observe, recorded, record_finding, verify, Finding,
}

-- The receipt, the expectation and the recomputed balance say the same.
abbrev pub IsVerified : Runtime → String → Fields → Database → MutationReceipt → Type 0
IsVerified rt execution_id expected db r =
    (r.execution_id ≡ execution_id)
    × (get "currency" expected ≡ some (text r.currency))
    × (get "mutation_type" expected ≡ some (text (mutation_value r.mutation_type)))
    × (equals_optional_text r.request_id (get "request_id" expected) ≡ true)
    × (equals_optional_integer rt r.request_version (get "request_version" expected) ≡ true)
    × (balance : Json) × (get "expected_available_minor" expected ≡ some balance)
    × (integer_value rt balance ≡ some r.available_minor)
    × (key : Option String) × (budget_key rt (get "budget_id" expected) ≡ ok key)
    × (r.available_minor ≡ observed_balance key r.created_at db)
    × ((budget : String)
        → get "budget_id" expected ≡ some (text budget)
        → r.available_minor ≡ available_minor_at budget r.created_at db)

equals_text-some : (s : String) (value : Json) → equals_text s (some value) ≡ true → value ≡ text s
equals_text-some s (text t) h = ap text (==→≡ t s h)
equals_text-some s null h = cc
equals_text-some s (boolean b) h = cc
equals_text-some s (natural n) h = cc
equals_text-some s (negative n) h = cc
equals_text-some s (array v) h = cc
equals_text-some s (object v) h = cc
equals_text-some s (other b r) h = cc

is_integer-some : (i : ℤ) (o : Option ℤ) → is_integer i o ≡ true → o ≡ some i
is_integer-some i none h = cc
is_integer-some i (some j) h = ap some ((int_beq_iff j i).0 h)

-- The balance of a budget that is given as a text.
text-balance :
    (rt : Runtime) (found : Option Json) (at : ℕ) (db : Database) (i : ℤ) {key : Option String}
    → budget_key rt found ≡ ok key
    → i ≡ observed_balance key at db
    → (budget : String) → found ≡ some (text budget)
    → i ≡ available_minor_at budget at db
unfolding budget_key observed_balance
text-balance rt found at db i bound observed budget given =
    let same = ap (budget_key rt) (sym given) ∙ bound in
    observed ∙ ap (λ k. observed_balance k at db) (sym (ok_injective same))

-- Without a mismatch every comparison agrees.
agreed : (tests : List (Bool × String)) → mismatches tests ≡ [] → All (λ t. t.0 ≡ true) tests
unfolding mismatches
agreed [] h = tt
agreed ((true, name) ∷ rest) h = (refl, agreed rest h)
agreed ((false, name) ∷ rest) h = absurd cc

judged-success :
    (receipt : MutationReceipt) (observed : ℤ) (names : List String)
    → (judge receipt observed names).status ≡ verified_success
    → names ≡ []
unfolding judge
judged-success receipt observed [] h = refl
judged-success receipt observed (name ∷ names) h = absurd cc

compare_receipt-success :
    (rt : Runtime) (execution_id : String) (expected : Fields) (receipt : MutationReceipt)
    (db : Database) {finding : Finding}
    → compare_receipt rt execution_id expected receipt db ≡ ok finding
    → finding.status ≡ verified_success
    → IsVerified rt execution_id expected db receipt
unfolding compare_receipt comparisons
compare_receipt-success rt execution_id expected receipt db h success = bind-elim h (λ key keyed h1.
    bind-elim h1 (λ tests compared h2.
      let observed = observed_balance key receipt.created_at db in
      let clean =
        judged-success receipt observed (mismatches tests)
          (ap (λ f. f.status) (ok_injective h2) ∙ success) in
      bind-elim compared (λ currency has_currency h3. bind-elim h3 (λ mutation has_mutation h4.
        bind-elim h4 (λ balance has_balance h5.
          let (
            same_execution,
            (
              same_currency,
              (same_mutation, (same_request, (same_version, (in_receipt, (recomputed, _))))),
            ),
          ) =
            agreed _ (ap mismatches (ok_injective h5) ∙ clean) in
          let stated =
            is_integer-some receipt.available_minor (integer_value rt balance) in_receipt in
          let seen = is_integer-some observed (integer_value rt balance) recomputed in
          let agrees : receipt.available_minor ≡ observed = some_injective (sym stated ∙ seen) in
          (
            ==→≡ receipt.execution_id execution_id same_execution,
            or_raise-eq-ok _ has_currency
                ∙ ap some (equals_text-some receipt.currency currency same_currency),
            or_raise-eq-ok _ has_mutation
                ∙ ap some (
                    equals_text-some (mutation_value receipt.mutation_type) mutation same_mutation),
            same_request,
            same_version,
            balance,
            or_raise-eq-ok _ has_balance,
            stated,
            key,
            keyed,
            agrees,
            text-balance rt (get "budget_id" expected) receipt.created_at db receipt.available_minor
                keyed agrees,
          ))))))

observed-success :
    (rt : Runtime) (execution_id : String) (expected : Fields) (receipt : MutationReceipt)
    (db : Database)
    → (observed_or_unknown (compare_receipt rt execution_id expected receipt db)).status
      ≡ verified_success
    → IsVerified rt execution_id expected db receipt
observed-success rt execution_id expected receipt db h =
    elim (Result-cases (compare_receipt rt execution_id expected receipt db)) [
      | inl (raised, e) ↦ absurd (cc (sym (ap (λ r. (observed_or_unknown r).status) e) ∙ h))
      | inr (finding, e) ↦
          compare_receipt-success rt execution_id expected receipt db e
            (sym (ap (λ r. (observed_or_unknown r).status) e) ∙ h)
    ]

observe-success :
    (rt : Runtime) (execution_id : String) (expected : Fields) (found : Option MutationReceipt)
    (db : Database)
    → (observe rt execution_id expected found db).status ≡ verified_success
    → (receipt : MutationReceipt) × (found ≡ some receipt)
      × IsVerified rt execution_id expected db receipt
unfolding observe
observe-success rt execution_id expected none db h = absurd cc
observe-success rt execution_id expected (some receipt) db h =
    (receipt, refl, observed-success rt execution_id expected receipt db h)

recorded-success :
    (call : Call) (execution_id digest : String) (expected : Fields) (finding : Finding)
    (kept : Result Failure Database) (db : Database)
    → (recorded call execution_id digest expected finding db kept).0.status ≡ verified_success
    → finding.status ≡ verified_success
unfolding recorded
recorded-success call execution_id digest expected finding (ok db') db h = h
recorded-success call execution_id digest expected finding (err raised) db h = absurd cc

-- When the observer reports verified_success for an instruction, the database has a receipt of it;
-- the receipt, the expectation and the execution agree on the execution, the currency, the kind of
-- mutation, the request and its version; and the balance of the receipt is the integer that the
-- expected balance equals, and the one that the ledger gives, for the moment of the receipt, for
-- what the expected budget is bound to: where that is a text, the budget of this identifier.
pub verify-IsVerified :
    (rt : Runtime) (call : Call) (execution_id digest : String) (expected : Fields) (db : Database)
    → (verify rt call execution_id digest expected db).0.status ≡ verified_success
    → (receipt : MutationReceipt) × (receipt_by_digest digest db ≡ some receipt)
      × IsVerified rt execution_id expected db receipt
unfolding verify record_finding
verify-IsVerified rt call execution_id digest expected db h =
    observe-success rt execution_id expected (receipt_by_digest digest db) db
      (recorded-success call execution_id digest expected _ _ db h)
