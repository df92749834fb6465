-- ===== src/Budget/Adapter/Truthful.antt =====
-- What the adapter says of its effect is so.
use rmt_platform.Prelude.{String, Bool, true, false, Option, none, some, ◌≡◌, refl, sym, subst}
use rmt_platform.Prelude.Json.{Fields}
use rmt_platform.Prelude.Result.{Result, ok, err}
use rmt_platform.Budget.Models.{
  Failure, budget_error, exception, MutationReceipt, adapter_failed_no_effect,
}
use rmt_platform.Budget.Storage.{Database, ended}
use rmt_platform.Budget.Repository.{Runtime, Call, text_at, receipt_by_digest}
use rmt_platform.Budget.Apply.{apply_mutation, apply_keyed, apply_once, apply_under}
use rmt_platform.Budget.Apply.Once.{apply_under-IsAnswer}
use rmt_platform.Budget.Adapter.{AdapterResult, read_back, recover, answered, execute}

-- What apply_mutation leaves: the database as it was, or a receipt of the instruction.
abbrev IsOutcome : Database → String → Result Failure MutationReceipt × Database → Type 0
IsOutcome db digest (err raised, db') = db' ≡ db
IsOutcome db digest (ok receipt, db') = receipt_by_digest digest db' ≡ some receipt

ended-IsOutcome :
    (db : Database) (digest : String) (r : Result Failure (MutationReceipt × Database))
    → ((receipt : MutationReceipt) (db' : Database)
        → r ≡ ok (receipt, db')
        → receipt_by_digest digest db' ≡ some receipt)
    → IsOutcome db digest (ended db r)
ended-IsOutcome db digest (err raised) known = refl
ended-IsOutcome db digest (ok (receipt, db')) known = known receipt db' refl

apply_keyed-IsOutcome :
    (key : Result Failure String) (rt : Runtime) (call : Call) (parameters : Fields)
    (digest execution_id : String) (db : Database)
    → IsOutcome db digest (apply_keyed key rt call parameters digest execution_id db)
unfolding apply_keyed apply_once
apply_keyed-IsOutcome (err raised) rt call parameters digest execution_id db = refl
apply_keyed-IsOutcome (ok key) rt call parameters digest execution_id db =
    ended-IsOutcome db digest
      (apply_under (receipt_by_digest digest db) rt call key parameters digest execution_id db)
      (λ receipt db' h.
        (apply_under-IsAnswer (receipt_by_digest digest db) rt call key parameters digest
          execution_id db refl h).0)

-- The two claims of a result: no effect, and success.
abbrev pub IsTruthful : Database → String → AdapterResult × Database → Type 0
IsTruthful db digest (result, db') =
    (result.financial_outcome ≡ some adapter_failed_no_effect
      → (db' ≡ db) × (receipt_by_digest digest db ≡ none))
    × (result.success ≡ true
        → (receipt : MutationReceipt) × (result.receipt ≡ some receipt)
          × (receipt_by_digest digest db' ≡ some receipt))

recover-IsTruthful :
    (readable : Bool) (raised : Failure) (db : Database) (digest : String)
    (found : Option MutationReceipt)
    → read_back readable digest db ≡ found
    → IsTruthful db digest (recover readable raised found, db)
unfolding recover
recover-IsTruthful true (budget_error code message) db digest (some r) h =
    ((λ e. absurd cc), λ e. (r, refl, h))
recover-IsTruthful true (budget_error code message) db digest none h =
    ((λ e. (refl, h)), λ e. absurd cc)
recover-IsTruthful true (exception name) db digest (some r) h =
    ((λ e. absurd cc), λ e. (r, refl, h))
recover-IsTruthful true (exception name) db digest none h = ((λ e. absurd cc), λ e. absurd cc)
recover-IsTruthful false raised db digest (some r) h = absurd cc
recover-IsTruthful false (budget_error code message) db digest none h =
    ((λ e. absurd cc), λ e. absurd cc)
recover-IsTruthful false (exception name) db digest none h = ((λ e. absurd cc), λ e. absurd cc)

answered-IsTruthful :
    (readable : Bool) (db : Database) (digest : String)
    (outcome : Result Failure MutationReceipt × Database)
    → IsOutcome db digest outcome
    → IsTruthful db digest (answered readable digest outcome)
unfolding answered
answered-IsTruthful readable db digest (ok receipt, db') known =
    ((λ e. absurd cc), λ e. (receipt, refl, known))
answered-IsTruthful readable db digest (err raised, db') same =
    subst (λ d. IsTruthful db digest (recover readable raised (read_back readable digest d), d))
      (sym same) (recover-IsTruthful readable raised db digest (read_back readable digest db) refl)

-- When the adapter reports that it failed without effect, the database is as before the call and
-- has no receipt of the instruction; when it reports success, it returns the receipt that the
-- database then has for the instruction. This holds whether or not the receipt can be read back.
pub execute-IsTruthful :
    (rt : Runtime) (call : Call) (readable : Bool) (parameters : Fields)
    (digest execution_id : String) (db : Database)
    → IsTruthful db digest (execute rt call readable parameters digest execution_id db)
unfolding execute apply_mutation
execute-IsTruthful rt call readable parameters digest execution_id db =
    answered-IsTruthful readable db digest
      (apply_keyed (text_at parameters "idempotency_key") rt call parameters digest execution_id db)
      (apply_keyed-IsOutcome (text_at parameters "idempotency_key") rt call parameters digest
        execution_id db)
