-- ===== src/Budget/Adapter.antt =====
-- budget/adapter.py: the adapter that applies an authorized instruction, and recovers the receipt
-- of one that had been applied when the call fails. Whether the receipt can be read back after a
-- failure is an argument.
pub mod Truthful
use rmt_platform.Prelude.{
  ℕ, String, Bool, true, false, not, ◌&&◌, Option, none, some, List, [], ◌∷◌, ◌==◌, string_eq,
  if◌then◌else◌, is_some,
}
use rmt_platform.Prelude.Text.{join, falsy}
use rmt_platform.Prelude.Json.{Json, text, Fields, get}
use rmt_platform.Prelude.Result.{Result, err, ok}
use rmt_platform.Budget.Models.{
  governance_domain, mutation_of, Failure, budget_error, exception, MutationReceipt,
  FinancialOutcome, adapter_failed_no_effect, outcome_unknown,
}
use rmt_platform.Budget.Storage.{Database}
use rmt_platform.Budget.Repository.{Runtime, Call, receipt_by_digest}
use rmt_platform.Budget.Apply.{apply_mutation}

-- `MutationType(value)` does not raise.
abbrev is_mutation : Option Json → Bool
is_mutation (some (text value)) = is_some (mutation_of value)
is_mutation _ = false

-- `supports`, of the request's domain, operation, digest and parameters.
unfoldable pub supports : String → String → Option String → Fields → Bool
supports domain operation digest parameters =
    is_mutation (get "mutation_type" parameters)
    && domain == governance_domain
    && operation == "create"
    && not (falsy digest)

-- The result of the adapter, with the parts of its output.
pub record AdapterResult : Type 0 where
  pub status : String
  pub success : Bool
  pub message : String
  pub receipt : Option MutationReceipt
  pub recovered : Bool
  pub financial_outcome : Option FinancialOutcome
  pub error_code : Option String

abbrev completed : String → Bool → MutationReceipt → AdapterResult
completed message recovered receipt = record {
  status = "completed";
  success = true;
  message = message;
  receipt = some receipt;
  recovered = recovered;
  financial_outcome = none;
  error_code = none;
}

abbrev failed : String → FinancialOutcome → Option String → AdapterResult
failed message outcome code = record {
  status = "failed";
  success = false;
  message = message;
  receipt = none;
  recovered = false;
  financial_outcome = some outcome;
  error_code = code;
}

-- `budget_repository.receipt`, where the database can be read.
abbrev pub read_back : Bool → String → Database → Option MutationReceipt
read_back false digest db = none
read_back true digest db = receipt_by_digest digest db

-- `except BudgetError` without a receipt: the absence counts only when it could be read.
abbrev pub absence : Bool → FinancialOutcome
absence true = adapter_failed_no_effect
absence false = outcome_unknown

-- The answer to an exception, by the receipt that was read back.
unfoldable pub recover : Bool → Failure → Option MutationReceipt → AdapterResult
recover readable (budget_error code message) (some receipt) =
    completed "Recovered existing durable Budget mutation receipt" true receipt
recover readable (budget_error code message) none =
    failed (join ("Budget adapter rejected [" ∷ code ∷ "]: " ∷ message ∷ [])) (absence readable)
      (some code)
recover readable (exception name) (some receipt) =
    completed "Recovered committed Budget mutation after ambiguous response" true receipt
recover readable (exception name) none =
    failed (join ("Budget mutation outcome is unknown: " ∷ name ∷ [])) outcome_unknown none

unfoldable pub answered :
    Bool → String → Result Failure MutationReceipt × Database → AdapterResult × Database
answered readable digest (ok receipt, db) =
    (completed "Budget mutation committed atomically" false receipt, db)
answered readable digest (err raised, db) =
    (recover readable raised (read_back readable digest db), db)

-- `execute`
unfoldable pub execute :
    Runtime → Call → Bool → Fields → String → String → Database → AdapterResult × Database
execute rt call readable parameters digest execution_id db =
    answered readable digest (apply_mutation rt call parameters digest execution_id db)
