-- ===== src/Budget/Observer.antt =====
-- budget/observer.py: the comparison of a receipt and the recomputed balance with what was
-- expected, and the row that keeps its outcome.
pub mod Verified
use rmt_platform.Prelude.{
  ℕ, String, Bool, true, false, not, ◌&&◌, ◌||◌, Option, none, some, List, [], ◌∷◌, ◌==◌, ◌!=◌,
  string_eq, nat_eq, if◌then◌else◌,
}
use rmt_platform.Prelude.Int.{ℤ, pos, negsuc, int_beq}
use rmt_platform.Prelude.Text.{join}
use rmt_platform.Prelude.Json.{
  Json, null, boolean, natural, negative, text, array, object, other, Fields, get,
}
use rmt_platform.Prelude.Result.{Result, err, ok}
use rmt_platform.Prelude.Chain.{◌>>=◌, ◌>>◌, raise_if, or_raise}
use rmt_platform.Budget.Models.{
  Failure, budget_error, exception, mutation_value, MutationReceipt, FinancialOutcome,
  verified_success, verification_mismatch, outcome_unknown,
}
use rmt_platform.Budget.Storage.{FinancialVerification, Database, insert_verification, ended}
use rmt_platform.Budget.Repository.{Runtime, Call, receipt_by_digest}
use rmt_platform.Budget.Balance.{available_minor_at}
use rmt_platform.Budget.Validate.{equals_text}

unfoldable pub outcome_value : FinancialOutcome → String
outcome_value FinancialOutcome.blocked_before_execution = "blocked_before_execution"
outcome_value FinancialOutcome.adapter_failed_no_effect = "adapter_failed_no_effect"
outcome_value FinancialOutcome.applied_unverified = "applied_unverified"
outcome_value verified_success = "verified_success"
outcome_value verification_mismatch = "verification_mismatch"
outcome_value outcome_unknown = "outcome_unknown"

-- The integer that a value equals under `==`, if it equals one: a Boolean counts as 0 or 1.
unfoldable pub integer_value : Runtime → Json → Option ℤ
integer_value rt (boolean true) = some (pos 1)
integer_value rt (boolean false) = some (pos 0)
integer_value rt (natural n) = some (pos n)
integer_value rt (negative n) = some (negsuc n)
integer_value rt (other b shown) = rt.integral shown
integer_value rt _ = none

abbrev pub is_integer : ℤ → Option ℤ → Bool
is_integer i none = false
is_integer i (some j) = int_beq j i

-- `value == number`, for the value of a key.
abbrev pub equals_integer : Runtime → ℤ → Option Json → Bool
equals_integer rt i none = false
equals_integer rt i (some value) = is_integer i (integer_value rt value)

-- `value == other` where either may be `None`.
abbrev pub equals_optional_text : Option String → Option Json → Bool
equals_optional_text none none = true
equals_optional_text none (some null) = true
equals_optional_text none (some _) = false
equals_optional_text (some s) value = equals_text s value

abbrev pub equals_optional_integer : Runtime → Option ℕ → Option Json → Bool
equals_optional_integer rt none none = true
equals_optional_integer rt none (some null) = true
equals_optional_integer rt none (some _) = false
equals_optional_integer rt (some n) value = equals_integer rt (pos n) value

-- `expected[key]`
abbrev required : Fields → String → Result Failure Json
required expected key = or_raise (get key expected) (exception "KeyError")

-- Each comparison, with the name of what it compares, in the order of the code.
unfoldable pub comparisons :
    Runtime → String → Fields → MutationReceipt → ℤ → Result Failure (List (Bool × String))
comparisons rt execution_id expected receipt observed = do
  currency ← required expected "currency"
  mutation ← required expected "mutation_type"
  balance ← required expected "expected_available_minor"
  ok (
      (receipt.execution_id == execution_id, "execution identity")
      ∷ (equals_text receipt.currency (some currency), "currency")
      ∷ (equals_text (mutation_value receipt.mutation_type) (some mutation), "mutation type")
      ∷ (equals_optional_text receipt.request_id (get "request_id" expected), "request identity")
      ∷ (
        equals_optional_integer rt receipt.request_version (get "request_version" expected),
        "request version",
      )
      ∷ (equals_integer rt receipt.available_minor (some balance), "receipt balance")
      ∷ (equals_integer rt observed (some balance), "recomputed balance")
      ∷ [])

unfoldable pub mismatches : List (Bool × String) → List String
mismatches [] = []
mismatches ((agrees, name) ∷ rest) =
    let others = mismatches rest in if agrees then others else name ∷ others

-- `", ".join(names)`
unfoldable pub listed : List String → String
listed [] = ""
listed (name ∷ []) = name
listed (name ∷ next ∷ rest) = join (name ∷ ", " ∷ listed (next ∷ rest) ∷ [])

-- What an observation finds.
pub record Finding : Type 0 where
  pub status : FinancialOutcome
  pub reason : String
  pub observed : Option ℤ
  pub ledger_entry_id : Option String

unfoldable pub judge : MutationReceipt → ℤ → List String → Finding
judge receipt observed [] = record {
  status = verified_success;
  reason = "Receipt, ledger linkage, and recomputed balance match";
  observed = some observed;
  ledger_entry_id = some receipt.ledger_entry_id;
}
judge receipt observed (name ∷ names) = record {
  status = verification_mismatch;
  reason = join ("Financial evidence mismatch: " ∷ listed (name ∷ names) ∷ []);
  observed = some observed;
  ledger_entry_id = some receipt.ledger_entry_id;
}

-- `expected["budget_id"]`, as it is bound to the query of the balance.
unfoldable pub budget_key : Runtime → Option Json → Result Failure (Option String)
budget_key rt none = err (exception "KeyError")
budget_key rt (some null) = ok none
budget_key rt (some (text id)) = ok (some id)
budget_key rt (some value) = do id ← rt.bound_text value; ok (some id)

-- `available_minor_at` for what was bound: NULL equals no budget.
unfoldable pub observed_balance : Option String → ℕ → Database → ℤ
observed_balance none at db = pos 0
observed_balance (some id) at db = available_minor_at id at db

unfoldable pub compare_receipt :
    Runtime → String → Fields → MutationReceipt → Database → Result Failure Finding
compare_receipt rt execution_id expected receipt db = do
  budget_id ← budget_key rt (get "budget_id" expected)
  let observed = observed_balance budget_id receipt.created_at db
  tests ← comparisons rt execution_id expected receipt observed
  ok (judge receipt observed (mismatches tests))

abbrev unknown_because : String → Finding
unknown_because reason = record {
  status = outcome_unknown;
  reason = reason;
  observed = none;
  ledger_entry_id = none;
}

-- `type(exc).__name__`
abbrev pub class_name : Failure → String
class_name (budget_error code message) = "BudgetError"
class_name (exception name) = name

-- An observation that raises leaves the outcome unknown.
abbrev pub observed_or_unknown : Result Failure Finding → Finding
observed_or_unknown (ok finding) = finding
observed_or_unknown (err raised) =
    unknown_because (join ("Financial observation unavailable: " ∷ class_name raised ∷ []))

unfoldable pub observe : Runtime → String → Fields → Option MutationReceipt → Database → Finding
observe rt execution_id expected none db = unknown_because "Durable receipt is unavailable"
observe rt execution_id expected (some receipt) db =
    observed_or_unknown (compare_receipt rt execution_id expected receipt db)

-- The dict that `verify` returns.
pub record Verification : Type 0 where
  pub verification_id : Option String
  pub execution_id : String
  pub instruction_digest : String
  pub status : FinancialOutcome
  pub reason : String
  pub expected_available_minor : Option Json
  pub observed_available_minor : Option ℤ
  pub ledger_entry_id : Option String

-- The number of a column; a value that equals no integer is kept as no number, and an array or an
-- object is refused.
abbrev integer_column : Runtime → Option Json → Result Failure (Option ℤ)
integer_column rt none = ok none
integer_column rt (some (array items)) = err (exception "InterfaceError")
integer_column rt (some (object _)) = err (exception "InterfaceError")
integer_column rt (some value) = ok (integer_value rt value)

abbrev verification_row : Call → String → String → Option ℤ → Finding → FinancialVerification
verification_row call execution_id digest balance finding = record {
  id = call.uuid 0;
  execution_id = execution_id;
  instruction_digest = digest;
  status = outcome_value finding.status;
  reason = finding.reason;
  expected_available_minor = balance;
  observed_available_minor = finding.observed;
  ledger_entry_id = finding.ledger_entry_id;
  created_at = call.now;
}

abbrev report : Option String → String → String → Fields → Finding → Verification
report id execution_id digest expected finding = record {
  verification_id = id;
  execution_id = execution_id;
  instruction_digest = digest;
  status = finding.status;
  reason = finding.reason;
  expected_available_minor = get "expected_available_minor" expected;
  observed_available_minor = finding.observed;
  ledger_entry_id = finding.ledger_entry_id;
}

-- What is reported, by whether the row could be kept: a finding that cannot is an unknown outcome.
unfoldable pub recorded :
    Call
    → String
    → String
    → Fields
    → Finding
    → Database
    → Result Failure Database
    → Verification × Database
recorded call execution_id digest expected finding db (ok db') =
    (report (some (call.uuid 0)) execution_id digest expected finding, db')
recorded call execution_id digest expected finding db (err raised) = (
  report none execution_id digest expected (record finding {
    status = outcome_unknown;
    reason = join (
        finding.reason
        ∷ "; verification evidence could not be persisted: "
        ∷ class_name raised
        ∷ []);
  }),
  db,
)

unfoldable pub kept_row :
    Runtime → Call → String → String → Fields → Finding → Database → Result Failure Database
kept_row rt call execution_id digest expected finding db = do
  balance ← integer_column rt (get "expected_available_minor" expected)
  insert_verification (verification_row call execution_id digest balance finding) db

-- `_record`
unfoldable pub record_finding :
    Runtime → Call → String → String → Fields → Finding → Database → Verification × Database
record_finding rt call execution_id digest expected finding db =
    recorded call execution_id digest expected finding db
      (kept_row rt call execution_id digest expected finding db)

unfoldable pub verify :
    Runtime → Call → String → String → Fields → Database → Verification × Database
verify rt call execution_id digest expected db =
    record_finding rt call execution_id digest expected
      (observe rt execution_id expected (receipt_by_digest digest db) db) db
