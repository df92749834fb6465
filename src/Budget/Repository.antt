-- ===== src/Budget/Repository.antt =====
-- budget/repository.py: the readers of a mutation's parameters, the look-ups by key, the roles and
-- the test of the period. What the code takes from Python's tables of Unicode, from its encoders
-- and from the environment is a `Runtime`; what one call reads of clock and UUIDs is a `Call`.
use rmt_platform.Prelude.{
  ℕ, String, Bool, not, ◌&&◌, ◌||◌, Option, none, some, [], ◌∷◌, ◌==◌, string_eq, nat_eq, option_eq,
  if◌then◌else◌,
}
use rmt_platform.Prelude.Int.{ℤ, pos, negsuc, ltb_ℤ}
use rmt_platform.Prelude.Text.{text_length, text_leb, strip, join}
use rmt_platform.Prelude.Json.{Json, natural, negative, text, Fields, get}
use rmt_platform.Prelude.Result.{Result, err, ok}
use rmt_platform.Prelude.Chain.{◌>>=◌, ◌>>◌, raise_if, or_raise}
use rmt_platform.Budget.Models.{
  BudgetRole, role_value, role_eq, RequestStatus, status_eq, Failure, budget_error, MutationType,
  mutation_of, MutationReceipt,
}
use rmt_platform.Budget.Storage.{
  Budget, PurchaseRequest, RequestVersion, Database, fetch_one, exists, update_request,
}

pub record Runtime : Type 0 where
  -- `text.isalpha()` and `text.upper()`
  pub is_alpha : String → Bool
  pub upper : String → String
  -- `repr(text)` and `str(number)`
  pub repr : String → String
  pub decimal : ℤ → String
  -- The integer that the float of this text equals, if it equals one.
  pub integral : String → Option ℤ
  -- The text that sqlite3 and SQLite compare a column of texts with, for a value that is neither a
  -- text nor NULL, or the exception by which it is refused.
  pub bound_text : Json → Result Failure String
  -- SHA-256 of `json.dumps(parameters, sort_keys=True, …)`, of parameters without a NaN, on which
  -- the code raises
  pub content_digest : Fields → String
  -- `os.environ.get("RMT_BUDGET_BOOTSTRAP_PRINCIPAL", "")`
  pub bootstrap_principal : String

-- The clock at the first and at the second reading, the date, and the UUIDs in the order drawn.
pub record Call : Type 0 where
  pub now : ℕ
  pub later : ℕ
  pub today : String
  pub uuid : ℕ → String

-- `_text`, of the value of a key.
unfoldable pub required_text : String → Option Json → Result Failure String
required_text key (some (text value)) =
    if strip value == ""
    then err (budget_error "validation" (join (key ∷ " is required" ∷ [])))
    else ok (strip value)
required_text key _ = err (budget_error "validation" (join (key ∷ " is required" ∷ [])))

abbrev pub text_at : Fields → String → Result Failure String
text_at parameters key = required_text key (get key parameters)

-- `_integer`, of the value of a key.
unfoldable pub required_integer : String → Option Json → Result Failure ℤ
required_integer key (some (natural n)) = ok (pos n)
required_integer key (some (negative n)) = ok (negsuc n)
required_integer key _ =
    err (budget_error "validation" (join (key ∷ " must be an integer minor-unit amount" ∷ [])))

abbrev pub integer_at : Fields → String → Result Failure ℤ
integer_at parameters key = required_integer key (get key parameters)

-- `_positive_int`
unfoldable pub positive_at : Fields → String → Result Failure ℤ
positive_at parameters key = do
  value ← integer_at parameters key
  raise_if (not (ltb_ℤ (pos 0) value))
      (budget_error "validation" (join (key ∷ " must be positive" ∷ [])))
  ok value

unfoldable pub mutation_at : Fields → Result Failure MutationType
mutation_at parameters =
    let unsupported = budget_error "unsupported_operation" "Unsupported Budget mutation" in
    elim (get "mutation_type" parameters) [
      | some (text value) ↦ or_raise (mutation_of value) unsupported
      | _ ↦ err unsupported
    ]

-- `_currency`
unfoldable pub currency_at : Runtime → Fields → Result Failure String
currency_at rt parameters =
    let invalid = budget_error "validation" "currency must be a three-letter ISO-4217 code" in
    elim (get "currency" parameters) [
      | some (text value) ↦
          if (text_length value == 3) && rt.is_alpha value then ok (rt.upper value) else err invalid
      | _ ↦ err invalid
    ]

unfoldable pub request_by_id : String → Database → Result Failure PurchaseRequest
request_by_id id db =
    or_raise (fetch_one (λ r. r.id == id) db.purchase_requests)
      (budget_error "not_found" "Purchase request not found")

unfoldable pub version_of : String → ℕ → Database → Result Failure RequestVersion
version_of id version db =
    or_raise
      (fetch_one (λ v. v.request_id == id && v.version == version) db.purchase_request_versions)
      (budget_error "stale_version" "Purchase request version not found")

unfoldable pub budget_by_id : String → Database → Result Failure Budget
budget_by_id id db =
    or_raise (fetch_one (λ b. b.id == id) db.budgets) (budget_error "not_found" "Budget not found")

-- `_require_open_period`
unfoldable pub require_open_period : Call → Budget → Result Failure (Unit {0})
require_open_period call budget =
    raise_if
      (not budget.is_open
        || not (text_leb budget.period_start call.today && text_leb call.today budget.period_end))
      (budget_error "closed_period" "Budget period is not open")

-- `has_role`, for a role on a budget or for a role anywhere.
unfoldable pub has_role : String → BudgetRole → Option String → Database → Bool
has_role principal role none db =
    exists (λ a. a.principal == principal && a.role == role) db.role_assignments
has_role principal role (some budget) db =
    exists (λ a. a.principal == principal && a.role == role && a.budget_id == some budget)
      db.role_assignments

unfoldable pub require_role :
    Runtime → String → BudgetRole → Option String → Database → Result Failure (Unit {0})
require_role rt principal role budget db = raise_if (not (has_role principal role budget db)) (
    budget_error "forbidden"
      (join ("Principal " ∷ rt.repr principal ∷ " lacks " ∷ role_value role ∷ " permission" ∷ [])))

unfoldable pub receipt_by_digest : String → Database → Option MutationReceipt
receipt_by_digest digest db =
    fetch_one (λ r. r.instruction_digest == digest) db.idempotency_receipts

unfoldable pub receipt_by_key : String → Database → Option MutationReceipt
receipt_by_key key db = fetch_one (λ r. r.idempotency_key == key) db.idempotency_receipts

unfoldable pub receipt_by_execution : String → Database → Option MutationReceipt
receipt_by_execution id db = fetch_one (λ r. r.execution_id == id) db.idempotency_receipts

abbrev pub assign_status : RequestStatus → ℕ → PurchaseRequest → PurchaseRequest
assign_status status now r = record r { status = status; updated_at = now }

-- `_transition`: the update of the request, if it still has the status that is expected.
unfoldable pub transition :
    Call → String → RequestStatus → RequestStatus → Database → Result Failure Database
transition call id expected target db = do
  raise_if (not (exists (λ r. r.id == id && r.status == expected) db.purchase_requests))
      (budget_error "invalid_transition" "Purchase request transition failed")
  ok (record db {
    purchase_requests = update_request (assign_status target call.later) id db.purchase_requests;
  })
