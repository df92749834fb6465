-- ===== src/Budget/Validate.antt =====
-- budget/repository.py: `validate_mutation`, the tests of a mutation against the database, in the
-- order of the code.
pub mod Assessed
use rmt_platform.Prelude.{
  ℕ, String, Bool, true, false, not, ◌&&◌, ◌||◌, Option, none, some, List, [], ◌∷◌, ◌==◌, ◌!=◌,
  string_eq, nat_eq, option_eq, if◌then◌else◌, is_some, any_of,
}
use rmt_platform.Prelude.Int.{ℤ, pos, negsuc, over, ltb_ℤ, ◌+ℤ◌, ◌-ℤ◌, int_eq}
use rmt_platform.Prelude.Text.{join, falsy}
use rmt_platform.Prelude.Json.{Json, null, natural, negative, text, array, object, Fields, get}
use rmt_platform.Prelude.Result.{Result, err, ok}
use rmt_platform.Prelude.Chain.{◌>>=◌, ◌>>◌, raise_if, or_raise}
use rmt_platform.Budget.Models.{
  budget_owner, RequestStatus, approved, committed, status_eq, Failure, budget_error, exception,
  MutationType, bootstrap, adjustment, correction, commitment, settlement, cancellation,
  mutation_value, MutationReceipt,
}
use rmt_platform.Budget.Storage.{
  PurchaseRequest, RequestVersion, DomainDecision, LedgerEntry, EntryType, Database, fetch_one,
  exists,
}
use rmt_platform.Budget.Storage.EntryType.{allocated, adjusted}
use rmt_platform.Budget.Repository.{
  Runtime, Call, text_at, integer_at, positive_at, mutation_at, currency_at, request_by_id,
  version_of, budget_by_id, require_open_period, require_role, receipt_by_digest,
}
use rmt_platform.Budget.Balance.{available_minor, open_commitment}
use rmt_platform.Budget.Terms.{
  is_correctable, validate_target, validate_change, loose_ends, is_bound, bound_decision,
  validate_commitment, commitment_of, validate_settlement, validate_cancellation, validate_terms,
  validate_request, assess,
}

-- The dict that a validation returns; a bootstrap gives no budget.
pub record Evidence : Type 0 where
  pub mutation_type : MutationType
  pub budget_id : Option Json
  pub currency : String
  pub amount_minor : Json
  pub available_before : ℤ
  pub available_after : ℤ
  pub evidence : List String

abbrev pub json_of : ℤ → Json
json_of (pos n) = natural n
json_of (negsuc n) = negative n

-- `parameters.get(key, fallback)`
abbrev pub value_or : Json → Option Json → Json
value_or fallback none = fallback
value_or fallback (some value) = value

-- `value == text`, for the value of a key.
abbrev pub equals_text : String → Option Json → Bool
equals_text s (some (text t)) = t == s
equals_text s _ = false

-- The answer for an instruction that has a receipt.
unfoldable pub replay_evidence : Runtime → Fields → MutationReceipt → Result Failure Evidence
replay_evidence rt parameters existing = do
  raise_if
      ((existing.content_digest != rt.content_digest parameters)
        || not (equals_text existing.idempotency_key (get "idempotency_key" parameters)))
      (budget_error "idempotency_conflict" "Existing instruction content does not match")
  budget_id ← or_raise (get "budget_id" parameters) (exception "KeyError")
  ok (record {
    mutation_type = existing.mutation_type;
    budget_id = some budget_id;
    currency = existing.currency;
    amount_minor =
        value_or (value_or null (get "allocation_minor" parameters))
          (get "amount_minor" parameters);
    available_before = existing.available_minor;
    available_after = existing.available_minor;
    evidence =
        join ("budget:receipt:" ∷ existing.instruction_digest ∷ [])
        ∷ "budget:idempotent-replay"
        ∷ [];
  })

abbrev pub bootstrap_evidence : String → ℤ → Evidence
bootstrap_evidence currency amount = record {
  mutation_type = bootstrap;
  budget_id = none;
  currency = currency;
  amount_minor = json_of amount;
  available_before = pos 0;
  available_after = amount;
  evidence = "budget:bootstrap:uninitialized" ∷ [];
}

-- Arrays and objects, of which a test of membership in a set raises.
abbrev is_unhashable : Option Json → Bool
is_unhashable (some (array _)) = true
is_unhashable (some (object _)) = true
is_unhashable _ = false

unfoldable pub validate_bootstrap :
    Runtime → String → String → Fields → Database → Result Failure Evidence
validate_bootstrap rt actor currency parameters db = do
  raise_if (exists (λ o. true) db.organizations)
      (budget_error "already_initialized" "Budget Control is already initialized")
  raise_if ((rt.bootstrap_principal == "") || (actor != rt.bootstrap_principal))
      (budget_error "forbidden" "Actor is not the configured bootstrap principal")
  amount ← positive_at parameters "allocation_minor"
  owner ← text_at parameters "owner_principal"
  requester ← text_at parameters "requester_principal"
  raise_if (owner == requester)
      (budget_error "separation_required" "Owner and requester must differ")
  raise_if (is_unhashable (get "owner_type" parameters)) (exception "TypeError")
  raise_if
      (not (
        equals_text "department" (get "owner_type" parameters)
        || equals_text "project" (get "owner_type" parameters)))
      (budget_error "validation" "Budget owner_type must be department or project")
  owner_name ← text_at parameters "owner_name"
  ok (bootstrap_evidence currency amount)

abbrev pub entry_evidence : Runtime → MutationType → String → String → ℤ → ℤ → ℤ → Evidence
entry_evidence rt mutation budget_id currency amount before after = record {
  mutation_type = mutation;
  budget_id = some (text budget_id);
  currency = currency;
  amount_minor = json_of amount;
  available_before = before;
  available_after = after;
  evidence =
      join ("budget:" ∷ budget_id ∷ [])
      ∷ join ("balance:" ∷ rt.decimal before ∷ [])
      ∷ join ("mutation:" ∷ mutation_value mutation ∷ [])
      ∷ [];
}

-- A mutation of an existing budget.
unfoldable pub validate_entry :
    Runtime
    → Call
    → MutationType
    → String
    → String
    → Fields
    → Option String
    → Database
    → Result Failure Evidence
validate_entry rt call mutation actor currency parameters digest db = do
  budget_id ← text_at parameters "budget_id"
  budget ← budget_by_id budget_id db
  raise_if (budget.currency != currency)
      (budget_error "wrong_currency" "Mutation currency does not match budget")
  require_open_period call budget
  require_role rt actor budget_owner (some budget_id) db
  (amount, after) ←
      assess mutation budget_id (available_minor budget_id db) actor parameters digest db
  ok (entry_evidence rt mutation budget_id currency amount (available_minor budget_id db) after)

unfoldable pub validate_new :
    Runtime
    → Call
    → MutationType
    → String
    → String
    → Fields
    → Option String
    → Database
    → Result Failure Evidence
validate_new rt call bootstrap actor currency parameters digest db =
    validate_bootstrap rt actor currency parameters db
validate_new rt call mutation actor currency parameters digest db =
    validate_entry rt call mutation actor currency parameters digest db

-- The receipt of the instruction, looked for only under a digest.
abbrev pub existing_receipt : Option String → Database → Option MutationReceipt
existing_receipt none db = none
existing_receipt (some digest) db = if digest == "" then none else receipt_by_digest digest db

-- The answer by whether the instruction has a receipt.
unfoldable pub validate_under :
    Option MutationReceipt
    → Runtime
    → Call
    → MutationType
    → String
    → String
    → Fields
    → Option String
    → Database
    → Result Failure Evidence
validate_under (some existing) rt call mutation actor currency parameters digest db =
    replay_evidence rt parameters existing
validate_under none rt call mutation actor currency parameters digest db =
    validate_new rt call mutation actor currency parameters digest db

unfoldable pub validate_mutation :
    Runtime → Call → Fields → Option String → Database → Result Failure Evidence
validate_mutation rt call parameters digest db = do
  mutation ← mutation_at parameters
  actor ← text_at parameters "actor"
  currency ← currency_at rt parameters
  validate_under (existing_receipt digest db) rt call mutation actor currency parameters digest db
