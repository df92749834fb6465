-- ===== src/Budget/Apply.antt =====
-- budget/repository.py: `apply_mutation`, one transaction that validates a mutation, adds its entry
-- to the ledger, moves the request and keeps the receipt.
pub mod Bootstrapped
pub mod Addressed
pub mod Applied
pub mod Balanced
pub mod Ending
pub mod Foreseen
pub mod Invariant
pub mod Kept
pub mod Linked
pub mod Named
pub mod Once
pub mod Posted
use rmt_platform.Prelude.{
  ℕ, String, Bool, true, false, not, ◌&&◌, ◌||◌, Option, none, some, List, [], ◌∷◌, ◌==◌, ◌!=◌,
  string_eq, nat_eq, if◌then◌else◌, is_some,
}
use rmt_platform.Prelude.Int.{ℤ, pos, negsuc, int_eq}
use rmt_platform.Prelude.Json.{Json, null, natural, negative, text, Fields, get}
use rmt_platform.Prelude.Result.{Result, err, ok}
use rmt_platform.Prelude.Chain.{◌>>=◌, ◌>>◌, raise_if, or_raise}
use rmt_platform.Budget.Models.{
  bootstrap_admin, budget_owner, requester, BudgetRole, RequestStatus, approved, committed, settled,
  cancelled, Failure, budget_error, exception, MutationType, bootstrap, adjustment, correction,
  commitment, settlement, cancellation, MutationReceipt,
}
use rmt_platform.Budget.Storage.{
  Budget, LedgerEntry, EntryType, RoleAssignment, Database, insert_organization, insert_budget,
  insert_role, insert_entry, insert_receipt, immediate_transaction,
}
use rmt_platform.Budget.Storage.EntryType.{
  allocated, adjusted, committed_entry, settled_entry, cancelled_entry, corrected_entry,
}
use rmt_platform.Budget.Repository.{
  Runtime, Call, text_at, budget_by_id, receipt_by_digest, receipt_by_key, transition,
}
use rmt_platform.Budget.Balance.{available_minor, open_commitment}
use rmt_platform.Budget.Validate.{Evidence, validate_mutation}
use rmt_platform.Budget.Post.{
  text_column, version_column, amount_column, entry_type_of, Destination, bootstrap_rows, or_none,
  ended_by, key_column, links_of, budget_destination, destination_of, move_request, post,
}

-- `str(request_id) if request_id else None`, and the same of the version.
abbrev given_text : Option String → Option String
given_text none = none
given_text (some s) = if s == "" then none else some s

abbrev given_version : Option ℕ → Option ℕ
given_version none = none
given_version (some n) = if n == 0 then none else some n

abbrev pub receipt_of : Runtime → String → Fields → Evidence → LedgerEntry → ℤ → MutationReceipt
receipt_of rt key parameters evidence entry observed = record {
  instruction_digest = entry.instruction_digest;
  idempotency_key = key;
  content_digest = rt.content_digest parameters;
  parameters = parameters;
  execution_id = entry.execution_id;
  ledger_entry_id = entry.id;
  mutation_type = evidence.mutation_type;
  request_id = given_text entry.request_id;
  request_version = given_version entry.request_version;
  available_minor = observed;
  currency = evidence.currency;
  created_at = entry.created_at;
}

-- The balance, recomputed, must be the one that the validation has foreseen.
unfoldable pub finish :
    Runtime
    → String
    → Fields
    → Evidence
    → LedgerEntry
    → Database
    → Result Failure (MutationReceipt × Database)
finish rt key parameters evidence entry db = do
  raise_if (available_minor entry.budget_id db != evidence.available_after)
      (budget_error "invariant_failure" "Balance invariant did not hold")
  let receipt = receipt_of rt key parameters evidence entry (available_minor entry.budget_id db)
  db' ← insert_receipt receipt db
  ok (receipt, db')

-- The mutation of an instruction without a receipt.
unfoldable pub apply_new :
    Runtime
    → Call
    → String
    → Fields
    → String
    → String
    → Database
    → Result Failure (MutationReceipt × Database)
apply_new rt call key parameters digest execution_id db = do
  raise_if (is_some (receipt_by_key key db))
      (budget_error "idempotency_conflict" "Idempotency key was reused")
  evidence ← validate_mutation rt call parameters (some digest) db
  (entry, db') ← post call parameters digest execution_id evidence db
  finish rt key parameters evidence entry db'

-- The body of the transaction, by the receipt that the instruction has.
unfoldable pub apply_under :
    Option MutationReceipt
    → Runtime
    → Call
    → String
    → Fields
    → String
    → String
    → Database
    → Result Failure (MutationReceipt × Database)
apply_under none rt call key parameters digest execution_id db =
    apply_new rt call key parameters digest execution_id db
apply_under (some existing) rt call key parameters digest execution_id db = do
  raise_if
      ((existing.content_digest != rt.content_digest parameters)
        || (existing.idempotency_key != key))
      (budget_error "idempotency_conflict" "Instruction digest was reused")
  ok (existing, db)

unfoldable pub apply_once :
    Runtime
    → Call
    → String
    → Fields
    → String
    → String
    → Database
    → Result Failure (MutationReceipt × Database)
apply_once rt call key parameters digest execution_id db =
    apply_under (receipt_by_digest digest db) rt call key parameters digest execution_id db

-- The transaction, under the key that the parameters give.
unfoldable pub apply_keyed :
    Result Failure String
    → Runtime
    → Call
    → Fields
    → String
    → String
    → Database
    → Result Failure MutationReceipt × Database
apply_keyed (err raised) rt call parameters digest execution_id db = (err raised, db)
apply_keyed (ok key) rt call parameters digest execution_id db =
    immediate_transaction (apply_once rt call key parameters digest execution_id) db

unfoldable pub apply_mutation :
    Runtime → Call → Fields → String → String → Database → Result Failure MutationReceipt × Database
apply_mutation rt call parameters digest execution_id db =
    apply_keyed (text_at parameters "idempotency_key") rt call parameters digest execution_id db
