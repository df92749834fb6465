-- ===== src/Budget/Post.antt =====
-- budget/repository.py: the writes of `apply_mutation` up to its receipt: the rows of a bootstrap,
-- the entry of the ledger, and the move of the request.
use rmt_platform.Prelude.{false, ℕ, String, true, Option, none, some, string_eq, nat_eq}
use rmt_platform.Prelude.Int.{ℤ, pos, negsuc, int_eq}
use rmt_platform.Prelude.Json.{Json, null, boolean, natural, negative, text, Fields, get}
use rmt_platform.Prelude.Result.{Result, err, ok}
use rmt_platform.Prelude.Chain.{◌>>=◌, or_raise}
use rmt_platform.Budget.Models.{
  bootstrap_admin, budget_owner, requester, BudgetRole, approved, committed, settled, cancelled,
  Failure, exception, MutationType, bootstrap, adjustment, correction, commitment, settlement,
  cancellation,
}
use rmt_platform.Budget.Storage.{
  LedgerEntry, EntryType, RoleAssignment, Database, insert_organization, insert_budget, insert_role,
  insert_entry,
}
use rmt_platform.Budget.Storage.EntryType.{
  allocated, adjusted, committed_entry, settled_entry, cancelled_entry, corrected_entry,
}
use rmt_platform.Budget.Repository.{Call, text_at, budget_by_id, transition}
use rmt_platform.Budget.Balance.{open_commitment}
use rmt_platform.Budget.Validate.{Evidence}

-- A value that is bound to a column of texts, of integers, or to an amount. A value of another kind
-- is refused here, where SQLite would convert some by the affinity of the column, and so is a
-- version below 0, which it would store.
abbrev pub text_column : Option Json → Result Failure (Option String)
text_column none = ok none
text_column (some null) = ok none
text_column (some (text value)) = ok (some value)
text_column (some _) = err (exception "InterfaceError")

abbrev pub version_column : Option Json → Result Failure (Option ℕ)
version_column none = ok none
version_column (some null) = ok none
version_column (some (natural n)) = ok (some n)
version_column (some (boolean true)) = ok (some 1)
version_column (some (boolean false)) = ok (some 0)
version_column (some _) = err (exception "InterfaceError")

abbrev pub amount_column : Json → Result Failure ℤ
amount_column (natural n) = ok (pos n)
amount_column (negative n) = ok (negsuc n)
amount_column _ = err (exception "InterfaceError")

-- `"allocation"` of a bootstrap, and otherwise `mutation.value`.
unfoldable pub entry_type_of : MutationType → EntryType
entry_type_of bootstrap = allocated
entry_type_of adjustment = adjusted
entry_type_of commitment = committed_entry
entry_type_of settlement = settled_entry
entry_type_of cancellation = cancelled_entry
entry_type_of correction = corrected_entry

-- Where the entry goes: the organization, the budget and the actor.
pub record Destination : Type 0 where
  pub organization_id : String
  pub budget_id : String
  pub actor : String

abbrev assignment : Call → String → ℕ → BudgetRole → String → Option String → RoleAssignment
assignment call organization_id drawn role principal budget = record {
  id = call.uuid drawn;
  organization_id = organization_id;
  budget_id = budget;
  principal = principal;
  role = role;
  created_at = call.now;
}

-- The rows of a bootstrap: the organization, its budget and the three roles.
unfoldable pub bootstrap_rows :
    Call → String → Fields → Database → Result Failure (Destination × Database)
bootstrap_rows call currency parameters db = do
  organization_id ← text_at parameters "organization_id"
  budget_id ← text_at parameters "budget_id"
  actor ← text_at parameters "actor"
  name ← text_at parameters "organization_name"
  db1 ←
      insert_organization
        (record {
          id = organization_id;
          name = name;
          currency = currency;
          bootstrap_principal = actor;
          created_at = call.now;
        })
        db
  budget_name ← text_at parameters "budget_name"
  owner_type ← text_at parameters "owner_type"
  owner_name ← text_at parameters "owner_name"
  period_start ← text_at parameters "period_start"
  period_end ← text_at parameters "period_end"
  db2 ←
      insert_budget
        (record {
          id = budget_id;
          organization_id = organization_id;
          name = budget_name;
          owner_type = owner_type;
          owner_name = owner_name;
          period_start = period_start;
          period_end = period_end;
          currency = currency;
          is_open = true;
          created_at = call.now;
        })
        db1
  owner ← text_at parameters "owner_principal"
  requesting ← text_at parameters "requester_principal"
  db3 ← insert_role (assignment call organization_id 1 bootstrap_admin actor none) db2
  db4 ← insert_role (assignment call organization_id 2 budget_owner owner (some budget_id)) db3
  db5 ← insert_role (assignment call organization_id 3 requester requesting (some budget_id)) db4
  ok (record { organization_id = organization_id; budget_id = budget_id; actor = actor }, db5)

-- `str(request_id)`
abbrev pub or_none : Option String → String
or_none none = "None"
or_none (some s) = s

-- The commitment, by the key that the parameters give.
unfoldable pub ended_by :
    Option String → Option ℕ → Database → Result Failure (Option String × Option String)
ended_by request_id version db = do
  n ← or_raise version (exception "TypeError")
  entry ← open_commitment (or_none request_id) n db
  ok (some entry.id, none)

abbrev pub key_column : Option Json → Result Failure String
key_column none = err (exception "KeyError")
key_column (some (text id)) = ok id
key_column (some _) = err (exception "InterfaceError")

-- The correction's target, and the commitment that a settlement or a cancellation ends.
unfoldable pub links_of :
    MutationType
    → Option String
    → Option ℕ
    → Fields
    → Database
    → Result Failure (Option String × Option String)
links_of correction request_id version parameters db = do
  correction_of ← text_at parameters "correction_of"
  ok (none, some correction_of)
links_of settlement request_id version parameters db = ended_by request_id version db
links_of cancellation request_id version parameters db = ended_by request_id version db
links_of _ request_id version parameters db = ok (none, none)

-- The budget of any other mutation, which the validation has found.
unfoldable pub budget_destination :
    Option Json → Fields → Database → Result Failure (Destination × Database)
budget_destination key parameters db = do
  budget_id ← key_column key
  budget ← budget_by_id budget_id db
  actor ← text_at parameters "actor"
  ok (record { organization_id = budget.organization_id; budget_id = budget_id; actor = actor }, db)

unfoldable pub destination_of :
    Call
    → MutationType
    → Option Json
    → String
    → Fields
    → Database
    → Result Failure (Destination × Database)
destination_of call bootstrap key currency parameters db =
    bootstrap_rows call currency parameters db
destination_of call _ key currency parameters db = budget_destination key parameters db

-- The move of the request that goes with the entry.
unfoldable pub move_request :
    Call → MutationType → Option String → Database → Result Failure Database
move_request call commitment request_id db =
    transition call (or_none request_id) approved committed db
move_request call settlement request_id db =
    transition call (or_none request_id) committed settled db
move_request call cancellation request_id db =
    transition call (or_none request_id) committed cancelled db
move_request call _ request_id db = ok db

-- The writes of a validated mutation, up to the receipt: the entry, and the tables after it.
unfoldable pub post :
    Call → Fields → String → String → Evidence → Database → Result Failure (LedgerEntry × Database)
post call parameters digest execution_id evidence db = do
  (to, db1) ←
      destination_of call evidence.mutation_type evidence.budget_id evidence.currency parameters db
  request_id ← text_column (get "request_id" parameters)
  version ← version_column (get "request_version" parameters)
  amount ← amount_column evidence.amount_minor
  (related, correction_of) ← links_of evidence.mutation_type request_id version parameters db1
  let entry : LedgerEntry = record {
    id = call.uuid 0;
    organization_id = to.organization_id;
    budget_id = to.budget_id;
    entry_type = entry_type_of evidence.mutation_type;
    amount_minor = amount;
    currency = evidence.currency;
    request_id = request_id;
    request_version = version;
    related_entry_id = related;
    correction_of = correction_of;
    instruction_digest = digest;
    execution_id = execution_id;
    actor = to.actor;
    created_at = call.now;
  }
  db2 ← insert_entry entry db1
  db3 ← move_request call evidence.mutation_type request_id db2
  ok (entry, db3)
