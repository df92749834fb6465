-- ===== src/Budget/Storage.antt =====
-- budget/storage.py: the tables of the budget database, the constraints that its schema puts on the
-- rows that are inserted, and transactions. A table is the list of its rows, newest first; SQL
-- gives no other order.
use rmt_platform.Prelude.{
  ℕ, String, Bool, true, false, not, ◌&&◌, ◌||◌, Option, none, some, List, [], ◌∷◌, ◌==◌, string_eq,
  nat_eq, option_eq, if◌then◌else◌,
}
use rmt_platform.Prelude.Int.{ℤ, pos, ltb_ℤ}
use rmt_platform.Prelude.Text.{text_length, text_leb}
use rmt_platform.Prelude.Result.{Result, err, ok}
use rmt_platform.Prelude.Chain.{◌>>◌, raise_if}
use rmt_platform.Budget.Models.{
  BudgetRole, role_eq, RequestStatus, Failure, exception, MutationReceipt,
}

pub record Organization : Type 0 where
  pub id : String
  pub name : String
  pub currency : String
  pub bootstrap_principal : String
  pub created_at : ℕ

pub record Budget : Type 0 where
  pub id : String
  pub organization_id : String
  pub name : String
  pub owner_type : String
  pub owner_name : String
  pub period_start : String
  pub period_end : String
  pub currency : String
  pub is_open : Bool
  pub created_at : ℕ

pub record RoleAssignment : Type 0 where
  pub id : String
  pub organization_id : String
  pub budget_id : Option String
  pub principal : String
  pub role : BudgetRole
  pub created_at : ℕ

pub record PurchaseRequest : Type 0 where
  pub id : String
  pub organization_id : String
  pub budget_id : String
  pub requester : String
  pub status : RequestStatus
  pub current_version : ℕ
  pub created_at : ℕ
  pub updated_at : ℕ

pub record RequestVersion : Type 0 where
  pub request_id : String
  pub version : ℕ
  pub amount_minor : ℤ
  pub currency : String
  pub purpose : String
  pub supporting_reference : String
  pub created_by : String
  pub created_at : ℕ

pub record DomainDecision : Type 0 where
  pub id : String
  pub request_id : String
  pub request_version : ℕ
  pub decision : String
  pub decided_by : String
  pub reason : String
  pub instruction_digest : Option String
  pub action_json : Option String
  pub balance_evidence_minor : Option ℤ
  pub created_at : ℕ

-- The values of `entry_type`.
pub data EntryType : Type 0 where
  allocated adjusted committed_entry settled_entry cancelled_entry corrected_entry : EntryType

pub record LedgerEntry : Type 0 where
  pub id : String
  pub organization_id : String
  pub budget_id : String
  pub entry_type : EntryType
  pub amount_minor : ℤ
  pub currency : String
  pub request_id : Option String
  pub request_version : Option ℕ
  pub related_entry_id : Option String
  pub correction_of : Option String
  pub instruction_digest : String
  pub execution_id : String
  pub actor : String
  pub created_at : ℕ

pub record FinancialVerification : Type 0 where
  pub id : String
  pub execution_id : String
  pub instruction_digest : String
  pub status : String
  pub reason : String
  pub expected_available_minor : Option ℤ
  pub observed_available_minor : Option ℤ
  pub ledger_entry_id : Option String
  pub created_at : ℕ

pub record Database : Type 0 where
  pub organizations : List Organization
  pub budgets : List Budget
  pub role_assignments : List RoleAssignment
  pub purchase_requests : List PurchaseRequest
  pub purchase_request_versions : List RequestVersion
  pub domain_decisions : List DomainDecision
  pub ledger_entries : List LedgerEntry
  pub idempotency_receipts : List MutationReceipt
  pub financial_verifications : List FinancialVerification

-- `SELECT * … WHERE test` and `fetchone`.
unfoldable pub fetch_one : {A : Type 0} → (A → Bool) → List A → Option A
fetch_one test [] = none
fetch_one test (row ∷ rows) = if test row then some row else fetch_one test rows

-- `EXISTS (SELECT 1 … WHERE test)`
unfoldable pub exists : {A : Type 0} → (A → Bool) → List A → Bool
exists test [] = false
exists test (row ∷ rows) = test row || exists test rows

abbrev pub integrity_error : Failure
integrity_error = exception "IntegrityError"

-- A constraint of the schema that a statement must meet.
abbrev pub constraint : Bool → Result Failure (Unit {0})
constraint holds = raise_if (not holds) integrity_error

abbrev is_currency : String → Bool
is_currency s = text_length s == 3

-- The entries whose amount may be 0 or less.
abbrev pub is_balance_change : EntryType → Bool
is_balance_change adjusted = true
is_balance_change corrected_entry = true
is_balance_change _ = false

-- `UNIQUE INDEX idx_one_correction`, which no row without a target is in.
abbrev pub is_corrected : Option String → List LedgerEntry → Bool
is_corrected none entries = false
is_corrected (some target) entries = exists (λ e. e.correction_of == some target) entries

-- A foreign key that may be NULL.
abbrev pub is_request : Option String → Database → Bool
is_request none db = true
is_request (some id) db = exists (λ r. r.id == id) db.purchase_requests

-- The other foreign keys of an entry are read from the rows they refer to, in the same transaction.
unfoldable pub insert_entry : LedgerEntry → Database → Result Failure Database
insert_entry e db = do
  constraint (not (exists (λ f. f.id == e.id) db.ledger_entries))
  constraint (not (exists (λ f. f.instruction_digest == e.instruction_digest) db.ledger_entries))
  constraint (not (is_corrected e.correction_of db.ledger_entries))
  constraint (is_request e.request_id db)
  constraint (is_currency e.currency)
  constraint (is_balance_change e.entry_type || ltb_ℤ (pos 0) e.amount_minor)
  ok (record db { ledger_entries = e ∷ db.ledger_entries })

unfoldable pub insert_organization : Organization → Database → Result Failure Database
insert_organization o db = do
  constraint (not (exists (λ p. p.id == o.id) db.organizations))
  constraint (is_currency o.currency)
  ok (record db { organizations = o ∷ db.organizations })

unfoldable pub insert_budget : Budget → Database → Result Failure Database
insert_budget b db = do
  constraint (not (exists (λ c. c.id == b.id) db.budgets))
  constraint (b.owner_type == "department" || b.owner_type == "project")
  constraint (is_currency b.currency)
  constraint (text_leb b.period_start b.period_end)
  ok (record db { budgets = b ∷ db.budgets })

-- `UNIQUE(organization_id, budget_id, principal, role)`, in which NULL equals nothing.
abbrev same_budget : Option String → Option String → Bool
same_budget (some a) (some b) = a == b
same_budget _ _ = false

abbrev holds_role : RoleAssignment → RoleAssignment → Bool
holds_role a b =
    b.organization_id == a.organization_id
    && same_budget b.budget_id a.budget_id
    && b.principal == a.principal
    && b.role == a.role

unfoldable pub insert_role : RoleAssignment → Database → Result Failure Database
insert_role a db = do
  constraint (not (exists (λ b. b.id == a.id) db.role_assignments))
  constraint (not (exists (holds_role a) db.role_assignments))
  ok (record db { role_assignments = a ∷ db.role_assignments })

unfoldable pub insert_request : PurchaseRequest → Database → Result Failure Database
insert_request r db = do
  constraint (not (exists (λ q. q.id == r.id) db.purchase_requests))
  ok (record db { purchase_requests = r ∷ db.purchase_requests })

unfoldable pub insert_version : RequestVersion → Database → Result Failure Database
insert_version v db = do
  constraint (
      not (
        exists (λ w. w.request_id == v.request_id && w.version == v.version)
          db.purchase_request_versions))
  constraint (ltb_ℤ (pos 0) v.amount_minor)
  constraint (is_currency v.currency)
  ok (record db { purchase_request_versions = v ∷ db.purchase_request_versions })

unfoldable pub insert_decision : DomainDecision → Database → Result Failure Database
insert_decision d db = do
  constraint (not (exists (λ c. c.id == d.id) db.domain_decisions))
  constraint (d.decision == "approved" || d.decision == "rejected")
  constraint (
      exists (λ v. v.request_id == d.request_id && v.version == d.request_version)
        db.purchase_request_versions)
  ok (record db { domain_decisions = d ∷ db.domain_decisions })

unfoldable pub insert_receipt : MutationReceipt → Database → Result Failure Database
insert_receipt r db = do
  constraint
      (not (exists (λ q. q.instruction_digest == r.instruction_digest) db.idempotency_receipts))
  constraint (not (exists (λ q. q.idempotency_key == r.idempotency_key) db.idempotency_receipts))
  constraint (is_currency r.currency)
  ok (record db { idempotency_receipts = r ∷ db.idempotency_receipts })

unfoldable pub insert_verification : FinancialVerification → Database → Result Failure Database
insert_verification v db = do
  constraint (not (exists (λ w. w.id == v.id) db.financial_verifications))
  ok (record db { financial_verifications = v ∷ db.financial_verifications })

-- `UPDATE purchase_requests … WHERE id = ?`
unfoldable pub update_request :
    (PurchaseRequest → PurchaseRequest) → String → List PurchaseRequest → List PurchaseRequest
update_request change id [] = []
update_request change id (r ∷ rs) =
    let rest = update_request change id rs in if r.id == id then change r ∷ rest else r ∷ rest

-- The end of a transaction: `COMMIT`, or `ROLLBACK` to the state before it.
abbrev pub ended :
    {A : Type 0} → Database → Result Failure (A × Database) → Result Failure A × Database
ended before (err raised) = (err raised, before)
ended before (ok (returned, after)) = (ok returned, after)

-- `immediate_transaction`: the body's changes, or none of them when it raises.
abbrev pub immediate_transaction :
    {A : Type 0}
    → (Database → Result Failure (A × Database))
    → Database
    → Result Failure A × Database
immediate_transaction body db = ended db (body db)
