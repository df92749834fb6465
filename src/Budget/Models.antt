-- ===== src/Budget/Models.antt =====
-- budget/models.py: the roles, statuses and kinds of mutation of the budget domain, its errors and
-- the receipt of a mutation.
use rmt_platform.Prelude.{
  ℕ, String, Bool, true, false, Option, none, some, ◌≡◌, ◌↔◌, arith, ◌==◌, string_eq, HasEquality,
  if◌then◌else◌,
}
use rmt_platform.Prelude.Int.{ℤ}
use rmt_platform.Prelude.Json.{Fields}

abbrev pub governance_domain : String
governance_domain = "rmt.budget.v1"

abbrev pub adapter_name : String
adapter_name = "budget-ledger"

pub data BudgetRole : Type 0 where
  bootstrap_admin budget_owner requester : BudgetRole

abbrev pub role_value : BudgetRole → String
role_value bootstrap_admin = "bootstrap_admin"
role_value budget_owner = "budget_owner"
role_value requester = "requester"

abbrev pub role_beq : BudgetRole → BudgetRole → Bool
role_beq bootstrap_admin bootstrap_admin = true
role_beq budget_owner budget_owner = true
role_beq requester requester = true
role_beq a b = false

pub data RequestStatus : Type 0 where
  draft submitted approved rejected committed settled cancelled : RequestStatus

abbrev pub status_beq : RequestStatus → RequestStatus → Bool
status_beq draft draft = true
status_beq submitted submitted = true
status_beq approved approved = true
status_beq rejected rejected = true
status_beq committed committed = true
status_beq settled settled = true
status_beq cancelled cancelled = true
status_beq a b = false

pub data MutationType : Type 0 where
  bootstrap adjustment commitment settlement cancellation correction : MutationType

unfoldable pub mutation_value : MutationType → String
mutation_value bootstrap = "bootstrap"
mutation_value adjustment = "adjustment"
mutation_value commitment = "commitment"
mutation_value settlement = "settlement"
mutation_value cancellation = "cancellation"
mutation_value correction = "correction"

-- `MutationType(value)`: the member with this value.
unfoldable pub mutation_of : String → Option MutationType
mutation_of s =
    if s == "bootstrap"
    then some bootstrap
    else if s == "adjustment"
    then some adjustment
    else if s == "commitment"
    then some commitment
    else if s == "settlement"
    then some settlement
    else if s == "cancellation"
    then some cancellation
    else if s == "correction"
    then some correction
    else none

pub data FinancialOutcome : Type 0 where
  blocked_before_execution adapter_failed_no_effect applied_unverified : FinancialOutcome
  verified_success verification_mismatch outcome_unknown : FinancialOutcome

-- An exception: a `BudgetError`, or any other by the name of its class.
pub data Failure : Type 0 where
  budget_error : String → String → Failure
  exception : String → Failure

pub record MutationReceipt : Type 0 where
  pub instruction_digest : String
  pub idempotency_key : String
  pub content_digest : String
  pub parameters : Fields
  pub execution_id : String
  pub ledger_entry_id : String
  pub mutation_type : MutationType
  pub request_id : Option String
  pub request_version : Option ℕ
  pub available_minor : ℤ
  pub currency : String
  pub created_at : ℕ

pub status_beq_iff : (a b : RequestStatus) → (status_beq a b ≡ true) ↔ (a ≡ b)
status_beq_iff a b = ground arith

pub role_beq_iff : (a b : BudgetRole) → (role_beq a b ≡ true) ↔ (a ≡ b)
role_beq_iff a b = ground arith

instance abbrev pub status_eq : HasEquality RequestStatus
status_eq = record { equals = status_beq; equals_iff = status_beq_iff }

instance abbrev pub role_eq : HasEquality BudgetRole
role_eq = record { equals = role_beq; equals_iff = role_beq_iff }
