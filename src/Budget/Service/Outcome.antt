-- ===== src/Budget/Service/Outcome.antt =====
-- budget/service.py: the replay of a call, reconciliation, and the financial status of a response.
use rmt_platform.Prelude.{
  String, Bool, true, false, not, Option, none, some, List, ◌!=◌, string_eq, if◌then◌else◌, all,
}
use rmt_platform.Prelude.Int.{pos, negsuc}
use rmt_platform.Prelude.Json.{Json, natural, negative, text, Fields, get}
use rmt_platform.Prelude.Result.{Result, err, ok}
use rmt_platform.Prelude.Chain.{◌>>=◌, ◌>>◌, raise_if}
use rmt_platform.Budget.Models.{
  budget_owner, MutationType, mutation_value, Failure, budget_error, MutationReceipt,
  FinancialOutcome, blocked_before_execution, adapter_failed_no_effect, applied_unverified,
  outcome_unknown,
}
use rmt_platform.Budget.Storage.{Database}
use rmt_platform.Budget.Repository.{Runtime, Call, require_role, receipt_by_digest, receipt_by_key}
use rmt_platform.Budget.Validate.{equals_text}
use rmt_platform.Budget.Post.{key_column}
use rmt_platform.Budget.Observer.{Verification, equals_integer, verify}

-- `parameters.get(name) == value`, of the texts and numbers that the calls expect.
abbrev equals_value : Runtime → Json → Option Json → Bool
equals_value rt (text s) found = equals_text s found
equals_value rt (natural n) found = equals_integer rt (pos n) found
equals_value rt (negative n) found = equals_integer rt (negsuc n) found
equals_value rt _ found = false

unfoldable pub has_fields : Runtime → Fields → List (String × Json) → Bool
has_fields rt parameters expected = all (λ f. equals_value rt f.1 (get f.0 parameters)) expected

-- What a replay returns: the receipt, and a new verification of it.
pub record Replay : Type 0 where
  pub receipt : MutationReceipt
  pub verification : Verification

-- The receipt that a replay answers with, if the key has one and it is of the same content.
unfoldable pub replayed :
    Runtime
    → Option MutationReceipt
    → MutationType
    → List (String × Json)
    → Result Failure (Option MutationReceipt)
replayed rt none mutation expected = ok none
replayed rt (some receipt) mutation expected = do
  raise_if (mutation_value receipt.mutation_type != mutation_value mutation)
      (budget_error "idempotency_conflict" "Idempotency key belongs to another mutation")
  raise_if (not (has_fields rt receipt.parameters expected))
      (budget_error "idempotency_conflict" "Idempotency key was reused with different content")
  ok (some receipt)

-- `_replay`
unfoldable pub replay :
    Runtime
    → Call
    → String
    → MutationType
    → List (String × Json)
    → Database
    → Result Failure (Option Replay) × Database
replay rt call key mutation expected db =
    elim (replayed rt (receipt_by_key key db) mutation expected) [
      | err raised ↦ (err raised, db)
      | ok none ↦ (ok none, db)
      | ok (some receipt) ↦
          let (verification, db') =
            verify rt call receipt.execution_id receipt.instruction_digest receipt.parameters db in
          (ok (some (record { receipt = receipt; verification = verification })), db')
    ]

-- The budget that a receipt's parameters name, and the role that reconciliation needs on it.
unfoldable pub may_reconcile :
    Runtime → String → MutationReceipt → Database → Result Failure (Unit {0})
may_reconcile rt actor receipt db = do
  budget_id ← key_column (get "budget_id" receipt.parameters)
  require_role rt actor budget_owner (some budget_id) db

-- `reconcile`: the absence of a receipt, or a new verification of it.
unfoldable pub reconcile :
    Runtime → Call → String → String → Database → Result Failure (Option Replay) × Database
reconcile rt call actor digest db = elim (receipt_by_digest digest db) [
  | none ↦ (ok none, db)
  | some receipt ↦ elim (may_reconcile rt actor receipt db) [
    | err raised ↦ (err raised, db)
    | ok granted ↦
        let (verification, db') =
          verify rt call receipt.execution_id receipt.instruction_digest receipt.parameters db in
        (ok (some (record { receipt = receipt; verification = verification })), db')
  ]
]

-- What the governed path returns of an action.
pub record Governed : Type 0 where
  pub status : String
  pub success : Bool
  -- `"unknown" in message.lower()`
  pub is_unknown : Bool

-- The financial status of an execution that failed.
unfoldable pub failed_status : Bool → Option MutationReceipt → FinancialOutcome
failed_status true found = outcome_unknown
failed_status false none = adapter_failed_no_effect
failed_status false (some receipt) = applied_unverified

-- `_execute`, after the governed path has returned: the financial status of the response.
unfoldable pub financial_status :
    Runtime → Call → Governed → String → Fields → Database → FinancialOutcome × Database
financial_status rt call governed digest parameters db =
    if governed.status != "executed"
    then (blocked_before_execution, db)
    else (if not governed.success
        then (failed_status governed.is_unknown (receipt_by_digest digest db), db)
        else elim (receipt_by_digest digest db) [
          | none ↦ (outcome_unknown, db)
          | some receipt ↦
              let (verification, db') = verify rt call receipt.execution_id digest parameters db in
              (verification.status, db')
        ])
