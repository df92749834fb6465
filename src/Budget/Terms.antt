-- ===== src/Budget/Terms.antt =====
-- budget/repository.py: the tests that `validate_mutation` makes of each kind of mutation of a
-- budget, and the balance that each foresees.
use rmt_platform.Prelude.{
  String, Bool, true, false, not, ◌&&◌, Option, none, some, List, [], ◌∷◌, ◌==◌, ◌!=◌, string_eq,
  nat_eq, option_eq, if◌then◌else◌, any_of,
}
use rmt_platform.Prelude.Int.{ℤ, pos, ltb_ℤ, ◌+ℤ◌, ◌-ℤ◌, int_eq}
use rmt_platform.Prelude.Text.{falsy}
use rmt_platform.Prelude.Json.{Fields}
use rmt_platform.Prelude.Result.{Result, err, ok}
use rmt_platform.Prelude.Chain.{◌>>=◌, ◌>>◌, raise_if, or_raise}
use rmt_platform.Budget.Models.{
  approved, committed, status_eq, Failure, budget_error, exception, MutationType, adjustment,
  correction, commitment, settlement, cancellation,
}
use rmt_platform.Budget.Storage.{
  PurchaseRequest, RequestVersion, DomainDecision, LedgerEntry, EntryType, Database, fetch_one,
  exists,
}
use rmt_platform.Budget.Storage.EntryType.{allocated, adjusted}
use rmt_platform.Budget.Repository.{text_at, integer_at, positive_at, request_by_id, version_of}
use rmt_platform.Budget.Balance.{open_commitment}

-- What a test of a mutation says of it: the amount, and the balance after it.
abbrev pub Assessed : Type 0
Assessed = ℤ × ℤ

-- `original["entry_type"] in {"allocation", "adjustment"}`
abbrev pub is_correctable : EntryType → Bool
is_correctable allocated = true
is_correctable adjusted = true
is_correctable _ = false

unfoldable pub validate_target :
    MutationType → String → Fields → Database → Result Failure (Unit {0})
validate_target correction budget_id parameters db = do
  correction_of ← text_at parameters "correction_of"
  original ←
      or_raise
        (fetch_one (λ e. e.id == correction_of && e.budget_id == budget_id) db.ledger_entries)
        (budget_error "not_found" "Correction target not found")
  raise_if (not (is_correctable original.entry_type)) (
      budget_error "invalid_transition"
        "Commitments use settlement or cancellation, not correction")
  raise_if (exists (λ e. e.correction_of == some correction_of) db.ledger_entries)
      (budget_error "conflict" "Ledger entry is already corrected")
validate_target _ budget_id parameters db = ok tt

-- An adjustment or a correction.
unfoldable pub validate_change :
    MutationType → String → ℤ → Fields → Database → Result Failure Assessed
validate_change mutation budget_id before parameters db = do
  amount ← integer_at parameters "amount_minor"
  raise_if (amount == pos 0) (budget_error "validation" "Balance change cannot be zero")
  validate_target mutation budget_id parameters db
  raise_if (ltb_ℤ (before +ℤ amount) (pos 0))
      (budget_error "insufficient_funds" "Adjustment would make funds negative")
  ok (amount, before +ℤ amount)

-- The ways in which a decision fails to bind this version of the request, this actor and this
-- instruction.
abbrev pub loose_ends : String → ℤ → String → Option String → DomainDecision → List Bool
loose_ends request_id version actor digest decision =
    (decision.decision != "approved")
    ∷ (decision.request_id != request_id)
    ∷ (pos decision.request_version != version)
    ∷ (decision.decided_by != actor)
    ∷ falsy digest
    ∷ (decision.instruction_digest != digest)
    ∷ []

unfoldable pub is_bound : String → ℤ → String → Option String → DomainDecision → Bool
is_bound request_id version actor digest decision =
    not (any_of (loose_ends request_id version actor digest decision))

unfoldable pub bound_decision :
    Option DomainDecision → String → ℤ → String → Option String → Result Failure DomainDecision
bound_decision none request_id version actor digest =
    err (budget_error "approval_invalid" "Domain approval binding is invalid")
bound_decision (some decision) request_id version actor digest =
    if is_bound request_id version actor digest decision
    then ok decision
    else err (budget_error "approval_invalid" "Domain approval binding is invalid")

unfoldable pub validate_commitment :
    PurchaseRequest
    → RequestVersion
    → String
    → ℤ
    → ℤ
    → String
    → Fields
    → Option String
    → Database
    → Result Failure Assessed
validate_commitment request row request_id amount before actor parameters digest db = do
  raise_if (request.status != approved)
      (budget_error "invalid_transition" "Request is not approved")
  raise_if (amount != row.amount_minor)
      (budget_error "changed_instruction" "Approved amount changed")
  decision_id ← text_at parameters "domain_approval_id"
  decision ←
      bound_decision (fetch_one (λ d. d.id == decision_id) db.domain_decisions) request_id
        (pos request.current_version) actor digest
  evidence ← or_raise decision.balance_evidence_minor (exception "TypeError")
  raise_if (evidence != before)
      (budget_error "stale_evidence" "Available balance changed after approval")
  raise_if (ltb_ℤ before amount) (budget_error "insufficient_funds" "Insufficient available funds")
  ok (amount, before -ℤ amount)

-- The open commitment that a settlement or a cancellation of the request ends.
unfoldable pub commitment_of : PurchaseRequest → String → Database → Result Failure LedgerEntry
commitment_of request request_id db = do
  raise_if (request.status != committed)
      (budget_error "invalid_transition" "Request is not committed")
  open_commitment request_id request.current_version db

unfoldable pub validate_settlement :
    PurchaseRequest → String → ℤ → ℤ → Database → Result Failure Assessed
validate_settlement request request_id amount before db = do
  entry ← commitment_of request request_id db
  raise_if (ltb_ℤ entry.amount_minor amount)
      (budget_error "over_settlement" "Settlement exceeds approved amount")
  ok (amount, before +ℤ entry.amount_minor -ℤ amount)

unfoldable pub validate_cancellation :
    PurchaseRequest → String → ℤ → ℤ → Database → Result Failure Assessed
validate_cancellation request request_id amount before db = do
  entry ← commitment_of request request_id db
  raise_if (amount != entry.amount_minor)
      (budget_error "changed_instruction" "Cancellation amount changed")
  ok (amount, before +ℤ amount)

-- The tests of each kind of mutation of a request.
unfoldable pub validate_terms :
    MutationType
    → PurchaseRequest
    → RequestVersion
    → String
    → ℤ
    → ℤ
    → String
    → Fields
    → Option String
    → Database
    → Result Failure Assessed
validate_terms commitment request row request_id amount before actor parameters digest db =
    validate_commitment request row request_id amount before actor parameters digest db
validate_terms settlement request row request_id amount before actor parameters digest db =
    validate_settlement request request_id amount before db
validate_terms cancellation request row request_id amount before actor parameters digest db =
    validate_cancellation request request_id amount before db
validate_terms _ request row request_id amount before actor parameters digest db =
    err (budget_error "unsupported_operation" "Unsupported mutation")

-- A mutation of a request: commitment, settlement or cancellation.
unfoldable pub validate_request :
    MutationType → String → ℤ → String → Fields → Option String → Database → Result Failure Assessed
validate_request mutation budget_id before actor parameters digest db = do
  request_id ← text_at parameters "request_id"
  request ← request_by_id request_id db
  raise_if (request.budget_id != budget_id)
      (budget_error "conflict" "Request does not belong to budget")
  version ← positive_at parameters "request_version"
  raise_if (pos request.current_version != version)
      (budget_error "stale_version" "Purchase request version changed")
  row ← version_of request_id request.current_version db
  amount ← positive_at parameters "amount_minor"
  validate_terms mutation request row request_id amount before actor parameters digest db

unfoldable pub assess :
    MutationType → String → ℤ → String → Fields → Option String → Database → Result Failure Assessed
assess adjustment budget_id before actor parameters digest db =
    validate_change adjustment budget_id before parameters db
assess correction budget_id before actor parameters digest db =
    validate_change correction budget_id before parameters db
assess mutation budget_id before actor parameters digest db =
    validate_request mutation budget_id before actor parameters digest db
