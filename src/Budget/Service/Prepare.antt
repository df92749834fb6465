-- ===== src/Budget/Service/Prepare.antt =====
-- budget/service.py: the actions of `settle`, `cancel`, `adjust` and `correct`, validated before they
-- go to the governed path.
use rmt_platform.Prelude.{String, true, none, [], ◌∷◌}
use rmt_platform.Prelude.Int.{ℤ}
use rmt_platform.Prelude.Text.{join}
use rmt_platform.Prelude.Json.{Json, natural, text, Fields, no_fields, field}
use rmt_platform.Prelude.Result.{Result}
use rmt_platform.Prelude.Chain.{◌>>=◌, or_raise}
use rmt_platform.Actions.Models.{ActionRequest}
use rmt_platform.Budget.Models.{
  MutationType, settlement, cancellation, adjustment, correction, mutation_value, Failure,
  budget_error,
}
use rmt_platform.Budget.Storage.{Organization, PurchaseRequest, RequestVersion, Database, fetch_one}
use rmt_platform.Budget.Repository.{Runtime, Call}
use rmt_platform.Budget.Requests.{request_detail}
use rmt_platform.Budget.Validate.{json_of, validate_mutation}
use rmt_platform.Budget.Service.{Clerk, budget_action, current_version, approved_decision_id}

-- The parameters of a settlement or a cancellation; `expected` is added at the end.
unfoldable pub ending_parameters :
    MutationType
    → String
    → String
    → PurchaseRequest
    → RequestVersion
    → Json
    → String
    → Fields
    → Fields
ending_parameters mutation actor key request current amount decision_id expected =
    field "mutation_type" (text (mutation_value mutation)) (
      field "organization_id" (text request.organization_id) (
        field "budget_id" (text request.budget_id) (
          field "request_id" (text request.id) (
            field "request_version" (natural request.current_version) (
              field "currency" (text current.currency) (
                field "amount_minor" amount (
                  field "actor" (text actor) (
                    field "domain_approval_id" (text decision_id)
                      (field "idempotency_key" (text key) expected)))))))))

-- The parameters of an adjustment or a correction; `rest` holds the target of a correction, and what
-- is added at the end.
unfoldable pub change_parameters :
    MutationType → String → String → String → String → ℤ → String → String → Fields → Fields
change_parameters mutation actor key organization_id budget_id amount currency reason rest =
    field "mutation_type" (text (mutation_value mutation)) (
      field "organization_id" (text organization_id) (
        field "budget_id" (text budget_id) (
          field "currency" (text currency) (
            field "amount_minor" (json_of amount) (
              field "reason" (text reason)
                (field "actor" (text actor) (field "idempotency_key" (text key) rest)))))))

abbrev expecting : ℤ → Fields
expecting after = field "expected_available_minor" (json_of after) no_fields

-- `validate_mutation` before the digest is known, and then the action with the balance it expects.
unfoldable pub validated_action :
    Runtime
    → Clerk
    → Call
    → (Fields → Fields)
    → String
    → String
    → String
    → Database
    → Result Failure ActionRequest
validated_action rt clerk call parameters decision_id component reason db = do
  evidence ← validate_mutation rt call (parameters no_fields) none db
  budget_action clerk call (parameters (expecting evidence.available_after)) decision_id component
      reason (call.uuid 2)

unfoldable pub settle_action :
    Runtime → Clerk → Call → String → String → String → ℤ → Database → Result Failure ActionRequest
settle_action rt clerk call actor id key amount db = do
  request ← request_detail actor id db
  current ← current_version request db
  decision_id ← approved_decision_id request db
  validated_action rt clerk call
      (ending_parameters settlement actor key request current (json_of amount) decision_id)
      (join ("budget-settle-" ∷ call.uuid 1 ∷ [])) request.budget_id
      (join ("Settle purchase request " ∷ id ∷ [])) db

unfoldable pub cancel_action :
    Runtime → Clerk → Call → String → String → String → Database → Result Failure ActionRequest
cancel_action rt clerk call actor id key db = do
  request ← request_detail actor id db
  current ← current_version request db
  decision_id ← approved_decision_id request db
  validated_action rt clerk call
      (ending_parameters cancellation actor key request current (json_of current.amount_minor)
        decision_id)
      (join ("budget-cancel-" ∷ call.uuid 1 ∷ [])) request.budget_id
      (join ("Cancel purchase request " ∷ id ∷ [])) db

-- `organization`, of a database that has been initialized.
unfoldable pub organization : Database → Result Failure Organization
organization db =
    or_raise (fetch_one (λ o. true) db.organizations)
      (budget_error "not_initialized" "Budget Control is not initialized")

unfoldable pub adjust_action :
    Runtime
    → Clerk
    → Call
    → String
    → String
    → String
    → ℤ
    → String
    → String
    → Database
    → Result Failure ActionRequest
adjust_action rt clerk call actor budget_id key amount currency reason db = do
  found ← organization db
  validated_action rt clerk call
      (change_parameters adjustment actor key found.id budget_id amount currency reason)
      (join ("budget-adjust-" ∷ call.uuid 1 ∷ [])) budget_id
      (join ("Adjust budget " ∷ budget_id ∷ ": " ∷ reason ∷ [])) db

unfoldable pub correct_action :
    Runtime
    → Clerk
    → Call
    → String
    → String
    → String
    → ℤ
    → String
    → String
    → String
    → Database
    → Result Failure ActionRequest
correct_action rt clerk call actor budget_id key amount currency reason target db = do
  found ← organization db
  validated_action rt clerk call
      (λ rest.
        change_parameters correction actor key found.id budget_id amount currency reason
          (field "correction_of" (text target) rest))
      (join ("budget-correct-" ∷ call.uuid 1 ∷ [])) budget_id
      (join ("Correct ledger entry " ∷ target ∷ ": " ∷ reason ∷ [])) db
