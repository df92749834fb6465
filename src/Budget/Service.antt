-- ===== src/Budget/Service.antt =====
-- budget/service.py: the calls of the budget's API, up to the action that each hands to the governed
-- path, the replay of a call by its key, and the reading of the outcome. The encoders of actions and
-- of JSON are a `Clerk`, and the governed path is an argument.
pub mod Outcome
pub mod Prepare
use rmt_platform.Prelude.{
  ℕ, String, Bool, true, false, not, ◌&&◌, ◌||◌, Option, none, some, List, [], ◌∷◌, ◌==◌, ◌!=◌,
  string_eq, nat_eq, if◌then◌else◌, all, is_some,
}
use rmt_platform.Prelude.Int.{ℤ, pos, ◌-ℤ◌}
use rmt_platform.Prelude.Text.{join}
use rmt_platform.Prelude.Json.{
  Json, null, natural, negative, text, object, Fields, no_fields, field, get,
}
use rmt_platform.Prelude.Result.{Result, err, ok}
use rmt_platform.Prelude.Chain.{◌>>=◌, ◌>>◌, raise_if, or_raise}
use rmt_platform.Actions.Models.{ActionRequest, ActionStatus, create, ExpectedOutcome}
use rmt_platform.Actions.Binding.{Hashing, bind_action}
use rmt_platform.Budget.Models.{
  governance_domain, adapter_name, budget_owner, MutationType, commitment, settlement, cancellation,
  adjustment, correction, mutation_value, Failure, budget_error, exception, MutationReceipt,
}
use rmt_platform.Budget.Storage.{Organization, PurchaseRequest, RequestVersion, Database, fetch_one}
use rmt_platform.Budget.Repository.{Runtime, Call, receipt_by_key}
use rmt_platform.Budget.Balance.{available_minor}
use rmt_platform.Budget.Requests.{Ruling, save_decision, request_detail, latest, approved_action}
use rmt_platform.Budget.Validate.{Evidence, json_of, value_or, equals_text, validate_mutation}
use rmt_platform.Budget.Observer.{Verification, equals_integer, verify}

pub record Clerk : Type 0 where
  pub hashing : Hashing
  -- `json.dumps(…, sort_keys=True)`
  pub dumps : Fields → String
  -- `model_dump_json` and `model_validate_json` of an action
  pub dump_action : ActionRequest → String
  pub load_action : String → Result Failure ActionRequest

-- `parameters[key]`
abbrev required : Fields → String → Result Failure Json
required parameters key = or_raise (get key parameters) (exception "KeyError")

-- `_action`
unfoldable pub budget_action :
    Clerk → Call → Fields → String → String → String → String → Result Failure ActionRequest
budget_action clerk call parameters decision_id component reason action_id = do
  mutation ← required parameters "mutation_type"
  budget ← required parameters "budget_id"
  currency ← required parameters "currency"
  available ← required parameters "expected_available_minor"
  let state = field "mutation_type" mutation (
      field "budget_id" budget (
        field "request_id" (value_or null (get "request_id" parameters)) (
          field "request_version" (value_or null (get "request_version" parameters))
            (field "currency" currency (field "available_minor" available no_fields)))))
  ok (record {
    action_id = action_id;
    created_at = call.now;
    decision_id = decision_id;
    governance_domain = governance_domain;
    component = component;
    action_type = create;
    status = ActionStatus.pending;
    reason = reason;
    confidence = 100;
    requires_approval = false;
    rollback_required = true;
    parameters = parameters;
    expected_outcome =
        some
          (record { target = component; operation = "create"; expected_state = clerk.dumps state });
  })

-- `_current_version`
unfoldable pub current_version : PurchaseRequest → Database → Result Failure RequestVersion
current_version request db =
    or_raise
      (fetch_one (λ v. v.request_id == request.id && v.version == request.current_version)
        db.purchase_request_versions)
      (budget_error "stale_version" "Current purchase request version is missing")

-- `_approved_decision_id`
unfoldable pub approved_decision_id : PurchaseRequest → Database → Result Failure String
approved_decision_id request db = do
  decision ←
      or_raise
        (latest
          (λ d.
            d.request_id == request.id
            && d.decision == "approved"
            && d.request_version == request.current_version)
          db.domain_decisions)
        (budget_error "approval_required" "Approved decision is missing")
  ok decision.id

-- The parameters of a commitment, which `decide` binds.
unfoldable pub commitment_parameters :
    String → PurchaseRequest → RequestVersion → String → ℤ → Fields
commitment_parameters actor request current decision_id available =
    field "mutation_type" (text (mutation_value commitment)) (
      field "organization_id" (text request.organization_id) (
        field "budget_id" (text request.budget_id) (
          field "request_id" (text request.id) (
            field "request_version" (natural request.current_version) (
              field "currency" (text current.currency) (
                field "amount_minor" (json_of current.amount_minor) (
                  field "actor" (text actor) (
                    field "domain_approval_id" (text decision_id) (
                      field "idempotency_key" (text (join ("commit:" ∷ decision_id ∷ []))) (
                        field "balance_evidence_minor" (json_of available) (
                          field "expected_available_minor"
                            (json_of (available -ℤ current.amount_minor)) no_fields)))))))))))

-- The digest of an action for the ledger's adapter.
unfoldable pub digest_of : Clerk → ActionRequest → Result Failure String
digest_of clerk action = elim (bind_action clerk.hashing action adapter_name) [
  | ok (digest, payload) ↦ ok digest
  | err invalid ↦ err (exception "InvalidInstruction")
]

-- The ruling that `decide` saves: a rejection, or an approval that is bound to the instruction.
unfoldable pub ruling_of :
    Clerk → Call → String → String → String → PurchaseRequest → Database → Result Failure Ruling
ruling_of clerk call actor decision reason request db =
    if decision == "rejected"
    then ok (record {
      decision_id = call.uuid 1;
      decision = "rejected";
      reason = reason;
      instruction_digest = none;
      action_json = none;
      balance_evidence_minor = none;
    })
    else (do
      current ← current_version request db
      let available = available_minor request.budget_id db
      action ←
          budget_action clerk call
            (commitment_parameters actor request current (call.uuid 1) available) (call.uuid 1)
            request.budget_id (join ("Commit approved purchase request " ∷ request.id ∷ []))
            (call.uuid 2)
      digest ← digest_of clerk action
      ok (record {
        decision_id = call.uuid 1;
        decision = "approved";
        reason = reason;
        instruction_digest = some digest;
        action_json = some (clerk.dump_action action);
        balance_evidence_minor = some available;
      }))

-- The ruling of `decide`, from the database as it reads it before the transaction.
unfoldable pub prepare_ruling :
    Clerk → Call → String → String → String → String → Database → Result Failure Ruling
prepare_ruling clerk call actor id decision reason db = do
  request ← request_detail actor id db
  ruling_of clerk call actor decision reason request db

unfoldable pub decide :
    Runtime
    → Clerk
    → Call
    → String
    → String
    → String
    → String
    → Database
    → Result Failure String × Database
decide rt clerk call actor id decision reason db =
    elim (prepare_ruling clerk call actor id decision reason db) [
      | err raised ↦ (err raised, db)
      | ok ruling ↦ save_decision rt call actor id ruling db
    ]

-- The action of `commit`: the one that the approval has kept.
unfoldable pub commit_action :
    Runtime → Clerk → String → String → Database → Result Failure ActionRequest
commit_action rt clerk actor id db = do
  action_json ← approved_action rt actor id db
  clerk.load_action action_json
