-- ===== src/Budget/Requests.antt =====
-- budget/repository.py: purchase requests, their versions and the decisions on them.
pub mod Kept
use rmt_platform.Prelude.{
  ℕ, ◌+◌, String, Bool, true, false, not, ◌&&◌, ◌||◌, Option, none, some, List, [], ◌∷◌, ◌==◌, ◌!=◌,
  string_eq, nat_eq, option_eq, if◌then◌else◌, leb,
}
use rmt_platform.Prelude.Int.{ℤ, pos, ltb_ℤ}
use rmt_platform.Prelude.Text.{strip, falsy}
use rmt_platform.Prelude.Result.{Result, err, ok}
use rmt_platform.Prelude.Chain.{◌>>=◌, ◌>>◌, raise_if, or_raise}
use rmt_platform.Budget.Models.{
  budget_owner, requester, RequestStatus, draft, submitted, approved, rejected, committed, settled,
  cancelled, status_eq, Failure, budget_error,
}
use rmt_platform.Budget.Storage.{
  PurchaseRequest, RequestVersion, DomainDecision, RoleAssignment, Database, fetch_one, exists,
  insert_request, insert_version, insert_decision, update_request, immediate_transaction,
}
use rmt_platform.Budget.Repository.{
  Runtime, Call, request_by_id, budget_by_id, require_open_period, has_role, require_role,
  assign_status,
}

-- What a caller asks for: the budget's amount and its grounds.
pub record Proposal : Type 0 where
  pub amount_minor : ℤ
  pub currency : String
  pub purpose : String
  pub supporting_reference : String

abbrev version_row : Runtime → Call → String → String → ℕ → Proposal → RequestVersion
version_row rt call id actor version p = record {
  request_id = id;
  version = version;
  amount_minor = p.amount_minor;
  currency = rt.upper p.currency;
  purpose = strip p.purpose;
  supporting_reference = strip p.supporting_reference;
  created_by = actor;
  created_at = call.now;
}

-- The transaction of `create_request`, which returns the identifier of the request.
unfoldable pub insert_draft :
    Runtime → Call → String → String → Proposal → Database → Result Failure (String × Database)
insert_draft rt call actor budget_id p db = do
  require_role rt actor requester (some budget_id) db
  budget ← budget_by_id budget_id db
  raise_if (budget.currency != rt.upper p.currency)
      (budget_error "wrong_currency" "Request currency does not match budget")
  require_open_period call budget
  db1 ←
      insert_request
        (record {
          id = call.uuid 0;
          organization_id = budget.organization_id;
          budget_id = budget_id;
          requester = actor;
          status = draft;
          current_version = 1;
          created_at = call.now;
          updated_at = call.now;
        })
        db
  db2 ← insert_version (version_row rt call (call.uuid 0) actor 1 p) db1
  ok (call.uuid 0, db2)

-- `create_request`, up to the view of the request that it returns.
unfoldable pub create_request :
    Runtime → Call → String → String → Proposal → Database → Result Failure String × Database
create_request rt call actor budget_id p db =
    if not (ltb_ℤ (pos 0) p.amount_minor)
    then (err (budget_error "validation" "Request amount must be positive"), db)
    else (if strip p.purpose == ""
        then (err (budget_error "validation" "Purpose is required"), db)
        else immediate_transaction (insert_draft rt call actor budget_id p) db)

-- The statuses in which a request has been applied to the ledger.
abbrev pub is_applied : RequestStatus → Bool
is_applied committed = true
is_applied settled = true
is_applied cancelled = true
is_applied _ = false

abbrev pub assign_version : ℕ → ℕ → PurchaseRequest → PurchaseRequest
assign_version version now r = record r {
  current_version = version;
  status = draft;
  updated_at = now;
}

-- The transaction of `add_request_version`.
unfoldable pub insert_next :
    Runtime → Call → String → String → Proposal → Database → Result Failure (String × Database)
insert_next rt call actor id p db = do
  request ← request_by_id id db
  raise_if (request.requester != actor)
      (budget_error "forbidden" "Only the requester may create a new version")
  raise_if (is_applied request.status)
      (budget_error "invalid_transition" "Financially applied request is immutable")
  budget ← budget_by_id request.budget_id db
  raise_if (budget.currency != rt.upper p.currency)
      (budget_error "wrong_currency" "Request currency does not match budget")
  let version = request.current_version + 1
  db1 ← insert_version (version_row rt call id actor version p) db
  ok (
    id,
    record db1 {
      purchase_requests = update_request (assign_version version call.now) id db1.purchase_requests;
    },
  )

unfoldable pub add_request_version :
    Runtime → Call → String → String → Proposal → Database → Result Failure String × Database
add_request_version rt call actor id p db =
    if not (ltb_ℤ (pos 0) p.amount_minor) || (strip p.purpose == "")
    then (err (budget_error "validation" "Positive amount and purpose are required"), db)
    else immediate_transaction (insert_next rt call actor id p) db

-- The transaction of `submit_request`.
unfoldable pub submit : Call → String → String → Database → Result Failure (String × Database)
submit call actor id db = do
  request ← request_by_id id db
  raise_if (request.requester != actor) (budget_error "forbidden" "Only the requester may submit")
  raise_if (request.status != draft)
      (budget_error "invalid_transition" "Only a draft may be submitted")
  ok (
    id,
    record db {
      purchase_requests = update_request (assign_status submitted call.now) id db.purchase_requests;
    },
  )

unfoldable pub submit_request : Call → String → String → Database → Result Failure String × Database
submit_request call actor id db = immediate_transaction (submit call actor id) db

-- What `save_decision` writes besides the request and the actor.
pub record Ruling : Type 0 where
  pub decision_id : String
  pub decision : String
  pub reason : String
  pub instruction_digest : Option String
  pub action_json : Option String
  pub balance_evidence_minor : Option ℤ

-- The status of the value of a decision that has been tested.
abbrev pub ruled : String → RequestStatus
ruled decision = if decision == "approved" then approved else rejected

-- The transaction of `save_decision`.
unfoldable pub decide :
    Runtime → Call → String → String → Ruling → Database → Result Failure (String × Database)
decide rt call actor id r db = do
  request ← request_by_id id db
  require_role rt actor budget_owner (some request.budget_id) db
  raise_if (request.requester == actor)
      (budget_error "self_approval" "A requester cannot approve their own request")
  raise_if (request.status != submitted)
      (budget_error "stale_version" "Only the current submitted version may be decided")
  raise_if (not ((r.decision == "approved") || (r.decision == "rejected")))
      (budget_error "validation" "Decision must be approved or rejected")
  db1 ←
      insert_decision
        (record {
          id = r.decision_id;
          request_id = id;
          request_version = request.current_version;
          decision = r.decision;
          decided_by = actor;
          reason = strip r.reason;
          instruction_digest = r.instruction_digest;
          action_json = r.action_json;
          balance_evidence_minor = r.balance_evidence_minor;
          created_at = call.now;
        })
        db
  ok (
    id,
    record db1 {
      purchase_requests =
          update_request (assign_status (ruled r.decision) call.later) id db1.purchase_requests;
    },
  )

unfoldable pub save_decision :
    Runtime → Call → String → String → Ruling → Database → Result Failure String × Database
save_decision rt call actor id r db = immediate_transaction (decide rt call actor id r) db

-- `request_detail`, as the request that the actor may see.
unfoldable pub request_detail : String → String → Database → Result Failure PurchaseRequest
request_detail actor id db = do
  request ← request_by_id id db
  raise_if
      (not
        ((request.requester == actor) || has_role actor budget_owner (some request.budget_id) db))
      (budget_error "forbidden" "Purchase request is not permitted")
  ok request

-- `ORDER BY updated_at`, of the rows that pass the test.
unfoldable pub place : PurchaseRequest → List PurchaseRequest → List PurchaseRequest
place r [] = r ∷ []
place r (q ∷ qs) =
    let rest = place r qs in if leb r.updated_at q.updated_at then r ∷ q ∷ qs else q ∷ rest

unfoldable pub queue : (PurchaseRequest → Bool) → List PurchaseRequest → List PurchaseRequest
queue test [] = []
queue test (r ∷ rs) = let rest = queue test rs in if test r then place r rest else rest

-- `approval_queue`: what the actor, as an owner of the budget, may decide.
abbrev pub may_decide : String → Database → PurchaseRequest → Bool
may_decide actor db r =
    r.status == submitted
    && r.requester != actor
    && has_role actor budget_owner (some r.budget_id) db

unfoldable pub approval_queue : String → Database → List PurchaseRequest
approval_queue actor db = queue (may_decide actor db) db.purchase_requests

abbrev newer : DomainDecision → Option DomainDecision → DomainDecision
newer d none = d
newer d (some e) = if leb e.created_at d.created_at then d else e

-- `ORDER BY created_at DESC LIMIT 1`
unfoldable pub latest : (DomainDecision → Bool) → List DomainDecision → Option DomainDecision
latest test [] = none
latest test (d ∷ ds) = let rest = latest test ds in if test d then some (newer d rest) else rest

unfoldable pub approved_action : Runtime → String → String → Database → Result Failure String
approved_action rt actor id db = do
  request ← request_by_id id db
  require_role rt actor budget_owner (some request.budget_id) db
  decision ←
      or_raise
        (latest
          (λ d.
            d.request_id == id
            && d.request_version == request.current_version
            && d.decision == "approved")
          db.domain_decisions)
        (budget_error "approval_required" "Current version has no approval")
  raise_if (falsy decision.action_json)
      (budget_error "approval_required" "Current version has no approval")
  raise_if (decision.decided_by != actor)
      (budget_error "forbidden" "The deciding owner must apply the commitment")
  or_raise decision.action_json (budget_error "approval_required" "Current version has no approval")
