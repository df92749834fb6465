-- ===== src/Tests/Ledgers.antt =====
-- A budget from its bootstrap to a commitment: alice asks, olga approves and commits.
use rmt_platform.Prelude.{
  ◌≤◌, ℕ, ◌+◌, String, true, false, none, some, [], ◌∷◌, ◌≡◌, ◌==◌, refl, string_eq, nat_eq,
  option_beq, if◌then◌else◌,
}
use rmt_platform.Prelude.Int.{pos, ◌≤ℤ◌, ◌+ℤ◌, ◌-ℤ◌}
use rmt_platform.Prelude.Text.{strip, strip_left, strip_right, is_space}
use rmt_platform.Prelude.Json.{text, natural, Fields, no_fields, field, get}
use rmt_platform.Prelude.Result.{Result, ok, err}
use rmt_platform.Prelude.Chain.{◌>>=◌, ◌>>◌, raise_if, or_raise}
use rmt_platform.Budget.Models.{
  MutationReceipt, exception, bootstrap, commitment, settlement, mutation_of, mutation_value,
  Failure, verified_success,
}
use rmt_platform.Budget.Storage.{
  Database, fetch_one, exists, insert_organization, insert_budget, insert_role, insert_entry,
  insert_receipt, insert_request, insert_version, insert_decision, update_request, LedgerEntry,
  insert_verification, PurchaseRequest,
}
use rmt_platform.Budget.Storage.EntryType.{committed_entry}
use rmt_platform.Budget.Repository.{
  Runtime, Call, required_text, required_integer, positive_at, mutation_at, currency_at,
  receipt_by_digest, receipt_by_key, request_by_id, version_of, budget_by_id, require_open_period,
  has_role, require_role, transition,
}
use rmt_platform.Budget.Balance.{
  available_minor, available_in, sum_of, open_commitment, available_minor_at,
}
use rmt_platform.Budget.Requests.{
  Proposal, Ruling, create_request, insert_draft, submit_request, submit, save_decision, decide,
}
use rmt_platform.Budget.Validate.{
  Evidence, validate_mutation, validate_under, validate_new, validate_bootstrap, validate_entry,
}
use rmt_platform.Budget.Terms.{
  assess, validate_change, validate_target, validate_request, validate_terms, validate_commitment,
  bound_decision, is_bound, commitment_of, validate_settlement, validate_cancellation,
}
use rmt_platform.Budget.Apply.{
  apply_mutation, apply_keyed, apply_once, apply_under, apply_new, finish, receipt_of,
}
use rmt_platform.Budget.Post.{
  destination_of, bootstrap_rows, budget_destination, ended_by, links_of, move_request,
  entry_type_of, post,
}
use rmt_platform.Budget.Reachable.{
  empty_database, create_step, submit_step, decide_step, apply_step, IsReachable, start, step,
  reachable-solvent, reachable-ended,
}
use rmt_platform.Budget.Reachable.Effect.{IsApplied, apply-effect, finish-balanced}
use rmt_platform.Budget.Reachable.Separation.{reachable-apart}
use rmt_platform.Budget.Adapter.{execute}
use rmt_platform.Budget.Balance.Ended.{ends_of}
use rmt_platform.Budget.Adapter.Truthful.{IsTruthful, execute-IsTruthful}
use rmt_platform.Budget.Observer.{
  verify, recorded, record_finding, kept_row, integer_value, budget_key, observed_balance, observe,
  compare_receipt, comparisons, mismatches, judge, outcome_value,
}
use rmt_platform.Budget.Observer.Verified.{IsVerified, verify-IsVerified}
use rmt_platform.Budget.Evaluators.{evaluate_policy, policy_of, evaluate_risk, risk_of}
use rmt_platform.Budget.Evaluators.Agree.{AreAgreed, evaluators-agree}
use rmt_platform.Actions.Models.{ActionRequest, ActionStatus, create, value}
use rmt_platform.Actions.Policy.{ActionPolicyResult}
use rmt_platform.Actions.Simulation.{ActionSimulationResult}
use rmt_platform.Budget.Apply.Once.{apply-once}

abbrev pub key_of : Fields → String
key_of f = elim (get "idempotency_key" f) [ some (text k) ↦ k | _ ↦ "" ]

abbrev pub runtime : Runtime
runtime = record {
  is_alpha = λ s. true;
  upper = λ s. s;
  repr = λ s. s;
  decimal = λ i. "a number";
  integral = λ shown. none;
  bound_text = λ value. err (exception "InterfaceError");
  content_digest = key_of;
  bootstrap_principal = "root";
}

abbrev drawn : String → String → String → String → ℕ → String
drawn a b c d n = if n == 0 then a else (if n == 1 then b else (if n == 2 then c else d))

abbrev pub first_call : Call
first_call = record { now = 1; later = 2; today = "2026-05-01"; uuid = drawn "l1" "r1" "r2" "r3" }

abbrev pub boot : Fields
boot = field "mutation_type" (text "bootstrap") (
    field "organization_id" (text "o1") (
      field "organization_name" (text "Home") (
        field "budget_id" (text "b1") (
          field "budget_name" (text "Lab") (
            field "owner_type" (text "project") (
              field "owner_name" (text "Lab") (
                field "period_start" (text "2026-01-01") (
                  field "period_end" (text "2026-12-31") (
                    field "currency" (text "EUR") (
                      field "allocation_minor" (natural 100) (
                        field "owner_principal" (text "olga") (
                          field "requester_principal" (text "alice") (
                            field "actor" (text "root")
                              (field "idempotency_key" (text "k1") no_fields))))))))))))))

abbrev pub opened : Database
opened = (apply_mutation runtime first_call boot "d1" "e1" empty_database).1

abbrev boot_receipt : MutationReceipt
boot_receipt = record {
  instruction_digest = "d1";
  idempotency_key = "k1";
  content_digest = "k1";
  parameters = boot;
  execution_id = "e1";
  ledger_entry_id = "l1";
  mutation_type = bootstrap;
  request_id = none;
  request_version = none;
  available_minor = pos 100;
  currency = "EUR";
  created_at = 1;
}

abbrev call_at : ℕ → String → Call
call_at now id = record { now = now; later = now + 1; today = "2026-05-01"; uuid = λ n. id }

abbrev proposal : Proposal
proposal = record {
  amount_minor = pos 30;
  currency = "EUR";
  purpose = "a disk";
  supporting_reference = "";
}

abbrev pub asked : Database
asked = (create_request runtime (call_at 3 "q1") "alice" "b1" proposal opened).1

abbrev pub submitted_one : Database
submitted_one = (submit_request (call_at 5 "x") "alice" "q1" asked).1

abbrev ruling : Ruling
ruling = record {
  decision_id = "c1";
  decision = "approved";
  reason = "needed";
  instruction_digest = some "d2";
  action_json = some "{}";
  balance_evidence_minor = some (pos 100);
}

abbrev pub decided_one : Database
decided_one = (save_decision runtime (call_at 7 "x") "olga" "q1" ruling submitted_one).1

abbrev pub commit_one : Fields
commit_one = field "mutation_type" (text "commitment") (
    field "budget_id" (text "b1") (
      field "request_id" (text "q1") (
        field "request_version" (natural 1) (
          field "currency" (text "EUR") (
            field "amount_minor" (natural 30) (
              field "actor" (text "olga") (
                field "domain_approval_id" (text "c1") (
                  field "idempotency_key" (text "k2")
                    (field "expected_available_minor" (natural 70) no_fields)))))))))

abbrev pub committed_one : Database
committed_one = (apply_mutation runtime (call_at 9 "l2") commit_one "d2" "e2" decided_one).1

abbrev pub commit_receipt : MutationReceipt
commit_receipt = record {
  instruction_digest = "d2";
  idempotency_key = "k2";
  content_digest = "k2";
  parameters = commit_one;
  execution_id = "e2";
  ledger_entry_id = "l2";
  mutation_type = commitment;
  request_id = some "q1";
  request_version = some 1;
  available_minor = pos 70;
  currency = "EUR";
  created_at = 9;
}

abbrev settle_one : Fields
settle_one = field "mutation_type" (text "settlement") (
    field "budget_id" (text "b1") (
      field "request_id" (text "q1") (
        field "request_version" (natural 1) (
          field "currency" (text "EUR") (
            field "amount_minor" (natural 25)
              (field "actor" (text "olga") (field "idempotency_key" (text "k3") no_fields)))))))

abbrev settle_receipt : MutationReceipt
settle_receipt = record {
  instruction_digest = "d3";
  idempotency_key = "k3";
  content_digest = "k3";
  parameters = settle_one;
  execution_id = "e3";
  ledger_entry_id = "l3";
  mutation_type = settlement;
  request_id = some "q1";
  request_version = some 1;
  available_minor = pos 75;
  currency = "EUR";
  created_at = 12;
}

abbrev settled_one : Database
settled_one = (apply_mutation runtime (call_at 12 "l3") settle_one "d3" "e3" committed_one).1

abbrev commit_evidence : Evidence
commit_evidence = record {
  mutation_type = commitment;
  budget_id = some (text "b1");
  currency = "EUR";
  amount_minor = natural 30;
  available_before = pos 100;
  available_after = pos 70;
  evidence = "budget:b1" ∷ "balance:a number" ∷ "mutation:commitment" ∷ [];
}

abbrev commit_entry : LedgerEntry
commit_entry = record {
  id = "l2";
  organization_id = "o1";
  budget_id = "b1";
  entry_type = committed_entry;
  amount_minor = pos 30;
  currency = "EUR";
  request_id = some "q1";
  request_version = some 1;
  related_entry_id = none;
  correction_of = none;
  instruction_digest = "d2";
  execution_id = "e2";
  actor = "olga";
  created_at = 9;
}

-- The tables after the writes, before the receipt.
abbrev tables_of : Result Failure (LedgerEntry × Database) → Database
tables_of (ok (t, db)) = db
tables_of (err raised) = empty_database

abbrev posted_one : Database
posted_one = tables_of (post (call_at 9 "l2") commit_one "d2" "e2" commit_evidence decided_one)

q1_stripped : strip "q1" ≡ "q1"
unfolding strip strip_left strip_right is_space
q1_stripped = refl

-- What the calls return: the bootstrap, the validation of the commitment, its writes, its receipt,
-- and the observer's view of it; then the settlement.
run :
    ((apply_mutation runtime first_call boot "d1" "e1" empty_database).0 ≡ ok boot_receipt)
    × (receipt_by_digest "d2" decided_one ≡ none)
    × (validate_mutation runtime (call_at 9 "l2") commit_one (some "d2") decided_one
        ≡ ok commit_evidence)
    × (post (call_at 9 "l2") commit_one "d2" "e2" commit_evidence decided_one
        ≡ ok (commit_entry, posted_one))
    × (apply_mutation runtime (call_at 9 "l2") commit_one "d2" "e2" decided_one
        ≡ (ok commit_receipt, committed_one))
    × ((verify runtime (call_at 11 "v1") "e2" "d2" commit_one committed_one).0.status
        ≡ verified_success)
    × (fetch_one (λ e. e.id == "l2") committed_one.ledger_entries ≡ some commit_entry)
    × ((apply_mutation runtime (call_at 12 "l3") settle_one "d3" "e3" committed_one).0
        ≡ ok settle_receipt)
    × (ends_of "l2" settled_one.ledger_entries ≡ 1)
unfolding ends_of apply_mutation apply_keyed apply_once apply_under apply_new destination_of
    bootstrap_rows budget_destination links_of ended_by move_request transition update_request
    entry_type_of post finish validate_mutation validate_under validate_new validate_bootstrap
    validate_entry assess validate_change validate_target validate_request validate_terms
    validate_commitment bound_decision is_bound commitment_of validate_settlement
    validate_cancellation open_commitment required_text required_integer positive_at mutation_at
    mutation_value currency_at request_by_id version_of budget_by_id require_open_period has_role
    require_role receipt_by_digest receipt_by_key fetch_one exists insert_organization insert_budget
    insert_role insert_entry insert_receipt insert_request insert_version insert_decision
    create_request insert_draft submit_request submit save_decision decide empty_database
    available_minor available_in sum_of ◌>>=◌ ◌>>◌ raise_if or_raise mutation_of strip strip_left
    strip_right is_space get ◌+ℤ◌ ◌-ℤ◌ option_beq verify recorded record_finding kept_row observe
    integer_value budget_key observed_balance compare_receipt comparisons mismatches judge
    insert_verification available_minor_at outcome_value
run = (refl, refl, refl, refl, refl, refl, refl, refl, refl)

decided_reached : IsReachable runtime decided_one
decided_reached =
    step
      (step
        (step (step start (apply_step first_call boot "d1" "e1" empty_database))
          (create_step (call_at 3 "q1") "alice" "b1" proposal opened q1_stripped))
        (submit_step (call_at 5 "x") "alice" "q1" asked))
      (decide_step (call_at 7 "x") "olga" "q1" ruling submitted_one)

committed_reached : IsReachable runtime committed_one
committed_reached =
    step decided_reached (apply_step (call_at 9 "l2") commit_one "d2" "e2" decided_one)

reachable-solvent_example : pos 0 ≤ℤ available_minor "b1" committed_one
reachable-solvent_example = reachable-solvent runtime committed_one "b1" committed_reached

reachable-ended_example : ends_of "l2" settled_one.ledger_entries ≤ 1
reachable-ended_example =
    reachable-ended runtime settled_one "l2"
      (step committed_reached (apply_step (call_at 12 "l3") settle_one "d3" "e3" committed_one))

apply-effect_example :
    IsApplied runtime (call_at 9 "l2") commit_one "d2" decided_one commit_receipt committed_one
apply-effect_example =
    apply-effect runtime (call_at 9 "l2") commit_one "d2" "e2" decided_one commit_receipt
      committed_one decided_reached run.1 run.4

finish-balanced_example : finish runtime "k2" commit_one commit_evidence commit_entry posted_one ≡ (
    insert_receipt
      (receipt_of runtime "k2" commit_one commit_evidence commit_entry (pos 70))
      posted_one
    >>= λ db'. ok (receipt_of runtime "k2" commit_one commit_evidence commit_entry (pos 70), db'))
finish-balanced_example =
    finish-balanced runtime (call_at 9 "l2") commit_one "d2" "e2" "k2" commit_evidence decided_one
      commit_entry posted_one decided_reached run.1 run.2 run.3

apply-once_example :
    apply_mutation runtime (call_at 20 "l9") commit_one "d2" "e9" committed_one
    ≡ (ok commit_receipt, committed_one)
apply-once_example =
    apply-once runtime commit_one "d2" (call_at 9 "l2") (call_at 20 "l9") "e2" "e9" decided_one
      commit_receipt committed_one run.4

reachable-apart_example :
    (request : PurchaseRequest) × (some "q1" ≡ some request.id)
    × (fetch_one (λ q. q.id == request.id) committed_one.purchase_requests ≡ some request)
    × ((request.requester == "olga") ≡ false)
reachable-apart_example =
    reachable-apart runtime committed_one "l2" commit_entry committed_reached run.6 refl

execute-IsTruthful_example :
    IsTruthful decided_one "d2"
      (execute runtime (call_at 9 "l2") true commit_one "d2" "e2" decided_one)
execute-IsTruthful_example =
    execute-IsTruthful runtime (call_at 9 "l2") true commit_one "d2" "e2" decided_one

verify-IsVerified_example :
    (receipt : MutationReceipt) × (receipt_by_digest "d2" committed_one ≡ some receipt)
    × IsVerified runtime "e2" commit_one committed_one receipt
verify-IsVerified_example =
    verify-IsVerified runtime (call_at 11 "v1") "e2" "d2" commit_one committed_one run.5

abbrev action : ActionRequest
action = record {
  action_id = "a2";
  created_at = 8;
  decision_id = "c1";
  governance_domain = "rmt.budget.v1";
  component = "b1";
  action_type = create;
  status = ActionStatus.pending;
  reason = "Commit";
  confidence = 100;
  requires_approval = false;
  rollback_required = true;
  parameters = commit_one;
  expected_outcome = none;
}

abbrev policy : ActionPolicyResult
policy = record {
  allowed = true;
  reason = "Budget domain policy and permission checks passed";
  requires_approval = false;
  evidence_references = "budget:b1" ∷ "balance:a number" ∷ "mutation:commitment" ∷ [];
}

abbrev risk : ActionSimulationResult
risk = record {
  action_id = "a2";
  component = "b1";
  action_type = "create";
  expected_impact =
      "Apply commitment for 30 EUR minor units; available changes from a number to a number";
  risk_level = "medium";
  rollback_available = true;
  uncertainty = "low: serialized transaction revalidates all evidence";
  recovery_semantics =
      "query durable receipt by immutable instruction digest; never replay an unresolved outcome";
  evidence_references = "budget:b1" ∷ "balance:a number" ∷ "mutation:commitment" ∷ [];
}

assessed :
    (evaluate_policy runtime (call_at 8 "x") action "d2" decided_one ≡ ok policy)
    × (evaluate_risk (λ v. "30") runtime (call_at 8 "x") action "d2" decided_one ≡ ok risk)
unfolding apply_mutation apply_keyed apply_once apply_under apply_new destination_of bootstrap_rows
    budget_destination links_of ended_by move_request transition update_request entry_type_of post
    finish validate_mutation validate_under validate_new validate_bootstrap validate_entry assess
    validate_change validate_target validate_request validate_terms validate_commitment
    bound_decision is_bound commitment_of validate_settlement validate_cancellation open_commitment
    required_text required_integer positive_at mutation_at mutation_value currency_at request_by_id
    version_of budget_by_id require_open_period has_role require_role receipt_by_digest
    receipt_by_key fetch_one exists insert_organization insert_budget insert_role insert_entry
    insert_receipt insert_request insert_version insert_decision create_request insert_draft
    submit_request submit save_decision decide empty_database available_minor available_in sum_of
    ◌>>=◌ ◌>>◌ raise_if or_raise mutation_of strip strip_left strip_right is_space get ◌+ℤ◌ ◌-ℤ◌
    option_beq evaluate_policy policy_of evaluate_risk risk_of value
assessed = (refl, refl)

evaluators-agree_example :
    AreAgreed
      (validate_mutation runtime (call_at 8 "x") commit_one (some "d2") decided_one)
      policy
      risk
evaluators-agree_example =
    evaluators-agree (λ v. "30") runtime action (call_at 8 "x") "d2" decided_one policy risk
      assessed.0 assessed.1
