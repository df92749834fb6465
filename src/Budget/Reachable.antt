-- ===== src/Budget/Reachable.antt =====
-- The states that the budget database can reach from an empty one, by the operations of
-- budget/repository.py that change it.
pub mod Effect
pub mod Separation
use rmt_platform.Budget.Balance.Ended.{ends_of, once-bound}
use rmt_platform.Prelude.{
  ℕ, ◌+◌, ◌≤◌, String, Bool, true, false, not, ◌||◌, Option, none, some, List, [], ◌∷◌, ◌≡◌, refl,
  sym, ap, ◌∙◌, subst, inl, inr, Bool-cases, Option-cases, if◌then◌else◌, arith, ◌==◌, string_eq,
  All,
}
use rmt_platform.Prelude.Int.{ℤ, pos, ◌≤ℤ◌, ltb_ℤ, ◌+ℤ◌, ◌-ℤ◌}
use rmt_platform.Prelude.Text.{strip}
use rmt_platform.Prelude.Json.{Fields}
use rmt_platform.Prelude.Result.{Result, ok, err, ok_injective, Result-cases}
use rmt_platform.Prelude.Chain.{bind-elim, guard-eq-ok, then-eq-ok}
use rmt_platform.Budget.Models.{Failure, MutationType, MutationReceipt}
use rmt_platform.Budget.Storage.{
  Budget, PurchaseRequest, RequestVersion, DomainDecision, LedgerEntry, Database, exists,
  insert_request, insert_version, insert_decision, insert_receipt, update_request, ended,
  immediate_transaction,
}
use rmt_platform.Budget.Repository.{Runtime, Call, text_at, receipt_by_digest}
use rmt_platform.Budget.Balance.{available_minor, available_in, sum_of}
use rmt_platform.Budget.Requests.{
  Proposal, Ruling, insert_draft, create_request, insert_next, add_request_version, submit,
  submit_request, decide, save_decision,
}
use rmt_platform.Budget.Validate.{
  Evidence, validate_mutation, validate_under, validate_new, existing_receipt,
}
use rmt_platform.Budget.Apply.{
  apply_mutation, apply_keyed, apply_once, apply_under, apply_new, finish,
}
use rmt_platform.Budget.Post.{post}
use rmt_platform.Budget.Apply.Bootstrapped.{Books, books}
use rmt_platform.Budget.Apply.Posted.{post-IsPosted}
use rmt_platform.Budget.Apply.Invariant.{new-IsSound}
use rmt_platform.Budget.Sound.{IsSound, IsStripped}
use rmt_platform.Budget.Sound.Rows.{
  identity, IsKept, update-IsKept, update-IsStripped, insert-IsKept, kept-IsFiled,
}
use rmt_platform.Budget.Requests.Kept.{
  submit-IsSound, decide-IsSound, insert_next-IsSound, insert_draft-IsSound,
}
use rmt_platform.Budget.Apply.Applied.{transaction-keeps, apply_mutation-IsSound}

unfoldable pub empty_database : Database
empty_database = record {
  organizations = [];
  budgets = [];
  role_assignments = [];
  purchase_requests = [];
  purchase_request_versions = [];
  domain_decisions = [];
  ledger_entries = [];
  idempotency_receipts = [];
  financial_verifications = [];
}

-- One call of an operation, whether it returns or raises. The identifiers of new requests have no
-- white space around them, as those of uuid4 have none.
pub data Step (rt : Runtime) : Database → Database → Type 0 where
  create_step :
      (call : Call) (actor budget_id : String) (p : Proposal) (db : Database)
      → strip (call.uuid 0) ≡ call.uuid 0
      → Step rt db (create_request rt call actor budget_id p db).1
  version_step :
      (call : Call) (actor id : String) (p : Proposal) (db : Database)
      → Step rt db (add_request_version rt call actor id p db).1
  submit_step :
      (call : Call) (actor id : String) (db : Database)
      → Step rt db (submit_request call actor id db).1
  decide_step :
      (call : Call) (actor id : String) (r : Ruling) (db : Database)
      → Step rt db (save_decision rt call actor id r db).1
  apply_step :
      (call : Call) (parameters : Fields) (digest execution_id : String) (db : Database)
      → Step rt db (apply_mutation rt call parameters digest execution_id db).1

pub data IsReachable (rt : Runtime) : Database → Type 0 where
  start : IsReachable rt empty_database
  step : {db db' : Database} → IsReachable rt db → Step rt db db' → IsReachable rt db'

guarded-IsSound :
    {A : Type 0} (test : Bool) (raised : A) (rest : A × Database) (db : Database)
    → IsSound (books db)
    → IsSound (books rest.1)
    → IsSound (books (if test then (raised, db) else rest).1)
guarded-IsSound true raised rest db sound later = sound
guarded-IsSound false raised rest db sound later = later

-- Every operation keeps the invariant.
Step-IsSound :
    (rt : Runtime) {db db' : Database} → Step rt db db' → IsSound (books db) → IsSound (books db')
unfolding create_request add_request_version submit_request save_decision
Step-IsSound rt (create_step call actor budget_id p db stripped) sound =
    guarded-IsSound (not (ltb_ℤ (pos 0) p.amount_minor)) _ _ db sound (
      guarded-IsSound (strip p.purpose == "") _ _ db sound (
        transaction-keeps (λ d. IsSound (books d)) (insert_draft rt call actor budget_id p) db sound
          (λ id db'. insert_draft-IsSound rt call actor budget_id p db stripped sound)))
Step-IsSound rt (version_step call actor id p db) sound =
    guarded-IsSound (not (ltb_ℤ (pos 0) p.amount_minor) || (strip p.purpose == "")) _ _ db sound (
      transaction-keeps (λ d. IsSound (books d)) (insert_next rt call actor id p) db sound
        (λ returned db'. insert_next-IsSound rt call actor id p db sound))
Step-IsSound rt (submit_step call actor id db) sound =
    transaction-keeps (λ d. IsSound (books d)) (submit call actor id) db sound
      (λ returned db'. submit-IsSound call actor id db sound)
Step-IsSound rt (decide_step call actor id r db) sound =
    transaction-keeps (λ d. IsSound (books d)) (decide rt call actor id r) db sound
      (λ returned db'. decide-IsSound rt call actor id r db sound)
Step-IsSound rt (apply_step call parameters digest execution_id db) sound =
    apply_mutation-IsSound rt call parameters digest execution_id db sound

empty-IsSound : IsSound (books empty_database)
unfolding empty_database available_in sum_of ◌+ℤ◌ ◌-ℤ◌
empty-IsSound = record {
  keyed = tt;
  linked = tt;
  budgeted = tt;
  filed = tt;
  stripped = tt;
  once = tt;
  solvent = λ b. omega arith;
}

pub reachable-IsSound : (rt : Runtime) {db : Database} → IsReachable rt db → IsSound (books db)
reachable-IsSound rt start = empty-IsSound
reachable-IsSound rt (step before one) = Step-IsSound rt one (reachable-IsSound rt before)

-- In every database that the operations can reach from an empty one, whatever their arguments and
-- whether they return or raise, no budget has an available balance under 0.
pub reachable-solvent :
    (rt : Runtime) (db : Database) (budget : String)
    → IsReachable rt db
    → pos 0 ≤ℤ available_minor budget db
unfolding available_minor
reachable-solvent rt db budget reached = (reachable-IsSound rt reached).solvent budget

-- In every database that the operations can reach from an empty one, at most one settlement or
-- cancellation of the ledger refers to any identifier: no commitment is ended twice.
pub reachable-ended :
    (rt : Runtime) (db : Database) (id : String)
    → IsReachable rt db
    → ends_of id db.ledger_entries ≤ 1
reachable-ended rt db id reached =
    once-bound id db.ledger_entries (reachable-IsSound rt reached).once
