-- ===== src/Lib.antt =====
-- Verification of the governed execution path of the RMT platform: the backend of
-- projects/homelab-control-center/backend/app/ that assesses an action, decides whether it may run,
-- authorizes it, executes it through an adapter, and records what happened; and of the budget
-- ledger whose mutations pass through it. Paths below are relative to that directory.
--
-- The program's parts and the files that model them:
--   Durable           core/intelligence/durable_store.py: `DurableStore` as the records in memory
--                     together with the rows of its SQLite table or the entries of its JSON file;
--                     `save`, `update` (with `_commit_update`), `_replace_records`, and `reload`,
--                     which stands for a new process over the same path.
--   Actions/Models, Policy, Simulation, ApprovalPolicy
--                     the files of these names in core/intelligence/actions/: the action, the
--                     default policy and simulation, and `evaluate_approval`.
--   Actions/Binding   actions/binding.py: the payload of an instruction and its digest.
--   Actions/Assessment
--                     actions/assessment.py: the registry of governance domains and
--                     `resolve_assessment`.
--   Actions/Approval, Authorization
--                     the holds, decision records and authorizations with their stores.
--   Execution/Engine  core/intelligence/execution/engine.py: `ExecutionEngine.execute`, guard by
--                     guard, and the evidence that it saves. Execution/Models, Policy, Adapters and Translator are the other files
--                     of that directory.
--   Verification      core/intelligence/verification/: `Verifier.verify` and `verify_execution`.
--   Governance/Service
--                     `execute_governed_action` of actions/service.py.
--   Governance/Approve
--                     `approve_held_action` of actions/approval_service.py.
--   Decision          core/intelligence/decision/engine.py, and `decision_to_action` of
--                     actions/translator.py.
--   Ops/Reconcile     ops/reconcile.py: the correction of the hold store at a start; Ops/Reconcile/
--                     Restart puts it between two approvals of one hold.
--   Ops/Audit         ops/reconcile.py: the audit of the authorization store that follows.
--   Ops/Retention     ops/retention.py: the move of old records to the archive file.
--   Ops/RateLimit     ops/ratelimit.py: the fixed-window limiter.
--   Ops/Separation    ops/separation.py: the provenance of holds that agents raise, and the check that
--                     their grantors and proposers do not approve them.
--   Agent/Authority   agent/authority.py: the single-use grants of authority.
--   Budget/Models, Storage, Repository
--                     budget/models.py, the tables of budget/storage.py with their constraints
--                     and triggers, and the readers, `require_role` and `_transition` of
--                     budget/repository.py.
--   Budget/Balance    budget/repository.py: `available_minor`, `available_minor_at` and
--                     `_open_commitment`.
--   Budget/Requests   budget/repository.py: `create_request`, `add_request_version`,
--                     `submit_request`, `save_decision`, and the readers of a request.
--   Budget/Terms, Validate, Post, Apply
--                     `validate_mutation` (Terms has the tests of each kind of mutation) and
--                     `apply_mutation` (Post has its writes up to the receipt).
--   Budget/Sound, Apart, Reachable
--                     the invariants of the tables, and the steps that lead from empty tables to
--                     a reachable state: one call of an operation each, whether it returns or raises.
--   Budget/Adapter, Observer, Evaluators
--                     budget/adapter.py with its recovery of a receipt, budget/observer.py, and
--                     the evaluators of policy and risk.
--   Budget/Service    budget/service.py: the preparation of an action and the outcome of its run.
--   Prelude           numbers, text, dicts, results and ℤ as the other files use them.
--   Tests             concrete inputs, and the theorems applied to them.
--
-- State. `State W` of State holds the six evidence stores and a world of a type `W` that stays
-- abstract: what adapters act on (containers, repositories, files). Operations take a state and
-- give a result and a state; a call that may raise gives a `Result`. `Env` holds what one call
-- reads from outside: the clock, and the UUIDs it draws, by the place in the code that reads them.
--
-- Parameters. JSON encoding and SHA-256 (`Hashing`), the adapters (`Adapter`), the evaluators of a
-- domain, and the reader of the module list are arguments. In the budget ledger `Runtime` holds
-- the tables of Unicode, `repr`, the text of numbers, the digest of a payload, the integer that a
-- float equals, what sqlite3 binds a value of another type to, and the configured principal,
-- `Call` the clock readings and UUIDs of one call, and `Clerk` the encoders of actions and JSON;
-- whether a receipt can be read back after an exception is an argument of the adapter. The
-- theorems that need it assume that digests and UUIDs are not empty (`HasNames`).
--
-- Bounds. Times are microseconds. Numbers are naturals: a confidence below zero would act like
-- zero in every test here. No definition uses fuel: every loop of the modelled code is over a
-- list. Amounts of money are Python integers as ℤ. The tables are lists, the newest row first, and
-- `created_at` is a moment.
--
-- Not modelled: errors of SQLite and of the file system; concurrent calls; pydantic's validation
-- and serialisation, taken as exact; the `isinstance` tests of `resolve_assessment`, which the
-- types meet; that the action inside a hold in memory is the caller's object. Lower case is that
-- of ASCII. In the budget ledger, a `request_id` or version of another JSON type, or a version
-- below 0, is refused where SQLite would convert or store it; parameters hold no NaN, on which
-- their digest raises; and the opening of the database, its migration, the views of the service
-- and its first budget are left out. Outside the modelled part stand the HTTP routes, the Docker
-- and git adapters, the agent around its grants, the homelab domain, the self-management service
-- (which clears requires_approval on the actions that it governs), the reporting around them, and
-- the frontend.
pub mod Prelude
pub mod Durable
pub mod Environment
pub mod State
pub mod Actions
pub mod Execution
pub mod Verification
pub mod Governance
pub mod Decision
pub mod Ops
pub mod Agent
pub mod Budget
pub mod Tests
