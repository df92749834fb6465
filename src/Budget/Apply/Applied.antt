-- ===== src/Budget/Apply/Applied.antt =====
-- A call of apply_mutation, taken apart: the validation, the writes and the receipt.
use rmt_platform.Prelude.{
  String, Bool, true, false, Option, none, some, ◌≡◌, refl, sym, ap, ◌∙◌, subst, inl, inr,
  if◌then◌else◌, ◌==◌, string_eq,
}
use rmt_platform.Prelude.Json.{Fields}
use rmt_platform.Prelude.Result.{Result, ok, err, ok_injective, Result-cases}
use rmt_platform.Prelude.Chain.{bind-elim, guard-eq-ok}
use rmt_platform.Budget.Models.{Failure, MutationType, MutationReceipt}
use rmt_platform.Budget.Storage.{
  LedgerEntry, Database, insert_receipt, ended, immediate_transaction,
}
use rmt_platform.Budget.Repository.{Runtime, Call, text_at, receipt_by_digest}
use rmt_platform.Budget.Validate.{Evidence, validate_mutation, validate_under, validate_new}
use rmt_platform.Budget.Apply.{
  apply_mutation, apply_keyed, apply_once, apply_under, apply_new, finish,
}
use rmt_platform.Budget.Post.{post}
use rmt_platform.Budget.Apply.Bootstrapped.{books}
use rmt_platform.Budget.Apply.Posted.{post-IsPosted}
use rmt_platform.Budget.Apply.Invariant.{new-IsSound}
use rmt_platform.Budget.Sound.{IsSound}

-- A property of the database that a body keeps when it returns is kept by its transaction.
pub transaction-keeps :
    {A : Type 0} (P : Database → Type 0) (body : Database → Result Failure (A × Database))
    (db : Database)
    → P db
    → ((returned : A) (db' : Database) → body db ≡ ok (returned, db') → P db')
    → P (immediate_transaction body db).1
transaction-keeps P body db holds kept = elim (Result-cases (body db)) [
  | inl (raised, e) ↦ subst (λ r. P (ended db r).1) (sym e) holds
  | inr (found, e) ↦ subst (λ r. P (ended db r).1) (sym e) (kept found.0 found.1 e)
]

-- What apply_mutation changes, when it changes anything: a validated mutation, posted.
pub finish-books :
    (rt : Runtime) (key : String) (parameters : Fields) (evidence : Evidence) (t : LedgerEntry)
    (db : Database) {receipt : MutationReceipt} {db' : Database}
    → finish rt key parameters evidence t db ≡ ok (receipt, db')
    → books db ≡ books db'
unfolding finish insert_receipt
finish-books rt key parameters evidence t db h =
    let (_, h1) = guard-eq-ok _ h in
    bind-elim h1 (λ db1 kept h2.
      let (_, h3) = guard-eq-ok _ kept in
      let (_, h4) = guard-eq-ok _ h3 in
      let (_, h5) = guard-eq-ok _ h4 in
      ap books (ok_injective h5) ∙ ap (λ r. books r.1) (ok_injective h2))

pub validate_mutation-new :
    (rt : Runtime) (call : Call) (parameters : Fields) (digest : String) (db : Database)
    → {evidence : Evidence} → receipt_by_digest digest db ≡ none
    → validate_mutation rt call parameters (some digest) db ≡ ok evidence
    → (mutation : MutationType) × (actor : String) × (currency : String) × (text_at parameters
          "actor"
        ≡ ok actor)
      × (validate_new rt call mutation actor currency parameters (some digest) db ≡ ok evidence)
unfolding validate_mutation validate_under
validate_mutation-new rt call parameters digest db {evidence} unknown h =
    bind-elim h (λ mutation _ h1. bind-elim h1 (λ actor acts h2. bind-elim h2 (λ currency _ h3. (
      mutation,
      actor,
      currency,
      acts,
      subst
          (λ r.
            validate_under r rt call mutation actor currency parameters (some digest) db
            ≡ ok evidence)
          (no_receipt (digest == "") unknown) h3,
    ))))
  where
    no_receipt :
        (test : Bool) {o : Option MutationReceipt} → o ≡ none → (if test then none else o) ≡ none
    no_receipt true h = refl
    no_receipt false h = h

-- The parts of a mutation that is applied for the first time.
pub apply_new-parts :
    (rt : Runtime) (call : Call) (key : String) (parameters : Fields) (digest execution_id : String)
    (db : Database) {receipt : MutationReceipt} {db' : Database}
    → apply_new rt call key parameters digest execution_id db ≡ ok (receipt, db')
    → (evidence : Evidence) × (t : LedgerEntry) × (posted : Database) × (validate_mutation rt call
          parameters
          (some digest)
          db
        ≡ ok evidence)
      × (post call parameters digest execution_id evidence db ≡ ok (t, posted))
      × (finish rt key parameters evidence t posted ≡ ok (receipt, db'))
unfolding apply_new
apply_new-parts rt call key parameters digest execution_id db h =
    let (_, h1) = guard-eq-ok _ h in
    bind-elim h1 (λ evidence validated h2.
      bind-elim h2 (λ made posted h3. (evidence, made.0, made.1, validated, posted, h3)))

apply_under-IsSound :
    (existing : Option MutationReceipt) (rt : Runtime) (call : Call) (key : String)
    (parameters : Fields) (digest execution_id : String) (db : Database) {receipt : MutationReceipt}
    {db' : Database}
    → receipt_by_digest digest db ≡ existing
    → IsSound (books db)
    → apply_under existing rt call key parameters digest execution_id db ≡ ok (receipt, db')
    → IsSound (books db')
unfolding apply_under
apply_under-IsSound (some existing) rt call key parameters digest execution_id db known sound h =
    let (_, h1) = guard-eq-ok _ h in subst (λ r. IsSound (books r.1)) (ok_injective h1) sound
apply_under-IsSound none rt call key parameters digest execution_id db known sound h =
    let (evidence, t, posted, validated, written, finished) =
      apply_new-parts rt call key parameters digest execution_id db h in
    let (mutation, actor, currency, _, fresh) =
      validate_mutation-new rt call parameters digest db known validated in
    subst IsSound (finish-books rt key parameters evidence t posted finished) (
      new-IsSound rt call mutation actor currency parameters (some digest) db sound fresh
        (post-IsPosted call parameters digest execution_id evidence db written))

apply_keyed-IsSound :
    (key : Result Failure String) (rt : Runtime) (call : Call) (parameters : Fields)
    (digest execution_id : String) (db : Database)
    → IsSound (books db)
    → IsSound (books (apply_keyed key rt call parameters digest execution_id db).1)
unfolding apply_keyed apply_once
apply_keyed-IsSound (err raised) rt call parameters digest execution_id db sound = sound
apply_keyed-IsSound (ok key) rt call parameters digest execution_id db sound =
    transaction-keeps (λ d. IsSound (books d))
      (apply_once rt call key parameters digest execution_id) db sound
      (λ receipt db'.
        apply_under-IsSound (receipt_by_digest digest db) rt call key parameters digest execution_id
          db refl sound)

pub apply_mutation-IsSound :
    (rt : Runtime) (call : Call) (parameters : Fields) (digest execution_id : String)
    (db : Database)
    → IsSound (books db)
    → IsSound (books (apply_mutation rt call parameters digest execution_id db).1)
unfolding apply_mutation
apply_mutation-IsSound rt call parameters digest execution_id db =
    apply_keyed-IsSound (text_at parameters "idempotency_key") rt call parameters digest
      execution_id db
