-- ===== src/Budget/Apply/Once.antt =====
-- A mutation is applied at most once, and to the balance that its validation has foreseen.
use rmt_platform.Prelude.{
  String, true, Option, none, some, ◌≡◌, refl, sym, ap, ◌∙◌, subst, if_true, arith, ◌==◌, string_eq,
  ==-refl, !=-refl, !=→≡,
}
use rmt_platform.Prelude.Int.{int_eq}
use rmt_platform.Prelude.Json.{Fields}
use rmt_platform.Prelude.Result.{Result, ok, err, ok_injective}
use rmt_platform.Prelude.Chain.{bind-elim, guard-eq-ok, raise_if, ◌>>◌}
use rmt_platform.Budget.Models.{Failure, MutationReceipt}
use rmt_platform.Budget.Storage.{LedgerEntry, Database, fetch_one, insert_receipt, ended}
use rmt_platform.Budget.Repository.{Runtime, Call, text_at, receipt_by_digest}
use rmt_platform.Budget.Balance.{available_minor}
use rmt_platform.Budget.Validate.{Evidence}
use rmt_platform.Budget.Apply.{
  apply_mutation, apply_keyed, apply_once, apply_under, finish, receipt_of,
}
use rmt_platform.Budget.Post.{post}
use rmt_platform.Budget.Apply.Applied.{apply_new-parts}

-- A receipt that answers the instruction, its content and its key.
abbrev pub IsAnswer : Runtime → String → Fields → String → Database → MutationReceipt → Type 0
IsAnswer rt key parameters digest db receipt =
    (receipt_by_digest digest db ≡ some receipt)
    × (receipt.content_digest ≡ rt.content_digest parameters)
    × (receipt.idempotency_key ≡ key)

post-digest :
    (call : Call) (parameters : Fields) (digest execution_id : String) (evidence : Evidence)
    (db : Database) {t : LedgerEntry} {db' : Database}
    → post call parameters digest execution_id evidence db ≡ ok (t, db')
    → t.instruction_digest ≡ digest
unfolding post
post-digest call parameters digest execution_id evidence db h = bind-elim h (λ reached _ h1.
    bind-elim h1 (λ request_id _ h2. bind-elim h2 (λ version _ h3. bind-elim h3 (λ amount _ h4.
      bind-elim h4 (λ links _ h5. bind-elim h5 (λ db2 _ h6.
        bind-elim h6 (λ db3 _ h7. ap (λ r. r.0.instruction_digest) (sym (ok_injective h7)))))))))

finish-IsAnswer :
    (rt : Runtime) (key : String) (parameters : Fields) (digest : String) (evidence : Evidence)
    (t : LedgerEntry) (db : Database) {receipt : MutationReceipt} {db' : Database}
    → t.instruction_digest ≡ digest
    → finish rt key parameters evidence t db ≡ ok (receipt, db')
    → IsAnswer rt key parameters digest db' receipt
unfolding finish insert_receipt receipt_by_digest fetch_one
finish-IsAnswer rt key parameters digest evidence t db same h =
    let (_, h1) = guard-eq-ok _ h in
    bind-elim h1 (λ db1 kept h2.
      let (_, h3) = guard-eq-ok _ kept in
      let (_, h4) = guard-eq-ok _ h3 in
      let (_, h5) = guard-eq-ok _ h4 in
      let given = receipt_of rt key parameters evidence t (available_minor t.budget_id db) in
      let found =
        subst (λ d. (t.instruction_digest == d) ≡ true) same (==-refl t.instruction_digest) in
      subst (λ r. IsAnswer rt key parameters digest r.1 r.0) (ok_injective h2)
        (subst (λ d. IsAnswer rt key parameters digest d given) (ok_injective h5)
          (if_true (t.instruction_digest == digest) (some given) _ found, refl, refl)))

-- An instruction that is answered gets the answer again, and nothing is written.
apply_under-again :
    (rt : Runtime) (call : Call) (key : String) (parameters : Fields) (digest execution_id : String)
    (db : Database) (receipt : MutationReceipt)
    → IsAnswer rt key parameters digest db receipt
    → apply_under (receipt_by_digest digest db) rt call key parameters digest execution_id db
      ≡ ok (receipt, db)
unfolding apply_under raise_if ◌>>◌
apply_under-again rt call key parameters digest execution_id db receipt (known, content, keyed) =
    ap (λ r. apply_under r rt call key parameters digest execution_id db) known
    ∙ rw
        (
          content,
          keyed,
          !=-refl {A = String} (rt.content_digest parameters),
          !=-refl {A = String} key,
        )
        refl

pub apply_under-IsAnswer :
    (existing : Option MutationReceipt) (rt : Runtime) (call : Call) (key : String)
    (parameters : Fields) (digest execution_id : String) (db : Database) {receipt : MutationReceipt}
    {db' : Database}
    → receipt_by_digest digest db ≡ existing
    → apply_under existing rt call key parameters digest execution_id db ≡ ok (receipt, db')
    → IsAnswer rt key parameters digest db' receipt
unfolding apply_under
apply_under-IsAnswer (some existing) rt call key parameters digest execution_id db known h =
    let (same, h1) = guard-eq-ok _ h in
    subst (λ r. IsAnswer rt key parameters digest r.1 r.0) (ok_injective h1)
      (known, !=→≡ _ _ (ground (arith, same)), !=→≡ _ _ (ground (arith, same)))
apply_under-IsAnswer none rt call key parameters digest execution_id db known h =
    let (evidence, t, posted, _, written, finished) =
      apply_new-parts rt call key parameters digest execution_id db h in
    finish-IsAnswer rt key parameters digest evidence t posted
      (post-digest call parameters digest execution_id evidence db written) finished

-- What a transaction returned, its body returned.
pub ended-eq-ok :
    {A : Type 0} (before : Database) (r : Result Failure (A × Database)) {a : A} {after : Database}
    → ended before r ≡ (ok a, after)
    → r ≡ ok (a, after)
ended-eq-ok before (err raised) h = absurd (cc (ap (λ p. p.0) h))
ended-eq-ok before (ok (b, db)) {a} {after} h =
    ap ok (λ i. (ok_injective (ap (λ p. p.0) h) i, (ap (λ p. p.1) h) i))

module _ (rt : Runtime) (parameters : Fields) (digest : String) where
  apply_keyed-again :
      (key : Result Failure String) (call again : Call) (execution_id execution_id' : String)
      (db : Database) {receipt : MutationReceipt} {db' : Database}
      → apply_keyed key rt call parameters digest execution_id db ≡ (ok receipt, db')
      → apply_keyed key rt again parameters digest execution_id' db' ≡ (ok receipt, db')
  unfolding apply_keyed apply_once
  apply_keyed-again (err raised) call again execution_id execution_id' db h =
      absurd (cc (ap (λ p. p.0) h))
  apply_keyed-again (ok key) call again execution_id execution_id' db {receipt} {db'} h =
      let returned = ended-eq-ok db _ h in
      let answered =
        apply_under-IsAnswer (receipt_by_digest digest db) rt call key parameters digest
          execution_id db refl returned in
      ap (ended db')
        (apply_under-again rt again key parameters digest execution_id' db' receipt answered)

  -- A mutation that was applied returns the same receipt, and changes nothing, whenever the same
  -- instruction and parameters are applied to the database after it, under any execution.
  pub apply-once :
      (call again : Call) (execution_id execution_id' : String) (db : Database)
      (receipt : MutationReceipt) (db' : Database)
      → apply_mutation rt call parameters digest execution_id db ≡ (ok receipt, db')
      → apply_mutation rt again parameters digest execution_id' db' ≡ (ok receipt, db')
  unfolding apply_mutation
  apply-once call again execution_id execution_id' db receipt db' h =
      apply_keyed-again (text_at parameters "idempotency_key") call again execution_id execution_id'
        db h
