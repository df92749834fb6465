-- ===== src/Budget/Reachable/Effect.antt =====
-- What a mutation that is applied does to the balances.
use rmt_platform.Prelude.{
  String, Option, none, some, ◌≡◌, refl, sym, ap, ◌∙◌, if◌then◌else◌, if_true, ◌==◌, string_eq,
  ==-refl, !=-refl, !=→≡,
}
use rmt_platform.Prelude.Int.{ℤ, int_eq}
use rmt_platform.Prelude.Json.{Fields}
use rmt_platform.Prelude.Result.{Result, ok, err, ok_injective}
use rmt_platform.Prelude.Chain.{bind-elim, guard-eq-ok, raise_if, ◌>>◌, ◌>>=◌}
use rmt_platform.Budget.Models.{Failure, MutationReceipt}
use rmt_platform.Budget.Storage.{LedgerEntry, Database, insert_receipt}
use rmt_platform.Budget.Repository.{Runtime, Call, text_at, receipt_by_digest}
use rmt_platform.Budget.Balance.{available_minor, available_in, any_time}
use rmt_platform.Budget.Validate.{Evidence, validate_mutation}
use rmt_platform.Budget.Apply.{
  apply_mutation, apply_keyed, apply_once, apply_under, finish, receipt_of,
}
use rmt_platform.Budget.Post.{post}
use rmt_platform.Budget.Apply.Applied.{apply_new-parts, validate_mutation-new, finish-books}
use rmt_platform.Budget.Apply.Bootstrapped.{books}
use rmt_platform.Budget.Apply.Addressed.{new-addressed}
use rmt_platform.Budget.Apply.Posted.{post-IsPosted}
use rmt_platform.Budget.Apply.Foreseen.{new-foreseen}
use rmt_platform.Budget.Apply.Once.{ended-eq-ok}
use rmt_platform.Budget.Sound.{IsSound}
use rmt_platform.Budget.Reachable.{IsReachable, reachable-IsSound}

-- What a new receipt tells of the balances.
abbrev pub IsApplied :
    Runtime → Call → Fields → String → Database → MutationReceipt → Database → Type 0
IsApplied rt call parameters digest db receipt db' =
    (evidence : Evidence) × (budget : String) × (validate_mutation rt call parameters (some digest)
        db
      ≡ ok evidence)
    × (text_at parameters "budget_id" ≡ ok budget)
    × (receipt.available_minor ≡ evidence.available_after)
    × ((b : String)
        → available_minor b db'
          ≡ (if budget == b then evidence.available_after else available_minor b db))

finish-balance :
    (rt : Runtime) (key : String) (parameters : Fields) (evidence : Evidence) (t : LedgerEntry)
    (db : Database) {receipt : MutationReceipt} {db' : Database}
    → finish rt key parameters evidence t db ≡ ok (receipt, db')
    → receipt.available_minor ≡ evidence.available_after
unfolding finish
finish-balance rt key parameters evidence t db h =
    let (same, h1) = guard-eq-ok _ h in
    bind-elim h1 (λ db1 _ h2.
      ap (λ r. r.0.available_minor) (sym (ok_injective h2))
      ∙ !=→≡ (available_minor t.budget_id db) evidence.available_after same)

apply_under-IsApplied :
    (existing : Option MutationReceipt) (rt : Runtime) (call : Call) (key : String)
    (parameters : Fields) (digest execution_id : String) (db : Database) {receipt : MutationReceipt}
    {db' : Database}
    → existing ≡ none
    → receipt_by_digest digest db ≡ none
    → IsSound (books db)
    → apply_under existing rt call key parameters digest execution_id db ≡ ok (receipt, db')
    → IsApplied rt call parameters digest db receipt db'
unfolding apply_under available_minor
apply_under-IsApplied (some existing) rt call key parameters digest execution_id db absent unknown
      sound h =
    cc
apply_under-IsApplied none rt call key parameters digest execution_id db absent unknown sound h =
    let (evidence, t, posted, validated, written, finished) =
      apply_new-parts rt call key parameters digest execution_id db h in
    let (mutation, actor, currency, _, fresh) =
      validate_mutation-new rt call parameters digest db unknown validated in
    let p = post-IsPosted call parameters digest execution_id evidence db written in
    let same = finish-books rt key parameters evidence t posted finished in
    (
      evidence,
      t.budget_id,
      validated,
      new-addressed rt call mutation actor currency parameters (some digest) db evidence t posted
          fresh p,
      finish-balance rt key parameters evidence t posted finished,
      λ b.
          ap (λ k. available_in any_time b k.2) (sym same)
          ∙ new-foreseen rt call actor currency parameters (some digest) db evidence t posted sound
              mutation fresh p b,
    )

module _ (rt : Runtime) (call : Call) (parameters : Fields) (digest execution_id : String) where
  apply_keyed-IsApplied :
      (key : Result Failure String) (db : Database) {receipt : MutationReceipt} {db' : Database}
      → receipt_by_digest digest db ≡ none
      → IsSound (books db)
      → apply_keyed key rt call parameters digest execution_id db ≡ (ok receipt, db')
      → IsApplied rt call parameters digest db receipt db'
  unfolding apply_keyed apply_once
  apply_keyed-IsApplied (err raised) db unknown sound h = absurd (cc (ap (λ p. p.0) h))
  apply_keyed-IsApplied (ok key) db unknown sound h =
      apply_under-IsApplied (receipt_by_digest digest db) rt call key parameters digest execution_id
        db unknown unknown sound (ended-eq-ok db _ h)

  -- In a reachable database, a mutation whose instruction has no receipt yet and that returns one
  -- has passed the validation; the budget that its parameters name then has the balance that the
  -- validation foresaw, which the receipt states too, and every other budget the balance that it
  -- had.
  pub apply-effect :
      (db : Database) (receipt : MutationReceipt) (db' : Database)
      → IsReachable rt db
      → receipt_by_digest digest db ≡ none
      → apply_mutation rt call parameters digest execution_id db ≡ (ok receipt, db')
      → IsApplied rt call parameters digest db receipt db'
  unfolding apply_mutation
  apply-effect db receipt db' reached unknown h =
      apply_keyed-IsApplied (text_at parameters "idempotency_key") db unknown
        (reachable-IsSound rt reached) h

  -- In a reachable database, the writes of a validated mutation leave its budget with the balance
  -- that the validation foresaw, so that the recomputed balance never fails the test that
  -- apply_mutation makes of it: what it does next is to keep the receipt.
  pub finish-balanced :
      (key : String) (evidence : Evidence) (db : Database) (t : LedgerEntry) (posted : Database)
      → IsReachable rt db
      → receipt_by_digest digest db ≡ none
      → validate_mutation rt call parameters (some digest) db ≡ ok evidence
      → post call parameters digest execution_id evidence db ≡ ok (t, posted)
      → finish rt key parameters evidence t posted ≡ (
          insert_receipt (receipt_of rt key parameters evidence t evidence.available_after) posted
          >>= λ db'. ok (receipt_of rt key parameters evidence t evidence.available_after, db'))
  unfolding finish raise_if ◌>>◌
  finish-balanced key evidence db t posted reached unknown validated written =
      let (mutation, actor, currency, _, fresh) =
        validate_mutation-new rt call parameters digest db unknown validated in
      let p = post-IsPosted call parameters digest execution_id evidence db written in
      let foreseen =
        new-foreseen rt call actor currency parameters (some digest) db evidence t posted
          (reachable-IsSound rt reached) mutation fresh p t.budget_id
        ∙ if_true _ _ _ (==-refl {A = String} t.budget_id) in
      rw (foreseen, !=-refl {A = ℤ} evidence.available_after) refl
