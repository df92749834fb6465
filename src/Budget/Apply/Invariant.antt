-- ===== src/Budget/Apply/Invariant.antt =====
-- A mutation that is applied keeps the invariant of the ledger.
use rmt_platform.Prelude.{
  String, Bool, true, false, Option, ◌∷◌, ◌≡◌, sym, ap, ◌∙◌, subst, if◌then◌else◌, ◌==◌, string_eq,
  All,
}
use rmt_platform.Prelude.Int.{ℤ, pos, ◌≤ℤ◌}
use rmt_platform.Prelude.Json.{Fields}
use rmt_platform.Prelude.Result.{ok}
use rmt_platform.Budget.Models.{
  MutationType, bootstrap, adjustment, correction, commitment, settlement, cancellation,
}
use rmt_platform.Budget.Storage.{LedgerEntry, Database, exists}
use rmt_platform.Budget.Repository.{Runtime, Call}
use rmt_platform.Budget.Balance.{available_minor, is_committed, is_terminal}
use rmt_platform.Budget.Balance.Ended.{IsFirstEnd, IsOnce}
use rmt_platform.Budget.Apply.Ending.{links_of-first}
use rmt_platform.Budget.Balance.Posting.{IsLinkedTo, IsLinked}
use rmt_platform.Budget.Validate.{Evidence, validate_new}
use rmt_platform.Budget.Post.{entry_type_of}
use rmt_platform.Budget.Apply.Bootstrapped.{books}
use rmt_platform.Budget.Apply.Posted.{IsPosted, with_entry}
use rmt_platform.Budget.Apply.Named.{validate_entry-parts, validate_bootstrap-parts}
use rmt_platform.Budget.Apply.Foreseen.{new-foreseen}
use rmt_platform.Budget.Sound.{IsSound, IsBudgeted, IsFiled, IsStripped}
use rmt_platform.Budget.Sound.Rows.{IsKept, kept-IsFiled}
use rmt_platform.Budget.Balance.Sums.{IsNew, IsKeyed}
use rmt_platform.Budget.Apply.Kept.{move_request-kept, new-solvent}
use rmt_platform.Budget.Apply.Linked.{
  destination_of-HasDestination, links_of-linked, commitment-IsFiled,
}

either_solvent :
    (test : Bool) (i j : ℤ) {k : ℤ}
    → k ≡ (if test then i else j)
    → pos 0 ≤ℤ i
    → pos 0 ≤ℤ j
    → pos 0 ≤ℤ k
either_solvent true i j h had kept = subst (λ n. pos 0 ≤ℤ n) (sym h) had
either_solvent false i j h had kept = subst (λ n. pos 0 ≤ℤ n) (sym h) kept

-- The entry of any mutation is filed under its request, if it is a commitment.
new-IsFiled :
    (rt : Runtime) (call : Call) (mutation : MutationType) (actor currency : String)
    (parameters : Fields) (digest : Option String) (db : Database) {evidence : Evidence}
    {t : LedgerEntry} {db' : Database}
    → IsSound (books db)
    → validate_new rt call mutation actor currency parameters digest db ≡ ok evidence
    → IsPosted call parameters evidence db t db'
    → t.entry_type ≡ entry_type_of mutation
    → IsFiled db.purchase_requests t
unfolding validate_new entry_type_of
new-IsFiled rt call commitment actor currency parameters digest db sound h p kind =
    commitment-IsFiled rt call actor currency parameters digest db sound h p
new-IsFiled rt call bootstrap actor currency parameters digest db sound h p kind =
    λ is_commitment. absurd (cc (sym is_commitment ∙ ap is_committed kind))
new-IsFiled rt call adjustment actor currency parameters digest db sound h p kind =
    λ is_commitment. absurd (cc (sym is_commitment ∙ ap is_committed kind))
new-IsFiled rt call correction actor currency parameters digest db sound h p kind =
    λ is_commitment. absurd (cc (sym is_commitment ∙ ap is_committed kind))
new-IsFiled rt call settlement actor currency parameters digest db sound h p kind =
    λ is_commitment. absurd (cc (sym is_commitment ∙ ap is_committed kind))
new-IsFiled rt call cancellation actor currency parameters digest db sound h p kind =
    λ is_commitment. absurd (cc (sym is_commitment ∙ ap is_committed kind))

-- The evidence names the mutation that was validated.
pub new-mutation :
    (rt : Runtime) (call : Call) (mutation : MutationType) (actor currency : String)
    (parameters : Fields) (digest : Option String) (db : Database) {evidence : Evidence}
    → validate_new rt call mutation actor currency parameters digest db ≡ ok evidence
    → evidence.mutation_type ≡ mutation
unfolding validate_new
new-mutation rt call bootstrap actor currency parameters digest db h =
    let (_, _, same) = validate_bootstrap-parts rt actor currency parameters db h in
    ap (λ e. e.mutation_type) (sym same)
new-mutation rt call mutation actor currency parameters digest db h =
    let (_, _, _, _, same) =
      validate_entry-parts rt call mutation actor currency parameters digest db h in
    ap (λ e. e.mutation_type) (sym same)

-- The writes of a validated mutation keep the invariant.
pub new-IsSound :
    (rt : Runtime) (call : Call) (mutation : MutationType) (actor currency : String)
    (parameters : Fields) (digest : Option String) (db : Database) {evidence : Evidence}
    {t : LedgerEntry} {db' : Database}
    → IsSound (books db)
    → validate_new rt call mutation actor currency parameters digest db ≡ ok evidence
    → IsPosted call parameters evidence db t db'
    → IsSound (books db')
unfolding available_minor
new-IsSound rt call mutation actor currency parameters digest db {evidence} {t} {db'} sound h p =
    let (kept, same_requests, budgeted, found, _) =
      destination_of-HasDestination call evidence.mutation_type evidence.budget_id evidence.currency
        parameters db p.sent in
    let (same_identities, same_stripped) =
      move_request-kept call evidence.mutation_type t.request_id (with_entry t p.db1) p.moved_on in
    let named = new-mutation rt call mutation actor currency parameters digest db h in
    let kind = p.kind ∙ ap entry_type_of named in
    let filed = new-IsFiled rt call mutation actor currency parameters digest db sound h p kind in
    let grown : db'.ledger_entries ≡ t ∷ db.ledger_entries = p.posted ∙ ap (λ es. t ∷ es) kept in
    let from_requests =
      subst (λ rs. IsKept rs db'.purchase_requests) same_requests same_identities in
    record {
      keyed = subst IsKeyed (sym grown) (subst (IsNew t.id) kept p.new, sound.keyed);
      linked = subst IsLinked (sym grown) (
        subst (λ es. IsLinkedTo es t.related_entry_id) kept
            (links_of-linked evidence.mutation_type t.request_id t.request_version parameters p.db1
              p.linked),
        sound.linked,
      );
      budgeted =
          subst (λ es. All (IsBudgeted db'.budgets) es) (sym grown)
            (subst (λ bs. All (IsBudgeted bs) (t ∷ db.ledger_entries)) (sym p.budgets_kept)
              (
                subst (λ i. exists (λ b. b.id == i) p.db1.budgets ≡ true) (sym p.budget) found,
                budgeted sound.budgeted,
              ));
      filed =
          subst (λ es. All (IsFiled db'.purchase_requests) es) (sym grown)
            (kept-IsFiled db.purchase_requests db'.purchase_requests (t ∷ db.ledger_entries)
              from_requests (filed, sound.filed));
      stripped = same_stripped (subst (λ rs. All IsStripped rs) (sym same_requests) sound.stripped);
      once = subst IsOnce (sym grown) (
        (λ ends.
            subst (λ es. IsFirstEnd es t.related_entry_id) kept
              (links_of-first evidence.mutation_type t.request_id t.request_version parameters p.db1
                p.linked (sym (ap is_terminal p.kind) ∙ ends))),
        sound.once,
      );
      solvent = λ b.
          either_solvent _ _ _
            (new-foreseen rt call actor currency parameters digest db evidence t db' sound mutation
              h p b)
            (new-solvent rt call mutation actor currency parameters digest db sound h)
            (sound.solvent b);
    }
