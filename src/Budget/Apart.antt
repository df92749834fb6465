-- ===== src/Budget/Apart.antt =====
-- The separation of duties in the budget database: who asks for a purchase neither approves it nor
-- commits its funds.
use rmt_platform.Prelude.{
  String, true, false, Option, some, List, [], ◌∷◌, ◌≡◌, sym, ap, ◌∙◌, subst, arith, ◌==◌,
  string_eq, nat_eq, option_eq, some_injective, All, !=→≡, any_of-false,
}
use rmt_platform.Prelude.Int.{ℤ, pos}
use rmt_platform.Prelude.Json.{Fields}
use rmt_platform.Prelude.Result.{ok, ok_injective}
use rmt_platform.Budget.Models.{
  MutationType, bootstrap, adjustment, correction, commitment, settlement, cancellation,
}
use rmt_platform.Budget.Storage.{
  PurchaseRequest, DomainDecision, LedgerEntry, Database, fetch_one, is_request,
}
use rmt_platform.Budget.Repository.{Runtime, Call, text_at}
use rmt_platform.Budget.Balance.{is_committed, available_minor}
use rmt_platform.Budget.Validate.{Evidence, validate_entry, validate_new}
use rmt_platform.Budget.Terms.{loose_ends, is_bound, assess}
use rmt_platform.Budget.Validate.Assessed.{validate_request-IsNamed, commitment-after}
use rmt_platform.Budget.Post.{entry_type_of, destination_of}
use rmt_platform.Budget.Apply.Bootstrapped.{Books, books}
use rmt_platform.Budget.Apply.Posted.{IsPosted, with_entry}
use rmt_platform.Budget.Apply.Balanced.{budget_destination-kept}
use rmt_platform.Budget.Apply.Named.{validate_entry-parts, named-entry}
use rmt_platform.Budget.Apply.Invariant.{new-mutation}
use rmt_platform.Budget.Apply.Kept.{move_request-kept}
use rmt_platform.Budget.Apply.Linked.{destination_of-HasDestination}
use rmt_platform.Budget.Sound.{IsSound, fetch_one-All}
use rmt_platform.Budget.Sound.Rows.{IsKept}

-- An approval is by another than the requester.
abbrev pub IsDecidedApart : List PurchaseRequest → DomainDecision → Type 0
IsDecidedApart requests d =
    d.decision ≡ "approved"
    → (r : PurchaseRequest) × (fetch_one (λ q. q.id == d.request_id) requests ≡ some r)
      × ((r.requester == d.decided_by) ≡ false)

-- A commitment is by another than the requester.
abbrev pub IsAppliedApart : List PurchaseRequest → LedgerEntry → Type 0
IsAppliedApart requests e =
    is_committed e.entry_type ≡ true
    → (r : PurchaseRequest) × (e.request_id ≡ some r.id)
      × (fetch_one (λ q. q.id == r.id) requests ≡ some r)
      × ((r.requester == e.actor) ≡ false)

pub record IsApart (b : Books) : Type 0 where
  pub applied : All (IsAppliedApart b.1) b.2
  pub decided : All (IsDecidedApart b.1) b.3

pub kept-decided :
    (rs rs' : List PurchaseRequest) (ds : List DomainDecision)
    → IsKept rs rs'
    → All (IsDecidedApart rs) ds
    → All (IsDecidedApart rs') ds
kept-decided rs rs' [] kept given = tt
kept-decided rs rs' (d ∷ ds) kept (f, fs) = (
  (λ approval.
      let (r, fetched, apart) = f approval in
      let (r', fetched', same) = kept d.request_id r fetched in
      (r', fetched', subst (λ i. (i == d.decided_by) ≡ false) (ap (λ k. k.2) (sym same)) apart)),
  kept-decided rs rs' ds kept fs,
)

pub kept-applied :
    (rs rs' : List PurchaseRequest) (es : List LedgerEntry)
    → IsKept rs rs'
    → All (IsAppliedApart rs) es
    → All (IsAppliedApart rs') es
kept-applied rs rs' [] kept given = tt
kept-applied rs rs' (e ∷ es) kept (f, fs) = (
  (λ commits.
      let (r, of_request, fetched, apart) = f commits in
      let (r', fetched', same) = kept r.id r fetched in
      (
        r',
        of_request ∙ ap (λ k. some k.0) (sym same),
        subst (λ i. fetch_one (λ q. q.id == i) rs' ≡ some r') (ap (λ k. k.0) (sym same)) fetched',
        subst (λ i. (i == e.actor) ≡ false) (ap (λ k. k.2) (sym same)) apart,
      )),
  kept-applied rs rs' es kept fs,
)

-- What a binding decision binds.
is_bound-parts :
    (id : String) (version : ℤ) (actor : String) (digest : Option String) (d : DomainDecision)
    → is_bound id version actor digest d ≡ true
    → (d.decision ≡ "approved") × (d.request_id ≡ id) × (d.decided_by ≡ actor)
unfolding is_bound
is_bound-parts id version actor digest d h =
    let (decided, (of_request, (_, (by_actor, _)))) =
      any_of-false (loose_ends id version actor digest d) (ground (arith, h)) in
    (
      !=→≡ d.decision "approved" decided,
      !=→≡ d.request_id id of_request,
      !=→≡ d.decided_by actor by_actor,
    )

-- A commitment is by the owner whose approval binds it, who is not the requester.
commitment-apart :
    (rt : Runtime) (call : Call) (actor currency : String) (parameters : Fields)
    (digest : Option String) (db : Database) {evidence : Evidence} {t : LedgerEntry}
    {db' : Database}
    → IsSound (books db)
    → IsApart (books db)
    → text_at parameters "actor" ≡ ok actor
    → validate_entry rt call commitment actor currency parameters digest db ≡ ok evidence
    → IsPosted call parameters evidence db t db'
    → IsAppliedApart db.purchase_requests t
unfolding assess destination_of
commitment-apart rt call actor currency parameters digest db {evidence} {t} {db'} sound separate
      acts h p commits =
    let (budget_id, amount, after, assessed, same) =
      validate_entry-parts rt call commitment actor currency parameters digest db h in
    let q = subst (λ e. IsPosted call parameters e db t db') (sym same) p in
    let (_, acting, on_db) = budget_destination-kept budget_id parameters db q.sent in
    let before = available_minor budget_id db in
    let (request, row, given, named, sized, terms) =
      validate_request-IsNamed commitment budget_id before actor parameters digest db assessed in
    let (to_request, _) =
      named-entry parameters db budget_id request t.request_id t.request_version sound.stripped
        named q.request_given q.version_given
        (subst (λ d. is_request t.request_id d ≡ true) (sym on_db) q.filed) in
    let (_, _, _, decision, binds, decision_id, found) =
      commitment-after request row request.id given before actor parameters digest db terms in
    let (approves, of_request, by_actor) =
      is_bound-parts request.id (pos request.current_version) actor digest decision binds in
    let (r, fetched, apart) =
      fetch_one-All (IsDecidedApart db.purchase_requests) (λ d. d.id == decision_id)
        db.domain_decisions separate.decided found approves in
    let is_request : r ≡ request = some_injective (
      sym fetched
      ∙ ap (λ i. fetch_one (λ k. k.id == i) db.purchase_requests) of_request
      ∙ named.1) in
    let is_actor : decision.decided_by ≡ t.actor =
      by_actor ∙ ok_injective (sym acts ∙ acting) ∙ sym q.actor in
    (
      request,
      to_request,
      named.1,
      subst (λ k. (k.requester == t.actor) ≡ false) is_request
          (subst (λ a. (r.requester == a) ≡ false) is_actor apart),
    )

new-applied :
    (rt : Runtime) (call : Call) (mutation : MutationType) (actor currency : String)
    (parameters : Fields) (digest : Option String) (db : Database) {evidence : Evidence}
    {t : LedgerEntry} {db' : Database}
    → IsSound (books db)
    → IsApart (books db)
    → text_at parameters "actor" ≡ ok actor
    → validate_new rt call mutation actor currency parameters digest db ≡ ok evidence
    → IsPosted call parameters evidence db t db'
    → t.entry_type ≡ entry_type_of mutation
    → IsAppliedApart db.purchase_requests t
unfolding validate_new entry_type_of
new-applied rt call commitment actor currency parameters digest db sound separate acts h p kind =
    commitment-apart rt call actor currency parameters digest db sound separate acts h p
new-applied rt call bootstrap actor currency parameters digest db sound separate acts h p kind =
    λ commits. absurd (cc (sym commits ∙ ap is_committed kind))
new-applied rt call adjustment actor currency parameters digest db sound separate acts h p kind =
    λ commits. absurd (cc (sym commits ∙ ap is_committed kind))
new-applied rt call correction actor currency parameters digest db sound separate acts h p kind =
    λ commits. absurd (cc (sym commits ∙ ap is_committed kind))
new-applied rt call settlement actor currency parameters digest db sound separate acts h p kind =
    λ commits. absurd (cc (sym commits ∙ ap is_committed kind))
new-applied rt call cancellation actor currency parameters digest db sound separate acts h p kind =
    λ commits. absurd (cc (sym commits ∙ ap is_committed kind))

-- The writes of a validated mutation keep the separation of duties.
pub new-IsApart :
    (rt : Runtime) (call : Call) (mutation : MutationType) (actor currency : String)
    (parameters : Fields) (digest : Option String) (db : Database) {evidence : Evidence}
    {t : LedgerEntry} {db' : Database}
    → IsSound (books db)
    → IsApart (books db)
    → text_at parameters "actor" ≡ ok actor
    → validate_new rt call mutation actor currency parameters digest db ≡ ok evidence
    → IsPosted call parameters evidence db t db'
    → IsApart (books db')
new-IsApart rt call mutation actor currency parameters digest db {evidence} {t} {db'} sound separate
      acts h p =
    let (kept, same_requests, _, _, same_decisions) =
      destination_of-HasDestination call evidence.mutation_type evidence.budget_id evidence.currency
        parameters db p.sent in
    let (same_identities, _) =
      move_request-kept call evidence.mutation_type t.request_id (with_entry t p.db1) p.moved_on in
    let named = new-mutation rt call mutation actor currency parameters digest db h in
    let applied =
      new-applied rt call mutation actor currency parameters digest db sound separate acts h p
        (p.kind ∙ ap entry_type_of named) in
    let from_requests =
      subst (λ rs. IsKept rs db'.purchase_requests) same_requests same_identities in
    record {
      applied =
          subst (λ es. All (IsAppliedApart db'.purchase_requests) es)
            (sym (p.posted ∙ ap (λ es. t ∷ es) kept))
            (kept-applied db.purchase_requests db'.purchase_requests (t ∷ db.ledger_entries)
              from_requests (applied, separate.applied));
      decided =
          subst (λ ds. All (IsDecidedApart db'.purchase_requests) ds)
            (sym (p.decisions_kept ∙ same_decisions))
            (kept-decided db.purchase_requests db'.purchase_requests db.domain_decisions
              from_requests separate.decided);
    }
