-- ===== src/Budget/Apply/Named.antt =====
-- The rows that the parameters of a validated mutation name, and its entry's links.
use rmt_platform.Prelude.{
  ℕ, String, true, Option, some, ◌≡◌, sym, ap, ◌∙◌, subst, some_injective, arith, ◌==◌, string_eq,
  option_eq, ==→≡, All,
}
use rmt_platform.Prelude.Int.{ℤ, pos, ◌≤ℤ◌}
use rmt_platform.Prelude.Json.{Fields, get}
use rmt_platform.Prelude.Result.{ok, ok_injective}
use rmt_platform.Prelude.Chain.{bind-elim, then-eq-ok, guard-eq-ok, or_raise-eq-ok}
use rmt_platform.Budget.Models.{MutationType}
use rmt_platform.Budget.Storage.{PurchaseRequest, LedgerEntry, Database, fetch_one, is_request}
use rmt_platform.Budget.Repository.{Runtime, Call}
use rmt_platform.Budget.Balance.{available_minor, open_commitment, is_open_commitment}
use rmt_platform.Budget.Validate.{
  Evidence, validate_bootstrap, validate_entry, entry_evidence, bootstrap_evidence,
}
use rmt_platform.Budget.Terms.{assess}
use rmt_platform.Budget.Validate.Assessed.{
  required_text-raw, positive_at-raw, required_integer-raw, IsNamed,
}
use rmt_platform.Budget.Post.{text_column, version_column, ended_by, or_none}
use rmt_platform.Budget.Apply.Bootstrapped.{books}
use rmt_platform.Budget.Sound.{
  IsSound, IsStripped, IsFiled, fetch_one-All, fetch_one-holds, exists-stripped,
}

pub validate_entry-parts :
    (rt : Runtime) (call : Call) (mutation : MutationType) (actor currency : String)
    (parameters : Fields) (digest : Option String) (db : Database) {evidence : Evidence}
    → validate_entry rt call mutation actor currency parameters digest db ≡ ok evidence
    → (budget_id : String) × (amount : ℤ) × (after : ℤ) × (assess mutation budget_id
          (available_minor budget_id db)
          actor
          parameters
          digest
          db
        ≡ ok (amount, after))
      × (entry_evidence rt mutation budget_id currency amount (available_minor budget_id db) after
          ≡ evidence)
unfolding validate_entry
validate_entry-parts rt call mutation actor currency parameters digest db h =
    bind-elim h (λ budget_id _ h1. bind-elim h1 (λ budget _ h2.
      let (_, h3) = guard-eq-ok _ h2 in
      let (_, h4) = then-eq-ok h3 in
      let (_, h5) = then-eq-ok h4 in
      bind-elim h5 (λ found assessed h6. (budget_id, found.0, found.1, assessed, ok_injective h6))))

pub validate_bootstrap-parts :
    (rt : Runtime) (actor currency : String) (parameters : Fields) (db : Database)
    → {evidence : Evidence} → validate_bootstrap rt actor currency parameters db ≡ ok evidence
    → (amount : ℤ) × (pos 0 ≤ℤ amount) × (bootstrap_evidence currency amount ≡ evidence)
unfolding validate_bootstrap
validate_bootstrap-parts rt actor currency parameters db h =
    let (_, h1) = guard-eq-ok _ h in
    let (_, h2) = guard-eq-ok _ h1 in
    bind-elim h2 (λ amount given h3. bind-elim h3 (λ owner _ h4. bind-elim h4 (λ requester _ h5.
      let (_, h6) = guard-eq-ok _ h5 in
      let (_, h7) = guard-eq-ok _ h6 in
      let (_, h8) = guard-eq-ok _ h7 in
      bind-elim h8 (λ owner_name _ h9. (
        amount,
        ground (arith, (positive_at-raw parameters "allocation_minor" given).1),
        ok_injective h9,
      )))))

-- The row that the parameters name is the row that the entry names.
pub named-entry :
    (parameters : Fields) (db : Database) (budget : String) (request : PurchaseRequest)
    (entry_request : Option String) (entry_version : Option ℕ)
    → All IsStripped db.purchase_requests
    → IsNamed parameters db budget request
    → text_column (get "request_id" parameters) ≡ ok entry_request
    → version_column (get "request_version" parameters) ≡ ok entry_version
    → is_request entry_request db ≡ true
    → (entry_request ≡ some request.id) × (entry_version ≡ some request.current_version)
named-entry parameters db budget request entry_request entry_version stripped named given counted
      filed =
    let (raw, found, strips) =
      required_text-raw "request_id" (get "request_id" parameters) named.0 in
    let numbered =
      required_integer-raw "request_version" (get "request_version" parameters) named.3 in
    let is_raw : entry_request ≡ some raw = ok_injective (sym given ∙ ap text_column found) in
    let known = subst (λ r. is_request r db ≡ true) is_raw filed in
    (
      is_raw ∙ ap some (sym (exists-stripped db.purchase_requests raw stripped known) ∙ strips),
      ok_injective (sym counted ∙ ap version_column numbered),
    )

pub open_commitment-found :
    (id : String) (version : ℕ) (db : Database) {c : LedgerEntry}
    → open_commitment id version db ≡ ok c
    → fetch_one (is_open_commitment id version db.ledger_entries) db.ledger_entries ≡ some c
unfolding open_commitment
open_commitment-found id version db h = or_raise-eq-ok _ h

-- An entry that ends a commitment refers to the one that was found.
pub ended_by-related :
    (request : Option String) (counted : Option ℕ) (id : String) (version : ℕ) (db : Database)
    → {c : LedgerEntry} {links : Option String × Option String} → request ≡ some id
    → counted ≡ some version
    → ended_by request counted db ≡ ok links
    → open_commitment id version db ≡ ok c
    → links.0 ≡ some c.id
unfolding ended_by
ended_by-related request counted id version db {c} {links} named numbered h opened =
    bind-elim h (λ n given h1. bind-elim h1 (λ entry found h2.
      let same : n ≡ version = some_injective (sym (or_raise-eq-ok _ given) ∙ numbered) in
      let key : or_none request ≡ id = ap or_none named in
      let entry_is : entry ≡ c = ok_injective (
        sym found
        ∙ ap (λ k. open_commitment k n db) key
        ∙ ap (λ m. open_commitment id m db) same
        ∙ opened) in
      ap (λ l. l.0) (sym (ok_injective h2)) ∙ ap (λ e. some e.id) entry_is))

-- An open commitment of a request is in the budget of the request.
pub open_commitment-budget :
    (db : Database) (budget : String) (request : PurchaseRequest) (c : LedgerEntry)
    (parameters : Fields)
    → IsSound (books db)
    → IsNamed parameters db budget request
    → open_commitment request.id request.current_version db ≡ ok c
    → c.budget_id ≡ budget
open_commitment-budget db budget request c parameters sound named opened =
    let m = is_open_commitment request.id request.current_version db.ledger_entries in
    let found = open_commitment-found request.id request.current_version db opened in
    let holds = fetch_one-holds m db.ledger_entries found in
    let (r, filed, fetched, mine) =
      fetch_one-All (IsFiled db.purchase_requests) m db.ledger_entries sound.filed found
        (ground (arith, holds)) in
    let of_request : c.request_id ≡ some request.id = ==→≡ _ _ (ground (arith, holds)) in
    let same : r.id ≡ request.id = some_injective (sym filed ∙ of_request) in
    let is_request : r ≡ request =
      some_injective
        (sym fetched ∙ ap (λ i. fetch_one (λ q. q.id == i) db.purchase_requests) same ∙ named.1) in
    sym mine ∙ ap (λ q. q.budget_id) is_request ∙ named.2
