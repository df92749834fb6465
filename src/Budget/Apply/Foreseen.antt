-- ===== src/Budget/Apply/Foreseen.antt =====
-- The balance after a mutation is the one that its validation has foreseen.
use rmt_platform.Prelude.{
  String, true, false, Option, some, ◌≡◌, refl, sym, ap, ◌∙◌, subst, if◌then◌else◌, ◌==◌, string_eq,
  option_eq,
}
use rmt_platform.Prelude.Int.{ℤ, pos, ◌+ℤ◌, ◌-ℤ◌, integers}
use rmt_platform.Prelude.Json.{text, Fields}
use rmt_platform.Prelude.Result.{ok}
use rmt_platform.Budget.Models.{
  MutationType, bootstrap, adjustment, correction, commitment, settlement, cancellation,
}
use rmt_platform.Budget.Storage.{PurchaseRequest, LedgerEntry, Database, is_request}
use rmt_platform.Budget.Repository.{Runtime, Call, text_at}
use rmt_platform.Budget.Balance.{available_minor, is_terminal, open_commitment}
use rmt_platform.Budget.Balance.Posting.{effect}
use rmt_platform.Budget.Validate.{Evidence, validate_entry, validate_new, entry_evidence}
use rmt_platform.Budget.Terms.{assess}
use rmt_platform.Budget.Validate.Assessed.{
  validate_change-after, IsNamed, validate_request-IsNamed, commitment-after, settlement-after,
  cancellation-after,
}
use rmt_platform.Budget.Post.{entry_type_of, links_of, ended_by, destination_of, budget_destination}
use rmt_platform.Budget.Apply.Bootstrapped.{books, bootstrap_rows-books}
use rmt_platform.Budget.Apply.Posted.{IsPosted}
use rmt_platform.Budget.Apply.Balanced.{
  amount_column-json_of, budget_destination-kept, foreseen, balance-post, balance-close, +ℤ_zero,
}
use rmt_platform.Budget.Sound.{IsSound, available-foreign}
use rmt_platform.Budget.Apply.Named.{
  validate_entry-parts, validate_bootstrap-parts, named-entry, open_commitment-found,
  ended_by-related, open_commitment-budget,
}

-- The balances are as foreseen: the entry's budget has the balance of the evidence, and every other
-- budget the one that it had.
abbrev pub AreForeseen : Evidence → Database → LedgerEntry → Database → Type 0
AreForeseen evidence db t db' =
    (b : String)
    → available_minor b db'
      ≡ (if t.budget_id == b then evidence.available_after else available_minor b db)

module _ (rt : Runtime) (call : Call) (mutation : MutationType) (actor currency : String)
    (parameters : Fields) (digest : Option String) (db : Database) (t : LedgerEntry)
    (db' : Database) (budget_id : String) (amount after : ℤ) (sound : IsSound (books db))
    (p : IsPosted call parameters
      (entry_evidence rt mutation budget_id currency amount (available_minor budget_id db) after)
      db
      t
      db')
    (sent : budget_destination (some (text budget_id)) parameters db ≡ ok (p.to, p.db1)) where
  abbrev parts :
      (budget_id ≡ p.to.budget_id) × (text_at parameters "actor" ≡ ok p.to.actor) × (db ≡ p.db1)
  parts = budget_destination-kept budget_id parameters db sent

  here : t.budget_id ≡ budget_id
  here = p.budget ∙ sym parts.0

  written : amount ≡ t.amount_minor
  written = amount_column-json_of amount p.amount_given

  kept : p.db1.ledger_entries ≡ db.ledger_entries
  kept = ap (λ d. d.ledger_entries) (sym parts.2)

  -- A mutation that ends no commitment.
  foreseen-post :
      is_terminal (entry_type_of mutation) ≡ false
      → after ≡ available_minor budget_id db +ℤ effect (entry_type_of mutation) amount
      → AreForeseen
          (entry_evidence rt mutation budget_id currency amount
            (available_minor budget_id db)
            after)
          db
          t
          db'
  foreseen-post plain expected b =
      foreseen t.budget_id budget_id b (λ k. available_minor k db)
        (effect (entry_type_of mutation) t.amount_minor) here
        (expected
          ∙ ap (λ a. available_minor budget_id db +ℤ effect (entry_type_of mutation) a) written)
        (balance-post call parameters _ db t db' b p sound kept plain)

  -- A mutation that ends the open commitment of the request that it names.
  foreseen-close :
      (request : PurchaseRequest) (c : LedgerEntry)
      → is_terminal (entry_type_of mutation) ≡ true
      → links_of mutation t.request_id t.request_version parameters p.db1
        ≡ ended_by t.request_id t.request_version p.db1
      → IsNamed parameters db budget_id request
      → open_commitment request.id request.current_version db ≡ ok c
      → after
        ≡ available_minor budget_id db +ℤ (c.amount_minor +ℤ effect (entry_type_of mutation) amount)
      → AreForeseen
          (entry_evidence rt mutation budget_id currency amount
            (available_minor budget_id db)
            after)
          db
          t
          db'
  foreseen-close request c ends links named opened expected b =
      let on_db = subst (λ d. is_request t.request_id d ≡ true) (sym parts.2) p.filed in
      let (to_request, to_version) =
        named-entry parameters db budget_id request t.request_id t.request_version sound.stripped
          named p.request_given p.version_given on_db in
      let ended =
        subst
          (λ d.
            ended_by t.request_id t.request_version d ≡ ok (t.related_entry_id, t.correction_of))
          (sym parts.2) (sym links ∙ p.linked) in
      let related =
        ended_by-related t.request_id t.request_version request.id request.current_version db
          to_request to_version ended opened in
      let found = open_commitment-found request.id request.current_version db opened in
      foreseen t.budget_id budget_id b (λ k. available_minor k db)
        (c.amount_minor +ℤ effect (entry_type_of mutation) t.amount_minor) here
        (expected
          ∙ ap
              (λ a.
                available_minor budget_id db
                +ℤ (c.amount_minor +ℤ effect (entry_type_of mutation) a))
              written)
        (balance-close call parameters _ db t db' b p sound kept c request.id
          request.current_version ends related found
          (open_commitment-budget db budget_id request c parameters sound named opened ∙ sym here))

-- The three ways in which the validation of a request's mutation writes the balance after it.
module _ (before amount c : ℤ) where
  as_committed : before -ℤ amount ≡ before +ℤ (pos 0 -ℤ amount)
  as_committed = omega integers

  as_settled : before +ℤ c -ℤ amount ≡ before +ℤ (c +ℤ (pos 0 -ℤ amount))
  as_settled = omega integers

  as_cancelled : amount ≡ c → before +ℤ amount ≡ before +ℤ (c +ℤ pos 0)
  as_cancelled h = ap (λ i. before +ℤ i) (h ∙ sym (+ℤ_zero c))

  +ℤ_swap : amount +ℤ pos 0 ≡ pos 0 +ℤ amount
  +ℤ_swap = omega integers

  as_bootstrapped : before ≡ pos 0 → amount ≡ before +ℤ amount
  as_bootstrapped h = sym (+ℤ_zero amount) ∙ +ℤ_swap ∙ ap (λ i. i +ℤ amount) (sym h)

-- Whatever the mutation, the balances after the writes are the ones that were foreseen.
module _ (rt : Runtime) (call : Call) (actor currency : String) (parameters : Fields)
    (digest : Option String) (db : Database) (evidence : Evidence) (t : LedgerEntry)
    (db' : Database) (sound : IsSound (books db)) where
  entry-foreseen :
      (mutation : MutationType)
      → validate_entry rt call mutation actor currency parameters digest db ≡ ok evidence
      → IsPosted call parameters evidence db t db'
      → ((budget_id : String) (amount after : ℤ)
          → assess mutation budget_id (available_minor budget_id db) actor parameters digest db
            ≡ ok (amount, after)
          → IsPosted call parameters
              (entry_evidence rt mutation budget_id currency amount
                (available_minor budget_id db)
                after)
              db
              t
              db'
          → AreForeseen
              (entry_evidence rt mutation budget_id currency amount
                (available_minor budget_id db)
                after)
              db
              t
              db')
      → AreForeseen evidence db t db'
  entry-foreseen mutation h p from_parts =
      let (budget_id, amount, after, assessed, same) =
        validate_entry-parts rt call mutation actor currency parameters digest db h in
      subst (λ e. AreForeseen e db t db') same
        (from_parts budget_id amount after assessed
          (subst (λ e. IsPosted call parameters e db t db') (sym same) p))

  pub new-foreseen :
      (mutation : MutationType)
      → validate_new rt call mutation actor currency parameters digest db ≡ ok evidence
      → IsPosted call parameters evidence db t db'
      → AreForeseen evidence db t db'
  unfolding validate_new assess effect entry_type_of destination_of links_of available_minor
  new-foreseen adjustment h p = entry-foreseen adjustment h p (λ budget_id amount after assessed q.
      foreseen-post rt call adjustment actor currency parameters digest db t db' budget_id amount
        after sound q q.sent refl
        (validate_change-after adjustment budget_id _ parameters db assessed).0)
  new-foreseen correction h p = entry-foreseen correction h p (λ budget_id amount after assessed q.
      foreseen-post rt call correction actor currency parameters digest db t db' budget_id amount
        after sound q q.sent refl
        (validate_change-after correction budget_id _ parameters db assessed).0)
  new-foreseen commitment h p = entry-foreseen commitment h p (λ budget_id amount after assessed q.
      let before = available_minor budget_id db in
      let (request, row, given, named, _, terms) =
        validate_request-IsNamed commitment budget_id before actor parameters digest db assessed in
      let (_, expected, _, _, _, _, _) =
        commitment-after request row request.id given before actor parameters digest db terms in
      foreseen-post rt call commitment actor currency parameters digest db t db' budget_id amount
        after sound q q.sent refl (expected ∙ as_committed before amount (pos 0)))
  new-foreseen settlement h p = entry-foreseen settlement h p (λ budget_id amount after assessed q.
      let before = available_minor budget_id db in
      let (request, row, given, named, _, terms) =
        validate_request-IsNamed settlement budget_id before actor parameters digest db assessed in
      let (_, c, opened, expected, _) =
        settlement-after request row request.id given before actor parameters digest db terms in
      foreseen-close rt call settlement actor currency parameters digest db t db' budget_id amount
        after sound q q.sent request c refl refl named opened
        (expected ∙ as_settled before amount c.amount_minor))
  new-foreseen cancellation h p =
      entry-foreseen cancellation h p (λ budget_id amount after assessed q.
        let before = available_minor budget_id db in
        let (request, row, given, named, _, terms) =
          validate_request-IsNamed cancellation budget_id before actor parameters digest db
            assessed in
        let (_, c, opened, expected, equal, _) =
          cancellation-after request row request.id given before actor parameters digest db terms in
        foreseen-close rt call cancellation actor currency parameters digest db t db' budget_id
          amount after sound q q.sent request c refl refl named opened
          (expected ∙ as_cancelled before amount c.amount_minor equal))
  new-foreseen bootstrap h p =
      let (amount, _, same) = validate_bootstrap-parts rt actor currency parameters db h in
      let q = subst (λ e. IsPosted call parameters e db t db') (sym same) p in
      let (row, id, new, left, _) = bootstrap_rows-books call currency parameters db q.sent in
      let none_yet = available-foreign db.budgets row.id db.ledger_entries new sound.budgeted in
      let written = amount_column-json_of amount q.amount_given in
      subst (λ e. AreForeseen e db t db') same
        (λ b.
          foreseen t.budget_id row.id b (λ k. available_minor k db) t.amount_minor
            (q.budget ∙ sym id)
            (as_bootstrapped (available_minor row.id db) amount (pos 0) none_yet
              ∙ ap (λ a. available_minor row.id db +ℤ a) written)
            (balance-post call parameters _ db t db' b q sound (ap (λ k. k.2) (sym left)) refl))
