-- ===== src/Budget/Apply/Ending.antt =====
-- What a settlement or a cancellation ends was not ended before.
use rmt_platform.Prelude.{ℕ, String, true, Option, ◌≡◌, refl, subst, arith}
use rmt_platform.Prelude.Json.{Fields}
use rmt_platform.Prelude.Result.{ok, ok_injective}
use rmt_platform.Prelude.Chain.{bind-elim}
use rmt_platform.Budget.Models.{
  MutationType, bootstrap, adjustment, correction, commitment, settlement, cancellation,
}
use rmt_platform.Budget.Storage.{Database}
use rmt_platform.Budget.Balance.{is_terminal, is_open_commitment}
use rmt_platform.Budget.Balance.Ended.{IsFirstEnd}
use rmt_platform.Budget.Post.{or_none, ended_by, links_of, entry_type_of}
use rmt_platform.Budget.Apply.Named.{open_commitment-found}
use rmt_platform.Budget.Sound.{fetch_one-holds}

ended_by-first :
    (request : Option String) (version : Option ℕ) (db : Database)
    → {links : Option String × Option String} → ended_by request version db ≡ ok links
    → IsFirstEnd db.ledger_entries links.0
unfolding ended_by
ended_by-first request version db h = bind-elim h (λ n _ h1. bind-elim h1 (λ entry found h2.
    let found_row = open_commitment-found (or_none request) n db found in
    let opened =
      fetch_one-holds (is_open_commitment (or_none request) n db.ledger_entries) db.ledger_entries
        found_row in
    subst (λ l. IsFirstEnd db.ledger_entries l.0) (ok_injective h2)
      (entry.id, refl, ground (arith, opened))))

-- By the kind of the mutation.
pub links_of-first :
    (mutation : MutationType) (request : Option String) (version : Option ℕ) (parameters : Fields)
    (db : Database) {links : Option String × Option String}
    → links_of mutation request version parameters db ≡ ok links
    → is_terminal (entry_type_of mutation) ≡ true
    → IsFirstEnd db.ledger_entries links.0
unfolding links_of entry_type_of
links_of-first settlement request version parameters db h terminal =
    ended_by-first request version db h
links_of-first cancellation request version parameters db h terminal =
    ended_by-first request version db h
links_of-first correction request version parameters db h terminal = cc
links_of-first bootstrap request version parameters db h terminal = cc
links_of-first adjustment request version parameters db h terminal = cc
links_of-first commitment request version parameters db h terminal = cc
