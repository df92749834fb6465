-- ===== src/Tests/Stores.antt =====
-- Stores of decision records and holds.
use rmt_platform.Prelude.{ℕ, String, Bool, some, [], ◌∷◌, ◌++◌, ◌≡◌, inl, refl, string_eq}
use rmt_platform.Durable.{
  DurableStore, Schema, Backend, sqlite, json, find_index, modify_first, mutate, save, update,
  reload,
}
use rmt_platform.Durable.Sync.{keyed, has_id}
use rmt_platform.Durable.Restart.{reload-update, reload-save-mutate_json}

-- A record with an identifier, a time and a decision.
record Entry : Type 0 where
  id : String
  created_at : ℕ
  decision : String

abbrev entries : Schema Entry
entries = keyed (λ e. e.id) (λ e. e.created_at)

abbrev first : Entry
first = record { id = "r1"; created_at = 10; decision = "pending" }

abbrev second : Entry
second = record { id = "r2"; created_at = 20; decision = "pending" }

abbrev approve : Entry → Entry
approve e = record e { decision = "approved" }

abbrev stored : Backend → DurableStore Entry
stored b = record {
  backend = b;
  records = first ∷ second ∷ [];
  rows =
      record { key = some "r1"; created_at = 10; payload = first }
      ∷ record { key = some "r2"; created_at = 20; payload = second }
      ∷ [];
}

reload-update_example :
    (reload (
      update entries (has_id (λ e. e.id) (λ e. e.created_at) "r2") approve (stored sqlite))).records
    ≡ modify_first (has_id (λ e. e.id) (λ e. e.created_at) "r2") approve (stored sqlite).records
unfolding find_index
reload-update_example =
    reload-update (λ e. e.id) (λ e. e.created_at) "r2" approve (stored sqlite) (inl refl)
      (refl, (refl, tt)) refl

abbrev is_first : Entry → Bool
is_first = has_id (λ e. e.id) (λ e. e.created_at) "r1"

reload-save-mutate_json_example :
    (reload (save entries second (mutate is_first approve (stored json)))).records
    ≡ modify_first is_first approve (stored json).records ++ second ∷ []
reload-save-mutate_json_example =
    reload-save-mutate_json entries is_first approve second (stored json) refl
