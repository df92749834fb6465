-- ===== src/Durable/Restart.antt =====
-- What a new process finds: `_load` of durable_store.py after saves, updates, and assignments to
-- the fields of records in memory.
use mathlib.Core.List.{map-append}
use rmt_platform.Prelude.{ℕ, String, ◌≡◌, refl, ap, Bool, List, [], ◌∷◌, ◌++◌, map, inl, inr, ◌∙◌}
use rmt_platform.Durable.{
  json, sqlite, Row, DurableStore, Schema, modify_first, mutate, row, save, reload, update,
}
use rmt_platform.Durable.Sync.{
  IsSynced, HasDisk, keyed, has_id, IsDistinct, update-IsSynced, records-update, backend-update,
}

module _ {A : Type 0} (schema : Schema A) where
  map-payload-row : (xs : List A) → map (λ (r : Row A). r.payload) (map (row schema) xs) ≡ xs
  map-payload-row [] = refl
  map-payload-row (x ∷ xs) = ap (λ ys. x ∷ ys) (map-payload-row xs)

  -- A store whose disk mirrors its memory comes back as it was.
  pub reload-synced :
      (s : DurableStore A) → HasDisk schema s → IsSynced schema s → (reload s).records ≡ s.records
  unfolding reload
  reload-synced s (inl b) h = rw (b, h) (map-payload-row s.records)
  reload-synced s (inr b) h = rw (b, h) (map-payload-row s.records)

  -- On SQLite, an assignment to a field of a record in memory is gone after a restart, although
  -- another record was saved after it: only the new row was written.
  pub reload-save-mutate_sqlite :
      (p : A → Bool) (f : A → A) (r : A) (s : DurableStore A)
      → s.backend ≡ sqlite
      → IsSynced schema s
      → (reload (save schema r (mutate p f s))).records ≡ s.records ++ r ∷ []
  unfolding reload save mutate
  reload-save-mutate_sqlite p f r s b h = rw (b, h) (simp (map-append, map-payload-row))

  -- On a JSON file, an assignment to a field of a record in memory is there after a restart, once
  -- any record was saved after it: the file was written whole.
  pub reload-save-mutate_json :
      (p : A → Bool) (f : A → A) (r : A) (s : DurableStore A)
      → s.backend ≡ json
      → (reload (save schema r (mutate p f s))).records ≡ modify_first p f s.records ++ r ∷ []
  unfolding reload save mutate
  reload-save-mutate_json p f r s b = rw b (map-payload-row _)

module _ {A : Type 0} (id_of : A → String) (created : A → ℕ) where
  -- Where identifiers are distinct and the disk mirrors the memory, a restart after an update by
  -- identifier finds the records with the first one of that identifier changed.
  pub reload-update :
      (k : String) (f : A → A) (s : DurableStore A)
      → HasDisk (keyed id_of created) s
      → IsDistinct id_of created s.records
      → IsSynced (keyed id_of created) s
      → (reload (update (keyed id_of created) (has_id id_of created k) f s)).records
        ≡ modify_first (has_id id_of created k) f s.records
  reload-update k f s disk distinct synced =
      reload-synced (keyed id_of created)
        (update (keyed id_of created) (has_id id_of created k) f s)
        (rw (backend-update (keyed id_of created) (has_id id_of created k) f s) disk)
        (update-IsSynced id_of created k f s disk distinct synced)
      ∙ records-update (keyed id_of created) (has_id id_of created k) f s
