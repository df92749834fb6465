-- ===== src/Ops/Retention.antt =====
-- ops/retention.py: records older than a cutoff move from a store to its archive file. Its `except`,
-- which an error of a file would reach, is not modelled.
pub mod Lossless
use rmt_platform.Prelude.{ℕ, String, Bool, not, List, [], ◌∷◌, ◌++◌, ltb, if◌then◌else◌, length}
use rmt_platform.Durable.{Backend, in_memory, json, sqlite, DurableStore, Schema, replace_records}

-- A store with the lines of its archive file.
pub record Archived (A : Type 0) : Type 0 where
  pub store : DurableStore A
  pub lines : List A

pub record ArchiveResult : Type 0 where
  pub archived : ℕ
  pub kept : ℕ

abbrev pub is_in_memory : Backend → Bool
is_in_memory in_memory = Bool.true
is_in_memory _ = Bool.false

module _ {A : Type 0} (schema : Schema A) where
  -- `_older_than`: the creation time of a record is a time.
  abbrev pub older_than : ℕ → A → Bool
  older_than cutoff r = ltb (schema.created_at_of r) cutoff

  -- The loop that fills `keep` and `archive`.
  unfoldable pub split : ℕ → List A → List A × List A
  split cutoff [] = ([], [])
  split cutoff (r ∷ rs) =
      let (keep, archive) = split cutoff rs in
      if older_than cutoff r then (keep, r ∷ archive) else (r ∷ keep, archive)

  -- The archive file is written, and flushed, before the store is.
  unfoldable pub write_archive : List A → Archived A → Archived A
  write_archive archive s = record s { lines = s.lines ++ archive }

  unfoldable pub replace_kept : List A → Archived A → Archived A
  replace_kept keep s = record s { store = replace_records schema keep s.store }

  -- From `if not archive` on.
  unfoldable pub move : List A → List A → Archived A → ArchiveResult × Archived A
  move keep [] s = (record { archived = 0; kept = length keep }, s)
  move keep (r ∷ rs) s = (
    record { archived = length (r ∷ rs); kept = length keep },
    replace_kept keep (write_archive (r ∷ rs) s),
  )

  -- `archive_store`
  unfoldable pub archive_store : ℕ → Archived A → ArchiveResult × Archived A
  archive_store cutoff s =
      if is_in_memory s.store.backend
      then (record { archived = 0; kept = 0 }, s)
      else (let (keep, archive) = split cutoff s.store.records in move keep archive s)
