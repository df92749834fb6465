-- ===== src/Durable.antt =====
-- The record store behind every kind of governance evidence, of
-- projects/homelab-control-center/backend/app/core/intelligence/durable_store.py, and the lookups
-- and updates by identifier of its subclasses (actions/approval_storage.py and others).
-- A store is the list in memory and what lies on disk: the rows of its SQLite table, or the
-- entries of its JSON file. A record's JSON form and back (pydantic) is taken as exact.
pub mod Sync
pub mod Lookup
pub mod Restart
use rmt_platform.Prelude.{
  ℕ, zero, suc, String, Bool, true, false, Option, none, some, List, [], ◌∷◌, ◌++◌, map, ◌==◌,
  string_eq, if◌then◌else◌,
}

-- The kinds of backend, chosen by the path: none, a .json file or a .db file.
pub data Backend : Type 0 where
  in_memory json sqlite : Backend

-- A row of the table: the key column, the created_at column and the payload.
pub record Row (A : Type 0) : Type 0 where
  pub key : Option String
  pub created_at : ℕ
  pub payload : A

pub record DurableStore (A : Type 0) : Type 0 where
  pub backend : Backend
  pub records : List A
  pub rows : List (Row A)

-- What a subclass fixes: its key field (or none) and the creation time of its model.
pub record Schema (A : Type 0) : Type 0 where
  pub key_of : A → Option String
  pub created_at_of : A → ℕ

-- `WHERE key = ?`: NULL equals nothing.
unfoldable pub key_matches : Option String → Option String → Bool
key_matches none k = false
key_matches (some a) none = false
key_matches (some a) (some b) = a == b

module _ {A : Type 0} where
  -- An empty store over a path that holds nothing yet.
  abbrev pub empty : Backend → DurableStore A
  empty b = record { backend = b; records = []; rows = [] }

  -- `self._records[index] = value`
  unfoldable pub set : List A → ℕ → A → List A
  set [] i v = []
  set (x ∷ xs) zero v = v ∷ xs
  set (x ∷ xs) (suc i) v = x ∷ set xs i v

  -- The loop `for i, r in enumerate(self._records)` up to the first record that fits.
  unfoldable pub find_index : (A → Bool) → List A → Option (ℕ × A)
  find_index p [] = none
  find_index p (x ∷ xs) =
      if p x
      then some (0, x)
      else elim (find_index p xs) [ none ↦ none | some (i, a) ↦ some (suc i, a) ]

  -- The loop of the subclasses' `get_by_id`.
  unfoldable pub find : (A → Bool) → List A → Option A
  find p [] = none
  find p (x ∷ xs) = if p x then some x else find p xs

  -- An assignment to a field of the object that `get_by_id` returned: the object stands in the
  -- list in memory, and nothing is written to disk.
  unfoldable pub modify_first : (A → Bool) → (A → A) → List A → List A
  modify_first p f [] = []
  modify_first p f (x ∷ xs) = if p x then f x ∷ xs else x ∷ modify_first p f xs

  unfoldable pub mutate : (A → Bool) → (A → A) → DurableStore A → DurableStore A
  mutate p f s = record s { records = modify_first p f s.records }

module _ {A : Type 0} (schema : Schema A) where
  -- `_row`
  abbrev pub row : A → Row A
  row r = record { key = schema.key_of r; created_at = schema.created_at_of r; payload = r }

  -- `_persist` for the JSON file, which holds the whole list.
  unfoldable pub persist : DurableStore A → DurableStore A
  persist s = elim s.backend [ json ↦ record s { rows = map row s.records } | _ ↦ s ]

  -- `_sql_update_by_key`
  unfoldable pub sql_update_by_key : Option String → A → List (Row A) → List (Row A)
  sql_update_by_key k new [] = []
  sql_update_by_key k new (r ∷ rs) =
      (if key_matches r.key k then row new else r) ∷ sql_update_by_key k new rs

  unfoldable pub save : A → DurableStore A → DurableStore A
  unfolding persist
  save r s =
      let s' : DurableStore A = record s { records = s.records ++ r ∷ [] } in
      elim s.backend [ sqlite ↦ record s' { rows = s.rows ++ row r ∷ [] } | _ ↦ persist s' ]

  -- `_commit_update`, at the index of a record that is there.
  unfoldable pub commit_update : ℕ → A → A → DurableStore A → DurableStore A
  unfolding persist set sql_update_by_key
  commit_update i old new s =
      let s' : DurableStore A = record s { records = set s.records i new } in
      elim s.backend [
        | sqlite ↦ record s' { rows = sql_update_by_key (schema.key_of old) new s.rows }
        | _ ↦ persist s'
      ]

  -- The `update` of the subclasses: the first record that fits is replaced by a changed copy.
  unfoldable pub update : (A → Bool) → (A → A) → DurableStore A → DurableStore A
  unfolding commit_update find_index
  update p f s = elim (find_index p s.records) [
    | none ↦ s
    | some (i, old) ↦ commit_update i old (f old) s
  ]

  -- `_replace_records`
  unfoldable pub replace_records : List A → DurableStore A → DurableStore A
  unfolding persist
  replace_records new s =
      let s' : DurableStore A = record s { records = new } in
      elim s.backend [ sqlite ↦ record s' { rows = map row new } | _ ↦ persist s' ]

-- A new process opens the same path: `__init__` and `_load`.
unfoldable pub reload : {A : Type 0} → DurableStore A → DurableStore A
reload s = elim s.backend [
  | in_memory ↦ record s { records = []; rows = [] }
  | _ ↦ record s { records = map (λ r. r.payload) s.rows }
]
