-- ===== src/Fs/Model.antt =====
-- The tables and the files that pootle_fs works on (pootle_fs/abstracts.py, the `Store` of
-- pootle_store, and the directory of a project), and what it takes from elsewhere.
use pootle.Base.{
  ℕ, ◌≡◌, String, Bool, true, false, not, Option, none, some, List, [], ◌∷◌, arith, Eq, ◌==◌, ◌↔◌,
  nat_eq, string_eq, option_eq, is_some, if◌then◌else◌, lookup,
}

-- What the code reads of a `Store`. `max_revision` is the aggregate over its units, and
-- `data_revision` the stored `data.max_unit_revision`.
pub record Store : Type 0 where
  pub id : ℕ
  pub pootle_path : String
  pub language : String
  pub obsolete : Bool
  pub max_revision : Option ℕ
  pub data_revision : Option ℕ

-- `resolve_conflict`: NULL, 0 (the default of the field), POOTLE_WINS or SOURCE_WINS.
pub data Resolve : Type 0 where
  unset blank pootle_wins source_wins : Resolve

abbrev pub resolve_beq : Resolve → Resolve → Bool
resolve_beq unset unset = true
resolve_beq blank blank = true
resolve_beq pootle_wins pootle_wins = true
resolve_beq source_wins source_wins = true
resolve_beq _ _ = false

pub resolve_beq_iff : (a b : Resolve) → (resolve_beq a b ≡ true) ↔ (a ≡ b)
resolve_beq_iff a b = ground arith

instance abbrev pub resolve_eq : Eq Resolve
resolve_eq = record { eqb = resolve_beq; eqb_iff = resolve_beq_iff }

pub record StoreFs : Type 0 where
  pub pk : ℕ
  pub pootle_path : String
  pub path : String
  pub store_id : Option ℕ
  pub last_sync_revision : Option ℕ
  pub last_sync_hash : Option String
  pub staged_for_removal : Bool
  pub staged_for_merge : Bool
  pub resolve_conflict : Resolve

-- The project's stores, its `StoreFS` rows, the next primary key of that table, and the
-- modification time of each file, as text, by its path below the project's directory.
pub record World : Type 0 where
  pub stores : List Store
  pub store_fs : List StoreFs
  pub next_pk : ℕ
  pub disk : List (String × String)

-- What comes from the configuration, the path matcher and the database.
pub record Config : Type 0 where
  -- The project's key `pootle.fs.excluded_languages`.
  pub excluded_languages : List String
  -- The filters on Pootle paths and file paths, if given: the two regular expressions run by the
  -- database, and the glob run by `fnmatch`, also on a missing path.
  pub pootle_regex : Option (String → Bool)
  pub fs_regex : Option (String → Bool)
  pub fs_fnmatch : Option (Option String → Bool)
  -- The pairs of Pootle path and file path that the matcher finds in a directory.
  pub find_translations : List (String × String) → List (String × String)
  -- The file path that the matcher gives to a Pootle path.
  pub get_fs_path : String → Option String
  -- Whether `exclude(a=F("b"))` keeps a row whose `b` is NULL.
  pub keeps_null : Bool

-- The join of a row with its store.
unfoldable pub find_store : List Store → Option ℕ → Option Store
find_store stores none = none
find_store [] (some i) = none
find_store (s ∷ stores) (some i) = if s.id == i then some s else find_store stores (some i)

unfoldable pub store_of : World → StoreFs → Option Store
unfolding find_store
store_of w r = find_store w.stores r.store_id

-- `store__isnull=True` and `store__obsolete=True`.
unfoldable pub store_is_null : StoreFs → Bool
store_is_null r = not (is_some r.store_id)

unfoldable pub store_obsolete : World → StoreFs → Bool
unfolding store_of
store_obsolete w r = elim (store_of w r) [ none ↦ false | some s ↦ s.obsolete ]

-- `latest_hash` of a file: its modification time, if it is there.
unfoldable pub latest_hash : World → String → Option String
latest_hash w path = lookup path w.disk

abbrev pub glob {ℓ} : {A : Type ℓ} → Option (A → Bool) → A → Bool
glob none s = true
glob (some p) s = p s
