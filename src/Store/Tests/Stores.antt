-- ===== src/Store/Tests/Stores.antt =====
-- The theorems about pootle_store at small data: differences, and the update of a store.
use pootle.Base.{
  ◌≡◌, refl, ap, String, true, false, none, some, [], ◌∷◌, ◌==◌, nat_eq, string_eq, list_eq, arith,
  if◌then◌else◌, map, pos, contains, ℕ, List, length,
}
use pootle.Store.Unit.{obsolete}
use pootle.Store.Diff.{
  StoreDiff, equal, InsertPoint, Changes, of_db, of_file, diff, diff_opcodes, new_unit_list,
  get_units_to_add, insert_points, points, point_of, index_at, changes_of, has_changes,
  get_indexes_to_update, adds_of, get_units_to_obsolete, moves, moves_of, get_updated_sourceids,
  changed_ids, get_db_units, insert_tag, matches, view_db, view_source, updated_target_units,
  obsoleted_target_units, active_target_units,
}
use pootle.Store.Diff.Contents.{contains-new_unit_list}
use pootle.Store.StoreUpdater.{StoreState, Sources, update_from_diff}
use pootle.Store.StoreUpdater.Run.{
  Comparison, new, store_diff, make_changes, apply_changes, update_store,
}
use pootle.Store.StoreUpdater.Bounds.{Bounded, Made, Bounded-update_store}
use pootle.Store.StoreUpdater.Keeps.{ids, ids-update_from_diff}
use pootle.Store.Tests.{unit, synced, in_file, file_first}

-- A store with one unit, and a file with the same unit behind a new one.
abbrev difference : StoreDiff
difference = record {
  target_units = ("hello", unit) ∷ [];
  source_units = ("bye", of_file (record synced { unitid = "bye" })) ∷ ("hello", of_db unit) ∷ [];
  source_revision = some 5;
  target_revision = 9;
  opcodes = λ old changed. record { tag = equal; i1 = 0; i2 = 1; j1 = 0; j2 = 1 } ∷ [];
}

abbrev front : InsertPoint
front = record { insert_at = 0; uids = "bye" ∷ "hello" ∷ []; next_index = 1; delta = pos 1 }

adds_front : map (λ (s, at). at) (get_units_to_add difference 0 (front ∷ [])) ≡ 1 ∷ []
unfolding get_units_to_add
adds_front = refl

abbrev new_keys : List String
new_keys = "bye" ∷ "hello" ∷ []

-- The unit was obsoleted in the store after the last synchronisation, so that its key is dropped.
abbrev obsoleted_difference : StoreDiff
obsoleted_difference = record difference {
  target_units = ("hello", record unit { state = obsolete }) ∷ [];
}

contains-new_unit_list_example : contains "hello" (new_unit_list obsoleted_difference) ≡ false
contains-new_unit_list_example = contains-new_unit_list obsoleted_difference "hello" (refl, tt)

unit_matches : matches (view_db unit) (view_source (of_db unit)) ≡ true
unfolding matches
unit_matches = refl

abbrev sources : Sources
sources = record {
  find_source_unit = λ uid. some in_file;
  last_sync_unit = λ uid. if uid == "hello" then some synced else none;
  submitter = λ id. 3;
}

abbrev to_change : Changes
to_change = record {
  index = (1, 1) ∷ [];
  obsolete_ids = [];
  add = (of_file (record synced { unitid = "bye" }), 1) ∷ [];
  update_ids = 1 ∷ [];
  uid_index_map = ("hello", (1, 2)) ∷ [];
}

abbrev store : StoreState
store = record { units = unit ∷ []; pending = []; next_id = 2; revision = 10 }

ids-update_from_diff_example :
    let (st', counts) = update_from_diff file_first sources to_change store in
    (new : List ℕ) × (ids st'.units ≡ 1 ∷ new) × (length new ≡ counts.added)
ids-update_from_diff_example = ids-update_from_diff file_first sources to_change store

-- The file has a new unit in front, and the other with another target.
abbrev comparison : Comparison
comparison = record {
  source_units =
      ("bye", of_file (record synced { unitid = "bye" })) ∷ ("hello", of_file in_file) ∷ [];
  target_revision = 9;
  opcodes = λ old changed.
      record { tag = insert_tag; i1 = 0; i2 = 0; j1 = 0; j2 = 1 }
      ∷ record { tag = equal; i1 = 0; i2 = 1; j1 = 1; j2 = 2 }
      ∷ [];
}

abbrev found : Changes
found = record to_change { uid_index_map = [] }

diff_found : diff (store_diff comparison (some 5) store.units) ≡ some (some found)
unfolding diff get_db_units insert_points diff_opcodes points point_of index_at active_target_units
    new_unit_list updated_target_units obsoleted_target_units changes_of has_changes
    get_indexes_to_update get_units_to_add adds_of get_units_to_obsolete moves moves_of
    get_updated_sourceids changed_ids matches
diff_found = refl

Bounded-update_store_example :
    let (st', counts) = make_changes file_first sources found store in
    Bounded st' × Made file_first store st' (some (11, counts))
unfolding update_store apply_changes
Bounded-update_store_example =
    let (st', counts) = make_changes file_first sources found store in
    Bounded-update_store file_first sources comparison new store st' (some (11, counts))
      ((omega arith, omega arith), tt) (ap (apply_changes file_first sources store) diff_found)
