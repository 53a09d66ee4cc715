-- ===== src/Fs/Tests.antt =====
-- The theorems about pootle_fs at a small project: a tracked file that has changed on both sides.
mod Files
use pootle.Base.{
  ◌≡◌, ◌⊎◌, refl, option_eq, string_eq, sym, subst, true, false, none, some, List, [], ◌∷◌, map, In,
  inl, inr, contains, is_some, nat_eq,
}
use pootle.Fs.Model.{
  Store, StoreFs, World, Config, blank, unset, pootle_wins, latest_hash, store_obsolete,
  store_is_null,
}
use pootle.Fs.Resources.{
  storefs_filtered, found_file_paths, file_hashes, max_revision_differs, pootle_changed, is_synced,
  is_unsynced,
}
use pootle.Fs.State.{
  Item, of_row, conflict, fs_ahead, state_eq, reload, has_state, in_conflict, in_remove,
  in_merge_pootle_wins, in_merge_fs_wins, in_pootle_staged, in_fs_staged, in_pootle_ahead,
  in_fs_ahead,
}
use pootle.Fs.State.Facts.{facts, IsMatched}
use pootle.Fs.State.Table.{table, has_state-table, has_state_unique}
use pootle.Fs.Tables.{write, find_row}
use pootle.Fs.Plugin.{resolve, unstage, resolve_columns, responds_to_state}
use pootle.Fs.Plugin.Resolve.{conflict-resolve, has_state-resolve, targets}
use pootle.Fs.Plugin.Unstage.{NotStaged-unstage, NotStaged, PksUnique}

abbrev pub config : Config
config = record {
  excluded_languages = [];
  pootle_regex = none;
  fs_regex = none;
  fs_fnmatch = none;
  find_translations = λ disk. map (λ (path, mtime). (path, path)) disk;
  get_fs_path = λ path. some path;
  keeps_null = false;
}

abbrev pub store : Store
store = record {
  id = 1;
  pootle_path = "/de/a.po";
  language = "de";
  obsolete = false;
  max_revision = some 5;
  data_revision = some 5;
}

abbrev pub row : StoreFs
row = record {
  pk = 7;
  pootle_path = "/de/a.po";
  path = "/de/a.po";
  store_id = some 1;
  last_sync_revision = some 3;
  last_sync_hash = some "10";
  staged_for_removal = false;
  staged_for_merge = false;
  resolve_conflict = blank;
}

abbrev pub project : World
project = record {
  stores = store ∷ [];
  store_fs = row ∷ [];
  next_pk = 8;
  disk = ("/de/a.po", "20") ∷ [];
}

abbrev pub staged_project : World
staged_project = record project { store_fs = record row { staged_for_removal = true } ∷ [] }

row-IsMatched : IsMatched config project row
unfolding storefs_filtered found_file_paths file_hashes latest_hash
row-IsMatched = record { filtered = refl; found = refl; hashed = refl }

row-in_conflict : in_conflict config project row ≡ true
unfolding in_conflict pootle_changed is_synced max_revision_differs store_obsolete store_is_null
    latest_hash
row-in_conflict = refl

state_of_project :
    reload config project conflict
    ≡ record { state_type = conflict; kwargs = of_row 7 "/de/a.po" "/de/a.po" } ∷ []
unfolding reload has_state row-in_conflict in_conflict pootle_changed is_synced max_revision_differs
    store_obsolete store_is_null latest_hash
state_of_project = refl

staged-PksUnique : PksUnique staged_project
staged-PksUnique r (inl e) =
    subst (λ x. find_row staged_project.store_fs x.pk ≡ some x) (sym e) refl
staged-PksUnique r (inr m) = elim m [ ]

has_state-table_example :
    has_state config project conflict row ≡ contains conflict (table (facts config project row))
has_state-table_example = has_state-table config project row (inl refl) row-IsMatched conflict

has_state-resolve_example :
    let w' = (responds_to_state config (resolve false false) project).world in
    let r' = write (resolve_columns false false) row in
    In r' w'.store_fs
    × (has_state config w' fs_ahead r'
        ≡ contains fs_ahead (targets false false (is_some (latest_hash project row.path))))
has_state-resolve_example =
    has_state-resolve config false false project row fs_ahead (inl refl) row-IsMatched
      row-in_conflict

abbrev in_order : List Item → List Item
in_order items = items

row_unstaged :
    (responds_to_state config (unstage in_order) staged_project).world.store_fs
    ≡ record row { resolve_conflict = unset } ∷ []
unfolding responds_to_state unstage has_state in_remove in_merge_pootle_wins in_merge_fs_wins
    in_pootle_staged in_fs_staged in_pootle_ahead in_fs_ahead pootle_changed is_synced is_unsynced
    storefs_filtered
row_unstaged = refl

NotStaged-unstage_example :
    NotStaged config
      (responds_to_state config (unstage in_order) staged_project).world
      (record row { resolve_conflict = unset })
NotStaged-unstage_example =
    NotStaged-unstage config in_order staged_project (record row { resolve_conflict = unset })
      (λ pk items. refl) staged-PksUnique
      (subst (λ rows. In (record row { resolve_conflict = unset }) rows) (sym row_unstaged)
        (inl refl))
