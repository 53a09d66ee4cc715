-- ===== src/Fs/Tests/Files.antt =====
-- The theorems about pootle_fs at small projects: files that are pulled and pushed, and sync.
use pootle.Base.{
  contains, ◌&&◌, ◌≡◌, refl, ◌&&◌, ◌==◌, option_eq, string_eq, sort_by, true, false, none, some, [],
  ◌∷◌, In, inl, inr, nat_eq, All, length, suc,
}
use pootle.Fs.Model.{StoreFs, World, unset, source_wins, latest_hash, store_obsolete, store_is_null}
use pootle.Fs.Resources.{
  storefs_filtered, found_file_paths, file_hashes, is_missing, missing_file_paths, tracked_paths,
  tracked, found_file_matches, max_revision_differs, pootle_changed, is_synced, is_unsynced,
  hash_differs, pootle_revisions,
}
use pootle.Fs.State.{
  Item, of_row, fs_ahead, remove, pootle_ahead, merge_fs_wins, state_eq, has_state, in_remove,
  in_merge_pootle_wins, in_merge_fs_wins, in_pootle_staged, in_fs_staged, in_pootle_ahead,
  in_fs_ahead,
}
use pootle.Fs.State.Facts.{IsMatched}
use pootle.Fs.Files.{dont_pull}
use pootle.Fs.Files.Synced.{dont_pull-of_state}
use pootle.Fs.Transfer.{Transfer, pull}
use pootle.Fs.Sync.{sync_project, merge_row, noted}
use pootle.Fs.Sync.Notes.{IsNoted}
use pootle.Fs.Sync.Written.{is_unwritten}
use pootle.Fs.Sync.Stored.{is_storeless}
use pootle.Fs.Sync.Noted.{
  sync_project-IsNoted, sync_project-keeps, synced_states, pulled_states, start,
}
use pootle.Fs.Sync.Lost.{has_state-lost, lost}
use pootle.Fs.Plugin.{everything}
use pootle.Fs.Tests.{config, store, row, project}

-- The store has been made obsolete, and is to come back from its file, which is unchanged.
abbrev readded_row : StoreFs
readded_row = record row { last_sync_hash = some "20"; resolve_conflict = source_wins }

abbrev readded : World
readded = record project {
  stores = record store { obsolete = true } ∷ [];
  store_fs = readded_row ∷ [];
}

readded-IsMatched : IsMatched config readded readded_row
unfolding storefs_filtered found_file_paths file_hashes latest_hash
readded-IsMatched = record { filtered = refl; found = refl; hashed = refl }

readded-in_fs_staged : in_fs_staged config readded readded_row ≡ true
unfolding in_fs_staged is_synced is_unsynced store_obsolete store_is_null is_missing
    missing_file_paths tracked_paths tracked storefs_filtered found_file_paths found_file_matches
    sort_by
readded-in_fs_staged = refl

dont_pull-of_state_example :
    dont_pull readded readded_row
    ≡ (store_obsolete readded readded_row && latest_hash readded "/de/a.po" == some "20")
dont_pull-of_state_example =
    dont_pull-of_state config readded readded_row (inl refl) readded-IsMatched
      (inl readded-in_fs_staged)

-- The store has changed, and the file has not.
abbrev ahead_row : StoreFs
ahead_row = record row { last_sync_hash = some "20" }

abbrev ahead : World
ahead = record project { store_fs = ahead_row ∷ [] }

abbrev synced_row : StoreFs
synced_row = record row {
  last_sync_revision = some 5;
  last_sync_hash = some "20";
  resolve_conflict = unset;
}

abbrev synced : World
synced = record project { store_fs = synced_row ∷ [] }

-- An update that takes a file's contents under revision 6, and a file that is written at 30.
abbrev transfer : Transfer
transfer = record {
  update =
      λ w s path since wins. (record s { max_revision = some 6; data_revision = some 6 }, some 6);
  update_id = λ w s path since wins. refl;
  update_obsolete = λ w s path since wins. refl;
  written = λ w s path. "30";
  next_store_id = λ stores. suc (length stores);
  language_of = λ path. "de";
}

ahead_row-has_state : has_state config ahead pootle_ahead ahead_row ≡ true
unfolding has_state in_pootle_ahead pootle_changed is_synced max_revision_differs store_obsolete
    store_is_null latest_hash
ahead_row-has_state = refl

sync_project-IsNoted_example :
    All
      (λ x. (x.pk == 7) ≡ true → IsNoted x)
      (sync_project config transfer everything ahead).world.store_fs
    × ((contains pootle_ahead pulled_states
          && is_storeless (sync_project config transfer everything ahead).world 7)
        ≡ false)
    × (is_unwritten (sync_project config transfer everything ahead).world 7 ≡ false)
sync_project-IsNoted_example =
    sync_project-IsNoted config transfer ahead ahead_row pootle_ahead (inl refl) refl
      ahead_row-has_state

synced_row-idle : All (λ k. has_state config synced k synced_row ≡ false) (remove ∷ synced_states)
unfolding has_state in_remove in_merge_pootle_wins in_merge_fs_wins in_fs_staged in_fs_ahead
    in_pootle_staged in_pootle_ahead pootle_changed is_synced is_unsynced max_revision_differs
    store_obsolete store_is_null latest_hash hash_differs file_hashes storefs_filtered is_missing
synced_row-idle = (refl, (refl, (refl, (refl, (refl, (refl, (refl, tt)))))))

only_synced_row : (x : StoreFs) → In x synced.store_fs → x.pk ≡ synced_row.pk → x ≡ synced_row
only_synced_row x (inl e) h = e
only_synced_row x (inr m) h = elim m [ ]

sync_project-keeps_example :
    In synced_row (sync_project config transfer everything synced).world.store_fs
sync_project-keeps_example =
    sync_project-keeps config transfer synced synced_row only_synced_row synced_row-idle (inl refl)

-- A row to be merged, whose file says what its store says.
abbrev no_change : Transfer
no_change = record transfer {
  update = λ w s path since wins. (s, none);
  update_id = λ w s path since wins. refl;
  update_obsolete = λ w s path since wins. refl;
}

abbrev merged_row : StoreFs
merged_row = record row { staged_for_merge = true; resolve_conflict = source_wins }

abbrev to_merge : World
to_merge = record project { store_fs = merged_row ∷ [] }

abbrev merge_item : Item
merge_item = record { state_type = merge_fs_wins; kwargs = of_row 7 "/de/a.po" "/de/a.po" }

lost-row :
    lost no_change (start config to_merge) merged_row merge_item
    ≡ record row { last_sync_revision = none; last_sync_hash = some "20"; resolve_conflict = unset }
unfolding noted merge_row pull pootle_revisions file_hashes
lost-row = refl

nothing_pulled : (pull no_change merged_row true (some false) to_merge).1 ≡ none
unfolding pull
nothing_pulled = refl

abbrev lost_row : StoreFs
lost_row = record row {
  last_sync_revision = none;
  last_sync_hash = some "20";
  resolve_conflict = unset;
}

abbrev with_lost : World
with_lost = record project { store_fs = lost_row ∷ [] }

lost_row-IsMatched : IsMatched config with_lost lost_row
unfolding storefs_filtered found_file_paths file_hashes latest_hash
lost_row-IsMatched = record { filtered = refl; found = refl; hashed = refl }

has_state-lost_example :
    has_state config with_lost fs_ahead
      (lost no_change (start config to_merge) merged_row merge_item)
    ≡ false
unfolding noted merge_row pull pootle_revisions file_hashes
has_state-lost_example =
    has_state-lost no_change (start config to_merge) merged_row merge_item config with_lost fs_ahead
      nothing_pulled refl refl (inl lost-row) lost_row-IsMatched
