-- ===== src/Fs/Files.antt =====
-- pootle_fs/files.py: when a file is pulled or pushed, with what, and what is noted after it.
pub mod Synced
use pootle.Base.{
  ℕ, String, Bool, false, not, ◌&&◌, ◌||◌, Option, none, some, ◌==◌, nat_eq, string_eq, option_eq,
  is_some,
}
use pootle.Fs.Model.{StoreFs, World, unset, store_of, latest_hash}

abbrev pub or_zero : Option ℕ → ℕ
or_zero none = 0
or_zero (some n) = n

module _ (w : World) (r : StoreFs) where
  abbrev pub store_exists : Bool
  store_exists = is_some (store_of w r)

  -- `pootle_changed` of the file, which reads the stored revision.
  unfoldable pub file_pootle_changed : Bool
  unfolding store_of
  file_pootle_changed = elim (store_of w r) [
    | none ↦ false
    | some s ↦ not (some (or_zero s.data_revision) == r.last_sync_revision)
  ]

  -- Whether `pull` returns at once, as the store is there and `fs_changed` does not hold.
  unfoldable pub dont_pull : Bool
  unfolding store_of latest_hash
  dont_pull = store_exists && latest_hash w r.path == r.last_sync_hash

  unfoldable pub dont_push : Bool
  unfolding file_pootle_changed latest_hash
  dont_push = not store_exists || (is_some (latest_hash w r.path) && not file_pootle_changed)

unfoldable pub on_sync : Option String → Option ℕ → StoreFs → StoreFs
on_sync last_sync_hash last_sync_revision r = record r {
  resolve_conflict = unset;
  staged_for_merge = false;
  last_sync_hash = last_sync_hash;
  last_sync_revision = last_sync_revision;
}
