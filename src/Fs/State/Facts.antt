-- ===== src/Fs/State/Facts.antt =====
-- What the state of a tracked row depends on.
use pootle.Base.{
  ◌≡◌, ◌∙◌, ap, Bool, true, not, ◌&&◌, none, some, arith, In, ◌==◌, nat_eq, string_eq, option_eq,
  is_some, if◌then◌else◌, contains, keys, lookup, contains-filter, contains-key_of_row,
}
use pootle.Fs.Model.{StoreFs, World, Config, Resolve, store_is_null, store_obsolete, latest_hash}
use pootle.Fs.Resources.{
  found_file_paths, storefs_filtered, is_missing, missing_file_paths, tracked_paths, file_hashes,
  max_revision_differs,
}

-- The flags of the row, whether it has been synced, whether its store and its file are there, and
-- whether each has changed since.
pub record Facts : Type 0 where
  pub removal : Bool
  pub merge : Bool
  pub has_revision : Bool
  pub has_hash : Bool
  pub live : Bool
  pub on_disk : Bool
  pub newer_units : Bool
  pub newer_file : Bool
  pub resolve : Resolve

unfoldable pub facts : Config → World → StoreFs → Facts
facts c w r = record {
  removal = r.staged_for_removal;
  merge = r.staged_for_merge;
  has_revision = is_some r.last_sync_revision;
  has_hash = is_some r.last_sync_hash;
  live = not (store_is_null r) && not (store_obsolete w r);
  on_disk = is_some (latest_hash w r.path);
  newer_units = max_revision_differs c w r;
  newer_file = not (latest_hash w r.path == r.last_sync_hash);
  resolve = r.resolve_conflict;
}

-- The row passes the filters, and the matcher finds its file exactly if it is on disk, and then
-- under the row's Pootle path.
pub record IsMatched (c : Config) (w : World) (r : StoreFs) : Type 0 where
  pub filtered : storefs_filtered c r ≡ true
  pub found : contains r.path (found_file_paths c w) ≡ is_some (latest_hash w r.path)
  pub hashed :
      lookup r.pootle_path (file_hashes c w)
      ≡ (if is_some (latest_hash w r.path) then some (latest_hash w r.path) else none)

-- A tracked row is missing exactly if the matcher does not find its path.
pub is_missing-found :
    (c : Config) (w : World) (r : StoreFs)
    → In r w.store_fs
    → storefs_filtered c r ≡ true
    → is_missing c w r ≡ not (contains r.path (found_file_paths c w))
unfolding is_missing missing_file_paths
is_missing-found c w r row filtered =
    contains-filter (λ path. not (contains path (found_file_paths c w))) r.path
      (keys (tracked_paths c w))
    ∙ ground (arith, contains-tracked_paths)
  where
    contains-tracked_paths : contains r.path (keys (tracked_paths c w)) ≡ true
    contains-tracked_paths =
        unfold tracked_paths in
        contains-key_of_row (storefs_filtered c) (λ x. x.path) (λ x. x.pootle_path) r w.store_fs row
          filtered

pub is_missing-facts :
    {c : Config} {w : World} (r : StoreFs)
    → In r w.store_fs
    → IsMatched c w r
    → is_missing c w r ≡ not (is_some (latest_hash w r.path))
is_missing-facts {c} {w} r row m = is_missing-found c w r row m.filtered ∙ ap not m.found
