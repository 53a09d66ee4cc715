-- ===== src/Fs/Resources.antt =====
-- pootle_fs/resources.py: what the state of a project is computed from. The caches of the
-- properties are not modelled: each is computed from the tables and the directory as they are.
use pootle.Base.{
  ℕ, String, Bool, not, ◌&&◌, ◌||◌, Option, none, some, List, [], ◌∷◌, map, ◌==◌, nat_eq, string_eq,
  option_eq, is_some, is_none, if◌then◌else◌, lookup, filter, contains, keys, values, dict, sort_by,
  str_lt,
}
use pootle.Fs.Model.{Store, StoreFs, World, Config, store_is_null, store_obsolete, store_of, glob}

-- The order of pairs of texts.
abbrev pair_lt : String × String → String × String → Bool
pair_lt a b = str_lt a.0 b.0 || (a.0 == b.0 && str_lt a.1 b.1)

module _ (c : Config) where
  unfoldable pub match_fs_path : Option String → Option String
  match_fs_path path = if glob c.fs_fnmatch path then path else none

  -- `storefs_filter.filtered`.
  unfoldable pub storefs_filtered : StoreFs → Bool
  storefs_filtered r = glob c.pootle_regex r.pootle_path && glob c.fs_regex r.path

  module _ (w : World) where
    -- `FSProjectResources.stores`.
    unfoldable pub stores : List Store
    stores = filter (λ s. not (contains s.language c.excluded_languages)) w.stores

    abbrev pub has_fs : Store → Bool
    has_fs s = contains (some s.id) (map (λ r. r.store_id) w.store_fs)

    abbrev match_stores : List Store → List (Store × String)
    match_stores [] = []
    match_stores (s ∷ l) =
        let rest = match_stores l in
        elim (match_fs_path (c.get_fs_path s.pootle_path)) [
          | none ↦ rest
          | some fs_path ↦ if fs_path == "" then rest else (s, fs_path) ∷ rest
        ]

    -- The stores that are not tracked, with their file paths.
    unfoldable pub trackable_stores : List (Store × String)
    unfolding stores match_fs_path
    trackable_stores =
        match_stores (
          filter (λ s. not s.obsolete && not (has_fs s) && glob c.pootle_regex s.pootle_path)
            stores)

    unfoldable pub trackable_store_paths : List (String × String)
    unfolding trackable_stores
    trackable_store_paths = dict (map (λ (s, fs_path). (s.pootle_path, fs_path)) trackable_stores)

    unfoldable pub found_file_matches : List (String × String)
    unfolding sort_by
    found_file_matches = sort_by pair_lt (c.find_translations w.disk)

    unfoldable pub found_file_paths : List String
    unfolding found_file_matches
    found_file_paths = values found_file_matches

    unfoldable pub tracked : List StoreFs
    unfolding storefs_filtered
    tracked = filter storefs_filtered w.store_fs

    unfoldable pub tracked_paths : List (String × String)
    unfolding tracked
    tracked_paths = dict (map (λ r. (r.path, r.pootle_path)) tracked)

    unfoldable pub missing_file_paths : List String
    unfolding tracked_paths found_file_paths
    missing_file_paths = filter (λ path. not (contains path found_file_paths)) (keys tracked_paths)

    -- The hash of each matched file, by its Pootle path.
    unfoldable pub file_hashes : List (String × Option String)
    unfolding found_file_matches
    file_hashes =
        dict (map (λ (pootle_path, path). (pootle_path, lookup path w.disk)) found_file_matches)

  -- The rest are the querysets' conditions on one row.
  abbrev exclude_staged : StoreFs → Bool
  exclude_staged r = not r.staged_for_removal && not r.staged_for_merge

  unfoldable pub is_synced : StoreFs → Bool
  unfolding storefs_filtered
  is_synced r =
      is_some r.last_sync_revision
      && is_some r.last_sync_hash
      && exclude_staged r
      && storefs_filtered r

  unfoldable pub is_unsynced : StoreFs → Bool
  unfolding storefs_filtered
  is_unsynced r =
      is_none r.last_sync_revision
      && is_none r.last_sync_hash
      && exclude_staged r
      && storefs_filtered r

  module _ (w : World) where
    -- `exclude(last_sync_revision=F("max_revision"))`.
    unfoldable pub max_revision_differs : StoreFs → Bool
    unfolding store_of
    max_revision_differs r = elim (store_of w r) [
      | none ↦ c.keeps_null
      | some s ↦ elim s.max_revision [
        | none ↦ c.keeps_null
        | some m ↦ not (r.last_sync_revision == some m)
      ]
    ]

    unfoldable pub pootle_changed : StoreFs → Bool
    unfolding max_revision_differs
    pootle_changed r =
        is_synced r && not (store_is_null r) && not (store_obsolete w r) && max_revision_differs r

    -- `pk in self.resources.fs_changed`, for a synced row.
    unfoldable pub hash_differs : StoreFs → Bool
    unfolding file_hashes
    hash_differs r = not (
        r.last_sync_hash
        == (elim (lookup r.pootle_path (file_hashes w)) [ none ↦ none | some hash ↦ hash ]))

    unfoldable pub is_missing : StoreFs → Bool
    unfolding missing_file_paths
    is_missing r = contains r.path (missing_file_paths w)

    -- `pootle_revisions`: the revisions of the live stores of the synced rows, by store.
    unfoldable pub pootle_revisions : List (Option ℕ × Option ℕ)
    unfolding is_synced store_is_null store_obsolete
    pootle_revisions = dict (
        map (λ r. (r.store_id, elim (store_of w r) [ none ↦ none | some s ↦ s.data_revision ]))
          (filter (λ r. is_synced r && not (store_is_null r) && not (store_obsolete w r))
            w.store_fs))
