-- ===== src/Fs/State.antt =====
-- pootle_fs/state.py: `ProjectFSState`. A state of a tracked row is a condition on the row; the
-- three untracked states are lists of stores and of files.
pub mod Facts
pub mod Table
use pootle.Base.{
  ℕ, ◌≡◌, String, Bool, true, false, not, ◌&&◌, ◌||◌, Option, none, some, List, [], ◌∷◌, ◌++◌, map,
  arith, Eq, ◌↔◌, ◌==◌, nat_eq, string_eq, option_eq, is_some, if◌then◌else◌, filter, contains,
  keys, values, any, is_nonempty,
}
use pootle.Fs.Model.{
  Store, StoreFs, World, Config, unset, blank, pootle_wins, source_wins, resolve_eq, store_is_null,
  store_obsolete, latest_hash,
}
use pootle.Fs.Resources.{
  trackable_stores, trackable_store_paths, found_file_matches, found_file_paths, tracked_paths,
  storefs_filtered, is_synced, is_unsynced, pootle_changed, hash_differs, is_missing,
  pootle_revisions, file_hashes,
}

-- The keys of `FS_STATE`.
pub data StateName : Type 0 where
  conflict conflict_untracked pootle_ahead pootle_untracked pootle_staged pootle_removed : StateName
  fs_ahead fs_untracked fs_staged fs_removed merge_pootle_wins merge_fs_wins remove : StateName
  both_removed : StateName

unfoldable pub states : List StateName
states =
    conflict ∷ conflict_untracked ∷ pootle_ahead ∷ pootle_untracked ∷ pootle_staged ∷ pootle_removed
    ∷ fs_ahead ∷ fs_untracked ∷ fs_staged ∷ fs_removed ∷ merge_pootle_wins ∷ merge_fs_wins ∷ remove
    ∷ both_removed ∷ []

-- The keyword arguments of an `FSItemState`: of a row, of an untracked store, of an untracked file.
pub data Kwargs : Type 0 where
  of_row : ℕ → String → String → Kwargs
  of_store : Store → String → Kwargs
  of_file : String → String → Kwargs

pub record Item : Type 0 where
  pub state_type : StateName
  pub kwargs : Kwargs

abbrev pub pootle_path_of : Kwargs → String
pootle_path_of (of_row pk pootle_path fs_path) = pootle_path
pootle_path_of (of_store s fs_path) = s.pootle_path
pootle_path_of (of_file pootle_path fs_path) = pootle_path

abbrev pub fs_path_of : Kwargs → String
fs_path_of (of_row pk pootle_path fs_path) = fs_path
fs_path_of (of_store s fs_path) = fs_path
fs_path_of (of_file pootle_path fs_path) = fs_path

-- `kwargs["store_fs"]`, where there is one.
abbrev pub store_fs_of : Kwargs → Option ℕ
store_fs_of (of_row pk pootle_path fs_path) = some pk
store_fs_of (of_store s fs_path) = none
store_fs_of (of_file pootle_path fs_path) = none

abbrev pub row_item : StateName → StoreFs → Item
row_item k r = record { state_type = k; kwargs = of_row r.pk r.pootle_path r.path }

abbrev pub store_item : StateName → Store × String → Item
store_item k (s, path) = record { state_type = k; kwargs = of_store s path }

abbrev pub file_item : String × String → Item
file_item (pootle_path, fs_path) = record {
  state_type = fs_untracked;
  kwargs = of_file pootle_path fs_path;
}

module _ (c : Config) (w : World) where
  -- `_get_changes(store_fs.file)[1]`, the `fs_changed` of the file.
  unfoldable pub file_fs_changed : StoreFs → Bool
  file_fs_changed r = not (latest_hash w r.path == r.last_sync_hash)

  abbrev file_exists : StoreFs → Bool
  file_exists r = is_some (latest_hash w r.path)

  abbrev is_gone : StoreFs → Bool
  is_gone r = store_is_null r || store_obsolete w r

  unfoldable pub in_conflict : StoreFs → Bool
  unfolding file_fs_changed
  in_conflict r =
      pootle_changed c w r
      && (r.resolve_conflict == unset || r.resolve_conflict == blank)
      && file_fs_changed r

  unfoldable pub in_remove : StoreFs → Bool
  in_remove r = storefs_filtered c r && r.staged_for_removal

  unfoldable pub in_fs_staged : StoreFs → Bool
  in_fs_staged r =
      (is_unsynced c r && not (is_missing c w r) && not (r.resolve_conflict == pootle_wins))
      || (is_synced c r && is_gone r && not (is_missing c w r) && r.resolve_conflict == source_wins)

  unfoldable pub in_fs_ahead : StoreFs → Bool
  in_fs_ahead r =
      is_synced c r
      && hash_differs c w r
      && (not (pootle_changed c w r) || (pootle_changed c w r && r.resolve_conflict == source_wins))
      && not (store_obsolete w r)
      && contains r.pootle_path (keys (file_hashes c w))
      && contains r.store_id (keys (pootle_revisions c w))

  unfoldable pub in_fs_removed : StoreFs → Bool
  in_fs_removed r =
      is_synced c r
      && is_missing c w r
      && not (r.resolve_conflict == pootle_wins)
      && not (store_is_null r)
      && not (store_obsolete w r)
      && not (pootle_changed c w r)

  unfoldable pub in_merge_pootle_wins : StoreFs → Bool
  in_merge_pootle_wins r =
      storefs_filtered c r && r.staged_for_merge && r.resolve_conflict == pootle_wins

  unfoldable pub in_merge_fs_wins : StoreFs → Bool
  in_merge_fs_wins r =
      storefs_filtered c r && r.staged_for_merge && r.resolve_conflict == source_wins

  unfoldable pub in_pootle_ahead : StoreFs → Bool
  unfolding file_fs_changed
  in_pootle_ahead r =
      pootle_changed c w r && (not (file_fs_changed r) || r.resolve_conflict == pootle_wins)

  unfoldable pub in_pootle_staged : StoreFs → Bool
  in_pootle_staged r =
      ((is_unsynced c r
          && not (r.resolve_conflict == source_wins)
          && not (store_is_null r)
          && not (store_obsolete w r))
        || (is_synced c r
            && not (store_obsolete w r)
            && not (store_is_null r)
            && is_missing c w r
            && r.resolve_conflict == pootle_wins))
      && not (not (r.resolve_conflict == pootle_wins) && file_exists r)

  unfoldable pub in_both_removed : StoreFs → Bool
  in_both_removed r = is_synced c r && is_gone r && is_missing c w r

  unfoldable pub in_pootle_removed : StoreFs → Bool
  in_pootle_removed r =
      is_synced c r
      && not (r.resolve_conflict == source_wins)
      && not (is_missing c w r)
      && is_gone r

  -- The rows of a state of tracked rows; the untracked states have none.
  unfoldable pub has_state : StateName → StoreFs → Bool
  has_state conflict r = in_conflict r
  has_state conflict_untracked r = false
  has_state pootle_ahead r = in_pootle_ahead r
  has_state pootle_untracked r = false
  has_state pootle_staged r = in_pootle_staged r
  has_state pootle_removed r = in_pootle_removed r
  has_state fs_ahead r = in_fs_ahead r
  has_state fs_untracked r = false
  has_state fs_staged r = in_fs_staged r
  has_state fs_removed r = in_fs_removed r
  has_state merge_pootle_wins r = in_merge_pootle_wins r
  has_state merge_fs_wins r = in_merge_fs_wins r
  has_state remove r = in_remove r
  has_state both_removed r = in_both_removed r

  abbrev pub row_items : StateName → List Item
  row_items k = map (row_item k) (filter (has_state k) w.store_fs)

  -- `fs_untracked` in `state_fs_untracked`.
  unfoldable pub is_fs_untracked : String × String → Bool
  is_fs_untracked (pootle_path, fs_path) =
      not (contains fs_path (keys (tracked_paths c w)))
      && not (contains pootle_path (values (tracked_paths c w)))
      && not (contains fs_path (values (trackable_store_paths c w)))
      && not (contains pootle_path (keys (trackable_store_paths c w)))

  abbrev pub is_found : Store × String → Bool
  is_found (s, path) = contains path (found_file_paths c w)

  -- `reload`: the items of every state.
  unfoldable pub reload : StateName → List Item
  reload conflict_untracked =
      map (store_item conflict_untracked) (filter is_found (trackable_stores c w))
  reload pootle_untracked =
      map (store_item pootle_untracked) (filter (λ t. not (is_found t)) (trackable_stores c w))
  reload fs_untracked = map file_item (filter is_fs_untracked (found_file_matches c w))
  reload k = row_items k

abbrev pub FsState : Type 0
FsState = StateName → List Item

abbrev concat : List StateName → FsState → List Item
concat [] s = []
concat (k ∷ ks) s = s k ++ concat ks s

-- `state_unchanged`: the synced rows whose Pootle path is in no state.
unfoldable pub state_unchanged : Config → World → FsState → List StoreFs
unfolding states
state_unchanged c w s =
    filter
      (λ r.
        is_synced c r
        && not (contains r.pootle_path (map (λ i. pootle_path_of i.kwargs) (concat states s))))
      w.store_fs

-- `State.has_changed`.
unfoldable pub has_changed : FsState → Bool
unfolding states
has_changed s = any (λ k. is_nonempty (s k)) states

-- `ProjectFSState.filter`: an empty list of names or of paths lets everything through.
abbrev passes : List String → String → Bool
passes [] x = true
passes (p ∷ ps) x = contains x (p ∷ ps)

abbrev pub state_beq : StateName → StateName → Bool
state_beq conflict conflict = true
state_beq conflict_untracked conflict_untracked = true
state_beq pootle_ahead pootle_ahead = true
state_beq pootle_untracked pootle_untracked = true
state_beq pootle_staged pootle_staged = true
state_beq pootle_removed pootle_removed = true
state_beq fs_ahead fs_ahead = true
state_beq fs_untracked fs_untracked = true
state_beq fs_staged fs_staged = true
state_beq fs_removed fs_removed = true
state_beq merge_pootle_wins merge_pootle_wins = true
state_beq merge_fs_wins merge_fs_wins = true
state_beq remove remove = true
state_beq both_removed both_removed = true
state_beq _ _ = false

pub state_beq_iff : (a b : StateName) → (state_beq a b ≡ true) ↔ (a ≡ b)
state_beq_iff a b = ground arith

instance abbrev pub state_eq : Eq StateName
state_eq = record { eqb = state_beq; eqb_iff = state_beq_iff }

unfoldable pub filter_state : List String → List String → List StateName → FsState → FsState
filter_state fs_paths pootle_paths names s k =
    if is_nonempty names && not (contains k names)
    then []
    else filter
        (λ i.
          passes pootle_paths (pootle_path_of i.kwargs) && passes fs_paths (fs_path_of i.kwargs))
        (s k)
