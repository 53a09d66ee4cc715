-- ===== src/Fs/Plugin.antt =====
-- pootle_fs/plugin.py: the operations that stage rows for the next synchronisation. Each is given
-- a state and a response, and returns the tables, the state, the response, and whether it has
-- expired the cache of the synchronisation.
pub mod Resolve
pub mod Unstage
use pootle.Base.{
  ℕ, zero, String, Bool, true, false, not, ◌&&◌, ◌||◌, Option, none, some, List, [], ◌++◌, ◌==◌,
  nat_eq, string_eq, if◌then◌else◌, filter, sort_by, str_lt,
}
use pootle.Core.Response.{made_changes, add_all}
use pootle.Fs.Model.{StoreFs, World, Config, unset, pootle_wins, source_wins, resolve_eq}
use pootle.Fs.State.{
  conflict, conflict_untracked, pootle_ahead, pootle_untracked, pootle_staged, pootle_removed,
  fs_ahead, fs_untracked, fs_staged, fs_removed, merge_pootle_wins, merge_fs_wins, remove,
  both_removed, state_eq, FsState, Item, pootle_path_of, store_fs_of, reload,
}
use pootle.Fs.Response.{
  Action, FsResponse, action_eq, added_from_fs, added_from_pootle, readded_from_pootle,
  readded_from_fs, staged_for_merge_pootle, staged_for_merge_fs, staged_for_overwrite_pootle,
  staged_for_overwrite_fs, staged_for_removal, unstaged, empty_response, response_types,
}
use pootle.Fs.Tables.{Columns, create_store_fs, update_store_fs, delete_store_fs, find_row}

-- The argument `update`: "all", "pootle" or "fs".
pub data Update : Type 0 where
  everything only_pootle only_fs : Update

-- `update in ["all", "pootle"]` and `update in ["all", "fs"]`.
abbrev pub to_pootle : Update → Bool
to_pootle only_fs = false
to_pootle _ = true

abbrev pub to_fs : Update → Bool
to_fs only_pootle = false
to_fs _ = true

pub record Outcome : Type 0 where
  pub world : World
  pub state : FsState
  pub response : FsResponse
  pub expired : Bool

abbrev pub Operation : Type 0
Operation = FsState → FsResponse → World → Outcome

-- `if response.made_changes: self.expire_sync_cache()`.
unfoldable pub finish : FsState → FsResponse → World → Outcome
unfolding made_changes response_types
finish s response w = record {
  world = w;
  state = s;
  response = response;
  expired = made_changes response_types response;
}

-- `@responds_to_state`, for a call with no state and no response of its own.
unfoldable pub responds_to_state : Config → Operation → World → Outcome
unfolding reload empty_response
responds_to_state c operation w = operation (reload c w) empty_response w

abbrev pub no_columns : Columns
no_columns = record { resolve_conflict = none; staged_for_merge = none; staged_for_removal = none }

abbrev when {ℓ} : {A : Type ℓ} → Bool → (A → A) → A → A
when b f x = if b then f x else x

-- `untracked` in `add`.
abbrev pub untracked_items : Update → FsState → List Item
untracked_items everything s = s fs_untracked ++ s pootle_untracked
untracked_items only_pootle s = s fs_untracked
untracked_items only_fs s = s pootle_untracked

unfoldable pub add_tables : Update → Bool → FsState → World → World
unfolding create_store_fs update_store_fs
add_tables update force s w =
    let w1 = create_store_fs no_columns (untracked_items update s) w in
    let w2 =
      when (force && to_pootle update)
        (update_store_fs (record no_columns { resolve_conflict = some pootle_wins }) (s fs_removed))
        w1 in
    when (force && to_fs update)
      (update_store_fs (record no_columns { resolve_conflict = some source_wins })
        (s pootle_removed))
      w2

unfoldable pub add_response : Update → Bool → FsState → FsResponse → FsResponse
unfolding add_all
add_response update force s r =
    let r1 = when (to_pootle update) (add_all added_from_fs (s fs_untracked)) r in
    let r2 = when (to_fs update) (add_all added_from_pootle (s pootle_untracked)) r1 in
    let r3 = when (force && to_pootle update) (add_all readded_from_pootle (s fs_removed)) r2 in
    when (force && to_fs update) (add_all readded_from_fs (s pootle_removed)) r3

unfoldable pub add : Update → Bool → Operation
unfolding add_tables add_response finish
add update force s response w =
    finish s (add_response update force s response) (add_tables update force s w)

-- The columns that `resolve` sets.
abbrev pub resolve_columns : Bool → Bool → Columns
resolve_columns merge wins = record {
  resolve_conflict = some (if wins then pootle_wins else source_wins);
  staged_for_merge = if merge then some true else none;
  staged_for_removal = none;
}

abbrev pub action_type : Bool → Bool → Action
action_type true true = staged_for_merge_pootle
action_type true false = staged_for_merge_fs
action_type false true = staged_for_overwrite_pootle
action_type false false = staged_for_overwrite_fs

unfoldable pub resolve : Bool → Bool → Operation
unfolding create_store_fs update_store_fs add_all finish
resolve merge wins s response w =
    let k = resolve_columns merge wins in
    finish s (add_all (action_type merge wins) (s conflict ++ s conflict_untracked) response)
      (update_store_fs k (s conflict) (create_store_fs k (s conflict_untracked) w))

-- `to_create` and `to_update` in `rm`.
abbrev pub rm_create : Update → Bool → FsState → List Item
rm_create update force s =
    if force
    then s conflict_untracked
      ++ ((if to_fs update then s pootle_untracked else [])
          ++ (if to_pootle update then s fs_untracked else []))
    else []

abbrev pub rm_update : Update → Bool → FsState → List Item
rm_update update force s =
    s both_removed
    ++ ((if to_fs update then s pootle_removed else [])
        ++ ((if to_pootle update then s fs_removed else []) ++ (if force then s conflict else [])))

abbrev pub removal_columns : Columns
removal_columns = record no_columns { staged_for_removal = some true }

-- `to_update` is the state's own list of `both_removed`, which the `+=` extend.
unfoldable pub rm : Update → Bool → Operation
unfolding create_store_fs update_store_fs add_all finish
rm update force s response w =
    let to_create = rm_create update force s in
    let to_update = rm_update update force s in
    finish (λ k. if k == both_removed then to_update else s k)
      (add_all staged_for_removal (to_create ++ to_update) response)
      (create_store_fs removal_columns to_create (update_store_fs removal_columns to_update w))

-- `fs_state.store_fs`, read from the table.
abbrev row_of : World → Item → Option StoreFs
row_of w item = elim (store_fs_of item.kwargs) [ none ↦ none | some pk ↦ find_row w.store_fs pk ]

-- `fs_state.store_fs.resolve_conflict in [SOURCE_WINS, POOTLE_WINS]`.
abbrev pub is_resolved : World → Item → Bool
is_resolved w item = elim (row_of w item) [
  | none ↦ false
  | some r ↦ r.resolve_conflict == source_wins || r.resolve_conflict == pootle_wins
]

-- `not last_sync_revision` and `not last_sync_hash`, in which 0 and the empty text count as absent.
abbrev no_revision : Option ℕ → Bool
no_revision none = true
no_revision (some zero) = true
no_revision (some _) = false

abbrev no_hash : Option String → Bool
no_hash none = true
no_hash (some hash) = hash == ""

abbrev pub should_remove : World → Item → Bool
should_remove w item = elim (row_of w item) [
  | none ↦ false
  | some r ↦ no_revision r.last_sync_revision && no_hash r.last_sync_hash
]

abbrev pub to_unstage : FsState → World → List Item
to_unstage s w =
    s remove
    ++ (s merge_pootle_wins
        ++ (s merge_fs_wins
            ++ (s pootle_staged
                ++ (s fs_staged ++ filter (is_resolved w) (s pootle_ahead ++ s fs_ahead)))))

abbrev pub unstaged_columns : Columns
unstaged_columns = record {
  resolve_conflict = some unset;
  staged_for_merge = some false;
  staged_for_removal = some false;
}

-- `set_order` is the order of a Python set.
unfoldable pub unstage : (List Item → List Item) → Operation
unfolding update_store_fs delete_store_fs add_all finish sort_by
unstage set_order s response w =
    let to_remove = filter (should_remove w) (to_unstage s w) in
    let to_update = set_order (filter (λ i. not (should_remove w i)) (to_unstage s w)) in
    finish s
      (add_all unstaged
        (sort_by (λ a b. str_lt (pootle_path_of a.kwargs) (pootle_path_of b.kwargs))
          (to_remove ++ to_update))
        response)
      (delete_store_fs to_remove (update_store_fs unstaged_columns to_update w))
