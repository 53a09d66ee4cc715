-- ===== src/Fs/Sync.antt =====
-- pootle_fs/plugin.py: `sync` and its parts. The dicts of the state's resources, which the parts
-- write to, are carried along. `sync_types` are merged, pulled and pushed.
pub mod Responses
pub mod Rows
pub mod Rounds
pub mod Notes
pub mod Parts
pub mod Written
pub mod Pulled
pub mod Stored
pub mod Noted
pub mod Lost
use pootle.Base.{
  ℕ, String, Bool, true, false, not, Option, none, some, List, [], ◌∷◌, ◌++◌, map, ◌==◌, nat_eq,
  string_eq, option_eq, if◌then◌else◌, filter, insert, lookup, contains, keys,
}
use pootle.Core.Response
use pootle.Core.Response.{responses, item_failed}
use pootle.Fs.Model.{StoreFs, World, Config, store_of, latest_hash}
use pootle.Fs.Resources.{pootle_revisions, file_hashes}
use pootle.Fs.State.{
  merge_pootle_wins, merge_fs_wins, fs_staged, fs_ahead, pootle_staged, pootle_ahead, remove,
  state_eq, FsState, Item, store_fs_of, reload,
}
use pootle.Fs.Response.{
  Action, FsResponse, action_eq, merged_from_pootle, merged_from_fs, pulled_to_pootle, pushed_to_fs,
  removed, empty_response,
}
use pootle.Fs.Tables.{find_row}
use pootle.Fs.Files.{on_sync}
use pootle.Fs.Transfer.{Transfer, pull, push, delete, update_row}
use pootle.Fs.Plugin.{Update, everything, to_pootle, to_fs}

-- What the parts of a synchronisation change.
pub record Run : Type 0 where
  pub world : World
  pub response : FsResponse
  pub revisions : List (Option ℕ × Option ℕ)
  pub hashes : List (String × Option String)

-- `sfs`: an item for each row, the last one that names it.
unfoldable pub items_by_pk : List Item → List (ℕ × Item)
items_by_pk [] = []
items_by_pk (i ∷ is) =
    let rest = items_by_pk is in
    elim (store_fs_of i.kwargs) [
      | none ↦ rest
      | some pk ↦ if contains pk (keys rest) then rest else (pk, i) ∷ rest
    ]

-- `StoreFS.objects.filter(id__in=sfs.keys())`, with the item of each.
unfoldable pub selected : List Item → List StoreFs → List (StoreFs × Item)
unfolding items_by_pk
selected items [] = []
selected items (r ∷ rows) =
    let rest = selected items rows in
    elim (lookup r.pk (items_by_pk items)) [ none ↦ rest | some i ↦ (r, i) ∷ rest ]

-- A row as it is in the table now.
abbrev pub current : World → StoreFs → StoreFs
current w r = elim (find_row w.store_fs r.pk) [ none ↦ r | some x ↦ x ]

abbrev respond : Action → Item → Run → Run
respond k i s = record s { response = Response.add k true i s.response }

abbrev set_hash : StoreFs → Run → Run
set_hash r s = record s { hashes = insert r.pootle_path (latest_hash s.world r.path) s.hashes }

abbrev set_revision : StoreFs → Option ℕ → Run → Run
set_revision r n s = record s { revisions = insert (current s.world r).store_id n s.revisions }

-- `if store_fs.store and store_fs.store.data: ...`.
unfoldable pub set_data_revision : StoreFs → Run → Run
set_data_revision r s = elim (store_of s.world (current s.world r)) [
  | none ↦ s
  | some store ↦ set_revision r store.data_revision s
]

-- The rows of the items, in the items' order, as they are at the start.
unfoldable pub pushable : List Item → List StoreFs → List (StoreFs × Item)
pushable [] rows = []
pushable (i ∷ is) rows =
    let rest = pushable is rows in
    elim (store_fs_of i.kwargs) [
      | none ↦ rest
      | some pk ↦ elim (find_row rows pk) [ none ↦ rest | some r ↦ (r, i) ∷ rest ]
    ]

module _ (t : Transfer) where
  abbrev is_pootle_wins : Item → Bool
  is_pootle_wins i = i.state_type == merge_pootle_wins

  abbrev is_everything : Update → Bool
  is_everything everything = true
  is_everything _ = false

  -- One round of `sync_merge`.
  unfoldable pub merge_row : Update → Run → StoreFs × Item → Run
  unfolding pull push
  merge_row update s (r, i) =
      let (w1, pulled) = pull t r true (some (is_pootle_wins i)) s.world in
      let (w2, n) = if is_everything update then push t (current w1 r) w1 else (w1, pulled) in
      respond (if is_pootle_wins i then merged_from_pootle else merged_from_fs) i
        (set_hash r (set_revision r n (record s { world = w2 })))

  -- One round of `sync_pull`.
  unfoldable pub pull_row : Run → StoreFs × Item → Run
  unfolding pull set_data_revision
  pull_row s (r, i) =
      let (w, n) = pull t r false none s.world in
      respond pulled_to_pootle i (set_hash r (set_data_revision r (record s { world = w })))

  -- One round of `sync_push`, of a row with a store.
  unfoldable pub push_row : Run → StoreFs × Item → Run
  unfolding push set_data_revision
  push_row s (r, i) =
      let (w, n) = push t r s.world in
      respond pushed_to_fs i (set_hash r (set_data_revision r (record s { world = w })))

  abbrev pub fold {ℓ} : {A : Type ℓ} → (Run → A → Run) → Run → List A → Run
  fold f s [] = s
  fold f s (x ∷ xs) = fold f (f s x) xs

  unfoldable pub sync_merge : Update → FsState → Run → Run
  unfolding merge_row selected
  sync_merge update state s =
      fold (merge_row update) s
        (selected (state merge_pootle_wins ++ state merge_fs_wins) s.world.store_fs)

  unfoldable pub sync_pull : FsState → Run → Run
  unfolding pull_row selected
  sync_pull state s =
      fold pull_row s (selected (state fs_staged ++ state fs_ahead) s.world.store_fs)

  unfoldable pub sync_push : FsState → Run → Run
  unfolding push_row pushable
  sync_push state s =
      fold push_row s (pushable (state pootle_staged ++ state pootle_ahead) s.world.store_fs)

-- One round of `sync_rm`. The store of the deleted row is read again.
unfoldable pub remove_row : Run → StoreFs × Item → Run
unfolding delete set_data_revision
remove_row s (r, i) =
    respond removed i (set_data_revision r (record s { world = delete r s.world }))

unfoldable pub remove_rows : List (StoreFs × Item) → Run → Run
unfolding remove_row
remove_rows [] s = s
remove_rows (x ∷ xs) s = remove_rows xs (remove_row s x)

unfoldable pub sync_rm : FsState → Run → Run
unfolding remove_rows selected
sync_rm state s = remove_rows (selected (state remove) s.world.store_fs) s

-- `on_sync` of one row, with what the dicts have for it.
unfoldable pub noted : Run → StoreFs → StoreFs
unfolding on_sync
noted s r =
    on_sync
      (elim (lookup r.pootle_path s.hashes) [
        | none ↦ latest_hash s.world r.path
        | some hash ↦ hash
      ])
      (elim (lookup r.store_id s.revisions) [ none ↦ none | some n ↦ n ]) r

-- The row of one item, with the columns that `bulk_update` writes.
unfoldable pub note_row : Run → Item → Run
unfolding noted
note_row s i = elim (store_fs_of i.kwargs) [
  | none ↦ s
  | some pk ↦ record s { world = update_row pk (noted s) s.world }
]

unfoldable pub note_rows : List Item → Run → Run
unfolding note_row
note_rows [] s = s
note_rows (i ∷ is) s = note_rows is (note_row s i)

abbrev sync_types : List Action
sync_types = pushed_to_fs ∷ pulled_to_pootle ∷ merged_from_pootle ∷ merged_from_fs ∷ []

-- `response.completed(sync_type)`.
unfoldable pub completed_items : Action → FsResponse → List Item
unfolding responses
completed_items k r = map (λ x. x.payload) (filter (λ x. not (item_failed x)) (responses k r))

unfoldable pub synced_items : FsResponse → List Item
unfolding completed_items
synced_items r =
    completed_items pushed_to_fs r
    ++ (completed_items pulled_to_pootle r
        ++ (completed_items merged_from_pootle r ++ completed_items merged_from_fs r))

abbrev when : Bool → (Run → Run) → Run → Run
when b f s = if b then f s else s

-- The parts of `sync`, in their order.
unfoldable pub sync_parts : Transfer → Update → FsState → Run → Run
unfolding sync_rm sync_merge sync_pull sync_push
sync_parts t update state s = when (to_fs update) (sync_push t state) (
    when (to_pootle update) (λ x. sync_pull t state (sync_merge t update state x))
      (sync_rm state s))

unfoldable pub sync : Transfer → Update → FsState → Run → Run
unfolding sync_parts note_rows synced_items
sync t update state s =
    let s' = sync_parts t update state s in note_rows (synced_items s'.response) s'

-- `sync` of a project, from its state.
unfoldable pub sync_project : Config → Transfer → Update → World → Run
unfolding sync reload pootle_revisions file_hashes empty_response
sync_project c t update w = sync t update (reload c w) (record {
  world = w;
  response = empty_response;
  revisions = pootle_revisions c w;
  hashes = file_hashes c w;
})
