-- ===== src/Fs/Transfer.antt =====
-- pootle_fs/files.py: `FSFile.pull`, `push` and `delete`. What a store takes from a file, and what
-- is written to a file, is an interface: the contents of units and files do not stand in `World`.
use pootle.Base.{
  ℕ, String, Bool, true, false, not, ◌≡◌, Option, none, some, List, [], ◌∷◌, ◌++◌, map, ◌==◌,
  nat_eq, string_eq, if◌then◌else◌, filter, insert,
}
use pootle.Fs.Model.{Store, StoreFs, World, pootle_wins, resolve_eq, store_of, latest_hash}
use pootle.Fs.Files.{dont_pull, dont_push, or_zero}

-- From which revision a store is compared with a file: from one on, or `Revision.get() + 1`.
pub data Since : Type 0 where
  revision : ℕ → Since
  above_all : Since

pub record Transfer : Type 0 where
  -- `Store.update` from the file at a path: the store afterwards, and the revision of the update.
  pub update : World → Store → String → Since → Bool → Store × Option ℕ
  pub update_id :
      (w : World) (s : Store) (path : String) (since : Since) (wins : Bool)
      → (update w s path since wins).0.id ≡ s.id
  pub update_obsolete :
      (w : World) (s : Store) (path : String) (since : Since) (wins : Bool)
      → (update w s path since wins).0.obsolete ≡ s.obsolete
  -- The modification time of the file that a store is written to.
  pub written : World → Store → String → String
  -- The key and the language that the store made by `create_by_path` gets.
  pub next_store_id : List Store → ℕ
  pub language_of : String → String

abbrev pub update_row : ℕ → (StoreFs → StoreFs) → World → World
update_row pk f w = record w { store_fs = map (λ r. if r.pk == pk then f r else r) w.store_fs }

-- `store.save()`.
unfoldable pub save_store : Store → World → World
save_store s w = record w { stores = map (λ t. if t.id == s.id then s else t) w.stores }

abbrev pub find_by_path : String → List Store → Option Store
find_by_path path [] = none
find_by_path path (s ∷ stores) = if s.pootle_path == path then some s else find_by_path path stores

-- `Store.resurrect`, of an obsolete store.
unfoldable pub resurrect_store : World × Store → World × Store
unfolding save_store
resurrect_store (w, s) =
    let live : Store = record s { obsolete = false } in
    if s.obsolete then (save_store live w, live) else (w, s)

-- `resolve_conflict` in `_sync_to_pootle`: whether Pootle wins.
unfoldable pub pull_wins : StoreFs → Option Bool → Bool
pull_wins r (some wins) = wins
pull_wins r none = r.resolve_conflict == pootle_wins

unfoldable pub since : StoreFs → Bool → Since
since r true = revision (or_zero r.last_sync_revision)
since r false = above_all

module _ (t : Transfer) where
  -- `create_by_path`, where the language and the extension are valid: the store at the path, and a
  -- new one where there is none.
  unfoldable pub create_by_path : String → World → World × Store
  create_by_path pootle_path w = elim (find_by_path pootle_path w.stores) [
    | some s ↦ (w, s)
    | none ↦
        let s : Store = record {
          id = t.next_store_id w.stores;
          pootle_path = pootle_path;
          language = t.language_of pootle_path;
          obsolete = false;
          max_revision = none;
          data_revision = none;
        } in
        (record w { stores = w.stores ++ (s ∷ []) }, s)
  ]

  -- `FSFile.create_store`.
  unfoldable pub create_store : StoreFs → World → World × Store
  unfolding create_by_path
  create_store r w =
      let (w', s) = create_by_path r.pootle_path w in
      (update_row r.pk (λ x. record x { store_id = some s.id }) w', s)

  -- The store of a row, made if there is none.
  unfoldable pub ensure_store : StoreFs → World → World × Store
  unfolding create_store
  ensure_store r w = elim (store_of w r) [ some s ↦ (w, s) | none ↦ create_store r w ]

  -- `_sync_to_pootle`, of a store that is there. The file has gone, or the store is updated.
  unfoldable pub sync_to_pootle : StoreFs → Bool → Option Bool → World × Store → World × Option ℕ
  unfolding save_store pull_wins since
  sync_to_pootle r merge wins (w, s) = elim (latest_hash w r.path) [
    | none ↦ (w, none)
    | some hash ↦
        let (s', update_revision) = t.update w s r.path (since r merge) (pull_wins r wins) in
        (save_store s' w, update_revision)
  ]

  -- `pull`, with the world and the revision that it returns.
  unfoldable pub pull : StoreFs → Bool → Option Bool → World → World × Option ℕ
  unfolding dont_pull ensure_store resurrect_store sync_to_pootle
  pull r merge wins w =
      if dont_pull w r
      then (w, none)
      else sync_to_pootle r merge wins (resurrect_store (ensure_store r w))

  unfoldable pub push : StoreFs → World → World × Option ℕ
  unfolding dont_push
  push r w = elim (store_of w r) [
    | none ↦ (w, none)
    | some s ↦
        if dont_push w r
        then (w, none)
        else (record w { disk = insert r.path (t.written w s r.path) w.disk }, s.data_revision)
  ]

-- `makeobsolete`, of a row's store.
unfoldable pub makeobsolete_store : StoreFs → World → World
unfolding save_store
makeobsolete_store r w = elim (store_of w r) [
  | none ↦ w
  | some s ↦ save_store (record s { obsolete = true }) w
]

-- `delete`: the store, the row and the file.
unfoldable pub delete : StoreFs → World → World
unfolding makeobsolete_store
delete r w =
    let w' = makeobsolete_store r w in
    record w' {
      store_fs = filter (λ x. not (x.pk == r.pk)) w'.store_fs;
      disk = filter (λ f. not (f.0 == r.path)) w'.disk;
    }
