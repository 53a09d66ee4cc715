-- ===== src/Fs/Tables.antt =====
-- The plugin's writes to the `StoreFS` table: rows are created, updated and deleted in bulk.
pub mod Rows
use pootle.Base.{
  ℕ, suc, ◌+◌, String, Bool, false, not, Option, none, some, List, [], ◌∷◌, ◌++◌, map, ◌==◌, nat_eq,
  string_eq, if◌then◌else◌, filter, contains, lookup, dict, length,
}
use pootle.Fs.Model.{Store, StoreFs, World, Resolve, blank}
use pootle.Fs.State.{Item, pootle_path_of, fs_path_of, store_fs_of}

-- The keyword arguments of a write: what it sets of a row. `none` leaves a column as it is.
pub record Columns : Type 0 where
  pub resolve_conflict : Option Resolve
  pub staged_for_merge : Option Bool
  pub staged_for_removal : Option Bool

abbrev set_or {ℓ} : {A : Type ℓ} → A → Option A → A
set_or old none = old
set_or old (some new) = new

unfoldable pub write : Columns → StoreFs → StoreFs
write k r = record r {
  resolve_conflict = set_or r.resolve_conflict k.resolve_conflict;
  staged_for_merge = set_or r.staged_for_merge k.staged_for_merge;
  staged_for_removal = set_or r.staged_for_removal k.staged_for_removal;
}

-- `stores.get(item.pootle_path)`: the primary key of the store at that path.
unfoldable pub store_at : List Store → String → Option ℕ
store_at stores path = lookup path (dict (map (λ s. (s.pootle_path, s.id)) stores))

-- A row with the table's defaults.
unfoldable pub new_row : List Store → ℕ → Item → StoreFs
unfolding store_at
new_row stores pk item = record {
  pk = pk;
  pootle_path = pootle_path_of item.kwargs;
  path = fs_path_of item.kwargs;
  store_id = store_at stores (pootle_path_of item.kwargs);
  last_sync_revision = none;
  last_sync_hash = none;
  staged_for_removal = false;
  staged_for_merge = false;
  resolve_conflict = blank;
}

unfoldable pub new_rows : List Store → Columns → ℕ → List Item → List StoreFs
unfolding write new_row
new_rows stores k pk [] = []
new_rows stores k pk (item ∷ items) =
    write k (new_row stores pk item) ∷ new_rows stores k (suc pk) items

-- `bulk_create`.
unfoldable pub create_store_fs : Columns → List Item → World → World
unfolding new_rows
create_store_fs k items w = record w {
  store_fs = w.store_fs ++ new_rows w.stores k w.next_pk items;
  next_pk = w.next_pk + length items;
}

-- `[fs.kwargs["store_fs"] for fs in items]`. Every item that these writes are given is one of a
-- row; an item without a row, for which the source raises, is passed over.
unfoldable pub pks : List Item → List ℕ
pks [] = []
pks (item ∷ items) =
    let rest = pks items in elim (store_fs_of item.kwargs) [ none ↦ rest | some pk ↦ pk ∷ rest ]

unfoldable pub update_store_fs : Columns → List Item → World → World
unfolding pks write
update_store_fs k items w = record w {
  store_fs = map (λ r. if contains r.pk (pks items) then write k r else r) w.store_fs;
}

unfoldable pub delete_store_fs : List Item → World → World
unfolding pks
delete_store_fs items w = record w {
  store_fs = filter (λ r. not (contains r.pk (pks items))) w.store_fs;
}

-- `StoreFS.objects.filter(pk=pk).first()`.
abbrev pub find_row : List StoreFs → ℕ → Option StoreFs
find_row [] pk = none
find_row (r ∷ rows) pk = if r.pk == pk then some r else find_row rows pk
