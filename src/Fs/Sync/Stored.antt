-- ===== src/Fs/Sync/Stored.antt =====
-- The stores that a synchronisation gives to rows.
use pootle.Base.{
  ℕ, ◌≡◌, ◌∙◌, ◌⊎◌, refl, sym, ap, subst, Bool, true, false, not, Option, none, some, Option-cases,
  Bool-cases, inl, inr, List, [], ◌∷◌, ◌++◌, map, arith, In, ◌==◌, nat_eq, option_eq, string_eq,
  is_some, if◌then◌else◌, lookup, is_some-lookup, beq_refl,
}
use pootle.Fs.Model.{Store, StoreFs, World, store_of, find_store}
use pootle.Fs.State.{
  Item, FsState, store_fs_of, state_eq, merge_pootle_wins, merge_fs_wins, fs_staged, fs_ahead,
  pootle_staged, pootle_ahead,
}
use pootle.Fs.Plugin.{everything}
use pootle.Fs.Sync.Written.{push_cases, pushed, pushed_rows, world-push_row}
use pootle.Fs.Sync.Rounds.{set_data_revision_keeps}
use pootle.Fs.Tables.{find_row}
use pootle.Fs.Transfer.{Transfer, pull, push, update_row}
use pootle.Fs.Sync.{
  Run, items_by_pk, selected, pushable, fold, noted, note_row, note_rows, pull_row, push_row,
  merge_row, current, sync_merge, sync_pull, sync_push,
}
use pootle.Fs.Sync.Responses.{names, keys-items_by_pk}
use pootle.Fs.Sync.Rows.{store_fs-push}
use pootle.Fs.Sync.Pulled.{
  KeepsStores, KeepsStores-refl, stored_in, Effect, Effect-then, Effect-pull,
}

abbrev lacks_store : List Store → Option StoreFs → Bool
lacks_store stores none = false
lacks_store stores (some x) = not (is_some (find_store stores x.store_id))

-- The row with a key has no store.
abbrev pub is_storeless : World → ℕ → Bool
is_storeless w k = lacks_store w.stores (find_row w.store_fs k)

-- The row with a key after a row has got a store.
abbrev with_store : Bool → ℕ → Option StoreFs → Option StoreFs
with_store b id none = none
with_store b id (some x) = some (if b then record x { store_id = some id } else x)

find_row-stored :
    (pk id k : ℕ) (rows : List StoreFs)
    → find_row (map (stored_in pk id) rows) k ≡ with_store (k == pk) id (find_row rows k)
find_row-stored pk id k [] = refl
find_row-stored pk id k (x ∷ rows) = elim (Bool-cases (x.pk == k)) [
  | inl here ↦
      let e : x.pk ≡ k = (nat_eq.eqb_iff x.pk k).0 here in
      elim (Bool-cases (x.pk == pk)) [
        | inl hit ↦ ground (arith, ap (λ n. n == pk) e)
        | inr miss ↦ ground (arith, ap (λ n. n == pk) e)
      ]
  | inr other ↦ elim (Bool-cases (x.pk == pk)) [
    | inl hit ↦ ground (arith, find_row-stored pk id k rows)
    | inr miss ↦ ground (arith, find_row-stored pk id k rows)
  ]
]

-- The row with a key is still the given one, or has a store.
abbrev Kept : ℕ → StoreFs → World → Type 0
Kept k x w = (find_row w.store_fs k ≡ some x) ⊎ (is_storeless w k ≡ false)

is_true : (b : Bool) → not b ≡ false → b ≡ true
is_true b h = ground arith

lacks_store-kept :
    (w w' : World) (o : Option StoreFs)
    → KeepsStores w w'
    → lacks_store w.stores o ≡ false
    → lacks_store w'.stores o ≡ false
lacks_store-kept w w' none keeps h = refl
lacks_store-kept w w' (some x) keeps h = ap not (keeps x.store_id (is_true _ h))

lacks_store-with :
    (b : Bool) (id : ℕ) (w w' : World) (o : Option StoreFs)
    → KeepsStores w w'
    → is_some (find_store w'.stores (some id)) ≡ true
    → lacks_store w.stores o ≡ false
    → lacks_store w'.stores (with_store b id o) ≡ false
lacks_store-with b id w w' none keeps there h = refl
lacks_store-with true id w w' (some x) keeps there h = ap not there
lacks_store-with false id w w' (some x) keeps there h = ap not (keeps x.store_id (is_true _ h))

module _ (r : StoreFs) (w w' : World) (effect : Effect r w w') where
  -- a row with a store keeps one
  stored_keeps : (k : ℕ) → is_storeless w k ≡ false → is_storeless w' k ≡ false
  stored_keeps k h = elim effect.rows [
    | inl (same, had) ↦
        ap (λ rows. lacks_store w'.stores (find_row rows k)) same
        ∙ lacks_store-kept w w' (find_row w.store_fs k) effect.stores h
    | inr (id, written, there) ↦
        ap (λ rows. lacks_store w'.stores (find_row rows k)) written
        ∙ (ap (lacks_store w'.stores) (find_row-stored r.pk id k w.store_fs)
            ∙ lacks_store-with (k == r.pk) id w w' (find_row w.store_fs k) effect.stores there h)
  ]

  Kept-after : (k : ℕ) (x : StoreFs) → Kept k x w → Kept k x w'
  Kept-after k x (inr h) = inr (stored_keeps k h)
  Kept-after k x (inl found) = elim effect.rows [
    | inl (same, had) ↦ inl (ap (λ rows. find_row rows k) same ∙ found)
    | inr (id, written, there) ↦
        let e : find_row w'.store_fs k ≡ with_store (k == r.pk) id (some x) =
          ap (λ rows. find_row rows k) written
          ∙ (find_row-stored r.pk id k w.store_fs ∙ ap (with_store (k == r.pk) id) found) in
        elim (Bool-cases (k == r.pk)) [
          | inl hit ↦ inr (
              ap (lacks_store w'.stores) e
              ∙ (ap (λ b. lacks_store w'.stores (with_store b id (some x))) hit ∙ ap not there))
          | inr miss ↦ inl (e ∙ ap (λ b. with_store b id (some x)) miss)
        ]
  ]

  -- the row itself has a store
  stored_after : Kept r.pk r w → is_storeless w' r.pk ≡ false
  stored_after (inr h) = stored_keeps r.pk h
  stored_after (inl found) = elim effect.rows [
    | inl (same, had) ↦
        ap (λ rows. lacks_store w'.stores (find_row rows r.pk)) same
        ∙ (ap (lacks_store w'.stores) found
            ∙ ap not (effect.stores r.store_id (unfold store_of in had)))
    | inr (id, written, there) ↦
        let e : find_row w'.store_fs r.pk ≡ with_store (r.pk == r.pk) id (some r) =
          ap (λ rows. find_row rows r.pk) written
          ∙ (find_row-stored r.pk id r.pk w.store_fs ∙ ap (with_store (r.pk == r.pk) id) found) in
        ap (lacks_store w'.stores) e
        ∙ (ap (λ b. lacks_store w'.stores (with_store b id (some r))) (beq_refl r.pk)
            ∙ ap not there)
  ]

-- Rounds that each have the effect of a pull.
module _ (t : Transfer) (f : Run → StoreFs × Item → Run)
    (round : (s : Run) (y : StoreFs × Item) → Effect y.0 s.world (f s y).world) where
  fold_keeps_stored :
      (l : List (StoreFs × Item)) (s : Run) (k : ℕ)
      → is_storeless s.world k ≡ false
      → is_storeless (fold t f s l).world k ≡ false
  fold_keeps_stored [] s k h = h
  fold_keeps_stored (y ∷ l) s k h =
      fold_keeps_stored l (f s y) k (stored_keeps y.0 s.world (f s y).world (round s y) k h)

  fold_stored :
      (l : List (StoreFs × Item)) (s : Run) (r : StoreFs) (i : Item)
      → In (r, i) l
      → Kept r.pk r s.world
      → is_storeless (fold t f s l).world r.pk ≡ false
  fold_stored [] s r i m h = elim m [ ]
  fold_stored (y ∷ l) s r i (inl e) h =
      let same : r ≡ y.0 = ap (λ p. p.0) e in
      fold_keeps_stored l (f s y) r.pk (
        subst (λ x. is_storeless (f s y).world x.pk ≡ false) (sym same)
          (stored_after y.0 s.world (f s y).world (round s y)
            (subst (λ x. Kept x.pk x s.world) same h)))
  fold_stored (y ∷ l) s r i (inr m) h =
      fold_stored l (f s y) r i m (Kept-after y.0 s.world (f s y).world (round s y) r.pk r h)

In-selected :
    (k : ℕ) (items : List Item) (rows : List StoreFs) (r : StoreFs)
    → names k items ≡ true
    → find_row rows k ≡ some r
    → (i : Item) × In (r, i) (selected items rows)
unfolding selected
In-selected k items [] r h found = cc found
In-selected k items (x ∷ rows) r h found = elim (Option-cases (lookup x.pk (items_by_pk items))) [
  | inl absent ↦
      let other : (x.pk == k) ≡ false = not_own x absent in
      let (i, m) = In-selected k items rows r h (ground arith) in
      (i, subst (In (r, i)) (ground arith) m)
  | inr (i, present) ↦
      let e : selected items (x ∷ rows) ≡ (x, i) ∷ selected items rows = ground arith in
      elim (Bool-cases (x.pk == k)) [
        | inl here ↦
            let same : x ≡ r = ground arith in
            (i, subst (In (r, i)) (sym e) (inl (ap (λ y. (y, i)) (sym same))))
        | inr other ↦
            let (j, m) = In-selected k items rows r h (ground arith) in
            (j, subst (In (r, j)) (sym e) (inr m))
      ]
]
  where
    not_own : (x : StoreFs) → lookup x.pk (items_by_pk items) ≡ none → (x.pk == k) ≡ false
    not_own x absent = elim (Bool-cases (x.pk == k)) [
      | inl same ↦ ground (
        arith,
        is_some-lookup x.pk (items_by_pk items),
        keys-items_by_pk x.pk items,
        ap (λ n. names n items) ((nat_eq.eqb_iff x.pk k).0 same),
      )
      | inr other ↦ other
    ]

module _ (t : Transfer) where
  stores-push : (r : StoreFs) (w : World) → (push t r w).0.stores ≡ w.stores
  stores-push r w = push_cases t w r (λ v. v.stores ≡ w.stores) (λ skip. refl) (λ hash. refl)

  pull_row-Effect : (s : Run) (y : StoreFs × Item) → Effect y.0 s.world (pull_row t s y).world
  unfolding pull_row
  pull_row-Effect s (r, i) =
      subst (Effect r s.world)
        (sym (set_data_revision_keeps r (record s { world = (pull t r false none s.world).0 })).0)
        (Effect-pull t r false none s.world)

  merge_row-Effect :
      (s : Run) (y : StoreFs × Item) → Effect y.0 s.world (merge_row t everything s y).world
  unfolding merge_row
  merge_row-Effect s (r, i) =
      let w1 = (pull t r true (some (i.state_type == merge_pootle_wins)) s.world).0 in
      Effect-then r s.world w1 (push t (current w1 r) w1).0
        (Effect-pull t r true (some (i.state_type == merge_pootle_wins)) s.world)
        (store_fs-push t (current w1 r) w1)
        (KeepsStores-refl w1 (push t (current w1 r) w1).0 (stores-push (current w1 r) w1))

  -- The rows of a part that pulls have a store after it.
  part_stored :
      (f : Run → StoreFs × Item → Run)
      → ((s : Run) (y : StoreFs × Item) → Effect y.0 s.world (f s y).world)
      → (items : List Item) (s : Run) (k : ℕ) → names k items ≡ true
      → is_storeless (fold t f s (selected items s.world.store_fs)).world k ≡ false
  part_stored f round items s k h = elim (Option-cases (find_row s.world.store_fs k)) [
    | inl absent ↦
        fold_keeps_stored t f round (selected items s.world.store_fs) s k
          (ap (lacks_store s.world.stores) absent)
    | inr (r, found) ↦
        let (i, m) = In-selected k items s.world.store_fs r h found in
        let own : r.pk ≡ k = pk-found k s.world.store_fs r found in
        subst (λ n. is_storeless (fold t f s (selected items s.world.store_fs)).world n ≡ false) own
          (fold_stored t f round (selected items s.world.store_fs) s r i m
            (inl (ap (find_row s.world.store_fs) own ∙ found)))
  ]
    where
      pk-found : (k : ℕ) (rows : List StoreFs) (r : StoreFs) → find_row rows k ≡ some r → r.pk ≡ k
      pk-found k [] r h = cc h
      pk-found k (x ∷ rows) r h = elim (Bool-cases (x.pk == k)) [
        | inl here ↦
            let same : x ≡ r = ground arith in
            sym (ap (λ y. y.pk) same) ∙ (nat_eq.eqb_iff x.pk k).0 here
        | inr other ↦ pk-found k rows r (ground arith)
      ]

  pub sync_merge-stored :
      (state : FsState) (s : Run) (k : ℕ)
      → names k (state merge_pootle_wins ++ state merge_fs_wins) ≡ true
      → is_storeless (sync_merge t everything state s).world k ≡ false
  unfolding sync_merge
  sync_merge-stored state s k h = part_stored (merge_row t everything) merge_row-Effect _ s k h

  pub sync_pull-stored :
      (state : FsState) (s : Run) (k : ℕ)
      → names k (state fs_staged ++ state fs_ahead) ≡ true
      → is_storeless (sync_pull t state s).world k ≡ false
  unfolding sync_pull
  sync_pull-stored state s k h = part_stored (pull_row t) pull_row-Effect _ s k h

  -- A row that has a store before the pulls has one after them.
  pub sync_pull_keeps_stored :
      (state : FsState) (s : Run) (k : ℕ)
      → is_storeless s.world k ≡ false
      → is_storeless (sync_pull t state s).world k ≡ false
  unfolding sync_pull
  sync_pull_keeps_stored state s k h =
      fold_keeps_stored t (pull_row t) pull_row-Effect
        (selected (state fs_staged ++ state fs_ahead) s.world.store_fs) s k h

  pushed_stores :
      (l : List (StoreFs × Item)) (s : Run) → (pushed t s l).world.stores ≡ s.world.stores
  pushed_stores [] s = refl
  pushed_stores ((x, i) ∷ l) s =
      pushed_stores l (push_row t s (x, i))
      ∙ (ap (λ w. w.stores) (world-push_row t s x i) ∙ stores-push x s.world)

  -- The pushes change no row and no store.
  pub sync_push_keeps_stored :
      (state : FsState) (s : Run) (k : ℕ)
      → is_storeless (sync_push t state s).world k ≡ is_storeless s.world k
  unfolding sync_push
  sync_push_keeps_stored state s k =
      let l = pushable (state pootle_staged ++ state pootle_ahead) s.world.store_fs in
      ap (λ stores. lacks_store stores (find_row (pushed t s l).world.store_fs k))
        (pushed_stores l s)
      ∙ ap (λ rows. lacks_store s.world.stores (find_row rows k)) (pushed_rows t l s)

module _ (s : Run) (pk k : ℕ) (stores : List Store) where
  abbrev after : StoreFs → StoreFs
  after r = if r.pk == pk then noted s r else r

  after-fields : (r : StoreFs) → ((after r).pk ≡ r.pk) × ((after r).store_id ≡ r.store_id)
  unfolding noted
  after-fields r = elim (Bool-cases (r.pk == pk)) [
    | inl hit ↦ rw hit (refl, refl)
    | inr miss ↦ rw miss (refl, refl)
  ]

  noted-storeless :
      (rows : List StoreFs)
      → lacks_store stores (find_row (map after rows) k) ≡ lacks_store stores (find_row rows k)
  noted-storeless [] = refl
  noted-storeless (r ∷ rows) =
      let (same, store) = after-fields r in
      ap (λ n. lacks_store stores (if n == k then some (after r) else find_row (map after rows) k))
        same
      ∙ elim (Bool-cases (r.pk == k)) [
        | inl hit ↦ rw hit (ap (λ id. not (is_some (find_store stores id))) store)
        | inr miss ↦ rw miss (noted-storeless rows)
      ]

note_row-storeless :
    (s : Run) (i : Item) (k : ℕ) → is_storeless (note_row s i).world k ≡ is_storeless s.world k
unfolding note_row
note_row-storeless s i k = elim (Option-cases (store_fs_of i.kwargs)) [
  | inl absent ↦ let e : note_row s i ≡ s = ground arith in ap (λ x. is_storeless x.world k) e
  | inr (pk, own) ↦
      let e : note_row s i ≡ record s { world = update_row pk (noted s) s.world } = ground arith in
      ap (λ x. is_storeless x.world k) e ∙ noted-storeless s pk k s.world.stores s.world.store_fs
]

-- Noting the rows changes neither their stores nor which they are.
pub note_rows-storeless :
    (items : List Item) (s : Run) (k : ℕ)
    → is_storeless (note_rows items s).world k ≡ is_storeless s.world k
unfolding note_rows
note_rows-storeless [] s k = refl
note_rows-storeless (i ∷ items) s k =
    note_rows-storeless items (note_row s i) k ∙ note_row-storeless s i k
