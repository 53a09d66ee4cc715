-- ===== src/Fs/Sync/Responses.antt =====
-- Which rows the responses of a synchronisation name.
use pootle.Base.{
  ℕ, ◌≡◌, refl, Bool, true, false, not, ◌||◌, ◌&&◌, some, Option-cases, inl, inr, All,
  is_some-lookup, is_some, List, [], ◌∷◌, ◌++◌, map, arith, ◌==◌, nat_eq, if◌then◌else◌, contains,
  lookup, keys, filter, beq_comm, subst, sym, ◌∙◌, ap,
}
use pootle.Core.Response
use pootle.Core.Response.{responses, item_failed, ItemResponse}
use pootle.Core.Response.Add.{responses-add}
use pootle.Fs.Model.{StoreFs}
use pootle.Fs.State.{Item, store_fs_of}
use pootle.Fs.Response.{
  Action, FsResponse, action_eq, merged_from_pootle, merged_from_fs, pulled_to_pootle, pushed_to_fs,
}
use pootle.Fs.Tables.{pks, find_row}
use pootle.Fs.Tables.Rows.{pks-append}
use pootle.Fs.Sync.{items_by_pk, selected, pushable, completed_items, synced_items}

-- An item of the list names the row.
abbrev pub names : ℕ → List Item → Bool
names pk items = contains pk (pks items)

abbrev pub row_pks : List StoreFs → List ℕ
row_pks rows = map (λ r. r.pk) rows

-- the payloads of the completed responses
abbrev payloads : List (ItemResponse Action Item) → List Item
payloads l = map (λ x. x.payload) (filter (λ x. not (item_failed x)) l)

payloads-append :
    (l : List (ItemResponse Action Item)) (k : Action) (i : Item)
    → payloads (l ++ (record { action_type = k; complete = true; payload = i } ∷ []))
      ≡ payloads l ++ (i ∷ [])
payloads-append [] k i = refl
payloads-append (x ∷ l) k i = ground (arith, payloads-append l k i)

completed_items-add :
    (k j : Action) (i : Item) (r : FsResponse)
    → completed_items k (Response.add j true i r)
      ≡ (if j == k then completed_items k r ++ (i ∷ []) else completed_items k r)
unfolding completed_items
completed_items-add k j i r =
    ap payloads (responses-add k j true i r)
    ∙ (ap-if payloads (j == k) _ (responses k r)
        ∙ ap (λ l. if j == k then l else payloads (responses k r))
            (payloads-append (responses k r) j i))
  where
    ap-if :
        (f : List (ItemResponse Action Item) → List Item) (b : Bool)
        (x y : List (ItemResponse Action Item))
        → f (if b then x else y) ≡ (if b then f x else f y)
    ap-if f true x y = refl
    ap-if f false x y = refl

names-completed_add :
    (pk : ℕ) (k j : Action) (i : Item) (r : FsResponse)
    → names pk (completed_items k (Response.add j true i r))
      ≡ (names pk (completed_items k r) || (j == k && names pk (i ∷ [])))
names-completed_add pk k j i r = ap (names pk) (completed_items-add k j i r) ∙ by_action (j == k)
  where
    by_action :
        (b : Bool)
        → names pk (if b then completed_items k r ++ (i ∷ []) else completed_items k r)
          ≡ (names pk (completed_items k r) || (b && names pk (i ∷ [])))
    by_action true = pks-append pk (completed_items k r) (i ∷ [])
    by_action false = ground arith

-- The actions of `sync_types`.
abbrev pub is_sync_type : Action → Bool
is_sync_type j =
    j == pushed_to_fs || (j == pulled_to_pootle || (j == merged_from_pootle || j == merged_from_fs))

names-synced :
    (pk : ℕ) (r : FsResponse)
    → names pk (synced_items r) ≡ (
        names pk (completed_items pushed_to_fs r)
        || (names pk (completed_items pulled_to_pootle r)
            || (names pk (completed_items merged_from_pootle r)
                || names pk (completed_items merged_from_fs r))))
unfolding synced_items
names-synced pk r =
    pks-append pk (completed_items pushed_to_fs r) _
    ∙ ap (λ b. names pk (completed_items pushed_to_fs r) || b)
        (pks-append pk (completed_items pulled_to_pootle r) _
          ∙ ap (λ b. names pk (completed_items pulled_to_pootle r) || b)
              (pks-append pk (completed_items merged_from_pootle r) _))

regroup :
    (a b c d w x y z n : Bool)
    → (w || (x || (y || z))) ≡ true
    → ((a || (w && n)) || ((b || (x && n)) || ((c || (y && n)) || (d || (z && n)))))
      ≡ ((a || (b || (c || d))) || n)
regroup a b c d w x y z n h = ground arith

-- A completed response of one of the types adds its row, and no other.
pub names-synced_add :
    (pk : ℕ) (j : Action) (i : Item) (r : FsResponse)
    → is_sync_type j ≡ true
    → names pk (synced_items (Response.add j true i r))
      ≡ (names pk (synced_items r) || names pk (i ∷ []))
names-synced_add pk j i r h =
    names-synced pk (Response.add j true i r)
    ∙ (rw
          (
            names-completed_add pk pushed_to_fs j i r,
            names-completed_add pk pulled_to_pootle j i r,
            names-completed_add pk merged_from_pootle j i r,
            names-completed_add pk merged_from_fs j i r,
          )
          (regroup (names pk (completed_items pushed_to_fs r))
            (names pk (completed_items pulled_to_pootle r))
            (names pk (completed_items merged_from_pootle r))
            (names pk (completed_items merged_from_fs r)) (j == pushed_to_fs)
            (j == pulled_to_pootle) (j == merged_from_pootle) (j == merged_from_fs)
            (names pk (i ∷ [])) h)
        ∙ ap (λ b. b || names pk (i ∷ [])) (sym (names-synced pk r)))

ungroup :
    (a b c d w x y z n : Bool)
    → (w || (x || (y || z))) ≡ false
    → ((a || (w && n)) || ((b || (x && n)) || ((c || (y && n)) || (d || (z && n)))))
      ≡ (a || (b || (c || d)))
ungroup a b c d w x y z n h = ground arith

-- A completed response of another type adds none.
pub names-synced_add_other :
    (pk : ℕ) (j : Action) (i : Item) (r : FsResponse)
    → is_sync_type j ≡ false
    → names pk (synced_items (Response.add j true i r)) ≡ names pk (synced_items r)
names-synced_add_other pk j i r h =
    names-synced pk (Response.add j true i r)
    ∙ (rw
          (
            names-completed_add pk pushed_to_fs j i r,
            names-completed_add pk pulled_to_pootle j i r,
            names-completed_add pk merged_from_pootle j i r,
            names-completed_add pk merged_from_fs j i r,
          )
          (ungroup (names pk (completed_items pushed_to_fs r))
            (names pk (completed_items pulled_to_pootle r))
            (names pk (completed_items merged_from_pootle r))
            (names pk (completed_items merged_from_fs r)) (j == pushed_to_fs)
            (j == pulled_to_pootle) (j == merged_from_pootle) (j == merged_from_fs)
            (names pk (i ∷ [])) h)
        ∙ sym (names-synced pk r))

pub keys-items_by_pk :
    (pk : ℕ) (items : List Item) → contains pk (keys (items_by_pk items)) ≡ names pk items
unfolding items_by_pk pks
keys-items_by_pk pk [] = refl
keys-items_by_pk pk (i ∷ items) = elim (Option-cases (store_fs_of i.kwargs)) [
  | inl absent ↦ ground (arith, keys-items_by_pk pk items)
  | inr (k, present) ↦
      ground (arith, keys-items_by_pk pk items, keys-items_by_pk k items, nat_eq.eqb_iff pk k)
]

item_of_pk :
    (pk : ℕ) (items : List Item) (i : Item)
    → lookup pk (items_by_pk items) ≡ some i
    → store_fs_of i.kwargs ≡ some pk
unfolding items_by_pk
item_of_pk pk [] i h = cc
item_of_pk pk (x ∷ items) i h = elim (Option-cases (store_fs_of x.kwargs)) [
  | inl absent ↦ ground (arith, item_of_pk pk items i)
  | inr (k, present) ↦ ground (arith, item_of_pk pk items i, nat_eq.eqb_iff k pk)
]

-- A row is selected exactly if it is in the table and an item names it.
pub row_pks-selected :
    (pk : ℕ) (items : List Item) (rows : List StoreFs)
    → contains pk (map (λ (x : StoreFs × Item). x.0.pk) (selected items rows))
      ≡ (contains pk (row_pks rows) && names pk items)
unfolding selected
row_pks-selected pk items [] = refl
row_pks-selected pk items (r ∷ rows) = elim (Option-cases (lookup r.pk (items_by_pk items))) [
  | inl absent ↦ ground (
    arith,
    row_pks-selected pk items rows,
    keys-items_by_pk r.pk items,
    is_some-lookup r.pk (items_by_pk items),
    nat_eq.eqb_iff pk r.pk,
  )
  | inr (i, present) ↦ ground (
    arith,
    row_pks-selected pk items rows,
    keys-items_by_pk r.pk items,
    is_some-lookup r.pk (items_by_pk items),
    nat_eq.eqb_iff pk r.pk,
  )
]

-- A selected row comes with an item that names it.
abbrev pub IsOwn : StoreFs × Item → Type 0
IsOwn (r, i) = store_fs_of i.kwargs ≡ some r.pk

pub selected-IsOwn : (items : List Item) (rows : List StoreFs) → All IsOwn (selected items rows)
unfolding selected
selected-IsOwn items [] = tt
selected-IsOwn items (r ∷ rows) = elim (Option-cases (lookup r.pk (items_by_pk items))) [
  | inl absent ↦
      let e : selected items (r ∷ rows) ≡ selected items rows = ground arith in
      subst (All IsOwn) (sym e) (selected-IsOwn items rows)
  | inr (i, present) ↦
      let e : selected items (r ∷ rows) ≡ (r, i) ∷ selected items rows = ground arith in
      subst (All IsOwn) (sym e) (item_of_pk r.pk items i present, selected-IsOwn items rows)
]

is_some-find_row :
    (rows : List StoreFs) (pk : ℕ) → is_some (find_row rows pk) ≡ contains pk (row_pks rows)
is_some-find_row [] pk = refl
is_some-find_row (r ∷ rows) pk = ground (arith, is_some-find_row rows pk, beq_comm pk r.pk)

pk-find_row : (rows : List StoreFs) (pk : ℕ) (r : StoreFs) → find_row rows pk ≡ some r → r.pk ≡ pk
pk-find_row [] pk r h = cc
pk-find_row (x ∷ rows) pk r h = ground (arith, pk-find_row rows pk r, nat_eq.eqb_iff x.pk pk)

-- The same of the rows that are pushed.
pub row_pks-pushable :
    (pk : ℕ) (items : List Item) (rows : List StoreFs)
    → contains pk (map (λ (x : StoreFs × Item). x.0.pk) (pushable items rows))
      ≡ (contains pk (row_pks rows) && names pk items)
unfolding pushable pks
row_pks-pushable pk [] rows = ground arith
row_pks-pushable pk (i ∷ items) rows = elim (Option-cases (store_fs_of i.kwargs)) [
  | inl absent ↦ ground (arith, row_pks-pushable pk items rows)
  | inr (k, present) ↦ elim (Option-cases (find_row rows k)) [
    | inl missing ↦
        ground (arith, row_pks-pushable pk items rows, is_some-find_row rows k, nat_eq.eqb_iff pk k)
    | inr (r, found) ↦ ground (
      arith,
      row_pks-pushable pk items rows,
      is_some-find_row rows k,
      pk-find_row rows k r,
      nat_eq.eqb_iff pk k,
    )
  ]
]

pub pushable-IsOwn : (items : List Item) (rows : List StoreFs) → All IsOwn (pushable items rows)
unfolding pushable
pushable-IsOwn [] rows = tt
pushable-IsOwn (i ∷ items) rows = elim (Option-cases (store_fs_of i.kwargs)) [
  | inl absent ↦
      let e : pushable (i ∷ items) rows ≡ pushable items rows = ground arith in
      subst (All IsOwn) (sym e) (pushable-IsOwn items rows)
  | inr (k, present) ↦ elim (Option-cases (find_row rows k)) [
    | inl missing ↦
        let e : pushable (i ∷ items) rows ≡ pushable items rows = ground arith in
        subst (All IsOwn) (sym e) (pushable-IsOwn items rows)
    | inr (r, found) ↦
        let e : pushable (i ∷ items) rows ≡ (r, i) ∷ pushable items rows = ground arith in
        subst (All IsOwn) (sym e)
          (present ∙ ap some (sym (pk-find_row rows k r found)), pushable-IsOwn items rows)
  ]
]
