-- ===== src/Fs/Sync/Rounds.antt =====
-- What the rounds of a part do: to the rows, and to the responses.
use pootle.Base.{
  ℕ, ◌≡◌, ◌∙◌, refl, sym, ap, subst, Bool, true, false, not, ◌||◌, ◌&&◌, Option, none, some,
  Option-cases, Bool-cases, inl, inr, List, [], ◌∷◌, map, arith, In, All, ◌==◌, nat_eq,
  if◌then◌else◌, contains, filter,
}
use pootle.Core.Response
use pootle.Fs.Model.{StoreFs, World, store_of}
use pootle.Fs.State.{Item, store_fs_of, merge_pootle_wins, state_eq}
use pootle.Fs.Response.{
  Action, action_eq, merged_from_pootle, merged_from_fs, pulled_to_pootle, pushed_to_fs, removed,
}
use pootle.Fs.Tables.{pks}
use pootle.Fs.Transfer.{Transfer, pull, push, delete, save_store, makeobsolete_store}
use pootle.Fs.Plugin.{Update}
use pootle.Fs.Sync.{
  Run, synced_items, set_data_revision, merge_row, pull_row, push_row, fold, is_everything, current,
  remove_row, remove_rows,
}
use pootle.Fs.Sync.Responses.{
  names, row_pks, IsOwn, is_sync_type, names-synced_add, names-synced_add_other,
}
use pootle.Fs.Sync.Rows.{Touches, Touches-same, Touches-trans, Touches-pull, store_fs-push}

-- What one round of a part does to the row with a key: it touches at most that row, and its
-- responses name it.
pub record IsRound (pk : ℕ) (s s' : Run) : Type 0 where
  pub touches : Touches pk s.world s'.world
  pub named :
      (k : ℕ) → names k (synced_items s'.response) ≡ (names k (synced_items s.response) || k == pk)

-- Rounds over a list of rows: the keys stay, the rows that are not in the list stay, and the
-- responses name those of the list.
pub record IsPart (l : List (StoreFs × Item)) (s s' : Run) : Type 0 where
  pub same_pks : row_pks s'.world.store_fs ≡ row_pks s.world.store_fs
  pub others :
      (x : StoreFs)
      → contains x.pk (map (λ (y : StoreFs × Item). y.0.pk) l) ≡ false
      → In x s.world.store_fs
      → In x s'.world.store_fs
  pub named :
      (k : ℕ)
      → names k (synced_items s'.response)
        ≡ (names k (synced_items s.response) || contains k (map (λ (y : StoreFs × Item). y.0.pk) l))

pub fold-IsPart :
    (t : Transfer) (f : Run → StoreFs × Item → Run)
    → ((s : Run) (y : StoreFs × Item) → IsOwn y → IsRound y.0.pk s (f s y))
    → (l : List (StoreFs × Item)) (s : Run) → All IsOwn l
    → IsPart l s (fold t f s l)
fold-IsPart t f round [] s own = record {
  same_pks = refl;
  others = λ x n m. m;
  named = λ k. ground arith;
}
fold-IsPart t f round (y ∷ l) s own =
    let first = round s y own.0 in
    let rest = fold-IsPart t f round l (f s y) own.1 in
    record {
      same_pks = rest.same_pks ∙ first.touches.same_pks;
      others = λ x n m. rest.others x (ground arith) (first.touches.others x (ground arith) m);
      named = λ k. ground (arith, rest.named k, first.named k);
    }

names-own : (k pk : ℕ) (i : Item) → store_fs_of i.kwargs ≡ some pk → names k (i ∷ []) ≡ (k == pk)
unfolding pks
names-own k pk i own = ground arith

named-add :
    (pk : ℕ) (j : Action) (i : Item) (s : Run)
    → is_sync_type j ≡ true
    → store_fs_of i.kwargs ≡ some pk
    → (k : ℕ)
    → names k (synced_items (Response.add j true i s.response))
      ≡ (names k (synced_items s.response) || k == pk)
named-add pk j i s h own k =
    names-synced_add k j i s.response h
    ∙ ap (λ b. names k (synced_items s.response) || b) (names-own k pk i own)

pub set_data_revision_keeps :
    (r : StoreFs) (s : Run)
    → ((set_data_revision r s).world ≡ s.world) × ((set_data_revision r s).response ≡ s.response)
unfolding set_data_revision
set_data_revision_keeps r s = ground arith

module _ (t : Transfer) where
  pub pull_row-IsRound :
      (s : Run) (y : StoreFs × Item) → IsOwn y → IsRound y.0.pk s (pull_row t s y)
  unfolding pull_row
  pull_row-IsRound s (r, i) own =
      let pulled = pull t r false none s.world in
      let keeps = set_data_revision_keeps r (record s { world = pulled.0 }) in
      record {
        touches =
            Touches-trans r.pk s.world pulled.0 _ (Touches-pull t r false none s.world)
              (Touches-same r.pk _ _ (ap (λ w. w.store_fs) keeps.0));
        named = λ k.
            named-add r.pk pulled_to_pootle i (set_data_revision r (record s { world = pulled.0 }))
              refl own k
            ∙ ap (λ x. names k (synced_items x) || k == r.pk) keeps.1;
      }

  pub push_row-IsRound :
      (s : Run) (y : StoreFs × Item) → IsOwn y → IsRound y.0.pk s (push_row t s y)
  unfolding push_row
  push_row-IsRound s (r, i) own =
      let pushed = push t r s.world in
      let keeps = set_data_revision_keeps r (record s { world = pushed.0 }) in
      record {
        touches = Touches-same r.pk _ _ (ap (λ w. w.store_fs) keeps.0 ∙ store_fs-push t r s.world);
        named = λ k.
            named-add r.pk pushed_to_fs i (set_data_revision r (record s { world = pushed.0 })) refl
              own k
            ∙ ap (λ x. names k (synced_items x) || k == r.pk) keeps.1;
      }

  store_fs-if_pushed :
      (b : Bool) (r : StoreFs) (w : World) (n : Option ℕ)
      → (if b then push t r w else (w, n)).0.store_fs ≡ w.store_fs
  store_fs-if_pushed true r w n = store_fs-push t r w
  store_fs-if_pushed false r w n = refl

  pub merge_row-IsRound :
      (update : Update) (s : Run) (y : StoreFs × Item)
      → IsOwn y
      → IsRound y.0.pk s (merge_row t update s y)
  unfolding merge_row
  merge_row-IsRound update s (r, i) own =
      let wins = i.state_type == merge_pootle_wins in
      let pulled = pull t r true (some wins) s.world in
      record {
        touches =
            Touches-trans r.pk s.world pulled.0 _ (Touches-pull t r true (some wins) s.world) (
              Touches-same r.pk _ _ (
                store_fs-if_pushed (is_everything t update) (current pulled.0 r) pulled.0
                  pulled.1));
        named = λ k.
            named-add r.pk (if wins then merged_from_pootle else merged_from_fs) i s (is_merge wins)
              own k;
      }
    where
      is_merge : (b : Bool) → is_sync_type (if b then merged_from_pootle else merged_from_fs) ≡ true
      is_merge true = refl
      is_merge false = refl

-- The removals: the rows of the list go, the others stay, and no row is named.
pub record IsRemoval (l : List (StoreFs × Item)) (s s' : Run) : Type 0 where
  pub left_pks :
      (k : ℕ)
      → contains k (row_pks s'.world.store_fs) ≡ (
          contains k (row_pks s.world.store_fs)
          && not (contains k (map (λ (y : StoreFs × Item). y.0.pk) l)))
  pub others :
      (x : StoreFs)
      → contains x.pk (map (λ (y : StoreFs × Item). y.0.pk) l) ≡ false
      → In x s.world.store_fs
      → In x s'.world.store_fs
  pub named : (k : ℕ) → names k (synced_items s'.response) ≡ names k (synced_items s.response)

store_fs-makeobsolete : (r : StoreFs) (w : World) → (makeobsolete_store r w).store_fs ≡ w.store_fs
unfolding makeobsolete_store save_store
store_fs-makeobsolete r w = elim (Option-cases (store_of w r)) [
  | inl absent ↦ ground arith
  | inr (s, found) ↦ ground arith
]

row_pks-filter :
    (k pk : ℕ) (rows : List StoreFs)
    → contains k (row_pks (filter (λ x. not (x.pk == pk)) rows))
      ≡ (contains k (row_pks rows) && not (k == pk))
row_pks-filter k pk [] = refl
row_pks-filter k pk (r ∷ rows) = ground (
  arith,
  row_pks-filter k pk rows,
  nat_eq.eqb_iff k r.pk,
  nat_eq.eqb_iff r.pk pk,
  nat_eq.eqb_iff k pk,
)

In-filter :
    (p : StoreFs → Bool) (x : StoreFs) (rows : List StoreFs)
    → p x ≡ true
    → In x rows
    → In x (filter p rows)
In-filter p x [] h m = m
In-filter p x (r ∷ rows) h (inl e) =
    let kept : filter p (r ∷ rows) ≡ r ∷ filter p rows = rw (ap p (sym e) ∙ h) in
    subst (In x) (sym kept) (inl e)
In-filter p x (r ∷ rows) h (inr m) = elim (Bool-cases (p r)) [
  | inl keep ↦
      let e : filter p (r ∷ rows) ≡ r ∷ filter p rows = rw keep in
      subst (In x) (sym e) (inr (In-filter p x rows h m))
  | inr drop ↦
      let e : filter p (r ∷ rows) ≡ filter p rows = rw drop in
      subst (In x) (sym e) (In-filter p x rows h m)
]

store_fs-remove_row :
    (s : Run) (r : StoreFs) (i : Item)
    → (remove_row s (r, i)).world.store_fs ≡ filter (λ x. not (x.pk == r.pk)) s.world.store_fs
unfolding remove_row delete
store_fs-remove_row s r i =
    ap (λ w. w.store_fs) (set_data_revision_keeps r (record s { world = delete r s.world })).0
    ∙ ap (filter (λ x. not (x.pk == r.pk))) (store_fs-makeobsolete r s.world)

names-remove_row :
    (k : ℕ) (s : Run) (y : StoreFs × Item)
    → names k (synced_items (remove_row s y).response) ≡ names k (synced_items s.response)
unfolding remove_row
names-remove_row k s (r, i) =
    names-synced_add_other k removed i
      (set_data_revision r (record s { world = delete r s.world })).response refl
    ∙ ap (λ x. names k (synced_items x))
        (set_data_revision_keeps r (record s { world = delete r s.world })).1

pub remove_rows-IsRemoval : (l : List (StoreFs × Item)) (s : Run) → IsRemoval l s (remove_rows l s)
unfolding remove_rows
remove_rows-IsRemoval [] s = record {
  left_pks = λ k. ground arith;
  others = λ x n m. m;
  named = λ k. refl;
}
remove_rows-IsRemoval ((r, i) ∷ l) s =
    let rest = remove_rows-IsRemoval l (remove_row s (r, i)) in
    let e = store_fs-remove_row s r i in
    record {
      left_pks = λ k.
          rest.left_pks k
          ∙ (ap
                (λ rows.
                  contains k (row_pks rows)
                  && not (contains k (map (λ (y : StoreFs × Item). y.0.pk) l)))
                e
              ∙ ground (arith, row_pks-filter k r.pk s.world.store_fs));
      others = λ x n m.
          rest.others x (ground arith)
            (subst (In x) (sym e) (In-filter _ x s.world.store_fs (ground arith) m));
      named = λ k. rest.named k ∙ names-remove_row k s (r, i);
    }
