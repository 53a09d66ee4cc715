-- ===== src/Fs/Sync/Parts.antt =====
-- The parts of a synchronisation, one after another.
use pootle.Base.{
  ℕ, ◌≡◌, ◌∙◌, sym, ap, Bool, false, not, ◌||◌, ◌&&◌, List, ◌++◌, map, arith, In, nat_eq, contains,
}
use pootle.Fs.Model.{StoreFs}
use pootle.Fs.State.{
  Item, FsState, remove, merge_pootle_wins, merge_fs_wins, fs_staged, fs_ahead, pootle_staged,
  pootle_ahead, state_eq,
}
use pootle.Fs.Tables.Rows.{pks-append}
use pootle.Fs.Transfer.{Transfer}
use pootle.Fs.Plugin.{everything}
use pootle.Fs.Sync.{
  Run, selected, pushable, synced_items, sync_merge, sync_pull, sync_push, sync_rm, sync_parts,
  merge_row, pull_row, push_row,
}
use pootle.Fs.Sync.Responses.{
  names, row_pks, row_pks-selected, row_pks-pushable, selected-IsOwn, pushable-IsOwn,
}
use pootle.Fs.Sync.Rounds.{
  IsPart, IsRemoval, fold-IsPart, pull_row-IsRound, push_row-IsRound, merge_row-IsRound,
  remove_rows-IsRemoval,
}

-- The items of the parts of `sync`, for both sides.
abbrev pub to_sync : FsState → List Item
to_sync state =
    (state merge_pootle_wins ++ state merge_fs_wins)
    ++ ((state fs_staged ++ state fs_ahead) ++ (state pootle_staged ++ state pootle_ahead))

-- What the parts leave: the keys of the rows that are not removed, the rows that no item names, and
-- responses that name the rows of the items.
pub record Parts (state : FsState) (s s' : Run) : Type 0 where
  pub left_pks :
      (k : ℕ)
      → contains k (row_pks s'.world.store_fs)
        ≡ (contains k (row_pks s.world.store_fs) && not (names k (state remove)))
  pub others :
      (x : StoreFs)
      → names x.pk (state remove) ≡ false
      → names x.pk (to_sync state) ≡ false
      → In x s.world.store_fs
      → In x s'.world.store_fs
  pub named :
      (k : ℕ)
      → names k (synced_items s'.response) ≡ (
          names k (synced_items s.response)
          || (contains k (row_pks s'.world.store_fs) && names k (to_sync state)))

pub names-to_sync :
    (k : ℕ) (state : FsState)
    → names k (to_sync state) ≡ (
        names k (state merge_pootle_wins ++ state merge_fs_wins)
        || (names k (state fs_staged ++ state fs_ahead)
            || names k (state pootle_staged ++ state pootle_ahead)))
names-to_sync k state =
    pks-append k (state merge_pootle_wins ++ state merge_fs_wins) _
    ∙ ap (λ b. names k (state merge_pootle_wins ++ state merge_fs_wins) || b)
        (pks-append k (state fs_staged ++ state fs_ahead) _)

-- A part over the rows that the items name.
record Part (items : List Item) (s s' : Run) : Type 0 where
  same_pks : row_pks s'.world.store_fs ≡ row_pks s.world.store_fs
  others : (x : StoreFs) → names x.pk items ≡ false → In x s.world.store_fs → In x s'.world.store_fs
  named :
      (k : ℕ)
      → names k (synced_items s'.response) ≡ (
          names k (synced_items s.response)
          || (contains k (row_pks s'.world.store_fs) && names k items))

Part-of_rounds :
    (items : List Item) (l : List (StoreFs × Item)) (s s' : Run)
    → ((k : ℕ)
        → contains k (map (λ (y : StoreFs × Item). y.0.pk) l)
          ≡ (contains k (row_pks s.world.store_fs) && names k items))
    → IsPart l s s'
    → Part items s s'
Part-of_rounds items l s s' keys part = record {
  same_pks = part.same_pks;
  others = λ x n m. part.others x (keys x.pk ∙ and_false _ n) m;
  named = λ k.
      part.named k
      ∙ ap (λ b. names k (synced_items s.response) || b)
          (keys k ∙ ap (λ rows. contains k rows && names k items) (sym part.same_pks));
}
  where
    and_false : (a : Bool) {b : Bool} → b ≡ false → (a && b) ≡ false
    and_false a h = ground arith

module _ (t : Transfer) (state : FsState) (s : Run) where
  sync_merge-Part :
      Part (state merge_pootle_wins ++ state merge_fs_wins) s (sync_merge t everything state s)
  unfolding sync_merge
  sync_merge-Part =
      let items = state merge_pootle_wins ++ state merge_fs_wins in
      Part-of_rounds items (selected items s.world.store_fs) s _
        (λ k. row_pks-selected k items s.world.store_fs)
        (fold-IsPart t (merge_row t everything) (merge_row-IsRound t everything)
          (selected items s.world.store_fs) s (selected-IsOwn items s.world.store_fs))

  sync_pull-Part : Part (state fs_staged ++ state fs_ahead) s (sync_pull t state s)
  unfolding sync_pull
  sync_pull-Part =
      let items = state fs_staged ++ state fs_ahead in
      Part-of_rounds items (selected items s.world.store_fs) s _
        (λ k. row_pks-selected k items s.world.store_fs)
        (fold-IsPart t (pull_row t) (pull_row-IsRound t) (selected items s.world.store_fs) s
          (selected-IsOwn items s.world.store_fs))

  sync_push-Part : Part (state pootle_staged ++ state pootle_ahead) s (sync_push t state s)
  unfolding sync_push
  sync_push-Part =
      let items = state pootle_staged ++ state pootle_ahead in
      Part-of_rounds items (pushable items s.world.store_fs) s _
        (λ k. row_pks-pushable k items s.world.store_fs)
        (fold-IsPart t (push_row t) (push_row-IsRound t) (pushable items s.world.store_fs) s
          (pushable-IsOwn items s.world.store_fs))

and_not : (a b : Bool) → (a && not (a && b)) ≡ (a && not b)
and_not a b = ground arith

and_false : (a b : Bool) → b ≡ false → (a && b) ≡ false
and_false a b h = ground arith

all_false : (a b c : Bool) → (a || (b || c)) ≡ false → (a ≡ false) × (b ≡ false) × (c ≡ false)
all_false a b c h = (ground arith, ground arith, ground arith)

collect :
    (n r a b c : Bool) → (((n || (r && a)) || (r && b)) || (r && c)) ≡ (n || (r && (a || (b || c))))
collect n r a b c = ground arith

Parts-of_Parts :
    (state : FsState) (s s1 s2 s3 s4 : Run)
    → IsRemoval (selected (state remove) s.world.store_fs) s s1
    → Part (state merge_pootle_wins ++ state merge_fs_wins) s1 s2
    → Part (state fs_staged ++ state fs_ahead) s2 s3
    → Part (state pootle_staged ++ state pootle_ahead) s3 s4
    → Parts state s s4
Parts-of_Parts state s s1 s2 s3 s4 removed merged pulled pushed = record {
  left_pks = λ k.
      ap (contains k) (pushed.same_pks ∙ (pulled.same_pks ∙ merged.same_pks))
      ∙ (removed.left_pks k
          ∙ (ap (λ b. contains k (row_pks s.world.store_fs) && not b)
                (row_pks-selected k (state remove) s.world.store_fs)
              ∙ and_not (contains k (row_pks s.world.store_fs)) (names k (state remove))));
  others = λ x gone kept m.
      let (a, b, c) =
        all_false (names x.pk (state merge_pootle_wins ++ state merge_fs_wins))
          (names x.pk (state fs_staged ++ state fs_ahead))
          (names x.pk (state pootle_staged ++ state pootle_ahead))
          (sym (names-to_sync x.pk state) ∙ kept) in
      pushed.others x c (
        pulled.others x b (
          merged.others x a (
            removed.others x
              (row_pks-selected x.pk (state remove) s.world.store_fs
                ∙ and_false (contains x.pk (row_pks s.world.store_fs)) (names x.pk (state remove))
                    gone)
              m)));
  named = λ k.
      let r = contains k (row_pks s4.world.store_fs) in
      let a = names k (state merge_pootle_wins ++ state merge_fs_wins) in
      let b = names k (state fs_staged ++ state fs_ahead) in
      let c = names k (state pootle_staged ++ state pootle_ahead) in
      pushed.named k
      ∙ (ap (λ x. x || (r && c))
            (pulled.named k
              ∙ (ap (λ x. x || (contains k (row_pks s3.world.store_fs) && b))
                    (merged.named k
                      ∙ (ap (λ x. x || (contains k (row_pks s2.world.store_fs) && a))
                            (removed.named k)
                          ∙ ap (λ rows. names k (synced_items s.response) || (contains k rows && a))
                              (sym (pushed.same_pks ∙ pulled.same_pks))))
                  ∙ ap
                      (λ rows.
                        (names k (synced_items s.response) || (r && a)) || (contains k rows && b))
                      (sym pushed.same_pks)))
          ∙ (collect (names k (synced_items s.response)) r a b c
              ∙ ap (λ x. names k (synced_items s.response) || (r && x))
                  (sym (names-to_sync k state))));
}

pub sync_parts-Parts :
    (t : Transfer) (state : FsState) (s : Run) → Parts state s (sync_parts t everything state s)
unfolding sync_parts sync_rm
sync_parts-Parts t state s =
    let s1 = sync_rm state s in
    let s2 = sync_merge t everything state s1 in
    let s3 = sync_pull t state s2 in
    Parts-of_Parts state s s1 s2 s3 (sync_push t state s3)
      (remove_rows-IsRemoval (selected (state remove) s.world.store_fs) s)
      (sync_merge-Part t state s1) (sync_pull-Part t state s2) (sync_push-Part t state s3)
