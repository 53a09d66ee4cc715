-- ===== src/Fs/Plugin/Unstage.antt =====
-- `unstage` of pootle_fs/plugin.py: the states of the rows that it leaves.
use pootle.Base.{
  ℕ, ◌≡◌, refl, ◌∙◌, inl, inr, Bool, true, false, not, ◌&&◌, ◌||◌, some, List, [], ◌∷◌, ◌++◌, map,
  arith, In, All, ◌==◌, nat_eq, if◌then◌else◌, filter, contains, is_none, In-of-map, In-of-filter,
  nat_beq_iff, Bool-cases, Option-cases, subst, sym, string_eq, option_eq,
}
use pootle.Fs.Model.{StoreFs, World, Config, resolve_eq, store_obsolete, latest_hash}
use pootle.Fs.Resources.{is_synced, is_unsynced, is_missing, found_file_paths, storefs_filtered}
use pootle.Fs.State.{
  StateName, Item, pootle_staged, fs_staged, pootle_ahead, fs_ahead, merge_pootle_wins,
  merge_fs_wins, remove, store_fs_of, row_item, reload, has_state, in_remove, in_merge_pootle_wins,
  in_merge_fs_wins, in_fs_staged, in_pootle_staged,
}
use pootle.Fs.State.Facts.{is_missing-found}
use pootle.Fs.Tables.{write, pks, find_row}
use pootle.Fs.Tables.Rows.{contains-pks, pks-append}
use pootle.Fs.Plugin.{
  unstage, responds_to_state, to_unstage, should_remove, unstaged_columns, is_resolved,
}

-- A primary key names its row.
abbrev pub PksUnique : World → Type 0
PksUnique w = (r : StoreFs) → In r w.store_fs → find_row w.store_fs r.pk ≡ some r

-- A reordering keeps the rows that are named.
abbrev pub KeepsPks : (List Item → List Item) → Type 0
KeepsPks order =
    (pk : ℕ) (items : List Item) → contains pk (pks (order items)) ≡ contains pk (pks items)

-- The item of a row is removed if the row has never been synced.
abbrev never_synced : StoreFs → Bool
never_synced r = is_none r.last_sync_revision && is_none r.last_sync_hash

should_remove-of_pk :
    (w : World) (pk : ℕ) (items : List Item) {r : StoreFs}
    → find_row w.store_fs pk ≡ some r
    → never_synced r ≡ true
    → contains pk (pks (filter (λ i. not (should_remove w i)) items)) ≡ false
unfolding pks
should_remove-of_pk w pk [] f h = refl
should_remove-of_pk w pk (i ∷ items) {r} f h = elim (Option-cases (store_fs_of i.kwargs)) [
  | inl untracked ↦ ground (arith, should_remove-of_pk w pk items f h)
  | inr (pk', e) ↦ elim (Bool-cases (pk == pk')) [
    | inl same ↦
        let f' : find_row w.store_fs pk' ≡ some r = rw ((nat_beq_iff pk pk').0 same) at f in
        ground (arith, should_remove-of_pk w pk items f h)
    | inr other ↦ ground (arith, should_remove-of_pk w pk items f h)
  ]
]

-- what is staged is unstaged one way or the other
removed_or_updated :
    (w : World) (pk : ℕ) (items : List Item)
    → contains pk (pks items) ≡ true
    → (contains pk (pks (filter (should_remove w) items))
        || contains pk (pks (filter (λ i. not (should_remove w i)) items)))
      ≡ true
unfolding pks
removed_or_updated w pk [] h = cc
removed_or_updated w pk (i ∷ items) h = ground (arith, removed_or_updated w pk items)

abbrev unstaged_world : Config → (List Item → List Item) → World → World
unstaged_world c order w = (responds_to_state c (unstage order) w).world

abbrev to_remove : Config → World → List ℕ
to_remove c w = pks (filter (should_remove w) (to_unstage (reload c w) w))

abbrev to_update : Config → World → List ℕ
to_update c w = pks (filter (λ i. not (should_remove w i)) (to_unstage (reload c w) w))

-- The states that are staged for the next synchronisation.
abbrev pub staged : List StateName
staged = remove ∷ merge_pootle_wins ∷ merge_fs_wins ∷ pootle_staged ∷ fs_staged ∷ []

abbrev pub NotStaged : Config → World → StoreFs → Type 0
NotStaged c w r = All (λ k. has_state c w k r ≡ false) staged

absent_from_state :
    (c : Config) (w : World) (k : StateName) (r : StoreFs)
    → In r w.store_fs
    → contains r.pk (pks (map (row_item k) (filter (has_state c w k) w.store_fs))) ≡ false
    → has_state c w k r ≡ false
absent_from_state c w k r row h = elim (Bool-cases (has_state c w k r)) [
  | inl e ↦ cc (contains-pks k (has_state c w k) r w.store_fs row e)
  | inr e ↦ e
]

-- A row that no staged item names is in none of the staged states.
not_named :
    (c : Config) (w : World) (r : StoreFs)
    → In r w.store_fs
    → contains r.pk (pks (to_unstage (reload c w) w)) ≡ false
    → NotStaged c w r
unfolding reload
not_named c w r row h =
    let named : (k : StateName) → List Item =
      λ k. map (row_item k) (filter (has_state c w k) w.store_fs) in
    let ahead = filter (is_resolved w) (named pootle_ahead ++ named fs_ahead) in
    let l3 = named fs_staged ++ ahead in
    let l2 = named pootle_staged ++ l3 in
    let l1 = named merge_fs_wins ++ l2 in
    let l0 = named merge_pootle_wins ++ l1 in
    let split0 = pks-append r.pk (named remove) l0 in
    let split1 = pks-append r.pk (named merge_pootle_wins) l1 in
    let split2 = pks-append r.pk (named merge_fs_wins) l2 in
    let split3 = pks-append r.pk (named pootle_staged) l3 in
    let split4 = pks-append r.pk (named fs_staged) ahead in
    let in0 = absent_from_state c w remove r row (ground (arith, split0)) in
    let in1 = absent_from_state c w merge_pootle_wins r row (ground (arith, split0, split1)) in
    let in2 = absent_from_state c w merge_fs_wins r row (ground (arith, split0, split1, split2)) in
    let in3 =
      absent_from_state c w pootle_staged r row (ground (arith, split0, split1, split2, split3)) in
    let in4 =
      absent_from_state c w fs_staged r row
        (ground (arith, split0, split1, split2, split3, split4)) in
    (in0, (in1, (in2, (in3, (in4, tt)))))

module _ (c : Config) (w : World) (rows : List StoreFs) (r : StoreFs)
    (missing : storefs_filtered c r ≡ true
      → is_missing c (record w { store_fs = rows }) r ≡ is_missing c w r) where
  kept-NotStaged : NotStaged c w r → NotStaged c (record w { store_fs = rows }) r
  unfolding has_state in_remove in_merge_pootle_wins in_merge_fs_wins in_fs_staged in_pootle_staged
      is_synced is_unsynced store_obsolete latest_hash
  kept-NotStaged h = ground (arith, missing)

written-NotStaged :
    (c : Config) (w : World) (r : StoreFs)
    → never_synced r ≡ false
    → NotStaged c w (write unstaged_columns r)
unfolding has_state in_remove in_merge_pootle_wins in_merge_fs_wins in_fs_staged in_pootle_staged
    is_synced is_unsynced write
written-NotStaged c w r h = ground arith

module _ (c : Config) (order : List Item → List Item) (keeps : KeepsPks order) (w : World)
    (unique : PksUnique w) where
  abbrev w' : World
  w' = unstaged_world c order w

  abbrev updated : StoreFs → StoreFs
  updated r =
      if contains r.pk
        (pks (order (filter (λ i. not (should_remove w i)) (to_unstage (reload c w) w))))
      then write unstaged_columns r
      else r

  named_updated :
      (r : StoreFs) → contains r.pk (to_update c w) ≡ true → updated r ≡ write unstaged_columns r
  named_updated r hit = rw (keeps r.pk _ ∙ hit)

  not_updated : (r : StoreFs) → contains r.pk (to_update c w) ≡ false → updated r ≡ r
  not_updated r miss = rw (keeps r.pk _ ∙ miss)

  was_synced :
      (r : StoreFs)
      → In r w.store_fs
      → contains r.pk (to_update c w) ≡ true
      → never_synced r ≡ false
  was_synced r row hit = elim (Bool-cases (never_synced r)) [
    | inl never ↦ cc (should_remove-of_pk w r.pk (to_unstage (reload c w) w) (unique r row) never)
    | inr synced ↦ synced
  ]

  still_missing :
      (r : StoreFs)
      → In r w.store_fs
      → In r w'.store_fs
      → storefs_filtered c r ≡ true
      → is_missing c w' r ≡ is_missing c w r
  still_missing r row row' filtered =
      is_missing-found c w' r row' filtered
      ∙ (unfold responds_to_state unstage found_file_paths in
          sym (is_missing-found c w r row filtered))

  unnamed :
      (r : StoreFs)
      → contains r.pk (to_update c w) ≡ false
      → contains r.pk (to_remove c w) ≡ false
      → contains r.pk (pks (to_unstage (reload c w) w)) ≡ false
  unnamed r miss stays = elim (Bool-cases (contains r.pk (pks (to_unstage (reload c w) w)))) [
    | inl named ↦
        let both = removed_or_updated w r.pk (to_unstage (reload c w) w) named in ground arith
    | inr other ↦ other
  ]

  updated-NotStaged :
      (r : StoreFs)
      → In r w.store_fs
      → In (updated r) w'.store_fs
      → contains (updated r).pk (to_remove c w) ≡ false
      → NotStaged c w' (updated r)
  updated-NotStaged r row row' stays = elim (Bool-cases (contains r.pk (to_update c w))) [
    | inl hit ↦
        subst (NotStaged c w') (sym (named_updated r hit))
          (written-NotStaged c w' r (was_synced r row hit))
    | inr miss ↦
        let same = not_updated r miss in
        subst (NotStaged c w') (sym same) (
          unfold responds_to_state unstage in
          kept-NotStaged c w _ r (still_missing r row (subst (λ x. In x w'.store_fs) same row')) (
            not_named c w r row
              (unnamed r miss (subst (λ x. contains x.pk (to_remove c w) ≡ false) same stays))))
  ]

  In-unstaged :
      (x : StoreFs)
      → In x w'.store_fs
      → In x (map updated w.store_fs) × (contains x.pk (to_remove c w) ≡ false)
  unfolding responds_to_state unstage
  In-unstaged x row' =
      let (in_rows, stays) =
        In-of-filter (λ y. not (contains y.pk (to_remove c w))) x (map updated w.store_fs) row' in
      (in_rows, ground arith)

  row-NotStaged : (x : StoreFs) → In x w'.store_fs → NotStaged c w' x
  row-NotStaged x row' =
      let (in_rows, stays) = In-unstaged x row' in
      let (r, row, e) = In-of-map updated x w.store_fs in_rows in
      subst (NotStaged c w') (sym e) (
        updated-NotStaged r row (subst (λ y. In y w'.store_fs) e row')
          (subst (λ y. contains y.pk (to_remove c w) ≡ false) e stays))

-- After unstage no row of the table is, by the state of the same configuration, in one of the
-- states remove, merge_pootle_wins, merge_fs_wins, pootle_staged and fs_staged, if the primary
-- keys are unique and the set that the source builds has the items that are put into it.
pub NotStaged-unstage :
    (c : Config) (order : List Item → List Item) (w : World) (r : StoreFs)
    → KeepsPks order
    → PksUnique w
    → In r (responds_to_state c (unstage order) w).world.store_fs
    → NotStaged c (responds_to_state c (unstage order) w).world r
NotStaged-unstage c order w r keeps unique row = row-NotStaged c order keeps w unique r row
