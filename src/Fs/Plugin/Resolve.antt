-- ===== src/Fs/Plugin/Resolve.antt =====
-- `resolve`: where a conflict goes.
use pootle.Base.{
  ◌≡◌, refl, ◌∙◌, inl, inr, Bool, true, false, ◌||◌, List, [], ◌∷◌, map, arith, In, All, ◌==◌,
  nat_eq, if◌then◌else◌, contains, is_some, is_none, Bool-cases, filter-eq-nil, All-append, All-map,
  All-of-In, In-map, In-append, subst, string_eq, option_eq, All-imp, ap,
}
use pootle.Fs.Model.{
  StoreFs, World, Config, pootle_wins, source_wins, store_obsolete, store_is_null, latest_hash,
}
use pootle.Fs.Resources.{
  is_synced, pootle_changed, max_revision_differs, found_file_paths, file_hashes, storefs_filtered,
}
use pootle.Fs.State.Facts.{facts, IsMatched}
use pootle.Fs.State.Table.{table, has_state-table}
use pootle.Fs.State.{
  StateName, conflict, conflict_untracked, merge_pootle_wins, merge_fs_wins, pootle_ahead,
  pootle_staged, fs_ahead, state_eq, row_item, reload, has_state, in_conflict,
}
use pootle.Fs.Tables.{Columns, write, pks}
use pootle.Fs.Tables.Rows.{contains-pks, All-new_rows}
use pootle.Fs.Plugin.{resolve, resolve_columns, responds_to_state}

-- What a conflict says of its row.
conflict-facts :
    (c : Config) (w : World) (r : StoreFs)
    → in_conflict c w r ≡ true
    → (is_some r.last_sync_revision ≡ true)
      × (is_some r.last_sync_hash ≡ true)
      × (r.staged_for_removal ≡ false)
      × (r.staged_for_merge ≡ false)
      × (store_is_null r ≡ false)
      × (store_obsolete w r ≡ false)
      × (max_revision_differs c w r ≡ true)
      × ((latest_hash w r.path == r.last_sync_hash) ≡ false)
unfolding in_conflict pootle_changed is_synced
conflict-facts c w r h = ground arith

module _ (c : Config) (merge wins : Bool) (w : World) where
  abbrev resolved : World
  resolved = (responds_to_state c (resolve merge wins) w).world

  -- what the update makes of a row
  abbrev updated : StoreFs → StoreFs
  updated r =
      if contains r.pk (pks (reload c w conflict)) then write (resolve_columns merge wins) r else r

  abbrev columns : Columns
  columns = resolve_columns merge wins

  written-not_conflict : (r : StoreFs) → in_conflict c resolved (write columns r) ≡ false
  unfolding in_conflict write
  written-not_conflict r = ground arith

  kept-not_conflict : (r : StoreFs) → in_conflict c w r ≡ false → in_conflict c resolved r ≡ false
  unfolding responds_to_state resolve in_conflict pootle_changed store_obsolete latest_hash
  kept-not_conflict r h = h

  updated-not_conflict :
      (r : StoreFs) → In r w.store_fs → in_conflict c resolved (updated r) ≡ false
  unfolding has_state reload
  updated-not_conflict r m = elim (Bool-cases (in_conflict c w r)) [
    | inl yes' ↦
        rw (contains-pks conflict (has_state c w conflict) r w.store_fs m yes')
          (written-not_conflict r)
    | inr no' ↦ elim (Bool-cases (contains r.pk (pks (reload c w conflict)))) [
      | inl hit ↦ rw hit (written-not_conflict r)
      | inr miss ↦ rw miss (kept-not_conflict r no')
    ]
  ]

  new-not_conflict :
      (r : StoreFs)
      → is_none r.last_sync_revision ≡ true
      → in_conflict c resolved (updated r) ≡ false
  unfolding in_conflict pootle_changed is_synced write
  new-not_conflict r h = ground arith

  conflict_resolved : All (λ r. in_conflict c resolved r ≡ false) resolved.store_fs
  unfolding responds_to_state resolve
  conflict_resolved =
      All-map (λ r. in_conflict c resolved r ≡ false) updated _
        (All-append _ w.store_fs _ (All-of-In _ w.store_fs updated-not_conflict) (
          All-imp (λ r. (is_none r.last_sync_revision ≡ true) × (is_none r.last_sync_hash ≡ true)) _
            (λ r h. new-not_conflict r h.0) _
            (All-new_rows w.stores columns w.next_pk (reload c w conflict_untracked))))

-- After `resolve`, with any arguments, the state of the project has no conflict.
pub conflict-resolve :
    (c : Config) (merge wins : Bool) (w : World)
    → reload c (responds_to_state c (resolve merge wins) w).world conflict ≡ []
unfolding reload has_state
conflict-resolve c merge wins w =
    ap (map (row_item conflict)) (filter-eq-nil _ _ (conflict_resolved c merge wins w))

-- Where `resolve` sends a conflict, by its arguments and whether the file is on disk.
abbrev pub targets : (merge wins on_disk : Bool) → List StateName
targets true true on_disk = merge_pootle_wins ∷ []
targets true false on_disk = merge_fs_wins ∷ []
targets false true true = pootle_ahead ∷ []
targets false true false = pootle_ahead ∷ pootle_staged ∷ []
targets false false true = fs_ahead ∷ []
targets false false false = []

facts-resolved :
    (c : Config) (merge wins : Bool) (w : World) (r : StoreFs)
    → facts c (resolved c merge wins w) (write (resolve_columns merge wins) r)
      ≡ record (facts c w r) {
        merge = merge || r.staged_for_merge;
        resolve = if wins then pootle_wins else source_wins;
      }
unfolding responds_to_state resolve write facts latest_hash store_obsolete max_revision_differs
    store_is_null
facts-resolved c true wins w r = refl
facts-resolved c false wins w r = refl

resolved-In :
    (c : Config) (merge wins : Bool) (w : World) (r : StoreFs)
    → In r w.store_fs
    → in_conflict c w r ≡ true
    → In (write (resolve_columns merge wins) r) (resolved c merge wins w).store_fs
unfolding responds_to_state resolve has_state reload
resolved-In c merge wins w r row h =
    let hit = contains-pks conflict (has_state c w conflict) r w.store_fs row h in
    let moved : updated c merge wins w r ≡ write (resolve_columns merge wins) r = rw hit in
    subst (λ x. In x (resolved c merge wins w).store_fs) moved
      (In-map (updated c merge wins w) r _ (In-append r w.store_fs _ row))

module _ {c : Config} (merge wins : Bool) {w : World} (r : StoreFs) (m : IsMatched c w r)
    (h : in_conflict c w r ≡ true) where
  abbrev r' : StoreFs
  r' = write (resolve_columns merge wins) r

  resolved-IsMatched : IsMatched c (resolved c merge wins w) r'
  unfolding responds_to_state resolve write latest_hash found_file_paths file_hashes
      storefs_filtered
  resolved-IsMatched = record { filtered = m.filtered; found = m.found; hashed = m.hashed }

  table-resolved :
      table (facts c (resolved c merge wins w) r')
      ≡ targets merge wins (is_some (latest_hash w r.path))
  table-resolved =
      ap table (facts-resolved c merge wins w r)
      ∙ (unfold table facts in ground (arith, conflict-facts c w r h))

-- resolve leaves each tracked row that is in conflict, and whose file the matcher finds, under
-- its Pootle path, exactly if it is on disk, in just the states that the arguments name: the
-- merge that is asked for, pootle_ahead if Pootle wins, and pootle_staged too if the file has
-- gone, or fs_ahead if the file wins, and none if it has gone.
pub has_state-resolve :
    (c : Config) (merge wins : Bool) (w : World) (r : StoreFs) (k : StateName)
    → In r w.store_fs
    → IsMatched c w r
    → in_conflict c w r ≡ true
    → let w' = (responds_to_state c (resolve merge wins) w).world in
      let r' = write (resolve_columns merge wins) r in
      In r' w'.store_fs
      × (has_state c w' k r' ≡ contains k (targets merge wins (is_some (latest_hash w r.path))))
has_state-resolve c merge wins w r k row m h =
    let row' = resolved-In c merge wins w r row h in
    (
      row',
      has_state-table c _ _ row' (resolved-IsMatched merge wins r m h) k
          ∙ ap (λ l. contains k l) (table-resolved merge wins r m h),
    )
