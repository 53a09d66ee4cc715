-- ===== src/Fs/Sync/Noted.antt =====
-- What a synchronisation leaves of the rows: which it notes, removes, and leaves alone.
use pootle.Base.{
  ℕ, Bool, ◌≡◌, ◌∙◌, refl, sym, ap, true, false, not, ◌||◌, ◌&&◌, Bool-cases, inl, inr, List, [],
  ◌∷◌, map, ◌++◌, arith, In, All, ◌==◌, nat_eq, contains, filter, beq_comm,
}
use mathlib.Core.Bool.{true≢false}
use pootle.Fs.Model.{StoreFs, World, Config}
use pootle.Fs.State.{
  state_beq_iff, StateName, FsState, reload, has_state, row_item, remove, merge_pootle_wins,
  merge_fs_wins, fs_staged, fs_ahead, pootle_staged, pootle_ahead, state_eq, row_items, conflict,
  conflict_untracked, pootle_untracked, pootle_removed, fs_untracked, fs_removed, both_removed,
}
use pootle.Fs.Resources.{pootle_revisions, file_hashes}
use pootle.Fs.Response.{empty_response}
use pootle.Fs.Tables.{pks}
use pootle.Fs.Tables.Rows.{contains-pks, pks-append}
use pootle.Fs.Transfer.{Transfer}
use pootle.Fs.Plugin.{everything}
use pootle.Fs.Sync.{
  Run, synced_items, sync_parts, sync, sync_project, sync_rm, sync_merge, sync_pull, sync_push,
}
use pootle.Fs.Sync.Stored.{
  is_storeless, sync_merge-stored, sync_pull-stored, sync_pull_keeps_stored, sync_push_keeps_stored,
  note_rows-storeless,
}
use pootle.Fs.Sync.Written.{is_unwritten, sync_push-written, note_rows-unwritten}
use pootle.Fs.Sync.Responses.{names, row_pks}
use pootle.Fs.Sync.Notes.{Notes, IsNoted, note_rows-Notes}
use pootle.Fs.Sync.Parts.{Parts, to_sync, names-to_sync, sync_parts-Parts}

no_row :
    (pk : ℕ) (rows : List StoreFs)
    → contains pk (row_pks rows) ≡ false
    → All (λ x. (x.pk == pk) ≡ true → IsNoted x) rows
no_row pk [] h = tt
no_row pk (x ∷ rows) h = (
  λ e. elim (true≢false (sym e ∙ ground (arith, beq_comm pk x.pk))) [ ],
  no_row pk rows (ground arith),
)

-- The states whose rows are merged, pulled or pushed.
abbrev pub synced_states : List StateName
synced_states =
    merge_pootle_wins ∷ merge_fs_wins ∷ fs_staged ∷ fs_ahead ∷ pootle_staged ∷ pootle_ahead ∷ []

one_of :
    (p : StateName → Bool) (k a b : StateName)
    → contains k (a ∷ b ∷ []) ≡ true
    → p k ≡ true
    → (p a || p b) ≡ true
one_of p k a b m h = elim (Bool-cases (k == a)) [
  | inl e ↦ ground (arith, ap p ((state_beq_iff k a).0 e))
  | inr n ↦
      let e : (k == b) ≡ true = either (k == b) (k == a) n m in
      ground (arith, ap p ((state_beq_iff k b).0 e))
]
  where
    either : (x y : Bool) → y ≡ false → (y || (x || false)) ≡ true → x ≡ true
    either x y n m = ground arith

abbrev merged_states : List StateName
merged_states = merge_pootle_wins ∷ merge_fs_wins ∷ []

abbrev pub pulled_states : List StateName
pulled_states = merge_pootle_wins ∷ merge_fs_wins ∷ fs_staged ∷ fs_ahead ∷ []

abbrev pub pushed_states : List StateName
pushed_states = pootle_staged ∷ pootle_ahead ∷ []

abbrev pub start : Config → World → Run
start c w = record {
  world = w;
  response = empty_response;
  revisions = pootle_revisions c w;
  hashes = file_hashes c w;
}

no_responses : (k : ℕ) → names k (synced_items empty_response) ≡ false
unfolding synced_items pks empty_response
no_responses k = refl

names-to_sync_each :
    (k : ℕ) (state : FsState)
    → names k (to_sync state) ≡ (
        (names k (state merge_pootle_wins) || names k (state merge_fs_wins))
        || ((names k (state fs_staged) || names k (state fs_ahead))
            || (names k (state pootle_staged) || names k (state pootle_ahead))))
names-to_sync_each k state =
    names-to_sync k state
    ∙ rw (
      pks-append k (state merge_pootle_wins) (state merge_fs_wins),
      pks-append k (state fs_staged) (state fs_ahead),
      pks-append k (state pootle_staged) (state pootle_ahead),
    )

module _ (c : Config) (w : World) (r : StoreFs) where
  has_name :
      (k : StateName)
      → In r w.store_fs
      → has_state c w k r ≡ true
      → names r.pk (row_items c w k) ≡ true
  has_name k row h = contains-pks k (has_state c w k) r w.store_fs row h

  named_to_sync :
      (k : StateName)
      → In r w.store_fs
      → contains k synced_states ≡ true
      → has_state c w k r ≡ true
      → names r.pk (to_sync (reload c w)) ≡ true
  unfolding reload
  named_to_sync k row m h = names-to_sync_each r.pk (reload c w) ∙ by_state k m (has_name k row h)
    where
      by_state :
          (k : StateName)
          → contains k synced_states ≡ true
          → names r.pk (row_items c w k) ≡ true
          → ((names r.pk (row_items c w merge_pootle_wins)
                || names r.pk (row_items c w merge_fs_wins))
              || ((names r.pk (row_items c w fs_staged) || names r.pk (row_items c w fs_ahead))
                  || (names r.pk (row_items c w pootle_staged)
                      || names r.pk (row_items c w pootle_ahead))))
            ≡ true
      by_state merge_pootle_wins m h = ground arith
      by_state merge_fs_wins m h = ground arith
      by_state fs_staged m h = ground arith
      by_state fs_ahead m h = ground arith
      by_state pootle_staged m h = ground arith
      by_state pootle_ahead m h = ground arith
      by_state conflict m h = cc m
      by_state conflict_untracked m h = cc m
      by_state pootle_untracked m h = cc m
      by_state pootle_removed m h = cc m
      by_state fs_untracked m h = cc m
      by_state fs_removed m h = cc m
      by_state remove m h = cc m
      by_state both_removed m h = cc m

  reload_of_rows :
      (k : StateName) → contains k synced_states ≡ true → reload c w k ≡ row_items c w k
  unfolding reload
  reload_of_rows conflict_untracked m = cc m
  reload_of_rows pootle_untracked m = cc m
  reload_of_rows fs_untracked m = cc m
  reload_of_rows k m = refl

  named_pair :
      (k a b : StateName)
      → In r w.store_fs
      → contains k synced_states ≡ true
      → contains k (a ∷ b ∷ []) ≡ true
      → has_state c w k r ≡ true
      → names r.pk (reload c w a ++ reload c w b) ≡ true
  named_pair k a b row synced m h =
      pks-append r.pk (reload c w a) (reload c w b)
      ∙ one_of (λ q. names r.pk (reload c w q)) k a b m
          (ap (names r.pk) (reload_of_rows k synced) ∙ has_name k row h)

  -- where the key is the row's own, a state that the row is not in names no row with the key
  names_no_row :
      (k : StateName) (rows : List StoreFs)
      → ((x : StoreFs) → In x rows → x.pk ≡ r.pk → x ≡ r)
      → has_state c w k r ≡ false
      → names r.pk (map (row_item k) (filter (has_state c w k) rows)) ≡ false
  unfolding pks
  names_no_row k [] unique h = refl
  names_no_row k (x ∷ rows) unique h = elim (Bool-cases (r.pk == x.pk)) [
    | inl same ↦
        let e : x ≡ r = unique x (inl refl) (sym ((nat_eq.eqb_iff r.pk x.pk).0 same)) in
        ground (arith, ap (has_state c w k) e, names_no_row k rows (λ y n. unique y (inr n)) h)
    | inr other ↦ ground (arith, names_no_row k rows (λ y n. unique y (inr n)) h)
  ]

  idle_names :
      ((x : StoreFs) → In x w.store_fs → x.pk ≡ r.pk → x ≡ r)
      → All (λ k. has_state c w k r ≡ false) (remove ∷ synced_states)
      → (names r.pk (reload c w remove) ≡ false) × (names r.pk (to_sync (reload c w)) ≡ false)
  unfolding reload
  idle_names unique (a, (b, (d, (e, (f, (g, (h, _))))))) =
      let no =
        λ (k : StateName) (p : has_state c w k r ≡ false). names_no_row k w.store_fs unique p in
      (
        no remove a,
        names-to_sync_each r.pk (reload c w)
            ∙ rw (
              no merge_pootle_wins b,
              no merge_fs_wins d,
              no fs_staged e,
              no fs_ahead f,
              no pootle_staged g,
              no pootle_ahead h,
            ),
      )

module _ (c : Config) (t : Transfer) (w : World) where
  parts : Parts (reload c w) (start c w) (sync_parts t everything (reload c w) (start c w))
  parts = sync_parts-Parts t (reload c w) (start c w)

  notes :
      let s = sync_parts t everything (reload c w) (start c w) in
      Notes (synced_items s.response) s (sync_project c t everything w)
  unfolding sync_project sync
  notes =
      let s = sync_parts t everything (reload c w) (start c w) in
      note_rows-Notes (synced_items s.response) s

  left_pks :
      (k : ℕ)
      → contains k (row_pks (sync_project c t everything w).world.store_fs)
        ≡ (contains k (row_pks w.store_fs) && not (names k (reload c w remove)))
  left_pks k = ap (contains k) notes.same_pks ∙ parts.left_pks k

  -- `sync` removes the rows that are staged for removal.
  pub sync_project-removes :
      (r : StoreFs)
      → In r w.store_fs
      → has_state c w remove r ≡ true
      → contains r.pk (row_pks (sync_project c t everything w).world.store_fs) ≡ false
  unfolding reload
  sync_project-removes r row h =
      left_pks r.pk ∙ ground (arith, contains-pks remove (has_state c w remove) r w.store_fs row h)

  synced-IsNoted :
      (r : StoreFs) (k : StateName)
      → In r w.store_fs
      → contains k synced_states ≡ true
      → has_state c w k r ≡ true
      → All (λ x. (x.pk == r.pk) ≡ true → IsNoted x) (sync_project c t everything w).world.store_fs
  synced-IsNoted r k row m h = elim (Bool-cases (contains r.pk (row_pks s.world.store_fs))) [
    | inl kept ↦
        notes.notes r.pk
          (parts.named r.pk ∙ ground (arith, named_to_sync c w r k row m h, no_responses r.pk))
    | inr gone ↦
        no_row r.pk (sync_project c t everything w).world.store_fs
          (ap (contains r.pk) notes.same_pks ∙ gone)
  ]
    where
      s : Run
      s = sync_parts t everything (reload c w) (start c w)

  abbrev merged_run : Run
  merged_run = sync_merge t everything (reload c w) (sync_rm (reload c w) (start c w))

  -- a row that is merged or pulled has a store before the pushes
  stored_before :
      (r : StoreFs) (k : StateName)
      → In r w.store_fs
      → contains k synced_states ≡ true
      → has_state c w k r ≡ true
      → contains k pulled_states ≡ true
      → is_storeless (sync_pull t (reload c w) merged_run).world r.pk ≡ false
  stored_before r k row synced h m = elim (Bool-cases (contains k merged_states)) [
    | inl merged ↦ sync_pull_keeps_stored t (reload c w) merged_run r.pk (
        sync_merge-stored t (reload c w) (sync_rm (reload c w) (start c w)) r.pk
          (named_pair c w r k merge_pootle_wins merge_fs_wins row synced merged h))
    | inr other ↦
        sync_pull-stored t (reload c w) merged_run r.pk
          (named_pair c w r k fs_staged fs_ahead row synced (other_pair k m other) h)
  ]
    where
      other_pair :
          (k : StateName)
          → contains k pulled_states ≡ true
          → contains k merged_states ≡ false
          → contains k (fs_staged ∷ fs_ahead ∷ []) ≡ true
      other_pair k m n = rest _ _ _ _ m n
        where
          rest :
              (a b d e : Bool)
              → (a || (b || (d || (e || false)))) ≡ true
              → (a || (b || false)) ≡ false
              → (d || (e || false)) ≡ true
          rest a b d e m n = ground arith

  synced_stored :
      (r : StoreFs) (k : StateName)
      → In r w.store_fs
      → contains k synced_states ≡ true
      → has_state c w k r ≡ true
      → (contains k pulled_states && is_storeless (sync_project c t everything w).world r.pk)
        ≡ false
  unfolding sync_project sync sync_parts
  synced_stored r k row synced h = elim (Bool-cases (contains k pulled_states)) [
    | inl pulled ↦
        let state = reload c w in
        let before = sync_pull t state merged_run in
        let after = sync_push t state before in
        ground (
          arith,
          note_rows-storeless (synced_items after.response) after r.pk
              ∙ (sync_push_keeps_stored t state before r.pk
                  ∙ stored_before r k row synced h pulled),
        )
    | inr other ↦ ground arith
  ]

  synced_written :
      (r : StoreFs) (k : StateName)
      → In r w.store_fs
      → contains k synced_states ≡ true
      → has_state c w k r ≡ true
      → (contains k pushed_states && is_unwritten (sync_project c t everything w).world r.pk)
        ≡ false
  unfolding sync_project sync sync_parts reload
  synced_written r k row synced h = elim (Bool-cases (contains k pushed_states)) [
    | inl pushed ↦
        let state = reload c w in
        let before =
          sync_pull t state (sync_merge t everything state (sync_rm state (start c w))) in
        let after = sync_push t state before in
        ground (
          arith,
          note_rows-unwritten (synced_items after.response) after r.pk
              ∙ sync_push-written t state before r.pk
                  (named_pair c w r k pootle_staged pootle_ahead row synced pushed h),
        )
    | inr other ↦ ground arith
  ]

  -- After a sync of both sides no row with the key of a row that was in one of the states
  -- merge_pootle_wins, merge_fs_wins, fs_staged, fs_ahead, pootle_staged and pootle_ahead has a
  -- resolution, or is staged for a merge. If the state was one of the first four, the row that
  -- is then found by the key, if there is one, has a store, and if it was one of the last two,
  -- the row has its file on disk or no store.
  pub sync_project-IsNoted :
      (r : StoreFs) (k : StateName)
      → In r w.store_fs
      → contains k synced_states ≡ true
      → has_state c w k r ≡ true
      → All (λ x. (x.pk == r.pk) ≡ true → IsNoted x) (sync_project c t everything w).world.store_fs
        × ((contains k pulled_states && is_storeless (sync_project c t everything w).world r.pk)
            ≡ false)
        × ((contains k pushed_states && is_unwritten (sync_project c t everything w).world r.pk)
            ≡ false)
  sync_project-IsNoted r k row m h =
      (synced-IsNoted r k row m h, synced_stored r k row m h, synced_written r k row m h)

  -- A row whose key no other row has, that is in none of these states and is not staged for removal,
  -- stays in the table as it is.
  pub sync_project-keeps :
      (r : StoreFs)
      → ((x : StoreFs) → In x w.store_fs → x.pk ≡ r.pk → x ≡ r)
      → All (λ k. has_state c w k r ≡ false) (remove ∷ synced_states)
      → In r w.store_fs
      → In r (sync_project c t everything w).world.store_fs
  sync_project-keeps r unique idle row =
      let free = idle_names c w r unique idle in
      notes.others r (parts.named r.pk ∙ ground (arith, free.1, no_responses r.pk))
        (parts.others r free.0 free.1 row)
