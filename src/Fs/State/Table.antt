-- ===== src/Fs/State/Table.antt =====
-- The states of a tracked row as a decision table, and the theorem that the code's querysets
-- compute it.
use pootle.Base.{
  length, ◌⊎◌, inl, inr, none, ◌≤◌, ◌∙◌, ◌≡◌, Bool, true, false, not, ◌&&◌, List, [], ◌∷◌, arith,
  In, ◌==◌, nat_eq, string_eq, option_eq, is_some, if◌then◌else◌, contains, keys,
  contains-key_of_row, contains-key_absent, contains-of-lookup, contains-of-no_lookup, beq_comm,
  sym,
}
use pootle.Fs.Model.{
  StoreFs, World, Config, Resolve, pootle_wins, source_wins, resolve_eq, store_is_null,
  store_obsolete, latest_hash,
}
use pootle.Fs.Resources.{
  is_synced, is_unsynced, hash_differs, max_revision_differs, pootle_revisions, file_hashes,
  pootle_changed,
}
use pootle.Fs.State.{
  StateName, conflict, conflict_untracked, pootle_ahead, pootle_untracked, pootle_staged,
  pootle_removed, fs_ahead, fs_untracked, fs_staged, fs_removed, merge_pootle_wins, merge_fs_wins,
  remove, both_removed, state_eq, state_beq_iff, has_state, in_conflict, in_remove, in_fs_staged,
  in_fs_ahead, in_fs_removed, in_merge_pootle_wins, in_merge_fs_wins, in_pootle_ahead,
  in_pootle_staged, in_both_removed, in_pootle_removed,
}
use pootle.Fs.State.Facts.{Facts, facts, IsMatched, is_missing-facts}

-- Staged for a merge, by the winner.
merge_table : Resolve → List StateName
merge_table pootle_wins = merge_pootle_wins ∷ []
merge_table source_wins = merge_fs_wins ∷ []
merge_table _ = []

-- Never synced: by the store, the file and the winner.
unsynced_table : Bool → Bool → Resolve → List StateName
unsynced_table true true pootle_wins = pootle_staged ∷ []
unsynced_table false true pootle_wins = []
unsynced_table live true _ = fs_staged ∷ []
unsynced_table true false source_wins = []
unsynced_table true false _ = pootle_staged ∷ []
unsynced_table false false _ = []

-- Both the store and the file have changed, or the file has gone from a changed store.
both_changed : Bool → Resolve → List StateName
both_changed true pootle_wins = pootle_ahead ∷ []
both_changed false pootle_wins = pootle_ahead ∷ pootle_staged ∷ []
both_changed true source_wins = fs_ahead ∷ []
both_changed false source_wins = []
both_changed on_disk _ = conflict ∷ []

-- Synced, with a live store: by the file, what has changed, and the winner.
live_table : (on_disk newer_units newer_file : Bool) → Resolve → List StateName
live_table true false false x = []
live_table true false true x = fs_ahead ∷ []
live_table true true false x = pootle_ahead ∷ []
live_table false false newer_file pootle_wins = pootle_staged ∷ []
live_table false false newer_file _ = fs_removed ∷ []
live_table on_disk true newer_file x = both_changed on_disk x

-- Synced, and the store has gone.
gone_table : Bool → Resolve → List StateName
gone_table true source_wins = fs_staged ∷ []
gone_table true _ = pootle_removed ∷ []
gone_table false _ = both_removed ∷ []

unstaged_table : Facts → List StateName
unfolding unsynced_table both_changed live_table gone_table
unstaged_table f =
    if f.has_revision && f.has_hash
    then (if f.live
        then live_table f.on_disk f.newer_units f.newer_file f.resolve
        else gone_table f.on_disk f.resolve)
    else if not f.has_revision && not f.has_hash
    then unsynced_table f.live f.on_disk f.resolve
    else []

unfoldable pub table : Facts → List StateName
unfolding merge_table unstaged_table
table f =
    if f.removal
    then remove ∷ (if f.merge then merge_table f.resolve else [])
    else if f.merge
    then merge_table f.resolve
    else unstaged_table f

module _ {c : Config} {w : World} (r : StoreFs) (row : In r w.store_fs) (m : IsMatched c w r) where
  -- the hash of the matched file, as the code looks it up by Pootle path
  pub hash_differs-facts : hash_differs c w r ≡ not (latest_hash w r.path == r.last_sync_hash)
  unfolding hash_differs
  hash_differs-facts = ground (arith, m.hashed, beq_comm r.last_sync_hash (latest_hash w r.path))

  -- a file that is on disk is listed under the row's Pootle path
  is_hashed :
      is_some (latest_hash w r.path) ≡ true → contains r.pootle_path (keys (file_hashes c w)) ≡ true
  is_hashed h =
      contains-of-lookup r.pootle_path (file_hashes c w) {v = latest_hash w r.path}
        (ground (arith, m.hashed))

  not_hashed :
      is_some (latest_hash w r.path) ≡ false
      → contains r.pootle_path (keys (file_hashes c w)) ≡ false
  not_hashed h = contains-of-no_lookup r.pootle_path (file_hashes c w) (ground (arith, m.hashed))

  hashed-facts : contains r.pootle_path (keys (file_hashes c w)) ≡ is_some (latest_hash w r.path)
  hashed-facts = ground (arith, is_hashed, not_hashed)

  -- a live store of a synced row has its revision listed
  has_revision :
      is_synced c r ≡ true
      → store_is_null r ≡ false
      → store_obsolete w r ≡ false
      → contains r.store_id (keys (pootle_revisions c w)) ≡ true
  unfolding pootle_revisions
  has_revision s n o = contains-key_of_row _ (λ x. x.store_id) _ r w.store_fs row (ground arith)

  no_revision : store_is_null r ≡ true → contains r.store_id (keys (pootle_revisions c w)) ≡ false
  unfolding pootle_revisions
  no_revision n =
      contains-key_absent _ (λ x. x.store_id) _ r.store_id w.store_fs (λ x h. ground arith)

  has_conflict : in_conflict c w r ≡ contains conflict (table (facts c w r))
  unfolding in_conflict pootle_changed is_synced table facts
  has_conflict = ground (arith, m.filtered)

  has_remove : in_remove c w r ≡ contains remove (table (facts c w r))
  unfolding in_remove table facts
  has_remove = ground (arith, m.filtered)

  has_fs_staged : in_fs_staged c w r ≡ contains fs_staged (table (facts c w r))
  unfolding in_fs_staged is_synced is_unsynced table facts
  has_fs_staged = ground (arith, m.filtered, is_missing-facts r row m)

  has_fs_ahead : in_fs_ahead c w r ≡ contains fs_ahead (table (facts c w r))
  unfolding in_fs_ahead pootle_changed is_synced table facts
  has_fs_ahead =
      ground (arith, m.filtered, hash_differs-facts, hashed-facts, has_revision, no_revision)

  has_fs_removed : in_fs_removed c w r ≡ contains fs_removed (table (facts c w r))
  unfolding in_fs_removed pootle_changed is_synced table facts
  has_fs_removed = ground (arith, m.filtered, is_missing-facts r row m)

  has_merge_pootle_wins :
      in_merge_pootle_wins c w r ≡ contains merge_pootle_wins (table (facts c w r))
  unfolding in_merge_pootle_wins table facts
  has_merge_pootle_wins = ground (arith, m.filtered)

  has_merge_fs_wins : in_merge_fs_wins c w r ≡ contains merge_fs_wins (table (facts c w r))
  unfolding in_merge_fs_wins table facts
  has_merge_fs_wins = ground (arith, m.filtered)

  has_pootle_ahead : in_pootle_ahead c w r ≡ contains pootle_ahead (table (facts c w r))
  unfolding in_pootle_ahead pootle_changed is_synced table facts
  has_pootle_ahead = ground (arith, m.filtered)

  has_pootle_staged : in_pootle_staged c w r ≡ contains pootle_staged (table (facts c w r))
  unfolding in_pootle_staged is_synced is_unsynced table facts
  has_pootle_staged = ground (arith, m.filtered, is_missing-facts r row m)

  has_both_removed : in_both_removed c w r ≡ contains both_removed (table (facts c w r))
  unfolding in_both_removed is_synced table facts
  has_both_removed = ground (arith, m.filtered, is_missing-facts r row m)

  has_pootle_removed : in_pootle_removed c w r ≡ contains pootle_removed (table (facts c w r))
  unfolding in_pootle_removed is_synced table facts
  has_pootle_removed = ground (arith, m.filtered, is_missing-facts r row m)

-- no row is listed as an untracked store or file
untracked-table :
    (f : Facts)
    → (contains conflict_untracked (table f) ≡ false)
      × (contains pootle_untracked (table f) ≡ false)
      × (contains fs_untracked (table f) ≡ false)
unfolding table
untracked-table f = ground arith

-- A row of the table that passes the filters, and whose file the matcher finds, under its Pootle
-- path, exactly if it is on disk, is by the querysets of ProjectFSState in exactly the states
-- that a decision table lists for its flags, its store, its file and what has changed.
pub has_state-table :
    (c : Config) (w : World) (r : StoreFs)
    → In r w.store_fs
    → IsMatched c w r
    → (k : StateName) → has_state c w k r ≡ contains k (table (facts c w r))
unfolding has_state
has_state-table c w r row m conflict = has_conflict r row m
has_state-table c w r row m conflict_untracked = sym (untracked-table (facts c w r)).0
has_state-table c w r row m pootle_ahead = has_pootle_ahead r row m
has_state-table c w r row m pootle_untracked = sym (untracked-table (facts c w r)).1
has_state-table c w r row m pootle_staged = has_pootle_staged r row m
has_state-table c w r row m pootle_removed = has_pootle_removed r row m
has_state-table c w r row m fs_ahead = has_fs_ahead r row m
has_state-table c w r row m fs_untracked = sym (untracked-table (facts c w r)).2
has_state-table c w r row m fs_staged = has_fs_staged r row m
has_state-table c w r row m fs_removed = has_fs_removed r row m
has_state-table c w r row m merge_pootle_wins = has_merge_pootle_wins r row m
has_state-table c w r row m merge_fs_wins = has_merge_fs_wins r row m
has_state-table c w r row m remove = has_remove r row m
has_state-table c w r row m both_removed = has_both_removed r row m

one_entry :
    (j k : StateName) (l : List StateName)
    → length l ≤ 1
    → contains j l ≡ true
    → contains k l ≡ true
    → j ≡ k
one_entry j k [] n hj hk = cc
one_entry j k (x ∷ []) n hj hk = ground (arith, state_beq_iff j x, state_beq_iff k x)
one_entry j k (x ∷ y ∷ l) n hj hk = absurd (omega arith)

table-length :
    (f : Facts)
    → (f.removal && f.merge) ≡ false
    → (length (table f) ≤ 1)
      ⊎ ((f.on_disk ≡ false) × (f.newer_units ≡ true) × (f.resolve ≡ pootle_wins))
unfolding table
table-length f h = ground arith

-- Such a row that is not staged both for removal and for a merge has at most one state, unless its
-- file is missing, its store has changed and Pootle is to win: then it may be both ahead and
-- staged.
pub has_state_unique :
    (c : Config) (w : World) (r : StoreFs)
    → In r w.store_fs
    → IsMatched c w r
    → (r.staged_for_removal && r.staged_for_merge) ≡ false
    → (j k : StateName) → has_state c w j r ≡ true
    → has_state c w k r ≡ true
    → (j ≡ k)
      ⊎ ((latest_hash w r.path ≡ none)
          × (max_revision_differs c w r ≡ true)
          × (r.resolve_conflict ≡ pootle_wins))
unfolding facts
has_state_unique c w r row m h j k hj hk = elim (table-length (facts c w r) h) [
  | inl n ↦ inl (
      one_entry j k (table (facts c w r)) n (sym (has_state-table c w r row m j) ∙ hj)
        (sym (has_state-table c w r row m k) ∙ hk))
  | inr o ↦ inr (ground arith)
]
