-- ===== src/Fs/Files/Synced.antt =====
-- Which of the rows that are synchronised are transferred, and the state that they have afterwards.
use pootle.Base.{
  ℕ, ◌≡◌, ◌∙◌, refl, ap, sym, String, Bool, true, false, not, ◌&&◌, ◌||◌, Option, none, some, [],
  arith, In, ◌==◌, nat_eq, string_eq, option_eq, is_some, contains, beq_comm, beq_refl,
  Option-cases, inl, inr, ◌⊎◌,
}
use pootle.Fs.Model.{
  Store, StoreFs, World, Config, unset, resolve_eq, store_of, store_is_null, store_obsolete,
  latest_hash, find_store,
}
use pootle.Fs.Resources.{is_synced, is_unsynced, hash_differs, max_revision_differs, pootle_changed}
use pootle.Fs.State.{
  StateName, state_eq, has_state, in_fs_staged, in_fs_ahead, in_pootle_staged, in_pootle_ahead,
}
use pootle.Fs.State.Facts.{facts, IsMatched, is_missing-facts}
use pootle.Fs.State.Table.{table, hash_differs-facts, has_state-table}
use pootle.Fs.Files.{dont_pull, dont_push, file_pootle_changed, on_sync}

in_fs_ahead-differs :
    (c : Config) (w : World) (r : StoreFs) → in_fs_ahead c w r ≡ true → hash_differs c w r ≡ true
unfolding in_fs_ahead
in_fs_ahead-differs c w r h = ground arith

dont_pull-of_ahead :
    (c : Config) (w : World) (r : StoreFs)
    → In r w.store_fs
    → IsMatched c w r
    → in_fs_ahead c w r ≡ true
    → (latest_hash w r.path == r.last_sync_hash) ≡ false
dont_pull-of_ahead c w r row m h =
    ground (arith, hash_differs-facts r row m, in_fs_ahead-differs c w r h)

-- a row that is staged from its file has never been synced, or its store has gone
in_fs_staged-cases :
    (c : Config) (w : World) (r : StoreFs)
    → In r w.store_fs
    → IsMatched c w r
    → in_fs_staged c w r ≡ true
    → ((latest_hash w r.path == r.last_sync_hash) ≡ false)
      ⊎ ((store_is_null r || store_obsolete w r) ≡ true)
unfolding in_fs_staged is_unsynced
in_fs_staged-cases c w r row m h = ground (arith, is_missing-facts r row m)

store_of-null : (w : World) (r : StoreFs) → r.store_id ≡ none → store_of w r ≡ none
unfolding store_of find_store
store_of-null w r h = rw h

store_obsolete-null : (w : World) (r : StoreFs) → r.store_id ≡ none → store_obsolete w r ≡ false
unfolding store_obsolete
store_obsolete-null w r h = ground (arith, store_of-null w r h)

store_of-obsolete :
    (w : World) (r : StoreFs) → store_obsolete w r ≡ true → is_some (store_of w r) ≡ true
unfolding store_obsolete
store_of-obsolete w r h = elim (Option-cases (store_of w r)) [
  | inl absent ↦ ground arith
  | inr (s, present) ↦ ground arith
]

store_is_null-present : (r : StoreFs) (i : ℕ) → r.store_id ≡ some i → store_is_null r ≡ false
unfolding store_is_null
store_is_null-present r i h = rw h

store_exists-gone :
    (w : World) (r : StoreFs)
    → (store_is_null r || store_obsolete w r) ≡ true
    → is_some (store_of w r) ≡ store_obsolete w r
store_exists-gone w r h = elim (Option-cases r.store_id) [
  | inl absent ↦ rw (store_of-null w r absent, store_obsolete-null w r absent)
  | inr (i, present) ↦
      let obsolete : store_obsolete w r ≡ true = rw (store_is_null-present r i present) at h in
      store_of-obsolete w r obsolete ∙ sym obsolete
]

dont_pull-of_gone :
    (w : World) (r : StoreFs)
    → (store_is_null r || store_obsolete w r) ≡ true
    → dont_pull w r ≡ (store_obsolete w r && latest_hash w r.path == r.last_sync_hash)
unfolding dont_pull
dont_pull-of_gone w r h =
    ap (λ b. b && latest_hash w r.path == r.last_sync_hash) (store_exists-gone w r h)

and_false : (a b t : Bool) → t ≡ false → (a && t) ≡ (b && t)
and_false a b t h = ground arith

dont_pull-of_changed :
    (w : World) (r : StoreFs)
    → (latest_hash w r.path == r.last_sync_hash) ≡ false
    → dont_pull w r ≡ (store_obsolete w r && latest_hash w r.path == r.last_sync_hash)
unfolding dont_pull
dont_pull-of_changed w r h = and_false _ _ _ h

-- Of the rows that `sync_pull` handles, and whose file the matcher finds exactly if it is on disk,
-- `pull` passes over those whose store is obsolete and whose file is as it was at the last
-- synchronisation, and over no others: a store that is to come back from an unchanged file does not.
pub dont_pull-of_state :
    (c : Config) (w : World) (r : StoreFs)
    → In r w.store_fs
    → IsMatched c w r
    → (in_fs_staged c w r ≡ true) ⊎ (in_fs_ahead c w r ≡ true)
    → dont_pull w r ≡ (store_obsolete w r && latest_hash w r.path == r.last_sync_hash)
dont_pull-of_state c w r row m (inl h) = elim (in_fs_staged-cases c w r row m h) [
  | inl changed ↦ dont_pull-of_changed w r changed
  | inr gone ↦ dont_pull-of_gone w r gone
]
dont_pull-of_state c w r row m (inr h) = dont_pull-of_changed w r (dont_pull-of_ahead c w r row m h)

-- No row that `sync_push` handles is passed over by `push`, if the matcher finds its file exactly if
-- it is on disk, and its store has units and the highest of their revisions in its data.
pub dont_push-of_state :
    (c : Config) (w : World) (r : StoreFs) (s : Store) (revision : ℕ)
    → In r w.store_fs
    → IsMatched c w r
    → store_of w r ≡ some s
    → s.max_revision ≡ some revision
    → s.data_revision ≡ some revision
    → (in_pootle_staged c w r || in_pootle_ahead c w r) ≡ true
    → dont_push w r ≡ false
unfolding dont_push file_pootle_changed in_pootle_staged in_pootle_ahead is_synced is_unsynced
    pootle_changed max_revision_differs
dont_push-of_state c w r s revision row m e units kept h =
    ground (arith, is_missing-facts r row m, beq_comm r.last_sync_revision (some revision))

store_of-on_sync :
    (w : World) (hash : Option String) (revision : Option ℕ) (r : StoreFs)
    → store_of w (on_sync hash revision r) ≡ store_of w r
unfolding store_of on_sync
store_of-on_sync w hash revision r = refl

is_live :
    (w : World) (r : StoreFs) (s : Store)
    → store_of w r ≡ some s
    → s.obsolete ≡ false
    → (not (store_is_null r) && not (store_obsolete w r)) ≡ true
unfolding store_is_null store_obsolete
is_live w r s e live = elim (Option-cases r.store_id) [
  | inl absent ↦ ground (arith, store_of-null w r absent)
  | inr (i, present) ↦ ground arith
]

same_revision :
    (c : Config) (w : World) (r : StoreFs) (s : Store) (revision : ℕ)
    → store_of w r ≡ some s
    → s.max_revision ≡ some revision
    → r.last_sync_revision ≡ some revision
    → max_revision_differs c w r ≡ false
unfolding max_revision_differs
same_revision c w r s revision e units last = ground (arith, beq_refl (some revision))

facts-on_sync :
    (c : Config) (w : World) (r : StoreFs) (s : Store) (hash : String) (revision : ℕ)
    → store_of w r ≡ some s
    → s.obsolete ≡ false
    → s.max_revision ≡ some revision
    → latest_hash w r.path ≡ some hash
    → r.staged_for_removal ≡ false
    → facts c w (on_sync (some hash) (some revision) r) ≡ record {
      removal = false;
      merge = false;
      has_revision = true;
      has_hash = true;
      live = true;
      on_disk = true;
      newer_units = false;
      newer_file = false;
      resolve = unset;
    }
unfolding facts on_sync
facts-on_sync c w r s hash revision e live units file kept =
    let synced = on_sync (some hash) (some revision) r in
    let found : store_of w synced ≡ some s = store_of-on_sync w (some hash) (some revision) r ∙ e in
    rw (
      is_live w synced s found live,
      same_revision c w synced s revision found units refl,
      file,
      kept,
      beq_refl (some hash),
    )

-- A row that is not staged for removal, and whose file the matcher finds, has no state after
-- `on_sync` with the highest revision in its store, which is not obsolete, and the hash of its file.
pub has_state-on_sync :
    (c : Config) (w : World) (r : StoreFs) (s : Store) (hash : String) (revision : ℕ)
    → In (on_sync (some hash) (some revision) r) w.store_fs
    → IsMatched c w (on_sync (some hash) (some revision) r)
    → store_of w r ≡ some s
    → s.obsolete ≡ false
    → s.max_revision ≡ some revision
    → latest_hash w r.path ≡ some hash
    → r.staged_for_removal ≡ false
    → (k : StateName) → has_state c w k (on_sync (some hash) (some revision) r) ≡ false
has_state-on_sync c w r s hash revision row m e live units file kept k =
    has_state-table c w (on_sync (some hash) (some revision) r) row m k ∙ ap (contains k) nothing
  where
    nothing : table (facts c w (on_sync (some hash) (some revision) r)) ≡ []
    nothing =
        ap table (facts-on_sync c w r s hash revision e live units file kept)
        ∙ (unfold table in refl)
