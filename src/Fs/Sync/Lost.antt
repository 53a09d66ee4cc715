-- ===== src/Fs/Sync/Lost.antt =====
-- A merge that finds no difference.
use pootle.Base.{
  ◌≡◌, ◌∙◌, refl, ap, true, false, Option, none, some, In, ◌==◌, nat_eq, option_eq, is_some,
  contains, lookup-insert, beq_refl, ℕ, [],
}
use pootle.Fs.Model.{StoreFs, World, Config}
use pootle.Fs.State.{StateName, Item, has_state, merge_pootle_wins, state_eq}
use pootle.Fs.State.Facts.{facts, IsMatched}
use pootle.Fs.State.Table.{table, has_state-table}
use pootle.Fs.Transfer.{Transfer, pull}
use pootle.Fs.Plugin.{only_pootle}
use pootle.Fs.Sync.{Run, current, merge_row, noted}

no_state :
    (c : Config) (w : World) (r : StoreFs)
    → r.last_sync_revision ≡ none
    → is_some r.last_sync_hash ≡ true
    → r.staged_for_removal ≡ false
    → r.staged_for_merge ≡ false
    → table (facts c w r) ≡ []
unfolding table facts
no_state c w r revision hash stays merged = rw (stays, merged, revision, hash)

module _ (t : Transfer) (s : Run) (r : StoreFs) (i : Item) where
  abbrev pub merged : Run
  merged = merge_row t only_pootle s (r, i)

  abbrev pub lost : StoreFs
  lost = noted merged (current merged.world r)

  no_revision :
      (pull t r true (some (i.state_type == merge_pootle_wins)) s.world).1 ≡ none
      → lost.last_sync_revision ≡ none
  unfolding merge_row noted
  no_revision h =
      let now = current (pull t r true (some (i.state_type == merge_pootle_wins)) s.world).0 r in
      ap flat (lookup-insert now.store_id now.store_id _ s.revisions) ∙ rw (beq_refl now.store_id) h
    where
      flat : Option (Option ℕ) → Option ℕ
      flat none = none
      flat (some n) = n

  -- A row that sync merges, of Pootle only, when the update of its store makes no changes, is
  -- noted with no revision. If it then has the hash of a file and is not staged for removal, it
  -- is in no state of any world in which it still stands in the table, passes the filters, and
  -- has a file that the matcher finds, under its Pootle path, exactly if it is on disk.
  pub has_state-lost :
      (c : Config) (w : World) (k : StateName)
      → (pull t r true (some (i.state_type == merge_pootle_wins)) s.world).1 ≡ none
      → is_some lost.last_sync_hash ≡ true
      → lost.staged_for_removal ≡ false
      → In lost w.store_fs
      → IsMatched c w lost
      → has_state c w k lost ≡ false
  has_state-lost c w k h hash stays row m =
      has_state-table c w lost row m k ∙ ap (contains k) nothing
    where
      nothing : table (facts c w lost) ≡ []
      nothing = no_state c w lost (no_revision h) hash stays (unfold noted in refl)
