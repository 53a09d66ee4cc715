-- ===== src/Store/StoreUpdater/Run.antt =====
-- `StoreUpdater._update` of pootle_store/updater.py: a store is compared with a source, and updated
-- where they differ.
use pootle.Base.{ℕ, suc, String, Option, none, some, List}
use pootle.Store.Unit.{DbUnit}
use pootle.Store.Updater.{StoreUpdate}
use pootle.Store.Diff.{StoreDiff, SourceUnit, Opcode, Changes, get_db_units, diff}
use pootle.Store.StoreUpdater.{StoreState, Sources, Counts, update_from_diff}

-- `Store.state`.
pub data ParseState : Type 0 where
  new parsed checked : ParseState

-- The `finally` of `_update`.
abbrev pub at_least_parsed : ParseState → ParseState
at_least_parsed new = parsed
at_least_parsed parsed = parsed
at_least_parsed checked = checked

-- What a store is compared with: the units of the source, the highest revision in the store's
-- data, and the opcodes of `difflib`.
pub record Comparison : Type 0 where
  pub source_units : List (String × SourceUnit)
  pub target_revision : ℕ
  pub opcodes : List String → List String → List Opcode

abbrev pub store_diff : Comparison → Option ℕ → List DbUnit → StoreDiff
store_diff source store_revision units = record {
  target_units = get_db_units units;
  source_units = source.source_units;
  source_revision = store_revision;
  target_revision = source.target_revision;
  opcodes = source.opcodes;
}

-- The changes are made under the next global revision.
unfoldable pub make_changes : StoreUpdate → Sources → Changes → StoreState → StoreState × Counts
make_changes up src c st =
    let revision = suc st.revision in
    update_from_diff (record up { update_revision = revision }) src c
      (record st { revision = revision })

-- What becomes of what `diff` returned: an error, nothing, or changes, with their revision.
unfoldable pub apply_changes :
    StoreUpdate
    → Sources
    → StoreState
    → Option (Option Changes)
    → Option (StoreState × Option (ℕ × Counts))
unfolding make_changes
apply_changes up src st none = none
apply_changes up src st (some none) = some (st, none)
apply_changes up src st (some (some c)) =
    let (st', counts) = make_changes up src c st in some (st', some (suc st.revision, counts))

-- The store's own state, also after an error, and what became of its units.
unfoldable pub update_store :
    StoreUpdate
    → Sources
    → Comparison
    → ParseState
    → StoreState
    → ParseState × Option (StoreState × Option (ℕ × Counts))
unfolding apply_changes
update_store up src source state st = (
  at_least_parsed state,
  apply_changes up src st (diff (store_diff source up.store_revision st.units)),
)
