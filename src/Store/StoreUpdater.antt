-- ===== src/Store/StoreUpdater.antt =====
-- pootle_store/updater.py, `StoreUpdater`: the changes of a difference are made to a store.
pub mod Keeps
pub mod Run
pub mod Bounds
use pootle.Base.{
  ℕ, zero, suc, ◌+◌, String, Bool, true, false, not, ◌&&◌, ◌||◌, Option, none, some, List, [], ◌∷◌,
  ◌++◌, map, ltb, leb, ◌==◌, nat_eq, string_eq, if◌then◌else◌, length, filter, contains, is_some,
}
use pootle.Store.Unit.{
  DbUnit, FileUnit, obsolete, untranslated, fuzzy, translated, unit_state_eq, or_empty, hasplural,
  isobsolete, makeobsolete, update,
}
use pootle.Store.Updater.{Suggestion, StoreUpdate, Updated, update_unit}
use pootle.Store.Diff.{SourceUnit, of_db, of_file, Changes, newer}

-- A store's units, the pending suggestions, the next key of a unit, and the global revision.
pub record StoreState : Type 0 where
  pub units : List DbUnit
  pub pending : List Suggestion
  pub next_id : ℕ
  pub revision : ℕ

-- What the update asks of others: the unit of the source, the unit at the last synchronisation, and
-- who last changed the unit with a key.
pub record Sources : Type 0 where
  pub find_source_unit : String → Option FileUnit
  pub last_sync_unit : String → Option FileUnit
  pub submitter : ℕ → ℕ

-- `Store.max_index() + 1`.
unfoldable pub next_index : List DbUnit → ℕ
next_index [] = 0
next_index (u ∷ units) =
    let rest = next_index units in if ltb u.index rest then rest else suc u.index

-- `Store.update_index`.
unfoldable pub update_index : ℕ × ℕ → List DbUnit → List DbUnit
update_index (start, delta) units =
    map (λ u. if leb start u.index then record u { index = u.index + delta } else u) units

-- A unit of another store, as `DBUnit` presents it; its locations have no empty lines, which
-- `getlocations` drops.
abbrev pub as_file : SourceUnit → FileUnit
as_file (of_file f) = f
as_file (of_db u) = record {
  unitid = u.unitid;
  source = u.source;
  hasplural = ltb 1 (length u.source) || u.plural;
  target = u.target;
  isfuzzy = u.state == fuzzy;
  istranslated = u.state == translated;
  isobsolete = u.state == obsolete;
  developer_notes = or_empty u.developer_comment;
  translator_notes = or_empty u.translator_comment;
  locations = or_empty u.locations;
  context = or_empty u.context;
}

-- A unit before its first update.
abbrev blank_unit : ℕ → ℕ → ℕ → DbUnit
blank_unit id index revision = record {
  id = id;
  unitid = "";
  index = index;
  revision = revision;
  source = "" ∷ [];
  plural = false;
  target = "" ∷ [];
  state = untranslated;
  developer_comment = none;
  translator_comment = none;
  locations = none;
  context = none;
}

-- `Store.addunit`, with an index.
unfoldable pub addunit : ℕ → StoreState → SourceUnit × ℕ → StoreState
addunit update_revision st (unit, index) =
    let blank = blank_unit st.next_id index update_revision in
    record st {
      units = st.units ++ ((update (next_index st.units) (as_file unit) blank).0 ∷ []);
      next_id = suc st.next_id;
    }

abbrev pub fold {ℓ κ} : {A : Type ℓ} {S : Type κ} → (S → A → S) → S → List A → S
fold f s [] = s
fold f s (x ∷ xs) = fold f (f s x) xs

-- What the loop of `update_units` has made and counted.
pub record Progress : Type 0 where
  pub done : List DbUnit
  pub pending : List Suggestion
  pub updated : ℕ
  pub suggested : ℕ

module _ (up : StoreUpdate) (src : Sources) where
  -- Whether `mark_units_obsolete` passes over a unit: it was added since the last synchronisation,
  -- or it has changed since and Pootle wins, or it is obsolete already.
  unfoldable pub is_kept : DbUnit → Bool
  is_kept u =
      not (is_some (src.last_sync_unit u.unitid))
      || ((newer u.revision up.store_revision && up.pootle_wins) || isobsolete u)

  unfoldable pub mark_unit : List ℕ → DbUnit → DbUnit
  unfolding is_kept makeobsolete
  mark_unit ids u =
      if not (contains u.id ids) || is_kept u
      then u
      else record (makeobsolete u) { revision = up.update_revision }

  -- `mark_units_obsolete`, with the number of units that it marked.
  unfoldable pub mark_units_obsolete : List ℕ → List DbUnit → List DbUnit × ℕ
  unfolding mark_unit
  mark_units_obsolete ids units =
      (map (mark_unit ids) units, length (filter (λ u. contains u.id ids && not (is_kept u)) units))

  abbrev count : Bool → ℕ → ℕ
  count true n = suc n
  count false n = n

  abbrev pub update_one : DbUnit → List DbUnit → Progress → Updated
  update_one u rest p =
      update_unit up (src.last_sync_unit u.unitid) (src.find_source_unit u.unitid)
        (src.submitter u.id) (next_index (p.done ++ u ∷ rest)) u p.pending

  abbrev pub step : Bool → DbUnit → List DbUnit → Progress → Progress
  step false u rest p = record p { done = p.done ++ (u ∷ []) }
  step true u rest p =
      let r = update_one u rest p in
      record {
        done = p.done ++ (r.unit ∷ []);
        pending = r.pending;
        updated = count r.changed p.updated;
        suggested = count r.suggested p.suggested;
      }

  -- The units with a key of the list are updated, one after another.
  unfoldable pub update_units : List ℕ → List DbUnit → Progress → Progress
  update_units uids [] p = p
  update_units uids (u ∷ rest) p = update_units uids rest (step (contains u.id uids) u rest p)

-- `increment_unsynced_unit_revision`.
abbrev pub is_unsynced : Option ℕ → ℕ → DbUnit → Bool
is_unsynced store_revision update_revision u =
    ltb (elim store_revision [ none ↦ 0 | some r ↦ r ]) u.revision
    && ltb u.revision update_revision
    && not (u.state == obsolete)

unfoldable pub increment_unsynced : Option ℕ → ℕ → StoreState → StoreState
increment_unsynced store_revision update_revision st = record st {
  units =
      map
        (λ u.
          if is_unsynced store_revision update_revision u
          then record u { revision = suc st.revision }
          else u)
        st.units;
  revision = suc st.revision;
}

-- The counts that `update_from_diff` returns.
pub record Counts : Type 0 where
  pub added : ℕ
  pub obsoleted : ℕ
  pub updated : ℕ
  pub suggested : ℕ

-- `to_change["obsolete"]`: where Pootle wins, a unit that is updated is not obsoleted.
abbrev pub to_obsolete : Bool → Changes → List ℕ
to_obsolete pootle_wins c =
    if pootle_wins
    then filter (λ x. not (contains x c.update_ids)) c.obsolete_ids
    else c.obsolete_ids

-- Moving, adding and obsoleting, where they are allowed.
unfoldable pub add_and_obsolete : StoreUpdate → Sources → Changes → StoreState → StoreState × ℕ
add_and_obsolete up src c st =
    let moved = record st { units = fold (λ units m. update_index m units) st.units c.index } in
    let added = fold (addunit up.update_revision) moved c.add in
    let (units, obsoleted) =
      mark_units_obsolete up src (to_obsolete up.pootle_wins c) added.units in
    (record added { units = units }, obsoleted)

-- The `StoreUpdate` of a difference: the new index of each unit comes from the difference.
abbrev pub with_indices : StoreUpdate → Changes → StoreUpdate
with_indices up c = record up { indices = map (λ (uid, moved). (uid, moved.1)) c.uid_index_map }

unfoldable pub update_from_diff : StoreUpdate → Sources → Changes → StoreState → StoreState × Counts
update_from_diff given src c st =
    let up = with_indices given c in
    let (st', obsoleted) = if up.change_indices then add_and_obsolete up src c st else (st, zero) in
    let p =
      update_units up src c.update_ids st'.units
        (record { done = []; pending = st'.pending; updated = 0; suggested = 0 }) in
    (
      increment_unsynced up.store_revision up.update_revision
          (record st' { units = p.done; pending = p.pending }),
      record {
        added = if up.change_indices then length c.add else 0;
        obsoleted = obsoleted;
        updated = p.updated;
        suggested = p.suggested;
      },
    )
