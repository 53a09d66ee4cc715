-- ===== src/Store/Syncer.antt =====
-- pootle_store/syncer.py: `StoreSyncer.sync`, which writes the units of a store to its file.
pub mod Kept
use pootle.Base.{
  ℕ, ◌+◌, String, Bool, true, false, not, ◌&&◌, ◌||◌, Option, none, some, List, [], ◌∷◌, ◌++◌, map,
  ◌==◌, nat_eq, string_eq, if◌then◌else◌, filter, contains, ltb, leb, length,
}

-- A unit of the store.
pub record SyncUnit : Type 0 where
  pub id : ℕ
  pub unitid : String
  pub revision : ℕ
  pub is_live : Bool

-- What the translate toolkit's units do, and `Unit.sync` and `UnitSyncer.convert`, which write to one.
-- The result of `sync_unit` says whether it has changed the unit of the file.
pub record DiskUnits (U : Type 0) : Type 0 where
  pub getid : U → String
  pub isobsolete : U → Bool
  pub istranslated : U → Bool
  pub makeobsolete : U → U
  pub convert : SyncUnit → U
  pub sync_unit : SyncUnit → U → U × Bool

-- `changes`.
pub record SyncCounts : Type 0 where
  pub obsolete : ℕ
  pub deleted : ℕ
  pub added : ℕ
  pub updated : ℕ

-- `dbid_index`; no two units of a store have the same `unitid`.
unfoldable pub dbid_index : List SyncUnit → List (String × ℕ)
dbid_index [] = []
dbid_index (u ∷ units) =
    let rest = dbid_index units in if u.is_live then (u.unitid, u.id) ∷ rest else rest

-- The keys of the entries whose ids pass a test.
unfoldable pub dbids_of : (String → Bool) → List (String × ℕ) → List ℕ
dbids_of p [] = []
dbids_of p ((unitid, id) ∷ index) =
    let rest = dbids_of p index in if p unitid then id ∷ rest else rest

abbrev pub findid_bulk : List SyncUnit → List ℕ → List SyncUnit
findid_bulk units ids = filter (λ u. contains u.id ids) units

-- `get_revision_filters`.
abbrev pub is_modified : Option ℕ → ℕ → SyncUnit → Bool
is_modified none last_revision u = leb u.revision last_revision
is_modified (some last_sync) last_revision u =
    leb u.revision last_revision && ltb last_sync u.revision

-- `last_revision > self.store.last_sync_revision`; every number exceeds None.
abbrev pub is_later : ℕ → Option ℕ → Bool
is_later last_revision none = true
is_later last_revision (some last_sync) = ltb last_sync last_revision

unfoldable pub get_modified_units : List SyncUnit → Option ℕ → ℕ → List ℕ
get_modified_units units last_sync last_revision =
    if is_later last_revision last_sync
    then map (λ (u : SyncUnit). u.id) (filter (is_modified last_sync last_revision) units)
    else []

unfoldable pub get_common_units : List SyncUnit → Option ℕ → List ℕ → ℕ → Bool → List SyncUnit
unfolding get_modified_units
get_common_units units last_sync common last_revision conservative = findid_bulk units (
    if conservative
    then filter (λ i. contains i (get_modified_units units last_sync last_revision)) common
    else common)

module _ {U : Type 0} (disk : DiskUnits U) where
  -- A change of the unit that `findid` finds, the first with the id.
  unfoldable pub change_first : String → (U → U) → List U → List U
  change_first unitid f [] = []
  change_first unitid f (u ∷ l) =
      if disk.getid u == unitid then f u ∷ l else u ∷ change_first unitid f l

  unfoldable pub findid : String → List U → Option U
  findid unitid [] = none
  findid unitid (u ∷ l) = if disk.getid u == unitid then some u else findid unitid l

  -- `obsolete_unit`: the unit, and whether it counts as obsoleted and as deleted. `del` unbinds a
  -- name and leaves the unit where it is.
  unfoldable pub obsolete_unit : Bool → U → U × (Bool × Bool)
  obsolete_unit conservative u =
      if disk.istranslated u && not conservative
      then (disk.makeobsolete u, (true, not (disk.isobsolete (disk.makeobsolete u))))
      else (u, (false, not (disk.istranslated u)))

  -- `get_units_to_obsolete` and the first loop of `update_structure`: the units, and the counts of
  -- the obsoleted and the deleted; one turn, by what is found.
  abbrev pub obsolete_found :
      Bool → Option U → List U × (ℕ × ℕ) → List U × (ℕ × ℕ) → List U × (ℕ × ℕ)
  obsolete_found conservative none skipped changed = skipped
  obsolete_found conservative (some u) skipped changed = if disk.isobsolete u then skipped else (
    changed.0,
    (
      (if (obsolete_unit conservative u).1.0 then 1 else 0) + changed.1.0,
      (if (obsolete_unit conservative u).1.1 then 1 else 0) + changed.1.1,
    ),
  )

  unfoldable pub obsolete_units : Bool → List String → List U → List U × (ℕ × ℕ)
  unfolding change_first findid obsolete_unit
  obsolete_units conservative [] units = (units, (0, 0))
  obsolete_units conservative (unitid ∷ ids) units =
      obsolete_found conservative (findid unitid units) (obsolete_units conservative ids units) (
        obsolete_units conservative ids
          (change_first unitid (λ v. (obsolete_unit conservative v).0) units))

  -- One turn of `sync_units`.
  abbrev pub sync_found : SyncUnit → Option U → List U × ℕ → List U × ℕ → List U × ℕ
  sync_found u none skipped synced = skipped
  sync_found u (some m) skipped synced =
      (synced.0, (if (disk.sync_unit u m).1 then 1 else 0) + synced.1)

  unfoldable pub sync_units : List SyncUnit → List U → List U × ℕ
  unfolding change_first findid
  sync_units [] units = (units, 0)
  sync_units (u ∷ l) units =
      sync_found u (findid u.unitid units) (sync_units l units)
        (sync_units l (change_first u.unitid (λ v. (disk.sync_unit u v).0) units))

  -- `update_structure`, with the units that it obsoletes and the units that it adds.
  unfoldable pub update_structure :
      Bool → List String → List SyncUnit → List U → List U × SyncCounts
  unfolding obsolete_units
  update_structure conservative ids new_units units =
      let kept = obsolete_units conservative ids units in
      (
        kept.0 ++ map disk.convert new_units,
        record { obsolete = kept.1.0; deleted = kept.1.1; added = length new_units; updated = 0 },
      )

  -- `sync`: whether the file has changed, the counts, and the units of the file. The units to
  -- obsolete and to add are generators, which count as true where they yield nothing.
  unfoldable pub sync :
      List SyncUnit → Option ℕ → ℕ → Bool → Bool → List U → Bool × (SyncCounts × List U)
  unfolding dbid_index dbids_of get_common_units update_structure sync_units
  sync db_units last_sync last_revision structure conservative units =
      let index = dbid_index db_units in
      let old_ids = map disk.getid units in
      let new_ids = map (λ (e : String × ℕ). e.0) index in
      let new_units = findid_bulk db_units (dbids_of (λ i. not (contains i old_ids)) index) in
      let gone = filter (λ i. not (contains i new_ids)) old_ids in
      let unchanged : List U × SyncCounts =
        (units, record { obsolete = 0; deleted = 0; added = 0; updated = 0 }) in
      let restructured : List U × SyncCounts =
        if structure then update_structure conservative gone new_units units else unchanged in
      let common =
        get_common_units db_units last_sync (dbids_of (λ i. contains i old_ids) index) last_revision
          conservative in
      let synced = sync_units common restructured.0 in
      let counts : SyncCounts = record restructured.1 { updated = synced.1 } in
      (
        structure
            || (ltb 0 counts.obsolete
                || (ltb 0 counts.deleted || (ltb 0 counts.added || ltb 0 counts.updated))),
        (counts, synced.0),
      )
