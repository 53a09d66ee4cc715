-- ===== src/Store/Syncer/Kept.antt =====
-- A synchronisation removes no unit of the file, and adds those of the store that it lacks.
use pootle.Base.{
  ℕ, ◌+◌, String, Bool, true, false, not, ◌&&◌, ◌||◌, Option, none, some, List, [], ◌∷◌, ◌++◌, map,
  ◌==◌, nat_eq, string_eq, eq_iff, if◌then◌else◌, filter, contains, contains-append, ◌≡◌, refl, sym,
  ap, ◌∙◌, arith, In, inl, inr, Bool-cases,
}
use pootle.Store.Syncer.{
  SyncUnit, DiskUnits, change_first, findid, obsolete_unit, obsolete_units, obsolete_found,
  sync_found, sync_units, update_structure, dbid_index, dbids_of, findid_bulk, sync,
}

append-nil : {A : Type 0} (l : List A) → l ++ [] ≡ l
append-nil [] = refl
append-nil (x ∷ l) = ap (λ k. x ∷ k) (append-nil l)

contains-dbids_of :
    (p : String → Bool) (db_units : List SyncUnit) (u : SyncUnit)
    → In u db_units
    → u.is_live ≡ true
    → p u.unitid ≡ true
    → contains u.id (dbids_of p (dbid_index db_units)) ≡ true
unfolding dbids_of dbid_index
contains-dbids_of p [] u m live h = elim m [ ]
contains-dbids_of p (v ∷ l) u (inl e) live h = ground (
  arith,
  ap (λ w. w.is_live) (sym e) ∙ live,
  ap (λ w. p w.unitid) (sym e) ∙ h,
  ap (λ w. w.id) e,
  nat_eq.eqb_iff u.id v.id,
)
contains-dbids_of p (v ∷ l) u (inr n) live h = ground (arith, contains-dbids_of p l u n live h)

module _ {U : Type 0} (disk : DiskUnits U) where
  abbrev pub ids_of : List U → List String
  ids_of = map disk.getid

  -- What the toolkit and `Unit.sync` do to a unit leaves its id.
  pub record KeepsIds : Type 0 where
    pub makeobsolete_keeps : (u : U) → disk.getid (disk.makeobsolete u) ≡ disk.getid u
    pub sync_keeps : (s : SyncUnit) (u : U) → disk.getid (disk.sync_unit s u).0 ≡ disk.getid u

  ids-change_first :
      (unitid : String) (f : U → U) (units : List U)
      → ((u : U) → disk.getid (f u) ≡ disk.getid u)
      → ids_of (change_first disk unitid f units) ≡ ids_of units
  unfolding change_first
  ids-change_first unitid f [] h = refl
  ids-change_first unitid f (u ∷ l) h = elim (Bool-cases (disk.getid u == unitid)) [
    | inl hit ↦ rw hit (ap (λ i. i ∷ ids_of l) (h u))
    | inr miss ↦ rw miss (ap (λ is. disk.getid u ∷ is) (ids-change_first unitid f l h))
  ]

  found_keeps :
      (conservative : Bool) (o : Option U) (skipped changed : List U × (ℕ × ℕ)) (ids : List String)
      → ids_of skipped.0 ≡ ids
      → ids_of changed.0 ≡ ids
      → ids_of (obsolete_found disk conservative o skipped changed).0 ≡ ids
  found_keeps conservative none skipped changed ids h k = h
  found_keeps conservative (some u) skipped changed ids h k =
      elim (disk.isobsolete u)
        as (λ b.
          ids_of
            (if b then skipped else (
              changed.0,
              (
                (if (obsolete_unit disk conservative u).1.0 then 1 else 0) + changed.1.0,
                (if (obsolete_unit disk conservative u).1.1 then 1 else 0) + changed.1.1,
              ),
            )).0
          ≡ ids) [ true ↦ h | false ↦ k ]

  synced_keeps :
      (s : SyncUnit) (o : Option U) (skipped synced : List U × ℕ) (ids : List String)
      → ids_of skipped.0 ≡ ids
      → ids_of synced.0 ≡ ids
      → ids_of (sync_found disk s o skipped synced).0 ≡ ids
  synced_keeps s none skipped synced ids h k = h
  synced_keeps s (some m) skipped synced ids h k = k

  -- The units of the store whose ids the file lacks.
  abbrev pub new_units_of : List SyncUnit → List U → List SyncUnit
  new_units_of db_units units =
      findid_bulk db_units (dbids_of (λ i. not (contains i (ids_of units))) (dbid_index db_units))

  abbrev gone_ids : List SyncUnit → List U → List String
  gone_ids db_units units =
      filter (λ i. not (contains i (map (λ (e : String × ℕ). e.0) (dbid_index db_units))))
        (ids_of units)

  ids-converted :
      (units : List U) (l : List SyncUnit)
      → ids_of (units ++ map disk.convert l)
        ≡ ids_of units ++ map (λ s. disk.getid (disk.convert s)) l
  ids-converted [] [] = refl
  ids-converted [] (s ∷ l) = ap (λ is. disk.getid (disk.convert s) ∷ is) (ids-converted [] l)
  ids-converted (u ∷ units) l = ap (λ is. disk.getid u ∷ is) (ids-converted units l)

  contains-converted :
      ((s : SyncUnit) → disk.getid (disk.convert s) ≡ s.unitid)
      → (db_units : List SyncUnit) (ids : List ℕ) (u : SyncUnit) → In u db_units
      → contains u.id ids ≡ true
      → contains u.unitid (map (λ s. disk.getid (disk.convert s)) (findid_bulk db_units ids)) ≡ true
  contains-converted named [] ids u m h = elim m [ ]
  contains-converted named (v ∷ l) ids u (inl e) h = ground (
    arith,
    ap (λ w. contains w.id ids) (sym e) ∙ h,
    named v,
    ap (λ w. w.unitid) e,
    eq_iff u.unitid (disk.getid (disk.convert v)),
  )
  contains-converted named (v ∷ l) ids u (inr n) h =
      ground (arith, contains-converted named l ids u n h)

  module _ (keeps : KeepsIds) where
    id-obsolete_unit :
        (conservative : Bool) (u : U)
        → disk.getid (obsolete_unit disk conservative u).0 ≡ disk.getid u
    unfolding obsolete_unit
    id-obsolete_unit conservative u = elim (Bool-cases (disk.istranslated u && not conservative)) [
      | inl h ↦ rw h (keeps.makeobsolete_keeps u)
      | inr h ↦ rw h refl
    ]

    ids-obsolete_units :
        (conservative : Bool) (ids : List String) (units : List U)
        → ids_of (obsolete_units disk conservative ids units).0 ≡ ids_of units
    unfolding obsolete_units
    ids-obsolete_units conservative [] units = refl
    ids-obsolete_units conservative (i ∷ ids) units =
        found_keeps conservative (findid disk i units) (obsolete_units disk conservative ids units)
          (obsolete_units disk conservative ids
            (change_first disk i (λ v. (obsolete_unit disk conservative v).0) units))
          (ids_of units) (ids-obsolete_units conservative ids units)
          (ids-obsolete_units conservative ids _
            ∙ ids-change_first i _ units (id-obsolete_unit conservative))

    ids-sync_units :
        (l : List SyncUnit) (units : List U) → ids_of (sync_units disk l units).0 ≡ ids_of units
    unfolding sync_units
    ids-sync_units [] units = refl
    ids-sync_units (u ∷ l) units =
        synced_keeps u (findid disk u.unitid units) (sync_units disk l units)
          (sync_units disk l (change_first disk u.unitid (λ v. (disk.sync_unit u v).0) units))
          (ids_of units) (ids-sync_units l units)
          (ids-sync_units l _ ∙ ids-change_first u.unitid _ units (keeps.sync_keeps u))

    -- sync removes no unit of the file, those that it counts as deleted included: the ids
    -- stay in their order, and behind them stand, if the structure is updated, those of the
    -- live units of the store that the file lacked, if the units keep their ids.
    pub ids-sync :
        (db_units : List SyncUnit) (last_sync : Option ℕ) (last_revision : ℕ)
        (structure conservative : Bool) (units : List U)
        → ids_of (sync disk db_units last_sync last_revision structure conservative units).1.1
          ≡ ids_of units
            ++ (if structure
                then map (λ s. disk.getid (disk.convert s)) (new_units_of db_units units)
                else [])
    unfolding sync update_structure
    ids-sync db_units last_sync last_revision true conservative units =
        ids-sync_units _ _
        ∙ ids-converted (obsolete_units disk conservative (gone_ids db_units units) units).0
            (new_units_of db_units units)
        ∙ ap (λ is. is ++ map (λ s. disk.getid (disk.convert s)) (new_units_of db_units units))
            (ids-obsolete_units conservative (gone_ids db_units units) units)
    ids-sync db_units last_sync last_revision false conservative units =
        ids-sync_units _ units ∙ sym (append-nil (ids_of units))

    -- After a sync that updates the structure each live unit of the store has a unit in the
    -- file, if the units keep their ids and a new one gets the id of the unit it is made of.
    pub contains-sync :
        (db_units : List SyncUnit) (last_sync : Option ℕ) (last_revision : ℕ) (conservative : Bool)
        (units : List U) (u : SyncUnit)
        → ((s : SyncUnit) → disk.getid (disk.convert s) ≡ s.unitid)
        → In u db_units
        → u.is_live ≡ true
        → contains u.unitid
            (ids_of (sync disk db_units last_sync last_revision true conservative units).1.1)
          ≡ true
    contains-sync db_units last_sync last_revision conservative units u named m live =
        ap (contains u.unitid) (ids-sync db_units last_sync last_revision true conservative units)
        ∙ contains-append u.unitid (ids_of units)
            (map (λ s. disk.getid (disk.convert s)) (new_units_of db_units units))
        ∙ by_lack (contains u.unitid (ids_of units)) refl
      where
        by_lack :
            (b : Bool)
            → contains u.unitid (ids_of units) ≡ b
            → (b
                || contains u.unitid
                    (map (λ s. disk.getid (disk.convert s)) (new_units_of db_units units)))
              ≡ true
        by_lack true e = refl
        by_lack false e =
            contains-converted named db_units
              (dbids_of (λ i. not (contains i (ids_of units))) (dbid_index db_units)) u m
              (contains-dbids_of (λ i. not (contains i (ids_of units))) db_units u m live
                (ap not e))
