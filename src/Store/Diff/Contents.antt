-- ===== src/Store/Diff/Contents.antt =====
-- What a difference adds, keeps in the new list and leaves alone.
use pootle.Base.{
  Distinct, is_some, is_some-lookup, beq_comm, eq_iff, Bool, Option, ◌==◌, ℕ, suc, ◌+◌, ◌≡◌, refl,
  ◌∙◌, ap, String, true, false, not, ◌&&◌, ◌||◌, none, some, Option-cases, Bool-cases, gain, List,
  [], ◌∷◌, ◌++◌, map, arith, nat_eq, string_eq, if◌then◌else◌, filter, contains, lookup, keys, All,
  All-append, subst, sym, inl, inr, contains-append, contains-filter, filter-eq-nil,
}
use pootle.Store.Unit.{DbUnit, obsolete, unit_state_eq}
use pootle.Store.Diff.{
  newer, is_newer, is_active, StoreDiff, SourceUnit, Opcode, equal, InsertPoint, view_db,
  view_source, matches, source_is_current, new_unit_list, updated_target_units,
  obsoleted_target_units, diff_opcodes, point_of, points, insert_points, get_indexes_to_update,
  adds_of, get_units_to_add, is_dropped, get_units_to_obsolete, moves, changed_ids,
  get_updated_sourceids, has_changes, changes_of, diff,
}

abbrev holds_of : (String × DbUnit → Bool) → String → Option DbUnit → Bool
holds_of p uid none = false
holds_of p uid (some u) = p (uid, u)

contains-keys-filter-absent :
    (p : String × DbUnit → Bool) (uid : String) (l : List (String × DbUnit))
    → contains uid (keys l) ≡ false
    → contains uid (keys (filter p l)) ≡ false
contains-keys-filter-absent p uid [] h = refl
contains-keys-filter-absent p uid (t ∷ l) h = ground (arith, contains-keys-filter-absent p uid l)

-- With one unit for a key, the unit decides whether the filter keeps the key.
contains-keys-filter :
    (p : String × DbUnit → Bool) (uid : String) (l : List (String × DbUnit))
    → Distinct (keys l)
    → contains uid (keys (filter p l)) ≡ holds_of p uid (lookup uid l)
contains-keys-filter p uid [] h = refl
contains-keys-filter p uid ((k, u) ∷ l) h = elim (Bool-cases (k == uid)) [
  | inl same ↦
      let e : k ≡ uid = (eq_iff k uid).0 same in
      ground (
        arith,
        beq_comm k uid,
        ap (λ q. p (q, u)) e,
        contains-keys-filter-absent p uid l (ap (λ q. contains q (keys l)) (sym e) ∙ h.0),
      )
  | inr other ↦ ground (arith, beq_comm k uid, contains-keys-filter p uid l h.1)
]

module _ (d : StoreDiff) where
  -- A unit of the source that the store has no unit for.
  abbrev pub IsNew : SourceUnit × ℕ → Type 0
  IsNew (s, at) =
      (uid : String) × (lookup uid d.source_units ≡ some s)
      × (contains uid (keys d.target_units) ≡ false)

  adds_of-IsNew : (at : ℕ) (uids : List String) → All IsNew (adds_of d at uids)
  unfolding adds_of
  adds_of-IsNew at [] = tt
  adds_of-IsNew at (uid ∷ uids) =
      let skip : adds_of d at (uid ∷ uids) ≡ adds_of d (suc at) uids
          → All IsNew (adds_of d at (uid ∷ uids)) =
        λ e. subst (All IsNew) (sym e) (adds_of-IsNew (suc at) uids) in
      elim (Option-cases (lookup uid d.source_units)) [
        | inl absent ↦ skip (ground arith)
        | inr (s, found) ↦ elim (Bool-cases (contains uid (keys d.target_units))) [
          | inl known ↦ skip (ground arith)
          | inr fresh ↦
              let e : adds_of d at (uid ∷ uids) ≡ (s, at) ∷ adds_of d (suc at) uids =
                ground arith in
              subst (All IsNew) (sym e) ((uid, found, fresh), adds_of-IsNew (suc at) uids)
        ]
      ]

  -- Only units of the source that the store has no unit for are added.
  pub get_units_to_add-IsNew :
      (offset : ℕ) (ps : List InsertPoint) → All IsNew (get_units_to_add d offset ps)
  unfolding get_units_to_add
  get_units_to_add-IsNew offset [] = tt
  get_units_to_add-IsNew offset (p ∷ ps) =
      All-append IsNew _ _ (adds_of-IsNew _ p.uids)
        (get_units_to_add-IsNew (offset + gain p.delta) ps)

  -- membership in the new list, from the sets it is made of
  in_new_list :
      (uid : String)
      → contains uid (new_unit_list d) ≡ (
          if source_is_current d
          then contains uid (keys d.source_units)
          else (not (contains uid (keys d.source_units)) && contains uid (updated_target_units d))
            || (not (contains uid (obsoleted_target_units d))
                && contains uid (keys d.source_units)))
  unfolding new_unit_list
  in_new_list uid = ground (
    arith,
    contains-append uid
        (filter (λ u. not (contains u (keys d.source_units))) (updated_target_units d))
        (filter (λ u. not (contains u (obsoleted_target_units d))) (keys d.source_units)),
    contains-filter (λ u. not (contains u (keys d.source_units))) uid (updated_target_units d),
    contains-filter (λ u. not (contains u (obsoleted_target_units d))) uid (keys d.source_units),
  )

  -- The new list of a difference has the keys of the source if the source is as new as the
  -- store. Otherwise a key of which the store has a unit that has changed since the revision of
  -- the source is in it exactly if that unit is not obsolete, and any other key exactly if the
  -- source has it, if the units of the store have different keys.
  pub contains-new_unit_list :
      (uid : String)
      → Distinct (keys d.target_units)
      → contains uid (new_unit_list d) ≡ (
          if source_is_current d
          then is_some (lookup uid d.source_units)
          else elim (lookup uid d.target_units) [
            | none ↦ is_some (lookup uid d.source_units)
            | some u ↦
                if newer u.revision d.source_revision
                then not (u.state == obsolete)
                else is_some (lookup uid d.source_units)
          ])
  unfolding new_unit_list updated_target_units obsoleted_target_units
  contains-new_unit_list uid distinct = elim (Option-cases (lookup uid d.target_units)) [
    | inl absent ↦ ground (
      arith,
      in_new_list uid,
      is_some-lookup uid d.source_units,
      contains-keys-filter (λ t. is_newer d t && is_active t) uid d.target_units distinct,
      contains-keys-filter (λ t. not (is_active t) && is_newer d t) uid d.target_units distinct,
    )
    | inr (u, found) ↦ ground (
      arith,
      in_new_list uid,
      is_some-lookup uid d.source_units,
      contains-keys-filter (λ t. is_newer d t && is_active t) uid d.target_units distinct,
      contains-keys-filter (λ t. not (is_active t) && is_newer d t) uid d.target_units distinct,
    )
  ]

-- All units that both sides have say the same.
abbrev pub IsSame : StoreDiff → Type 0
IsSame d =
    (uid : String) (u : DbUnit) (s : SourceUnit)
    → lookup uid d.target_units ≡ some u
    → lookup uid d.source_units ≡ some s
    → matches (view_db u) (view_source s) ≡ true

abbrev IsEqual : Opcode → Type 0
IsEqual o = o.tag ≡ equal

module _ (d : StoreDiff) (same : IsSame d) where
  changed_ids-eq-nil : (uids : List String) → changed_ids d uids ≡ []
  unfolding changed_ids
  changed_ids-eq-nil [] = refl
  changed_ids-eq-nil (uid ∷ uids) = elim (Option-cases (lookup uid d.target_units)) [
    | inl absent ↦ ground (arith, changed_ids-eq-nil uids)
    | inr (u, in_target) ↦ elim (Option-cases (lookup uid d.source_units)) [
      | inl absent ↦ ground (arith, changed_ids-eq-nil uids)
      | inr (s, in_source) ↦
          ground (arith, same uid u s in_target in_source, changed_ids-eq-nil uids)
    ]
  ]

  get_updated_sourceids-eq-nil : (os : List Opcode) → get_updated_sourceids d os ≡ []
  unfolding get_updated_sourceids
  get_updated_sourceids-eq-nil [] = refl
  get_updated_sourceids-eq-nil (o ∷ os) = rw (changed_ids-eq-nil _, get_updated_sourceids-eq-nil os)

point_of_equal : (d : StoreDiff) (o : Opcode) → point_of d o equal ≡ some []
unfolding point_of
point_of_equal d o = refl

points-of_equal : (d : StoreDiff) (os : List Opcode) → All IsEqual os → points d os ≡ some []
unfolding points
points-of_equal d [] h = refl
points-of_equal d (o ∷ os) h =
    ground (arith, points-of_equal d os h.1, ap (point_of d o) h.0, point_of_equal d o)

diff-of_points :
    (d : StoreDiff)
    → points d (diff_opcodes d) ≡ some []
    → diff d ≡ (
        if has_changes (record {
          index = [];
          obsolete_ids = get_units_to_obsolete d;
          add = [];
          update_ids = get_updated_sourceids d (diff_opcodes d) ++ [];
          uid_index_map = [];
        })
        then some (
            some (record {
              index = [];
              obsolete_ids = get_units_to_obsolete d;
              add = [];
              update_ids = get_updated_sourceids d (diff_opcodes d) ++ [];
              uid_index_map = [];
            }))
        else some none)
unfolding diff insert_points changes_of moves get_indexes_to_update get_units_to_add
diff-of_points d h = ground arith

no_obsolete :
    (d : StoreDiff)
    → All (λ t. is_dropped d t ≡ false) d.target_units
    → get_units_to_obsolete d ≡ []
unfolding get_units_to_obsolete
no_obsolete d kept = ap (map (λ t. t.1.id)) (filter-eq-nil (is_dropped d) d.target_units kept)

-- If `difflib` finds equal blocks only, the units that both sides have say the same, and the source
-- has every active unit and has it active, then there are no changes to make.
pub diff-eq-none :
    (d : StoreDiff)
    → All IsEqual (diff_opcodes d)
    → IsSame d
    → All (λ t. is_dropped d t ≡ false) d.target_units
    → diff d ≡ some none
diff-eq-none d equals same kept =
    diff-of_points d (points-of_equal d (diff_opcodes d) equals)
    ∙ (unfold has_changes in
        ground (arith, no_obsolete d kept, get_updated_sourceids-eq-nil d same (diff_opcodes d)))
