-- ===== src/Store/Diff.antt =====
-- pootle_store/diff.py: `StoreDiff` compares the units of a store with those of a source, and says
-- which units to add, to obsolete, to update and to move.
pub mod Contents
use pootle.Base.{
  ℕ, zero, suc, ◌+◌, ◌-◌, String, Bool, true, false, not, ◌&&◌, ◌||◌, Option, none, some, List, [],
  ◌∷◌, ◌++◌, map, ltb, leb, ◌==◌, nat_eq, string_eq, option_eq, list_eq, bool_eq, if◌then◌else◌,
  length, filter, contains, lookup, keys, dict, sort_by, get_elem?, slice, is_nonempty, ℤ, pos,
  sub_ℕ, gain,
}
use pootle.Store.Unit.{
  DbUnit, FileUnit, UnitState, obsolete, untranslated, fuzzy, translated, unit_state_eq, or_empty,
}

-- A unit of the source: a row of another store, or a unit of a file.
pub data SourceUnit : Type 0 where
  of_db : DbUnit → SourceUnit
  of_file : FileUnit → SourceUnit

-- The state in `get_file_unit`.
abbrev pub file_state : FileUnit → UnitState
file_state f =
    if f.isobsolete
    then obsolete
    else if f.istranslated
    then translated
    else if f.isfuzzy
    then fuzzy
    else untranslated

abbrev pub source_state : SourceUnit → UnitState
source_state (of_db u) = u.state
source_state (of_file f) = file_state f

-- `UnitDiffProxy.match_attrs`, in which what is NULL reads as the empty text.
pub record View : Type 0 where
  pub context : String
  pub developer_comment : String
  pub locations : String
  pub source : List String
  pub state : UnitState
  pub target : List String
  pub translator_comment : String

abbrev pub view_db : DbUnit → View
view_db u = record {
  context = or_empty u.context;
  developer_comment = or_empty u.developer_comment;
  locations = or_empty u.locations;
  source = u.source;
  state = u.state;
  target = u.target;
  translator_comment = or_empty u.translator_comment;
}

abbrev pub view_source : SourceUnit → View
view_source (of_db u) = view_db u
view_source (of_file f) = record {
  context = f.context;
  developer_comment = f.developer_notes;
  locations = f.locations;
  source = f.source;
  state = file_state f;
  target = f.target;
  translator_comment = f.translator_notes;
}

-- `UnitDiffProxy.__eq__`.
unfoldable pub matches : View → View → Bool
matches a b =
    a.context == b.context
    && a.developer_comment == b.developer_comment
    && a.locations == b.locations
    && a.source == b.source
    && a.state == b.state
    && a.target == b.target
    && a.translator_comment == b.translator_comment

unfoldable pub get_db_units : List DbUnit → List (String × DbUnit)
unfolding sort_by
get_db_units units = dict (map (λ u. (u.unitid, u)) (sort_by (λ a b. ltb a.index b.index) units))

-- The units of a file, each with whether it is a header.
unfoldable pub get_file_units : List (Bool × FileUnit) → List (String × SourceUnit)
get_file_units units =
    dict (map (λ (header, f). (f.unitid, of_file f)) (filter (λ (header, f). not header) units))

pub data Tag : Type 0 where
  equal replace delete insert_tag : Tag

pub record Opcode : Type 0 where
  pub tag : Tag
  pub i1 : ℕ
  pub i2 : ℕ
  pub j1 : ℕ
  pub j2 : ℕ

-- One of `insert_points`.
pub record InsertPoint : Type 0 where
  pub insert_at : ℕ
  pub uids : List String
  pub next_index : ℕ
  pub delta : ℤ

-- What a `StoreDiff` compares. `opcodes` are those of `difflib` between the active units of the
-- store and the new list; no revision of the source is less than any.
pub record StoreDiff : Type 0 where
  pub target_units : List (String × DbUnit)
  pub source_units : List (String × SourceUnit)
  pub source_revision : Option ℕ
  pub target_revision : ℕ
  pub opcodes : List String → List String → List Opcode

-- `revision > self.source_revision`.
abbrev pub newer : ℕ → Option ℕ → Bool
newer revision none = true
newer revision (some r) = ltb r revision

abbrev pub is_active : String × DbUnit → Bool
is_active (uid, u) = not (u.state == obsolete)

abbrev key_of : String × DbUnit → String
key_of (uid, u) = uid

module _ (d : StoreDiff) where
  unfoldable pub active_target_units : List String
  active_target_units = keys (filter is_active d.target_units)

  abbrev pub is_newer : String × DbUnit → Bool
  is_newer (uid, u) = newer u.revision d.source_revision

  unfoldable pub obsoleted_target_units : List String
  obsoleted_target_units = keys (filter (λ t. not (is_active t) && is_newer t) d.target_units)

  unfoldable pub updated_target_units : List String
  updated_target_units = keys (filter (λ t. is_newer t && is_active t) d.target_units)

  -- `self.source_revision >= self.target_revision`.
  abbrev pub source_is_current : Bool
  source_is_current = elim d.source_revision [ none ↦ false | some r ↦ leb d.target_revision r ]

  unfoldable pub new_unit_list : List String
  new_unit_list =
      if source_is_current
      then keys d.source_units
      else filter (λ u. not (contains u (keys d.source_units))) updated_target_units
        ++ filter (λ u. not (contains u obsoleted_target_units)) (keys d.source_units)

  unfoldable pub diff_opcodes : List Opcode
  unfolding active_target_units new_unit_list
  diff_opcodes = d.opcodes active_target_units new_unit_list

  -- `self.target_units[self.active_target_units[i]]["index"]`; `none` stands for an error.
  unfoldable pub index_at : ℕ → Option ℕ
  unfolding active_target_units
  index_at i = elim (get_elem? active_target_units i) [
    | none ↦ none
    | some uid ↦ elim (lookup uid d.target_units) [ none ↦ none | some u ↦ some u.index ]
  ]

  -- The index before a point: 0 in front of all units.
  abbrev before : ℕ → Option ℕ
  before zero = some 0
  before (suc i) = index_at i

  -- The next index, and the offset, of an insertion behind `insert_at`.
  abbrev insertion : Opcode → ℕ → Option InsertPoint
  insertion o insert_at =
      if ltb o.i1 (length active_target_units)
      then elim (index_at o.i1) [
        | none ↦ none
        | some next ↦ some (record {
          insert_at = insert_at;
          uids = slice o.j1 o.j2 new_unit_list;
          next_index = next;
          delta = sub_ℕ (o.j2 - o.j1 + insert_at + 1) next;
        })
      ]
      else some (record {
        insert_at = insert_at;
        uids = slice o.j1 o.j2 new_unit_list;
        next_index = insert_at + 1;
        delta = pos 0;
      })

  abbrev replacement : Opcode → ℕ → ℕ → InsertPoint
  replacement o insert_at next = record {
    insert_at = insert_at;
    uids = slice o.j1 o.j2 new_unit_list;
    next_index = next;
    delta = sub_ℕ (o.j2 - o.j1 + next) insert_at;
  }

  -- The point of an opcode: of an insertion, of a replacement, or none.
  unfoldable pub point_of : Opcode → Tag → Option (List InsertPoint)
  unfolding index_at
  point_of o equal = some []
  point_of o delete = some []
  point_of o insert_tag = elim (before o.i1) [
    | none ↦ none
    | some insert_at ↦ elim (insertion o insert_at) [ none ↦ none | some p ↦ some (p ∷ []) ]
  ]
  point_of o replace = elim (index_at (o.i1 - 1)) [
    | none ↦ none
    | some insert_at ↦ elim (index_at (o.i2 - 1)) [
      | none ↦ none
      | some next ↦ some (replacement o insert_at next ∷ [])
    ]
  ]

  unfoldable pub points : List Opcode → Option (List InsertPoint)
  points [] = some []
  points (o ∷ os) =
      let rest = points os in
      elim (point_of o o.tag) [
        | none ↦ none
        | some p ↦ elim rest [ none ↦ none | some ps ↦ some (p ++ ps) ]
      ]

  unfoldable pub insert_points : Option (List InsertPoint)
  insert_points = points diff_opcodes

  abbrev is_positive : ℤ → Bool
  is_positive delta = ltb 0 (gain delta)

  unfoldable pub get_indexes_to_update : ℕ → List InsertPoint → List (ℕ × ℕ)
  get_indexes_to_update offset [] = []
  get_indexes_to_update offset (p ∷ ps) =
      let rest = get_indexes_to_update (offset + gain p.delta) ps in
      if is_positive p.delta then (p.next_index + offset, gain p.delta) ∷ rest else rest

  -- The units to add of one point, from the index `at` on.
  unfoldable pub adds_of : ℕ → List String → List (SourceUnit × ℕ)
  adds_of at [] = []
  adds_of at (uid ∷ uids) =
      let rest = adds_of (suc at) uids in
      elim (lookup uid d.source_units) [
        | none ↦ rest
        | some u ↦ if contains uid (keys d.target_units) then rest else (u, at) ∷ rest
      ]

  unfoldable pub get_units_to_add : ℕ → List InsertPoint → List (SourceUnit × ℕ)
  unfolding adds_of
  get_units_to_add offset [] = []
  get_units_to_add offset (p ∷ ps) =
      adds_of (p.insert_at + 1 + offset) p.uids ++ get_units_to_add (offset + gain p.delta) ps

  abbrev pub is_dropped : String × DbUnit → Bool
  is_dropped (uid, u) =
      (elim (lookup uid d.source_units) [ none ↦ true | some s ↦ source_state s == obsolete ])
      && contains uid active_target_units

  unfoldable pub get_units_to_obsolete : List ℕ
  unfolding active_target_units
  get_units_to_obsolete = map (λ (uid, u). u.id) (filter is_dropped d.target_units)

  -- `uid_index_map` of one point: the key and the new index of each unit that is in the store.
  unfoldable pub moves_of : ℕ → List String → List (String × (ℕ × ℕ))
  moves_of at [] = []
  moves_of at (uid ∷ uids) =
      let rest = moves_of (suc at) uids in
      elim (lookup uid d.target_units) [ none ↦ rest | some u ↦ (uid, (u.id, at)) ∷ rest ]

  unfoldable pub moves : ℕ → List InsertPoint → List (String × (ℕ × ℕ))
  unfolding moves_of
  moves offset [] = []
  moves offset (p ∷ ps) =
      moves_of (p.insert_at + 1 + offset) p.uids ++ moves (offset + gain p.delta) ps

  -- The keys of the units of one `equal` block that differ from the source.
  unfoldable pub changed_ids : List String → List ℕ
  changed_ids [] = []
  changed_ids (uid ∷ uids) =
      let rest = changed_ids uids in
      elim (lookup uid d.target_units) [
        | none ↦ rest
        | some u ↦ elim (lookup uid d.source_units) [
          | none ↦ rest
          | some s ↦ if matches (view_db u) (view_source s) then rest else u.id ∷ rest
        ]
      ]

  abbrev equal_block : Opcode → Tag → List String
  equal_block o equal = slice o.i1 o.i2 active_target_units
  equal_block o _ = []

  unfoldable pub get_updated_sourceids : List Opcode → List ℕ
  get_updated_sourceids [] = []
  get_updated_sourceids (o ∷ os) = changed_ids (equal_block o o.tag) ++ get_updated_sourceids os

-- What `diff` returns. The sets of keys are lists.
pub record Changes : Type 0 where
  pub index : List (ℕ × ℕ)
  pub obsolete_ids : List ℕ
  pub add : List (SourceUnit × ℕ)
  pub update_ids : List ℕ
  pub uid_index_map : List (String × (ℕ × ℕ))

unfoldable pub has_changes : Changes → Bool
has_changes c =
    is_nonempty c.index
    || (is_nonempty c.obsolete_ids || (is_nonempty c.add || is_nonempty c.update_ids))

unfoldable pub changes_of : StoreDiff → List InsertPoint → Changes
changes_of d ps =
    let map_of = dict (moves d 0 ps) in
    record {
      index = get_indexes_to_update d 0 ps;
      obsolete_ids = get_units_to_obsolete d;
      add = get_units_to_add d 0 ps;
      update_ids =
          get_updated_sourceids d (diff_opcodes d) ++ map (λ (uid, (dbid, index)). dbid) map_of;
      uid_index_map = map_of;
    }

-- `diff`: an error, no changes, or the changes.
unfoldable pub diff : StoreDiff → Option (Option Changes)
diff d = elim (insert_points d) [
  | none ↦ none
  | some ps ↦ if has_changes (changes_of d ps) then some (some (changes_of d ps)) else some none
]
