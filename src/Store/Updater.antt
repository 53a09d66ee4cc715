-- ===== src/Store/Updater.antt =====
-- pootle_store/updater.py, `UnitUpdater`: a unit of a store is updated from the unit of a file,
-- given the unit as it was when the two were last synchronised. Also `SuggestionsReview.add` of
-- pootle_store/utils.py.
pub mod Merge
use pootle.Base.{
  ℕ, ◌+◌, String, Bool, true, false, not, ◌&&◌, ◌||◌, Option, none, some, List, [], ◌∷◌, ◌++◌, ltb,
  ◌==◌, nat_eq, string_eq, option_eq, list_eq, bool_eq, if◌then◌else◌, any, is_some, lookup,
}
use pootle.Store.Unit.{
  DbUnit, FileUnit, unit_state_eq, or_empty, isfuzzy, istranslated, isobsolete, update,
}

-- A pending suggestion: its unit, its author and its text.
pub record Suggestion : Type 0 where
  pub unit : ℕ
  pub user : ℕ
  pub target : List String

-- What a `StoreUpdate` holds for the update of its units.
pub record StoreUpdate : Type 0 where
  pub pootle_wins : Bool
  pub suggest_on_conflict : Bool
  pub change_indices : Bool
  pub indices : List (String × ℕ)
  pub store_revision : Option ℕ
  pub update_revision : ℕ
  pub user : ℕ

-- What `update_unit` leaves and returns.
pub record Updated : Type 0 where
  pub unit : DbUnit
  pub pending : List Suggestion
  pub changed : Bool
  pub suggested : Bool

-- `filter(None, translation)` of a multistring, which is its first string: whether it has text.
abbrev pub has_text : List String → Bool
has_text [] = false
has_text (s ∷ strings) = not (s == "")

-- `SuggestionsReview.add`, with whether the suggestion was created.
unfoldable pub add_suggestion : DbUnit → List String → ℕ → List Suggestion → List Suggestion × Bool
add_suggestion u translation user pending =
    if not (has_text translation)
      || (translation == u.target || any (λ s. s.unit == u.id && s.target == translation) pending)
    then (pending, false)
    else (pending ++ (record { unit = u.id; user = user; target = translation } ∷ []), true)

-- `old` is the unit at the last synchronisation, `new` the unit of the file. `submitter` is who
-- last changed the unit in the store, and `next_index` is behind the store's last index.
module _ (up : StoreUpdate) (old : Option FileUnit) (new : Option FileUnit) (submitter : ℕ)
    (next_index : ℕ) where
  module _ (u : DbUnit) where
    -- The test reads `comment or ("" != notes)`.
    unfoldable pub db_comment_updated : Bool
    db_comment_updated = elim old [
      | none ↦ true
      | some o ↦ not (or_empty u.translator_comment == "") || not (o.translator_notes == "")
    ]

    unfoldable pub db_state_updated : Bool
    db_state_updated = elim old [
      | none ↦ true
      | some o ↦ not (
          isfuzzy u == o.isfuzzy
          && istranslated u == o.istranslated
          && isobsolete u == o.isobsolete)
    ]

    unfoldable pub db_target_updated : Bool
    db_target_updated = elim old [ none ↦ true | some o ↦ not (u.target == o.target) ]

  unfoldable pub fs_comment_updated : Bool
  fs_comment_updated = elim new [
    | none ↦ false
    | some n ↦ elim old [ none ↦ true | some o ↦ not (n.translator_notes == o.translator_notes) ]
  ]

  -- The source fails on a missing new unit where there is an old one; it asks only where there is
  -- a new unit.
  unfoldable pub fs_state_updated : Bool
  fs_state_updated = elim new [
    | none ↦ false
    | some n ↦ elim old [
      | none ↦ true
      | some o ↦ not (
          n.isfuzzy == o.isfuzzy
          && n.istranslated == o.istranslated
          && n.isobsolete == o.isobsolete)
    ]
  ]

  unfoldable pub fs_target_updated : Bool
  fs_target_updated = elim new [
    | none ↦ false
    | some n ↦ elim old [ none ↦ true | some o ↦ not (n.target == o.target) ]
  ]

  module _ (u : DbUnit) where
    abbrev target_differs : Bool
    target_differs = elim new [ none ↦ false | some n ↦ not (n.target == u.target) ]

    unfoldable pub comment_conflict_found : Bool
    unfolding fs_comment_updated db_comment_updated
    comment_conflict_found = fs_comment_updated && db_comment_updated u

    unfoldable pub state_conflict_found : Bool
    unfolding fs_state_updated db_state_updated
    state_conflict_found = fs_state_updated && db_state_updated u

    unfoldable pub target_conflict_found : Bool
    unfolding fs_target_updated db_target_updated
    target_conflict_found = fs_target_updated && db_target_updated u && target_differs

    unfoldable pub should_create_suggestion : Bool
    unfolding target_conflict_found
    should_create_suggestion = up.suggest_on_conflict && target_conflict_found

    unfoldable pub should_update_comment : Bool
    unfolding comment_conflict_found
    should_update_comment =
        is_some new && fs_comment_updated && not (comment_conflict_found && up.pootle_wins)

    unfoldable pub should_update_index : Bool
    should_update_index = up.change_indices && (elim (lookup u.unitid up.indices) [
      | none ↦ false
      | some index ↦ not (u.index == index)
    ])

    unfoldable pub should_update_source : Bool
    should_update_source = elim new [ none ↦ false | some n ↦ not (u.source == n.source) ]

    unfoldable pub should_update_target : Bool
    unfolding target_conflict_found
    should_update_target =
        is_some new
        && fs_target_updated
        && target_differs
        && not (target_conflict_found && up.pootle_wins)

    unfoldable pub should_update_state : Bool
    unfolding state_conflict_found should_update_target
    should_update_state =
        is_some new
        && fs_state_updated
        && not (db_target_updated u && not should_update_target)
        && not (state_conflict_found && up.pootle_wins)

    unfoldable pub resurrected : Bool
    resurrected = elim new [ none ↦ false | some n ↦ not n.isobsolete && isobsolete u ]

    unfoldable pub should_unobsolete : Bool
    unfolding resurrected
    should_unobsolete = is_some new && resurrected && (elim up.store_revision [
      | none ↦ false
      | some revision ↦ not (ltb revision u.revision && up.pootle_wins)
    ])

    unfoldable pub need_update : Bool
    need_update =
        should_unobsolete
        || (should_update_target
            || (should_update_source || (should_update_state || should_update_comment)))

    -- `self.db_unit.update(self.newunit)`, if it is needed.
    unfoldable pub updated_unit : DbUnit × Bool
    updated_unit = elim new [
      | none ↦ (u, false)
      | some n ↦ if need_update then update next_index n u else (u, false)
    ]

    abbrev pub indexed : DbUnit → DbUnit
    indexed v = elim (lookup u.unitid up.indices) [
      | none ↦ v
      | some index ↦ record v { index = index }
    ]

  -- `create_suggestion`: of the file's target if Pootle wins, and otherwise of the target that the
  -- unit had before.
  unfoldable pub create_suggestion : DbUnit → DbUnit → List Suggestion → List Suggestion × Bool
  create_suggestion original v pending = elim new [
    | none ↦ (pending, false)
    | some n ↦
        if up.pootle_wins
        then add_suggestion v n.target up.user pending
        else add_suggestion v original.target submitter pending
  ]

  -- The index test is a property, and reads the unit as it is after the update. The conflict of the
  -- targets is cached: it was found before the update, unless `should_unobsolete` held, for then
  -- the `or` of `need_update` has not asked for it, and it is found after the update.
  unfoldable pub update_unit : DbUnit → List Suggestion → Updated
  update_unit u pending =
      let (v, updated) = updated_unit u in
      let reordered = should_update_index v in
      let v' = if reordered then indexed v v else v in
      let (pending', suggested) =
        if should_create_suggestion (if should_unobsolete u then v' else u)
        then create_suggestion u v' pending
        else (pending, false) in
      record {
        unit = if updated then record v' { revision = up.update_revision } else v';
        pending = pending';
        changed = updated || reordered;
        suggested = suggested;
      }
