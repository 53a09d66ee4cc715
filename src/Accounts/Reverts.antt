-- ===== src/Accounts/Reverts.antt =====
-- pootle/apps/accounts/utils.py: the steps of `UserPurger` that delete units and take back edits and
-- comments. A step gives the site and the stores of the units it
-- saw. The loops run over the rows that their query read first, on the tables as the steps before left them.
pub mod Edits
use pootle.Base.{
  ℕ, suc, zero, String, Bool, true, false, not, ◌&&◌, ◌||◌, Option, none, some, List, [], ◌∷◌, ◌++◌,
  map, ◌==◌, nat_eq, string_eq, option_eq, if◌then◌else◌, filter, any, is_nonempty, get_or,
}
use pootle.Store.Unit.{UnitState, untranslated}
use pootle.Accounts.Site.{
  Site, SiteUnit, UnitChange, Submission, SuggestionEntry, update_changes, change_unit, find_unit,
  latest, later_pk, later_time, by_others, is_unit_edit, is_comment, is_review, is_state_change,
}

-- The units' stores, and the creation time of a unit.
abbrev pub unit_stores : ℕ → Site → List ℕ
unit_stores unit w = elim (find_unit unit w.units) [ none ↦ [] | some u ↦ u.store ∷ [] ]

abbrev pub created_on : ℕ → Site → Option ℕ
created_on unit w = elim (find_unit unit w.units) [ none ↦ none | some u ↦ some u.creation_time ]

-- A suggestion is deleted with the submissions about it, and a unit with all that is kept of it.
unfoldable pub delete_suggestions : (SuggestionEntry → Bool) → Site → Site
delete_suggestions p w =
    let gone = filter p w.suggestions in
    record w {
      suggestions = filter (λ s. not (p s)) w.suggestions;
      submissions =
          filter (λ s. not (any (λ (g : SuggestionEntry). s.suggestion == some g.pk) gone))
            w.submissions;
    }

unfoldable pub delete_unit : ℕ → Site → Site
unfolding delete_suggestions
delete_unit unit w =
    let rest = delete_suggestions (λ s. s.unit == unit) w in
    record rest {
      units = filter (λ (u : SiteUnit). not (u.id == unit)) w.units;
      changes = filter (λ (c : UnitChange). not (c.unit == unit)) w.changes;
      submissions = filter (λ (s : Submission). not (s.unit == unit)) rest.submissions;
    }

-- `revert_units_edited`, one change: the latest edit by others is taken back, or the target is emptied.
unfoldable pub revert_edit : UnitChange → Option Submission → Site → Site
unfolding update_changes change_unit
revert_edit c (some s) w = record w {
  changes =
      update_changes (λ d. d.pk == c.pk)
        (λ d. record d { submitted_by = s.submitter; submitted_on = some s.creation_time })
        w.changes;
  units =
      change_unit c.unit (λ u. record u { target = s.new_value; revision = suc w.revision })
        w.units;
  revision = suc w.revision;
}
revert_edit c none w = record w {
  changes =
      update_changes (λ d. d.pk == c.pk)
        (λ d. record d { submitted_by = none; submitted_on = created_on c.unit w }) w.changes;
  units = change_unit c.unit (λ u. record u { target = ""; revision = suc w.revision }) w.units;
  revision = suc w.revision;
}

unfoldable pub stores_of : List UnitChange → Site → List ℕ
unfolding find_unit
stores_of [] w = []
stores_of (c ∷ l) w = unit_stores c.unit w ++ stores_of l w

-- `revert_units_commented`, one change.
unfoldable pub revert_comment : UnitChange → Option Submission → Site → Site
unfolding update_changes change_unit
revert_comment c (some s) w = record w {
  changes =
      update_changes (λ d. d.pk == c.pk)
        (λ d. record d { commented_by = s.submitter; commented_on = some s.creation_time })
        w.changes;
  units =
      change_unit c.unit
        (λ u. record u { translator_comment = s.new_value; revision = suc w.revision }) w.units;
  revision = suc w.revision;
}
revert_comment c none w = record w {
  changes =
      update_changes (λ d. d.pk == c.pk)
        (λ d. record d { commented_by = none; commented_on = none }) w.changes;
  units =
      change_unit c.unit (λ u. record u { translator_comment = ""; revision = suc w.revision })
        w.units;
  revision = suc w.revision;
}

module _ (user : ℕ) where
  -- `remove_units_created`: a unit that others worked on is left.
  unfoldable pub remove_created : List SiteUnit → Site → Site
  unfolding delete_unit
  remove_created [] w = w
  remove_created (u ∷ l) w =
      remove_created l
        (if any (by_others user u.id (λ s. true)) w.submissions then w else delete_unit u.id w)

  unfoldable pub remove_units_created : Site → Site × List ℕ
  unfolding remove_created
  remove_units_created w =
      let created = filter (λ (u : SiteUnit). u.created_by == user) w.units in
      (remove_created created w, map (λ (u : SiteUnit). u.store) created)

  unfoldable pub revert_edits : List UnitChange → Site → Site
  unfolding revert_edit latest
  revert_edits [] w = w
  revert_edits (c ∷ l) w =
      revert_edits l
        (revert_edit c (latest later_pk (by_others user c.unit is_unit_edit) w.submissions) w)

  unfoldable pub revert_units_edited : Site → Site × List ℕ
  unfolding revert_edits stores_of
  revert_units_edited w =
      let edited = filter (λ (c : UnitChange). c.submitted_by == some user) w.changes in
      (revert_edits edited w, stores_of edited w)

  unfoldable pub revert_comments : List UnitChange → Site → Site
  unfolding revert_comment latest
  revert_comments [] w = w
  revert_comments (c ∷ l) w =
      revert_comments l
        (revert_comment c (latest later_pk (by_others user c.unit is_comment) w.submissions) w)

  unfoldable pub revert_units_commented : Site → Site × List ℕ
  unfolding revert_comments stores_of
  revert_units_commented w =
      let commented = filter (λ (c : UnitChange). c.commented_by == some user) w.changes in
      (revert_comments commented w, stores_of commented w)
