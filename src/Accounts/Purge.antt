-- ===== src/Accounts/Purge.antt =====
-- pootle/apps/accounts/utils.py: the steps of `UserPurger` that take back reviews and states, and `purge`.
pub mod Gone
use pootle.Base.{
  ℕ, suc, zero, String, Bool, true, false, not, ◌&&◌, ◌||◌, Option, none, some, List, [], ◌∷◌, ◌++◌,
  map, ◌==◌, nat_eq, string_eq, option_eq, if◌then◌else◌, filter, any, is_nonempty, get_or,
}
use pootle.Store.Unit.{UnitState, untranslated, unit_state_eq}
use pootle.Accounts.Site.{
  Site, SiteUnit, UnitChange, Submission, SuggestionEntry, update_changes, change_unit, find_unit,
  latest, later_pk, later_time, by_others, is_unit_edit, is_comment, is_review, is_state_change,
}
use pootle.Accounts.Raise.{Outcome, returned, raised, suggestion_missing, none_added, ◌>>=◌, ◌>>◌}
use pootle.Accounts.Reverts.{
  unit_stores, delete_suggestions, stores_of, remove_units_created, revert_units_edited,
  revert_units_commented,
}

-- `if not unit.target`, and `new_state != unit.state`. The old state, a text, differs from every state.
abbrev pub has_target : ℕ → Site → Bool
has_target unit w = elim (find_unit unit w.units) [ none ↦ false | some u ↦ not (u.target == "") ]

abbrev pub differs : Option Submission → ℕ → Site → Bool
differs (some s) unit w = true
differs none unit w = elim (find_unit unit w.units) [
  | none ↦ false
  | some u ↦ not (u.state == untranslated)
]

-- `suggestion.save()` of a suggestion that is set back to pending, and `review.delete()`.
abbrev pub set_pending : (SuggestionEntry → Bool) → SuggestionEntry → SuggestionEntry
set_pending p s =
    if p s then record s { is_pending = true; reviewer = none; review_time = none } else s

abbrev pub delete_submission : ℕ → Site → Site
delete_submission pk w = record w {
  submissions = filter (λ (s : Submission). not (s.pk == pk)) w.submissions;
}

unfoldable pub find_suggestion : ℕ → List SuggestionEntry → Option SuggestionEntry
find_suggestion pk [] = none
find_suggestion pk (s ∷ l) = if s.pk == pk then some s else find_suggestion pk l

abbrev pub read : Option SuggestionEntry → Outcome SuggestionEntry
read none = raised suggestion_missing
read (some s) = returned s

abbrev pub checked : Bool → Outcome (Unit {0})
checked true = returned tt
checked false = raised none_added

abbrev pub is_latest : Submission → Option Submission → Bool
is_latest s none = false
is_latest s (some t) = t.pk == s.pk

module _ (user : ℕ) where
  unfoldable pub revert_suggestion : SuggestionEntry → Site → Site
  unfolding delete_suggestions
  revert_suggestion s w =
      if s.user == user
      then delete_suggestions (λ t. t.pk == s.pk) w
      else if s.reviewer == some user
      then record w { suggestions = map (set_pending (λ t. t.pk == s.pk)) w.suggestions }
      else w

  -- The first loop of `revert_units_reviewed`. The read of a suggestion that is gone fails.
  unfoldable pub revert_reviews : List Submission → Site → Outcome (Site × List ℕ)
  unfolding revert_suggestion find_suggestion
  revert_reviews [] w = returned (w, [])
  revert_reviews (r ∷ l) w = do
    s ← read (find_suggestion (get_or 0 r.suggestion) w.suggestions)
    rest ← revert_reviews l (delete_submission r.pk (revert_suggestion s w))
    returned (rest.0, unit_stores s.unit w ++ rest.1)

  -- The second loop, one change. With a target and no earlier state, only the revision is written.
  unfoldable pub revert_review : UnitChange → Site → Site
  unfolding latest change_unit update_changes find_unit
  revert_review c w =
      let next = suc w.revision in
      let pending = record w {
        suggestions =
            map
              (λ (s : SuggestionEntry).
                if s.unit == c.unit && s.reviewer == some user
                then record s { is_pending = true; reviewer = none }
                else s)
              w.suggestions;
        revision = next;
      } in
      let old = latest later_time (by_others user c.unit is_state_change) w.submissions in
      if has_target c.unit w
      then elim old [
        | none ↦ record pending {
          units = change_unit c.unit (λ u. record u { revision = next }) w.units;
        }
        | some s ↦ record pending {
          units =
              change_unit c.unit (λ u. record u { state = s.new_state; revision = next }) w.units;
          changes =
              update_changes (λ d. d.pk == c.pk)
                (λ d. record d { reviewed_by = s.submitter; reviewed_on = some s.creation_time })
                w.changes;
        }
      ]
      else record pending {
        units =
            change_unit c.unit (λ u. record u { state = untranslated; revision = next }) w.units;
        changes =
            update_changes (λ d. d.pk == c.pk)
              (λ d. record d { reviewed_by = none; reviewed_on = none }) w.changes;
      }

  unfoldable pub revert_reviewed : List UnitChange → Site → Site
  unfolding revert_review
  revert_reviewed [] w = w
  revert_reviewed (c ∷ l) w = revert_reviewed l (revert_review c w)

  unfoldable pub revert_units_reviewed : Site → Outcome (Site × List ℕ)
  unfolding revert_reviews revert_reviewed stores_of
  revert_units_reviewed w = do
    reviews ← revert_reviews (filter (λ s. s.submitter == some user && is_review s) w.submissions) w
    let reviewed = filter (λ (c : UnitChange). c.reviewed_by == some user) reviews.0.changes
    returned (revert_reviewed reviewed reviews.0, reviews.1 ++ stores_of reviewed reviews.0)

  -- `revert_units_state_changed`, one submission. The state is set on the object that was read and not
  -- stored; its revision is.
  unfoldable pub revert_state : Submission → Site → Site
  unfolding latest find_unit change_unit
  revert_state s w =
      let rest = delete_submission s.pk w in
      if differs (latest later_pk (by_others user s.unit is_state_change) rest.submissions) s.unit w
      then record rest {
        units = change_unit s.unit (λ u. record u { revision = suc w.revision }) w.units;
        revision = suc w.revision;
      }
      else rest

  -- At a submission that is not its unit's latest the loop returns `None`, which the caller adds to a set.
  unfoldable pub revert_states : List Submission → Site → Outcome (Site × List ℕ)
  unfolding revert_state latest
  revert_states [] w = returned (w, [])
  revert_states (s ∷ l) w = do
    checked
        (is_latest s (latest later_pk (λ t. t.unit == s.unit && is_state_change t) w.submissions))
    rest ← revert_states l (revert_state s w)
    returned (rest.0, unit_stores s.unit w ++ rest.1)

  unfoldable pub revert_units_state_changed : Site → Outcome (Site × List ℕ)
  unfolding revert_states
  revert_units_state_changed w =
      revert_states (filter (λ s. s.submitter == some user && is_state_change s) w.submissions) w

  -- The deletions at the end of `purge`.
  unfoldable pub delete_remaining : Site → Site
  unfolding delete_suggestions
  delete_remaining w =
      delete_suggestions (λ s. s.user == user)
        (record w {
          submissions = filter (λ (s : Submission). not (s.submitter == some user)) w.submissions;
        })

  -- `purge`, with the stores whose data it then updates.
  unfoldable pub purge : Site → Outcome (Site × List ℕ)
  unfolding remove_units_created revert_units_edited revert_units_reviewed revert_units_commented
      revert_units_state_changed delete_remaining
  purge w = do
    let created = remove_units_created user w
    let edited = revert_units_edited user created.0
    reviewed ← revert_units_reviewed edited.0
    let commented = revert_units_commented user reviewed.0
    changed ← revert_units_state_changed commented.0
    returned (
      delete_remaining changed.0,
      created.1 ++ edited.1 ++ reviewed.1 ++ commented.1 ++ changed.1,
    )
