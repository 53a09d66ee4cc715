-- ===== src/Score/Tests.antt =====
-- The theorems about scores at small data.
use pootle.Base.{
  or_else, Option, ℕ, ◌≡◌, ◌+◌, ◌<◌, refl, true, false, some, none, List, [], ◌∷◌, ◌==◌, nat_eq,
  pair_eq, if◌then◌else◌, ltb, any, lookup, dict, arith,
}
use pootle.Store.Unit.{untranslated, translated}
use pootle.Score.Log.{
  EventAction, suggestion_created, target_updated, LogArgs, SuggestionRow, SubmissionRow, accepted,
  target, state, filter_users, in_range,
}
use pootle.Score.Log.Order.{ComparableLogEvent, before, cmp}
use pootle.Score.Calculate.{Settings, score, suggested, calculate}
use pootle.Score.Calculate.Sums.{value}
use pootle.Score.Calculate.Points.{suggestions_points, submissions_points}
use pootle.Score.Update.{ScoreRow, ScoreDict, iterate_scores, set_scores, update}
use pootle.Score.Update.Table.{row_of, column_of, column_row, row_of-set_scores}
use pootle.Score.Update.Daily.{update-points}
use pootle.Score.Update.Unique.{IsUnique, IsUnique-set_scores}
use pootle.Score.Totals.{update_tp, user_scores, set_user_scores}
use pootle.Score.Totals.Sums.{column_sum, update_tp-sums, is_recent, lapsed_score_stays}

abbrev settings : Settings
settings = record {
  suggestion_add = 50;
  suggestion_accept = 30;
  suggestion_reject = 20;
  comment_update = 10;
  target_update = 100;
  state_translated = 100;
  state_fuzzy = 20;
  state_unfuzzy = 20;
}

-- A day is ten units of time.
abbrev localdate : ℕ → ℕ
localdate t = if ltb t 10 then 0 else 1

-- User 7 suggests on day 0, and user 8 accepts on day 1.
abbrev suggestions : List SuggestionRow
suggestions =
    record { user = 7; creation_time = some 5; review = accepted 8 15; wordcount = 3 } ∷ []

-- User 7 translates a unit on day 0, and marks another.
abbrev submissions : List SubmissionRow
submissions =
    record {
      submitter = 7;
      creation_time = 6;
      field = target;
      old_value = none;
      new_value = none;
      wordcount = 4;
    }
    ∷ record {
      submitter = 7;
      creation_time = 7;
      field = state;
      old_value = some untranslated;
      new_value = some translated;
      wordcount = 9;
    }
    ∷ []

-- Day 0 of user 7.
abbrev day_args : LogArgs
day_args = record { start = some 0; end = some 10; users = 7 ∷ []; is_meta = λ u. u == 1 }

covered : (t : ℕ) → (localdate t == 0) ≡ true → in_range day_args t ≡ true
unfolding in_range
covered t h = ground arith

seen : filter_users day_args 7 ≡ true
unfolding filter_users
seen = refl

calculated : value (calculate settings localdate day_args suggestions submissions) 0 7 score ≡ 550
unfolding calculate
calculated = refl

-- A row of the day before, which is not as the events have it, and one of another user.
abbrev old_rows : List ScoreRow
old_rows =
    record {
      date = 0;
      user = 7;
      scores = record {
        score_value = 150;
        translated_value = 0;
        reviewed_value = 0;
        suggested_value = 3;
      };
    }
    ∷ record {
      date = 0;
      user = 9;
      scores = record {
        score_value = 70;
        translated_value = 1;
        reviewed_value = 0;
        suggested_value = 0;
      };
    }
    ∷ []

some_points :
    0
    < suggestions_points settings localdate 0 7 suggested suggestions
      + submissions_points settings localdate 0 7 suggested submissions
unfolding suggestions_points submissions_points
some_points = ground arith

update-points_example :
    column_of score
      (row_of (0, 7) (update settings localdate day_args suggestions submissions old_rows))
    ≡ suggestions_points settings localdate 0 7 score suggestions
      + submissions_points settings localdate 0 7 score submissions
update-points_example =
    update-points settings localdate day_args suggestions submissions old_rows 0 7 score suggested
      seen covered some_points

abbrev given : ScoreDict
given = ((0, 7), (score, 550) ∷ []) ∷ []

row_of-set_scores_example :
    row_of (0, 9) (set_scores given old_rows)
    ≡ or_else (column_row (lookup (0, 9) (dict given))) (row_of (0, 9) old_rows)
row_of-set_scores_example = row_of-set_scores given old_rows (0, 9)

old_rows-IsUnique : IsUnique old_rows
unfolding IsUnique
old_rows-IsUnique = (refl, (refl, tt))

IsUnique-set_scores_example : IsUnique (
    set_scores
      (iterate_scores (calculate settings localdate day_args suggestions submissions))
      old_rows)
IsUnique-set_scores_example =
    IsUnique-set_scores
      (iterate_scores (calculate settings localdate day_args suggestions submissions)) old_rows
      old_rows-IsUnique

-- The rows of two stores, with two of user 7 on day 0.
abbrev store_rows : List ScoreRow
store_rows =
    record {
      date = 0;
      user = 7;
      scores = record {
        score_value = 20;
        translated_value = 5;
        reviewed_value = 0;
        suggested_value = 1;
      };
    }
    ∷ old_rows

update_tp-sums_example :
    column_of score (row_of (0, 7) (update_tp (7 ∷ []) store_rows []))
    ≡ column_sum score (0, 7) store_rows
update_tp-sums_example = update_tp-sums (7 ∷ []) store_rows [] 0 7 score refl refl

none_recent : any (is_recent 90 7) store_rows ≡ false
unfolding is_recent
none_recent = refl

abbrev shown : List (ℕ × ℕ)
shown = (7, 170) ∷ []

lapsed_score_stays_example :
    lookup 7 (set_user_scores (user_scores 90 [] store_rows) shown) ≡ lookup 7 shown
lapsed_score_stays_example = lapsed_score_stays 90 [] 7 store_rows shown none_recent

-- Three events, of which the second has no revision: each is before the next, and the last before
-- the first.
abbrev event : Option ℕ → ℕ → EventAction → ComparableLogEvent
event revision time action = record {
  revision = revision;
  timestamp = some time;
  action = action;
  value_pk = 1;
  unit_pk = 1;
}

cyclic :
    (cmp (event (some 2) 10 target_updated) (event none 20 suggestion_created) ≡ before)
    × (cmp (event none 20 suggestion_created) (event (some 1) 30 target_updated) ≡ before)
    × (cmp (event (some 1) 30 target_updated) (event (some 2) 10 target_updated) ≡ before)
unfolding cmp
cyclic = (refl, refl, refl)
