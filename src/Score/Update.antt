-- ===== src/Score/Update.antt =====
-- pootle_score/updater.py: `ScoreUpdater.set_scores` and `update`, for the scores of a store, whose
-- rows stand in a list. The columns that the model gives no value are 0.
pub mod Table
pub mod Daily
pub mod Unique
use pootle.Base.{
  del, get_or, ℕ, ◌+◌, Option, none, some, List, [], ◌∷◌, ◌++◌, ◌==◌, nat_eq, pair_eq,
  if◌then◌else◌, lookup, dict,
}
use pootle.Score.Log.{LogArgs, SuggestionRow, SubmissionRow}
use pootle.Score.Calculate.{
  Settings, Score, score, translations, reviewed, suggested, key_eq, UserScores, Calculated,
  calculate,
}

-- A row of `UserStoreScore` of one store.
pub record ScoreRow : Type 0 where
  pub date : ℕ
  pub user : ℕ
  pub scores : Score

-- `score_dict`.
abbrev pub ScoreDict : Type 0
ScoreDict = List ((ℕ × ℕ) × UserScores)

-- `iterate_scores`.
unfoldable pub iterate_users : ℕ → List (ℕ × UserScores) → ScoreDict
iterate_users date [] = []
iterate_users date ((user, s) ∷ l) = ((date, user), s) ∷ iterate_users date l

unfoldable pub iterate_scores : Calculated → ScoreDict
unfolding iterate_users
iterate_scores [] = []
iterate_scores ((date, users) ∷ l) = iterate_users date users ++ iterate_scores l

-- `if round(oldscore[k], 2) != _newscore: updates[id][k] = _newscore`.
abbrev pub changed : ℕ → Option ℕ → ℕ
changed old new = if old == get_or 0 new then old else get_or 0 new

unfoldable pub updated : ScoreRow → UserScores → ScoreRow
updated r new = record {
  date = r.date;
  user = r.user;
  scores = record {
    score_value = changed r.scores.score_value (lookup score new);
    translated_value = changed r.scores.translated_value (lookup translations new);
    reviewed_value = changed r.scores.reviewed_value (lookup reviewed new);
    suggested_value = changed r.scores.suggested_value (lookup suggested new);
  };
}

-- The rows after `updates`, and what is left of the dict.
unfoldable pub update_rows : List ScoreRow → ScoreDict → List ScoreRow × ScoreDict
unfolding updated del
update_rows [] d = ([], d)
update_rows (r ∷ rows) d =
    let kept = update_rows rows d in
    let rest = update_rows rows (del (r.date, r.user) d) in
    elim (lookup (r.date, r.user) d) [
      | none ↦ (r ∷ kept.0, kept.1)
      | some new ↦ (updated r new ∷ rest.0, rest.1)
    ]

-- The columns of a row, from the dict of a user.
abbrev pub columns : UserScores → Score
columns s = record {
  score_value = get_or 0 (lookup score s);
  translated_value = get_or 0 (lookup translations s);
  reviewed_value = get_or 0 (lookup reviewed s);
  suggested_value = get_or 0 (lookup suggested s);
}

unfoldable pub new_scores : ScoreDict → List ScoreRow
new_scores [] = []
new_scores (((date, user), s) ∷ d) =
    record { date = date; user = user; scores = columns s } ∷ new_scores d

-- `set_scores`, of the scores as `iterate_scores` gives them.
unfoldable pub set_scores : ScoreDict → List ScoreRow → List ScoreRow
unfolding update_rows new_scores
set_scores scores rows =
    let (kept, left) = update_rows rows (dict scores) in kept ++ new_scores left

-- `update` of a store, on its rows.
unfoldable pub update :
    Settings
    → (ℕ → ℕ)
    → LogArgs
    → List SuggestionRow
    → List SubmissionRow
    → List ScoreRow
    → List ScoreRow
unfolding calculate iterate_scores set_scores
update settings localdate a suggestions submissions rows =
    set_scores (iterate_scores (calculate settings localdate a suggestions submissions)) rows
