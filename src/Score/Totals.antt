-- ===== src/Score/Totals.antt =====
-- pootle_score/updater.py: `TPScoreUpdater` and `UserScoreUpdater`, which add up the rows below
-- them. Of a TP's stores the rows stand in one list.
pub mod Sums
use pootle.Base.{
  get_or, ℕ, ◌+◌, ◌-◌, Bool, true, List, [], ◌∷◌, nat_eq, pair_eq, if◌then◌else◌, leb, is_nonempty,
  contains, lookup, insert,
}
use pootle.Score.Calculate.{Score, score, translations, reviewed, suggested, UserScores}
use pootle.Score.Update.{ScoreRow, ScoreDict, set_scores}

-- `filter_users`.
abbrev pub is_of_users : List ℕ → ℕ → Bool
is_of_users users user = if is_nonempty users then contains user users else true

-- The four `Sum`s of a group.
abbrev pub no_scores : Score
no_scores = record {
  score_value = 0;
  translated_value = 0;
  reviewed_value = 0;
  suggested_value = 0;
}

abbrev pub add_columns : Score → Score → Score
add_columns a b = record {
  score_value = a.score_value + b.score_value;
  translated_value = a.translated_value + b.translated_value;
  reviewed_value = a.reviewed_value + b.reviewed_value;
  suggested_value = a.suggested_value + b.suggested_value;
}

-- The rows of the users, grouped by their dates and users.
unfoldable pub grouped : List ℕ → List ScoreRow → List ((ℕ × ℕ) × Score)
grouped users [] = []
grouped users (r ∷ rows) =
    let rest = grouped users rows in
    if is_of_users users r.user
    then insert (r.date, r.user)
        (add_columns r.scores (get_or no_scores (lookup (r.date, r.user) rest))) rest
    else rest

-- A group as `values` gives it.
abbrev pub as_dict : Score → UserScores
as_dict s =
    (score, s.score_value)
    ∷ (translations, s.translated_value)
    ∷ (reviewed, s.reviewed_value)
    ∷ (suggested, s.suggested_value)
    ∷ []

unfoldable pub group_scores : List ((ℕ × ℕ) × Score) → ScoreDict
group_scores [] = []
group_scores ((k, s) ∷ d) = (k, as_dict s) ∷ group_scores d

-- `update` of a TP: the rows of its stores, and its own.
unfoldable pub update_tp : List ℕ → List ScoreRow → List ScoreRow → List ScoreRow
unfolding grouped group_scores set_scores
update_tp users store_rows rows = set_scores (group_scores (grouped users store_rows)) rows

-- `UserScoreUpdater.calculate`, of the rows of all TPs: a user's `score`s of the last 30 days.
unfoldable pub user_scores : ℕ → List ℕ → List ScoreRow → List (ℕ × ℕ)
user_scores today users [] = []
user_scores today users (r ∷ rows) =
    let rest = user_scores today users rows in
    if leb (today - 30) r.date
    then if is_of_users users r.user
      then insert r.user (r.scores.score_value + get_or 0 (lookup r.user rest)) rest
      else rest
    else rest

-- `UserScoreUpdater.set_scores`, of the `score` of each user.
unfoldable pub set_user_scores : List (ℕ × ℕ) → List (ℕ × ℕ) → List (ℕ × ℕ)
set_user_scores calculated [] = []
set_user_scores calculated ((user, old) ∷ scores) =
    (user, get_or old (lookup user calculated)) ∷ set_user_scores calculated scores
