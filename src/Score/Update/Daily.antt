-- ===== src/Score/Update/Daily.antt =====
-- What an update of a store's scores leaves in its rows for one user and day.
use pootle.Base.{
  or_else, get_or, ℕ, ◌+◌, ◌<◌, true, Option, none, some, List, [], ◌∷◌, ◌++◌, ◌==◌, nat_eq,
  pair_eq, if◌then◌else◌, lookup, insert, insert_all, keys, values, ◌≡◌, refl, ap, sym, ◌∙◌, subst,
  arith, Bool-cases, Option-cases, inl, inr, lookup-insert, lookup-of-absent, Distinct,
  Distinct-keys-insert, All,
}
use pootle.Score.Log.{
  LogArgs, SuggestionRow, SubmissionRow, filter_users, in_range, get_events, Event,
}
use pootle.Score.Calculate.{
  Settings, Score, ScoreKey, score, translations, reviewed, suggested, key_eq, UserScores,
  Calculated, add_score, any_positive, score_event, score_events, calculate, get_score,
}
use pootle.Score.Calculate.Sums.{value, part}
use pootle.Score.Calculate.Points.{suggestions_points, submissions_points, value-calculate}
use pootle.Score.Update.{
  ScoreRow, ScoreDict, iterate_users, iterate_scores, columns, set_scores, update,
}
use pootle.Score.Update.Table.{row_of, column_of, row_of-set_scores}

-- The dict of days and those of their users have each key once.
record IsDict (c : Calculated) : Type 0 where
  days : Distinct (keys c)
  users : All (λ users. Distinct (keys users)) (values c)

All-values-insert :
    {V : Type 0} (P : V → Type 0) (k : ℕ) (v : V) (d : List (ℕ × V))
    → P v
    → All P (values d)
    → All P (values (insert k v d))
All-values-insert P k v [] p h = (p, tt)
All-values-insert P k v ((j, w) ∷ d) p h = elim (Bool-cases (j == k)) [
  | inl same ↦ rw same (p, h.1)
  | inr other ↦ rw other (h.0, All-values-insert P k v d p h.1)
]

Distinct-get_or :
    (k : ℕ) (c : Calculated)
    → All (λ users. Distinct (keys users)) (values c)
    → Distinct (keys (get_or [] (lookup k c)))
Distinct-get_or k [] h = tt
Distinct-get_or k ((j, w) ∷ c) h = elim (Bool-cases (j == k)) [
  | inl same ↦ rw same h.0
  | inr other ↦ rw other (Distinct-get_or k c h.1)
]

IsDict-add_score :
    (day user : ℕ) (s : Option Score) (c : Calculated) → IsDict c → IsDict (add_score day user s c)
unfolding add_score
IsDict-add_score day user none c h = h
IsDict-add_score day user (some s) c h = elim (Bool-cases (any_positive s)) [
  | inl positive ↦ rw positive (record {
    days = Distinct-keys-insert day _ c h.days;
    users =
        All-values-insert (λ users. Distinct (keys users)) day _ c
          (Distinct-keys-insert user _ _ (Distinct-get_or day c h.users)) h.users;
  })
  | inr zero ↦ rw zero h
]

module _ (settings : Settings) (localdate : ℕ → ℕ) where
  IsDict-score_events :
      (es : List Event) (c : Calculated) → IsDict c → IsDict (score_events settings localdate es c)
  unfolding score_events score_event
  IsDict-score_events [] c h = h
  IsDict-score_events (e ∷ es) c h =
      IsDict-score_events es _ (IsDict-add_score _ _ (get_score settings e e.action) c h)

  IsDict-calculate :
      (a : LogArgs) (suggestions : List SuggestionRow) (submissions : List SubmissionRow)
      → IsDict (calculate settings localdate a suggestions submissions)
  unfolding calculate
  IsDict-calculate a suggestions submissions =
      IsDict-score_events (get_events a suggestions submissions) []
        (record { days = tt; users = tt })

-- The dict of `score_dict` holds what the nested dicts hold.
lookup-users :
    (day user e : ℕ) (acc : ScoreDict) (users : List (ℕ × UserScores))
    → Distinct (keys users)
    → lookup (day, user) (insert_all acc (iterate_users e users)) ≡ (
        if e == day
        then or_else (lookup user users) (lookup (day, user) acc)
        else lookup (day, user) acc)
unfolding iterate_users
lookup-users day user e acc [] h = ground arith
lookup-users day user e acc ((v, s) ∷ users) h = ground (
  arith,
  lookup-users day user e (insert (e, v) s acc) users h.1,
  lookup-insert (day, user) (e, v) s acc,
  nat_eq.eqb_iff e day,
  nat_eq.eqb_iff v user,
  lookup-of-absent v users h.0,
)

insert_all-append :
    (acc a b : ScoreDict) → insert_all acc (a ++ b) ≡ insert_all (insert_all acc a) b
insert_all-append acc [] b = refl
insert_all-append acc ((k, v) ∷ a) b = insert_all-append (insert k v acc) a b

lookup-scores :
    (day user : ℕ) (acc : ScoreDict) (c : Calculated)
    → IsDict c
    → lookup (day, user) (insert_all acc (iterate_scores c))
      ≡ or_else (lookup user (get_or [] (lookup day c))) (lookup (day, user) acc)
unfolding iterate_scores
lookup-scores day user acc [] h = refl
lookup-scores day user acc ((e, users) ∷ c) h =
    let inner = insert_all acc (iterate_users e users) in
    ap (lookup (day, user)) (insert_all-append acc (iterate_users e users) (iterate_scores c))
    ∙ lookup-scores day user inner c (record { days = h.days.1; users = h.users.1 })
    ∙ in_first
  where
    in_first :
        or_else
          (lookup user (get_or [] (lookup day c)))
          (lookup (day, user) (insert_all acc (iterate_users e users)))
        ≡ or_else
            (lookup user (get_or [] (if e == day then some users else lookup day c)))
            (lookup (day, user) acc)
    in_first = elim (Bool-cases (e == day)) [
      | inl same ↦
          let gone =
            ap (λ x. lookup x c) (sym ((nat_eq.eqb_iff e day).0 same))
            ∙ lookup-of-absent e c h.days.0 in
          rw gone (lookup-users day user e acc users h.users.0 ∙ rw same refl)
      | inr other ↦ rw other (
          ap (or_else (lookup user (get_or [] (lookup day c))))
            (lookup-users day user e acc users h.users.0 ∙ rw other refl))
    ]

part-columns : (k : ScoreKey) (new : UserScores) → part k (columns new) ≡ get_or 0 (lookup k new)
part-columns score new = refl
part-columns translations new = refl
part-columns reviewed new = refl
part-columns suggested new = refl

-- The row of a user with a score of the day is the score.
row_of-scored :
    (c : Calculated) (rows : List ScoreRow) (d u : ℕ) (k j : ScoreKey)
    → IsDict c
    → 0 < value c d u j
    → column_of k (row_of (d, u) (set_scores (iterate_scores c) rows)) ≡ value c d u k
row_of-scored c rows d u k j h some_score =
    elim (Option-cases (lookup u (get_or [] (lookup d c)))) [
      | inl absent ↦ ground (arith, absent)
      | inr (new, found) ↦
          ap (column_of k) (row_of-set_scores (iterate_scores c) rows (d, u))
          ∙ rw (lookup-scores d u [] c h) (rw found (part-columns k new))
    ]

-- After the update of a store's scores for arguments that let a user through and cover a day, on
-- which the user has points for some key, the user's row of that day holds, in every column, the
-- points that the suggestions and submissions give, whatever the rows were before.
pub update-points :
    (settings : Settings) (localdate : ℕ → ℕ) (a : LogArgs) (suggestions : List SuggestionRow)
    (submissions : List SubmissionRow) (rows : List ScoreRow) (d u : ℕ) (k j : ScoreKey)
    → filter_users a u ≡ true
    → ((t : ℕ) → (localdate t == d) ≡ true → in_range a t ≡ true)
    → 0
      < suggestions_points settings localdate d u j suggestions
        + submissions_points settings localdate d u j submissions
    → column_of k (row_of (d, u) (update settings localdate a suggestions submissions rows))
      ≡ suggestions_points settings localdate d u k suggestions
        + submissions_points settings localdate d u k submissions
unfolding update
update-points settings localdate a suggestions submissions rows d u k j seen covered some_points =
    let c = calculate settings localdate a suggestions submissions in
    let at = λ (k : ScoreKey).
      value-calculate settings localdate d u k a seen covered suggestions submissions in
    row_of-scored c rows d u k j (IsDict-calculate settings localdate a suggestions submissions)
      (subst (λ n. 0 < n) (sym (at j)) some_points)
    ∙ at k
