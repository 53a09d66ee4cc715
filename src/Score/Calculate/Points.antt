-- ===== src/Score/Calculate/Points.antt =====
-- The points of a user on a day, from the rows and not from events, and that `calculate` gives them.
use pootle.Base.{
  ℕ, ◌+◌, ◌*◌, true, false, ◌&&◌, Option, none, some, List, [], ◌∷◌, ◌==◌, ◌≡◌, refl, ap, arith,
  nat_eq, if◌then◌else◌,
}
use pootle.Score.Log.{
  Event, LogArgs, SuggestionRow, SubmissionRow, Review, pending, accepted, rejected, Field, source,
  target, state, comment, check, other, filter_users, in_range, get_events, get_suggestion_events,
  get_submission_events, is_filtered_suggestion, is_filtered_submission, suggestion_events,
  add_events, review_events, submission_event, among, reviewed_in, event_name, event_of,
  suggestion_created, suggestion_accepted, suggestion_rejected,
}
use pootle.Score.Calculate.{
  Settings, ScoreKey, score, translations, reviewed, suggested, get_score, calculate,
}
use pootle.Score.Calculate.Sums.{value, total, total-append, value-score_events, gain, gained}

-- What each act gives for a word, by the key.
abbrev created_points : Settings → ScoreKey → ℕ
created_points s score = s.suggestion_add
created_points s suggested = 1
created_points s _ = 0

abbrev accepted_points : Settings → ScoreKey → ℕ
accepted_points s score = s.suggestion_accept
accepted_points s reviewed = 1
accepted_points s _ = 0

abbrev rejected_points : Settings → ScoreKey → ℕ
rejected_points s score = s.suggestion_reject
rejected_points s reviewed = 1
rejected_points s _ = 0

abbrev field_points : Settings → Field → ScoreKey → ℕ
field_points s target score = s.target_update
field_points s target translations = 1
field_points s comment score = s.comment_update
field_points s _ _ = 0

created-points :
    (s : Settings) (e : Event) (k : ScoreKey)
    → gained (get_score s e suggestion_created) k ≡ created_points s k * e.wordcount
unfolding get_score
created-points s e score = refl
created-points s e translations = ground arith
created-points s e reviewed = ground arith
created-points s e suggested = ground arith

accepted-points :
    (s : Settings) (e : Event) (k : ScoreKey)
    → gained (get_score s e suggestion_accepted) k ≡ accepted_points s k * e.wordcount
unfolding get_score
accepted-points s e score = refl
accepted-points s e translations = ground arith
accepted-points s e reviewed = ground arith
accepted-points s e suggested = ground arith

rejected-points :
    (s : Settings) (e : Event) (k : ScoreKey)
    → gained (get_score s e suggestion_rejected) k ≡ rejected_points s k * e.wordcount
unfolding get_score
rejected-points s e score = refl
rejected-points s e translations = ground arith
rejected-points s e reviewed = ground arith
rejected-points s e suggested = ground arith

field-points :
    (s : Settings) (e : Event) (f : Field) (k : ScoreKey)
    → gained (get_score s e (event_name f)) k ≡ field_points s f k * e.wordcount
unfolding get_score event_name
field-points s e target score = refl
field-points s e target translations = ground arith
field-points s e target reviewed = ground arith
field-points s e target suggested = ground arith
field-points s e comment score = refl
field-points s e comment translations = ground arith
field-points s e comment reviewed = ground arith
field-points s e comment suggested = ground arith
field-points s e source k = ground arith
field-points s e state k = ground arith
field-points s e (check true) k = ground arith
field-points s e (check false) k = ground arith
field-points s e other k = ground arith

-- The points of one user on one day: an act of another user or day gives none.
module _ (settings : Settings) (localdate : ℕ → ℕ) (d u : ℕ) (k : ScoreKey) where
  abbrev credit : ℕ → ℕ → ℕ → ℕ
  credit user time n = if localdate time == d && user == u then n else 0

  abbrev review_points : Review → ℕ → ℕ
  review_points pending words = 0
  review_points (accepted user time) words = credit user time (accepted_points settings k * words)
  review_points (rejected user time) words = credit user time (rejected_points settings k * words)

  abbrev suggestion_points : SuggestionRow → ℕ
  suggestion_points s = elim s.creation_time [
    | none ↦ 0
    | some time ↦
        credit s.user time (created_points settings k * s.wordcount)
        + review_points s.review s.wordcount
  ]

  unfoldable pub suggestions_points : List SuggestionRow → ℕ
  suggestions_points [] = 0
  suggestions_points (s ∷ l) = suggestion_points s + suggestions_points l

  unfoldable pub submissions_points : List SubmissionRow → ℕ
  submissions_points [] = 0
  submissions_points (s ∷ l) =
      credit s.submitter s.creation_time (field_points settings s.field k * s.wordcount)
      + submissions_points l

  abbrev sum : List Event → ℕ
  sum = total settings localdate d u k

  gain-event :
      (e : Event) (n : ℕ)
      → gained (get_score settings e e.action) k ≡ n
      → gain settings localdate d u k e ≡ credit e.user e.timestamp n
  unfolding gain
  gain-event e n same = ap (λ n. if localdate e.timestamp == d && e.user == u then n else 0) same

  module _ (a : LogArgs) (seen : filter_users a u ≡ true)
      (covered : (t : ℕ) → (localdate t == d) ≡ true → in_range a t ≡ true) where
    among-seen : among a u ≡ true
    unfolding filter_users
    among-seen = ground arith

    sum-add_events :
        (s : SuggestionRow) (time : ℕ)
        → s.creation_time ≡ some time
        → sum (add_events a s) ≡ credit s.user time (created_points settings k * s.wordcount)
    unfolding add_events total
    sum-add_events s time h =
        let e = event_of s suggestion_created s.user time in
        ground (
          arith,
          gain-event e _ (created-points settings e k),
          among-seen,
          covered time,
          nat_eq.eqb_iff s.user u,
        )

    sum-review_events :
        (s : SuggestionRow) (r : Review) → sum (review_events a s r) ≡ review_points r s.wordcount
    unfolding review_events total
    sum-review_events s pending = refl
    sum-review_events s (accepted user time) =
        let e = event_of s suggestion_accepted user time in
        ground (
          arith,
          gain-event e _ (accepted-points settings e k),
          among-seen,
          covered time,
          nat_eq.eqb_iff user u,
        )
    sum-review_events s (rejected user time) =
        let e = event_of s suggestion_rejected user time in
        ground (
          arith,
          gain-event e _ (rejected-points settings e k),
          among-seen,
          covered time,
          nat_eq.eqb_iff user u,
        )

    credit-not_filtered :
        (user time n : ℕ)
        → (filter_users a user && in_range a time) ≡ false
        → credit user time n ≡ 0
    credit-not_filtered user time n h = ground (arith, seen, covered time, nat_eq.eqb_iff user u)

    review-not_filtered : (r : Review) (n : ℕ) → reviewed_in a r ≡ false → review_points r n ≡ 0
    review-not_filtered pending n h = refl
    review-not_filtered (accepted user time) n h = credit-not_filtered user time _ h
    review-not_filtered (rejected user time) n h = credit-not_filtered user time _ h

    sum-suggestion_events :
        (s : SuggestionRow) (c : Option ℕ)
        → s.creation_time ≡ c
        → sum (suggestion_events a s) ≡ suggestion_points s
    unfolding suggestion_events is_filtered_suggestion total
    sum-suggestion_events s none h = ground arith
    sum-suggestion_events s (some time) h = ground (
      arith,
      sum-add_events s time h,
      sum-review_events s s.review,
      total-append settings localdate d u k (add_events a s) (review_events a s s.review),
      credit-not_filtered s.user time (created_points settings k * s.wordcount),
      review-not_filtered s.review s.wordcount,
    )

    sum-get_suggestion_events :
        (l : List SuggestionRow) → sum (get_suggestion_events a l) ≡ suggestions_points l
    unfolding get_suggestion_events suggestions_points total
    sum-get_suggestion_events [] = refl
    sum-get_suggestion_events (s ∷ l) = ground (
      arith,
      total-append settings localdate d u k (suggestion_events a s) (get_suggestion_events a l),
      sum-suggestion_events s s.creation_time refl,
      sum-get_suggestion_events l,
    )

    sum-get_submission_events :
        (l : List SubmissionRow) → sum (get_submission_events a l) ≡ submissions_points l
    unfolding get_submission_events submissions_points submission_event is_filtered_submission total
    sum-get_submission_events [] = refl
    sum-get_submission_events (s ∷ l) = ground (
      arith,
      gain-event (submission_event s) _ (field-points settings (submission_event s) s.field k),
      credit-not_filtered s.submitter s.creation_time
          (field_points settings s.field k * s.wordcount),
      sum-get_submission_events l,
    )

    -- For a user that the arguments of calculate let through, and a day whose whole range
    -- they cover, the calculated score is the sum of the points that the suggestions and
    -- submissions of the store give the user on that day, whatever else the arguments ask
    -- for; a change of state gives none.
    pub value-calculate :
        (suggestions : List SuggestionRow) (submissions : List SubmissionRow)
        → value (calculate settings localdate a suggestions submissions) d u k
          ≡ suggestions_points suggestions + submissions_points submissions
    unfolding calculate get_events
    value-calculate suggestions submissions = ground (
      arith,
      value-score_events settings localdate d u k (get_events a suggestions submissions) [],
      total-append settings localdate d u k (get_suggestion_events a suggestions)
          (get_submission_events a submissions),
      sum-get_suggestion_events suggestions,
      sum-get_submission_events submissions,
    )
