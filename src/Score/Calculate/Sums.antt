-- ===== src/Score/Calculate/Sums.antt =====
-- What the dicts of `calculate` hold: for a day, a user and a key the sum over the rows.
use pootle.Base.{
  get_or, ℕ, ◌+◌, false, ◌&&◌, Option, none, some, List, [], ◌∷◌, ◌++◌, ◌==◌, ◌≡◌, arith, nat_eq,
  if◌then◌else◌, lookup, insert, lookup-insert, Bool-cases, inl, inr,
}
use pootle.Score.Log.{Event}
use pootle.Score.Calculate.{
  Settings, Score, ScoreKey, score, translations, reviewed, suggested, key_eq, get_score,
  add_scores, add_key, add_score, any_positive, UserScores, Calculated, score_event, score_events,
}

-- The score of a user on a day, 0 where there is none.
abbrev pub value : Calculated → ℕ → ℕ → ScoreKey → ℕ
value c d u k = get_or 0 (lookup k (get_or [] (lookup u (get_or [] (lookup d c)))))

abbrev pub part : ScoreKey → Score → ℕ
part score s = s.score_value
part translations s = s.translated_value
part reviewed s = s.reviewed_value
part suggested s = s.suggested_value

get_or-add_key :
    (j k : ScoreKey) (n : ℕ) (d : UserScores)
    → get_or 0 (lookup j (add_key k n d)) ≡ get_or 0 (lookup j d) + (if k == j then n else 0)
unfolding add_key
get_or-add_key j k n d =
    ground (arith, lookup-insert j k (get_or 0 (lookup k d) + n) d, key_eq.eqb_iff k j)

get_or-add_scores :
    (j : ScoreKey) (s : Score) (d : UserScores)
    → get_or 0 (lookup j (add_scores s d)) ≡ get_or 0 (lookup j d) + part j s
unfolding add_scores
get_or-add_scores j s d =
    let d1 = add_key score s.score_value d in
    let d2 = add_key translations s.translated_value d1 in
    let d3 = add_key reviewed s.reviewed_value d2 in
    parts j s _ _ _ _ _ (get_or-add_key j suggested s.suggested_value d3)
      (get_or-add_key j reviewed s.reviewed_value d2)
      (get_or-add_key j translations s.translated_value d1) (get_or-add_key j score s.score_value d)
  where
    parts :
        (j : ScoreKey) (s : Score) (v w x y z : ℕ)
        → z ≡ y + (if suggested == j then s.suggested_value else 0)
        → y ≡ x + (if reviewed == j then s.reviewed_value else 0)
        → x ≡ w + (if translations == j then s.translated_value else 0)
        → w ≡ v + (if score == j then s.score_value else 0)
        → z ≡ v + part j s
    parts score s v w x y z a b c d = ground arith
    parts translations s v w x y z a b c d = ground arith
    parts reviewed s v w x y z a b c d = ground arith
    parts suggested s v w x y z a b c d = ground arith

-- What one event gives.
abbrev pub gained : Option Score → ScoreKey → ℕ
gained none k = 0
gained (some s) k = part k s

part-no_positive : (k : ScoreKey) (s : Score) → any_positive s ≡ false → part k s ≡ 0
unfolding any_positive
part-no_positive score s h = ground arith
part-no_positive translations s h = ground arith
part-no_positive reviewed s h = ground arith
part-no_positive suggested s h = ground arith

value-add_score :
    (day user : ℕ) (s : Option Score) (c : Calculated) (d u : ℕ) (k : ScoreKey)
    → value (add_score day user s c) d u k
      ≡ value c d u k + (if day == d && user == u then gained s k else 0)
unfolding add_score
value-add_score day user none c d u k = ground arith
value-add_score day user (some s) c d u k = elim (Bool-cases (any_positive s)) [
  | inl some_positive ↦
      let users = get_or [] (lookup day c) in
      let old = get_or [] (lookup user users) in
      ground (
        arith,
        lookup-insert d day (insert user (add_scores s old) users) c,
        lookup-insert u user (add_scores s old) users,
        get_or-add_scores k s old,
        nat_eq.eqb_iff day d,
        nat_eq.eqb_iff user u,
      )
  | inr none_positive ↦ ground (arith, part-no_positive k s none_positive)
]

-- The sum of what events give.
module _ (settings : Settings) (localdate : ℕ → ℕ) (d u : ℕ) (k : ScoreKey) where
  unfoldable pub gain : Event → ℕ
  unfolding get_score
  gain e =
      if localdate e.timestamp == d && e.user == u
      then gained (get_score settings e e.action) k
      else 0

  unfoldable pub total : List Event → ℕ
  unfolding gain
  total [] = 0
  total (e ∷ es) = gain e + total es

  pub total-append : (a b : List Event) → total (a ++ b) ≡ total a + total b
  unfolding total
  total-append [] b = ground arith
  total-append (e ∷ a) b = ground (arith, total-append a b)

  value-score_event :
      (e : Event) (c : Calculated)
      → value (score_event settings localdate e c) d u k ≡ value c d u k + gain e
  unfolding score_event gain
  value-score_event e c =
      value-add_score (localdate e.timestamp) e.user (get_score settings e e.action) c d u k

  pub value-score_events :
      (es : List Event) (c : Calculated)
      → value (score_events settings localdate es c) d u k ≡ value c d u k + total es
  unfolding score_events total
  value-score_events [] c = ground arith
  value-score_events (e ∷ es) c =
      ground
        (arith, value-score_event e c, value-score_events es (score_event settings localdate e c))
