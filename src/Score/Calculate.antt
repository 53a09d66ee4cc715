-- ===== src/Score/Calculate.antt =====
-- pootle_score/scores.py, and `StoreScoreUpdater.calculate` of pootle_score/updater.py. Scores are
-- counted in hundredths, to which the code rounds; the settings are numbers of them.
pub mod Sums
pub mod Points
use pootle.Base.{
  get_or, ℕ, ◌+◌, ◌*◌, Bool, true, false, not, ◌&&◌, ◌||◌, Option, none, some, List, [], ◌∷◌, ◌==◌,
  Eq, ◌↔◌, ◌≡◌, arith, nat_eq, option_eq, if◌then◌else◌, ltb, lookup, insert,
}
use pootle.Store.Unit.{untranslated, fuzzy, translated, unit_state_eq}
use pootle.Score.Log.{
  EventAction, Event, LogArgs, SuggestionRow, SubmissionRow, suggestion_created,
  suggestion_accepted, suggestion_rejected, target_updated, comment_updated, state_updated,
  get_events,
}

-- `POOTLE_SCORES`.
pub record Settings : Type 0 where
  pub suggestion_add : ℕ
  pub suggestion_accept : ℕ
  pub suggestion_reject : ℕ
  pub comment_update : ℕ
  pub target_update : ℕ
  pub state_translated : ℕ
  pub state_fuzzy : ℕ
  pub state_unfuzzy : ℕ

-- The keys of a score.
pub data ScoreKey : Type 0 where
  score translations reviewed suggested : ScoreKey

abbrev key_beq : ScoreKey → ScoreKey → Bool
key_beq score score = true
key_beq translations translations = true
key_beq reviewed reviewed = true
key_beq suggested suggested = true
key_beq _ _ = false

pub key_beq_iff : (a b : ScoreKey) → (key_beq a b ≡ true) ↔ (a ≡ b)
key_beq_iff a b = ground arith

instance abbrev pub key_eq : Eq ScoreKey
key_eq = record { eqb = key_beq; eqb_iff = key_beq_iff }

pub record Score : Type 0 where
  pub score_value : ℕ
  pub translated_value : ℕ
  pub reviewed_value : ℕ
  pub suggested_value : ℕ

-- `StateUpdatedScore`.
module _ (e : Event) where
  abbrev is_translated : Bool
  is_translated = e.old_value == some untranslated && e.new_value == some translated

  abbrev state_fuzzied : Bool
  state_fuzzied = e.old_value == some translated && e.new_value == some fuzzy

  abbrev state_unfuzzied : Bool
  state_unfuzzied = e.old_value == some fuzzy && e.new_value == some translated

  abbrev words_if : Bool → ℕ
  words_if b = if b then e.wordcount else 0

-- `score_setting` of `StateUpdatedScore`. For another change, and for no words, it is None, for
-- which `score` raises an error; here it is 0.
unfoldable pub state_setting : Settings → Event → ℕ
state_setting s e =
    if ltb 0 (words_if e (is_translated e))
    then s.state_translated
    else if state_fuzzied e
    then s.state_fuzzy
    else if state_unfuzzied e
    then s.state_unfuzzy
    else 0

abbrev scored : ℕ → ℕ → ℕ → ℕ → ℕ → Score
scored setting words t r g = record {
  score_value = setting * words;
  translated_value = t;
  reviewed_value = r;
  suggested_value = g;
}

-- `self.scoring[event.action](event).get_score()`, where the action is scored.
unfoldable pub get_score : Settings → Event → EventAction → Option Score
unfolding state_setting
get_score s e suggestion_created = some (scored s.suggestion_add e.wordcount 0 0 e.wordcount)
get_score s e suggestion_accepted = some (scored s.suggestion_accept e.wordcount 0 e.wordcount 0)
get_score s e suggestion_rejected = some (scored s.suggestion_reject e.wordcount 0 e.wordcount 0)
get_score s e target_updated = some (scored s.target_update e.wordcount e.wordcount 0 0)
get_score s e comment_updated = some (scored s.comment_update e.wordcount 0 0 0)
get_score s e state_updated = some (
    scored (state_setting s e) e.wordcount (words_if e (is_translated e))
      (words_if e (state_fuzzied e || state_unfuzzied e)) 0)
get_score s e _ = none

-- The scores of users by their days: `calculated_scores`.
abbrev pub UserScores : Type 0
UserScores = List (ScoreKey × ℕ)

abbrev pub Calculated : Type 0
Calculated = List (ℕ × List (ℕ × UserScores))

-- `if not score: continue`, and the sum otherwise.
unfoldable pub add_key : ScoreKey → ℕ → UserScores → UserScores
add_key k n d = if n == 0 then d else insert k (get_or 0 (lookup k d) + n) d

unfoldable pub add_scores : Score → UserScores → UserScores
unfolding add_key
add_scores s d = add_key suggested s.suggested_value (
    add_key reviewed s.reviewed_value
      (add_key translations s.translated_value (add_key score s.score_value d)))

unfoldable pub any_positive : Score → Bool
any_positive s =
    ltb 0 s.score_value
    || (ltb 0 s.translated_value || (ltb 0 s.reviewed_value || ltb 0 s.suggested_value))

-- The day's dict of users, made where there is none, and in it the user's.
unfoldable pub add_score : ℕ → ℕ → Option Score → Calculated → Calculated
unfolding add_scores any_positive
add_score day user none calculated = calculated
add_score day user (some s) calculated =
    if not (any_positive s)
    then calculated
    else let users = get_or [] (lookup day calculated) in
      insert day (insert user (add_scores s (get_or [] (lookup user users))) users) calculated

module _ (settings : Settings) (localdate : ℕ → ℕ) where
  -- `score_event`.
  unfoldable pub score_event : Event → Calculated → Calculated
  unfolding get_score add_score
  score_event e calculated =
      add_score (localdate e.timestamp) e.user (get_score settings e e.action) calculated

  unfoldable pub score_events : List Event → Calculated → Calculated
  unfolding score_event
  score_events [] calculated = calculated
  score_events (e ∷ es) calculated = score_events es (score_event e calculated)

  unfoldable pub calculate : LogArgs → List SuggestionRow → List SubmissionRow → Calculated
  unfolding score_events get_events
  calculate a suggestions submissions = score_events (get_events a suggestions submissions) []
