-- ===== src/Score/Log.antt =====
-- pootle_log/utils.py: the events of a store's suggestions and submissions, as `StoreLog` gives
-- them, with `include_meta=False`. Times and users are numbers.
pub mod Order
use pootle.Base.{
  ℕ, Bool, true, false, not, ◌&&◌, ◌||◌, Option, none, some, List, [], ◌∷◌, ◌++◌, nat_eq,
  if◌then◌else◌, ltb, leb, contains, is_nonempty,
}
use pootle.Store.Unit.{UnitState}

-- Who has reviewed a suggestion, and when.
pub data Review : Type 0 where
  pending : Review
  accepted rejected : ℕ → ℕ → Review

-- A suggestion. `wordcount` is that of its unit's source.
pub record SuggestionRow : Type 0 where
  pub user : ℕ
  pub creation_time : Option ℕ
  pub review : Review
  pub wordcount : ℕ

-- `SubmissionFields`, and whether the new value of a check is "0".
pub data Field : Type 0 where
  source target state comment : Field
  check : Bool → Field
  other : Field

-- A submission, with the constants of the states that its values equal.
pub record SubmissionRow : Type 0 where
  pub submitter : ℕ
  pub creation_time : ℕ
  pub field : Field
  pub old_value : Option UnitState
  pub new_value : Option UnitState
  pub wordcount : ℕ

-- The actions of events, and the key `state_updated` of the scores.
pub data EventAction : Type 0 where
  unit_created suggestion_created suggestion_accepted suggestion_rejected : EventAction
  target_updated source_updated comment_updated state_changed check_muted check_unmuted :
      EventAction
  state_updated : EventAction

pub record Event : Type 0 where
  pub action : EventAction
  pub user : ℕ
  pub timestamp : ℕ
  pub wordcount : ℕ
  pub old_value : Option UnitState
  pub new_value : Option UnitState

-- The arguments of `get_events`; no users stand for all. `is_meta` are the META_USERS.
pub record LogArgs : Type 0 where
  pub start : Option ℕ
  pub end : Option ℕ
  pub users : List ℕ
  pub is_meta : ℕ → Bool

-- `filter_timestamps`, of a time.
abbrev pub from_start : Option ℕ → ℕ → Bool
from_start none time = true
from_start (some start) time = leb start time

abbrev pub to_end : Option ℕ → ℕ → Bool
to_end none time = true
to_end (some end) time = ltb time end

unfoldable pub in_range : LogArgs → ℕ → Bool
in_range a time = from_start a.start time && to_end a.end time

-- `filter_users`.
unfoldable pub filter_users : LogArgs → ℕ → Bool
filter_users a user = if is_nonempty a.users then contains user a.users else not (a.is_meta user)

-- `not users or user in users`.
abbrev pub among : LogArgs → ℕ → Bool
among a user = if is_nonempty a.users then contains user a.users else true

-- Whether a time that is NULL passes: only where nothing is asked.
abbrev pub unbounded : LogArgs → Bool
unbounded a = elim a.start [ some _ ↦ false | none ↦ elim a.end [ some _ ↦ false | none ↦ true ] ]

abbrev pub reviewed_in : LogArgs → Review → Bool
reviewed_in a pending = unbounded a && (if is_nonempty a.users then false else true)
reviewed_in a (accepted user time) = filter_users a user && in_range a time
reviewed_in a (rejected user time) = filter_users a user && in_range a time

-- `filtered_suggestions`: created or reviewed in the range, by the users. One with no creation time
-- is left out.
unfoldable pub is_filtered_suggestion : LogArgs → SuggestionRow → Bool
unfolding filter_users in_range
is_filtered_suggestion a s = elim s.creation_time [
  | none ↦ false
  | some time ↦ (filter_users a s.user && in_range a time) || reviewed_in a s.review
]

abbrev pub event_of : SuggestionRow → EventAction → ℕ → ℕ → Event
event_of s action user time = record {
  action = action;
  user = user;
  timestamp = time;
  wordcount = s.wordcount;
  old_value = none;
  new_value = none;
}

-- `add_event` and `review_event` of one suggestion.
unfoldable pub add_events : LogArgs → SuggestionRow → List Event
unfolding in_range
add_events a s = elim s.creation_time [
  | none ↦ []
  | some time ↦
      if in_range a time && among a s.user
      then event_of s suggestion_created s.user time ∷ []
      else []
]

unfoldable pub review_events : LogArgs → SuggestionRow → Review → List Event
unfolding in_range
review_events a s pending = []
review_events a s (accepted user time) =
    if in_range a time && among a user then event_of s suggestion_accepted user time ∷ [] else []
review_events a s (rejected user time) =
    if in_range a time && among a user then event_of s suggestion_rejected user time ∷ [] else []

unfoldable pub suggestion_events : LogArgs → SuggestionRow → List Event
unfolding is_filtered_suggestion add_events review_events
suggestion_events a s =
    if is_filtered_suggestion a s then add_events a s ++ review_events a s s.review else []

unfoldable pub get_suggestion_events : LogArgs → List SuggestionRow → List Event
unfolding suggestion_events
get_suggestion_events a [] = []
get_suggestion_events a (s ∷ l) = suggestion_events a s ++ get_suggestion_events a l

unfoldable pub event_name : Field → EventAction
event_name source = source_updated
event_name target = target_updated
event_name comment = comment_updated
event_name (check true) = check_muted
event_name (check false) = check_unmuted
event_name state = state_changed
event_name other = state_changed

-- `filtered_submissions`.
unfoldable pub is_filtered_submission : LogArgs → SubmissionRow → Bool
unfolding filter_users in_range
is_filtered_submission a s = filter_users a s.submitter && in_range a s.creation_time

unfoldable pub submission_event : SubmissionRow → Event
unfolding event_name
submission_event s = record {
  action = event_name s.field;
  user = s.submitter;
  timestamp = s.creation_time;
  wordcount = s.wordcount;
  old_value = s.old_value;
  new_value = s.new_value;
}

unfoldable pub get_submission_events : LogArgs → List SubmissionRow → List Event
unfolding is_filtered_submission submission_event
get_submission_events a [] = []
get_submission_events a (s ∷ l) =
    let rest = get_submission_events a l in
    if is_filtered_submission a s then submission_event s ∷ rest else rest

-- `get_events`, of the sources "suggestion" and "submission".
unfoldable pub get_events : LogArgs → List SuggestionRow → List SubmissionRow → List Event
unfolding get_suggestion_events get_submission_events
get_events a suggestions submissions =
    get_suggestion_events a suggestions ++ get_submission_events a submissions
