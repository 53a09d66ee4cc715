-- ===== src/Accounts/Site.antt =====
-- The tables that pootle/apps/accounts/utils.py works on, and its queries and updates of them. Users,
-- times and keys are numbers. A submission stands with the state that its new value says.
use pootle.Base.{
  ℕ, String, Bool, true, false, not, ◌&&◌, ◌||◌, Option, none, some, List, [], ◌∷◌, ◌==◌, nat_eq,
  option_eq, if◌then◌else◌, ltb,
}
use pootle.Store.Unit.{UnitState}

pub record SiteUnit : Type 0 where
  pub id : ℕ
  pub store : ℕ
  pub created_by : ℕ
  pub creation_time : ℕ
  pub target : String
  pub state : UnitState
  pub translator_comment : String
  pub revision : ℕ

pub record UnitChange : Type 0 where
  pub pk : ℕ
  pub unit : ℕ
  pub submitted_by : Option ℕ
  pub submitted_on : Option ℕ
  pub commented_by : Option ℕ
  pub commented_on : Option ℕ
  pub reviewed_by : Option ℕ
  pub reviewed_on : Option ℕ

-- `SubmissionFields` that the queries tell apart.
pub data ChangedField : Type 0 where
  target_field state_field comment_field other_field : ChangedField

-- `is_edit` is whether its type is one of `EDIT_TYPES`.
pub record Submission : Type 0 where
  pub pk : ℕ
  pub submitter : Option ℕ
  pub unit : ℕ
  pub suggestion : Option ℕ
  pub field : ChangedField
  pub is_edit : Bool
  pub new_value : String
  pub new_state : UnitState
  pub creation_time : ℕ

pub record SuggestionEntry : Type 0 where
  pub pk : ℕ
  pub unit : ℕ
  pub user : ℕ
  pub reviewer : Option ℕ
  pub is_pending : Bool
  pub review_time : Option ℕ

-- `store_scores` and `tp_scores` name the users of the rows; `scores` are the users' own.
pub record Site : Type 0 where
  pub units : List SiteUnit
  pub changes : List UnitChange
  pub submissions : List Submission
  pub suggestions : List SuggestionEntry
  pub store_scores : List ℕ
  pub tp_scores : List ℕ
  pub scores : List (ℕ × ℕ)
  pub revision : ℕ

abbrev pub is_state_change : Submission → Bool
is_state_change s = elim s.field [ state_field ↦ true | _ ↦ false ]

-- `get_unit_edits`, `get_unit_comments` and `get_unit_suggestion_reviews`.
abbrev pub is_unit_edit : Submission → Bool
is_unit_edit s = elim s.field [ target_field ↦ s.is_edit | _ ↦ false ]

abbrev pub is_comment : Submission → Bool
is_comment s = elim s.field [ comment_field ↦ true | _ ↦ false ]

abbrev pub is_review : Submission → Bool
is_review s = elim s.field [
  | state_field ↦ false
  | _ ↦ elim s.suggestion [ none ↦ false | some n ↦ true ]
]

-- Whether the first is the later, by the key, and by the time and the key.
abbrev pub later_pk : Submission → Submission → Bool
later_pk a b = ltb b.pk a.pk

abbrev pub later_time : Submission → Submission → Bool
later_time a b =
    ltb b.creation_time a.creation_time || (b.creation_time == a.creation_time && ltb b.pk a.pk)

abbrev pub latest_of :
    (Submission → Submission → Bool) → Submission → Option Submission → Submission
latest_of after s none = s
latest_of after s (some t) = if after s t then s else t

-- `latest` and `first`, of the submissions that pass a test.
unfoldable pub latest :
    (Submission → Submission → Bool) → (Submission → Bool) → List Submission → Option Submission
latest after p [] = none
latest after p (s ∷ l) =
    let rest = latest after p l in if p s then some (latest_of after s rest) else rest

-- The submissions of a unit by others.
abbrev pub by_others : ℕ → ℕ → (Submission → Bool) → Submission → Bool
by_others user unit p s = s.unit == unit && (not (s.submitter == some user) && p s)

unfoldable pub update_changes :
    (UnitChange → Bool) → (UnitChange → UnitChange) → List UnitChange → List UnitChange
update_changes p f [] = []
update_changes p f (c ∷ l) = (if p c then f c else c) ∷ update_changes p f l

unfoldable pub change_unit : ℕ → (SiteUnit → SiteUnit) → List SiteUnit → List SiteUnit
change_unit id f [] = []
change_unit id f (u ∷ l) = (if u.id == id then f u else u) ∷ change_unit id f l

unfoldable pub find_unit : ℕ → List SiteUnit → Option SiteUnit
find_unit id [] = none
find_unit id (u ∷ l) = if u.id == id then some u else find_unit id l
