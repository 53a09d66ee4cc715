-- ===== src/Accounts/Purge/Gone.antt =====
-- What a purge leaves of the user, and when it comes to its end.
use pootle.Base.{
  ℕ, false, ◌&&◌, ◌||◌, filter-eq-nil, All-imp, sym, ◌∙◌, Option, none, some, List, [], ◌∷◌, ◌==◌,
  nat_eq, option_eq, filter, All, subst, ap, ◌≡◌, refl, arith,
}
use pootle.Accounts.Raise.{Outcome, returned, raised, first_returned, both_return}
use pootle.Accounts.Site.{
  Site, SiteUnit, UnitChange, Submission, SuggestionEntry, is_review, is_state_change,
}
use pootle.Accounts.Rows.{by_test, All-rejected, All-filter}
use pootle.Accounts.Reverts.{
  delete_suggestions, delete_unit, stores_of, remove_created, remove_units_created, revert_edit,
  revert_edits, revert_units_edited, revert_comment, revert_comments, revert_units_commented,
}
use pootle.Accounts.Purge.{
  delete_remaining, purge, revert_units_reviewed, revert_units_state_changed, revert_reviews,
  revert_reviewed, revert_review, revert_states,
}

edit_keeps :
    (c : UnitChange) (s : Option Submission) (w : Site)
    → (revert_edit c s w).submissions ≡ w.submissions
unfolding revert_edit
edit_keeps c none w = refl
edit_keeps c (some s) w = refl

comment_keeps :
    (c : UnitChange) (s : Option Submission) (w : Site)
    → (revert_comment c s w).submissions ≡ w.submissions
unfolding revert_comment
comment_keeps c none w = refl
comment_keeps c (some s) w = refl

review_keeps :
    (user : ℕ) (c : UnitChange) (w : Site) → (revert_review user c w).submissions ≡ w.submissions
unfolding revert_review
review_keeps user c w = ground arith

value_or : Site × List ℕ → Outcome (Site × List ℕ) → Site × List ℕ
value_or d (returned r) = r
value_or d (raised x) = d

module _ (user : ℕ) where
  -- No submission and no suggestion is the user's.
  pub record IsPurged (w : Site) : Type 0 where
    pub no_submission : All (λ (s : Submission). (s.submitter == some user) ≡ false) w.submissions
    pub no_suggestion : All (λ (s : SuggestionEntry). (s.user == user) ≡ false) w.suggestions

  delete_remaining-IsPurged : (w : Site) → IsPurged (delete_remaining user w)
  unfolding delete_remaining delete_suggestions
  delete_remaining-IsPurged w = record {
    no_submission =
        All-filter _ _ _
          (All-rejected (λ (s : Submission). s.submitter == some user) w.submissions);
    no_suggestion = All-rejected (λ (s : SuggestionEntry). s.user == user) w.suggestions;
  }

  -- A purge that comes to its end leaves no submission and no suggestion of the user.
  pub purge-IsPurged :
      (w v : Site) (stores : List ℕ) → purge user w ≡ returned (v, stores) → IsPurged v
  unfolding purge value_or
  purge-IsPurged w v stores e =
      let (reviewed, er, e1) =
        first_returned
          (revert_units_reviewed user (revert_units_edited user (remove_units_created user w).0).0)
          _ e in
      let (changed, es, e2) =
        first_returned (revert_units_state_changed user (revert_units_commented user reviewed.0).0)
          _ e1 in
      subst IsPurged (ap (λ r. (value_or (w, []) r).0) e2) (delete_remaining-IsPurged changed.0)

module _ (user : ℕ) where
  -- No submission by the user is a review or a change of a state.
  abbrev pub IsIdle : List Submission → Type 0
  IsIdle =
      All (λ (s : Submission).
        (s.submitter == some user && (is_review s || is_state_change s)) ≡ false)

  IsIdle-delete_unit :
      (unit : ℕ) (w : Site) → IsIdle w.submissions → IsIdle (delete_unit unit w).submissions
  unfolding delete_unit delete_suggestions
  IsIdle-delete_unit unit w a = All-filter _ _ _ (All-filter _ _ w.submissions a)

  IsIdle-remove_created :
      (l : List SiteUnit) (w : Site)
      → IsIdle w.submissions
      → IsIdle (remove_created user l w).submissions
  unfolding remove_created
  IsIdle-remove_created [] w a = a
  IsIdle-remove_created (u ∷ l) w a = IsIdle-remove_created l _ (
      by_test (λ (v : Site). IsIdle v.submissions) _ w (delete_unit u.id w) a
        (λ e. IsIdle-delete_unit u.id w a))

  submissions-revert_edits :
      (l : List UnitChange) (w : Site) → (revert_edits user l w).submissions ≡ w.submissions
  unfolding revert_edits
  submissions-revert_edits [] w = refl
  submissions-revert_edits (c ∷ l) w = submissions-revert_edits l _ ∙ edit_keeps c _ w

  submissions-revert_comments :
      (l : List UnitChange) (w : Site) → (revert_comments user l w).submissions ≡ w.submissions
  unfolding revert_comments
  submissions-revert_comments [] w = refl
  submissions-revert_comments (c ∷ l) w = submissions-revert_comments l _ ∙ comment_keeps c _ w

  submissions-revert_reviewed :
      (l : List UnitChange) (w : Site) → (revert_reviewed user l w).submissions ≡ w.submissions
  unfolding revert_reviewed
  submissions-revert_reviewed [] w = refl
  submissions-revert_reviewed (c ∷ l) w = submissions-revert_reviewed l _ ∙ review_keeps user c w

  revert_units_reviewed-IsIdle :
      (w : Site)
      → IsIdle w.submissions
      → (r : Site × List ℕ) × (revert_units_reviewed user w ≡ returned r) × IsIdle r.0.submissions
  unfolding revert_units_reviewed revert_reviews
  revert_units_reviewed-IsIdle w a =
      let none_by : filter (λ (s : Submission). s.submitter == some user && is_review s)
            w.submissions
          ≡ [] =
        filter-eq-nil _ w.submissions (All-imp _ _ (λ s h. ground arith) _ a) in
      let seen = filter (λ (c : UnitChange). c.reviewed_by == some user) w.changes in
      (
        (revert_reviewed user seen w, stores_of seen w),
        rw none_by refl,
        subst IsIdle (sym (submissions-revert_reviewed seen w)) a,
      )

  revert_units_state_changed-ended :
      (w : Site) → IsIdle w.submissions → revert_units_state_changed user w ≡ returned (w, [])
  unfolding revert_units_state_changed revert_states
  revert_units_state_changed-ended w a =
      let none_by : filter (λ (s : Submission). s.submitter == some user && is_state_change s)
            w.submissions
          ≡ [] =
        filter-eq-nil _ w.submissions (All-imp _ _ (λ s h. ground arith) _ a) in
      rw none_by refl

  IsIdle-edited :
      (w : Site)
      → IsIdle w.submissions
      → IsIdle (revert_units_edited user (remove_units_created user w).0).0.submissions
  unfolding revert_units_edited remove_units_created
  IsIdle-edited w a =
      let created = filter (λ (u : SiteUnit). u.created_by == user) w.units in
      let removed = remove_created user created w in
      subst IsIdle
        (sym (
          submissions-revert_edits
            (filter (λ (c : UnitChange). c.submitted_by == some user) removed.changes) removed))
        (IsIdle-remove_created created w a)

  IsIdle-commented :
      (w : Site) → IsIdle w.submissions → IsIdle (revert_units_commented user w).0.submissions
  unfolding revert_units_commented
  IsIdle-commented w a =
      subst IsIdle
        (sym (
          submissions-revert_comments
            (filter (λ (c : UnitChange). c.commented_by == some user) w.changes) w))
        a

  -- A purge comes to its end, and leaves no submission and no suggestion of the user, if no
  -- submission of the user is the review of a suggestion or a change of state.
  pub purge-returns :
      (w : Site)
      → IsIdle w.submissions
      → (v : Site) × (stores : List ℕ) × (purge user w ≡ returned (v, stores)) × IsPurged user v
  unfolding purge
  purge-returns w a =
      let edited = (revert_units_edited user (remove_units_created user w).0).0 in
      let (reviewed, e, b) = revert_units_reviewed-IsIdle edited (IsIdle-edited w a) in
      let (r, h) = both_return (revert_units_reviewed user edited) _ reviewed e (
        both_return (revert_units_state_changed user (revert_units_commented user reviewed.0).0) _ _
          (revert_units_state_changed-ended _ (IsIdle-commented reviewed.0 b)) (_, refl)) in
      (r.0, r.1, h, purge-IsPurged user w r.0 r.1 h)
