-- ===== src/Accounts/Merge/Forgets.antt =====
-- After a merge nothing refers to the user that was merged.
use pootle.Base.{
  ℕ, false, some, ◌==◌, nat_eq, option_eq, All, All-imp, All-map, All-of-In, ◌≡◌, arith,
}
use pootle.Accounts.Site.{Site, UnitChange, Submission, SuggestionEntry}
use pootle.Accounts.Rows.{All-update_changes, by_test, All-replaced, All-kept, All-others, All-unit}
use pootle.Accounts.Merge.{merge}

-- No row of the site names the user, who has no score.
pub record IsForgotten (user : ℕ) (w : Site) : Type 0 where
  pub not_submitted : All (λ (c : UnitChange). (c.submitted_by == some user) ≡ false) w.changes
  pub not_commented : All (λ (c : UnitChange). (c.commented_by == some user) ≡ false) w.changes
  pub not_reviewed : All (λ (c : UnitChange). (c.reviewed_by == some user) ≡ false) w.changes
  pub no_submission : All (λ (s : Submission). (s.submitter == some user) ≡ false) w.submissions
  pub no_suggestion : All (λ (s : SuggestionEntry). (s.user == user) ≡ false) w.suggestions
  pub no_review : All (λ (s : SuggestionEntry). (s.reviewer == some user) ≡ false) w.suggestions
  pub no_store_score : All (λ (u : ℕ). (u == user) ≡ false) w.store_scores
  pub no_tp_score : All (λ (u : ℕ). (u == user) ≡ false) w.tp_scores
  pub no_score : All (λ (p : ℕ × ℕ). p.0 ≡ user → p.1 ≡ 0) w.scores

-- No column of the change names the user.
abbrev pub IsUnnamed : ℕ → UnitChange → Type 0
IsUnnamed user c =
    ((c.submitted_by == some user) ≡ false)
    × ((c.commented_by == some user) ≡ false)
    × ((c.reviewed_by == some user) ≡ false)

module _ (src target : ℕ) (other : (target == src) ≡ false) where
  -- The three columns of a change, each cleared by its step.
  changes_forget : (w : Site) → All (IsUnnamed src) (merge src target w).changes
  unfolding merge
  changes_forget w =
      All-update_changes _
        (λ c. ((c.submitted_by == some src) ≡ false) × ((c.commented_by == some src) ≡ false))
        (λ c. c.reviewed_by == some src) (λ c. record c { reviewed_by = some target }) _
        (All-update_changes _ (λ c. (c.submitted_by == some src) ≡ false)
          (λ c. c.commented_by == some src) (λ c. record c { commented_by = some target }) _
          (All-update_changes _ (λ c. Unit {0}) (λ c. c.submitted_by == some src)
            (λ c. record c { submitted_by = some target }) _ (All-unit w.changes)
            (λ c h.
              by_test (λ (d : UnitChange). (d.submitted_by == some src) ≡ false)
                (c.submitted_by == some src) _ c other (λ e. e)))
          (λ c h.
            by_test
              (λ (d : UnitChange).
                ((d.submitted_by == some src) ≡ false) × ((d.commented_by == some src) ≡ false))
              (c.commented_by == some src) _ c (h, other) (λ e. (h, e))))
        (λ c h.
          by_test (IsUnnamed src) (c.reviewed_by == some src) _ c (h.0, h.1, other)
            (λ e. (h.0, h.1, e)))

  -- After a merge into another user no change of a unit, no submission and no suggestion names
  -- the user, no row of a store's or TP's scores is the user's, and the user's own score is 0.
  pub merge-IsForgotten : (w : Site) → IsForgotten src (merge src target w)
  unfolding merge
  merge-IsForgotten w =
      let forgotten = changes_forget w in
      record {
        not_submitted = All-imp (IsUnnamed src) _ (λ c a. a.0) _ forgotten;
        not_commented = All-imp (IsUnnamed src) _ (λ c a. a.1) _ forgotten;
        not_reviewed = All-imp (IsUnnamed src) _ (λ c a. a.2) _ forgotten;
        no_submission =
            All-replaced (λ (s : Submission). (s.submitter == some src) ≡ false)
              (λ s. s.submitter == some src) _ w.submissions (λ s. other) (λ s e. e);
        no_suggestion =
            All-kept (λ (s : SuggestionEntry). (s.user == src) ≡ false)
              (λ s. s.reviewer == some src) _ _
              (All-replaced _ (λ s. s.user == src) _ w.suggestions (λ s. other) (λ s e. e))
              (λ s h. h);
        no_review =
            All-replaced (λ (s : SuggestionEntry). (s.reviewer == some src) ≡ false)
              (λ s. s.reviewer == some src) _ _ (λ s. other) (λ s e. e);
        no_store_score = All-others src w.store_scores;
        no_tp_score = All-others src w.tp_scores;
        no_score =
            All-map _ _ _
              (All-of-In _ w.scores (λ (u, score) m e. ground (arith, nat_eq.eqb_iff u src)));
      }
