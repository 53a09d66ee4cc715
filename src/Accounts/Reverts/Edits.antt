-- ===== src/Accounts/Reverts/Edits.antt =====
-- The steps that take back edits and comments of a user leave no change that names the user.
use pootle.Base.{
  ℕ, Bool, true, false, Option, none, some, List, [], ◌∷◌, ◌==◌, nat_eq, option_eq, if◌then◌else◌,
  All, Bool-cases, inl, inr, get_or, subst, ap, ◌≡◌, refl, arith,
}
use pootle.Accounts.Site.{
  Site, UnitChange, Submission, latest, latest_of, later_pk, by_others, is_unit_edit, is_comment,
}
use pootle.Accounts.Rows.{by_test, IsPending, IsPending-start, IsPending-update, pending-end}
use pootle.Accounts.Reverts.{
  revert_edit, revert_edits, revert_comment, revert_comments, revert_units_edited,
  revert_units_commented,
}

found_first :
    (after : Submission → Submission → Bool) (p : Submission → Bool) (t : Submission)
    (rest : Option Submission)
    → ((r : Submission) → rest ≡ some r → p r ≡ true)
    → (s : Submission) → (if p t then some (latest_of after t rest) else rest) ≡ some s
    → p s ≡ true
found_first after p t none h s e = elim (Bool-cases (p t)) [
  | inl q ↦ subst (λ x. p x ≡ true) (ap (get_or t) (rw q at e)) q
  | inr q ↦ h s (rw q at e)
]
found_first after p t (some r) h s e = elim (Bool-cases (p t)) [
  | inl q ↦
      subst (λ x. p x ≡ true) (ap (get_or t) (rw q at e))
        (by_test (λ x. p x ≡ true) (after t r) t r q (λ k. h r refl))
  | inr q ↦ h s (rw q at e)
]

-- What is found passes the test, so it is by another user.
found-passes :
    (after : Submission → Submission → Bool) (p : Submission → Bool) (l : List Submission)
    (s : Submission)
    → latest after p l ≡ some s
    → p s ≡ true
unfolding latest
found-passes after p [] s e = ground arith
found-passes after p (t ∷ l) s e =
    found_first after p t (latest after p l) (found-passes after p l) s e

elim_found :
    (found : Option Submission) (P : Option Submission → Type 0)
    → P none
    → ((s : Submission) → found ≡ some s → P (some s))
    → P found
elim_found none P n h = n
elim_found (some s) P n h = h s refl

module _ (user : ℕ) where
  by_another :
      (after : Submission → Submission → Bool) (unit : ℕ) (p : Submission → Bool)
      (l : List Submission) (s : Submission)
      → latest after (by_others user unit p) l ≡ some s
      → (s.submitter == some user) ≡ false
  by_another after unit p l s e = ground (arith, found-passes after (by_others user unit p) l s e)

  edits_pending :
      (seen : List UnitChange) (w : Site)
      → IsPending user (λ c. c.submitted_by) seen w.changes
      → All (λ c. (c.submitted_by == some user) ≡ false) (revert_edits user seen w).changes
  unfolding revert_edits revert_edit
  edits_pending [] w a = pending-end user (λ c. c.submitted_by) w.changes a
  edits_pending (c ∷ l) w a = edits_pending l _ (
      elim_found (latest later_pk (by_others user c.unit is_unit_edit) w.submissions)
        (λ found. IsPending user (λ c. c.submitted_by) l (revert_edit c found w).changes)
        (IsPending-update user (λ c. c.submitted_by) c l _ w.changes (λ d. refl) a)
        (λ s e.
          IsPending-update user (λ c. c.submitted_by) c l _ w.changes
            (λ d. by_another later_pk c.unit is_unit_edit w.submissions s e) a))

  comments_pending :
      (seen : List UnitChange) (w : Site)
      → IsPending user (λ c. c.commented_by) seen w.changes
      → All (λ c. (c.commented_by == some user) ≡ false) (revert_comments user seen w).changes
  unfolding revert_comments revert_comment
  comments_pending [] w a = pending-end user (λ c. c.commented_by) w.changes a
  comments_pending (c ∷ l) w a = comments_pending l _ (
      elim_found (latest later_pk (by_others user c.unit is_comment) w.submissions)
        (λ found. IsPending user (λ c. c.commented_by) l (revert_comment c found w).changes)
        (IsPending-update user (λ c. c.commented_by) c l _ w.changes (λ d. refl) a)
        (λ s e.
          IsPending-update user (λ c. c.commented_by) c l _ w.changes
            (λ d. by_another later_pk c.unit is_comment w.submissions s e) a))

  -- After revert_units_edited no change of a unit is submitted by the user, and after
  -- revert_units_commented none is commented by the user.
  pub unnamed-reverts :
      (w : Site)
      → All (λ c. (c.submitted_by == some user) ≡ false) (revert_units_edited user w).0.changes
        × All (λ c. (c.commented_by == some user) ≡ false) (revert_units_commented user w).0.changes
  unfolding revert_units_edited revert_units_commented
  unnamed-reverts w = (
    edits_pending _ w (IsPending-start user (λ c. c.submitted_by) w.changes),
    comments_pending _ w (IsPending-start user (λ c. c.commented_by) w.changes),
  )
