-- ===== src/Accounts/Merge.antt =====
-- pootle/apps/accounts/utils.py: `UserMerger`, and `UserScoreUpdater.clear` of
-- pootle_score/updater.py, which it calls.
pub mod Forgets
use pootle.Base.{
  ℕ, Bool, true, not, Option, some, List, [], ◌∷◌, map, ◌==◌, nat_eq, option_eq, if◌then◌else◌,
  filter,
}
use pootle.Accounts.Site.{Site, UnitChange, Submission, SuggestionEntry, update_changes}

-- `clear`, of the scores of one user.
unfoldable pub clear : ℕ → Site → Site
clear user w = record w {
  tp_scores = filter (λ u. not (u == user)) w.tp_scores;
  store_scores = filter (λ u. not (u == user)) w.store_scores;
  scores = map (λ (u, score). (u, if u == user then 0 else score)) w.scores;
}

module _ (src target : ℕ) where
  unfoldable pub merge_submitted : Site → Site
  unfolding update_changes
  merge_submitted w = record w {
    changes =
        update_changes (λ c. c.submitted_by == some src)
          (λ c. record c { submitted_by = some target }) w.changes;
  }

  unfoldable pub merge_commented : Site → Site
  unfolding update_changes
  merge_commented w = record w {
    changes =
        update_changes (λ c. c.commented_by == some src)
          (λ c. record c { commented_by = some target }) w.changes;
  }

  unfoldable pub merge_reviewed : Site → Site
  unfolding update_changes
  merge_reviewed w = record w {
    changes =
        update_changes (λ c. c.reviewed_by == some src)
          (λ c. record c { reviewed_by = some target }) w.changes;
  }

  -- No submission is without a unit, so none is deleted as orphaned.
  unfoldable pub merge_submissions : Site → Site
  unfolding clear
  merge_submissions w =
      let cleared = clear src w in
      record cleared {
        submissions =
            map
              (λ (s : Submission).
                if s.submitter == some src then record s { submitter = some target } else s)
              cleared.submissions;
      }

  unfoldable pub merge_suggestions : Site → Site
  merge_suggestions w = record w {
    suggestions =
        map (λ (s : SuggestionEntry). if s.user == src then record s { user = target } else s)
          w.suggestions;
  }

  unfoldable pub merge_reviews : Site → Site
  merge_reviews w = record w {
    suggestions =
        map
          (λ (s : SuggestionEntry).
            if s.reviewer == some src then record s { reviewer = some target } else s)
          w.suggestions;
  }

  unfoldable pub merge : Site → Site
  unfolding merge_submitted merge_commented merge_reviewed merge_submissions merge_suggestions
      merge_reviews
  merge w =
      merge_reviews (
        merge_suggestions
          (merge_submissions (merge_reviewed (merge_commented (merge_submitted w)))))
