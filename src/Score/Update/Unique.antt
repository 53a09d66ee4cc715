-- ===== src/Score/Update/Unique.antt =====
-- `unique_together` of the score rows: `set_scores` makes no second row of a date and user.
use pootle.Base.{
  del, Distinct-keys-del, ℕ, true, false, List, [], ◌∷◌, ◌++◌, nat_eq, pair_eq, lookup, insert,
  insert_all, dict, keys, ◌≡◌, refl, ap, sym, subst, ◌∙◌, arith, Option-cases, inl, inr, contains,
  contains-append, Distinct, Distinct-keys-insert, is_some, is_some-lookup, beq_comm,
}
use pootle.Score.Calculate.{UserScores}
use pootle.Score.Update.{ScoreRow, ScoreDict, updated, update_rows, new_scores, set_scores}
use pootle.Score.Update.Table.{row_of, rows_kept, rows_updated, lookup-left}

abbrev row_keys : List ScoreRow → List (ℕ × ℕ)
row_keys [] = []
row_keys (r ∷ rows) = (r.date, r.user) ∷ row_keys rows

-- `unique_together = ["date", "store", "user"]`, of the rows of one store.
unfoldable pub IsUnique : List ScoreRow → Type 0
IsUnique rows = Distinct (row_keys rows)

row_keys-append : (a b : List ScoreRow) → row_keys (a ++ b) ≡ row_keys a ++ row_keys b
row_keys-append [] b = refl
row_keys-append (r ∷ a) b = ap (λ x. (r.date, r.user) ∷ x) (row_keys-append a b)

row_keys-new_scores : (d : ScoreDict) → row_keys (new_scores d) ≡ keys d
unfolding new_scores
row_keys-new_scores [] = refl
row_keys-new_scores ((k, s) ∷ d) = ap (λ x. k ∷ x) (row_keys-new_scores d)

row_keys-updated :
    (r : ScoreRow) (new : UserScores) (rows : List ScoreRow)
    → row_keys (updated r new ∷ rows) ≡ (r.date, r.user) ∷ row_keys rows
unfolding updated
row_keys-updated r new rows = refl

row_keys-update_rows :
    (rows : List ScoreRow) (d : ScoreDict) → row_keys (update_rows rows d).0 ≡ row_keys rows
row_keys-update_rows [] d = unfold update_rows in refl
row_keys-update_rows (r ∷ rows) d = elim (Option-cases (lookup (r.date, r.user) d)) [
  | inl absent ↦
      ap row_keys (rows_kept r rows d absent)
      ∙ ap (λ x. (r.date, r.user) ∷ x) (row_keys-update_rows rows d)
  | inr (new, found) ↦
      ap row_keys (rows_updated r rows d new found)
      ∙ row_keys-updated r new (update_rows rows (del (r.date, r.user) d)).0
      ∙ ap (λ x. (r.date, r.user) ∷ x) (row_keys-update_rows rows (del (r.date, r.user) d))
]

contains-row_keys :
    (q : ℕ × ℕ) (rows : List ScoreRow) → contains q (row_keys rows) ≡ is_some (row_of q rows)
contains-row_keys q [] = refl
contains-row_keys q (r ∷ rows) =
    ground (arith, contains-row_keys q rows, beq_comm q (r.date, r.user))

Distinct-left :
    (rows : List ScoreRow) (d : ScoreDict)
    → Distinct (keys d)
    → Distinct (keys (update_rows rows d).1)
unfolding update_rows
Distinct-left [] d h = h
Distinct-left (r ∷ rows) d h = elim (Option-cases (lookup (r.date, r.user) d)) [
  | inl absent ↦ rw (absent, update_rows) (Distinct-left rows d h)
  | inr (new, found) ↦
      rw (found, update_rows)
        (Distinct-left rows (del (r.date, r.user) d) (Distinct-keys-del _ d h))
]

Distinct-append :
    (a b : List (ℕ × ℕ))
    → Distinct a
    → Distinct b
    → ((x : ℕ × ℕ) → contains x a ≡ true → contains x b ≡ false)
    → Distinct (a ++ b)
Distinct-append [] b ha hb h = hb
Distinct-append (x ∷ a) b ha hb h = (
  contains-append x a b ∙ rw ha.0 (h x (ground (arith, pair_eq.eqb_iff x x))),
  Distinct-append a b ha.1 hb (λ y m. h y (ground arith)),
)

Distinct-insert_all : (d l : ScoreDict) → Distinct (keys d) → Distinct (keys (insert_all d l))
Distinct-insert_all d [] h = h
Distinct-insert_all d ((k, s) ∷ l) h =
    Distinct-insert_all (insert k s d) l (Distinct-keys-insert k s d h)

-- set_scores keeps one row at most for a date and a user, whatever scores it is given.
pub IsUnique-set_scores :
    (scores : ScoreDict) (rows : List ScoreRow) → IsUnique rows → IsUnique (set_scores scores rows)
unfolding IsUnique set_scores
IsUnique-set_scores scores rows h =
    let d = dict scores in
    let (kept, left) = update_rows rows d in
    subst Distinct (sym (row_keys-append kept (new_scores left))) (
      Distinct-append (row_keys kept) (row_keys (new_scores left))
        (subst Distinct (sym (row_keys-update_rows rows d)) h)
        (subst Distinct (sym (row_keys-new_scores left))
          (Distinct-left rows d (Distinct-insert_all [] scores tt)))
        (λ q m. left_out q (subst (λ ks. contains q ks ≡ true) (row_keys-update_rows rows d) m)))
  where
    left_out :
        (q : ℕ × ℕ)
        → contains q (row_keys rows) ≡ true
        → contains q (row_keys (new_scores (update_rows rows (dict scores)).1)) ≡ false
    left_out q m =
        let d = dict scores in
        let left = (update_rows rows d).1 in
        ap (contains q) (row_keys-new_scores left)
        ∙ sym (is_some-lookup q left)
        ∙ rw (lookup-left q rows d) (rw (sym (contains-row_keys q rows) ∙ m) refl)
