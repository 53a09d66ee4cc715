-- ===== src/Score/Update/Table.antt =====
-- The rows that `set_scores` leaves, by the date and the user.
use pootle.Base.{
  or_else, del, lookup-del, get_or, ℕ, true, Option, none, some, List, [], ◌∷◌, ◌++◌, ◌==◌, nat_eq,
  pair_eq, if◌then◌else◌, lookup, dict, ◌≡◌, refl, ap, sym, ◌∙◌, arith, Bool-cases, Option-cases,
  inl, inr, is_some,
}
use pootle.Score.Calculate.{
  Score, ScoreKey, score, translations, reviewed, suggested, key_eq, UserScores,
}
use pootle.Score.Calculate.Sums.{part}
use pootle.Score.Update.{
  ScoreRow, ScoreDict, updated, changed, update_rows, columns, new_scores, set_scores,
}

abbrev pub row_of : ℕ × ℕ → List ScoreRow → Option Score
row_of q [] = none
row_of q (r ∷ rows) = if (r.date, r.user) == q then some r.scores else row_of q rows

abbrev pub column_of : ScoreKey → Option Score → ℕ
column_of k none = 0
column_of k (some s) = part k s

changed_lem : (old : ℕ) (new : Option ℕ) → changed old new ≡ get_or 0 new
changed_lem old new = ground (arith, nat_eq.eqb_iff old (get_or 0 new))

scores-updated : (r : ScoreRow) (new : UserScores) → (updated r new).scores ≡ columns new
unfolding updated
scores-updated r new = rw (changed_lem r.scores.score_value (lookup score new)) (
    rw (changed_lem r.scores.translated_value (lookup translations new)) (
      rw (changed_lem r.scores.reviewed_value (lookup reviewed new))
        (rw (changed_lem r.scores.suggested_value (lookup suggested new)) refl)))

abbrev pub column_row : Option UserScores → Option Score
column_row none = none
column_row (some s) = some (columns s)

row_of-append :
    (q : ℕ × ℕ) (a b : List ScoreRow) → row_of q (a ++ b) ≡ or_else (row_of q a) (row_of q b)
row_of-append q [] b = refl
row_of-append q (r ∷ a) b = ground (arith, row_of-append q a b)

row_of-new_scores : (q : ℕ × ℕ) (d : ScoreDict) → row_of q (new_scores d) ≡ column_row (lookup q d)
unfolding new_scores
row_of-new_scores q [] = refl
row_of-new_scores q ((j, s) ∷ d) = ground (arith, row_of-new_scores q d)

pub lookup-left :
    (q : ℕ × ℕ) (rows : List ScoreRow) (d : ScoreDict)
    → lookup q (update_rows rows d).1 ≡ (if is_some (row_of q rows) then none else lookup q d)
unfolding update_rows
lookup-left q [] d = refl
lookup-left q (r ∷ rows) d = ground (
  arith,
  lookup-left q rows d,
  lookup-left q rows (del (r.date, r.user) d),
  lookup-del q (r.date, r.user) d,
  pair_eq.eqb_iff (r.date, r.user) q,
)

pub rows_kept :
    (r : ScoreRow) (rows : List ScoreRow) (d : ScoreDict)
    → lookup (r.date, r.user) d ≡ none
    → (update_rows (r ∷ rows) d).0 ≡ r ∷ (update_rows rows d).0
unfolding update_rows
rows_kept r rows d h = rw (h, update_rows) refl

pub rows_updated :
    (r : ScoreRow) (rows : List ScoreRow) (d : ScoreDict) (new : UserScores)
    → lookup (r.date, r.user) d ≡ some new
    → (update_rows (r ∷ rows) d).0 ≡ updated r new ∷ (update_rows rows (del (r.date, r.user) d)).0
unfolding update_rows
rows_updated r rows d new h = rw (h, update_rows) refl

-- The row of a key after the updates.
abbrev merged : Option Score → Option UserScores → Option Score
merged none new = none
merged (some s) none = some s
merged (some s) (some new) = some (columns new)

same_key : (q k : ℕ × ℕ) (d : ScoreDict) → (k == q) ≡ true → lookup q d ≡ lookup k d
same_key q k d same = ap (λ x. lookup x d) (sym ((pair_eq.eqb_iff k q).0 same))

row_of-cons_updated :
    (q : ℕ × ℕ) (r : ScoreRow) (new : UserScores) (o : Option Score) (rest : List ScoreRow)
    (d : Option UserScores)
    → (((r.date, r.user) == q) ≡ true → d ≡ some new)
    → row_of q rest ≡ merged o (if (r.date, r.user) == q then none else d)
    → row_of q (updated r new ∷ rest)
      ≡ merged (if (r.date, r.user) == q then some r.scores else o) d
unfolding updated
row_of-cons_updated q r new o rest d h e = elim (Bool-cases ((r.date, r.user) == q)) [
  | inl same ↦ rw same (rw (h same) (ap some (scores-updated r new)))
  | inr other ↦ rw other (e ∙ rw other refl)
]

row_of-cons_kept :
    (q : ℕ × ℕ) (r : ScoreRow) (o : Option Score) (rest : List ScoreRow) (d : Option UserScores)
    → (((r.date, r.user) == q) ≡ true → d ≡ none)
    → row_of q rest ≡ merged o d
    → row_of q (r ∷ rest) ≡ merged (if (r.date, r.user) == q then some r.scores else o) d
row_of-cons_kept q r o rest d h e = elim (Bool-cases ((r.date, r.user) == q)) [
  | inl same ↦ rw same (rw (h same) refl)
  | inr other ↦ rw other e
]

row_of-update_rows :
    (q : ℕ × ℕ) (rows : List ScoreRow) (d : ScoreDict)
    → row_of q (update_rows rows d).0 ≡ merged (row_of q rows) (lookup q d)
row_of-update_rows q [] d = unfold update_rows in refl
row_of-update_rows q (r ∷ rows) d = elim (Option-cases (lookup (r.date, r.user) d)) [
  | inl absent ↦ rw (rows_kept r rows d absent) (
      row_of-cons_kept q r (row_of q rows) _ (lookup q d)
        (λ same. same_key q (r.date, r.user) d same ∙ absent) (row_of-update_rows q rows d))
  | inr (new, found) ↦ rw (rows_updated r rows d new found) (
      row_of-cons_updated q r new (row_of q rows) _ (lookup q d)
        (λ same. same_key q (r.date, r.user) d same ∙ found)
        (row_of-update_rows q rows (del (r.date, r.user) d)
          ∙ ap (merged (row_of q rows)) (lookup-del q (r.date, r.user) d)))
]

-- For every date and user set_scores leaves the columns of the last scores that it is given for
-- them, 0 where one is missing, and where it is given none the row of before, if there is one.
pub row_of-set_scores :
    (scores : ScoreDict) (rows : List ScoreRow) (q : ℕ × ℕ)
    → row_of q (set_scores scores rows)
      ≡ or_else (column_row (lookup q (dict scores))) (row_of q rows)
unfolding set_scores
row_of-set_scores scores rows q =
    let d = dict scores in
    let (kept, left) = update_rows rows d in
    ground (
      arith,
      row_of-append q kept (new_scores left),
      row_of-new_scores q left,
      lookup-left q rows d,
      row_of-update_rows q rows d,
    )
