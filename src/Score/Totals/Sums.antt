-- ===== src/Score/Totals/Sums.antt =====
-- The totals of a TP and of a user are the sums of the rows below them.
use mathlib.Core.Bool.{true≢false}
use pootle.Base.{
  or_else, get_or, ℕ, ◌+◌, ◌-◌, Bool, true, false, ◌&&◌, Option, none, some, List, [], ◌∷◌, ◌==◌,
  nat_eq, pair_eq, if◌then◌else◌, leb, is_some, any, lookup, insert, insert_all, keys, Distinct,
  Distinct-keys-insert, ◌≡◌, refl, ap, sym, ◌∙◌, arith, Bool-cases, Option-cases, inl, inr,
  lookup-insert, lookup-of-absent,
}
use pootle.Score.Calculate.{
  Score, ScoreKey, score, translations, reviewed, suggested, UserScores, key_eq,
}
use pootle.Score.Calculate.Sums.{part}
use pootle.Score.Update.{ScoreRow, ScoreDict, columns}
use pootle.Score.Update.Table.{row_of, column_of, row_of-set_scores}
use pootle.Score.Totals.{
  is_of_users, set_user_scores, no_scores, add_columns, grouped, as_dict, group_scores, update_tp,
  user_scores,
}

-- The sum of a column over the rows of a date and user.
unfoldable pub column_sum : ScoreKey → ℕ × ℕ → List ScoreRow → ℕ
column_sum k q [] = 0
column_sum k q (r ∷ rows) =
    (if (r.date, r.user) == q then part k r.scores else 0) + column_sum k q rows

part-add_columns : (k : ScoreKey) (a b : Score) → part k (add_columns a b) ≡ part k a + part k b
part-add_columns score a b = refl
part-add_columns translations a b = refl
part-add_columns reviewed a b = refl
part-add_columns suggested a b = refl

part-no_scores : (k : ScoreKey) → part k no_scores ≡ 0
part-no_scores score = refl
part-no_scores translations = refl
part-no_scores reviewed = refl
part-no_scores suggested = refl

columns-as_dict : (s : Score) → columns (as_dict s) ≡ s
columns-as_dict s = refl

part-insert :
    (k : ScoreKey) (q j : ℕ × ℕ) (s : Score) (d : List ((ℕ × ℕ) × Score))
    → part k
        (get_or no_scores (lookup q (insert j (add_columns s (get_or no_scores (lookup j d))) d)))
      ≡ (if j == q then part k s else 0) + part k (get_or no_scores (lookup q d))
part-insert k q j s d = elim (Bool-cases (j == q)) [
  | inl same ↦ rw (lookup-insert q j (add_columns s (get_or no_scores (lookup j d))) d) (
      rw same (
        part-add_columns k s (get_or no_scores (lookup j d))
        ∙ ap (λ x. part k s + part k (get_or no_scores (lookup x d)))
            ((pair_eq.eqb_iff j q).0 same)))
  | inr other ↦
      rw (lookup-insert q j (add_columns s (get_or no_scores (lookup j d))) d)
        (rw other (ground arith))
]

other_key :
    (users : List ℕ) (q : ℕ × ℕ) (r : ScoreRow)
    → is_of_users users q.1 ≡ true
    → is_of_users users r.user ≡ false
    → ((r.date, r.user) == q) ≡ false
other_key users (d, u) r h n = ground (arith, nat_eq.eqb_iff r.user u)

-- The group of a key is that of its rows.
lookup-grouped :
    (users : List ℕ) (k : ScoreKey) (q : ℕ × ℕ) (rows : List ScoreRow)
    → is_of_users users q.1 ≡ true
    → part k (get_or no_scores (lookup q (grouped users rows))) ≡ column_sum k q rows
unfolding grouped column_sum
lookup-grouped users k q [] h = part-no_scores k
lookup-grouped users k q (r ∷ rows) h = elim (Bool-cases (is_of_users users r.user)) [
  | inl of_users ↦ rw of_users (
      part-insert k q (r.date, r.user) r.scores (grouped users rows)
      ∙ ap (λ n. (if (r.date, r.user) == q then part k r.scores else 0) + n)
          (lookup-grouped users k q rows h))
  | inr not_of ↦
      rw not_of (rw (other_key users q r h not_of) (lookup-grouped users k q rows h ∙ ground arith))
]

is_some-insert :
    (q j : ℕ × ℕ) (s t : Score) (d : List ((ℕ × ℕ) × Score)) (o : Option Score)
    → is_some (lookup q d) ≡ is_some o
    → is_some (lookup q (insert j s d)) ≡ is_some (if j == q then some t else o)
is_some-insert q j s t d o e = elim (Bool-cases (j == q)) [
  | inl same ↦ rw (lookup-insert q j s d) (rw same refl)
  | inr other ↦ rw (lookup-insert q j s d) (rw other e)
]

is_some-grouped :
    (users : List ℕ) (q : ℕ × ℕ) (rows : List ScoreRow)
    → is_of_users users q.1 ≡ true
    → is_some (lookup q (grouped users rows)) ≡ is_some (row_of q rows)
unfolding grouped
is_some-grouped users q [] h = refl
is_some-grouped users q (r ∷ rows) h = elim (Bool-cases (is_of_users users r.user)) [
  | inl of_users ↦ rw of_users (
      is_some-insert q (r.date, r.user) _ r.scores (grouped users rows) (row_of q rows)
        (is_some-grouped users q rows h))
  | inr not_of ↦ rw not_of (rw (other_key users q r h not_of) (is_some-grouped users q rows h))
]

-- Each key stands once, so that the dict is the list.
Distinct-grouped : (users : List ℕ) (rows : List ScoreRow) → Distinct (keys (grouped users rows))
unfolding grouped
Distinct-grouped users [] = tt
Distinct-grouped users (r ∷ rows) = elim (Bool-cases (is_of_users users r.user)) [
  | inl of_users ↦
      rw of_users
        (Distinct-keys-insert (r.date, r.user) _ (grouped users rows) (Distinct-grouped users rows))
  | inr not_of ↦ rw not_of (Distinct-grouped users rows)
]

abbrev as_dicts : Option Score → Option UserScores
as_dicts none = none
as_dicts (some s) = some (as_dict s)

lookup-dict :
    (q : ℕ × ℕ) (acc : ScoreDict) (d : List ((ℕ × ℕ) × Score))
    → Distinct (keys d)
    → lookup q (insert_all acc (group_scores d)) ≡ or_else (as_dicts (lookup q d)) (lookup q acc)
unfolding group_scores
lookup-dict q acc [] h = refl
lookup-dict q acc ((j, s) ∷ d) h = lookup-dict q (insert j (as_dict s) acc) d h.1 ∙ step
  where
    step :
        or_else (as_dicts (lookup q d)) (lookup q (insert j (as_dict s) acc))
        ≡ or_else (as_dicts (if j == q then some s else lookup q d)) (lookup q acc)
    step = elim (Bool-cases (j == q)) [
      | inl same ↦
          let gone =
            ap (λ x. lookup x d) (sym ((pair_eq.eqb_iff j q).0 same)) ∙ lookup-of-absent j d h.0 in
          rw gone (rw (lookup-insert q j (as_dict s) acc) (rw same refl))
      | inr other ↦ rw (lookup-insert q j (as_dict s) acc) (rw other refl)
    ]

-- After the update of a TP's scores for some users, or for all, the row of one of them and a day
-- for which a store has a row holds in every column the sum over the rows of the stores.
pub update_tp-sums :
    (users : List ℕ) (store_rows rows : List ScoreRow) (d u : ℕ) (k : ScoreKey)
    → is_of_users users u ≡ true
    → is_some (row_of (d, u) store_rows) ≡ true
    → column_of k (row_of (d, u) (update_tp users store_rows rows)) ≡ column_sum k (d, u) store_rows
unfolding update_tp
update_tp-sums users store_rows rows d u k seen worked =
    elim (Option-cases (lookup (d, u) (grouped users store_rows))) [
      | inl absent ↦
          elim (true≢false (
            sym worked
            ∙ sym (is_some-grouped users (d, u) store_rows seen)
            ∙ ap is_some absent)) [ ]
      | inr (s, found) ↦
          ap (column_of k) (row_of-set_scores (group_scores (grouped users store_rows)) rows (d, u))
          ∙ rw
              (lookup-dict (d, u) [] (grouped users store_rows) (Distinct-grouped users store_rows))
              (rw found (
                ap (λ o. part k (get_or no_scores o)) (sym found)
                ∙ lookup-grouped users k (d, u) store_rows seen))
    ]

-- The `score`s of a user in the rows of the last 30 days.
unfoldable pub recent_score : ℕ → ℕ → List ScoreRow → ℕ
recent_score today u [] = 0
recent_score today u (r ∷ rows) =
    (if leb (today - 30) r.date && r.user == u then r.scores.score_value else 0)
    + recent_score today u rows

-- The calculated score of a user, if the users asked for include the user, is the sum of the
-- scores of the last 30 days.
pub user_scores-recent :
    (today : ℕ) (users : List ℕ) (u : ℕ) (rows : List ScoreRow)
    → is_of_users users u ≡ true
    → get_or 0 (lookup u (user_scores today users rows)) ≡ recent_score today u rows
unfolding user_scores recent_score
user_scores-recent today users u [] h = refl
user_scores-recent today users u (r ∷ rows) h =
    let rest = user_scores today users rows in
    ground (
      arith,
      user_scores-recent today users u rows h,
      lookup-insert u r.user (r.scores.score_value + get_or 0 (lookup r.user rest)) rest,
      nat_eq.eqb_iff r.user u,
    )

unfoldable pub is_recent : ℕ → ℕ → ScoreRow → Bool
is_recent today u r = leb (today - 30) r.date && r.user == u

no_user_scores :
    (today : ℕ) (users : List ℕ) (u : ℕ) (rows : List ScoreRow)
    → any (is_recent today u) rows ≡ false
    → lookup u (user_scores today users rows) ≡ none
unfolding user_scores is_recent
no_user_scores today users u [] h = refl
no_user_scores today users u (r ∷ rows) h =
    let rest = user_scores today users rows in
    ground (
      arith,
      no_user_scores today users u rows,
      lookup-insert u r.user (r.scores.score_value + get_or 0 (lookup r.user rest)) rest,
      nat_eq.eqb_iff r.user u,
    )

lookup-set_user_scores :
    (u : ℕ) (calculated scores : List (ℕ × ℕ))
    → lookup u calculated ≡ none
    → lookup u (set_user_scores calculated scores) ≡ lookup u scores
unfolding set_user_scores
lookup-set_user_scores u calculated [] h = refl
lookup-set_user_scores u calculated ((v, old) ∷ scores) h = elim (Bool-cases (v == u)) [
  | inl same ↦ rw same (
      ap some (
        ap (λ x. get_or old (lookup x calculated)) ((nat_eq.eqb_iff v u).0 same)
        ∙ ap (get_or old) h))
  | inr other ↦ rw other (lookup-set_user_scores u calculated scores h)
]

-- A user with no row in the last 30 days keeps the score of before when the scores of users are
-- updated.
pub lapsed_score_stays :
    (today : ℕ) (users : List ℕ) (u : ℕ) (rows : List ScoreRow) (scores : List (ℕ × ℕ))
    → any (is_recent today u) rows ≡ false
    → lookup u (set_user_scores (user_scores today users rows) scores) ≡ lookup u scores
lapsed_score_stays today users u rows scores h =
    lookup-set_user_scores u (user_scores today users rows) scores
      (no_user_scores today users u rows h)
