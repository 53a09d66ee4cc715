-- ===== src/Data/Children/Sums.antt =====
-- What is added up of the children is the sum of the rows.
use pootle.Base.{
  ℕ, ◌+◌, String, Bool, true, false, Option, none, some, List, [], ◌∷◌, string_eq, eq_iff,
  if◌then◌else◌, lookup, insert, Bool-cases, inl, inr, ◌≡◌, refl, ◌∙◌, arith,
}
use pootle.Data.Children.{
  ChildRow, Stats, no_stats, add_row, add_to, ChildrenStats, add_child_stats, add_children,
  get_children_stats, Aggregate, no_aggregate, is_left_out, aggregate_child, aggregate_from,
  aggregate_children,
}

-- The sums of the statistics.
pub data StatKey : Type 0 where
  total_key fuzzy_key translated_key critical_key suggestions_key : StatKey

abbrev pub row_stat : StatKey → ChildRow → ℕ
row_stat total_key r = r.total_words
row_stat fuzzy_key r = r.fuzzy_words
row_stat translated_key r = r.translated_words
row_stat critical_key r = r.critical_checks
row_stat suggestions_key r = r.pending_suggestions

abbrev stat : StatKey → Stats → ℕ
stat total_key s = s.total
stat fuzzy_key s = s.fuzzy
stat translated_key s = s.translated
stat critical_key s = s.critical
stat suggestions_key s = s.suggestions

abbrev pub agg_stat : StatKey → Aggregate → ℕ
agg_stat total_key a = a.agg_total
agg_stat fuzzy_key a = a.agg_fuzzy
agg_stat translated_key a = a.agg_translated
agg_stat critical_key a = a.agg_critical
agg_stat suggestions_key a = a.agg_suggestions

abbrev old_stat : StatKey → Option Stats → ℕ
old_stat k none = 0
old_stat k (some s) = stat k s

stat-add_row :
    (k : StatKey) (b : Bool) (s : Stats) (r : ChildRow)
    → stat k (add_row b s r) ≡ stat k s + row_stat k r
unfolding add_row
stat-add_row total_key b s r = refl
stat-add_row fuzzy_key b s r = refl
stat-add_row translated_key b s r = refl
stat-add_row critical_key b s r = refl
stat-add_row suggestions_key b s r = refl

no_stat : (k : StatKey) → stat k no_stats ≡ 0
no_stat total_key = refl
no_stat fuzzy_key = refl
no_stat translated_key = refl
no_stat critical_key = refl
no_stat suggestions_key = refl

stat-add_to :
    (k : StatKey) (o : Option Stats) (r : ChildRow)
    → stat k (add_to o r) ≡ old_stat k o + row_stat k r
stat-add_to k none r = ground (arith, stat-add_row k true no_stats r, no_stat k)
stat-add_to k (some s) r = stat-add_row k false s r

nothing_added : (k : StatKey) → agg_stat k no_aggregate ≡ 0
nothing_added total_key = refl
nothing_added fuzzy_key = refl
nothing_added translated_key = refl
nothing_added critical_key = refl
nothing_added suggestions_key = refl

module _ (of_templates : Bool) (k : StatKey) where
  abbrev unless_left_out : String → ℕ → ℕ
  unless_left_out path n = if is_left_out of_templates path then 0 else n

  -- The sum over the rows whose child is not left out.
  unfoldable pub sum_rows : List ChildRow → ℕ
  sum_rows [] = 0
  sum_rows (r ∷ rows) = unless_left_out r.root (row_stat k r) + sum_rows rows

  sum_children : ChildrenStats → ℕ
  sum_children [] = 0
  sum_children ((path, s) ∷ children) = unless_left_out path (stat k s) + sum_children children

  sum-insert :
      (path : String) (s : Stats) (children : ChildrenStats)
      → sum_children (insert path s children)
          + unless_left_out path (old_stat k (lookup path children))
        ≡ sum_children children + unless_left_out path (stat k s)
  unfolding sum_children
  sum-insert path s [] = ground arith
  sum-insert path s ((p, t) ∷ children) = ground (arith, sum-insert path s children, eq_iff p path)

  sum-add_child_stats :
      (children : ChildrenStats) (r : ChildRow)
      → sum_children (add_child_stats children r)
        ≡ sum_children children + unless_left_out r.root (row_stat k r)
  unfolding add_child_stats
  sum-add_child_stats children r =
      let old = lookup r.root children in
      ground (arith, sum-insert r.root (add_to old r) children, stat-add_to k old r)

  sum-add_children :
      (children : ChildrenStats) (rows : List ChildRow)
      → sum_children (add_children children rows) ≡ sum_children children + sum_rows rows
  unfolding add_children sum_rows
  sum-add_children children [] = ground arith
  sum-add_children children (r ∷ rows) =
      ground
        (arith, sum-add_children (add_child_stats children r) rows, sum-add_child_stats children r)

  module _ (creation_time : ℕ → Option ℕ) where
    stat-aggregate_child :
        (a : Aggregate) (s : Stats)
        → agg_stat k (aggregate_child creation_time of_templates a s) ≡ agg_stat k a + stat k s
    stat-aggregate_child a s = by_key k
      where
        by_key :
            (k : StatKey)
            → agg_stat k (aggregate_child creation_time of_templates a s) ≡ agg_stat k a + stat k s
        by_key total_key = unfold aggregate_child in refl
        by_key fuzzy_key = unfold aggregate_child in refl
        by_key translated_key = unfold aggregate_child in refl
        by_key critical_key = unfold aggregate_child in refl
        by_key suggestions_key = unfold aggregate_child in refl

    stat-aggregate_from :
        (a : Aggregate) (children : ChildrenStats)
        → agg_stat k (aggregate_from creation_time of_templates a children)
          ≡ agg_stat k a + sum_children children
    unfolding aggregate_from sum_children
    stat-aggregate_from a [] = ground arith
    stat-aggregate_from a ((path, s) ∷ children) =
        elim (Bool-cases (is_left_out of_templates path)) [
          | inl out ↦ rw out (stat-aggregate_from a children ∙ ground arith)
          | inr counted ↦ rw counted (
              ground (
                arith,
                stat-aggregate_from (aggregate_child creation_time of_templates a s) children,
                stat-aggregate_child a s,
              ))
        ]

    -- Each sum of aggregate_children is the sum over the rows of both queries that are not of
    -- templates, or over all rows in the context of the templates.
    pub stat-aggregate_children :
        (grouped stores : List ChildRow)
        → agg_stat k
            (aggregate_children creation_time of_templates (get_children_stats grouped stores))
          ≡ sum_rows grouped + sum_rows stores
    unfolding aggregate_children get_children_stats sum_children
    stat-aggregate_children grouped stores =
        let dirs = add_children [] grouped in
        ground (
          arith,
          stat-aggregate_from no_aggregate (add_children dirs stores),
          nothing_added k,
          sum-add_children dirs stores,
          sum-add_children [] grouped,
        )
