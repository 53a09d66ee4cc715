-- ===== src/Data/Units/Words.antt =====
-- The counts of a store's units and checks.
use pootle.Base.{
  ◌+◌, ◌≤◌, Bool, ◌&&◌, List, [], ◌∷◌, ◌==◌, Eq, nat_eq, if◌then◌else◌, filter, length, lookup,
  insert, get_or, ◌≡◌, refl, arith,
}
use pootle.Store.Unit.{fuzzy, translated, unit_state_eq}
use pootle.Data.Checks.{Counts}
use pootle.Data.Units.{
  UnitRow, QualityCheck, StoreSource, is_live, sum_of, words_when, is_failing, count_checks,
  get_critical_checks, get_store_data,
}

words-le :
    (units : List UnitRow)
    → get_or 0 (sum_of (words_when (λ state. state == translated)) units)
        + get_or 0 (sum_of (words_when (λ state. state == fuzzy)) units)
      ≤ get_or 0 (sum_of (words_when is_live) units)
unfolding sum_of
words-le [] = ground arith
words-le (u ∷ units) = ground (arith, words-le units)

module _ {K : Type 0} ⦃e : Eq K⦄ (is_critical : K → Bool) where
  critical-insert :
      (k : K) (d : Counts K)
      → get_critical_checks is_critical (insert k (1 + get_or 0 (lookup k d)) d)
        ≡ (if is_critical k then 1 else 0) + get_critical_checks is_critical d
  unfolding get_critical_checks
  critical-insert k [] = ground arith
  critical-insert k ((j, m) ∷ d) = ground (arith, critical-insert k d, e.eqb_iff j k)

  pub critical-count_checks :
      (checks : List (QualityCheck K))
      → get_critical_checks is_critical (count_checks checks)
        ≡ length (filter (λ c. is_failing c && is_critical c.check) checks)
  unfolding count_checks get_critical_checks
  critical-count_checks [] = refl
  critical-count_checks (c ∷ checks) =
      ground (arith, critical-count_checks checks, critical-insert c.check (count_checks checks))

  -- The translated and the fuzzy words of a store are together at most its words.
  pub get_store_data_bounds :
      (s : StoreSource K)
      → (get_store_data is_critical s).0.translated_words
          + (get_store_data is_critical s).0.fuzzy_words
        ≤ (get_store_data is_critical s).0.total_words
  unfolding get_store_data
  get_store_data_bounds s = ground (arith, words-le s.units)
