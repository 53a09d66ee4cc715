-- ===== src/Quality/Filters.antt =====
-- What `run_given_filters` of pootle_checks/utils.py reports.
use pootle.Base.{
  String, true, false, Option, none, some, List, [], ◌∷◌, ◌==◌, string_eq, eq_iff, if◌then◌else◌,
  lookup, insert, lookup-insert, ◌≡◌, refl, arith, Bool-cases, inl, inr, ap, ◌∙◌, Distinct,
  Distinct-keys-insert, keys,
}
use pootle.Quality.{
  CheckedUnit, Failures, FilterChecker, Checker, one, tee, with_filter, add_result,
  run_given_filters, UnitChecker, check_failures,
}

add_other :
    (c : FilterChecker) (q name : String) (o : Option (Option String)) (rest : Failures)
    → (name == q) ≡ false
    → lookup q rest ≡ none
    → lookup q (add_result c name o rest) ≡ none
add_other c q name none rest h k = k
add_other c q name (some none) rest h k = k
add_other c q name (some (some message)) rest h k =
    ground
      (arith, lookup-insert q name (message, c.category name) rest, eq_iff q name, eq_iff name q)

add_none :
    (c : FilterChecker) (q name : String) (o : Option (Option String)) (rest : Failures)
    → o ≡ none
    → lookup q rest ≡ none
    → lookup q (add_result c name o rest) ≡ none
add_none c q name o rest h k = rw h k

-- A checker without a filter reports nothing under its name.
lookup-lacking :
    (u : CheckedUnit) (c : FilterChecker) (q : String) (names : List String)
    → c.run_test u q ≡ none
    → lookup q (run_given_filters u names (one c)) ≡ none
unfolding run_given_filters
lookup-lacking u c q [] h = refl
lookup-lacking u c q (name ∷ names) h = elim (Bool-cases (name == q)) [
  | inl same ↦
      add_none c q name (c.run_test u name) (run_given_filters u names (one c))
        (ap (c.run_test u) ((eq_iff name q).0 same) ∙ h) (lookup-lacking u c q names h)
  | inr other ↦
      add_other c q name (c.run_test u name) (run_given_filters u names (one c)) other
        (lookup-lacking u c q names h)
]

-- Once run_given_filters has found one of the checkers of a TeeChecker that has the first of the
-- names, it reports no failure of a name that this checker lacks, though another checker has it
-- and the unit fails it.
pub lookup-run_given_filters :
    (u : CheckedUnit) (checkers : List FilterChecker) (c : FilterChecker) (name q : String)
    (names : List String)
    → with_filter u name checkers ≡ some c
    → c.run_test u q ≡ none
    → lookup q (run_given_filters u (name ∷ names) (tee checkers)) ≡ none
unfolding run_given_filters
lookup-run_given_filters u checkers c name q names found lacks =
    rw (found, run_given_filters) (lookup-lacking u c q (name ∷ names) lacks)

Distinct-add_result :
    (c : FilterChecker) (name : String) (o : Option (Option String)) (rest : Failures)
    → Distinct (keys rest)
    → Distinct (keys (add_result c name o rest))
Distinct-add_result c name none rest d = d
Distinct-add_result c name (some none) rest d = d
Distinct-add_result c name (some (some message)) rest d =
    elim (c.is_default name)
      as (λ b. Distinct (keys (if b then insert name (message, c.category name) rest else rest))) [
        | true ↦ Distinct-keys-insert name (message, c.category name) rest d
        | false ↦ d
      ]

Distinct-run_given_filters :
    (u : CheckedUnit) (names : List String) (checker : Checker)
    → Distinct (keys (run_given_filters u names checker))
unfolding run_given_filters
Distinct-run_given_filters u [] checker = tt
Distinct-run_given_filters u (name ∷ names) (one c) =
    Distinct-add_result c name (c.run_test u name) _ (Distinct-run_given_filters u names (one c))
Distinct-run_given_filters u (name ∷ names) (tee checkers) =
    elim (with_filter u name checkers)
      as (λ o. Distinct (
        keys (elim o as (λ x. Failures) [
          | none ↦ run_given_filters u names (tee checkers)
          | some c ↦ add_result c name (c.run_test u name) (run_given_filters u names (one c))
        ]))) [
          | none ↦ Distinct-run_given_filters u names (tee checkers)
          | some c ↦
              Distinct-add_result c name (c.run_test u name) _
                (Distinct-run_given_filters u names (one c))
        ]

-- The names of the failures are distinct, if those that the toolkit reports are.
pub Distinct-check_failures :
    (names : Option (List String)) (checker : UnitChecker) (u : CheckedUnit)
    → Distinct (keys (checker.run_filters u))
    → Distinct (keys (check_failures names checker u))
unfolding check_failures
Distinct-check_failures none checker u d = d
Distinct-check_failures (some names) checker u d =
    Distinct-run_given_filters u names checker.filters
