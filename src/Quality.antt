-- ===== src/Quality.antt =====
-- pootle_checks/utils.py: `QualityCheckUpdater` and `UnitQualityCheck`, which bring the table of
-- the quality checks in line with what the checkers find.
pub mod Rows
pub mod Compare
pub mod Updated
pub mod Filters
mod Tests
use pootle.Base.{
  ℕ, String, Bool, true, false, not, ◌&&◌, ◌||◌, Option, none, some, List, [], ◌∷◌, ◌++◌, map, ◌==◌,
  nat_eq, string_eq, if◌then◌else◌, filter, any, contains, is_nonempty, lookup, insert,
}
use pootle.Store.Unit.{UnitState, fuzzy, translated}

pub record CheckedUnit : Type 0 where
  pub id : ℕ
  pub store : ℕ
  pub tp : ℕ
  pub state : UnitState

pub record QualityRow : Type 0 where
  pub unit : ℕ
  pub name : String
  pub message : String
  pub category : ℕ
  pub false_positive : Bool

-- `check_failures`: each check that fails, with its message and category.
abbrev pub Failures : Type 0
Failures = List (String × (String × ℕ))

-- The filters are those of the translate toolkit. `run_test`: none if the checker has no such
-- filter, some none if the unit passes it, or the message of its failure.
pub record FilterChecker : Type 0 where
  pub run_test : CheckedUnit → String → Option (Option String)
  pub is_default : String → Bool
  pub category : String → ℕ

-- A `TeeChecker` with its checkers, or any other.
pub data Checker : Type 0 where
  tee : List FilterChecker → Checker
  one : FilterChecker → Checker

-- The first of the checkers that has the filter.
unfoldable pub with_filter : CheckedUnit → String → List FilterChecker → Option FilterChecker
with_filter u name [] = none
with_filter u name (c ∷ checkers) =
    let rest = with_filter u name checkers in
    elim (c.run_test u name) [ none ↦ rest | some result ↦ some c ]

-- The failures with the result of a filter.
abbrev pub add_result : FilterChecker → String → Option (Option String) → Failures → Failures
add_result c name none rest = rest
add_result c name (some none) rest = rest
add_result c name (some (some message)) rest =
    if c.is_default name then insert name (message, c.category name) rest else rest

-- The loop over the names. The checker that was found stands for all from then on.
unfoldable pub run_given_filters : CheckedUnit → List String → Checker → Failures
unfolding with_filter
run_given_filters u [] checker = []
run_given_filters u (name ∷ names) (one c) =
    add_result c name (c.run_test u name) (run_given_filters u names (one c))
run_given_filters u (name ∷ names) (tee checkers) = elim (with_filter u name checkers) [
  | none ↦ run_given_filters u names (tee checkers)
  | some c ↦ add_result c name (c.run_test u name) (run_given_filters u names (one c))
]

-- A checker, with what `run_filters` of it reports.
pub record UnitChecker : Type 0 where
  pub filters : Checker
  pub run_filters : CheckedUnit → Failures

unfoldable pub check_failures : Option (List String) → UnitChecker → CheckedUnit → Failures
unfolding run_given_filters
check_failures none checker u = checker.run_filters u
check_failures (some names) checker u = run_given_filters u names checker.filters

-- The units of `units`, the units whose checks are in `checks_qs`, and `check_names`.
pub record Selection : Type 0 where
  pub has_unit : CheckedUnit → Bool
  pub has_checks_of : CheckedUnit → Bool
  pub check_names : Option (List String)

-- `state__gt=UNTRANSLATED`.
abbrev pub is_translated : UnitState → Bool
is_translated fuzzy = true
is_translated translated = true
is_translated _ = false

abbrev pub wants : Option (List String) → String → Bool
wants none name = true
wants (some names) name = contains name names

module _ (sel : Selection) (units : List CheckedUnit) where
  -- Whether the checks of a unit are in `checks_qs`, and whether it is translated.
  abbrev pub in_checks_qs : ℕ → Bool
  in_checks_qs unit = any (λ (u : CheckedUnit). u.id == unit && sel.has_checks_of u) units

  abbrev pub is_translated_unit : ℕ → Bool
  is_translated_unit unit = any (λ (u : CheckedUnit). u.id == unit && is_translated u.state) units

  -- Whether `update_untranslated` deletes the checks of a unit.
  unfoldable pub is_excluded : ℕ → Bool
  is_excluded unit = in_checks_qs unit && not (is_translated_unit unit)

  -- The TPs and stores of the units that have such checks.
  unfoldable pub untranslated_stores : List QualityRow → List CheckedUnit → List (ℕ × ℕ)
  unfolding is_excluded
  untranslated_stores rows [] = []
  untranslated_stores rows (u ∷ l) =
      let rest = untranslated_stores rows l in
      if is_excluded u.id && any (λ (r : QualityRow). r.unit == u.id) rows
      then (u.tp, u.store) ∷ rest
      else rest

  unfoldable pub update_untranslated : List QualityRow → List QualityRow × List (ℕ × ℕ)
  unfolding is_excluded untranslated_stores
  update_untranslated rows =
      (filter (λ r. not (is_excluded r.unit)) rows, untranslated_stores rows units)

  -- The keys of `checks` for a unit.
  unfoldable pub original_checks : ℕ → List QualityRow → List String
  original_checks unit [] = []
  original_checks unit (r ∷ rows) =
      let rest = original_checks unit rows in
      if r.unit == unit && (in_checks_qs r.unit && wants sel.check_names r.name)
      then r.name ∷ rest
      else rest

-- The loop of `update_checks`: the checks to create, and the original ones that are left.
unfoldable pub compare_failures : Failures → List String → Failures × List String
compare_failures [] original = ([], original)
compare_failures ((name, failure) ∷ failures) original =
    let found = compare_failures failures (filter (λ n. not (n == name)) original) in
    let absent = compare_failures failures original in
    if contains name original then found else ((name, failure) ∷ absent.0, absent.1)

unfoldable pub create_checks : ℕ → Failures → List QualityRow
create_checks unit [] = []
create_checks unit ((name, (message, category)) ∷ failures) =
    record {
      unit = unit;
      name = name;
      message = message;
      category = category;
      false_positive = false;
    }
    ∷ create_checks unit failures

unfoldable pub delete_checks : ℕ → List String → List QualityRow → List QualityRow
delete_checks unit names rows =
    filter (λ (r : QualityRow). not (r.unit == unit && contains r.name names)) rows

-- `UnitQualityCheck.update`, and whether it changes a check.
unfoldable pub update_checks : ℕ → Failures → List String → List QualityRow → List QualityRow × Bool
unfolding compare_failures create_checks delete_checks
update_checks unit failures original rows =
    let changes = compare_failures failures original in
    (
      delete_checks unit changes.1 rows ++ create_checks unit changes.0,
      is_nonempty changes.0 || is_nonempty changes.1,
    )

module _ (sel : Selection) (units : List CheckedUnit) (get_checker : ℕ → Option UnitChecker) where
  -- One turn of `update_translated`; `existing` are the rows that `checks` was read from.
  unfoldable pub update_translated_unit :
      List QualityRow
      → CheckedUnit
      → List QualityRow × List (ℕ × ℕ)
      → List QualityRow × List (ℕ × ℕ)
  unfolding update_checks original_checks check_failures
  update_translated_unit existing u (rows, stores) =
      if sel.has_unit u && is_translated u.state
      then elim (get_checker u.tp) [
        | none ↦ (rows, stores)
        | some checker ↦
            let updated =
              update_checks u.id (check_failures sel.check_names checker u)
                (original_checks sel units u.id existing) rows in
            (updated.0, if updated.1 then (u.tp, u.store) ∷ stores else stores)
      ]
      else (rows, stores)

  unfoldable pub update_translated :
      List QualityRow
      → List CheckedUnit
      → List QualityRow × List (ℕ × ℕ)
      → List QualityRow × List (ℕ × ℕ)
  unfolding update_translated_unit
  update_translated existing [] state = state
  update_translated existing (u ∷ l) state =
      update_translated existing l (update_translated_unit existing u state)

  -- `update`, with the TPs and stores that it has updated.
  unfoldable pub update : List QualityRow → List QualityRow × List (ℕ × ℕ)
  unfolding update_untranslated update_translated
  update rows = let kept = update_untranslated sel units rows in update_translated kept.0 units kept
