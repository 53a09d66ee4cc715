-- ===== src/Quality/Tests.antt =====
-- The theorems about quality checks at small data.
use pootle.Base.{
  ℕ, true, false, Option, none, some, List, [], ◌∷◌, ◌≡◌, refl, inl, inr, lookup, if◌then◌else◌,
  ◌==◌, string_eq,
}
use pootle.Store.Unit.{translated, untranslated}
use pootle.Quality.{
  CheckedUnit, QualityRow, Failures, Selection, update, FilterChecker, tee, with_filter,
  run_given_filters, UnitChecker, check_failures,
}
use pootle.Quality.Filters.{lookup-run_given_filters}
use pootle.Quality.Rows.{row_of}
use pootle.Quality.Compare.{wanted_row}
use pootle.Quality.Updated.{row_of-update, row_of-update-none}

abbrev everything : Selection
everything = record { has_unit = λ u. true; has_checks_of = λ u. true; check_names = none }

abbrev done : CheckedUnit
done = record { id = 1; store = 4; tp = 2; state = translated }

abbrev empty : CheckedUnit
empty = record { id = 2; store = 5; tp = 2; state = untranslated }

-- `printf` was muted and fails still, `urls` does not fail any more, and `accelerators` fails now.
abbrev printf : ℕ → QualityRow
printf unit = record {
  unit = unit;
  name = "printf";
  message = "";
  category = 100;
  false_positive = true;
}

abbrev rows : List QualityRow
rows = printf 1 ∷ record (printf 1) { name = "urls"; false_positive = false } ∷ printf 2 ∷ []

abbrev failing : CheckedUnit → Failures
failing u = ("printf", ("", 100)) ∷ ("accelerators", ("", 50)) ∷ []

-- No filters of its own, as no names are given.
abbrev site_checker : UnitChecker
site_checker = record { filters = tee []; run_filters = failing }

abbrev get_checker : ℕ → Option UnitChecker
get_checker tp = some site_checker

updated_rows : update everything (done ∷ empty ∷ []) get_checker rows ≡ (
  printf 1
      ∷ record (printf 1) { name = "accelerators"; category = 50; false_positive = false }
      ∷ [],
  (2, 4) ∷ (2, 5) ∷ [],
)
unfolding update
updated_rows = refl

row_of-update_example :
    row_of 1 "printf" (update everything (done ∷ empty ∷ []) get_checker rows).0
    ≡ wanted_row 1 "printf" (check_failures none site_checker done) (row_of 1 "printf" rows)
row_of-update_example =
    row_of-update everything (done ∷ empty ∷ []) get_checker rows done "printf" site_checker
      (inl refl) (refl, (refl, tt)) refl refl refl refl (refl, (refl, tt)) refl

row_of-update-none_example :
    row_of 2 "printf" (update everything (done ∷ empty ∷ []) get_checker rows).0 ≡ none
row_of-update-none_example =
    row_of-update-none everything (done ∷ empty ∷ []) get_checker rows empty "printf"
      (inr (inl refl)) (refl, (refl, tt)) refl refl

-- One checker has `printf`, which the unit passes, and the other has `urls`, which it fails.
abbrev first_checker : FilterChecker
first_checker = record {
  run_test = λ u name. if name == "printf" then some none else none;
  is_default = λ name. true;
  category = λ name. 100;
}

abbrev second_checker : FilterChecker
second_checker = record first_checker {
  run_test = λ u name. if name == "urls" then some (some "a link") else none;
}

-- Alone, the second name is found.
urls_alone :
    run_given_filters done ("urls" ∷ []) (tee (first_checker ∷ second_checker ∷ []))
    ≡ ("urls", ("a link", 100)) ∷ []
unfolding run_given_filters
urls_alone = refl

found_first : with_filter done "printf" (first_checker ∷ second_checker ∷ []) ≡ some first_checker
unfolding with_filter
found_first = refl

lookup-run_given_filters_example :
    lookup "urls"
      (run_given_filters done ("printf" ∷ "urls" ∷ []) (tee (first_checker ∷ second_checker ∷ [])))
    ≡ none
lookup-run_given_filters_example =
    lookup-run_given_filters done (first_checker ∷ second_checker ∷ []) first_checker "printf"
      "urls" ("urls" ∷ []) found_first refl
