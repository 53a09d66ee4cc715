-- ===== src/Quality/Compare.antt =====
-- What `update_checks` creates and deletes, and what a unit has of it.
use pootle.Base.{
  ℕ, String, true, false, not, ◌&&◌, Option, none, some, List, [], ◌∷◌, ◌==◌, nat_eq, string_eq,
  eq_iff, if◌then◌else◌, filter, contains, lookup, or_else, keys, Distinct, ◌≡◌, refl, arith,
  Bool-cases, inl, inr, is_some, is_some-lookup, ap, ◌∙◌,
}
use pootle.Quality.{
  QualityRow, Failures, Selection, CheckedUnit, in_checks_qs, wants, original_checks,
  compare_failures, create_checks, delete_checks, update_checks,
}
use pootle.Quality.Rows.{
  row_of, new_row, row_of-append, row_of-create_checks, row_of-create_others, row_of-delete_checks,
  row_of-delete_others,
}

contains-others :
    (q name : String) (names : List String)
    → contains q (filter (λ n. not (n == name)) names) ≡ (contains q names && not (q == name))
contains-others q name [] = refl
contains-others q name (n ∷ names) =
    ground (arith, contains-others q name names, eq_iff n name, eq_iff q n, eq_iff q name)

lookup-created :
    (q : String) (failures : Failures) (original : List String)
    → Distinct (keys failures)
    → lookup q (compare_failures failures original).0
      ≡ (if contains q original then none else lookup q failures)
unfolding compare_failures
lookup-created q [] original d = ground arith
lookup-created q ((name, failure) ∷ failures) original d = ground (
  arith,
  lookup-created q failures original d.1,
  lookup-created q failures (filter (λ n. not (n == name)) original) d.1,
  contains-others q name original,
  eq_iff q name,
  eq_iff name q,
  is_some-lookup q failures,
)

contains-left :
    (q : String) (failures : Failures) (original : List String)
    → contains q (compare_failures failures original).1
      ≡ (contains q original && not (contains q (keys failures)))
unfolding compare_failures
contains-left q [] original = ground arith
contains-left q ((name, failure) ∷ failures) original = ground (
  arith,
  contains-left q failures original,
  contains-left q failures (filter (λ n. not (n == name)) original),
  contains-others q name original,
  eq_iff q name,
  eq_iff name q,
)

pub contains-original :
    (sel : Selection) (units : List CheckedUnit) (unit : ℕ) (q : String) (rows : List QualityRow)
    → in_checks_qs sel units unit ≡ true
    → wants sel.check_names q ≡ true
    → contains q (original_checks sel units unit rows) ≡ is_some (row_of unit q rows)
unfolding original_checks row_of
contains-original sel units unit q [] h k = refl
contains-original sel units unit q (r ∷ rows) h k = elim (Bool-cases (r.unit == unit)) [
  | inl same ↦
      let here : in_checks_qs sel units r.unit ≡ true =
        ap (in_checks_qs sel units) ((nat_eq.eqb_iff r.unit unit).0 same) ∙ h in
      elim (Bool-cases (r.name == q)) [
        | inl named ↦
            let wanted : wants sel.check_names r.name ≡ true =
              ap (wants sel.check_names) ((eq_iff r.name q).0 named) ∙ k in
            ground
              (arith, contains-original sel units unit q rows h k, eq_iff q r.name, eq_iff r.name q)
        | inr other ↦
            ground
              (arith, contains-original sel units unit q rows h k, eq_iff q r.name, eq_iff r.name q)
      ]
  | inr other ↦ ground (arith, contains-original sel units unit q rows h k)
]

-- A check that fails has the row of before or a new one, and one that does not has none.
abbrev pub wanted_row : ℕ → String → Failures → Option QualityRow → Option QualityRow
wanted_row unit q failures old = elim (lookup q failures) [
  | none ↦ none
  | some failure ↦ or_else old (new_row unit q (some failure))
]

pub row_of-update_checks :
    (unit : ℕ) (q : String) (failures : Failures) (original : List String) (rows : List QualityRow)
    → Distinct (keys failures)
    → contains q original ≡ is_some (row_of unit q rows)
    → row_of unit q (update_checks unit failures original rows).0
      ≡ wanted_row unit q failures (row_of unit q rows)
unfolding update_checks
row_of-update_checks unit q failures original rows d h =
    let c = compare_failures failures original in
    row_of-append unit q (delete_checks unit c.1 rows) (create_checks unit c.0)
    ∙ ground (
      arith,
      row_of-delete_checks unit q c.1 rows,
      row_of-create_checks unit q c.0,
      lookup-created q failures original d,
      contains-left q failures original,
      is_some-lookup q failures,
    )

pub row_of-update_others :
    (unit other : ℕ) (q : String) (failures : Failures) (original : List String)
    (rows : List QualityRow)
    → (other == unit) ≡ false
    → row_of unit q (update_checks other failures original rows).0 ≡ row_of unit q rows
unfolding update_checks
row_of-update_others unit other q failures original rows h =
    let c = compare_failures failures original in
    row_of-append unit q (delete_checks other c.1 rows) (create_checks other c.0)
    ∙ ground (
      arith,
      row_of-delete_others unit other q c.1 rows h,
      row_of-create_others unit other q c.0 h,
    )
