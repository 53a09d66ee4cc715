-- ===== src/Quality/Rows.antt =====
-- The row of a unit and a check, in the table after rows are deleted or created.
use pootle.Base.{
  ℕ, String, Bool, false, ◌&&◌, Option, none, some, List, [], ◌∷◌, ◌++◌, ◌==◌, nat_eq, string_eq,
  eq_iff, if◌then◌else◌, filter, contains, lookup, or_else, ◌≡◌, refl, arith,
}
use pootle.Quality.{QualityRow, Failures, create_checks, delete_checks}

-- The first row of the unit and the check.
unfoldable pub row_of : ℕ → String → List QualityRow → Option QualityRow
row_of unit name [] = none
row_of unit name (r ∷ rows) =
    let rest = row_of unit name rows in if r.unit == unit && r.name == name then some r else rest

-- The row that is made of a failure.
abbrev pub new_row : ℕ → String → Option (String × ℕ) → Option QualityRow
new_row unit name none = none
new_row unit name (some (message, category)) = some (record {
  unit = unit;
  name = name;
  message = message;
  category = category;
  false_positive = false;
})

pub row_of-append :
    (unit : ℕ) (name : String) (rows more : List QualityRow)
    → row_of unit name (rows ++ more) ≡ or_else (row_of unit name rows) (row_of unit name more)
unfolding row_of
row_of-append unit name [] more = refl
row_of-append unit name (r ∷ rows) more = ground (arith, row_of-append unit name rows more)

pub row_of-create_checks :
    (unit : ℕ) (name : String) (failures : Failures)
    → row_of unit name (create_checks unit failures) ≡ new_row unit name (lookup name failures)
unfolding row_of create_checks
row_of-create_checks unit name [] = refl
row_of-create_checks unit name ((n, (message, category)) ∷ failures) =
    ground (arith, row_of-create_checks unit name failures, eq_iff n name, nat_eq.eqb_iff unit unit)

pub row_of-create_others :
    (unit other : ℕ) (name : String) (failures : Failures)
    → (other == unit) ≡ false
    → row_of unit name (create_checks other failures) ≡ none
unfolding row_of create_checks
row_of-create_others unit other name [] h = refl
row_of-create_others unit other name ((n, (message, category)) ∷ failures) h =
    ground (arith, row_of-create_others unit other name failures h)

pub row_of-delete_checks :
    (unit : ℕ) (name : String) (names : List String) (rows : List QualityRow)
    → row_of unit name (delete_checks unit names rows)
      ≡ (if contains name names then none else row_of unit name rows)
unfolding row_of delete_checks
row_of-delete_checks unit name names [] = ground arith
row_of-delete_checks unit name names (r ∷ rows) =
    ground (arith, row_of-delete_checks unit name names rows, eq_iff r.name name)

pub row_of-delete_others :
    (unit other : ℕ) (name : String) (names : List String) (rows : List QualityRow)
    → (other == unit) ≡ false
    → row_of unit name (delete_checks other names rows) ≡ row_of unit name rows
unfolding row_of delete_checks
row_of-delete_others unit other name names [] h = refl
row_of-delete_others unit other name names (r ∷ rows) h = ground (
  arith,
  row_of-delete_others unit other name names rows h,
  nat_eq.eqb_iff r.unit unit,
  nat_eq.eqb_iff r.unit other,
  nat_eq.eqb_iff other unit,
)

-- Of rows that are kept by their units.
pub row_of-filter :
    (p : ℕ → Bool) (unit : ℕ) (name : String) (rows : List QualityRow)
    → row_of unit name (filter (λ r. p r.unit) rows)
      ≡ (if p unit then row_of unit name rows else none)
unfolding row_of
row_of-filter p unit name [] = ground arith
row_of-filter p unit name (r ∷ rows) =
    ground (arith, row_of-filter p unit name rows, nat_eq.eqb_iff r.unit unit)
