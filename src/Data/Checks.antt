-- ===== src/Data/Checks.antt =====
-- pootle_data/utils.py: `DataUpdater.set_check_data`, which brings the rows of the failing checks of
-- a store or TP in line with what has been counted. `K` stands for a category with a name.
pub mod Table
use pootle.Base.{
  ℕ, ◌+◌, Bool, not, Option, none, some, List, [], ◌∷◌, ◌++◌, ◌==◌, Eq, nat_eq, if◌then◌else◌,
  contains, keys, filter, lookup, insert, dict, del, get_or,
}

-- A row of the checks' data.
pub record CheckRow (K : Type 0) : Type 0 where
  pub pk : ℕ
  pub check : K
  pub count : ℕ

-- The counts that have been made, each a check with its number.
abbrev pub Counts : Type 0 → Type 0
Counts K = List (K × ℕ)

-- `checks`, `to_update` and `to_add` after the loop.
pub record Changes (K : Type 0) : Type 0 where
  pub unused : List (K × (ℕ × ℕ))
  pub to_update : List (ℕ × ℕ)
  pub to_add : Counts K

module _ {K : Type 0} ⦃e : Eq K⦄ where
  -- `existing_checks`.
  unfoldable pub existing : List (CheckRow K) → List (K × (ℕ × ℕ))
  existing [] = []
  existing (r ∷ rows) = (r.check, (r.pk, r.count)) ∷ existing rows

  unfoldable pub compare_checks : Counts K → List (K × (ℕ × ℕ)) → Changes K
  compare_checks [] checks = record { unused = checks; to_update = []; to_add = [] }
  compare_checks ((k, n) ∷ counts) checks =
      let absent = compare_checks counts checks in
      let found = compare_checks counts (del k checks) in
      elim (lookup k checks) [
        | none ↦ record absent { to_add = (k, n) ∷ absent.to_add }
        | some (pk, count) ↦
            if count == n then found else record found { to_update = (pk, n) ∷ found.to_update }
      ]

  -- `delete.send` of the checks that are left.
  unfoldable pub delete_checks : List K → List (CheckRow K) → List (CheckRow K)
  delete_checks ks rows = filter (λ r. not (contains r.check ks)) rows

  -- `update.send`, of the counts by the rows' keys.
  unfoldable pub update_checks : List (ℕ × ℕ) → List (CheckRow K) → List (CheckRow K)
  update_checks updates [] = []
  update_checks updates (r ∷ rows) =
      record r { count = get_or r.count (lookup r.pk updates) } ∷ update_checks updates rows

  -- `create.send`; the table gives the new rows the next keys.
  unfoldable pub create_checks : ℕ → Counts K → List (CheckRow K)
  create_checks next [] = []
  create_checks next ((k, n) ∷ counts) =
      record { pk = next; check = k; count = n } ∷ create_checks (next + 1) counts

  unfoldable pub set_check_data : ℕ → Counts K → List (CheckRow K) → List (CheckRow K)
  unfolding existing compare_checks delete_checks update_checks create_checks
  set_check_data next counts rows =
      let changes = compare_checks counts (dict (existing rows)) in
      update_checks (dict changes.to_update) (delete_checks (keys changes.unused) rows)
      ++ create_checks next changes.to_add
