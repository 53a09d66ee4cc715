-- ===== src/Data/Totals.antt =====
-- `DataUpdater.update` of pootle_data/utils.py, and pootle_data/tp_data.py: what `TPDataUpdater` adds
-- up of the rows of the stores.
pub mod Units
use pootle.Base.{
  ℕ, ◌+◌, Bool, true, false, not, ◌&&◌, ◌||◌, Option, none, some, List, [], ◌∷◌, ◌++◌, map, ◌==◌,
  Eq, nat_eq, option_eq, if◌then◌else◌, ltb, lookup, insert, get_or,
}
use pootle.Data.Checks.{Counts, CheckRow, set_check_data}
use pootle.Data.Units.{DataRow, StoreSource, get_store_data, sum_of, max_of}

-- `set_data` of a field: the value that is kept, and whether it has changed.
abbrev pub set_data {ℓ} : {A : Type ℓ} ⦃e : Eq A⦄ → A → A → A × Bool
set_data old new = if old == new then (old, false) else (new, true)

-- The row with the fields that have changed, and whether one has.
unfoldable pub set_fields : DataRow → DataRow → DataRow × Bool
set_fields old new =
    let critical = set_data old.critical_checks new.critical_checks in
    let created = set_data old.last_created_unit new.last_created_unit in
    let mtime = set_data old.max_unit_mtime new.max_unit_mtime in
    let revision = set_data old.max_unit_revision new.max_unit_revision in
    let submission = set_data old.last_submission new.last_submission in
    let translated = set_data old.translated_words new.translated_words in
    let total = set_data old.total_words new.total_words in
    let fuzzy = set_data old.fuzzy_words new.fuzzy_words in
    let pending = set_data old.pending_suggestions new.pending_suggestions in
    (
      record {
        critical_checks = critical.0;
        last_created_unit = created.0;
        max_unit_mtime = mtime.0;
        max_unit_revision = revision.0;
        last_submission = submission.0;
        translated_words = translated.0;
        total_words = total.0;
        fuzzy_words = fuzzy.0;
        pending_suggestions = pending.0;
      },
      critical.1 || created.1 || mtime.1 || revision.1 || submission.1 || translated.1 || total.1
          || fuzzy.1 || pending.1,
    )

-- The data of a store or TP: its row, if it has one, and the rows of its checks.
pub record StoredData (K : Type 0) : Type 0 where
  pub data_row : Option DataRow
  pub check_rows : List (CheckRow K)

-- The greatest of the values that are not NULL.
unfoldable pub max_of_some : (DataRow → Option ℕ) → List DataRow → Option ℕ
max_of_some f [] = none
max_of_some f (r ∷ rows) = elim (f r) [
  | none ↦ max_of_some f rows
  | some n ↦ elim (max_of_some f rows) [ none ↦ some n | some m ↦ some (if ltb n m then m else n) ]
]

-- The stores of a TP, each with its data. Their check rows are kept apart.
abbrev pub Stores : Type 0 → Type 0
Stores K = List (StoreSource K × StoredData K)

abbrev pub rows_of : Option DataRow → List DataRow
rows_of none = []
rows_of (some r) = r ∷ []

unfoldable pub data_rows : {K : Type 0} → Stores K → List DataRow
data_rows [] = []
data_rows ((s, stored) ∷ stores) = rows_of stored.data_row ++ data_rows stores

unfoldable pub check_rows_of : {K : Type 0} → Stores K → List (CheckRow K)
check_rows_of [] = []
check_rows_of ((s, stored) ∷ stores) = stored.check_rows ++ check_rows_of stores

module _ {K : Type 0} ⦃e : Eq K⦄ where
  -- `update`, and whether the row of data is written; `next` is the next key of the checks' table.
  unfoldable pub update_data : ℕ → DataRow × Counts K → StoredData K → StoredData K × Bool
  unfolding set_fields set_check_data
  update_data next (new, counts) stored =
      let check_rows = set_check_data next counts stored.check_rows in
      elim stored.data_row [
        | none ↦ (record { data_row = some new; check_rows = check_rows }, true)
        | some old ↦ (
          record { data_row = some ((set_fields old new).0); check_rows = check_rows },
          (set_fields old new).1,
        )
      ]

  -- `values("category", "name").annotate(count=Sum("count"))`.
  unfoldable pub sum_checks : List (CheckRow K) → Counts K
  sum_checks [] = []
  sum_checks (r ∷ rows) =
      let rest = sum_checks rows in insert r.check (r.count + get_or 0 (lookup r.check rest)) rest

  -- `get_store_data` of a TP, from the rows of its stores and those of their checks.
  unfoldable pub get_tp_data : List DataRow → List (CheckRow K) → DataRow × Counts K
  unfolding sum_of max_of max_of_some sum_checks
  get_tp_data rows check_rows = (
    record {
      critical_checks = get_or 0 (sum_of (λ (r : DataRow). r.critical_checks) rows);
      last_created_unit = max_of_some (λ r. r.last_created_unit) rows;
      max_unit_mtime = max_of_some (λ r. r.max_unit_mtime) rows;
      max_unit_revision = get_or 0 (max_of (λ (r : DataRow). r.max_unit_revision) rows);
      last_submission = max_of_some (λ r. r.last_submission) rows;
      translated_words = get_or 0 (sum_of (λ (r : DataRow). r.translated_words) rows);
      total_words = get_or 0 (sum_of (λ (r : DataRow). r.total_words) rows);
      fuzzy_words = get_or 0 (sum_of (λ (r : DataRow). r.fuzzy_words) rows);
      pending_suggestions = get_or 0 (sum_of (λ (r : DataRow). r.pending_suggestions) rows);
    },
    sum_checks check_rows,
  )

  unfoldable pub update_stores : (K → Bool) → ℕ → Stores K → Stores K
  unfolding get_store_data update_data
  update_stores is_critical next [] = []
  update_stores is_critical next ((s, stored) ∷ stores) =
      (s, (update_data next (get_store_data is_critical s) stored).0)
      ∷ update_stores is_critical next stores

  unfoldable pub update_tp_data : ℕ → Stores K → StoredData K → StoredData K × Bool
  unfolding get_tp_data update_data data_rows check_rows_of
  update_tp_data next stores stored =
      update_data next (get_tp_data (data_rows stores) (check_rows_of stores)) stored
