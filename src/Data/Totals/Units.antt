-- ===== src/Data/Totals/Units.antt =====
-- The data of a TP say of its units and checks what they should, once its stores are up to date.
use pootle.Base.{
  ℕ, ◌+◌, Bool, false, ◌&&◌, Option, none, some, List, [], ◌∷◌, ◌==◌, Eq, nat_eq, option_eq,
  if◌then◌else◌, get_or, length, filter, ◌≡◌, refl, ap, beq_refl, arith,
}
use pootle.Store.Unit.{UnitState, fuzzy, translated, unit_state_eq}
use pootle.Data.Checks.{Counts, CheckRow}
use pootle.Data.Units.{
  DataRow, UnitRow, StoreSource, get_store_data, sum_of, is_live, words_when, is_failing,
  get_checks,
}
use pootle.Data.Units.Words.{critical-count_checks}
use pootle.Data.Totals.{
  set_data, set_fields, StoredData, update_data, get_tp_data, Stores, update_stores, data_rows,
  check_rows_of, update_tp_data,
}

-- The words of a store's units in some states; an obsolete store has none.
unfoldable pub unit_words : (UnitState → Bool) → List UnitRow → ℕ
unit_words p [] = 0
unit_words p (u ∷ units) = (if p u.state then u.source_wordcount else 0) + unit_words p units

abbrev store_words : {K : Type 0} → (UnitState → Bool) → StoreSource K → ℕ
store_words p s = if s.obsolete_store then 0 else unit_words p s.units

unfoldable pub words_of : {K : Type 0} → (UnitState → Bool) → Stores K → ℕ
words_of p [] = 0
words_of p ((s, stored) ∷ stores) = store_words p s + words_of p stores

sum_of-words :
    (p : UnitState → Bool) (units : List UnitRow)
    → get_or 0 (sum_of (words_when p) units) ≡ unit_words p units
unfolding sum_of unit_words
sum_of-words p [] = refl
sum_of-words p (u ∷ units) = ground (arith, sum_of-words p units)

set_data_lem {ℓ} : {A : Type ℓ} ⦃e : Eq A⦄ (old new : A) → (set_data old new).0 ≡ new
set_data_lem ⦃e⦄ old new = ground (arith, e.eqb_iff old new)

set_fields_lem : (old new : DataRow) → (set_fields old new).0 ≡ new
unfolding set_fields
set_fields_lem old new = rw (set_data_lem old.critical_checks new.critical_checks) (
    rw (set_data_lem old.last_created_unit new.last_created_unit) (
      rw (set_data_lem old.max_unit_mtime new.max_unit_mtime) (
        rw (set_data_lem old.max_unit_revision new.max_unit_revision) (
          rw (set_data_lem old.last_submission new.last_submission) (
            rw (set_data_lem old.translated_words new.translated_words) (
              rw (set_data_lem old.total_words new.total_words) (
                rw (set_data_lem old.fuzzy_words new.fuzzy_words)
                  (rw (set_data_lem old.pending_suggestions new.pending_suggestions) refl))))))))

module _ {K : Type 0} ⦃e : Eq K⦄ where
  row-update_data :
      (next : ℕ) (counted : DataRow × Counts K) (stored : StoredData K) (o : Option DataRow)
      → stored.data_row ≡ o
      → (update_data next counted stored).0.data_row ≡ some counted.0
  unfolding update_data
  row-update_data next (new, counts) stored none h = rw (h, update_data) refl
  row-update_data next (new, counts) stored (some old) h =
      rw (h, update_data) (ap some (set_fields_lem old new))

  module _ (is_critical : K → Bool) where
    store_row : StoreSource K → DataRow
    store_row s = (get_store_data is_critical s).0

    -- The number of a store's failing checks that are critical.
    abbrev failing : StoreSource K → ℕ
    failing s =
        if s.obsolete_store
        then 0
        else length (filter (λ c. is_failing c && is_critical c.check) s.checks)

    unfoldable pub failing_checks : Stores K → ℕ
    failing_checks [] = 0
    failing_checks ((s, stored) ∷ stores) = failing s + failing_checks stores

    store_rows : Stores K → List DataRow
    store_rows [] = []
    store_rows ((s, stored) ∷ stores) = store_row s ∷ store_rows stores

    data_rows-update_stores :
        (next : ℕ) (stores : Stores K)
        → data_rows (update_stores is_critical next stores) ≡ store_rows stores
    unfolding data_rows update_stores store_rows store_row
    data_rows-update_stores next [] = refl
    data_rows-update_stores next ((s, stored) ∷ stores) =
        rw (row-update_data next (get_store_data is_critical s) stored stored.data_row refl)
          (ap (λ t. (get_store_data is_critical s).0 ∷ t) (data_rows-update_stores next stores))

    critical-store : (s : StoreSource K) → (store_row s).critical_checks ≡ failing s
    unfolding store_row get_store_data get_checks
    critical-store s = ground (arith, critical-count_checks is_critical s.checks)

    total-store_rows :
        (stores : Stores K)
        → get_or 0 (sum_of (λ (r : DataRow). r.total_words) (store_rows stores))
          ≡ words_of is_live stores
    unfolding store_rows sum_of words_of store_row get_store_data
    total-store_rows [] = refl
    total-store_rows ((s, stored) ∷ stores) =
        ground (arith, total-store_rows stores, sum_of-words is_live s.units)

    translated-store_rows :
        (stores : Stores K)
        → get_or 0 (sum_of (λ (r : DataRow). r.translated_words) (store_rows stores))
          ≡ words_of (λ state. state == translated) stores
    unfolding store_rows sum_of words_of store_row get_store_data
    translated-store_rows [] = refl
    translated-store_rows ((s, stored) ∷ stores) =
        ground
          (arith, translated-store_rows stores, sum_of-words (λ state. state == translated) s.units)

    fuzzy-store_rows :
        (stores : Stores K)
        → get_or 0 (sum_of (λ (r : DataRow). r.fuzzy_words) (store_rows stores))
          ≡ words_of (λ state. state == fuzzy) stores
    unfolding store_rows sum_of words_of store_row get_store_data
    fuzzy-store_rows [] = refl
    fuzzy-store_rows ((s, stored) ∷ stores) =
        ground (arith, fuzzy-store_rows stores, sum_of-words (λ state. state == fuzzy) s.units)

    critical-store_rows :
        (stores : Stores K)
        → get_or 0 (sum_of (λ (r : DataRow). r.critical_checks) (store_rows stores))
          ≡ failing_checks stores
    unfolding store_rows sum_of failing_checks
    critical-store_rows [] = refl
    critical-store_rows ((s, stored) ∷ stores) =
        ground (arith, critical-store_rows stores, critical-store s)

    -- A row that says of the stores what it should.
    pub record IsTotal (stores : Stores K) (r : DataRow) : Type 0 where
      pub total_is : r.total_words ≡ words_of is_live stores
      pub translated_is : r.translated_words ≡ words_of (λ state. state == translated) stores
      pub fuzzy_is : r.fuzzy_words ≡ words_of (λ state. state == fuzzy) stores
      pub critical_is : r.critical_checks ≡ failing_checks stores

    IsTotal-get_tp_data :
        (next : ℕ) (stores : Stores K) (check_rows : List (CheckRow K))
        → IsTotal stores
            (get_tp_data (data_rows (update_stores is_critical next stores)) check_rows).0
    unfolding get_tp_data
    IsTotal-get_tp_data next stores check_rows = rw (data_rows-update_stores next stores) (record {
      total_is = total-store_rows stores;
      translated_is = translated-store_rows stores;
      fuzzy_is = fuzzy-store_rows stores;
      critical_is = critical-store_rows stores;
    })

    -- When its stores are updated first, an update of a TP leaves a row with the words of all
    -- live units, of the translated and of the fuzzy units of its stores, and with the number
    -- of their failing critical checks, obsolete stores left out, whatever the rows were
    -- before.
    pub IsTotal-update_tp_data :
        (next : ℕ) (stores : Stores K) (stored : StoredData K)
        → (r : DataRow) × ((update_tp_data next
              (update_stores is_critical next stores)
              stored).0.data_row
            ≡ some r)
          × IsTotal stores r
    unfolding update_tp_data
    IsTotal-update_tp_data next stores stored =
        let updated = update_stores is_critical next stores in
        let tp = get_tp_data (data_rows updated) (check_rows_of updated) in
        (
          tp.0,
          row-update_data next tp stored stored.data_row refl,
          IsTotal-get_tp_data next stores (check_rows_of updated),
        )

set_data_same {ℓ} : {A : Type ℓ} ⦃e : Eq A⦄ (a : A) → (set_data a a).1 ≡ false
set_data_same a = rw (beq_refl a) refl

set_fields_same : (r : DataRow) → (set_fields r r).1 ≡ false
unfolding set_fields
set_fields_same r = rw (set_data_same r.critical_checks) (
    rw (set_data_same r.last_created_unit) (
      rw (set_data_same r.max_unit_mtime) (
        rw (set_data_same r.max_unit_revision) (
          rw (set_data_same r.last_submission) (
            rw (set_data_same r.translated_words) (
              rw (set_data_same r.total_words) (
                rw (set_data_same r.fuzzy_words)
                  (rw (set_data_same r.pending_suggestions) refl))))))))

-- A second update from the same counts writes nothing to the row.
pub update_data_again :
    {K : Type 0} ⦃e : Eq K⦄ (next later : ℕ) (counted : DataRow × Counts K) (stored : StoredData K)
    → (update_data later counted (update_data next counted stored).0).1 ≡ false
unfolding update_data
update_data_again next later (new, counts) stored =
    rw (row-update_data next (new, counts) stored stored.data_row refl, update_data)
      (set_fields_same new)
