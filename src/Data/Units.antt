-- ===== src/Data/Units.antt =====
-- pootle_data/store_data.py: what `StoreDataUpdater` counts of the units of a store, and
-- `get_store_data` and `update` of pootle_data/utils.py without a choice of fields.
pub mod Words
pub mod Latest
use pootle.Base.{
  ℕ, ◌+◌, Bool, true, false, not, ◌&&◌, ◌||◌, Option, none, some, List, [], ◌∷◌, map, ◌==◌, Eq,
  nat_eq, option_eq, if◌then◌else◌, ltb, leb, filter, lookup, insert, get_or,
}
use pootle.Store.Unit.{UnitState, obsolete, untranslated, fuzzy, translated, unit_state_eq}
use pootle.Data.Checks.{Counts, CheckRow, set_check_data}

-- A unit, with the wordcount of its source and the number of its pending suggestions.
pub record UnitRow : Type 0 where
  pub id : ℕ
  pub state : UnitState
  pub source_wordcount : ℕ
  pub revision : ℕ
  pub mtime : ℕ
  pub creation_time : Option ℕ
  pub pending_suggestions : ℕ

-- A quality check of a unit, with the unit's state.
pub record QualityCheck (K : Type 0) : Type 0 where
  pub check : K
  pub false_positive : Bool
  pub unit_state : UnitState

-- `state__gt=OBSOLETE`.
abbrev pub is_live : UnitState → Bool
is_live obsolete = false
is_live _ = true

-- `Sum` and `Max` give NULL for no rows.
unfoldable pub sum_of {ℓ} : {A : Type ℓ} → (A → ℕ) → List A → Option ℕ
sum_of f [] = none
sum_of f (x ∷ l) = some (f x + get_or 0 (sum_of f l))

unfoldable pub max_of {ℓ} : {A : Type ℓ} → (A → ℕ) → List A → Option ℕ
max_of f [] = none
max_of f (x ∷ l) = elim (max_of f l) [
  | none ↦ some (f x)
  | some m ↦ some (if ltb (f x) m then m else f x)
]

-- `aggregate_words`: each case, with its default.
abbrev pub words_when : (UnitState → Bool) → UnitRow → ℕ
words_when p u = if p u.state && ltb 0 u.source_wordcount then u.source_wordcount else 0

-- `order_by("-creation_time", "-revision", "-id")`, of a time and a unit.
abbrev pub comes_first : ℕ → UnitRow → ℕ → UnitRow → Bool
comes_first s a t b =
    ltb t s
    || (s == t && (ltb b.revision a.revision || (a.revision == b.revision && ltb b.id a.id)))

-- The first of the units that are live and have a creation time.
abbrev pub first_of : ℕ → UnitRow → Option (ℕ × UnitRow) → ℕ × UnitRow
first_of s a none = (s, a)
first_of s a (some (t, b)) = if comes_first t b s a then (t, b) else (s, a)

abbrev pub with_unit : Option ℕ → UnitRow → Option (ℕ × UnitRow) → Option (ℕ × UnitRow)
with_unit none u best = best
with_unit (some t) u best = if is_live u.state then some (first_of t u best) else best

unfoldable pub last_created : List UnitRow → Option (ℕ × UnitRow)
last_created [] = none
last_created (u ∷ units) = with_unit u.creation_time u (last_created units)

unfoldable pub get_last_created_unit : List UnitRow → Option ℕ
unfolding last_created
get_last_created_unit units = elim (last_created units) [ none ↦ none | some (t, u) ↦ some u.id ]

-- `get_pending_suggestions`: the pending suggestions of live units.
unfoldable pub get_pending_suggestions : List UnitRow → ℕ
get_pending_suggestions [] = 0
get_pending_suggestions (u ∷ units) =
    let rest = get_pending_suggestions units in
    if is_live u.state then u.pending_suggestions + rest else rest

module _ {K : Type 0} ⦃e : Eq K⦄ where
  -- `get_checks` of a store: a row for each check with its number.
  abbrev pub is_failing : QualityCheck K → Bool
  is_failing c = not c.false_positive && is_live c.unit_state

  unfoldable pub count_checks : List (QualityCheck K) → Counts K
  count_checks [] = []
  count_checks (c ∷ checks) =
      let rest = count_checks checks in
      if is_failing c then insert c.check (1 + get_or 0 (lookup c.check rest)) rest else rest

  unfoldable pub get_checks : Bool → List (QualityCheck K) → Counts K
  unfolding count_checks
  get_checks store_obsolete checks = if store_obsolete then [] else count_checks checks

  -- `get_critical_checks`, for the checks whose category is critical.
  unfoldable pub get_critical_checks : (K → Bool) → Counts K → ℕ
  get_critical_checks is_critical [] = 0
  get_critical_checks is_critical ((k, n) ∷ counts) =
      let rest = get_critical_checks is_critical counts in if is_critical k then n + rest else rest

-- A row of `StoreData`, or of `TPData`.
pub record DataRow : Type 0 where
  pub critical_checks : ℕ
  pub last_created_unit : Option ℕ
  pub max_unit_mtime : Option ℕ
  pub max_unit_revision : ℕ
  pub last_submission : Option ℕ
  pub translated_words : ℕ
  pub total_words : ℕ
  pub fuzzy_words : ℕ
  pub pending_suggestions : ℕ

-- What an update of a store reads.
pub record StoreSource (K : Type 0) : Type 0 where
  pub obsolete_store : Bool
  pub units : List UnitRow
  pub checks : List (QualityCheck K)
  pub submission : Option ℕ

module _ {K : Type 0} ⦃e : Eq K⦄ (is_critical : K → Bool) where
  -- `get_store_data`: `aggregate_defaults` stand for the sums of an obsolete store.
  unfoldable pub get_store_data : StoreSource K → DataRow × Counts K
  unfolding sum_of max_of get_last_created_unit get_pending_suggestions get_checks
      get_critical_checks
  get_store_data s =
      let counts = get_checks s.obsolete_store s.checks in
      let unless_obsolete = λ (n : ℕ). if s.obsolete_store then 0 else n in
      (
        record {
          critical_checks = unless_obsolete (get_critical_checks is_critical counts);
          last_created_unit = get_last_created_unit s.units;
          max_unit_mtime = max_of (λ (u : UnitRow). u.mtime) s.units;
          max_unit_revision = get_or 0 (max_of (λ (u : UnitRow). u.revision) s.units);
          last_submission = s.submission;
          translated_words =
              unless_obsolete
                (get_or 0 (sum_of (words_when (λ state. state == translated)) s.units));
          total_words = unless_obsolete (get_or 0 (sum_of (words_when is_live) s.units));
          fuzzy_words =
              unless_obsolete (get_or 0 (sum_of (words_when (λ state. state == fuzzy)) s.units));
          pending_suggestions = unless_obsolete (get_pending_suggestions s.units);
        },
        counts,
      )
