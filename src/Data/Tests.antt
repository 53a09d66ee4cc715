-- ===== src/Data/Tests.antt =====
-- The theorems about statistics at small data.
use pootle.Base.{
  ℕ, ◌+◌, ◌≤◌, String, Bool, true, false, some, none, List, [], ◌∷◌, ◌==◌, string_eq, nat_eq, del,
  lookup, ◌≡◌, refl, inl,
}
use pootle.Store.Unit.{translated, fuzzy, obsolete}
use pootle.Data.Checks.{CheckRow, Counts, set_check_data}
use pootle.Data.Checks.Table.{count_of, count_of-set_check_data}
use pootle.Data.Units.{UnitRow, StoreSource, DataRow, get_store_data, get_last_created_unit}
use pootle.Data.Units.Words.{get_store_data_bounds}
use pootle.Data.Units.Latest.{IsFound, IsLater, get_last_created_unit_lem}
use pootle.Data.Totals.{StoredData, Stores, update_stores, update_tp_data}
use pootle.Data.Totals.Units.{IsTotal, IsTotal-update_tp_data}
use pootle.Data.Children.{ChildRow, aggregate_children, get_children_stats}
use pootle.Data.Children.Sums.{total_key, agg_stat, sum_rows, stat-aggregate_children}
use pootle.Data.Children.Latest.{later, latest_row, latest-aggregate_children}

-- Two checks are stored; `accelerators` is gone now, `printf` has one more, and `urls` is new.
abbrev check_rows : List (CheckRow String)
check_rows =
    record { pk = 1; check = "printf"; count = 2 }
    ∷ record { pk = 2; check = "accelerators"; count = 5 }
    ∷ []

abbrev counts : Counts String
counts = ("printf", 3) ∷ ("urls", 1) ∷ []

updated :
    set_check_data 3 counts check_rows
    ≡ record { pk = 1; check = "printf"; count = 3 }
      ∷ record { pk = 3; check = "urls"; count = 1 }
      ∷ []
unfolding set_check_data del
updated = refl

count_of-set_check_data_example :
    count_of "printf" (set_check_data 3 counts check_rows) ≡ lookup "printf" counts
count_of-set_check_data_example =
    count_of-set_check_data 3 counts check_rows "printf" (refl, (refl, tt)) (refl, (refl, tt))
      (refl, (refl, tt))

abbrev unit_1 : UnitRow
unit_1 = record {
  id = 1;
  state = translated;
  source_wordcount = 4;
  revision = 9;
  mtime = 20;
  creation_time = some 10;
  pending_suggestions = 1;
}

-- The second was made later, and the third, which is obsolete, last.
abbrev units : List UnitRow
units =
    unit_1
    ∷ record unit_1 {
      id = 2;
      state = fuzzy;
      creation_time = some 12;
      source_wordcount = 3;
      pending_suggestions = 0;
    }
    ∷ record unit_1 { id = 3; state = obsolete; creation_time = some 30 }
    ∷ []

abbrev source : StoreSource String
source = record {
  obsolete_store = false;
  units = units;
  checks =
      record { check = "printf"; false_positive = false; unit_state = translated }
      ∷ record { check = "printf"; false_positive = true; unit_state = fuzzy }
      ∷ [];
  submission = some 6;
}

abbrev is_critical : String → Bool
is_critical check = check == "printf"

get_store_data_bounds_example :
    (get_store_data is_critical source).0.translated_words
      + (get_store_data is_critical source).0.fuzzy_words
    ≤ (get_store_data is_critical source).0.total_words
get_store_data_bounds_example = get_store_data_bounds is_critical source

get_last_created_unit_lem_example :
    (t : ℕ) × (b : UnitRow) × (get_last_created_unit units ≡ some b.id)
    × IsFound units t b
    × IsLater 10 unit_1 t b
get_last_created_unit_lem_example = get_last_created_unit_lem units unit_1 10 (inl refl) refl refl

last_created_is : get_last_created_unit units ≡ some 2
unfolding get_last_created_unit
last_created_is = refl

abbrev nothing_stored : StoredData String
nothing_stored = record { data_row = none; check_rows = [] }

abbrev tp_stores : Stores String
tp_stores =
    (source, nothing_stored) ∷ (record source { obsolete_store = true }, nothing_stored) ∷ []

IsTotal-update_tp_data_example :
    (r : DataRow) × ((update_tp_data 1
        (update_stores is_critical 1 tp_stores)
        nothing_stored).0.data_row
      ≡ some r)
    × IsTotal is_critical tp_stores r
IsTotal-update_tp_data_example = IsTotal-update_tp_data is_critical 1 tp_stores nothing_stored

abbrev child : String → ℕ → ChildRow
child root words = record {
  root = root;
  total_words = words;
  fuzzy_words = 0;
  translated_words = 2;
  critical_checks = 0;
  pending_suggestions = 1;
  last_submission = some words;
  last_created_unit = none;
}

abbrev dirs : List ChildRow
dirs = child "fr" 12 ∷ child "de" 9 ∷ child "fr" 3 ∷ []

abbrev files : List ChildRow
files = child "af.po" 20 ∷ []

stat-aggregate_children_example :
    agg_stat total_key (aggregate_children (λ pk. none) false (get_children_stats dirs files))
    ≡ sum_rows false total_key dirs + sum_rows false total_key files
stat-aggregate_children_example = stat-aggregate_children false total_key (λ pk. none) dirs files

latest-aggregate_children_example :
    (aggregate_children (λ pk. none) false (get_children_stats dirs files)).agg_submission
    ≡ later (latest_row false dirs) (latest_row false files)
latest-aggregate_children_example =
    latest-aggregate_children false (λ pk. none) dirs files (refl, (refl, (refl, tt))) (refl, tt)
