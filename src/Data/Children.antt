-- ===== src/Data/Children.antt =====
-- pootle_data/utils.py: `RelatedStoresDataTool`, the statistics of the children of a directory, TP,
-- language or project, and what is added up of them.
pub mod Sums
pub mod Latest
use text.Mathlib.Text.{starts_with}
use pootle.Base.{
  ℕ, ◌+◌, ◌-◌, String, Bool, true, false, not, ◌&&◌, ◌||◌, Option, none, some, List, [], ◌∷◌, ◌++◌,
  ◌==◌, string_eq, if◌then◌else◌, ltb, lookup, insert, get_or,
}

-- A row of the annotated query, with the child of the context that it belongs to
-- (`get_root_child_path`, or the name of a store in the directory itself).
pub record ChildRow : Type 0 where
  pub root : String
  pub total_words : ℕ
  pub fuzzy_words : ℕ
  pub translated_words : ℕ
  pub critical_checks : ℕ
  pub pending_suggestions : ℕ
  pub last_submission : Option ℕ
  pub last_created_unit : Option ℕ

-- The statistics of a child, by `stats_mapping`.
pub record Stats : Type 0 where
  pub total : ℕ
  pub fuzzy : ℕ
  pub translated : ℕ
  pub critical : ℕ
  pub suggestions : ℕ
  pub last_submission_pk : Option ℕ
  pub last_created_unit_pk : Option ℕ

-- `children[root].get(k)` of a child that is new; its maxima are not there yet.
abbrev pub no_stats : Stats
no_stats = record {
  total = 0;
  fuzzy = 0;
  translated = 0;
  critical = 0;
  suggestions = 0;
  last_submission_pk = none;
  last_created_unit_pk = none;
}

-- `a > b`, where None is less than every number.
unfoldable pub exceeds : Option ℕ → Option ℕ → Bool
exceeds none b = false
exceeds (some a) none = true
exceeds (some a) (some b) = ltb b a

-- `child[child_k] and child[child_k] > children[root][mapped_k]`.
abbrev pub is_set : Option ℕ → Bool
is_set none = false
is_set (some n) = ltb 0 n

unfoldable pub update_max : Bool → Option ℕ → Option ℕ → Option ℕ
unfolding exceeds
update_max is_new old new = if is_new || (is_set new && exceeds new old) then new else old

unfoldable pub add_row : Bool → Stats → ChildRow → Stats
unfolding update_max
add_row is_new s r = record {
  total = s.total + r.total_words;
  fuzzy = s.fuzzy + r.fuzzy_words;
  translated = s.translated + r.translated_words;
  critical = s.critical + r.critical_checks;
  suggestions = s.suggestions + r.pending_suggestions;
  last_submission_pk = update_max is_new s.last_submission_pk r.last_submission;
  last_created_unit_pk = update_max is_new s.last_created_unit_pk r.last_created_unit;
}

abbrev pub add_to : Option Stats → ChildRow → Stats
add_to none r = add_row true no_stats r
add_to (some s) r = add_row false s r

abbrev pub ChildrenStats : Type 0
ChildrenStats = List (String × Stats)

unfoldable pub add_child_stats : ChildrenStats → ChildRow → ChildrenStats
unfolding add_row
add_child_stats children r = insert r.root (add_to (lookup r.root children) r) children

unfoldable pub add_children : ChildrenStats → List ChildRow → ChildrenStats
unfolding add_child_stats
add_children children [] = children
add_children children (r ∷ rows) = add_children (add_child_stats children r) rows

-- `get_children_stats`, of a directory its directories' rows and then its stores'.
unfoldable pub get_children_stats : List ChildRow → List ChildRow → ChildrenStats
unfolding add_children
get_children_stats grouped stores = add_children (add_children [] grouped) stores

-- `agg` and `latest` of `aggregate_children`; the last unit that was created goes by its time.
pub record Aggregate : Type 0 where
  pub agg_total : ℕ
  pub agg_fuzzy : ℕ
  pub agg_translated : ℕ
  pub agg_critical : ℕ
  pub agg_suggestions : ℕ
  pub agg_submission : Option ℕ
  pub agg_created : Option ℕ
  pub agg_created_time : Option ℕ

-- Whether a child is left out: templates, unless the context is the templates'.
unfoldable pub is_left_out : Bool → String → Bool
is_left_out of_templates path =
    (starts_with path "templates-" || path == "templates") && not of_templates

-- The time of a unit by its key; none where the unit is not found.
abbrev pub created_time : (ℕ → Option ℕ) → Option ℕ → Option ℕ
created_time creation_time none = none
created_time creation_time (some pk) = creation_time pk

abbrev pub no_aggregate : Aggregate
no_aggregate = record {
  agg_total = 0;
  agg_fuzzy = 0;
  agg_translated = 0;
  agg_critical = 0;
  agg_suggestions = 0;
  agg_submission = none;
  agg_created = none;
  agg_created_time = none;
}

module _ (creation_time : ℕ → Option ℕ) (of_templates : Bool) where
  unfoldable pub aggregate_child : Aggregate → Stats → Aggregate
  unfolding exceeds
  aggregate_child a s =
      let time = created_time creation_time s.last_created_unit_pk in
      record {
        agg_total = a.agg_total + s.total;
        agg_fuzzy = a.agg_fuzzy + s.fuzzy;
        agg_translated = a.agg_translated + s.translated;
        agg_critical = a.agg_critical + s.critical;
        agg_suggestions = a.agg_suggestions + s.suggestions;
        agg_submission =
            (if exceeds s.last_submission_pk a.agg_submission
              then s.last_submission_pk
              else a.agg_submission);
        agg_created =
            (if exceeds time a.agg_created_time then s.last_created_unit_pk else a.agg_created);
        agg_created_time = (if exceeds time a.agg_created_time then time else a.agg_created_time);
      }

  unfoldable pub aggregate_from : Aggregate → ChildrenStats → Aggregate
  unfolding aggregate_child
  aggregate_from a [] = a
  aggregate_from a ((path, s) ∷ children) =
      aggregate_from (if is_left_out of_templates path then a else aggregate_child a s) children

  unfoldable pub aggregate_children : ChildrenStats → Aggregate
  unfolding aggregate_from
  aggregate_children children = aggregate_from no_aggregate children

-- `untranslated` and `incomplete` of `get_stats`.
unfoldable pub untranslated_of : Bool → Aggregate → Option ℕ
untranslated_of of_templates a =
    if of_templates then none else some (a.agg_total - a.agg_translated)
