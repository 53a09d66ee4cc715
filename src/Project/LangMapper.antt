-- ===== src/Project/LangMapper.antt =====
-- pootle_project/lang_mapper.py: `ProjectLanguageMapper`. Dicts are lists of pairs, in the order of
-- an `OrderedDict`.
pub mod OneToOne
use pootle.Base.{
  String, Option, none, some, List, [], ◌∷◌, ◌==◌, string_eq, if◌then◌else◌, contains, lookup,
  insert, insert_all, keys, values,
}

abbrev pub Mapping : Type 0
Mapping = List (String × String)

-- The site's presets, by name, the names of the presets that a project uses, and its own mappings.
pub record LangConfig : Type 0 where
  pub site_presets : List (String × Mapping)
  pub project_presets : List String
  pub project_mappings : Mapping

-- `mappings_from_presets`, from a mapping on; an unknown preset is passed over.
unfoldable pub mappings_from_presets : List (String × Mapping) → List String → Mapping → Mapping
mappings_from_presets site [] m = m
mappings_from_presets site (name ∷ names) m =
    mappings_from_presets site names
      (elim (lookup name site) [ none ↦ m | some preset ↦ insert_all m preset ])

-- The loop of `_add_lang_to_mapping`: the first pair with a value is deleted.
unfoldable pub delete_value : String → Mapping → Mapping
delete_value v [] = []
delete_value v ((k, w) ∷ m) = let rest = delete_value v m in if w == v then m else (k, w) ∷ rest

unfoldable pub add_lang_to_mapping : String → String → Mapping → Mapping
unfolding delete_value
add_lang_to_mapping upstream_code pootle_code m =
    insert upstream_code pootle_code
      (if contains pootle_code (values m) then delete_value pootle_code m else m)

-- The loop of `_parse_mappings`.
unfoldable pub add_langs : Mapping → Mapping → Mapping
unfolding add_lang_to_mapping
add_langs [] m = m
add_langs ((upstream_code, pootle_code) ∷ l) m =
    add_langs l (add_lang_to_mapping upstream_code pootle_code m)

unfoldable pub parse_mappings : LangConfig → Mapping
unfolding mappings_from_presets add_langs
parse_mappings c =
    add_langs
      (insert_all (mappings_from_presets c.site_presets c.project_presets []) c.project_mappings) []

-- The first key with a value.
unfoldable pub key_of : String → Mapping → Option String
key_of v [] = none
key_of v ((k, w) ∷ m) = let rest = key_of v m in if v == w then some k else rest

unfoldable pub get_pootle_code : Mapping → String → Option String
get_pootle_code m upstream_code = elim (lookup upstream_code m) [
  | some code ↦ some code
  | none ↦ if contains upstream_code (values m) then none else some upstream_code
]

unfoldable pub get_upstream_code : Mapping → String → Option String
unfolding key_of
get_upstream_code m pootle_code = elim (key_of pootle_code m) [
  | some code ↦ some code
  | none ↦ if contains pootle_code (keys m) then none else some pootle_code
]

-- `get_lang`, with the languages by their codes, and `in`.
unfoldable pub get_lang {ℓ} : {L : Type ℓ} → List (String × L) → Mapping → String → Option L
unfolding get_pootle_code
get_lang all_languages m upstream_code = elim (get_pootle_code m upstream_code) [
  | none ↦ none
  | some code ↦ lookup code all_languages
]
