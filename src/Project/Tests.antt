-- ===== src/Project/Tests.antt =====
-- The theorems about pootle_project at small data.
use pootle.Base.{◌≡◌, ◌↔◌, refl, some, none, [], ◌∷◌}
use pootle.Project.LangMapper.{LangConfig, parse_mappings, get_pootle_code, get_upstream_code}
use pootle.Project.LangMapper.OneToOne.{get_pootle_code-get_upstream_code}

-- The project's own mapping takes `de` from the preset.
abbrev config : LangConfig
config = record {
  site_presets = ("posix", ("de_AT", "de") ∷ ("pt_BR", "pt") ∷ []) ∷ [];
  project_presets = "posix" ∷ "missing" ∷ [];
  project_mappings = ("german", "de") ∷ [];
}

mapped : parse_mappings config ≡ ("pt_BR", "pt") ∷ ("german", "de") ∷ []
unfolding parse_mappings
mapped = refl

-- `de` itself is no code of the files any more.
taken : get_pootle_code (parse_mappings config) "de" ≡ none
unfolding parse_mappings get_pootle_code
taken = refl

get_pootle_code-get_upstream_code_example :
    (get_pootle_code (parse_mappings config) "german" ≡ some "de")
    ↔ (get_upstream_code (parse_mappings config) "de" ≡ some "german")
get_pootle_code-get_upstream_code_example = get_pootle_code-get_upstream_code config "german" "de"
