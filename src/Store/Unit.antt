-- ===== src/Store/Unit.antt =====
-- pootle_store/models.py: the fields of a `Unit` and the methods that change them.
pub mod Update
use pootle.Base.{
  ℕ, ◌≡◌, String, Bool, true, false, not, ◌&&◌, ◌||◌, Option, none, some, List, [], ◌∷◌, arith, ltb,
  Eq, ◌==◌, ◌↔◌, string_eq, nat_eq, option_eq, list_eq, bool_eq, if◌then◌else◌, length, any,
}

-- The states of a unit, by `pootle_store/constants.py`.
pub data UnitState : Type 0 where
  obsolete untranslated fuzzy translated : UnitState

abbrev pub unit_state_beq : UnitState → UnitState → Bool
unit_state_beq obsolete obsolete = true
unit_state_beq untranslated untranslated = true
unit_state_beq fuzzy fuzzy = true
unit_state_beq translated translated = true
unit_state_beq _ _ = false

pub unit_state_beq_iff : (a b : UnitState) → (unit_state_beq a b ≡ true) ↔ (a ≡ b)
unit_state_beq_iff a b = ground arith

instance abbrev pub unit_state_eq : Eq UnitState
unit_state_eq = record { eqb = unit_state_beq; eqb_iff = unit_state_beq_iff }

-- A unit as it is read from the table. `source` and `target` are the strings of a multistring, and
-- `plural` is the mark of a source that is plural with a single string.
pub record DbUnit : Type 0 where
  pub id : ℕ
  pub unitid : String
  pub index : ℕ
  pub revision : ℕ
  pub source : List String
  pub plural : Bool
  pub target : List String
  pub state : UnitState
  pub developer_comment : Option String
  pub translator_comment : Option String
  pub locations : Option String
  pub context : Option String

-- What the methods of a file's unit return: those of the translate toolkit, or of a unit proxy.
-- `locations` are already joined by line ends, and a missing context is the empty text.
pub record FileUnit : Type 0 where
  pub unitid : String
  pub source : List String
  pub hasplural : Bool
  pub target : List String
  pub isfuzzy : Bool
  pub istranslated : Bool
  pub isobsolete : Bool
  pub developer_notes : String
  pub translator_notes : String
  pub locations : String
  pub context : String

-- `x or ""`.
abbrev pub or_empty : Option String → String
or_empty none = ""
or_empty (some x) = x

-- `x or None`.
abbrev pub or_none : String → Option String
or_none x = if x == "" then none else some x

unfoldable pub isfuzzy : DbUnit → Bool
isfuzzy u = u.state == fuzzy

unfoldable pub istranslated : DbUnit → Bool
istranslated u = u.state == translated

unfoldable pub isobsolete : DbUnit → Bool
isobsolete u = u.state == obsolete

unfoldable pub hasplural : DbUnit → Bool
hasplural u = ltb 1 (length u.source) || u.plural

-- `filter(None, strings)`, as a test.
abbrev pub any_text : List String → Bool
any_text strings = any (λ s. not (s == "")) strings

unfoldable pub markfuzzy : Bool → DbUnit → DbUnit
markfuzzy value u =
    if u.state == obsolete
    then u
    else if value
    then record u { state = fuzzy }
    else if u.state == translated
    then u
    else record u { state = if any_text u.target then translated else untranslated }

unfoldable pub makeobsolete : DbUnit → DbUnit
makeobsolete u = record u { state = obsolete; index = 0 }

-- `next_index` is `self.store.max_index() + 1`.
unfoldable pub resurrect : ℕ → Bool → DbUnit → DbUnit
resurrect next_index is_fuzzy u = if not (u.state == obsolete) then u else record u {
  state = if any_text u.target then (if is_fuzzy then fuzzy else translated) else untranslated;
  index = next_index;
}

-- The steps of `Unit.update`, each with whether it has changed the unit.
abbrev pub Step : Type 0
Step = DbUnit → DbUnit × Bool

unfoldable pub update_source : FileUnit → Step
unfolding hasplural
update_source f u =
    if not (u.source == f.source)
      || (not (length u.source == length f.source) || not (hasplural u == f.hasplural))
    then (record u { source = f.source; plural = f.hasplural && length f.source == 1 }, true)
    else (u, false)

unfoldable pub update_target : FileUnit → Step
update_target f u =
    if not (u.target == f.target) || not (length u.target == length f.target)
    then (record u { target = f.target }, any_text f.target || any_text u.target)
    else (u, false)

-- `self.field != text and (self.field or text)`, where a field that is NULL differs from any text.
abbrev text_differs : Option String → String → Bool
text_differs field text = not (field == some text) && not (or_empty field == "" && text == "")

unfoldable pub update_developer_comment : FileUnit → Step
update_developer_comment f u =
    if text_differs u.developer_comment f.developer_notes
    then (record u { developer_comment = or_none f.developer_notes }, true)
    else (u, false)

unfoldable pub update_translator_comment : FileUnit → Step
update_translator_comment f u =
    if text_differs u.translator_comment f.translator_notes
    then (record u { translator_comment = or_none f.translator_notes }, true)
    else (u, false)

unfoldable pub update_locations : FileUnit → Step
update_locations f u =
    if text_differs u.locations f.locations
    then (record u { locations = or_none f.locations }, true)
    else (u, false)

unfoldable pub update_context : FileUnit → Step
update_context f u =
    if text_differs u.context f.context
    then (record u { context = or_none f.context }, true)
    else (u, false)

unfoldable pub update_fuzzy : FileUnit → Step
unfolding isfuzzy markfuzzy
update_fuzzy f u =
    if not (isfuzzy u == f.isfuzzy) then (markfuzzy f.isfuzzy u, true) else (u, false)

unfoldable pub update_obsolete : ℕ → FileUnit → Step
unfolding isobsolete makeobsolete resurrect
update_obsolete next_index f u =
    if not (isobsolete u == f.isobsolete)
    then (if f.isobsolete then makeobsolete u else resurrect next_index f.isfuzzy u, true)
    else (u, false)

-- `unicode(unit.source)` of a multistring is its first string.
abbrev first_string : List String → String
first_string [] = ""
first_string (s ∷ strings) = s

unfoldable pub update_unitid : FileUnit → Step
update_unitid f u =
    if not (u.unitid == f.unitid)
    then (record u { unitid = if f.unitid == "" then first_string f.source else f.unitid }, true)
    else (u, false)

-- One step after another; the unit has changed if any step has changed it.
infixl 20 ◌▸◌
abbrev pub ◌▸◌ : DbUnit × Bool → Step → DbUnit × Bool
s ▸ step = let (u, changed) = s in let (u', changed') = step u in (u', changed || changed')

-- `Unit.update`.
unfoldable pub update : ℕ → FileUnit → DbUnit → DbUnit × Bool
update next_index f u =
    (u, false)
    ▸ update_source f
    ▸ update_target f
    ▸ update_developer_comment f
    ▸ update_translator_comment f
    ▸ update_locations f
    ▸ update_context f
    ▸ update_fuzzy f
    ▸ update_obsolete next_index f
    ▸ update_unitid f
