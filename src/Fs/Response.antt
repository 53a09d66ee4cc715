-- ===== src/Fs/Response.antt =====
-- pootle_fs/response.py: the actions that the plugin reports.
use pootle.Base.{◌≡◌, ◌↔◌, ◌&&◌, Bool, true, false, List, [], ◌∷◌, arith, Eq}
use pootle.Core.Response
use pootle.Core.Response.{clear_cache}
use pootle.Fs.State.{Item}

-- The keys of `FS_RESPONSE`.
pub data Action : Type 0 where
  pulled_to_pootle added_from_pootle added_from_fs pushed_to_fs staged_for_overwrite_fs : Action
  staged_for_overwrite_pootle staged_for_removal removed staged_for_merge_fs : Action
  staged_for_merge_pootle merged_from_fs merged_from_pootle unstaged : Action
  -- Not keys of `FS_RESPONSE`; `add` enters them when it first meets them.
  readded_from_pootle readded_from_fs : Action

unfoldable pub response_types : List Action
response_types =
    pulled_to_pootle ∷ added_from_pootle ∷ added_from_fs ∷ pushed_to_fs ∷ staged_for_overwrite_fs
    ∷ staged_for_overwrite_pootle ∷ staged_for_removal ∷ removed ∷ staged_for_merge_fs
    ∷ staged_for_merge_pootle ∷ merged_from_fs ∷ merged_from_pootle ∷ unstaged ∷ []

abbrev action_code : Action → Bool × Bool × Bool × Bool
action_code pulled_to_pootle = (true, true, true, true)
action_code added_from_pootle = (true, true, true, false)
action_code added_from_fs = (true, true, false, true)
action_code pushed_to_fs = (true, true, false, false)
action_code staged_for_overwrite_fs = (true, false, true, true)
action_code staged_for_overwrite_pootle = (true, false, true, false)
action_code staged_for_removal = (true, false, false, true)
action_code removed = (true, false, false, false)
action_code staged_for_merge_fs = (false, true, true, true)
action_code staged_for_merge_pootle = (false, true, true, false)
action_code merged_from_fs = (false, true, false, true)
action_code merged_from_pootle = (false, true, false, false)
action_code unstaged = (false, false, true, true)
action_code readded_from_pootle = (false, false, true, false)
action_code readded_from_fs = (false, false, false, true)

abbrev bit_beq : Bool → Bool → Bool
bit_beq true b = b
bit_beq false true = false
bit_beq false false = true

abbrev code_beq : Bool × Bool × Bool × Bool → Bool × Bool × Bool × Bool → Bool
code_beq a b = bit_beq a.0 b.0 && bit_beq a.1 b.1 && bit_beq a.2 b.2 && bit_beq a.3 b.3

abbrev action_beq : Action → Action → Bool
action_beq a b = code_beq (action_code a) (action_code b)

pub action_beq_iff : (a b : Action) → (action_beq a b ≡ true) ↔ (a ≡ b)
action_beq_iff a b = ground arith

instance abbrev pub action_eq : Eq Action
action_eq = record { eqb = action_beq; eqb_iff = action_beq_iff }

abbrev pub FsResponse : Type 0
FsResponse = Response.Response Action Item

unfoldable pub empty_response : FsResponse
unfolding clear_cache response_types
empty_response = clear_cache response_types
