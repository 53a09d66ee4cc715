-- ===== src/Core/Response.antt =====
-- pootle/core/response.py: what an operation reports, by the type of the action.
pub mod Add
use pootle.Base.{
  Bool, true, not, Option, none, some, List, [], ◌∷◌, ◌++◌, Eq, if◌then◌else◌, filter, is_nonempty,
  lookup, insert,
}

pub record ItemResponse (K A : Type 0) : Type 0 where
  pub action_type : K
  pub complete : Bool
  pub payload : A

-- `__responses__`.
abbrev pub Response : Type 0 → Type 0 → Type 0
Response K A = List (K × List (ItemResponse K A))

module _ {K A : Type 0} where
  -- `ItemResponse.failed`.
  abbrev pub item_failed : ItemResponse K A → Bool
  item_failed x = not x.complete

  -- `clear_cache`, over the response types of the class.
  unfoldable pub clear_cache : List K → Response K A
  clear_cache [] = []
  clear_cache (k ∷ ks) = (k, []) ∷ clear_cache ks

  -- `__iter__`: the types with a response.
  unfoldable pub types : Response K A → List K
  types [] = []
  types ((k, l) ∷ r) = let rest = types r in if is_nonempty l then k ∷ rest else rest

module _ {K A : Type 0} ⦃e : Eq K⦄ where
  abbrev pub or_empty : Option (List (ItemResponse K A)) → List (ItemResponse K A)
  or_empty none = []
  or_empty (some l) = l

  -- `self.__responses__[k]`, and no responses under a type that is not there.
  unfoldable pub responses : K → Response K A → List (ItemResponse K A)
  responses k r = or_empty (lookup k r)

  -- `completed` and `failed`, of the given response types.
  unfoldable pub completed : List K → Response K A → List (ItemResponse K A)
  unfolding responses
  completed [] r = []
  completed (k ∷ ks) r = filter (λ x. not (item_failed x)) (responses k r) ++ completed ks r

  unfoldable pub failed : List K → Response K A → List (ItemResponse K A)
  unfolding responses
  failed [] r = []
  failed (k ∷ ks) r = filter item_failed (responses k r) ++ failed ks r

  -- These ask for the response types of the class.
  unfoldable pub made_changes : List K → Response K A → Bool
  unfolding completed
  made_changes types r = is_nonempty (completed types r)

  unfoldable pub has_failed : List K → Response K A → Bool
  unfolding failed
  has_failed types r = is_nonempty (failed types r)

  unfoldable pub add : K → Bool → A → Response K A → Response K A
  unfolding responses
  add k complete x r =
      insert k
        (responses k r ++ (record { action_type = k; complete = complete; payload = x } ∷ [])) r

  -- A loop that adds a completed response for each item.
  unfoldable pub add_all : K → List A → Response K A → Response K A
  unfolding add
  add_all k [] r = r
  add_all k (x ∷ xs) r = add_all k xs (add k true x r)
