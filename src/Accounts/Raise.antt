-- ===== src/Accounts/Raise.antt =====
-- What a step of a purge gives: its result, or the exception that ends the purge.
use pootle.Base.{◌≡◌, refl}

-- `Suggestion.DoesNotExist`, and the `TypeError` of adding `None` to a set.
pub data PurgeError : Type 0 where
  suggestion_missing none_added : PurgeError

pub data Outcome (A : Type 0) : Type 0 where
  raised : PurgeError → Outcome A
  returned : A → Outcome A

-- The steps after one that raises are not run.
infixl 5 ◌>>◌
abbrev pub ◌>>◌ : {B : Type 0} → Outcome (Unit {0}) → Outcome B → Outcome B
raised x >> rest = raised x
returned u >> rest = rest

infixl 5 ◌>>=◌
abbrev pub ◌>>=◌ : {A B : Type 0} → Outcome A → (A → Outcome B) → Outcome B
raised x >>= next = raised x
returned a >>= next = next a

module _ {A B : Type 0} where
  -- Where both steps returned, so did the first.
  pub first_returned :
      (step : Outcome A) (next : A → Outcome B) {b : B}
      → (step >>= next) ≡ returned b
      → (a : A) × (step ≡ returned a) × (next a ≡ returned b)
  first_returned (returned a) next h = (a, refl, h)
  first_returned (raised x) next h = cc

  -- Two steps that return, one after the other.
  pub both_return :
      (step : Outcome A) (next : A → Outcome B) (a : A)
      → step ≡ returned a
      → (b : B) × (next a ≡ returned b)
      → (b : B) × ((step >>= next) ≡ returned b)
  both_return step next a e (b, h) = (b, rw e h)
