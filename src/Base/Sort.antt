-- ===== src/Base/Sort.antt =====
-- `sorted`, which is stable.
use Prim.Native.Nat.{Ordering}
use Prim.Native.String.{String, compare}
use mathlib.Core.Bool.{Bool, true, false}
use mathlib.Core.List.{List, [], ◌∷◌}
use pootle.Base.Tests.{if◌then◌else◌}

abbrev pub str_lt : String → String → Bool
str_lt a b = elim (compare a b) [ Ordering.lt ↦ true | _ ↦ false ]

module _ {ℓ} {A : Type ℓ} (lt : A → A → Bool) where
  -- Behind the entries that are not greater.
  insert_sorted : A → List A → List A
  insert_sorted a [] = a ∷ []
  insert_sorted a (b ∷ l) = let rest = insert_sorted a l in if lt a b then a ∷ b ∷ l else b ∷ rest

  sort_onto : List A → List A → List A
  sort_onto done [] = done
  sort_onto done (a ∷ l) = sort_onto (insert_sorted a done) l

  unfoldable pub sort_by : List A → List A
  unfolding insert_sorted sort_onto
  sort_by l = sort_onto [] l
