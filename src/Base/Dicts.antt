-- ===== src/Base/Dicts.antt =====
-- The keys of a Python dict that is built from pairs, and filters of membership.
use mathlib.Core.Path.{◌≡◌, refl, ◌∙◌}
use mathlib.Core.Logic.{inl, inr}
use mathlib.Core.Bool.{Bool, true, false, ◌||◌, ◌&&◌}
use mathlib.Core.Option.{none, some}
use mathlib.Core.List.{List, [], ◌∷◌, map}
use native.Mathlib.Omega.{arith}
use pootle.Base.Tests.{Eq, is_some, or_else, ◌==◌, beq_comm, Bool-cases, if◌then◌else◌}
use pootle.Base.Lists.{In, contains, lookup, insert, dict, insert_all, keys, filter, Distinct}

module _ {A : Type 0} ⦃e : Eq A⦄ where
  pub contains-insert_key :
      {V : Type 0} (j k : A) (v : V) (d : List (A × V))
      → contains j (keys (insert k v d)) ≡ (j == k || contains j (keys d))
  contains-insert_key j k v [] = refl
  contains-insert_key j k v ((i, w) ∷ d) =
      ground (arith, contains-insert_key j k v d, e.eqb_iff i k, e.eqb_iff j k, e.eqb_iff j i)

  pub Distinct-keys-insert :
      {V : Type 0} (k : A) (v : V) (d : List (A × V))
      → Distinct (keys d)
      → Distinct (keys (insert k v d))
  Distinct-keys-insert k v [] h = (refl, tt)
  Distinct-keys-insert k v ((j, w) ∷ d) h = elim (Bool-cases (j == k)) [
    | inl same ↦ rw same h
    | inr other ↦
        rw other (ground (arith, contains-insert_key j k v d, h.0), Distinct-keys-insert k v d h.1)
  ]

  contains-insert_all :
      {V : Type 0} (j : A) (d l : List (A × V))
      → contains j (keys (insert_all d l)) ≡ (contains j (keys d) || contains j (keys l))
  contains-insert_all j d [] = ground arith
  contains-insert_all j d ((k, v) ∷ l) =
      ground (arith, contains-insert_all j (insert k v d) l, contains-insert_key j k v d)

  -- `j in dict(l)`.
  pub contains-dict :
      {V : Type 0} (j : A) (l : List (A × V)) → contains j (keys (dict l)) ≡ contains j (keys l)
  contains-dict j l = contains-insert_all j [] l

  pub contains-filter :
      (p : A → Bool) (j : A) (l : List A) → contains j (filter p l) ≡ (p j && contains j l)
  contains-filter p j [] = ground arith
  contains-filter p j (x ∷ l) = ground (arith, contains-filter p j l, e.eqb_iff j x)

  -- A row that passes the test gives its key to the dict.
  pub contains-key_of_row :
      {R V : Type 0} (p : R → Bool) (f : R → A) (g : R → V) (r : R) (l : List R)
      → In r l
      → p r ≡ true
      → contains (f r) (keys (dict (map (λ x. (f x, g x)) (filter p l)))) ≡ true
  contains-key_of_row {R} {V} p f g r l m h = contains-dict (f r) _ ∙ go l m
    where
      go : (l : List R) → In r l → contains (f r) (keys (map (λ x. (f x, g x)) (filter p l))) ≡ true
      go [] m = elim m [ ]
      go (x ∷ l) (inl q) = ground (arith, e.eqb_iff (f r) (f x))
      go (x ∷ l) (inr m) = ground (arith, go l m)

  pub contains-key_absent :
      {R V : Type 0} (p : R → Bool) (f : R → A) (g : R → V) (j : A) (l : List R)
      → ((x : R) → p x ≡ true → (j == f x) ≡ false)
      → contains j (keys (dict (map (λ x. (f x, g x)) (filter p l)))) ≡ false
  contains-key_absent {R} p f g j l h = contains-dict j _ ∙ go l
    where
      go : (l : List R) → contains j (keys (map (λ x. (f x, g x)) (filter p l))) ≡ false
      go [] = refl
      go (x ∷ l) = ground (arith, go l, h x)

  pub contains-of-lookup :
      {V : Type 0} (j : A) (d : List (A × V)) {v : V}
      → lookup j d ≡ some v
      → contains j (keys d) ≡ true
  contains-of-lookup j [] h = cc
  contains-of-lookup j ((k, v) ∷ d) {v = u} h = elim (Bool-cases (k == j)) [
    | inl same ↦ ground (arith, beq_comm j k)
    | inr other ↦ ground (arith, contains-of-lookup j d {v = u} (rw other at h))
  ]

  pub contains-of-no_lookup :
      {V : Type 0} (j : A) (d : List (A × V)) → lookup j d ≡ none → contains j (keys d) ≡ false
  contains-of-no_lookup j [] h = refl
  contains-of-no_lookup j ((k, v) ∷ d) h = elim (Bool-cases (k == j)) [
    | inl same ↦ ground arith
    | inr other ↦ ground (arith, beq_comm j k, contains-of-no_lookup j d (rw other at h))
  ]

  pub is_some-lookup :
      {V : Type 0} (j : A) (d : List (A × V)) → is_some (lookup j d) ≡ contains j (keys d)
  is_some-lookup j [] = refl
  is_some-lookup j ((k, v) ∷ d) = ground (arith, beq_comm j k, is_some-lookup j d)

pub lookup-of-absent :
    {A : Type 0} ⦃e : Eq A⦄ {V : Type 0} (j : A) (d : List (A × V))
    → contains j (keys d) ≡ false
    → lookup j d ≡ none
lookup-of-absent j [] h = refl
lookup-of-absent j ((k, v) ∷ d) h = ground (arith, lookup-of-absent j d, beq_comm j k)

pub lookup-insert {κ} :
    {A : Type 0} ⦃e : Eq A⦄ {V : Type κ} (j k : A) (v : V) (d : List (A × V))
    → lookup j (insert k v d) ≡ (if k == j then some v else lookup j d)
lookup-insert ⦃e⦄ j k v [] = refl
lookup-insert ⦃e⦄ j k v ((i, w) ∷ d) =
    ground (arith, lookup-insert j k v d, e.eqb_iff k j, e.eqb_iff i k, e.eqb_iff i j)

-- `del d[k]`, of the pairs of a dict.
unfoldable pub del : {A : Type 0} ⦃e : Eq A⦄ {V : Type 0} → A → List (A × V) → List (A × V)
del k [] = []
del k ((j, v) ∷ d) = let rest = del k d in if j == k then rest else (j, v) ∷ rest

module _ {A V : Type 0} ⦃e : Eq A⦄ where
  pub lookup-del :
      (q k : A) (d : List (A × V)) → lookup q (del k d) ≡ (if k == q then none else lookup q d)
  unfolding del
  lookup-del q k [] = ground arith
  lookup-del q k ((j, v) ∷ d) =
      ground (arith, lookup-del q k d, e.eqb_iff j k, e.eqb_iff j q, e.eqb_iff k q)

  contains-keys-del :
      (q k : A) (d : List (A × V))
      → contains q (keys d) ≡ false
      → contains q (keys (del k d)) ≡ false
  unfolding del
  contains-keys-del q k [] h = refl
  contains-keys-del q k ((j, v) ∷ d) h = ground (arith, contains-keys-del q k d)

  pub Distinct-keys-del : (k : A) (d : List (A × V)) → Distinct (keys d) → Distinct (keys (del k d))
  unfolding del
  Distinct-keys-del k [] h = tt
  Distinct-keys-del k ((j, v) ∷ d) h = elim (Bool-cases (j == k)) [
    | inl same ↦ rw same (Distinct-keys-del k d h.1)
    | inr other ↦ rw other (contains-keys-del j k d h.0, Distinct-keys-del k d h.1)
  ]

-- A dict that is built from pairs with different keys holds just them.
pub lookup-insert_all :
    {A V : Type 0} ⦃e : Eq A⦄ (q : A) (d l : List (A × V))
    → Distinct (keys l)
    → lookup q (insert_all d l) ≡ or_else (lookup q l) (lookup q d)
lookup-insert_all q d [] h = refl
lookup-insert_all ⦃e⦄ q d ((k, v) ∷ l) h = ground (
  arith,
  lookup-insert_all q (insert k v d) l h.1,
  lookup-insert q k v d,
  lookup-of-absent k l,
  e.eqb_iff k q,
)
