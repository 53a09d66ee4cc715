-- ===== src/Base/Lists.antt =====
-- Lists filtered by Boolean tests, membership, and Python dicts as lists of pairs.
use Prim.Native.Nat.{ℕ, zero, suc, ◌-◌}
use mathlib.Core.Path.{◌≡◌, refl, ap, sym, subst}
use mathlib.Core.Logic.{◌⊎◌, inl, inr}
use mathlib.Core.Bool.{Bool, true, false, ◌||◌}
use mathlib.Core.Option.{Option, none, some}
use mathlib.Core.List.{List, [], ◌∷◌, ◌++◌, map}
use native.Mathlib.Omega.{arith}
use pootle.Base.Tests.{Eq, ◌==◌, Bool-cases, if◌then◌else◌}

-- `x` is one of the entries, as a type that computes to a sum.
abbrev pub In : {A : Type 0} → A → List A → Type 0
In x [] = ⊥
In x (y ∷ ys) = (x ≡ y) ⊎ In x ys

abbrev pub All {ℓ κ} : {A : Type ℓ} → (A → Type κ) → List A → Type κ
All P [] = Unit
All P (x ∷ xs) = P x × All P xs

module _ {ℓ} {A : Type ℓ} where
  abbrev pub length : List A → ℕ
  length [] = 0
  length (x ∷ xs) = suc (length xs)

  abbrev pub get_elem? : List A → ℕ → Option A
  get_elem? [] i = none
  get_elem? (x ∷ xs) zero = some x
  get_elem? (x ∷ xs) (suc i) = get_elem? xs i

  abbrev pub take : ℕ → List A → List A
  take zero xs = []
  take (suc n) [] = []
  take (suc n) (x ∷ xs) = x ∷ take n xs

  abbrev pub drop : ℕ → List A → List A
  drop zero xs = xs
  drop (suc n) [] = []
  drop (suc n) (x ∷ xs) = drop n xs

  -- `l[i:j]`.
  abbrev pub slice : ℕ → ℕ → List A → List A
  slice i j l = take (j - i) (drop i l)

  abbrev pub filter : (A → Bool) → List A → List A
  filter p [] = []
  filter p (x ∷ xs) = let rest = filter p xs in if p x then x ∷ rest else rest

  abbrev pub any : (A → Bool) → List A → Bool
  any p [] = false
  any p (x ∷ xs) = p x || any p xs

  -- `if xs:` in Python.
  abbrev pub is_nonempty : List A → Bool
  is_nonempty [] = false
  is_nonempty (x ∷ xs) = true

  pub filter-eq-nil : (p : A → Bool) (xs : List A) → All (λ x. p x ≡ false) xs → filter p xs ≡ []
  filter-eq-nil p [] h = refl
  filter-eq-nil p (x ∷ xs) h = ground (arith, filter-eq-nil p xs h.1)

  pub filter-append :
      (p : A → Bool) (xs ys : List A) → filter p (xs ++ ys) ≡ filter p xs ++ filter p ys
  filter-append p [] ys = refl
  filter-append p (x ∷ xs) ys = ground (arith, filter-append p xs ys)

  pub All-imp {κ μ} :
      (P : A → Type κ) (Q : A → Type μ)
      → ((x : A) → P x → Q x)
      → (xs : List A) → All P xs
      → All Q xs
  All-imp P Q f [] h = tt
  All-imp P Q f (x ∷ xs) h = (f x h.0, All-imp P Q f xs h.1)

  pub All-append {κ} : (P : A → Type κ) (xs ys : List A) → All P xs → All P ys → All P (xs ++ ys)
  All-append P [] ys hx hy = hy
  All-append P (x ∷ xs) ys hx hy = (hx.0, All-append P xs ys hx.1 hy)

pub All-of-In {κ} :
    {A : Type 0} (P : A → Type κ) (xs : List A) → ((x : A) → In x xs → P x) → All P xs
All-of-In P [] h = tt
All-of-In P (x ∷ xs) h = (h x (inl refl), All-of-In P xs (λ y m. h y (inr m)))

pub In-map : {A B : Type 0} (f : A → B) (x : A) (xs : List A) → In x xs → In (f x) (map f xs)
In-map f x [] m = m
In-map f x (y ∷ ys) (inl e) = inl (ap f e)
In-map f x (y ∷ ys) (inr m) = inr (In-map f x ys m)

pub In-append : {A : Type 0} (x : A) (xs ys : List A) → In x xs → In x (xs ++ ys)
In-append x [] ys m = elim m [ ]
In-append x (y ∷ xs) ys (inl e) = inl e
In-append x (y ∷ xs) ys (inr m) = inr (In-append x xs ys m)

pub In-of-map :
    {A B : Type 0} (f : A → B) (y : B) (xs : List A)
    → In y (map f xs)
    → (x : A) × In x xs × (y ≡ f x)
In-of-map f y [] m = elim m [ ]
In-of-map f y (x ∷ xs) (inl e) = (x, inl refl, e)
In-of-map f y (x ∷ xs) (inr m) = let (z, n, e) = In-of-map f y xs m in (z, inr n, e)

pub In-of-filter :
    {A : Type 0} (p : A → Bool) (x : A) (xs : List A) → In x (filter p xs) → In x xs × (p x ≡ true)
In-of-filter p x [] m = elim m [ ]
In-of-filter p x (y ∷ ys) m = elim (Bool-cases (p y)) [
  | inl h ↦ elim (rw h at m) [
    | inl e ↦ (inl e, subst (λ z. p z ≡ true) (sym e) h)
    | inr n ↦ let (k, q) = In-of-filter p x ys n in (inr k, q)
  ]
  | inr h ↦ let (k, q) = In-of-filter p x ys (rw h at m) in (inr k, q)
]

module _ {ℓ κ} {A : Type ℓ} {B : Type κ} where
  pub All-map {μ} :
      (P : B → Type μ) (f : A → B) (xs : List A) → All (λ x. P (f x)) xs → All P (map f xs)
  All-map P f [] h = tt
  All-map P f (x ∷ xs) h = (h.0, All-map P f xs h.1)

module _ {ℓ} {A : Type ℓ} ⦃e : Eq A⦄ where
  abbrev pub contains : A → List A → Bool
  contains a [] = false
  contains a (x ∷ xs) = a == x || contains a xs

  pub contains-append :
      (a : A) (xs ys : List A) → contains a (xs ++ ys) ≡ (contains a xs || contains a ys)
  contains-append a [] ys = refl
  contains-append a (x ∷ xs) ys = ground (arith, contains-append a xs ys)

  -- Python's `dict`, in insertion order.
  abbrev pub lookup {κ} : {V : Type κ} → A → List (A × V) → Option V
  lookup k [] = none
  lookup k ((j, v) ∷ d) = if j == k then some v else lookup k d

  abbrev pub insert {κ} : {V : Type κ} → A → V → List (A × V) → List (A × V)
  insert k v [] = (k, v) ∷ []
  insert k v ((j, w) ∷ d) = if j == k then (j, v) ∷ d else (j, w) ∷ insert k v d

  abbrev pub insert_all {κ} : {V : Type κ} → List (A × V) → List (A × V) → List (A × V)
  insert_all d [] = d
  insert_all d ((k, v) ∷ l) = insert_all (insert k v d) l

  -- `dict(l)`: a later pair replaces the value of an earlier one.
  abbrev pub dict {κ} : {V : Type κ} → List (A × V) → List (A × V)
  dict l = insert_all [] l

module _ {A : Type 0} ⦃e : Eq A⦄ where
  pub contains-of-In : (a : A) (xs : List A) → In a xs → contains a xs ≡ true
  contains-of-In a [] h = elim h [ ]
  contains-of-In a (x ∷ xs) (inl h) = ground (arith, e.eqb_iff a x)
  contains-of-In a (x ∷ xs) (inr h) = ground (arith, contains-of-In a xs h)

abbrev pub keys {ℓ κ} : {A : Type ℓ} {B : Type κ} → List (A × B) → List A
keys [] = []
keys ((k, v) ∷ d) = k ∷ keys d

abbrev pub values {ℓ κ} : {A : Type ℓ} {B : Type κ} → List (A × B) → List B
values [] = []
values ((k, v) ∷ d) = v ∷ values d

-- No entry stands twice.
abbrev pub Distinct : {A : Type 0} ⦃e : Eq A⦄ → List A → Type 0
Distinct [] = Unit
Distinct (x ∷ xs) = (contains x xs ≡ false) × Distinct xs
