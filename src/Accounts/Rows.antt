-- ===== src/Accounts/Rows.antt =====
-- Rows of the accounts' tables: what an update of all of them, or of those of one key, leaves.
use pootle.Base.{
  ℕ, Bool, true, false, not, Option, some, List, [], ◌∷◌, map, ◌==◌, nat_eq, option_eq,
  if◌then◌else◌, filter, All, Bool-cases, ap, ◌⊎◌, inl, inr, All-imp, All-map, All-of-In,
  In-of-filter, In, In-map, ◌≡◌, refl, arith,
}
use pootle.Accounts.Site.{UnitChange, update_changes}

-- A property that an update of rows gives, or keeps.
pub All-update_changes :
    (P Q : UnitChange → Type 0) (p : UnitChange → Bool) (f : UnitChange → UnitChange)
    (l : List UnitChange)
    → All Q l
    → ((c : UnitChange) → Q c → P (if p c then f c else c))
    → All P (update_changes p f l)
unfolding update_changes
All-update_changes P Q p f [] a h = tt
All-update_changes P Q p f (c ∷ l) a h = (h c a.0, All-update_changes P Q p f l a.1 h)

pub by_test :
    {A : Type 0} (P : A → Type 0) (b : Bool) (x y : A)
    → P x
    → (b ≡ false → P y)
    → P (if b then x else y)
by_test P true x y p q = p
by_test P false x y p q = q refl

-- A row that passes the test is replaced by one that has the property.
pub All-replaced :
    {A : Type 0} (P : A → Type 0) (p : A → Bool) (f : A → A) (l : List A)
    → ((x : A) → P (f x))
    → ((x : A) → p x ≡ false → P x)
    → All P (map (λ x. if p x then f x else x) l)
All-replaced P p f l h k =
    All-map P _ l (All-of-In _ l (λ x m. by_test P (p x) (f x) x (h x) (k x)))

not-flip : {b : Bool} → not b ≡ true → b ≡ false
not-flip {b} e = ground arith

-- A property that holds of the rows is kept.
pub All-kept :
    {A : Type 0} (P : A → Type 0) (p : A → Bool) (f : A → A) (l : List A)
    → All P l
    → ((x : A) → P x → P (f x))
    → All P (map (λ x. if p x then f x else x) l)
All-kept P p f [] a h = tt
All-kept P p f (x ∷ l) a h = (by_test P (p x) (f x) x (h x a.0) (λ e. a.0), All-kept P p f l a.1 h)

pub All-rejected :
    {A : Type 0} (p : A → Bool) (l : List A) → All (λ x. p x ≡ false) (filter (λ x. not (p x)) l)
All-rejected p l = All-of-In _ _ (λ x m. not-flip (In-of-filter (λ y. not (p y)) x l m).1)

pub All-filter :
    {A : Type 0} (P : A → Type 0) (p : A → Bool) (l : List A) → All P l → All P (filter p l)
All-filter P p [] a = tt
All-filter P p (x ∷ l) a = elim (Bool-cases (p x)) [
  | inl h ↦ rw h (a.0, All-filter P p l a.1)
  | inr h ↦ rw h (All-filter P p l a.1)
]

pub All-others :
    (user : ℕ) (l : List ℕ) → All (λ (u : ℕ). (u == user) ≡ false) (filter (λ u. not (u == user)) l)
All-others user l = All-rejected (λ u. u == user) l

pub All-unit : {A : Type 0} (l : List A) → All (λ x. Unit {0}) l
All-unit [] = tt
All-unit (x ∷ l) = (tt, All-unit l)

by_keep :
    {A : Type 0} (p : A → Bool) (x y : A) (l : List A)
    → p y ≡ true
    → (x ≡ y) ⊎ In x (filter p l)
    → In x (filter p (y ∷ l))
by_keep p x y l h m = rw h m

by_drop :
    {A : Type 0} (p : A → Bool) (x y : A) (l : List A)
    → p y ≡ false
    → In x (filter p l)
    → In x (filter p (y ∷ l))
by_drop p x y l h m = rw h m

In-filter :
    {A : Type 0} (p : A → Bool) (x : A) (l : List A) → In x l → p x ≡ true → In x (filter p l)
In-filter p x [] m e = m
In-filter p x (y ∷ l) m e = elim (Bool-cases (p y)) [
  | inl h ↦ elim m [
    | inl q ↦ by_keep p x y l h (inl q)
    | inr n ↦ by_keep p x y l h (inr (In-filter p x l n e))
  ]
  | inr h ↦ elim m [
    | inl q ↦ ground (arith, ap p q)
    | inr n ↦ by_drop p x y l h (In-filter p x l n e)
  ]
]

-- The rows that name the user are among those still to be seen.
module _ (user : ℕ) (by : UnitChange → Option ℕ) where
  abbrev pub IsPending : List UnitChange → List UnitChange → Type 0
  IsPending seen l =
      All (λ c. (by c == some user) ≡ true → In c.pk (map (λ (d : UnitChange). d.pk) seen)) l

  pub IsPending-start : (l : List UnitChange) → IsPending (filter (λ c. by c == some user) l) l
  IsPending-start l = All-of-In _ l (λ c m e. In-map _ c _ (In-filter _ c l m e))

  pub IsPending-update :
      (c : UnitChange) (seen : List UnitChange) (f : UnitChange → UnitChange) (l : List UnitChange)
      → ((d : UnitChange) → (by (f d) == some user) ≡ false)
      → IsPending (c ∷ seen) l
      → IsPending seen (update_changes (λ d. d.pk == c.pk) f l)
  IsPending-update c seen f l h a =
      All-update_changes _ _ (λ d. d.pk == c.pk) f l a
        (λ d k.
          by_test
            (λ d'. (by d' == some user) ≡ true → In d'.pk (map (λ (x : UnitChange). x.pk) seen))
            (d.pk == c.pk) (f d) d (λ e. ground (arith, h d))
            (λ n e. elim (k e) [ inl q ↦ ground (arith, nat_eq.eqb_iff d.pk c.pk) | inr m ↦ m ]))

  pub pending-end :
      (l : List UnitChange) → IsPending [] l → All (λ c. (by c == some user) ≡ false) l
  pending-end l a =
      All-imp _ _
        (λ c h. elim (Bool-cases (by c == some user)) [ inl q ↦ elim (h q) [ ] | inr q ↦ q ]) l a
