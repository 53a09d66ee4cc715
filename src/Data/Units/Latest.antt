-- ===== src/Data/Units/Latest.antt =====
-- The unit that `get_last_created_unit` finds is the last of the live ones.
use pootle.Base.{
  ℕ, true, false, Option, none, some, List, [], ◌∷◌, nat_eq, if◌then◌else◌, Bool-cases, inl, inr,
  ◌≡◌, refl, sym, subst, arith, In, ◌<◌, ◌≤◌, ◌⊎◌,
}
use pootle.Data.Units.{
  UnitRow, is_live, comes_first, with_unit, first_of, last_created, get_last_created_unit,
}

not_first_trans :
    (r s t : ℕ) (a b c : UnitRow)
    → comes_first r a s b ≡ false
    → comes_first s b t c ≡ false
    → comes_first r a t c ≡ false
not_first_trans r s t a b c h i = ground arith

not_first_asym :
    (s t : ℕ) (a b : UnitRow) → comes_first s a t b ≡ true → comes_first t b s a ≡ false
not_first_asym s t a b h = ground arith

not_first_self : (s : ℕ) (a : UnitRow) → comes_first s a s a ≡ false
not_first_self s a = ground arith

-- A unit does not come before the one that is found.
abbrev NotBefore : ℕ → UnitRow → Option (ℕ × UnitRow) → Type 0
NotBefore s u none = ⊥
NotBefore s u (some (t, b)) = comes_first s u t b ≡ false

NotBefore-first_of :
    (s : ℕ) (a : UnitRow) (best : Option (ℕ × UnitRow)) → NotBefore s a (some (first_of s a best))
NotBefore-first_of s a none = not_first_self s a
NotBefore-first_of s a (some (t, b)) = elim (Bool-cases (comes_first t b s a)) [
  | inl first ↦ rw first (not_first_asym t s b a first)
  | inr not_first ↦ rw not_first (not_first_self s a)
]

NotBefore-kept :
    (r s : ℕ) (c a : UnitRow) (best : Option (ℕ × UnitRow))
    → NotBefore r c best
    → NotBefore r c (some (first_of s a best))
NotBefore-kept r s c a none h = elim h [ ]
NotBefore-kept r s c a (some (t, b)) h = elim (Bool-cases (comes_first t b s a)) [
  | inl first ↦ rw first h
  | inr not_first ↦ rw not_first (not_first_trans r t s c b a h not_first)
]

NotBefore-with_unit :
    (r : ℕ) (c : UnitRow) (t : Option ℕ) (a : UnitRow) (best : Option (ℕ × UnitRow))
    → NotBefore r c best
    → NotBefore r c (with_unit t a best)
NotBefore-with_unit r c none a best h = h
NotBefore-with_unit r c (some s) a best h = elim (Bool-cases (is_live a.state)) [
  | inl live ↦ rw live (NotBefore-kept r s c a best h)
  | inr dead ↦ rw dead h
]

NotBefore-last_created :
    (units : List UnitRow) (u : UnitRow) (s : ℕ)
    → In u units
    → is_live u.state ≡ true
    → u.creation_time ≡ some s
    → NotBefore s u (last_created units)
unfolding last_created
NotBefore-last_created [] u s m live time = elim m [ ]
NotBefore-last_created (x ∷ units) u s (inl same) live time =
    subst (λ x. NotBefore s u (with_unit x.creation_time x (last_created units))) same
      (subst (λ c. NotBefore s u (with_unit c u (last_created units))) (sym time)
        (rw live (NotBefore-first_of s u (last_created units))))
NotBefore-last_created (x ∷ units) u s (inr m) live time =
    NotBefore-with_unit s u x.creation_time x (last_created units)
      (NotBefore-last_created units u s m live time)

-- What is found is one of the units.
abbrev pub IsFound : List UnitRow → ℕ → UnitRow → Type 0
IsFound units t b = In b units × (is_live b.state ≡ true) × (b.creation_time ≡ some t)

abbrev IsFoundIn : List UnitRow → Option (ℕ × UnitRow) → Type 0
IsFoundIn units none = Unit
IsFoundIn units (some (t, b)) = IsFound units t b

IsFoundIn-first_of :
    (s : ℕ) (a : UnitRow) (units : List UnitRow) (best : Option (ℕ × UnitRow))
    → is_live a.state ≡ true
    → a.creation_time ≡ some s
    → IsFoundIn units best
    → IsFoundIn (a ∷ units) (some (first_of s a best))
IsFoundIn-first_of s a units none live time h = (inl refl, live, time)
IsFoundIn-first_of s a units (some (t, b)) live time h =
    elim (comes_first t b s a)
      as (λ first. IsFoundIn (a ∷ units) (some (if first then (t, b) else (s, a)))) [
        | true ↦ (inr h.0, h.1, h.2)
        | false ↦ (inl refl, live, time)
      ]

IsFoundIn-cons :
    (a : UnitRow) (units : List UnitRow) (best : Option (ℕ × UnitRow))
    → IsFoundIn units best
    → IsFoundIn (a ∷ units) best
IsFoundIn-cons a units none h = tt
IsFoundIn-cons a units (some (t, b)) h = (inr h.0, h.1, h.2)

IsFoundIn-with_unit :
    (a : UnitRow) (units : List UnitRow) (c : Option ℕ) (best : Option (ℕ × UnitRow))
    → a.creation_time ≡ c
    → IsFoundIn units best
    → IsFoundIn (a ∷ units) (with_unit c a best)
IsFoundIn-with_unit a units none best time h = IsFoundIn-cons a units best h
IsFoundIn-with_unit a units (some s) best time h = elim (Bool-cases (is_live a.state)) [
  | inl live ↦ rw live (IsFoundIn-first_of s a units best live time h)
  | inr dead ↦ rw dead (IsFoundIn-cons a units best h)
]

IsFoundIn-last_created : (units : List UnitRow) → IsFoundIn units (last_created units)
unfolding last_created
IsFoundIn-last_created [] = tt
IsFoundIn-last_created (u ∷ units) =
    IsFoundIn-with_unit u units u.creation_time (last_created units) refl
      (IsFoundIn-last_created units)

-- The second unit is at least as late: by its time, then by its revision, then by its key.
abbrev pub IsLater : ℕ → UnitRow → ℕ → UnitRow → Type 0
IsLater s u t b =
    (s < t) ⊎ ((s ≡ t) × ((u.revision < b.revision) ⊎ ((u.revision ≡ b.revision) × (u.id ≤ b.id))))

IsLater-of :
    (s : ℕ) (u : UnitRow) (t : ℕ) (b : UnitRow) → comes_first s u t b ≡ false → IsLater s u t b
IsLater-of s u t b h = ground arith

-- For each live unit with a creation time, get_last_created_unit gives the key of a live unit
-- with a creation time that is later, or the same with a higher revision, or with the same
-- revision and a key that is not lower.
pub get_last_created_unit_lem :
    (units : List UnitRow) (u : UnitRow) (s : ℕ)
    → In u units
    → is_live u.state ≡ true
    → u.creation_time ≡ some s
    → (t : ℕ) × (b : UnitRow) × (get_last_created_unit units ≡ some b.id)
      × IsFound units t b
      × IsLater s u t b
unfolding get_last_created_unit
get_last_created_unit_lem units u s m live time =
    go (last_created units) refl (NotBefore-last_created units u s m live time)
      (IsFoundIn-last_created units)
  where
    go :
        (o : Option (ℕ × UnitRow))
        → last_created units ≡ o
        → NotBefore s u o
        → IsFoundIn units o
        → (t : ℕ) × (b : UnitRow) × (get_last_created_unit units ≡ some b.id)
          × IsFound units t b
          × IsLater s u t b
    go none e n f = elim n [ ]
    go (some (t, b)) e n f = (t, b, rw (e, get_last_created_unit) refl, f, IsLater-of s u t b n)
