-- ===== src/Score/Log/Order.antt =====
-- pootle_log/utils.py: how `ComparableLogEvent` compares two events.
use pootle.Base.{
  ℕ, Bool, true, false, ◌&&◌, Option, none, some, ◌≡◌, refl, ap, ◌∙◌, arith, if◌then◌else◌, ltb,
  is_some,
}
use pootle.Score.Log.{EventAction, suggestion_created}

-- What `__cmp__` reads of an event. A unit and the value of an event are their keys.
pub record ComparableLogEvent : Type 0 where
  pub revision : Option ℕ
  pub timestamp : Option ℕ
  pub action : EventAction
  pub value_pk : ℕ
  pub unit_pk : ℕ

-- -1, 0 and 1.
pub data Sign : Type 0 where
  before same after : Sign

abbrev cmp_pk : ℕ → ℕ → Sign → Sign
cmp_pk a b otherwise = if ltb b a then after else if ltb a b then before else otherwise

abbrev cmp_revision : Option ℕ → Option ℕ → Sign → Sign
cmp_revision (some a) (some b) otherwise = cmp_pk a b otherwise
cmp_revision none b otherwise = otherwise
cmp_revision (some a) none otherwise = otherwise

abbrev cmp_timestamp : Option ℕ → Option ℕ → Sign → Sign
cmp_timestamp (some a) (some b) otherwise = cmp_pk a b otherwise
cmp_timestamp (some a) none otherwise = after
cmp_timestamp none (some b) otherwise = before
cmp_timestamp none none otherwise = otherwise

abbrev is_suggestion_created : EventAction → Bool
is_suggestion_created suggestion_created = true
is_suggestion_created _ = false

-- The conditions that are applied for events with equal timestamps or without any.
unfoldable cmp_keys : ComparableLogEvent → ComparableLogEvent → Sign
cmp_keys a b =
    let by_unit = cmp_pk a.unit_pk b.unit_pk same in
    if is_suggestion_created a.action && is_suggestion_created b.action
    then cmp_pk a.value_pk b.value_pk by_unit
    else by_unit

-- `__cmp__`.
unfoldable pub cmp : ComparableLogEvent → ComparableLogEvent → Sign
unfolding cmp_keys
cmp a b = cmp_revision a.revision b.revision (cmp_timestamp a.timestamp b.timestamp (cmp_keys a b))

abbrev opposite : Sign → Sign
opposite before = after
opposite same = same
opposite after = before

opposite-cmp_pk : (a b : ℕ) (s : Sign) → cmp_pk b a (opposite s) ≡ opposite (cmp_pk a b s)
opposite-cmp_pk a b s = ground arith

opposite-cmp_revision :
    (a b : Option ℕ) (s : Sign) → cmp_revision b a (opposite s) ≡ opposite (cmp_revision a b s)
opposite-cmp_revision none none s = refl
opposite-cmp_revision none (some b) s = refl
opposite-cmp_revision (some a) none s = refl
opposite-cmp_revision (some a) (some b) s = opposite-cmp_pk a b s

opposite-cmp_timestamp :
    (a b : Option ℕ) (s : Sign) → cmp_timestamp b a (opposite s) ≡ opposite (cmp_timestamp a b s)
opposite-cmp_timestamp none none s = refl
opposite-cmp_timestamp none (some b) s = refl
opposite-cmp_timestamp (some a) none s = refl
opposite-cmp_timestamp (some a) (some b) s = opposite-cmp_pk a b s

opposite-cmp_keys : (a b : ComparableLogEvent) → cmp_keys b a ≡ opposite (cmp_keys a b)
unfolding cmp_keys
opposite-cmp_keys a b = ground arith

-- Compared the other way round, two events give the opposite sign.
opposite-cmp : (a b : ComparableLogEvent) → cmp b a ≡ opposite (cmp a b)
unfolding cmp
opposite-cmp a b =
    ap (λ s. cmp_revision b.revision a.revision (cmp_timestamp b.timestamp a.timestamp s))
      (opposite-cmp_keys a b)
    ∙ ap (cmp_revision b.revision a.revision)
        (opposite-cmp_timestamp a.timestamp b.timestamp (cmp_keys a b))
    ∙ opposite-cmp_revision a.revision b.revision
        (cmp_timestamp a.timestamp b.timestamp (cmp_keys a b))

-- Signs of three pairs, of which the third is before if the others are.
abbrev Chain : Sign → Sign → Sign → Type 0
Chain p q r = p ≡ before → q ≡ before → r ≡ before

Chain-cmp_pk :
    (a b c : ℕ) {p q r : Sign} → Chain p q r → Chain (cmp_pk a b p) (cmp_pk b c q) (cmp_pk a c r)
Chain-cmp_pk a b c h = λ x y. ground arith

Chain-cmp_timestamp :
    (a b c : Option ℕ) {p q r : Sign}
    → Chain p q r
    → Chain (cmp_timestamp a b p) (cmp_timestamp b c q) (cmp_timestamp a c r)
Chain-cmp_timestamp none none none h = h
Chain-cmp_timestamp none none (some c) h = λ x y. refl
Chain-cmp_timestamp none (some b) none h = λ x y. ground arith
Chain-cmp_timestamp none (some b) (some c) h = λ x y. refl
Chain-cmp_timestamp (some a) none none h = λ x y. ground arith
Chain-cmp_timestamp (some a) none (some c) h = λ x y. ground arith
Chain-cmp_timestamp (some a) (some b) none h = λ x y. ground arith
Chain-cmp_timestamp (some a) (some b) (some c) h = Chain-cmp_pk a b c h

Chain-cmp_revision :
    (a b c : Option ℕ) {p q r : Sign}
    → is_some a ≡ is_some b
    → is_some b ≡ is_some c
    → Chain p q r
    → Chain (cmp_revision a b p) (cmp_revision b c q) (cmp_revision a c r)
Chain-cmp_revision none none none i j h = h
Chain-cmp_revision none none (some c) i j h = ground arith
Chain-cmp_revision none (some b) c i j h = ground arith
Chain-cmp_revision (some a) none c i j h = ground arith
Chain-cmp_revision (some a) (some b) none i j h = ground arith
Chain-cmp_revision (some a) (some b) (some c) i j h = Chain-cmp_pk a b c h

-- Both have a revision or none has, and both are additions of suggestions or none is.
abbrev IsAlike : ComparableLogEvent → ComparableLogEvent → Type 0
IsAlike a b =
    (is_some a.revision ≡ is_some b.revision)
    × (is_suggestion_created a.action ≡ is_suggestion_created b.action)

Chain-if :
    (x y z : Bool) {p q r u v w : Sign}
    → x ≡ y
    → y ≡ z
    → Chain p q r
    → Chain u v w
    → Chain (if x && y then p else u) (if y && z then q else v) (if x && z then r else w)
Chain-if true true true i j h k = h
Chain-if true true false i j h k = ground arith
Chain-if true false z i j h k = ground arith
Chain-if false true z i j h k = ground arith
Chain-if false false z i j h k = k

Chain-cmp_keys :
    (a b c : ComparableLogEvent)
    → IsAlike a b
    → IsAlike b c
    → Chain (cmp_keys a b) (cmp_keys b c) (cmp_keys a c)
unfolding cmp_keys
Chain-cmp_keys a b c i j =
    let by_unit : Chain (cmp_pk a.unit_pk b.unit_pk same) (cmp_pk b.unit_pk c.unit_pk same)
        (cmp_pk a.unit_pk c.unit_pk same) =
      Chain-cmp_pk a.unit_pk b.unit_pk c.unit_pk (λ x y. x) in
    Chain-if (is_suggestion_created a.action) (is_suggestion_created b.action)
      (is_suggestion_created c.action) i.1 j.1
      (Chain-cmp_pk a.value_pk b.value_pk c.value_pk by_unit) by_unit

-- Of three events that all have a revision or all have none, and that are all additions of
-- suggestions or none is, the first comes before the third if it comes before the second and
-- that before the third.
pub cmp_trans :
    (a b c : ComparableLogEvent)
    → IsAlike a b
    → IsAlike b c
    → cmp a b ≡ before
    → cmp b c ≡ before
    → cmp a c ≡ before
unfolding cmp
cmp_trans a b c i j =
    Chain-cmp_revision a.revision b.revision c.revision i.0 j.0
      (Chain-cmp_timestamp a.timestamp b.timestamp c.timestamp (Chain-cmp_keys a b c i j))
