-- ===== src/Core/Batch.antt =====
-- pootle/core/batch.py: rows taken from a query a batch at a time. The database is a state `W`,
-- which the query reads; a list in place of a query is a query that does not read it.
pub mod Rounds
use pootle.Base.{
  ℕ, zero, suc, ◌+◌, Bool, Option, none, some, List, [], ◌∷◌, map, if◌then◌else◌, ltb, length,
  slice,
}

abbrev pub Batches : Type 0 → Type 0 → Type 0
Batches R W = Option (List R × W)

abbrev pub add_batch : {R W : Type 0} → R → Batches R W → Batches R W
add_batch r none = none
add_batch r (some (rs, w)) = some (r ∷ rs, w)

-- A turn of the loop: what it yields or a break, whether the turn is the last, and the rest.
abbrev pub turn : {R W : Type 0} → Option R → Bool → W → Batches R W → Batches R W
turn none last after rest = some ([], after)
turn (some r) last after rest = if last then some (r ∷ [], after) else add_batch r rest

-- `if not result: break`.
abbrev pub unless_empty : {B : Type 0} → List B → Option (List B)
unless_empty [] = none
unless_empty (b ∷ bs) = some (b ∷ bs)

abbrev pub total_length : {B : Type 0} → List (List B) → ℕ
total_length [] = 0
total_length (r ∷ rs) = length r + total_length rs

abbrev pub total_sum : List ℕ → ℕ
total_sum [] = 0
total_sum (n ∷ ns) = n + total_sum ns

module _ {A W : Type 0} (qs : W → List A) (batch_size : ℕ) where
  -- `iterate_qs`.
  unfoldable pub iterate_qs : ℕ → W → List A
  iterate_qs offset w = slice offset (offset + batch_size) (qs w)

  -- `while True:`. What is done with a batch gives none, where the loop breaks, or what it yields.
  -- Running out of fuel gives none.
  unfoldable pub rounds :
      {R : Type 0}
      → (List A → W → Option R × W)
      → (fuel step total complete offset : ℕ) → W
      → Batches R W
  unfolding iterate_qs
  rounds act zero step total complete offset w = none
  rounds act (suc fuel) step total complete offset w =
      let (result, after) = act (iterate_qs offset w) w in
      let rest = rounds act fuel step total (complete + batch_size) (offset + step) after in
      turn result (ltb total (complete + batch_size)) after rest

  -- The steps of `offset`.
  abbrev pub step_of : Bool → ℕ
  step_of reduces = if reduces then 0 else batch_size

  -- A batch more than the rows that are counted at first.
  unfoldable pub batched : {R : Type 0} → (List A → W → Option R × W) → Bool → W → Batches R W
  unfolding rounds
  batched act reduces w = rounds act (suc (length (qs w))) (step_of reduces) (length (qs w)) 0 0 w

  module _ {B : Type 0} where
    -- `bulk_create` of the model's manager gives the objects that it made.
    unfoldable pub create_batch :
        (List B → W → List B × W) → (A → B) → List A → W → Option (List B) × W
    create_batch bulk_create create_method args w =
        let (made, after) = bulk_create (map create_method args) w in (unless_empty made, after)

    unfoldable pub batched_create :
        (List B → W → List B × W) → (A → B) → Bool → W → Batches (List B) W
    unfolding create_batch batched
    batched_create bulk_create create_method reduces w =
        batched (create_batch bulk_create create_method) reduces w

    unfoldable pub create : (List B → W → List B × W) → (A → B) → Bool → W → Option (ℕ × W)
    unfolding batched_create
    create bulk_create create_method reduces w =
        elim (batched_create bulk_create create_method reduces w) [
          | none ↦ none
          | some (rs, after) ↦ some (total_length rs, after)
        ]

  -- `bulk_update`, which gives a number.
  unfoldable pub update_batch : (List A → W → ℕ × W) → (A → A) → List A → W → Option ℕ × W
  update_batch bulk_update update_method objects w =
      let (n, after) = bulk_update (map update_method objects) w in
      elim (unless_empty (map update_method objects)) [
        | none ↦ (none, w)
        | some b ↦ (some n, after)
      ]

  unfoldable pub batched_update : (List A → W → ℕ × W) → (A → A) → Bool → W → Batches ℕ W
  unfolding update_batch batched
  batched_update bulk_update update_method reduces w =
      batched (update_batch bulk_update update_method) reduces w

  unfoldable pub update : (List A → W → ℕ × W) → (A → A) → Bool → W → Option (ℕ × W)
  unfolding batched_update
  update bulk_update update_method reduces w =
      elim (batched_update bulk_update update_method reduces w) [
        | none ↦ none
        | some (rs, after) ↦ some (total_sum rs, after)
      ]
