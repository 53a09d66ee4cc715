-- ===== src/Core/Batch/Rounds.antt =====
-- The loop of the batches ends, and its batches are the rows of the query.
use pootle.Base.{
  ℕ, zero, suc, ◌+◌, ◌-◌, ◌≤◌, ◌<◌, Bool, true, false, Option, none, some, List, [], ◌∷◌, ◌++◌, map,
  ltb, length, take, drop, is_some, ◌≡◌, refl, ap, sym, ◌∙◌, subst, arith, take-append-drop,
  drop-all, length-drop, drop-drop, map-append,
}
use pootle.Core.Batch.{
  rounds, batched, step_of, iterate_qs, Batches, turn, unless_empty, create_batch, batched_create,
}

is_some-turn :
    {R W : Type 0} (r : Option R) (last : Bool) (after : W) (rest : Batches R W)
    → (last ≡ false → is_some rest ≡ true)
    → is_some (turn r last after rest) ≡ true
is_some-turn none last after rest h = refl
is_some-turn (some r) true after rest h = refl
is_some-turn (some r) false after none h = h refl
is_some-turn (some r) false after (some b) h = refl

module _ {A W R : Type 0} (qs : W → List A) (batch_size : ℕ) (some_size : 0 < batch_size)
    (act : List A → W → Option R × W) where
  rounds_end :
      (fuel step total complete offset : ℕ) (w : W)
      → total < fuel + complete
      → complete ≤ total
      → is_some (rounds qs batch_size act fuel step total complete offset w) ≡ true
  unfolding rounds
  rounds_end zero step total complete offset w h l = ground arith
  rounds_end (suc fuel) step total complete offset w h l =
      let (result, after) = act (iterate_qs qs batch_size offset w) w in
      is_some-turn result (ltb total (complete + batch_size)) after _ (λ more.
        rounds_end fuel step total (complete + batch_size) (offset + step) after (ground arith)
          (ground arith))

  -- The loop of the batches ends, after one batch more at most than the query has rows at
  -- first, if the batch size is positive, whatever is done with a batch and whatever the query
  -- then finds.
  pub batched_ends : (reduces : Bool) (w : W) → is_some (batched qs batch_size act reduces w) ≡ true
  unfolding batched
  batched_ends reduces w =
      rounds_end (suc (length (qs w))) (step_of qs batch_size reduces) (length (qs w)) 0 0 w
        (ground arith) (ground arith)

abbrev pub concat : {B : Type 0} → List (List B) → List B
concat [] = []
concat (r ∷ rs) = r ++ concat rs

abbrev pub yielded : {B W : Type 0} → Batches (List B) W → Option (List B)
yielded none = none
yielded (some (rs, w)) = some (concat rs)

yielded-turn :
    {B W : Type 0} (made next : List B) (last : Bool) (after : W) (rest : Batches (List B) W)
    → (made ≡ [] → next ≡ [])
    → (last ≡ true → next ≡ [])
    → (last ≡ false → yielded rest ≡ some next)
    → yielded (turn (unless_empty made) last after rest) ≡ some (made ++ next)
yielded-turn [] next last after rest e l m = ap some (sym (e refl))
yielded-turn (b ∷ made) next true after rest e l m = ap (λ t. some (b ∷ (made ++ t))) (sym (l refl))
yielded-turn (b ∷ made) next false after none e l m = let q = m refl in ground arith
yielded-turn (b ∷ made) next false after (some (rs, w)) e l m = let q = m refl in ground arith

map-drop-end :
    {A B : Type 0} (f : A → B) (n : ℕ) (l : List A)
    → 0 < n
    → map f (take n l) ≡ []
    → map f (drop n l) ≡ []
map-drop-end f zero l h e = ground arith
map-drop-end f (suc n) [] h e = refl
map-drop-end f (suc n) (x ∷ l) h e = ground arith

module _ {A B W : Type 0} (qs : W → List A) (batch_size : ℕ) (some_size : 0 < batch_size)
    (bulk_create : List B → W → List B × W) (create_method : A → B)
    (gives_objects : (l : List B) (w : W) → (bulk_create l w).0 ≡ l) (P : ℕ → W → Type 0) (step : ℕ)
    (advance : (offset : ℕ) (w : W)
      → P offset w
      → P (offset + step) (bulk_create (map create_method (iterate_qs qs batch_size offset w)) w).1
        × (drop
              (offset + step)
              (qs (bulk_create (map create_method (iterate_qs qs batch_size offset w)) w).1)
            ≡ drop batch_size (drop offset (qs w)))) where
  iterate_qs_lem :
      (offset : ℕ) (w : W)
      → iterate_qs qs batch_size offset w ≡ take batch_size (drop offset (qs w))
  iterate_qs_lem offset w =
      let e : offset + batch_size - offset ≡ batch_size = ground arith in
      unfold iterate_qs in ap (λ n. take n (drop offset (qs w))) e

  yielded-rounds :
      (fuel total complete offset : ℕ) (w : W)
      → P offset w
      → total < fuel + complete
      → length (drop offset (qs w)) + complete ≤ total
      → yielded (
          rounds qs batch_size
            (create_batch qs batch_size bulk_create create_method)
            fuel
            step
            total
            complete
            offset
            w)
        ≡ some (map create_method (drop offset (qs w)))
  unfolding rounds create_batch
  yielded-rounds zero total complete offset w p h l = ground arith
  yielded-rounds (suc fuel) total complete offset w p h l =
      let l0 = drop offset (qs w) in
      let objects = map create_method (iterate_qs qs batch_size offset w) in
      let (made, after) = bulk_create objects w in
      let (holds, left) = advance offset w p in
      let batch : made ≡ map create_method (take batch_size l0) =
        gives_objects objects w ∙ ap (map create_method) (iterate_qs_lem offset w) in
      let next = map create_method (drop batch_size l0) in
      let none_left : length l0 ≤ batch_size → next ≡ [] =
        λ short. ap (map create_method) (drop-all batch_size l0 short) in
      yielded-turn made next (ltb total (complete + batch_size)) after _
        (λ e. map-drop-end create_method batch_size l0 some_size (sym batch ∙ e))
        (λ last. none_left (ground arith))
        (λ more.
          yielded-rounds fuel total (complete + batch_size) (offset + step) after holds
            (ground arith) (rw left (ground (arith, length-drop batch_size l0)))
          ∙ ap (λ t. some (map create_method t)) left)
      ∙ ap some (
          ap (λ t. t ++ next) batch
          ∙ sym (map-append create_method (take batch_size l0) (drop batch_size l0))
          ∙ ap (map create_method) (take-append-drop batch_size l0))

module _ {A B W : Type 0} (qs : W → List A) (batch_size : ℕ) (some_size : 0 < batch_size)
    (bulk_create : List B → W → List B × W) (create_method : A → B)
    (gives_objects : (l : List B) (w : W) → (bulk_create l w).0 ≡ l) where
  -- batched_create without reduces makes, in order, one object of each row of the query, if the
  -- batch size is positive, bulk_create returns the objects it is given, and making them
  -- changes nothing that the query reads.
  pub yielded-batched_create :
      ((l : List B) (w : W) → qs (bulk_create l w).1 ≡ qs w)
      → (w : W)
      → yielded (batched_create qs batch_size bulk_create create_method false w)
        ≡ some (map create_method (qs w))
  unfolding batched_create batched
  yielded-batched_create unread w =
      yielded-rounds qs batch_size some_size bulk_create create_method gives_objects
        (λ offset w. Unit) batch_size
        (λ offset w p. (
          tt,
          ap (drop (offset + batch_size)) (unread _ w) ∙ sym (drop-drop offset batch_size (qs w)),
        ))
        (suc (length (qs w))) (length (qs w)) 0 0 w tt (ground arith) (ground arith)

  -- batched_create with reduces makes, in order, one object of each row that the query finds at
  -- first, if the batch size is positive, bulk_create returns the objects it is given, and
  -- making the objects of the first batch takes just its rows out of the query.
  pub yielded-batched_create_reduces :
      ((w : W)
        → qs (bulk_create (map create_method (iterate_qs qs batch_size 0 w)) w).1
          ≡ drop batch_size (qs w))
      → (w : W)
      → yielded (batched_create qs batch_size bulk_create create_method true w)
        ≡ some (map create_method (qs w))
  unfolding batched_create batched
  yielded-batched_create_reduces removed w =
      yielded-rounds qs batch_size some_size bulk_create create_method gives_objects
        (λ offset w. offset ≡ 0) 0
        (λ offset w p.
          subst
            (λ o.
              (o + 0 ≡ 0)
              × (drop (o + 0)
                    (qs (bulk_create (map create_method (iterate_qs qs batch_size o w)) w).1)
                  ≡ drop batch_size (drop o (qs w))))
            (sym p) (refl, removed w))
        (suc (length (qs w))) (length (qs w)) 0 0 w refl (ground arith) (ground arith)
