-- ===== src/Core/Tests.antt =====
-- The theorems about pootle/core at small data.
use pootle.Base.{ℕ, ◌≡◌, refl, true, false, some, List, [], ◌∷◌, ◌++◌, ◌*◌, arith, drop, is_some}
use pootle.Core.Batch.{batched, batched_create, create_batch, create}
use pootle.Core.Batch.Rounds.{
  batched_ends, yielded, yielded-batched_create, yielded-batched_create_reduces,
}

-- The state is a table and the rows that a query still finds.
abbrev Tables : Type 0
Tables = List ℕ × List ℕ

-- Making two objects takes two rows out of the query.
abbrev make_two : List ℕ → Tables → List ℕ × Tables
make_two objects (table, rows) = (objects, (table ++ objects, drop 2 rows))

-- Making objects leaves the query as it is.
abbrev make : List ℕ → Tables → List ℕ × Tables
make objects (table, rows) = (objects, (table ++ objects, rows))

abbrev five : Tables
five = ([], 1 ∷ 2 ∷ 3 ∷ 4 ∷ 5 ∷ [])

created :
    create (λ w. w.1) 2 make_two (λ n. n * 10) true five
    ≡ some (5, (10 ∷ 20 ∷ 30 ∷ 40 ∷ 50 ∷ [], []))
unfolding create
created = refl

-- A query that does not shrink is read from its start again.
repeated :
    create (λ w. w.1) 2 make (λ n. n) true five
    ≡ some (6, (1 ∷ 2 ∷ 1 ∷ 2 ∷ 1 ∷ 2 ∷ [], 1 ∷ 2 ∷ 3 ∷ 4 ∷ 5 ∷ []))
unfolding create
repeated = refl

batched_ends_example :
    is_some (batched (λ w. w.1) 2 (create_batch (λ w. w.1) 2 make (λ n. n)) true five) ≡ true
batched_ends_example =
    batched_ends (λ w. w.1) 2 (ground arith) (create_batch (λ w. w.1) 2 make (λ n. n)) true five

yielded-batched_create_example :
    yielded (batched_create (λ w. w.1) 2 make (λ n. n * 10) false five)
    ≡ some (10 ∷ 20 ∷ 30 ∷ 40 ∷ 50 ∷ [])
yielded-batched_create_example =
    yielded-batched_create (λ w. w.1) 2 (ground arith) make (λ n. n * 10) (λ l w. refl)
      (λ l w. refl) five

yielded-batched_create_reduces_example :
    yielded (batched_create (λ w. w.1) 2 make_two (λ n. n * 10) true five)
    ≡ some (10 ∷ 20 ∷ 30 ∷ 40 ∷ 50 ∷ [])
yielded-batched_create_reduces_example =
    yielded-batched_create_reduces (λ w. w.1) 2 (ground arith) make_two (λ n. n * 10) (λ l w. refl)
      (λ w. refl) five
