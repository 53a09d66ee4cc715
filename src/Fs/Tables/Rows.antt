-- ===== src/Fs/Tables/Rows.antt =====
-- Which rows the writes reach: the items of a state name the rows that have it.
use pootle.Base.{
  ℕ, suc, ◌≡◌, refl, inl, inr, Bool, true, ◌||◌, List, [], ◌∷◌, ◌++◌, map, arith, In, All, nat_eq,
  filter, contains, subst, is_none, beq_refl,
}
use pootle.Fs.Model.{Store, StoreFs}
use pootle.Fs.State.{StateName, Item, row_item}
use pootle.Fs.Tables.{Columns, new_rows, pks}

-- The row of an item of a state is reached.
pub contains-pks :
    (k : StateName) (p : StoreFs → Bool) (r : StoreFs) (rows : List StoreFs)
    → In r rows
    → p r ≡ true
    → contains r.pk (pks (map (row_item k) (filter p rows))) ≡ true
unfolding pks
contains-pks k p r [] m h = elim m [ ]
contains-pks k p r (x ∷ rows) (inl e) h =
    subst (λ x. contains r.pk (pks (map (row_item k) (filter p (x ∷ rows)))) ≡ true) e
      (ground (arith, beq_refl r.pk))
contains-pks k p r (x ∷ rows) (inr m) h = ground (arith, contains-pks k p r rows m h)

pub pks-append :
    (a : ℕ) (xs ys : List Item)
    → contains a (pks (xs ++ ys)) ≡ (contains a (pks xs) || contains a (pks ys))
unfolding pks
pks-append a [] ys = refl
pks-append a (x ∷ xs) ys = ground (arith, pks-append a xs ys)

-- A new row has never been synced.
pub All-new_rows :
    (stores : List Store) (k : Columns) (pk : ℕ) (items : List Item)
    → All
        (λ r. (is_none r.last_sync_revision ≡ true) × (is_none r.last_sync_hash ≡ true))
        (new_rows stores k pk items)
unfolding new_rows
All-new_rows stores k pk [] = tt
All-new_rows stores k pk (item ∷ items) = ((refl, refl), All-new_rows stores k (suc pk) items)
