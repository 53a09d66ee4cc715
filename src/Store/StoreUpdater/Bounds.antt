-- ===== src/Store/StoreUpdater/Bounds.antt =====
-- The revisions and the keys of a store's units stay below the global revision and the next key.
use pootle.Base.{
  ℕ, suc, ◌≡◌, ◌≤◌, ◌<◌, refl, sym, subst, Bool, true, false, Option, none, some, List, [], ◌∷◌,
  map, arith, All, All-map, All-append, All-imp, contains, nat_eq,
}
use mathlib.Core.Option.{none-ne-some}
use pootle.Store.Unit.{DbUnit, FileUnit, makeobsolete}
use pootle.Store.Unit.Update.{id-update, revision-update}
use pootle.Store.Updater.{StoreUpdate, Suggestion, update_unit, updated_unit}
use pootle.Store.Diff.{SourceUnit, Changes, diff}
use pootle.Store.StoreUpdater.{
  StoreState, Sources, Counts, update_index, addunit, fold, mark_unit, mark_units_obsolete,
  Progress, update_units, step, is_unsynced, increment_unsynced, add_and_obsolete, update_from_diff,
  with_indices,
}
use pootle.Store.StoreUpdater.Keeps.{increment_unsynced_complete, finish, staged}
use pootle.Store.StoreUpdater.Run.{
  make_changes, Comparison, ParseState, store_diff, apply_changes, update_store,
}

abbrev pub InBounds : ℕ → ℕ → DbUnit → Type 0
InBounds next_id revision u = (u.id < next_id) × (u.revision ≤ revision)

abbrev pub Bounded : StoreState → Type 0
Bounded st = All (InBounds st.next_id st.revision) st.units

InBounds-update_unit :
    (n r : ℕ) (up : StoreUpdate) (old new : Option FileUnit) (submitter next : ℕ) (u : DbUnit)
    (pending : List Suggestion)
    → up.update_revision ≤ r
    → InBounds n r u
    → InBounds n r (update_unit up old new submitter next u pending).unit
unfolding update_unit updated_unit
InBounds-update_unit n r up old none submitter next u pending le h = (ground arith, ground arith)
InBounds-update_unit n r up old (some f) submitter next u pending le h =
    (ground (arith, id-update next f u), ground (arith, revision-update next f u))

module _ (n r : ℕ) where
  All-InBounds-map :
      (f : DbUnit → DbUnit)
      → ((u : DbUnit) → InBounds n r u → InBounds n r (f u))
      → (units : List DbUnit) → All (InBounds n r) units
      → All (InBounds n r) (map f units)
  All-InBounds-map f h units b =
      All-map (InBounds n r) f units (All-imp (InBounds n r) (λ u. InBounds n r (f u)) h units b)

  InBounds-moved :
      (ms : List (ℕ × ℕ)) (units : List DbUnit)
      → All (InBounds n r) units
      → All (InBounds n r) (fold (λ l m. update_index m l) units ms)
  InBounds-moved [] units b = b
  InBounds-moved ((start, delta) ∷ ms) units b =
      InBounds-moved ms (update_index (start, delta) units)
        (unfold update_index in All-InBounds-map _ (λ u h. (ground arith, ground arith)) units b)

  InBounds-mark :
      (up : StoreUpdate) (src : Sources) (marked : List ℕ)
      → up.update_revision ≤ r
      → (units : List DbUnit) → All (InBounds n r) units
      → All (InBounds n r) (mark_units_obsolete up src marked units).0
  unfolding mark_units_obsolete mark_unit makeobsolete
  InBounds-mark up src marked le units b =
      All-InBounds-map _ (λ u h. (ground arith, ground arith)) units b

  InBounds-update_units :
      (up : StoreUpdate) (src : Sources) (uids : List ℕ)
      → up.update_revision ≤ r
      → (units : List DbUnit) (p : Progress) → All (InBounds n r) p.done
      → All (InBounds n r) units
      → All (InBounds n r) (update_units up src uids units p).done
  unfolding update_units
  InBounds-update_units up src uids le [] p done b = done
  InBounds-update_units up src uids le (u ∷ rest) p done b =
      InBounds-update_units up src uids le rest _ (one (contains u.id uids)) b.1
    where
      one : (hit : Bool) → All (InBounds n r) (step up src hit u rest p).done
      one false = All-append _ p.done _ done (b.0, tt)
      one true =
          All-append _ p.done _ done (InBounds-update_unit n r up _ _ _ _ u p.pending le b.0, tt)

Bounded-added :
    (r : ℕ) (adds : List (SourceUnit × ℕ)) (st : StoreState)
    → r ≤ st.revision
    → Bounded st
    → Bounded (fold (addunit r) st adds) × ((fold (addunit r) st adds).revision ≡ st.revision)
unfolding addunit
Bounded-added r [] st le b = (b, refl)
Bounded-added r (a ∷ adds) st le b = Bounded-added r adds (addunit r st a) le (one a)
  where
    one : (a : SourceUnit × ℕ) → Bounded (addunit r st a)
    one (unit, index) =
        All-append _ st.units _
          (All-imp (InBounds st.next_id st.revision) _ (λ u h. (ground arith, h.1)) st.units b)
          (
            (
              subst (λ i. i < suc st.next_id) (sym (id-update _ _ _)) (omega arith),
              subst (λ k. k ≤ st.revision) (sym (revision-update _ _ _)) le,
            ),
            tt,
          )

Bounded-add_and_obsolete :
    (up : StoreUpdate) (src : Sources) (c : Changes) (st : StoreState)
    → up.update_revision ≤ st.revision
    → Bounded st
    → Bounded (add_and_obsolete up src c st).0
      × ((add_and_obsolete up src c st).0.revision ≡ st.revision)
unfolding add_and_obsolete
Bounded-add_and_obsolete up src c st le b =
    let moved = fold (λ l m. update_index m l) st.units c.index in
    let (b', e) =
      Bounded-added up.update_revision c.add (record st { units = moved }) le
        (InBounds-moved st.next_id st.revision c.index st.units b) in
    (InBounds-mark _ _ up src _ (subst (λ n. up.update_revision ≤ n) (sym e) le) _ b', e)

Bounded-increment :
    (rev : Option ℕ) (n : ℕ) (st : StoreState) → Bounded st → Bounded (increment_unsynced rev n st)
unfolding increment_unsynced
Bounded-increment rev n st b =
    All-InBounds-map st.next_id (suc st.revision) _ (λ u h. (ground arith, ground arith)) st.units
      (All-imp (InBounds st.next_id st.revision) (InBounds st.next_id (suc st.revision))
        (λ u h. (h.0, omega arith)) st.units b)

-- No live unit has a revision between the last synchronisation and the update.
abbrev pub Settled : Option ℕ → ℕ → StoreState → Type 0
Settled store_revision update_revision st =
    All (λ u. is_unsynced store_revision update_revision u ≡ false) st.units

Bounded-finish :
    (up : StoreUpdate) (src : Sources) (c : Changes) (st : StoreState)
    → up.update_revision ≤ st.revision
    → Bounded st
    → Bounded (finish up src c st)
      × Settled up.store_revision up.update_revision (finish up src c st)
Bounded-finish up src c st le b = (
  Bounded-increment up.store_revision up.update_revision _
      (InBounds-update_units st.next_id st.revision up src c.update_ids le st.units _ tt b),
  increment_unsynced_complete up.store_revision up.update_revision _ le,
)

Bounded-update_from_diff :
    (up : StoreUpdate) (src : Sources) (c : Changes) (st : StoreState)
    → up.update_revision ≤ st.revision
    → Bounded st
    → Bounded (update_from_diff up src c st).0
      × Settled up.store_revision up.update_revision (update_from_diff up src c st).0
unfolding update_from_diff
Bounded-update_from_diff up src c st le b = bounded up.change_indices
  where
    bounded :
        (allowed : Bool)
        → let st' = finish (with_indices up c) src c (staged up src c st allowed) in
          Bounded st' × Settled up.store_revision up.update_revision st'
    bounded true =
        let (b', e) = Bounded-add_and_obsolete (with_indices up c) src c st le b in
        Bounded-finish (with_indices up c) src c _ (subst (λ n. up.update_revision ≤ n) (sym e) le)
          b'
    bounded false = Bounded-finish (with_indices up c) src c st le b

Bounded-make_changes :
    (up : StoreUpdate) (src : Sources) (c : Changes) (st : StoreState)
    → Bounded st
    → Bounded (make_changes up src c st).0
      × Settled up.store_revision (suc st.revision) (make_changes up src c st).0
unfolding make_changes
Bounded-make_changes up src c st b =
    Bounded-update_from_diff (record up { update_revision = suc st.revision }) src c
      (record st { revision = suc st.revision }) (omega arith)
      (All-imp (InBounds st.next_id st.revision) (InBounds st.next_id (suc st.revision))
        (λ u h. (h.0, omega arith)) st.units b)

-- What an update has made: nothing, or changes under the next global revision that are settled.
abbrev pub Made : StoreUpdate → StoreState → StoreState → Option (ℕ × Counts) → Type 0
Made up st st' none = st' ≡ st
Made up st st' (some (revision, counts)) =
    (revision ≡ suc st.revision) × Settled up.store_revision revision st'

some_injective :
    (a b : StoreState × Option (ℕ × Counts))
    → ◌≡◌ {A = Option (StoreState × Option (ℕ × Counts))} (some a) (some b)
    → a ≡ b
some_injective a b h = cc h

Bounded-apply_changes :
    (up : StoreUpdate) (src : Sources) (st st' : StoreState) (made : Option (ℕ × Counts))
    (found : Option (Option Changes))
    → Bounded st
    → apply_changes up src st found ≡ some (st', made)
    → Bounded st' × Made up st st' made
unfolding apply_changes
Bounded-apply_changes up src st st' made none b h = elim (none-ne-some _ h) [ ]
Bounded-apply_changes up src st st' made (some none) b h =
    let e = some_injective (st, none) (st', made) h in
    subst (λ r. Bounded r.0 × Made up st r.0 r.1) e (b, refl)
Bounded-apply_changes up src st st' made (some (some c)) b h =
    let (st1, counts) = make_changes up src c st in
    let e = some_injective (st1, some (suc st.revision, counts)) (st', made) h in
    let (b', settled) = Bounded-make_changes up src c st b in
    subst (λ r. Bounded r.0 × Made up st r.0 r.1) e (b', (refl, settled))

-- Every update of a store keeps the keys of its units below the next key and their revisions at most
-- the global one. If it makes no changes, it leaves the units, the suggestions and the revision as
-- they are. If it makes changes, then under the next global revision, and after it no live unit has
-- a revision between the last synchronisation and that.
pub Bounded-update_store :
    (up : StoreUpdate) (src : Sources) (source : Comparison) (state : ParseState)
    (st st' : StoreState) (made : Option (ℕ × Counts))
    → Bounded st
    → (update_store up src source state st).1 ≡ some (st', made)
    → Bounded st' × Made up st st' made
unfolding update_store
Bounded-update_store up src source state st st' made b h =
    Bounded-apply_changes up src st st' made (diff (store_diff source up.store_revision st.units)) b
      h
