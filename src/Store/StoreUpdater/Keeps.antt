-- ===== src/Store/StoreUpdater/Keeps.antt =====
-- What the update of a store keeps: no unit is deleted, and what Pootle has changed is not obsoleted.
use pootle.Base.{
  ℕ, zero, suc, ◌≡◌, ◌≤◌, refl, ◌∙◌, ap, sym, Bool, true, false, not, ◌&&◌, ◌||◌, Option, none,
  some, List, [], ◌∷◌, ◌++◌, map, arith, nat_eq, if◌then◌else◌, All, All-map, All-of-In, Bool-cases,
  inl, inr, is_some, contains, length,
}
use mathlib.Core.List.{map-append, append_assoc, append-nil}
use pootle.Store.Unit.{DbUnit, FileUnit, unit_state_eq, isobsolete, makeobsolete}
use pootle.Store.Unit.Update.{id-update}
use pootle.Store.Updater.{StoreUpdate, Suggestion, update_unit, updated_unit}
use pootle.Store.Diff.{SourceUnit, Changes, newer}
use pootle.Store.StoreUpdater.{
  StoreState, Sources, update_index, addunit, fold, mark_unit, mark_units_obsolete, Progress,
  update_units, step, is_unsynced, increment_unsynced, add_and_obsolete, update_from_diff,
  with_indices,
}

abbrev pub ids : List DbUnit → List ℕ
ids units = map (λ u. u.id) units

map-eq_ids :
    (f : DbUnit → DbUnit)
    → ((u : DbUnit) → (f u).id ≡ u.id)
    → (units : List DbUnit) → ids (map f units) ≡ ids units
map-eq_ids f h [] = refl
map-eq_ids f h (u ∷ units) = cc (h u, map-eq_ids f h units)

ids-update_index : (m : ℕ × ℕ) (units : List DbUnit) → ids (update_index m units) ≡ ids units
unfolding update_index
ids-update_index (start, delta) units = map-eq_ids _ (λ u. ground arith) units

ids-moved :
    (ms : List (ℕ × ℕ)) (units : List DbUnit)
    → ids (fold (λ l m. update_index m l) units ms) ≡ ids units
ids-moved [] units = refl
ids-moved (m ∷ ms) units = ids-moved ms (update_index m units) ∙ ids-update_index m units

ids-mark :
    (up : StoreUpdate) (src : Sources) (marked : List ℕ) (units : List DbUnit)
    → ids (mark_units_obsolete up src marked units).0 ≡ ids units
unfolding mark_units_obsolete mark_unit makeobsolete
ids-mark up src marked units = map-eq_ids _ (λ u. ground arith) units

ids-increment :
    (rev : Option ℕ) (update_revision : ℕ) (st : StoreState)
    → ids (increment_unsynced rev update_revision st).units ≡ ids st.units
unfolding increment_unsynced
ids-increment rev update_revision st = map-eq_ids _ (λ u. ground arith) st.units

-- the update of a unit keeps its key
pub id-update_unit :
    (up : StoreUpdate) (old new : Option FileUnit) (submitter next : ℕ) (u : DbUnit)
    (pending : List Suggestion)
    → (update_unit up old new submitter next u pending).unit.id ≡ u.id
unfolding update_unit updated_unit
id-update_unit up old none submitter next u pending = ground arith
id-update_unit up old (some n) submitter next u pending = ground (arith, id-update next n u)

ids-step :
    (up : StoreUpdate) (src : Sources) (b : Bool) (u : DbUnit) (rest : List DbUnit) (p : Progress)
    → ids (step up src b u rest p).done ≡ ids p.done ++ (u.id ∷ [])
ids-step up src false u rest p = map-append (λ v. v.id) p.done (u ∷ [])
ids-step up src true u rest p =
    map-append (λ v. v.id) p.done _
    ∙ ap (λ n. ids p.done ++ (n ∷ [])) (id-update_unit up _ _ _ _ u p.pending)

ids-update_units :
    (up : StoreUpdate) (src : Sources) (uids : List ℕ) (units : List DbUnit) (p : Progress)
    → ids (update_units up src uids units p).done ≡ ids p.done ++ ids units
unfolding update_units
ids-update_units up src uids [] p = sym (append-nil (ids p.done))
ids-update_units up src uids (u ∷ rest) p =
    ids-update_units up src uids rest (step up src (contains u.id uids) u rest p)
    ∙ (ap (λ l. l ++ ids rest) (ids-step up src (contains u.id uids) u rest p)
        ∙ append_assoc (ids p.done) (u.id ∷ []) (ids rest))

-- The keys that adding units gives out.
abbrev Added : List (SourceUnit × ℕ) → StoreState → StoreState → Type 0
Added adds st st' =
    (new : List ℕ) × (ids st'.units ≡ ids st.units ++ new) × (length new ≡ length adds)

ids-Added :
    (update_revision : ℕ) (adds : List (SourceUnit × ℕ)) (st : StoreState)
    → Added adds st (fold (addunit update_revision) st adds)
ids-Added update_revision [] st = ([], sym (append-nil (ids st.units)), refl)
ids-Added update_revision (a ∷ adds) st =
    let st1 = addunit update_revision st a in
    let (new, e, n) = ids-Added update_revision adds st1 in
    (
      st.next_id ∷ new,
      e ∙ (ap (λ l. l ++ new) (one a) ∙ append_assoc (ids st.units) (st.next_id ∷ []) new),
      ap suc n,
    )
  where
    one :
        (a : SourceUnit × ℕ)
        → ids (addunit update_revision st a).units ≡ ids st.units ++ (st.next_id ∷ [])
    one (unit, index) =
        unfold addunit in
        map-append (λ v. v.id) st.units _ ∙ ap (λ n. ids st.units ++ (n ∷ [])) (id-update _ _ _)

ids-add_and_obsolete :
    (up : StoreUpdate) (src : Sources) (c : Changes) (st : StoreState)
    → Added c.add st (add_and_obsolete up src c st).0
unfolding add_and_obsolete
ids-add_and_obsolete up src c st =
    let moved = fold (λ l m. update_index m l) st.units c.index in
    let (new, e, n) = ids-Added up.update_revision c.add (record st { units = moved }) in
    (new, ids-mark up src _ _ ∙ (e ∙ ap (λ l. l ++ new) (ids-moved c.index st.units)), n)

-- The state behind the updates.
abbrev pub finish : StoreUpdate → Sources → Changes → StoreState → StoreState
finish up src c st =
    let p =
      update_units up src c.update_ids st.units
        (record { done = []; pending = st.pending; updated = 0; suggested = 0 }) in
    increment_unsynced up.store_revision up.update_revision
      (record st { units = p.done; pending = p.pending })

ids-finish :
    (up : StoreUpdate) (src : Sources) (c : Changes) (st : StoreState)
    → ids (finish up src c st).units ≡ ids st.units
ids-finish up src c st =
    ids-increment up.store_revision up.update_revision _
    ∙ ids-update_units up src c.update_ids st.units _

-- The state before the updates.
abbrev pub staged : StoreUpdate → Sources → Changes → StoreState → Bool → StoreState
staged up src c st allowed =
    (if allowed then add_and_obsolete (with_indices up c) src c st else (st, zero)).0

-- The update of a store from a difference deletes no unit: the keys of the units stay, in their
-- order, and behind them stand as many new keys as the count of added units says.
pub ids-update_from_diff :
    (up : StoreUpdate) (src : Sources) (c : Changes) (st : StoreState)
    → let (st', counts) = update_from_diff up src c st in
      (new : List ℕ) × (ids st'.units ≡ ids st.units ++ new) × (length new ≡ counts.added)
unfolding update_from_diff
ids-update_from_diff up src c st = keys_of up.change_indices
  where
    keys_of :
        (allowed : Bool)
        → (new : List ℕ) × (ids
              (finish (with_indices up c) src c (staged up src c st allowed)).units
            ≡ ids st.units ++ new)
          × (length new ≡ (if allowed then length c.add else 0))
    keys_of true =
        let (new, e, n) = ids-add_and_obsolete (with_indices up c) src c st in
        (new, ids-finish (with_indices up c) src c _ ∙ e, n)
    keys_of false =
        ([], ids-finish (with_indices up c) src c st ∙ sym (append-nil (ids st.units)), refl)

-- After `increment_unsynced_unit_revision` no live unit has a revision between the last
-- synchronisation and the update, if the update's revision is not ahead of the global one.
pub increment_unsynced_complete :
    (store_revision : Option ℕ) (update_revision : ℕ) (st : StoreState)
    → update_revision ≤ st.revision
    → All
        (λ u. is_unsynced store_revision update_revision u ≡ false)
        (increment_unsynced store_revision update_revision st).units
unfolding increment_unsynced
increment_unsynced_complete rev n st h =
    All-map (λ u. is_unsynced rev n u ≡ false) _ st.units
      (All-of-In _ st.units (λ u m. elim (Bool-cases (is_unsynced rev n u)) [
        | inl hit ↦ rw hit (ground arith)
        | inr done ↦ rw done done
      ]))

-- `mark_units_obsolete` makes exactly those units obsolete that it is given, that were there at the
-- last synchronisation, and that Pootle has not changed since or may not keep.
pub isobsolete-mark_unit :
    (up : StoreUpdate) (src : Sources) (marked : List ℕ) (u : DbUnit)
    → isobsolete (mark_unit up src marked u) ≡ (
        isobsolete u
        || (contains u.id marked
            && (is_some (src.last_sync_unit u.unitid)
                && not (newer u.revision up.store_revision && up.pootle_wins))))
unfolding mark_unit isobsolete
isobsolete-mark_unit up src marked u = ground arith
