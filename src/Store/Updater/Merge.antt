-- ===== src/Store/Updater/Merge.antt =====
-- What the update of a unit keeps, overwrites and suggests.
use pootle.Base.{
  ℕ, ◌≡◌, refl, ◌∙◌, ap, sym, String, Bool, true, false, not, ◌&&◌, ◌||◌, some, List, [], ◌∷◌, ◌++◌,
  arith, ◌<◌, ◌==◌, nat_eq, string_eq, option_eq, list_eq, bool_eq, if◌then◌else◌, any, beq_refl,
  beq_comm, Bool-cases, inl, inr,
}
use pootle.Store.Unit.{DbUnit, FileUnit, update}
use pootle.Store.Unit.Update.{target-update, id-update}
use pootle.Store.Updater.{
  Suggestion, StoreUpdate, Updated, add_suggestion, has_text, need_update, update_unit,
  updated_unit, should_unobsolete, should_update_target, should_update_source, should_update_state,
  should_update_comment, should_create_suggestion, should_update_index, indexed,
  target_conflict_found, create_suggestion, db_target_updated, db_state_updated, db_comment_updated,
  fs_target_updated, fs_state_updated, fs_comment_updated,
}

any-append {ℓ} :
    {A : Type ℓ} (p : A → Bool) (xs ys : List A) → any p (xs ++ ys) ≡ (any p xs || any p ys)
any-append p [] ys = refl
any-append p (x ∷ xs) ys = ground (arith, any-append p xs ys)

-- a suggestion that differs from the unit's target is pending afterwards
add_suggestion-pending :
    (v : DbUnit) (translation : List String) (user : ℕ) (pending : List Suggestion)
    → has_text translation ≡ true
    → (translation == v.target) ≡ false
    → any
        (λ s. s.unit == v.id && s.target == translation)
        (add_suggestion v translation user pending).0
      ≡ true
unfolding add_suggestion
add_suggestion-pending v translation user pending t d = ground (
  arith,
  any-append (λ s. s.unit == v.id && s.target == translation) pending
      (record { unit = v.id; user = user; target = translation } ∷ []),
  beq_refl translation,
)

-- the unit's own target is not suggested
add_suggestion_self :
    (v : DbUnit) (user : ℕ) (pending : List Suggestion)
    → (add_suggestion v v.target user pending).0 ≡ pending
unfolding add_suggestion
add_suggestion_self v user pending = ground (arith, beq_refl v.target)

module _ (up : StoreUpdate) (old : FileUnit) (new : FileUnit) (submitter : ℕ) (next_index : ℕ)
    (u : DbUnit) (pending : List Suggestion) where
  abbrev result : Updated
  result = update_unit up (some old) (some new) submitter next_index u pending

  abbrev needed : Bool
  needed = need_update up (some old) (some new) submitter next_index u

  abbrev conflicting : Bool
  conflicting = target_conflict_found up (some old) (some new) submitter next_index u

  -- Three-way merge of the target: the file's target is taken exactly if it has changed since the
  -- last synchronisation and differs from the unit's, unless the unit's has changed too and
  -- Pootle wins.
  pub should_update_target_merge :
      should_update_target up (some old) (some new) submitter next_index u ≡ (
        not (new.target == old.target)
        && (not (new.target == u.target) && not (not (u.target == old.target) && up.pootle_wins)))
  unfolding should_update_target
  should_update_target_merge = ground arith

  abbrev content : DbUnit
  content = (updated_unit up (some old) (some new) submitter next_index u).0

  -- the rest of `update_unit` sets the index and the revision only
  content-update_unit :
      (result.unit.target ≡ content.target)
      × (result.unit.state ≡ content.state)
      × (result.unit.translator_comment ≡ content.translator_comment)
      × (result.unit.source ≡ content.source)
      × (result.unit.id ≡ content.id)
  unfolding update_unit
  content-update_unit = ground arith

  content-needed : content ≡ (if needed then (update next_index new u).0 else u)
  unfolding updated_unit
  content-needed = ground arith

  -- The unit has the file's target afterwards exactly if any of the five tests asks for an update
  -- of the unit, and its own target otherwise.
  pub target-update_unit : result.unit.target ≡ (if needed then new.target else u.target)
  target-update_unit =
      ground (arith, content-update_unit, content-needed, target-update next_index new u)

  id-update_unit : result.unit.id ≡ u.id
  id-update_unit = ground (arith, content-update_unit, content-needed, id-update next_index new u)

  not_needed :
      up.pootle_wins ≡ true
      → db_target_updated up (some old) (some new) submitter next_index u ≡ true
      → db_state_updated up (some old) (some new) submitter next_index u ≡ true
      → db_comment_updated up (some old) (some new) submitter next_index u ≡ true
      → (u.source == new.source) ≡ true
      → should_unobsolete up (some old) (some new) submitter next_index u ≡ false
      → needed ≡ false
  unfolding need_update should_update_comment should_update_state should_update_target
      should_update_source
  not_needed p t st co so un = ground arith

  unobsolete_kept :
      up.pootle_wins ≡ true
      → (revision : ℕ) → up.store_revision ≡ some revision
      → revision < u.revision
      → should_unobsolete up (some old) (some new) submitter next_index u ≡ false
  unfolding should_unobsolete
  unobsolete_kept p rev e l = ground arith

  -- Where Pootle wins, a unit of which all has changed since the last synchronisation, also its
  -- revision, and whose source is the file's, keeps its target, its state and its comment.
  pub update_unit-pootle_wins :
      up.pootle_wins ≡ true
      → db_target_updated up (some old) (some new) submitter next_index u ≡ true
      → db_state_updated up (some old) (some new) submitter next_index u ≡ true
      → db_comment_updated up (some old) (some new) submitter next_index u ≡ true
      → (u.source == new.source) ≡ true
      → (revision : ℕ) → up.store_revision ≡ some revision
      → revision < u.revision
      → (result.unit.target ≡ u.target)
        × (result.unit.state ≡ u.state)
        × (result.unit.translator_comment ≡ u.translator_comment)
  update_unit-pootle_wins p t st co so rev e l = ground (
    arith,
    content-update_unit,
    content-needed,
    not_needed p t st co so (unobsolete_kept p rev e l),
  )

  abbrev unobsoleted : Bool
  unobsoleted = should_unobsolete up (some old) (some new) submitter next_index u

  -- the suggestion, from the unit as it is after the update
  pending-update_unit :
      conflicting ≡ true
      → unobsoleted ≡ false
      → up.suggest_on_conflict ≡ true
      → (v : DbUnit) × (v.target ≡ content.target)
        × (v.id ≡ content.id)
        × (result.pending
            ≡ (create_suggestion up (some old) (some new) submitter next_index u v pending).0)
  unfolding update_unit should_create_suggestion
  pending-update_unit c un s = (
    (if should_update_index up (some old) (some new) submitter next_index content
        then indexed up (some old) (some new) submitter next_index content content
        else content),
    ground arith,
    ground arith,
    ground arith,
  )

  conflict-facts :
      conflicting ≡ true
      → (fs_target_updated up (some old) (some new) submitter next_index ≡ true)
        × ((new.target == u.target) ≡ false)
  unfolding target_conflict_found
  conflict-facts c = ground arith

  source_wins_needed : up.pootle_wins ≡ false → conflicting ≡ true → needed ≡ true
  unfolding need_update should_update_target
  source_wins_needed p c = ground (arith, conflict-facts c)

  suggested_new :
      up.pootle_wins ≡ true
      → (v : DbUnit) → v.target ≡ new.target
      → (create_suggestion up (some old) (some new) submitter next_index u v pending).0 ≡ pending
  unfolding create_suggestion
  suggested_new p v e = rw (p, ← e) (add_suggestion_self v up.user pending)

  suggested_old :
      up.pootle_wins ≡ false
      → has_text u.target ≡ true
      → (v : DbUnit) → v.id ≡ u.id
      → (u.target == v.target) ≡ false
      → any
          (λ s. s.unit == u.id && s.target == u.target)
          (create_suggestion up (some old) (some new) submitter next_index u v pending).0
        ≡ true
  unfolding create_suggestion
  suggested_old p t v e d = rw (p, ← e) (add_suggestion-pending v u.target submitter pending t d)

  -- Where the file wins a conflict of the targets, suggestions are made of conflicts, the unit
  -- has a target that is not empty and is not resurrected, update_unit gives the unit the
  -- target of the file, and the target of Pootle is among the suggestions that are pending for
  -- it.
  pub update_unit-source_wins :
      up.pootle_wins ≡ false
      → up.suggest_on_conflict ≡ true
      → conflicting ≡ true
      → unobsoleted ≡ false
      → has_text u.target ≡ true
      → (result.unit.target ≡ new.target)
        × (any (λ s. s.unit == u.id && s.target == u.target) result.pending ≡ true)
  update_unit-source_wins p s c un t =
      let (v, vt, vi, e) = pending-update_unit c un s in
      let n = source_wins_needed p c in
      (
        target-update_unit ∙ ground (arith, n),
        ap (any (λ s. s.unit == u.id && s.target == u.target)) e
            ∙ suggested_old p t v (vi ∙ (sym content-update_unit.4 ∙ id-update_unit)) (
                ground (
                  arith,
                  conflict-facts c,
                  vt,
                  content-update_unit,
                  target-update_unit,
                  beq_comm u.target new.target,
                )),
      )

  comment_not_asked :
      up.pootle_wins ≡ true
      → some old.translator_notes ≡ u.translator_comment
      → (old.translator_notes == "") ≡ false
      → should_update_comment up (some old) (some new) submitter next_index u ≡ false
  unfolding should_update_comment fs_comment_updated db_comment_updated
  comment_not_asked p same t = ground arith

  -- a unit that has the file's target has no conflict of the targets
  taken_no_conflict :
      (v : DbUnit)
      → v.target ≡ new.target
      → target_conflict_found up (some old) (some new) submitter next_index v ≡ false
  unfolding target_conflict_found
  taken_no_conflict v e = ground (arith, e, beq_refl new.target)

  indexed_target :
      (v : DbUnit) → (indexed up (some old) (some new) submitter next_index v v).target ≡ v.target
  indexed_target v = ground arith

  -- Where the conflict is looked for after the update, there is none left to suggest for.
  pending-unobsoleted : unobsoleted ≡ true → content.target ≡ new.target → result.pending ≡ pending
  unfolding update_unit should_create_suggestion
  pending-unobsoleted un e = ground (
    arith,
    taken_no_conflict content e,
    taken_no_conflict (indexed up (some old) (some new) submitter next_index content content)
        (indexed_target content ∙ e),
  )

  pending-unsuggested : up.suggest_on_conflict ≡ false → result.pending ≡ pending
  unfolding update_unit should_create_suggestion
  pending-unsuggested s = ground arith

  -- Where the targets of a unit are in conflict and anything asks for an update of the unit,
  -- and where Pootle wins or the unit is resurrected, update_unit gives the unit the target of
  -- the file, which is not its own, and makes no suggestion, so that its own target is neither
  -- kept nor suggested.
  pub update_unit_loses_target :
      (up.pootle_wins || unobsoleted) ≡ true
      → conflicting ≡ true
      → needed ≡ true
      → (result.unit.target ≡ new.target)
        × ((result.unit.target == u.target) ≡ false)
        × (result.pending ≡ pending)
  update_unit_loses_target p c n =
      let t : result.unit.target ≡ new.target = target-update_unit ∙ ground (arith, n) in
      let own : content.target ≡ new.target = sym content-update_unit.0 ∙ t in
      (
        t,
        ground (arith, t, conflict-facts c),
        elim (Bool-cases unobsoleted) [
          | inl un ↦ pending-unobsoleted un own
          | inr kept ↦ elim (Bool-cases up.suggest_on_conflict) [
            | inl s ↦
                let (v, vt, vi, e) = pending-update_unit c kept s in
                e ∙ suggested_new (ground arith) v (vt ∙ own)
            | inr s ↦ pending-unsuggested s
          ]
        ],
      )

  -- Where Pootle wins, and the comment of a unit is the one of the last synchronisation and not
  -- empty, update_unit leaves the comment, the target and the state of the unit as they are,
  -- whatever comment the file has now, if neither a resurrection nor the target, the source or
  -- the state asks for an update.
  pub should_update_comment_ignored :
      up.pootle_wins ≡ true
      → some old.translator_notes ≡ u.translator_comment
      → (old.translator_notes == "") ≡ false
      → (unobsoleted
          || (should_update_target up (some old) (some new) submitter next_index u
              || (should_update_source up (some old) (some new) submitter next_index u
                  || should_update_state up (some old) (some new) submitter next_index u)))
        ≡ false
      → (result.unit.translator_comment ≡ u.translator_comment)
        × (result.unit.target ≡ u.target)
        × (result.unit.state ≡ u.state)
  should_update_comment_ignored p same t others =
      let idle : needed ≡ false =
        unfold need_update in ground (arith, comment_not_asked p same t) in
      ground (arith, content-update_unit, content-needed, idle)

  unchanged_needed :
      (new.target == old.target) ≡ true
      → (new.translator_notes == old.translator_notes) ≡ true
      → (new.isfuzzy == old.isfuzzy) ≡ true
      → (new.istranslated == old.istranslated) ≡ true
      → (new.isobsolete == old.isobsolete) ≡ true
      → needed
        ≡ (unobsoleted || should_update_source up (some old) (some new) submitter next_index u)
  unfolding need_update should_update_target should_update_state should_update_comment
      fs_target_updated fs_state_updated fs_comment_updated
  unchanged_needed t c f tr o = ground arith

  no_conflict :
      (v : DbUnit)
      → (new.target == old.target) ≡ true
      → target_conflict_found up (some old) (some new) submitter next_index v ≡ false
  unfolding target_conflict_found
  no_conflict v t = ground arith

  unchanged_pending : (new.target == old.target) ≡ true → result.pending ≡ pending
  unfolding update_unit should_create_suggestion
  unchanged_pending t = ground (
    arith,
    no_conflict u t,
    no_conflict content t,
    no_conflict (indexed up (some old) (some new) submitter next_index content content) t,
  )

  -- If the file's unit has the target, the state and the comment of the last synchronisation, the
  -- unit is updated only to take another source or to be resurrected, and it gets no suggestion.
  pub update_unit_unchanged :
      (new.target == old.target) ≡ true
      → (new.translator_notes == old.translator_notes) ≡ true
      → (new.isfuzzy == old.isfuzzy) ≡ true
      → (new.istranslated == old.istranslated) ≡ true
      → (new.isobsolete == old.isobsolete) ≡ true
      → (needed
          ≡ (unobsoleted || should_update_source up (some old) (some new) submitter next_index u))
        × (result.pending ≡ pending)
  update_unit_unchanged t c f tr o = (unchanged_needed t c f tr o, unchanged_pending t)
