-- ===== src/Store/Unit/Update.antt =====
-- What `Unit.update` leaves in a unit, and that a second update changes nothing.
use pootle.Base.{
  not, ◌&&◌, ◌||◌, ℕ, ◌≡◌, refl, ◌∙◌, ap, sym, true, false, arith, ◌==◌, string_eq, nat_eq,
  option_eq, list_eq, bool_eq, length, list_beq_iff, eq_iff, subst, bool_beq_iff, ◌≤◌,
}
use pootle.Store.Unit.{
  DbUnit, FileUnit, unit_state_eq, or_empty, any_text, isfuzzy, isobsolete, hasplural, update,
  update_source, update_target, update_developer_comment, update_translator_comment,
  update_locations, update_context, update_fuzzy, update_obsolete, update_unitid, markfuzzy,
  makeobsolete, resurrect,
}

-- The state and the index are set last but one, from the new target.
abbrev pub with_state : ℕ → FileUnit → DbUnit → DbUnit
with_state n f u = (update_obsolete n f (update_fuzzy f u).0).0

-- A file's unit: `hasplural` is said of two strings or more, of one only if the format says so,
-- and its identifier is not empty.
pub record IsFileUnit (f : FileUnit) : Type 0 where
  pub plural : f.hasplural ≡ false → length f.source ≤ 1
  pub singular : f.hasplural ≡ true → 1 ≤ length f.source
  pub named : (f.unitid == "") ≡ false

-- Each step changes its own fields only.
module _ (f : FileUnit) (u : DbUnit) where
  only_source :
      (update_source f u).0
      ≡ record u { source = (update_source f u).0.source; plural = (update_source f u).0.plural }
  unfolding update_source
  only_source = ground arith

  only_target : (update_target f u).0 ≡ record u { target = (update_target f u).0.target }
  unfolding update_target
  only_target = ground arith

  only_developer_comment :
      (update_developer_comment f u).0
      ≡ record u { developer_comment = (update_developer_comment f u).0.developer_comment }
  unfolding update_developer_comment
  only_developer_comment = ground arith

  only_translator_comment :
      (update_translator_comment f u).0
      ≡ record u { translator_comment = (update_translator_comment f u).0.translator_comment }
  unfolding update_translator_comment
  only_translator_comment = ground arith

  only_locations :
      (update_locations f u).0 ≡ record u { locations = (update_locations f u).0.locations }
  unfolding update_locations
  only_locations = ground arith

  only_context : (update_context f u).0 ≡ record u { context = (update_context f u).0.context }
  unfolding update_context
  only_context = ground arith

  only_fuzzy : (update_fuzzy f u).0 ≡ record u { state = (update_fuzzy f u).0.state }
  unfolding update_fuzzy
  only_fuzzy = ground arith

  only_obsolete :
      (n : ℕ)
      → (update_obsolete n f u).0 ≡ record u {
        state = (update_obsolete n f u).0.state;
        index = (update_obsolete n f u).0.index;
      }
  unfolding update_obsolete
  only_obsolete n = ground arith

  only_unitid : (update_unitid f u).0 ≡ record u { unitid = (update_unitid f u).0.unitid }
  unfolding update_unitid
  only_unitid = ground arith

module _ (f : FileUnit) (u : DbUnit) where
  set-target : (update_target f u).0 ≡ record u { target = f.target }
  unfolding update_target
  set-target = ground (arith, list_beq_iff u.target f.target)

  text-set :
      (or_empty (update_developer_comment f u).0.developer_comment ≡ f.developer_notes)
      × (or_empty (update_translator_comment f u).0.translator_comment ≡ f.translator_notes)
      × (or_empty (update_locations f u).0.locations ≡ f.locations)
      × (or_empty (update_context f u).0.context ≡ f.context)
  unfolding update_developer_comment update_translator_comment update_locations update_context
  text-set = ground (
    arith,
    eq_iff f.developer_notes "",
    eq_iff (or_empty u.developer_comment) "",
    eq_iff (or_empty u.developer_comment) f.developer_notes,
    eq_iff f.translator_notes "",
    eq_iff (or_empty u.translator_comment) "",
    eq_iff (or_empty u.translator_comment) f.translator_notes,
    eq_iff f.locations "",
    eq_iff (or_empty u.locations) "",
    eq_iff (or_empty u.locations) f.locations,
    eq_iff f.context "",
    eq_iff (or_empty u.context) "",
    eq_iff (or_empty u.context) f.context,
  )

  source-set :
      IsFileUnit f
      → ((update_source f u).0.source ≡ f.source) × (hasplural (update_source f u).0 ≡ f.hasplural)
  unfolding update_source
  source-set w = ground (arith, list_beq_iff u.source f.source, w.plural, w.singular)

  unitid-set : IsFileUnit f → (update_unitid f u).0.unitid ≡ f.unitid
  unfolding update_unitid
  unitid-set w = ground (arith, eq_iff u.unitid f.unitid, w.named)

  obsolete-set : (n : ℕ) → isobsolete (update_obsolete n f u).0 ≡ f.isobsolete
  unfolding update_obsolete
  obsolete-set n = ground arith

  fuzzy-set :
      (n : ℕ)
      → (f.isfuzzy ≡ true → (f.isobsolete ≡ false) × (any_text u.target ≡ true))
      → isfuzzy (update_obsolete n f (update_fuzzy f u).0).0 ≡ f.isfuzzy
  unfolding update_obsolete update_fuzzy
  fuzzy-set n h = ground arith

  fuzzy-exact :
      (n : ℕ)
      → isfuzzy (update_obsolete n f (update_fuzzy f u).0).0
        ≡ (f.isfuzzy && (not f.isobsolete && (any_text u.target || not (isobsolete u))))
  unfolding update_obsolete update_fuzzy isfuzzy isobsolete markfuzzy makeobsolete resurrect
  fuzzy-exact n = ground arith

-- The unit after each step.
module _ (n : ℕ) (f : FileUnit) (u : DbUnit) where
  abbrev u1 : DbUnit
  u1 = (update_source f u).0

  abbrev u2 : DbUnit
  u2 = (update_target f u1).0

  abbrev u3 : DbUnit
  u3 = (update_developer_comment f u2).0

  abbrev u4 : DbUnit
  u4 = (update_translator_comment f u3).0

  abbrev u5 : DbUnit
  u5 = (update_locations f u4).0

  abbrev u6 : DbUnit
  u6 = (update_context f u5).0

  abbrev u7 : DbUnit
  u7 = (update_fuzzy f u6).0

  abbrev u8 : DbUnit
  u8 = (update_obsolete n f u7).0

  abbrev u9 : DbUnit
  u9 = (update_unitid f u8).0

  update-steps : (update n f u).0 ≡ u9
  unfolding update
  update-steps = refl

  fields_u9 :
      (u9.source ≡ u1.source)
      × (u9.plural ≡ u1.plural)
      × (u9.target ≡ f.target)
      × (u9.developer_comment ≡ u3.developer_comment)
      × (u9.translator_comment ≡ u4.translator_comment)
      × (u9.locations ≡ u5.locations)
      × (u9.context ≡ u6.context)
      × (u9.state ≡ u8.state)
      × (u9.id ≡ u.id)
      × (u9.revision ≡ u.revision)
      × (u6.target ≡ f.target)
      × (u6.state ≡ u.state)
  fields_u9 = ground (
    arith,
    only_source f u,
    set-target f u1,
    only_developer_comment f u2,
    only_translator_comment f u3,
    only_locations f u4,
    only_context f u5,
    only_fuzzy f u6,
    only_obsolete f u7 n,
    only_unitid f u8,
  )

-- The unit says what the file's unit says. A comment that is NULL reads as the empty text.
pub record Agrees (f : FileUnit) (u : DbUnit) : Type 0 where
  pub unitid : u.unitid ≡ f.unitid
  pub source : u.source ≡ f.source
  pub plural : hasplural u ≡ f.hasplural
  pub target : u.target ≡ f.target
  pub developer : or_empty u.developer_comment ≡ f.developer_notes
  pub translator : or_empty u.translator_comment ≡ f.translator_notes
  pub locations : or_empty u.locations ≡ f.locations
  pub context : or_empty u.context ≡ f.context
  pub obsolete : isobsolete u ≡ f.isobsolete

-- A fuzzy unit of a file is not obsolete and has a target.
abbrev pub FuzzyHasTarget : FileUnit → Type 0
FuzzyHasTarget f = f.isfuzzy ≡ true → (f.isobsolete ≡ false) × (any_text f.target ≡ true)

hasplural-fields :
    (u v : DbUnit) → u.source ≡ v.source → u.plural ≡ v.plural → hasplural u ≡ hasplural v
unfolding hasplural
hasplural-fields u v s p = ground arith

isobsolete-state : (u v : DbUnit) → u.state ≡ v.state → isobsolete u ≡ isobsolete v
unfolding isobsolete
isobsolete-state u v e = ground arith

isfuzzy-state : (u v : DbUnit) → u.state ≡ v.state → isfuzzy u ≡ isfuzzy v
unfolding isfuzzy
isfuzzy-state u v e = ground arith

fuzzy_exact-update :
    (n : ℕ) (f : FileUnit) (u : DbUnit)
    → isfuzzy (update n f u).0
      ≡ (f.isfuzzy && (not f.isobsolete && (any_text f.target || not (isobsolete u))))
fuzzy_exact-update n f u =
    let same = fields_u9 n f u in
    ap isfuzzy (update-steps n f u)
    ∙ (isfuzzy-state (u9 n f u) (u8 n f u) same.7
        ∙ (fuzzy-exact f (u6 n f u) n ∙ rw (same.10, isobsolete-state (u6 n f u) u same.11)))

Agrees-u9 : (n : ℕ) (f : FileUnit) (u : DbUnit) → IsFileUnit f → Agrees f (u9 n f u)
Agrees-u9 n f u w =
    let same = fields_u9 n f u in
    let sources = source-set f u w in
    record {
      unitid = unitid-set f (u8 n f u) w;
      source = same.0 ∙ sources.0;
      plural = hasplural-fields (u9 n f u) (u1 n f u) same.0 same.1 ∙ sources.1;
      target = same.2;
      developer = ap or_empty same.3 ∙ (text-set f (u2 n f u)).0;
      translator = ap or_empty same.4 ∙ (text-set f (u3 n f u)).1;
      locations = ap or_empty same.5 ∙ (text-set f (u4 n f u)).2;
      context = ap or_empty same.6 ∙ (text-set f (u5 n f u)).3;
      obsolete = isobsolete-state (u9 n f u) (u8 n f u) same.7 ∙ obsolete-set f (u7 n f u) n;
    }

-- Unit.update gives a unit the identifier, the source, the plurality, the target, the comments,
-- the locations, the context and the obsolescence of the file's unit, and keeps its key and its
-- revision, if the file's unit has an identifier, has one string at least if it says that it is
-- plural, and at most one if not. The unit is then fuzzy exactly if the file's unit is fuzzy and
-- not obsolete, and has a target or the unit was not obsolete.
pub Agrees-update :
    (n : ℕ) (f : FileUnit) (u : DbUnit)
    → IsFileUnit f
    → Agrees f (update n f u).0
      × (isfuzzy (update n f u).0
          ≡ (f.isfuzzy && (not f.isobsolete && (any_text f.target || not (isobsolete u)))))
      × ((update n f u).0.id ≡ u.id)
      × ((update n f u).0.revision ≡ u.revision)
Agrees-update n f u w =
    let steps = update-steps n f u in
    let same = fields_u9 n f u in
    (
      subst (Agrees f) (sym steps) (Agrees-u9 n f u w),
      fuzzy_exact-update n f u,
      ap (λ v. v.id) steps ∙ same.8,
      ap (λ v. v.revision) steps ∙ same.9,
    )

-- The target is always the file's, whether the update reports a change or not.
pub target-update : (n : ℕ) (f : FileUnit) (u : DbUnit) → (update n f u).0.target ≡ f.target
target-update n f u = ap (λ v. v.target) (update-steps n f u) ∙ (fields_u9 n f u).2

pub id-update : (n : ℕ) (f : FileUnit) (u : DbUnit) → (update n f u).0.id ≡ u.id
id-update n f u = ap (λ v. v.id) (update-steps n f u) ∙ (fields_u9 n f u).8

pub revision-update : (n : ℕ) (f : FileUnit) (u : DbUnit) → (update n f u).0.revision ≡ u.revision
revision-update n f u = ap (λ v. v.revision) (update-steps n f u) ∙ (fields_u9 n f u).9

fuzzy-update :
    (n : ℕ) (f : FileUnit) (u : DbUnit) → FuzzyHasTarget f → isfuzzy (update n f u).0 ≡ f.isfuzzy
fuzzy-update n f u h =
    let same = fields_u9 n f u in
    ap isfuzzy (update-steps n f u)
    ∙ (isfuzzy-state (u9 n f u) (u8 n f u) same.7
        ∙ fuzzy-set f (u6 n f u) n
            (λ e. let (live, text) = h e in (live, ap any_text same.10 ∙ text)))

-- A unit that agrees is left as it is, and reported as unchanged.
update-of_agreeing :
    (n : ℕ) (f : FileUnit) (u : DbUnit)
    → Agrees f u
    → isfuzzy u ≡ f.isfuzzy
    → update n f u ≡ (u, false)
unfolding update
update-of_agreeing n f u a e =
    let s0 : update_source f u ≡ (u, false) =
      (unfold update_source in
        ground (arith, a.source, a.plural, list_beq_iff u.source f.source)) in
    let s1 : update_target f u ≡ (u, false) =
      (unfold update_target in ground (arith, a.target, list_beq_iff u.target f.target)) in
    let s2 : update_developer_comment f u ≡ (u, false) =
      (unfold update_developer_comment in
        ground (
          arith,
          a.developer,
          eq_iff (or_empty u.developer_comment) f.developer_notes,
          eq_iff f.developer_notes "",
        )) in
    let s3 : update_translator_comment f u ≡ (u, false) =
      (unfold update_translator_comment in
        ground (
          arith,
          a.translator,
          eq_iff (or_empty u.translator_comment) f.translator_notes,
          eq_iff f.translator_notes "",
        )) in
    let s4 : update_locations f u ≡ (u, false) =
      (unfold update_locations in
        ground
          (arith, a.locations, eq_iff (or_empty u.locations) f.locations, eq_iff f.locations "")) in
    let s5 : update_context f u ≡ (u, false) =
      (unfold update_context in
        ground (arith, a.context, eq_iff (or_empty u.context) f.context, eq_iff f.context "")) in
    let s6 : update_fuzzy f u ≡ (u, false) =
      (unfold update_fuzzy in ground (arith, bool_beq_iff (isfuzzy u) f.isfuzzy)) in
    let s7 : update_obsolete n f u ≡ (u, false) =
      (unfold update_obsolete in
        ground (arith, a.obsolete, bool_beq_iff (isobsolete u) f.isobsolete)) in
    let s8 : update_unitid f u ≡ (u, false) =
      (unfold update_unitid in ground (arith, a.unitid, eq_iff u.unitid f.unitid)) in
    rw (s0, s1, s2, s3, s4, s5, s6, s7, s8)

-- A second update from the same unit of a file changes nothing and reports no change.
pub update-update :
    (n m : ℕ) (f : FileUnit) (u : DbUnit)
    → IsFileUnit f
    → FuzzyHasTarget f
    → update m f (update n f u).0 ≡ ((update n f u).0, false)
update-update n m f u w h =
    update-of_agreeing m f (update n f u).0 (Agrees-update n f u w).0 (fuzzy-update n f u h)
