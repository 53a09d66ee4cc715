-- ===== src/Quality/Updated.antt =====
-- The table of checks after an update says of each unit what its checker finds.
use pootle.Base.{
  ℕ, String, Bool, true, false, not, ◌&&◌, Option, none, some, List, [], ◌∷◌, map, ◌==◌, nat_eq,
  string_eq, if◌then◌else◌, any, contains, keys, Distinct, ◌≡◌, refl, arith, Bool-cases, inl, inr,
  is_some, sym, ap, ◌∙◌, In,
}
use pootle.Quality.{
  QualityRow, UnitChecker, check_failures, Selection, CheckedUnit, is_translated, is_excluded,
  wants, original_checks, update_checks, update_untranslated, update_translated_unit,
  update_translated, update,
}
use pootle.Quality.Rows.{row_of, row_of-filter}
use pootle.Quality.Filters.{Distinct-check_failures}
use pootle.Quality.Compare.{
  wanted_row, contains-original, row_of-update_checks, row_of-update_others,
}

abbrev pub ids : List CheckedUnit → List ℕ
ids = map (λ u. u.id)

any-In :
    (p : CheckedUnit → Bool) (u : CheckedUnit) (units : List CheckedUnit)
    → In u units
    → p u ≡ true
    → any p units ≡ true
any-In p u [] m h = elim m [ ]
any-In p u (v ∷ units) (inl e) h = ground (arith, sym (ap p e) ∙ h)
any-In p u (v ∷ units) (inr n) h = ground (arith, any-In p u units n h)

id_differs :
    (i : ℕ) (u : CheckedUnit) (l : List CheckedUnit)
    → contains i (ids l) ≡ false
    → In u l
    → (i == u.id) ≡ false
id_differs i u [] h m = elim m [ ]
id_differs i u (v ∷ l) h (inl e) = ap (λ w. i == w.id) e ∙ ground arith
id_differs i u (v ∷ l) h (inr n) = id_differs i u l (ground arith) n

none_of :
    (i : ℕ) (l : List CheckedUnit)
    → contains i (ids l) ≡ false
    → any (λ v. v.id == i && is_translated v.state) l ≡ false
none_of i [] h = refl
none_of i (v ∷ l) h =
    ground (arith, none_of i l (ground arith), nat_eq.eqb_iff v.id i, nat_eq.eqb_iff i v.id)

-- No other unit has the key of an untranslated one.
translated_once :
    (u : CheckedUnit) (l : List CheckedUnit)
    → In u l
    → Distinct (ids l)
    → is_translated u.state ≡ false
    → any (λ v. v.id == u.id && is_translated v.state) l ≡ false
translated_once u [] m d h = elim m [ ]
translated_once u (v ∷ l) (inl e) d h = ground (
  arith,
  none_of u.id l (ap (λ w. contains w.id (ids l)) e ∙ d.0),
  ap (λ w. is_translated w.state) (sym e) ∙ h,
)
translated_once u (v ∷ l) (inr n) d h =
    ground (arith, id_differs v.id u l d.0 n, translated_once u l n d.1 h)

module _ (sel : Selection) (units : List CheckedUnit) (get_checker : ℕ → Option UnitChecker) where
  step_of_others :
      (existing : List QualityRow) (u : CheckedUnit) (unit : ℕ) (q : String)
      (rows : List QualityRow) (stores : List (ℕ × ℕ))
      → (u.id == unit) ≡ false
      → row_of unit q (update_translated_unit sel units get_checker existing u (rows, stores)).0
        ≡ row_of unit q rows
  unfolding update_translated_unit
  step_of_others existing u unit q rows stores h =
      elim (Bool-cases (sel.has_unit u && is_translated u.state)) [
        | inl seen ↦ rw seen (by_checker (get_checker u.tp))
        | inr out ↦ rw out refl
      ]
    where
      by_checker :
          (o : Option UnitChecker)
          → row_of unit q
              (elim o as (λ x. List QualityRow × List (ℕ × ℕ)) [
                | none ↦ (rows, stores)
                | some checker ↦
                    let updated =
                      update_checks u.id
                        (check_failures sel.check_names checker u)
                        (original_checks sel units u.id existing)
                        rows in
                    (updated.0, if updated.1 then (u.tp, u.store) ∷ stores else stores)
              ]).0
            ≡ row_of unit q rows
      by_checker none = refl
      by_checker (some checker) =
          row_of-update_others unit u.id q (check_failures sel.check_names checker u)
            (original_checks sel units u.id existing) rows h

  loop_of_others :
      (existing : List QualityRow) (l : List CheckedUnit) (unit : ℕ) (q : String)
      (state : List QualityRow × List (ℕ × ℕ))
      → contains unit (ids l) ≡ false
      → row_of unit q (update_translated sel units get_checker existing l state).0
        ≡ row_of unit q state.0
  unfolding update_translated
  loop_of_others existing [] unit q state h = refl
  loop_of_others existing (u ∷ l) unit q state h =
      loop_of_others existing l unit q
        (update_translated_unit sel units get_checker existing u state) (ground arith)
      ∙ step_of_others existing u unit q state.0 state.1
          (ground (arith, nat_eq.eqb_iff u.id unit, nat_eq.eqb_iff unit u.id))

  -- The turn of a unit decides about its rows.
  loop_at :
      (existing : List QualityRow) (l : List CheckedUnit) (u : CheckedUnit) (q : String)
      (old final : Option QualityRow)
      → In u l
      → Distinct (ids l)
      → ((state : List QualityRow × List (ℕ × ℕ))
          → row_of u.id q state.0 ≡ old
          → row_of u.id q (update_translated_unit sel units get_checker existing u state).0 ≡ final)
      → (state : List QualityRow × List (ℕ × ℕ)) → row_of u.id q state.0 ≡ old
      → row_of u.id q (update_translated sel units get_checker existing l state).0 ≡ final
  unfolding update_translated
  loop_at existing [] u q old final m d turn state h = elim m [ ]
  loop_at existing (v ∷ l) u q old final (inl e) d turn state h =
      loop_of_others existing l u.id q _ (ap (λ w. contains w.id (ids l)) e ∙ d.0)
      ∙ ap (λ w. row_of u.id q (update_translated_unit sel units get_checker existing w state).0)
          (sym e)
      ∙ turn state h
  loop_at existing (v ∷ l) u q old final (inr n) d turn state h =
      loop_at existing l u q old final n d.1 turn _
        (step_of_others existing v u.id q state.0 state.1 (id_differs v.id u l d.0 n) ∙ h)

  own_step :
      (existing : List QualityRow) (u : CheckedUnit) (q : String) (checker : UnitChecker)
      (state : List QualityRow × List (ℕ × ℕ))
      → sel.has_unit u ≡ true
      → is_translated u.state ≡ true
      → get_checker u.tp ≡ some checker
      → Distinct (keys (check_failures sel.check_names checker u))
      → contains q (original_checks sel units u.id existing) ≡ is_some (row_of u.id q state.0)
      → row_of u.id q (update_translated_unit sel units get_checker existing u state).0
        ≡ wanted_row u.id q (check_failures sel.check_names checker u) (row_of u.id q state.0)
  unfolding update_translated_unit
  own_step existing u q checker state seen live found once known = rw seen (
      rw live (
        rw found (
          row_of-update_checks u.id q (check_failures sel.check_names checker u)
            (original_checks sel units u.id existing) state.0 once known)))

  idle_step :
      (existing : List QualityRow) (u : CheckedUnit) (q : String)
      (state : List QualityRow × List (ℕ × ℕ))
      → is_translated u.state ≡ false
      → row_of u.id q (update_translated_unit sel units get_checker existing u state).0
        ≡ row_of u.id q state.0
  unfolding update_translated_unit
  idle_step existing u q state dead = elim (Bool-cases (sel.has_unit u)) [
    | inl seen ↦ rw seen (rw dead refl)
    | inr out ↦ rw out refl
  ]

  row_of-kept :
      (rows : List QualityRow) (unit : ℕ) (q : String)
      → row_of unit q (update_untranslated sel units rows).0
        ≡ (if is_excluded sel units unit then none else row_of unit q rows)
  unfolding update_untranslated
  row_of-kept rows unit q =
      ground (arith, row_of-filter (λ i. not (is_excluded sel units i)) unit q rows)

  -- After an update of the quality checks a translated unit has a row for each check that
  -- fails, of the names that the update is limited to: the row of before, muted or not, or else
  -- a new one; it has no row for a check that does not fail, if the unit and its checks are
  -- both in the selection, its TP has a checker, and the keys of the units and the names of the
  -- failures that the filters of the checker report are distinct.
  pub row_of-update :
      (rows : List QualityRow) (u : CheckedUnit) (q : String) (checker : UnitChecker)
      → In u units
      → Distinct (ids units)
      → sel.has_unit u ≡ true
      → sel.has_checks_of u ≡ true
      → is_translated u.state ≡ true
      → get_checker u.tp ≡ some checker
      → Distinct (keys (checker.run_filters u))
      → wants sel.check_names q ≡ true
      → row_of u.id q (update sel units get_checker rows).0
        ≡ wanted_row u.id q (check_failures sel.check_names checker u) (row_of u.id q rows)
  unfolding update is_excluded
  row_of-update rows u q checker m d seen checked live found once wanted =
      let kept = update_untranslated sel units rows in
      let counted =
        any-In (λ v. v.id == u.id && sel.has_checks_of v) u units m
          (ground (arith, nat_eq.eqb_iff u.id u.id)) in
      let stays =
        any-In (λ v. v.id == u.id && is_translated v.state) u units m
          (ground (arith, nat_eq.eqb_iff u.id u.id)) in
      let same : row_of u.id q kept.0 ≡ row_of u.id q rows =
        row_of-kept rows u.id q ∙ ground (arith, stays) in
      loop_at kept.0 units u q (row_of u.id q rows) _ m d
        (λ state h.
          own_step kept.0 u q checker state seen live found
            (Distinct-check_failures sel.check_names checker u once)
            (contains-original sel units u.id q kept.0 counted wanted ∙ ap is_some (same ∙ sym h))
          ∙ ap (wanted_row u.id q (check_failures sel.check_names checker u)) h)
        kept same

  -- After an update of the quality checks an untranslated or obsolete unit whose checks are in
  -- the selection has no row, whatever names the update is limited to, if the keys of the units
  -- are distinct.
  pub row_of-update-none :
      (rows : List QualityRow) (u : CheckedUnit) (q : String)
      → In u units
      → Distinct (ids units)
      → sel.has_checks_of u ≡ true
      → is_translated u.state ≡ false
      → row_of u.id q (update sel units get_checker rows).0 ≡ none
  unfolding update is_excluded
  row_of-update-none rows u q m d checked dead =
      let kept = update_untranslated sel units rows in
      let counted =
        any-In (λ v. v.id == u.id && sel.has_checks_of v) u units m
          (ground (arith, nat_eq.eqb_iff u.id u.id)) in
      let gone : row_of u.id q kept.0 ≡ none =
        row_of-kept rows u.id q ∙ ground (arith, counted, translated_once u units m d dead) in
      loop_at kept.0 units u q none none m d (λ state h. idle_step kept.0 u q state dead ∙ h) kept
        gone
