-- ===== src/Data/Checks/Table.antt =====
-- After `set_check_data` the table says what has been counted.
use pootle.Base.{
  ℕ, ◌+◌, true, false, Option, none, some, List, [], ◌∷◌, ◌++◌, ◌==◌, Eq, nat_eq, if◌then◌else◌,
  contains, keys, lookup, insert, insert_all, dict, del, get_or, or_else, is_some, lookup-insert,
  lookup-insert_all, lookup-del, is_some-lookup, Distinct, Bool-cases, Option-cases, inl, inr, ◌≡◌,
  refl, sym, ap, ◌∙◌, subst, arith, beq_refl,
}
use pootle.Data.Checks.{
  CheckRow, Counts, existing, compare_checks, delete_checks, update_checks, create_checks,
  set_check_data,
}

abbrev with_updates : List (ℕ × ℕ) → Option (ℕ × ℕ) → Option ℕ
with_updates u none = none
with_updates u (some (pk, n)) = some (get_or n (lookup pk u))

-- What is written over a count, where another is wanted.
abbrev change : ℕ → Option ℕ → Option ℕ
change n none = none
change n (some m) = if n == m then none else some m

get_or-change : (n m : ℕ) → get_or n (change n (some m)) ≡ m
get_or-change n m = ground (arith, nat_eq.eqb_iff n m)

module _ {K : Type 0} ⦃e : Eq K⦄ where
  abbrev row_of : K → List (CheckRow K) → Option (ℕ × ℕ)
  row_of q [] = none
  row_of q (r ∷ rows) = if r.check == q then some (r.pk, r.count) else row_of q rows

  -- The count of a check in the table.
  abbrev pub count_of : K → List (CheckRow K) → Option ℕ
  count_of q [] = none
  count_of q (r ∷ rows) = if r.check == q then some r.count else count_of q rows

  abbrev pub checks_of : List (CheckRow K) → List K
  checks_of [] = []
  checks_of (r ∷ rows) = r.check ∷ checks_of rows

  abbrev pub check_pks : List (CheckRow K) → List ℕ
  check_pks [] = []
  check_pks (r ∷ rows) = r.pk ∷ check_pks rows

  lookup-existing : (q : K) (rows : List (CheckRow K)) → lookup q (existing rows) ≡ row_of q rows
  unfolding existing
  lookup-existing q [] = refl
  lookup-existing q (r ∷ rows) = ground (arith, lookup-existing q rows)

  keys-existing : (rows : List (CheckRow K)) → keys (existing rows) ≡ checks_of rows
  unfolding existing
  keys-existing [] = refl
  keys-existing (r ∷ rows) = ap (λ t. r.check ∷ t) (keys-existing rows)

  lookup-dict-existing :
      (q : K) (rows : List (CheckRow K))
      → Distinct (checks_of rows)
      → lookup q (dict (existing rows)) ≡ row_of q rows
  lookup-dict-existing q rows h =
      lookup-insert_all q [] (existing rows) (subst Distinct (sym (keys-existing rows)) h)
      ∙ ground (arith, lookup-existing q rows)

  lookup-unused :
      (q : K) (counts : Counts K) (d : List (K × (ℕ × ℕ)))
      → lookup q (compare_checks counts d).unused
        ≡ (if contains q (keys counts) then none else lookup q d)
  unfolding compare_checks
  lookup-unused q [] d = refl
  lookup-unused q ((k, n) ∷ counts) d = ground (
    arith,
    lookup-unused q counts d,
    lookup-unused q counts (del k d),
    lookup-del q k d,
    e.eqb_iff k q,
    e.eqb_iff q k,
  )

  lookup-to_add :
      (q : K) (counts : Counts K) (d : List (K × (ℕ × ℕ)))
      → Distinct (keys counts)
      → lookup q (compare_checks counts d).to_add
        ≡ (if is_some (lookup q d) then none else lookup q counts)
  unfolding compare_checks
  lookup-to_add q [] d h = ground arith
  lookup-to_add q ((k, n) ∷ counts) d h = ground (
    arith,
    lookup-to_add q counts d h.1,
    lookup-to_add q counts (del k d) h.1,
    lookup-del q k d,
    e.eqb_iff k q,
    is_some-lookup k counts,
  )

  count_of-append :
      (q : K) (a b : List (CheckRow K))
      → count_of q (a ++ b) ≡ or_else (count_of q a) (count_of q b)
  count_of-append q [] b = refl
  count_of-append q (r ∷ a) b = ground (arith, count_of-append q a b)

  count_of-create_checks :
      (q : K) (next : ℕ) (counts : Counts K)
      → count_of q (create_checks next counts) ≡ lookup q counts
  unfolding create_checks
  count_of-create_checks q next [] = refl
  count_of-create_checks q next ((k, n) ∷ counts) =
      ground (arith, count_of-create_checks q (next + 1) counts)

  count_of-kept :
      (q : K) (u : List (ℕ × ℕ)) (ks : List K) (rows : List (CheckRow K))
      → count_of q (update_checks u (delete_checks ks rows))
        ≡ (if contains q ks then none else with_updates u (row_of q rows))
  unfolding update_checks delete_checks
  count_of-kept q u ks [] = ground arith
  count_of-kept q u ks (r ∷ rows) = ground (arith, count_of-kept q u ks rows, e.eqb_iff r.check q)

  -- No check of the dict has the row's key.
  abbrev NoRow : ℕ → List (K × (ℕ × ℕ)) → Type 0
  NoRow p d = (k : K) (m : ℕ) → lookup k d ≡ some (p, m) → ⊥

  -- None but one has it.
  abbrev OneRow : ℕ → K → List (K × (ℕ × ℕ)) → Type 0
  OneRow p q d = (k : K) (m : ℕ) → lookup k d ≡ some (p, m) → k ≡ q

  NoRow-del : (p : ℕ) (k : K) (d : List (K × (ℕ × ℕ))) → NoRow p d → NoRow p (del k d)
  NoRow-del p k d h j m f = elim (Bool-cases (k == j)) [
    | inl same ↦ ground (arith, lookup-del j k d)
    | inr other ↦ h j m (sym (lookup-del j k d ∙ rw other refl) ∙ f)
  ]

  OneRow-del : (p : ℕ) (q k : K) (d : List (K × (ℕ × ℕ))) → OneRow p q d → OneRow p q (del k d)
  OneRow-del p q k d h j m f = elim (Bool-cases (k == j)) [
    | inl same ↦ ground (arith, lookup-del j k d)
    | inr other ↦ h j m (sym (lookup-del j k d ∙ rw other refl) ∙ f)
  ]

  NoRow-del_one : (p : ℕ) (q : K) (d : List (K × (ℕ × ℕ))) → OneRow p q d → NoRow p (del q d)
  NoRow-del_one p q d h j m f = elim (Bool-cases (q == j)) [
    | inl same ↦ ground (arith, lookup-del j q d)
    | inr other ↦ ground (arith, h j m (sym (lookup-del j q d ∙ rw other refl) ∙ f), e.eqb_iff q j)
  ]

  abbrev updates_from : List (ℕ × ℕ) → Counts K → List (K × (ℕ × ℕ)) → List (ℕ × ℕ)
  updates_from acc counts d = insert_all acc (compare_checks counts d).to_update

  other_pk :
      (p pk count : ℕ) (k : K) (d : List (K × (ℕ × ℕ)))
      → NoRow p d
      → lookup k d ≡ some (pk, count)
      → (pk == p) ≡ false
  other_pk p pk count k d h found = elim (Bool-cases (pk == p)) [
    | inl same ↦
        absurd (h k count (found ∙ ap (λ x. some (x, count)) ((nat_eq.eqb_iff pk p).0 same)))
    | inr other ↦ other
  ]

  lookup-no_update :
      (p : ℕ) (counts : Counts K) (d : List (K × (ℕ × ℕ))) (acc : List (ℕ × ℕ))
      → NoRow p d
      → lookup p (updates_from acc counts d) ≡ lookup p acc
  unfolding compare_checks
  lookup-no_update p [] d acc h = refl
  lookup-no_update p ((k, n) ∷ counts) d acc h = elim (Option-cases (lookup k d)) [
    | inl absent ↦ rw (absent, compare_checks) (lookup-no_update p counts d acc h)
    | inr ((pk, count), found) ↦ elim (Bool-cases (count == n)) [
      | inl same ↦
          rw (found, compare_checks)
            (rw same (lookup-no_update p counts (del k d) acc (NoRow-del p k d h)))
      | inr other ↦
          rw (found, compare_checks)
            (rw other (
              lookup-no_update p counts (del k d) (insert pk n acc) (NoRow-del p k d h)
              ∙ lookup-insert p pk n acc
              ∙ rw (other_pk p pk count k d h found) refl))
    ]
  ]

  other_row :
      (p pk count : ℕ) (q k : K) (d : List (K × (ℕ × ℕ)))
      → OneRow p q d
      → (k == q) ≡ false
      → lookup k d ≡ some (pk, count)
      → (pk == p) ≡ false
  other_row p pk count q k d h n found = elim (Bool-cases (pk == p)) [
    | inl same ↦ ground (
      arith,
      e.eqb_iff k q,
      h k count (found ∙ ap (λ x. some (x, count)) ((nat_eq.eqb_iff pk p).0 same)),
    )
    | inr other ↦ other
  ]

  lookup-own_update :
      (p n m : ℕ) (k : K) (counts : Counts K) (d : List (K × (ℕ × ℕ))) (acc : List (ℕ × ℕ))
      → NoRow p (del k d)
      → lookup k d ≡ some (p, n)
      → lookup p (updates_from acc ((k, m) ∷ counts) d) ≡ or_else (change n (some m)) (lookup p acc)
  unfolding compare_checks
  lookup-own_update p n m k counts d acc h found = elim (Bool-cases (n == m)) [
    | inl equal ↦ rw (found, compare_checks) (rw equal (lookup-no_update p counts (del k d) acc h))
    | inr differs ↦
        rw (found, compare_checks)
          (rw differs (
            lookup-no_update p counts (del k d) (insert p m acc) h
            ∙ lookup-insert p p m acc
            ∙ rw (beq_refl p) refl))
  ]

  lookup-update :
      (p n : ℕ) (q : K) (counts : Counts K) (d : List (K × (ℕ × ℕ))) (acc : List (ℕ × ℕ))
      → Distinct (keys counts)
      → OneRow p q d
      → lookup q d ≡ some (p, n)
      → lookup p (updates_from acc counts d) ≡ or_else (change n (lookup q counts)) (lookup p acc)
  unfolding compare_checks
  lookup-update p n q [] d acc h o l = refl
  lookup-update p n q ((k, m) ∷ counts) d acc h o l = elim (Option-cases (lookup k d)) [
    | inl absent ↦
        rw (absent, compare_checks)
          (rw (not_found absent) (lookup-update p n q counts d acc h.1 o l))
    | inr ((pk, count), found) ↦ elim (Bool-cases (k == q)) [
      | inl same ↦
          let q_is_k : q ≡ k = sym ((e.eqb_iff k q).0 same) in
          rw same (
            lookup-own_update p n m k counts d acc
              (NoRow-del_one p k d (subst (λ x. OneRow p x d) q_is_k o))
              (subst (λ x. lookup x d ≡ some (p, n)) q_is_k l))
      | inr other ↦ elim (Bool-cases (count == m)) [
        | inl equal ↦
            rw (found, compare_checks)
              (rw equal (
                rw other (
                  lookup-update p n q counts (del k d) acc h.1 (OneRow-del p q k d o)
                    (kept other))))
        | inr differs ↦
            rw (found, compare_checks)
              (rw differs (
                rw other (
                  lookup-update p n q counts (del k d) (insert pk m acc) h.1 (OneRow-del p q k d o)
                    (kept other)
                  ∙ ap (or_else (change n (lookup q counts))) (
                      lookup-insert p pk m acc
                      ∙ rw (other_row p pk count q k d o other found) refl))))
      ]
    ]
  ]
    where
      not_found : lookup k d ≡ none → (k == q) ≡ false
      not_found absent = ground (arith, e.eqb_iff k q)

      kept : (k == q) ≡ false → lookup q (del k d) ≡ some (p, n)
      kept other = lookup-del q k d ∙ rw other l

  contains-pk :
      (q : K) (p n : ℕ) (rows : List (CheckRow K))
      → row_of q rows ≡ some (p, n)
      → contains p (check_pks rows) ≡ true
  contains-pk q p n [] h = ground arith
  contains-pk q p n (r ∷ rows) h = ground (arith, contains-pk q p n rows, nat_eq.eqb_iff p r.pk)

  one_row :
      (q k : K) (p n m : ℕ) (rows : List (CheckRow K))
      → Distinct (check_pks rows)
      → row_of q rows ≡ some (p, n)
      → row_of k rows ≡ some (p, m)
      → k ≡ q
  one_row q k p n m [] h i j = ground arith
  one_row q k p n m (r ∷ rows) h i j = ground (
    arith,
    one_row q k p n m rows h.1,
    contains-pk q p n rows,
    contains-pk k p m rows,
    e.eqb_iff r.check q,
    e.eqb_iff r.check k,
    h.0,
  )

  count_of-row_of :
      (q : K) (rows : List (CheckRow K)) (p n : ℕ)
      → row_of q rows ≡ some (p, n)
      → count_of q rows ≡ some n
  count_of-row_of q [] p n h = ground arith
  count_of-row_of q (r ∷ rows) p n h = ground (arith, count_of-row_of q rows p n)

  -- The two parts of the new table, put together.
  joined :
      (counts : Counts K) (d : List (K × (ℕ × ℕ))) (q : K) (o : Option (ℕ × ℕ))
      → lookup q d ≡ o
      → ((p n : ℕ) → o ≡ some (p, n) → OneRow p q d)
      → Distinct (keys counts)
      → or_else
          (if contains q (keys (compare_checks counts d).unused)
            then none
            else with_updates (updates_from [] counts d) o)
          (if is_some (lookup q d) then none else lookup q counts)
        ≡ lookup q counts
  joined counts d q none l one h = rw l (ground arith)
  joined counts d q (some (p, n)) l one h = elim (Option-cases (lookup q counts)) [
    | inl unwanted ↦ ground (
      arith,
      is_some-lookup q (compare_checks counts d).unused,
      lookup-unused q counts d,
      is_some-lookup q counts,
    )
    | inr (m, wanted) ↦ ground (
      arith,
      is_some-lookup q (compare_checks counts d).unused,
      lookup-unused q counts d,
      is_some-lookup q counts,
      lookup-update p n q counts d [] h (one p n refl) l,
      get_or-change n m,
    )
  ]

  -- set_check_data leaves for each check the number that was counted, and no row where none
  -- was, if no two rows have the same check or the same key, and no check is counted twice.
  pub count_of-set_check_data :
      (next : ℕ) (counts : Counts K) (rows : List (CheckRow K)) (q : K)
      → Distinct (checks_of rows)
      → Distinct (check_pks rows)
      → Distinct (keys counts)
      → count_of q (set_check_data next counts rows) ≡ lookup q counts
  unfolding set_check_data
  count_of-set_check_data next counts rows q one_check one_pk one_count =
      let d = dict (existing rows) in
      let c = compare_checks counts d in
      let in_d = lookup-dict-existing q rows one_check in
      count_of-append q (update_checks (dict c.to_update) (delete_checks (keys c.unused) rows))
        (create_checks next c.to_add)
      ∙ rw (count_of-create_checks q next c.to_add) (
          rw (lookup-to_add q counts d one_count) (
            rw (count_of-kept q (dict c.to_update) (keys c.unused) rows) (
              joined counts d q (row_of q rows) in_d
                (λ p n found k m f.
                  one_row q k p n m rows one_pk found
                    (sym (lookup-dict-existing k rows one_check) ∙ f))
                one_count)))
