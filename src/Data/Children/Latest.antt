-- ===== src/Data/Children/Latest.antt =====
-- The last submission that is found among the children is the last of the rows.
use pootle.Base.{
  ℕ, String, Bool, true, false, Option, none, some, List, [], ◌∷◌, ◌==◌, string_eq, nat_eq,
  option_eq, eq_iff, if◌then◌else◌, lookup, insert, Bool-cases, inl, inr, ◌≡◌, refl, sym, ap, ◌∙◌,
  arith, All,
}
use pootle.Data.Children.{
  ChildRow, Stats, exceeds, update_max, add_row, add_to, ChildrenStats, add_child_stats,
  add_children, get_children_stats, Aggregate, no_aggregate, is_left_out, aggregate_child,
  aggregate_from, aggregate_children,
}

-- The greater of two, where None is the least.
unfoldable pub later : Option ℕ → Option ℕ → Option ℕ
unfolding exceeds
later a b = if exceeds b a then b else a

later_assoc : (a b c : Option ℕ) → later (later a b) c ≡ later a (later b c)
unfolding later
later_assoc none none none = refl
later_assoc none none (some c) = refl
later_assoc none (some b) none = refl
later_assoc none (some b) (some c) = ground arith
later_assoc (some a) none none = refl
later_assoc (some a) none (some c) = refl
later_assoc (some a) (some b) none = ground arith
later_assoc (some a) (some b) (some c) = ground arith

later_comm : (a b : Option ℕ) → later a b ≡ later b a
unfolding later
later_comm none none = refl
later_comm none (some b) = refl
later_comm (some a) none = refl
later_comm (some a) (some b) = ground arith

later_self : (a : Option ℕ) → later a a ≡ a
unfolding later
later_self none = refl
later_self (some a) = ground arith

none-later : (a : Option ℕ) → later none a ≡ a
unfolding later
none-later none = refl
none-later (some a) = refl

later_absorb : (a x : Option ℕ) → later a (later a x) ≡ later a x
later_absorb a x = sym (later_assoc a a x) ∙ ap (λ t. later t x) (later_self a)

later_swap : (a b x : Option ℕ) → later a (later b x) ≡ later b (later a x)
later_swap a b x =
    sym (later_assoc a b x) ∙ ap (λ t. later t x) (later_comm a b) ∙ later_assoc b a x

-- The keys of submissions are not 0.
abbrev pub HasKey : ChildRow → Type 0
HasKey r = (r.last_submission == some 0) ≡ false

old_pk : Option Stats → Option ℕ
old_pk none = none
old_pk (some s) = s.last_submission_pk

update_max-later :
    (old new : Option ℕ) → (new == some 0) ≡ false → update_max false old new ≡ later old new
unfolding update_max later
update_max-later old none h = refl
update_max-later none (some n) h = ground arith
update_max-later (some m) (some n) h = ground arith

pk-add_to :
    (o : Option Stats) (r : ChildRow)
    → HasKey r
    → (add_to o r).last_submission_pk ≡ later (old_pk o) r.last_submission
unfolding add_row old_pk
pk-add_to none r h = unfold update_max in sym (none-later r.last_submission)
pk-add_to (some s) r h = update_max-later s.last_submission_pk r.last_submission h

module _ (of_templates : Bool) where
  abbrev counted : String → Option ℕ → Option ℕ
  counted path pk = if is_left_out of_templates path then none else pk

  -- The last submission of the rows whose child is not left out.
  unfoldable pub latest_row : List ChildRow → Option ℕ
  latest_row [] = none
  latest_row (r ∷ rows) = later (counted r.root r.last_submission) (latest_row rows)

  latest_child : ChildrenStats → Option ℕ
  latest_child [] = none
  latest_child ((path, s) ∷ children) =
      later (counted path s.last_submission_pk) (latest_child children)

  counted-later :
      (path : String) (a b : Option ℕ)
      → counted path (later a b) ≡ later (counted path a) (counted path b)
  counted-later path a b = elim (Bool-cases (is_left_out of_templates path)) [
    | inl out ↦ rw out (sym (later_self none))
    | inr kept ↦ rw kept refl
  ]

  counted-none : (path : String) → counted path none ≡ none
  counted-none path = ground arith

  counted_same :
      (p path : String) (pk : Option ℕ) → (p == path) ≡ true → counted p pk ≡ counted path pk
  counted_same p path pk same = ap (λ q. counted q pk) ((eq_iff p path).0 same)

  latest-lookup :
      (path : String) (children : ChildrenStats)
      → later (counted path (old_pk (lookup path children))) (latest_child children)
        ≡ latest_child children
  unfolding latest_child old_pk
  latest-lookup path [] = rw (counted-none path) (none-later none)
  latest-lookup path ((p, s) ∷ children) = elim (Bool-cases (p == path)) [
    | inl same ↦
        let pk = s.last_submission_pk in
        let rest = latest_child children in
        rw same (
          ap (λ x. later x (later (counted p pk) rest)) (sym (counted_same p path pk same))
          ∙ later_absorb (counted p pk) rest)
    | inr other ↦
        let pk = old_pk (lookup path children) in
        rw other (
          later_swap (counted path pk) (counted p s.last_submission_pk) (latest_child children)
          ∙ ap (later (counted p s.last_submission_pk)) (latest-lookup path children))
  ]

  -- What stands at a key, of a dict that begins with an entry.
  first_pk :
      (p path : String) (t : Stats) (children : ChildrenStats)
      → (p == path) ≡ true
      → old_pk (lookup path ((p, t) ∷ children)) ≡ t.last_submission_pk
  unfolding old_pk
  first_pk p path t children same = rw same refl

  next_pk :
      (p path : String) (t : Stats) (children : ChildrenStats)
      → (p == path) ≡ false
      → old_pk (lookup path ((p, t) ∷ children)) ≡ old_pk (lookup path children)
  next_pk p path t children other = rw other refl

  latest-insert :
      (path : String) (s : Stats) (children : ChildrenStats)
      → later (old_pk (lookup path children)) s.last_submission_pk ≡ s.last_submission_pk
      → latest_child (insert path s children)
        ≡ later (counted path s.last_submission_pk) (latest_child children)
  unfolding latest_child
  latest-insert path s [] h = refl
  latest-insert path s ((p, t) ∷ children) h = elim (Bool-cases (p == path)) [
    | inl same ↦
        let new = s.last_submission_pk in
        let old = t.last_submission_pk in
        let greater : later old new ≡ new =
          ap (λ x. later x new) (sym (first_pk p path t children same)) ∙ h in
        rw same (
          ap (λ x. later x (latest_child children))
            (counted_same p path new same
              ∙ ap (counted path) (sym greater ∙ later_comm old new)
              ∙ counted-later path new old
              ∙ ap (later (counted path new)) (sym (counted_same p path old same)))
          ∙ later_assoc (counted path new) (counted p old) (latest_child children))
    | inr other ↦ rw other (
        ap (later (counted p t.last_submission_pk)) (
          latest-insert path s children
            (ap (λ x. later x s.last_submission_pk) (sym (next_pk p path t children other)) ∙ h))
        ∙ later_swap (counted p t.last_submission_pk) (counted path s.last_submission_pk)
            (latest_child children))
  ]

  latest-add_child_stats :
      (children : ChildrenStats) (r : ChildRow)
      → HasKey r
      → latest_child (add_child_stats children r)
        ≡ later (latest_child children) (counted r.root r.last_submission)
  unfolding add_child_stats
  latest-add_child_stats children r h =
      let old = lookup r.root children in
      let pk = pk-add_to old r h in
      latest-insert r.root (add_to old r) children
        (rw pk (later_absorb (old_pk old) r.last_submission))
      ∙ rw pk (
          ap (λ x. later x (latest_child children))
            (counted-later r.root (old_pk old) r.last_submission
              ∙ later_comm (counted r.root (old_pk old)) (counted r.root r.last_submission))
          ∙ later_assoc (counted r.root r.last_submission) (counted r.root (old_pk old))
              (latest_child children)
          ∙ ap (later (counted r.root r.last_submission)) (latest-lookup r.root children)
          ∙ later_comm (counted r.root r.last_submission) (latest_child children))

  latest-add_children :
      (children : ChildrenStats) (rows : List ChildRow)
      → All HasKey rows
      → latest_child (add_children children rows) ≡ later (latest_child children) (latest_row rows)
  unfolding add_children latest_row
  latest-add_children children [] h =
      sym (none-later (latest_child children)) ∙ later_comm none (latest_child children)
  latest-add_children children (r ∷ rows) h =
      latest-add_children (add_child_stats children r) rows h.1
      ∙ ap (λ x. later x (latest_row rows)) (latest-add_child_stats children r h.0)
      ∙ later_assoc (latest_child children) (counted r.root r.last_submission) (latest_row rows)

  submission-aggregate_child :
      (creation_time : ℕ → Option ℕ) (a : Aggregate) (s : Stats)
      → (aggregate_child creation_time of_templates a s).agg_submission
        ≡ later a.agg_submission s.last_submission_pk
  unfolding aggregate_child later
  submission-aggregate_child creation_time a s = refl

  module _ (creation_time : ℕ → Option ℕ) where
    latest-aggregate_from :
        (a : Aggregate) (children : ChildrenStats)
        → (aggregate_from creation_time of_templates a children).agg_submission
          ≡ later a.agg_submission (latest_child children)
    unfolding aggregate_from latest_child
    latest-aggregate_from a [] =
        sym (none-later a.agg_submission) ∙ later_comm none a.agg_submission
    latest-aggregate_from a ((path, s) ∷ children) =
        by_test (is_left_out of_templates path) (latest-aggregate_from a children)
          (latest-aggregate_from (aggregate_child creation_time of_templates a s) children)
      where
        rest : Option ℕ
        rest = latest_child children

        by_test :
            (out : Bool)
            → (aggregate_from creation_time of_templates a children).agg_submission
              ≡ later a.agg_submission rest
            → (aggregate_from creation_time of_templates
                (aggregate_child creation_time of_templates a s)
                children).agg_submission
              ≡ later (aggregate_child creation_time of_templates a s).agg_submission rest
            → (aggregate_from creation_time of_templates
                (if out then a else aggregate_child creation_time of_templates a s)
                children).agg_submission
              ≡ later a.agg_submission (later (if out then none else s.last_submission_pk) rest)
        by_test true h k = h ∙ ap (later a.agg_submission) (sym (none-later rest))
        by_test false h k =
            k
            ∙ ap (λ x. later x rest) (submission-aggregate_child creation_time a s)
            ∙ later_assoc a.agg_submission s.last_submission_pk rest

    -- The last submission of aggregate_children has the greatest key in the rows of both
    -- queries that are not of templates, or in all rows in the context of the templates, if
    -- no row has the key 0.
    pub latest-aggregate_children :
        (grouped stores : List ChildRow)
        → All HasKey grouped
        → All HasKey stores
        → (aggregate_children creation_time of_templates
            (get_children_stats grouped stores)).agg_submission
          ≡ later (latest_row grouped) (latest_row stores)
    unfolding aggregate_children get_children_stats latest_child
    latest-aggregate_children grouped stores g s =
        let dirs = add_children [] grouped in
        latest-aggregate_from no_aggregate (add_children dirs stores)
        ∙ none-later (latest_child (add_children dirs stores))
        ∙ latest-add_children dirs stores s
        ∙ ap (λ x. later x (latest_row stores))
            (latest-add_children [] grouped g ∙ none-later (latest_row grouped))
