-- ===== src/Fs/Sync/Notes.antt =====
-- Noting the rows of a synchronisation.
use pootle.Base.{
  ℕ, ◌≡◌, ◌∙◌, refl, sym, subst, true, false, ◌||◌, none, some, Option-cases, Bool-cases, inl, inr,
  List, [], ◌∷◌, arith, In, All, All-map, All-imp, All-of-In, ◌==◌, nat_eq, if◌then◌else◌,
}
use mathlib.Core.Bool.{true≢false}
use pootle.Fs.Model.{StoreFs, unset}
use pootle.Fs.State.{Item, store_fs_of, state_eq}
use pootle.Fs.Tables.{pks}
use pootle.Fs.Tables.Rows.{pks-append}
use pootle.Fs.Transfer.{update_row}
use pootle.Fs.Sync.{Run, note_row, note_rows, noted}
use pootle.Fs.Sync.Responses.{names, row_pks}
use pootle.Fs.Sync.Rows.{In-update_row, row_pks-update_row}

-- A row that has been noted: nothing is resolved or staged for a merge any more.
abbrev pub IsNoted : StoreFs → Type 0
IsNoted r = (r.resolve_conflict ≡ unset) × (r.staged_for_merge ≡ false)

abbrev NotedIf : Item → StoreFs → Type 0
NotedIf i r = names r.pk (i ∷ []) ≡ true → IsNoted r

-- What noting does to the rows of the table: the keys stay, rows that no item names stay, and every
-- row that an item names is noted.
pub record Notes (items : List Item) (s s' : Run) : Type 0 where
  pub same_pks : row_pks s'.world.store_fs ≡ row_pks s.world.store_fs
  pub others :
      (x : StoreFs) → names x.pk items ≡ false → In x s.world.store_fs → In x s'.world.store_fs
  pub keeps :
      (pk : ℕ)
      → All (λ r. (r.pk == pk) ≡ true → IsNoted r) s.world.store_fs
      → All (λ r. (r.pk == pk) ≡ true → IsNoted r) s'.world.store_fs
  pub notes :
      (pk : ℕ)
      → names pk items ≡ true
      → All (λ r. (r.pk == pk) ≡ true → IsNoted r) s'.world.store_fs

module _ (s : Run) (pk k : ℕ) where
  abbrev after : StoreFs → StoreFs
  after r = if r.pk == k then noted s r else r

  keeps_one :
      (r : StoreFs)
      → ((r.pk == pk) ≡ true → IsNoted r)
      → ((after r).pk == pk) ≡ true
      → IsNoted (after r)
  unfolding noted
  keeps_one r h e = elim (Bool-cases (r.pk == k)) [
    | inl same ↦ rw same (refl, refl)
    | inr other ↦ ground (arith, h)
  ]

  notes_one : (k == pk) ≡ true → (r : StoreFs) → ((after r).pk == pk) ≡ true → IsNoted (after r)
  unfolding noted
  notes_one q r e = elim (Bool-cases (r.pk == k)) [
    | inl same ↦ rw same (refl, refl)
    | inr other ↦ ground arith
  ]

note_row-Notes-some :
    (s : Run) (i : Item) (k : ℕ)
    → store_fs_of i.kwargs ≡ some k
    → Notes (i ∷ []) s (record s { world = update_row k (noted s) s.world })
unfolding pks
note_row-Notes-some s i k own = record {
  same_pks = row_pks-update_row k (noted s) s.world (λ r. unfold noted in refl);
  others = λ x n m. In-update_row k (noted s) x s.world.store_fs (ground arith) m;
  keeps = λ pk h. All-map _ _ s.world.store_fs (All-imp _ _ (keeps_one s pk k) s.world.store_fs h);
  notes = λ pk h. All-map _ _ s.world.store_fs (
      All-of-In _ s.world.store_fs
        (λ r m. notes_one s pk k (ground (arith, nat_eq.eqb_iff k pk, nat_eq.eqb_iff pk k)) r));
}

note_row-Notes-none : (s : Run) (i : Item) → store_fs_of i.kwargs ≡ none → Notes (i ∷ []) s s
unfolding pks
note_row-Notes-none s i absent = record {
  same_pks = refl;
  others = λ x n m. m;
  keeps = λ pk h. h;
  notes = λ pk h. elim (true≢false (sym h ∙ ground arith)) [ ];
}

note_row-Notes : (s : Run) (i : Item) → Notes (i ∷ []) s (note_row s i)
unfolding note_row
note_row-Notes s i = elim (Option-cases (store_fs_of i.kwargs)) [
  | inl absent ↦
      let e : note_row s i ≡ s = ground arith in
      subst (Notes (i ∷ []) s) (sym e) (note_row-Notes-none s i absent)
  | inr (k, present) ↦
      let e : note_row s i ≡ record s { world = update_row k (noted s) s.world } = ground arith in
      subst (Notes (i ∷ []) s) (sym e) (note_row-Notes-some s i k present)
]

names-cons :
    (pk : ℕ) (i : Item) (items : List Item)
    → names pk (i ∷ items) ≡ (names pk (i ∷ []) || names pk items)
names-cons pk i items = pks-append pk (i ∷ []) items

pub note_rows-Notes : (items : List Item) (s : Run) → Notes items s (note_rows items s)
unfolding note_rows
note_rows-Notes [] s = record {
  same_pks = refl;
  others = λ x n m. m;
  keeps = λ pk h. h;
  notes = λ pk h. unfold pks in cc h;
}
note_rows-Notes (i ∷ items) s =
    let first = note_row-Notes s i in
    let rest = note_rows-Notes items (note_row s i) in
    record {
      same_pks = rest.same_pks ∙ first.same_pks;
      others = λ x n m.
          rest.others x (ground (arith, names-cons x.pk i items))
            (first.others x (ground (arith, names-cons x.pk i items)) m);
      keeps = λ pk h. rest.keeps pk (first.keeps pk h);
      notes = λ pk h. elim (Bool-cases (names pk items)) [
        | inl later ↦ rest.notes pk later
        | inr now ↦ rest.keeps pk (first.notes pk (ground (arith, names-cons pk i items)))
      ];
    }
