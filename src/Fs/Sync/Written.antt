-- ===== src/Fs/Sync/Written.antt =====
-- The files that a synchronisation writes.
use pootle.Base.{
  ℕ, String, ◌≡◌, ◌∙◌, refl, sym, ap, subst, Bool, true, false, not, ◌&&◌, ◌||◌, none, some,
  Option-cases, Bool-cases, inl, inr, List, [], ◌∷◌, ◌++◌, map, arith, In, ◌==◌, nat_eq, string_eq,
  option_eq, is_some, if◌then◌else◌, insert, lookup, lookup-insert, beq_refl, Option,
}
use pootle.Fs.Model.{StoreFs, World, store_of, latest_hash}
use pootle.Fs.State.{Item, FsState, store_fs_of, pootle_staged, pootle_ahead}
use pootle.Fs.Tables.{pks, find_row}
use pootle.Fs.Files.{dont_push, file_pootle_changed}
use pootle.Fs.Transfer.{Transfer, push, update_row}
use pootle.Fs.Sync.{Run, pushable, push_row, fold, sync_push, noted, note_row, note_rows}
use pootle.Fs.Sync.Responses.{names}
use pootle.Fs.Sync.Rounds.{set_data_revision_keeps}
use pootle.Fs.Sync.Rows.{store_fs-push}

-- A row has a store and no file.
abbrev pub lacks_file : World → StoreFs → Bool
lacks_file w r = is_some (store_of w r) && not (is_some (latest_hash w r.path))

abbrev unwritten_of : World → Option StoreFs → Bool
unwritten_of w none = false
unwritten_of w (some x) = lacks_file w x

abbrev unwritten_in : World → ℕ → List StoreFs → Bool
unwritten_in w k rows = unwritten_of w (find_row rows k)

-- The row with a key has a store and no file.
abbrev pub is_unwritten : World → ℕ → Bool
is_unwritten w k = unwritten_in w k w.store_fs

abbrev on_disk : String → String → World → World
on_disk path hash w = record w { disk = insert path hash w.disk }

and_false : (a : Bool) → (a && false) ≡ false
and_false a = ground arith

still_there : (a b c : Bool) → (a && not b) ≡ false → (a && not (c || b)) ≡ false
still_there a b c h = ground arith

passed_over : (a b c : Bool) → (not a || (b && not c)) ≡ true → (a && not b) ≡ false
passed_over a b c h = ground arith

is_some-if :
    (b : Bool) (hash : String) (o : Option String)
    → is_some (if b then some hash else o) ≡ (b || is_some o)
is_some-if b hash o = ground arith

latest_hash-on_disk :
    (w : World) (path hash p : String)
    → is_some (latest_hash (on_disk path hash w) p) ≡ (path == p || is_some (latest_hash w p))
unfolding latest_hash
latest_hash-on_disk w path hash p =
    ap is_some (lookup-insert p path hash w.disk) ∙ is_some-if (path == p) hash (lookup p w.disk)

-- Once its file is on disk, a row does not lack it.
on_disk-has_file :
    (w : World) (r : StoreFs) (hash : String) → lacks_file (on_disk r.path hash w) r ≡ false
on_disk-has_file w r hash =
    ap (λ b. is_some (store_of (on_disk r.path hash w) r) && not b)
      (latest_hash-on_disk w r.path hash r.path
        ∙ ap (λ b. b || is_some (latest_hash w r.path)) (beq_refl r.path))
    ∙ and_false (is_some (store_of (on_disk r.path hash w) r))

on_disk-keeps :
    (w : World) (r : StoreFs) (path hash : String)
    → lacks_file w r ≡ false
    → lacks_file (on_disk path hash w) r ≡ false
unfolding store_of
on_disk-keeps w r path hash h =
    ap (λ b. is_some (store_of w r) && not b) (latest_hash-on_disk w path hash r.path)
    ∙ still_there (is_some (store_of w r)) (is_some (latest_hash w r.path)) (path == r.path) h

dont_push-has_file : (w : World) (r : StoreFs) → dont_push w r ≡ true → lacks_file w r ≡ false
unfolding dont_push
dont_push-has_file w r h =
    passed_over (is_some (store_of w r)) (is_some (latest_hash w r.path)) (file_pootle_changed w r)
      h

-- A push passes over the row, or writes its file.
pub push_cases {ℓ} :
    (t : Transfer) (w : World) (x : StoreFs) (P : World → Type ℓ)
    → (dont_push w x ≡ true → P w)
    → ((hash : String) → P (on_disk x.path hash w))
    → P (push t x w).0
unfolding push
push_cases t w x P skip go = elim (Option-cases (store_of w x)) [
  | inl absent ↦
      let e : push t x w ≡ (w, none) = ground arith in
      subst (λ p. P p.0) (sym e) (skip (unfold dont_push in ground arith))
  | inr (s, found) ↦ elim (Bool-cases (dont_push w x)) [
    | inl passed ↦
        let e : push t x w ≡ (w, none) = ground arith in subst (λ p. P p.0) (sym e) (skip passed)
    | inr pushed ↦
        let e : push t x w ≡ (on_disk x.path (t.written w s x.path) w, s.data_revision) =
          ground arith in
        subst (λ p. P p.0) (sym e) (go (t.written w s x.path))
  ]
]

push_written : (t : Transfer) (w : World) (r : StoreFs) → lacks_file (push t r w).0 r ≡ false
push_written t w r =
    push_cases t w r (λ v. lacks_file v r ≡ false) (dont_push-has_file w r) (on_disk-has_file w r)

push_keeps :
    (t : Transfer) (w : World) (x r : StoreFs)
    → lacks_file w r ≡ false
    → lacks_file (push t x w).0 r ≡ false
push_keeps t w x r h =
    push_cases t w x (λ v. lacks_file v r ≡ false) (λ skip. h)
      (λ hash. on_disk-keeps w r x.path hash h)

module _ (t : Transfer) where
  pub world-push_row :
      (s : Run) (r : StoreFs) (i : Item) → (push_row t s (r, i)).world ≡ (push t r s.world).0
  unfolding push_row
  world-push_row s r i = (set_data_revision_keeps r (record s { world = (push t r s.world).0 })).0

  abbrev pub pushed : Run → List (StoreFs × Item) → Run
  pushed s l = fold t (push_row t) s l

  pushed_keeps :
      (l : List (StoreFs × Item)) (s : Run) (r : StoreFs)
      → lacks_file s.world r ≡ false
      → lacks_file (pushed s l).world r ≡ false
  pushed_keeps [] s r h = h
  pushed_keeps ((x, i) ∷ l) s r h =
      pushed_keeps l (push_row t s (x, i)) r
        (ap (λ w. lacks_file w r) (world-push_row s x i) ∙ push_keeps t s.world x r h)

  pushed_written :
      (l : List (StoreFs × Item)) (s : Run) (r : StoreFs) (i : Item)
      → In (r, i) l
      → lacks_file (pushed s l).world r ≡ false
  pushed_written [] s r i m = elim m [ ]
  pushed_written ((x, j) ∷ l) s r i (inl e) = pushed_keeps l (push_row t s (x, j)) r (
      ap (λ w. lacks_file w r) (world-push_row s x j)
      ∙ subst (λ y. lacks_file (push t x s.world).0 y ≡ false) (sym (ap (λ p. p.0) e))
          (push_written t s.world x))
  pushed_written (y ∷ l) s r i (inr m) = pushed_written l (push_row t s y) r i m

  pub pushed_rows :
      (l : List (StoreFs × Item)) (s : Run) → (pushed s l).world.store_fs ≡ s.world.store_fs
  pushed_rows [] s = refl
  pushed_rows ((x, i) ∷ l) s =
      pushed_rows l (push_row t s (x, i))
      ∙ (ap (λ w. w.store_fs) (world-push_row s x i) ∙ store_fs-push t x s.world)

In-pushable :
    (k : ℕ) (items : List Item) (rows : List StoreFs) (r : StoreFs)
    → names k items ≡ true
    → find_row rows k ≡ some r
    → (i : Item) × In (r, i) (pushable items rows)
unfolding pushable pks
In-pushable k [] rows r h found = cc h
In-pushable k (i ∷ items) rows r h found = elim (Option-cases (store_fs_of i.kwargs)) [
  | inl absent ↦
      let (j, m) = In-pushable k items rows r (ground arith) found in
      (j, subst (In (r, j)) (ground arith) m)
  | inr (pk, own) ↦ elim (Bool-cases (k == pk)) [
    | inl same ↦
        let here : find_row rows pk ≡ some r =
          ap (find_row rows) (sym ((nat_eq.eqb_iff k pk).0 same)) ∙ found in
        let e : pushable (i ∷ items) rows ≡ (r, i) ∷ pushable items rows = ground arith in
        (i, subst (In (r, i)) (sym e) (inl refl))
    | inr other ↦
        let (j, m) = In-pushable k items rows r (ground arith) found in
        elim (Option-cases (find_row rows pk)) [
          | inl none_there ↦ (j, subst (In (r, j)) (ground arith) m)
          | inr (x, there) ↦
              let e : pushable (i ∷ items) rows ≡ (x, i) ∷ pushable items rows = ground arith in
              (j, subst (In (r, j)) (sym e) (inr m))
        ]
  ]
]

-- After the push of its part, no row that the part names lacks its file.
pub sync_push-written :
    (t : Transfer) (state : FsState) (s : Run) (k : ℕ)
    → names k (state pootle_staged ++ state pootle_ahead) ≡ true
    → is_unwritten (sync_push t state s).world k ≡ false
unfolding sync_push
sync_push-written t state s k h =
    let items = state pootle_staged ++ state pootle_ahead in
    let l = pushable items s.world.store_fs in
    let w = (pushed t s l).world in
    ap (unwritten_in w k) (pushed_rows t l s) ∙ elim (Option-cases (find_row s.world.store_fs k)) [
      | inl absent ↦ ap (unwritten_of w) absent
      | inr (r, found) ↦
          let (i, m) = In-pushable k items s.world.store_fs r h found in
          ap (unwritten_of w) found ∙ pushed_written t l s r i m
    ]

module _ (s : Run) (pk k : ℕ) (w : World) where
  abbrev after : StoreFs → StoreFs
  after r = if r.pk == pk then noted s r else r

  after-facts : (r : StoreFs) → ((after r).pk ≡ r.pk) × (lacks_file w (after r) ≡ lacks_file w r)
  unfolding noted store_of latest_hash
  after-facts r = elim (Bool-cases (r.pk == pk)) [
    | inl hit ↦ rw hit (refl, refl)
    | inr miss ↦ rw miss (refl, refl)
  ]

  noted-unwritten :
      (rows : List StoreFs) → unwritten_in w k (map after rows) ≡ unwritten_in w k rows
  noted-unwritten [] = refl
  noted-unwritten (r ∷ rows) =
      let (same, file) = after-facts r in
      let e : unwritten_in w k (map after (r ∷ rows))
          ≡ unwritten_of w (if r.pk == k then some (after r) else find_row (map after rows) k) =
        ap (λ n. unwritten_of w (if n == k then some (after r) else find_row (map after rows) k))
          same in
      e ∙ elim (Bool-cases (r.pk == k)) [
        | inl hit ↦ rw hit file
        | inr miss ↦ rw miss (noted-unwritten rows)
      ]

note_row-unwritten :
    (s : Run) (i : Item) (k : ℕ) → is_unwritten (note_row s i).world k ≡ is_unwritten s.world k
unfolding note_row
note_row-unwritten s i k = elim (Option-cases (store_fs_of i.kwargs)) [
  | inl absent ↦ let e : note_row s i ≡ s = ground arith in ap (λ x. is_unwritten x.world k) e
  | inr (pk, own) ↦
      let e : note_row s i ≡ record s { world = update_row pk (noted s) s.world } = ground arith in
      ap (λ x. is_unwritten x.world k) e
      ∙ (unfold store_of latest_hash in noted-unwritten s pk k s.world s.world.store_fs)
]

-- Noting the rows changes neither their files nor their stores.
pub note_rows-unwritten :
    (items : List Item) (s : Run) (k : ℕ)
    → is_unwritten (note_rows items s).world k ≡ is_unwritten s.world k
unfolding note_rows
note_rows-unwritten [] s k = refl
note_rows-unwritten (i ∷ items) s k =
    note_rows-unwritten items (note_row s i) k ∙ note_row-unwritten s i k
