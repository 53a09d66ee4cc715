-- ===== src/Fs/Sync/Rows.antt =====
-- What the parts of a synchronisation do to the rows of the table.
use pootle.Base.{
  ℕ, ◌≡◌, ◌∙◌, refl, sym, ap, subst, String, Bool, false, Option, none, Option-cases, Bool-cases,
  inl, inr, List, [], ◌∷◌, map, arith, In, ◌==◌, nat_eq, if◌then◌else◌,
}
use pootle.Fs.Model.{Store, StoreFs, World, store_of}
use pootle.Fs.Files.{dont_pull, dont_push}
use pootle.Fs.Transfer.{
  Transfer, pull, push, update_row, save_store, create_by_path, create_store, ensure_store,
  resurrect_store, sync_to_pootle, find_by_path,
}
use pootle.Fs.Sync.Responses.{row_pks}

row_pks-map :
    (f : StoreFs → StoreFs)
    → ((r : StoreFs) → (f r).pk ≡ r.pk)
    → (rows : List StoreFs) → row_pks (map f rows) ≡ row_pks rows
row_pks-map f h [] = refl
row_pks-map f h (r ∷ rows) = cc (h r, row_pks-map f h rows)

pub row_pks-update_row :
    (pk : ℕ) (f : StoreFs → StoreFs) (w : World)
    → ((r : StoreFs) → (f r).pk ≡ r.pk)
    → row_pks (update_row pk f w).store_fs ≡ row_pks w.store_fs
row_pks-update_row pk f w h = row_pks-map _ (λ r. ground (arith, h r)) w.store_fs

-- A row stays in the table where another is written.
pub In-update_row :
    (pk : ℕ) (f : StoreFs → StoreFs) (x : StoreFs) (rows : List StoreFs)
    → (x.pk == pk) ≡ false
    → In x rows
    → In x (map (λ r. if r.pk == pk then f r else r) rows)
In-update_row pk f x [] n m = m
In-update_row pk f x (r ∷ rows) n (inl e) =
    inl (e ∙ sym (ap (λ b. if b then f r else r) (ap (λ y. y.pk == pk) (sym e) ∙ n)))
In-update_row pk f x (r ∷ rows) n (inr m) = inr (In-update_row pk f x rows n m)

-- The worlds before and after a step that writes at most the row with a key, and that one's store.
pub record Touches (pk : ℕ) (w w' : World) : Type 0 where
  pub same_pks : row_pks w'.store_fs ≡ row_pks w.store_fs
  pub others : (x : StoreFs) → (x.pk == pk) ≡ false → In x w.store_fs → In x w'.store_fs

pub Touches-same : (pk : ℕ) (w w' : World) → w'.store_fs ≡ w.store_fs → Touches pk w w'
Touches-same pk w w' e = record {
  same_pks = ap row_pks e;
  others = λ x n m. subst (In x) (sym e) m;
}

pub Touches-trans : (pk : ℕ) (a b c : World) → Touches pk a b → Touches pk b c → Touches pk a c
Touches-trans pk a b c f g = record {
  same_pks = g.same_pks ∙ f.same_pks;
  others = λ x n m. g.others x n (f.others x n m);
}

module _ (t : Transfer) where
  store_fs-create_by_path :
      (path : String) (w : World) → (create_by_path t path w).0.store_fs ≡ w.store_fs
  unfolding create_by_path
  store_fs-create_by_path path w = elim (Option-cases (find_by_path path w.stores)) [
    | inl absent ↦ ground arith
    | inr (s, found) ↦ ground arith
  ]

  Touches-create_store : (r : StoreFs) (w : World) → Touches r.pk w (create_store t r w).0
  unfolding create_store
  Touches-create_store r w =
      let made = create_by_path t r.pootle_path w in
      Touches-trans r.pk w made.0 _
        (Touches-same r.pk w made.0 (store_fs-create_by_path r.pootle_path w))
        (record {
          same_pks = row_pks-update_row r.pk _ made.0 (λ x. refl);
          others = λ x n m. In-update_row r.pk _ x made.0.store_fs n m;
        })

  Touches-ensure_store : (r : StoreFs) (w : World) → Touches r.pk w (ensure_store t r w).0
  unfolding ensure_store
  Touches-ensure_store r w = elim (Option-cases (store_of w r)) [
    | inl absent ↦
        let e : ensure_store t r w ≡ create_store t r w = ground arith in
        subst (λ p. Touches r.pk w p.0) (sym e) (Touches-create_store r w)
    | inr (s, found) ↦
        let e : ensure_store t r w ≡ (w, s) = ground arith in
        subst (λ p. Touches r.pk w p.0) (sym e) (Touches-same r.pk w w refl)
  ]

  pub store_fs-resurrect : (p : World × Store) → (resurrect_store p).0.store_fs ≡ p.0.store_fs
  unfolding resurrect_store save_store
  store_fs-resurrect (w, s) = ground arith

  pub store_fs-sync_to_pootle :
      (r : StoreFs) (merge : Bool) (wins : Option Bool) (p : World × Store)
      → (sync_to_pootle t r merge wins p).0.store_fs ≡ p.0.store_fs
  unfolding sync_to_pootle save_store
  store_fs-sync_to_pootle r merge wins (w, s) = ground arith

  pub Touches-pull :
      (r : StoreFs) (merge : Bool) (wins : Option Bool) (w : World)
      → Touches r.pk w (pull t r merge wins w).0
  unfolding pull
  Touches-pull r merge wins w = elim (Bool-cases (dont_pull w r)) [
    | inl skip ↦
        let e : pull t r merge wins w ≡ (w, none) = ground arith in
        subst (λ p. Touches r.pk w p.0) (sym e) (Touches-same r.pk w w refl)
    | inr go ↦
        let e : pull t r merge wins w
            ≡ sync_to_pootle t r merge wins (resurrect_store (ensure_store t r w)) =
          ground arith in
        subst (λ p. Touches r.pk w p.0) (sym e)
          (Touches-trans r.pk w (ensure_store t r w).0 _ (Touches-ensure_store r w) (
            Touches-same r.pk _ _
              (store_fs-sync_to_pootle r merge wins _ ∙ store_fs-resurrect (ensure_store t r w))))
  ]

  pub store_fs-push : (r : StoreFs) (w : World) → (push t r w).0.store_fs ≡ w.store_fs
  unfolding push
  store_fs-push r w = elim (Option-cases (store_of w r)) [
    | inl absent ↦ ground arith
    | inr (s, found) ↦ elim (Bool-cases (dont_push w r)) [
      | inl skip ↦ ground arith
      | inr go ↦ ground arith
    ]
  ]
