-- ===== src/Fs/Sync/Pulled.antt =====
-- What `pull` of pootle_fs/files.py does to the rows and to the stores.
use pootle.Base.{
  ℕ, ◌≡◌, ◌∙◌, ◌⊎◌, refl, sym, ap, subst, String, Bool, true, false, ◌&&◌, Option, none, some,
  Option-cases, Bool-cases, inl, inr, List, [], ◌∷◌, ◌++◌, map, arith, ◌==◌, nat_eq, option_eq,
  string_eq, is_some, if◌then◌else◌,
}
use pootle.Fs.Model.{Store, StoreFs, World, store_of, find_store, latest_hash}
use pootle.Fs.State.{state_eq}
use pootle.Fs.Files.{dont_pull}
use pootle.Fs.Transfer.{
  Transfer, pull, update_row, save_store, create_by_path, create_store, ensure_store,
  resurrect_store, sync_to_pootle, find_by_path, since, pull_wins,
}
use pootle.Fs.Sync.Rows.{store_fs-sync_to_pootle, store_fs-resurrect}

-- The stores of the second world have the keys of those of the first.
abbrev pub KeepsStores : World → World → Type 0
KeepsStores w w' =
    (id : Option ℕ)
    → is_some (find_store w.stores id) ≡ true
    → is_some (find_store w'.stores id) ≡ true

find_store-save :
    (s : Store) (stores : List Store) (id : Option ℕ)
    → is_some (find_store (map (λ t. if t.id == s.id then s else t) stores) id)
      ≡ is_some (find_store stores id)
unfolding find_store
find_store-save s [] none = refl
find_store-save s [] (some i) = refl
find_store-save s (t ∷ stores) none = refl
find_store-save s (t ∷ stores) (some i) = elim (Bool-cases (t.id == s.id)) [
  | inl same ↦ ground (arith, find_store-save s stores (some i), nat_eq.eqb_iff t.id s.id)
  | inr other ↦ ground (arith, find_store-save s stores (some i))
]

find_store-append :
    (stores more : List Store) (id : Option ℕ)
    → is_some (find_store stores id) ≡ true
    → is_some (find_store (stores ++ more) id) ≡ true
unfolding find_store
find_store-append [] more none h = cc h
find_store-append [] more (some i) h = cc h
find_store-append (t ∷ stores) more none h = cc h
find_store-append (t ∷ stores) more (some i) h =
    ground (arith, find_store-append stores more (some i))

find_store-new :
    (stores : List Store) (s : Store) → is_some (find_store (stores ++ (s ∷ [])) (some s.id)) ≡ true
unfolding find_store
find_store-new [] s = ground (arith, nat_eq.eqb_iff s.id s.id)
find_store-new (t ∷ stores) s = ground (arith, find_store-new stores s)

find_by_path-stored :
    (path : String) (stores : List Store) (s : Store)
    → find_by_path path stores ≡ some s
    → is_some (find_store stores (some s.id)) ≡ true
unfolding find_store
find_by_path-stored path [] s h = cc h
find_by_path-stored path (t ∷ stores) s h = elim (Bool-cases (t.pootle_path == path)) [
  | inl here ↦
      let e : t ≡ s = ground arith in ground (arith, ap (λ x. x.id) e, nat_eq.eqb_iff t.id s.id)
  | inr other ↦ ground (arith, find_by_path-stored path stores s)
]

abbrev pub stored_in : ℕ → ℕ → StoreFs → StoreFs
stored_in pk id x = if x.pk == pk then record x { store_id = some id } else x

-- What a pull of a row does to the rows and the stores: no store goes, and the row had one, or gets
-- one.
pub record Effect (r : StoreFs) (w w' : World) : Type 0 where
  pub stores : KeepsStores w w'
  pub rows :
      ((w'.store_fs ≡ w.store_fs) × (is_some (store_of w r) ≡ true))
      ⊎ ((id : ℕ) × (w'.store_fs ≡ map (stored_in r.pk id) w.store_fs)
          × (is_some (find_store w'.stores (some id)) ≡ true))

pub Effect-then :
    (r : StoreFs) (w w1 w2 : World)
    → Effect r w w1
    → w2.store_fs ≡ w1.store_fs
    → KeepsStores w1 w2
    → Effect r w w2
Effect-then r w w1 w2 first same more = record {
  stores = λ id h. more id (first.stores id h);
  rows = elim first.rows [
    | inl (kept, had) ↦ inl (same ∙ kept, had)
    | inr (id, written, present) ↦ inr (id, same ∙ written, more (some id) present)
  ];
}

pub KeepsStores-refl : (w w' : World) → w'.stores ≡ w.stores → KeepsStores w w'
KeepsStores-refl w w' e id h = ap (λ l. is_some (find_store l id)) e ∙ h

KeepsStores-trans : (a b c : World) → KeepsStores a b → KeepsStores b c → KeepsStores a c
KeepsStores-trans a b c f g id h = g id (f id h)

KeepsStores-save : (s : Store) (w : World) → KeepsStores w (save_store s w)
unfolding save_store
KeepsStores-save s w id h = find_store-save s w.stores id ∙ h

module _ (t : Transfer) where
  Effect-create_store : (r : StoreFs) (w : World) → Effect r w (create_store t r w).0
  unfolding create_store create_by_path
  Effect-create_store r w = elim (Option-cases (find_by_path r.pootle_path w.stores)) [
    | inl absent ↦
        let s : Store = record {
          id = t.next_store_id w.stores;
          pootle_path = r.pootle_path;
          language = t.language_of r.pootle_path;
          obsolete = false;
          max_revision = none;
          data_revision = none;
        } in
        let e : create_store t r w ≡ (
          update_row r.pk (λ x. record x { store_id = some s.id })
              (record w { stores = w.stores ++ (s ∷ []) }),
          s,
        ) =
          ground arith in
        subst (λ p. Effect r w p.0) (sym e)
          (record {
            stores = λ id h. find_store-append w.stores (s ∷ []) id h;
            rows = inr (s.id, refl, find_store-new w.stores s);
          })
    | inr (s, found) ↦
        let e : create_store t r w
            ≡ (update_row r.pk (λ x. record x { store_id = some s.id }) w, s) =
          ground arith in
        subst (λ p. Effect r w p.0) (sym e)
          (record {
            stores = λ id h. h;
            rows = inr (s.id, refl, find_by_path-stored r.pootle_path w.stores s found);
          })
  ]

  Effect-ensure_store : (r : StoreFs) (w : World) → Effect r w (ensure_store t r w).0
  unfolding ensure_store
  Effect-ensure_store r w = elim (Option-cases (store_of w r)) [
    | inl absent ↦
        let e : ensure_store t r w ≡ create_store t r w = ground arith in
        subst (λ p. Effect r w p.0) (sym e) (Effect-create_store r w)
    | inr (s, found) ↦
        let e : ensure_store t r w ≡ (w, s) = ground arith in
        subst (λ p. Effect r w p.0) (sym e)
          (record { stores = λ id h. h; rows = inl (refl, ap is_some found) })
  ]

  KeepsStores-resurrect : (p : World × Store) → KeepsStores p.0 (resurrect_store p).0
  unfolding resurrect_store
  KeepsStores-resurrect (w, s) = elim (Bool-cases s.obsolete) [
    | inl gone ↦ rw gone (KeepsStores-save (record s { obsolete = false }) w)
    | inr live ↦ rw live (KeepsStores-refl w w refl)
  ]

  KeepsStores-sync_to_pootle :
      (r : StoreFs) (merge : Bool) (wins : Option Bool) (p : World × Store)
      → KeepsStores p.0 (sync_to_pootle t r merge wins p).0
  unfolding sync_to_pootle
  KeepsStores-sync_to_pootle r merge wins (w, s) = elim (Option-cases (latest_hash w r.path)) [
    | inl gone ↦
        let e : sync_to_pootle t r merge wins (w, s) ≡ (w, none) = ground arith in
        subst (λ p. KeepsStores w p.0) (sym e) (KeepsStores-refl w w refl)
    | inr (hash, there) ↦
        let done = t.update w s r.path (since r merge) (pull_wins r wins) in
        let e : sync_to_pootle t r merge wins (w, s) ≡ (save_store done.0 w, done.1) =
          ground arith in
        subst (λ p. KeepsStores w p.0) (sym e) (KeepsStores-save done.0 w)
  ]

  pub Effect-pull :
      (r : StoreFs) (merge : Bool) (wins : Option Bool) (w : World)
      → Effect r w (pull t r merge wins w).0
  unfolding pull
  Effect-pull r merge wins w = elim (Bool-cases (dont_pull w r)) [
    | inl skip ↦
        let e : pull t r merge wins w ≡ (w, none) = ground arith in
        subst (λ p. Effect r w p.0) (sym e)
          (record { stores = λ id h. h; rows = inl (refl, had_store w r skip) })
    | inr go ↦
        let e : pull t r merge wins w
            ≡ sync_to_pootle t r merge wins (resurrect_store (ensure_store t r w)) =
          ground arith in
        let stored = ensure_store t r w in
        let live = resurrect_store stored in
        subst (λ p. Effect r w p.0) (sym e)
          (Effect-then r w stored.0 (sync_to_pootle t r merge wins live).0 (Effect-ensure_store r w)
            (store_fs-sync_to_pootle t r merge wins live ∙ store_fs-resurrect t stored)
            (KeepsStores-trans stored.0 live.0 (sync_to_pootle t r merge wins live).0
              (KeepsStores-resurrect stored) (KeepsStores-sync_to_pootle r merge wins live)))
  ]
    where
      had_store : (w : World) (r : StoreFs) → dont_pull w r ≡ true → is_some (store_of w r) ≡ true
      had_store w r h = unfold dont_pull in first (is_some (store_of w r)) _ h
        where
          first : (a b : Bool) → (a && b) ≡ true → a ≡ true
          first a b h = ground arith
