-- ===== src/Project/LangMapper/OneToOne.antt =====
-- The mapping of language codes is one to one, so that its two directions undo each other.
use pootle.Base.{
  ◌≡◌, ◌↔◌, refl, String, true, false, none, some, [], ◌∷◌, arith, ◌==◌, string_eq, eq_iff,
  Bool-cases, Option-cases, inl, inr, contains, lookup, insert, keys, values, beq_comm, insert_all,
  contains-of-no_lookup, Distinct, Distinct-keys-insert,
}
use pootle.Project.LangMapper.{
  Mapping, LangConfig, delete_value, add_lang_to_mapping, add_langs, parse_mappings, key_of,
  get_pootle_code, get_upstream_code, mappings_from_presets,
}

pub record IsOneToOne (m : Mapping) : Type 0 where
  pub one_key : Distinct (keys m)
  pub one_value : Distinct (values m)

keys-delete_value :
    (v k : String) (m : Mapping)
    → contains k (keys m) ≡ false
    → contains k (keys (delete_value v m)) ≡ false
unfolding delete_value
keys-delete_value v k [] h = refl
keys-delete_value v k ((j, w) ∷ m) h = ground (arith, keys-delete_value v k m)

values-delete_value :
    (v x : String) (m : Mapping)
    → contains x (values m) ≡ false
    → contains x (values (delete_value v m)) ≡ false
unfolding delete_value
values-delete_value v x [] h = refl
values-delete_value v x ((j, w) ∷ m) h = ground (arith, values-delete_value v x m)

keys_of-delete_value :
    (v : String) (m : Mapping) → Distinct (keys m) → Distinct (keys (delete_value v m))
unfolding delete_value
keys_of-delete_value v [] h = tt
keys_of-delete_value v ((j, w) ∷ m) h = elim (Bool-cases (w == v)) [
  | inl same ↦ rw same h.1
  | inr other ↦ rw other (keys-delete_value v j m h.0, keys_of-delete_value v m h.1)
]

values_of-delete_value :
    (v : String) (m : Mapping)
    → Distinct (values m)
    → Distinct (values (delete_value v m)) × (contains v (values (delete_value v m)) ≡ false)
unfolding delete_value
values_of-delete_value v [] h = (tt, refl)
values_of-delete_value v ((j, w) ∷ m) h = elim (Bool-cases (w == v)) [
  | inl same ↦ rw same (h.1, ground (arith, eq_iff w v))
  | inr other ↦
      let (d, absent) = values_of-delete_value v m h.1 in
      rw other ((values-delete_value v w m h.0, d), ground (arith, beq_comm v w))
]

contains-values-insert :
    (x u p : String) (m : Mapping)
    → contains x (values m) ≡ false
    → (x == p) ≡ false
    → contains x (values (insert u p m)) ≡ false
contains-values-insert x u p [] h n = ground arith
contains-values-insert x u p ((j, w) ∷ m) h n = ground (arith, contains-values-insert x u p m)

Distinct-values-insert :
    (u p : String) (m : Mapping)
    → contains p (values m) ≡ false
    → Distinct (values m)
    → Distinct (values (insert u p m))
Distinct-values-insert u p [] a h = (refl, tt)
Distinct-values-insert u p ((j, w) ∷ m) a h = elim (Bool-cases (j == u)) [
  | inl same ↦ rw same (ground arith, h.1)
  | inr other ↦ rw other (
    contains-values-insert w u p m h.0 (ground (arith, beq_comm p w)),
    Distinct-values-insert u p m (ground arith) h.1,
  )
]

IsOneToOne-add_lang_to_mapping :
    (u p : String) (m : Mapping) → IsOneToOne m → IsOneToOne (add_lang_to_mapping u p m)
unfolding add_lang_to_mapping
IsOneToOne-add_lang_to_mapping u p m o = elim (Bool-cases (contains p (values m))) [
  | inl known ↦
      let (d, absent) = values_of-delete_value p m o.one_value in
      rw known (record {
        one_key = Distinct-keys-insert u p _ (keys_of-delete_value p m o.one_key);
        one_value = Distinct-values-insert u p _ absent d;
      })
  | inr fresh ↦ rw fresh (record {
    one_key = Distinct-keys-insert u p m o.one_key;
    one_value = Distinct-values-insert u p m fresh o.one_value;
  })
]

IsOneToOne-add_langs : (l m : Mapping) → IsOneToOne m → IsOneToOne (add_langs l m)
unfolding add_langs
IsOneToOne-add_langs [] m o = o
IsOneToOne-add_langs ((u, p) ∷ l) m o =
    IsOneToOne-add_langs l _ (IsOneToOne-add_lang_to_mapping u p m o)

-- The mapping that `_parse_mappings` gives is one to one, whatever the presets and the project say:
-- no code of the files and no code of Pootle stands in it twice.
pub IsOneToOne-parse_mappings : (c : LangConfig) → IsOneToOne (parse_mappings c)
unfolding parse_mappings
IsOneToOne-parse_mappings c =
    IsOneToOne-add_langs
      (insert_all (mappings_from_presets c.site_presets c.project_presets []) c.project_mappings) []
      (record { one_key = tt; one_value = tt })

lookup-absent : (u : String) (m : Mapping) → contains u (keys m) ≡ false → lookup u m ≡ none
lookup-absent u [] h = refl
lookup-absent u ((j, w) ∷ m) h = ground (arith, lookup-absent u m, beq_comm j u)

key_of-absent : (p : String) (m : Mapping) → contains p (values m) ≡ false → key_of p m ≡ none
unfolding key_of
key_of-absent p [] h = refl
key_of-absent p ((j, w) ∷ m) h = ground (arith, key_of-absent p m)

contains-of_lookup :
    (u p : String) (m : Mapping) → lookup u m ≡ some p → contains p (values m) ≡ true
contains-of_lookup u p [] h = cc
contains-of_lookup u p ((j, w) ∷ m) h = ground (arith, contains-of_lookup u p m, eq_iff p w)

contains-of_key_of : (u p : String) (m : Mapping) → key_of p m ≡ some u → contains u (keys m) ≡ true
unfolding key_of
contains-of_key_of u p [] h = cc
contains-of_key_of u p ((j, w) ∷ m) h = ground (arith, contains-of_key_of u p m, eq_iff u j)

-- The two ways to read a pair of the mapping agree.
key_of-of_lookup :
    (u p : String) (m : Mapping) → Distinct (values m) → lookup u m ≡ some p → key_of p m ≡ some u
unfolding key_of
key_of-of_lookup u p [] d h = cc
key_of-of_lookup u p ((j, w) ∷ m) d h =
    ground
      (arith, key_of-of_lookup u p m d.1, contains-of_lookup u p m, d.0, eq_iff j u, eq_iff p w)

lookup-of_key_of :
    (u p : String) (m : Mapping) → Distinct (keys m) → key_of p m ≡ some u → lookup u m ≡ some p
unfolding key_of
lookup-of_key_of u p [] d h = cc
lookup-of_key_of u p ((j, w) ∷ m) d h =
    ground
      (arith, lookup-of_key_of u p m d.1, contains-of_key_of u p m, d.0, eq_iff j u, eq_iff p w)

key_of-absent_value : (p : String) (m : Mapping) → key_of p m ≡ none → contains p (values m) ≡ false
unfolding key_of
key_of-absent_value p [] h = refl
key_of-absent_value p ((j, w) ∷ m) h = ground (arith, key_of-absent_value p m)

upstream-of_pootle :
    (m : Mapping) (u p : String)
    → IsOneToOne m
    → get_pootle_code m u ≡ some p
    → get_upstream_code m p ≡ some u
unfolding get_pootle_code get_upstream_code
upstream-of_pootle m u p o h = elim (Option-cases (lookup u m)) [
  | inl absent ↦
      ground
        (arith, contains-of-no_lookup u m absent, key_of-absent u m, key_of-absent p m, eq_iff u p)
  | inr (q, found) ↦ ground (arith, key_of-of_lookup u p m o.one_value)
]

pootle-of_upstream :
    (m : Mapping) (u p : String)
    → IsOneToOne m
    → get_upstream_code m p ≡ some u
    → get_pootle_code m u ≡ some p
unfolding get_pootle_code get_upstream_code
pootle-of_upstream m u p o h = elim (Option-cases (key_of p m)) [
  | inl absent ↦
      ground
        (arith, key_of-absent_value p m absent, lookup-absent u m, lookup-absent p m, eq_iff u p)
  | inr (q, found) ↦ ground (arith, lookup-of_key_of u p m o.one_key)
]

-- For every configuration the two directions of the mapper undo each other: a code of the files is
-- mapped to a code of Pootle exactly if that is mapped back to it.
pub get_pootle_code-get_upstream_code :
    (c : LangConfig) (u p : String)
    → (get_pootle_code (parse_mappings c) u ≡ some p)
      ↔ (get_upstream_code (parse_mappings c) p ≡ some u)
get_pootle_code-get_upstream_code c u p = (
  upstream-of_pootle (parse_mappings c) u p (IsOneToOne-parse_mappings c),
  pootle-of_upstream (parse_mappings c) u p (IsOneToOne-parse_mappings c),
)
