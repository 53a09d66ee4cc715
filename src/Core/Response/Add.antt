-- ===== src/Core/Response/Add.antt =====
-- What is read of a response after an addition.
use pootle.Base.{
  ◌≡◌, ◌∙◌, ap, Bool, [], ◌∷◌, ◌++◌, Eq, ◌==◌, if◌then◌else◌, Bool-cases, inl, inr, lookup-insert,
}
use pootle.Core.Response.{Response, responses, add, or_empty}

module _ {K A : Type 0} ⦃e : Eq K⦄ where
  pub responses-add :
      (k j : K) (complete : Bool) (x : A) (r : Response K A)
      → responses k (add j complete x r) ≡ (
          if j == k
          then responses k r ++ (record { action_type = j; complete = complete; payload = x } ∷ [])
          else responses k r)
  unfolding responses add
  responses-add k j complete x r = elim (Bool-cases (j == k)) [
    | inl same ↦
        ap or_empty (lookup-insert k j _ r)
        ∙ (rw same (
            ap
              (λ i.
                responses i r
                ++ (record { action_type = j; complete = complete; payload = x } ∷ []))
              ((e.eqb_iff j k).0 same)))
    | inr other ↦ ap or_empty (lookup-insert k j _ r) ∙ rw other
  ]
