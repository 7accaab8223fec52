-- ===== src/Shared/Combining.antt =====
-- Which result a list of results combines to (src/shared/result.ts).
use nestjs_ddd_lean.Prelude.{
  ◌≡◌, refl, sym, ap, ◌∙◌, ◌⊎◌, inl, inr, List, [], ◌∷◌, ◌++◌, map, append_assoc, append-nil,
}
use nestjs_ddd_lean.Shared.{Result, ok, err, combine_from, combine}

module _ {T E : Type 0} where
  -- All are values, or the first error stands after values.
  abbrev Combined : List T → List (Result T E) → Result (List T) E → Type 0
  Combined values results r =
      ((vs : List T) × (r ≡ ok (values ++ vs)) × (results ≡ map ok vs))
      ⊎ ((vs : List T) × (e : E) × (rest : List (Result T E)) × (r ≡ err e)
          × (results ≡ map ok vs ++ err e ∷ rest))

  combine_from-Combined :
      (values : List T) (results : List (Result T E))
      → Combined values results (combine_from values results)
  unfolding combine_from
  combine_from-Combined values [] = inl ([], ap ok (sym (append-nil values)), refl)
  combine_from-Combined values (err e ∷ results) = inr ([], e, results, refl, refl)
  combine_from-Combined values (ok v ∷ results) =
      elim (combine_from-Combined (values ++ v ∷ []) results) [
        | inl (vs, all_ok, same) ↦
            inl
              (v ∷ vs, all_ok ∙ ap ok (append_assoc values (v ∷ []) vs), ap (λ rs. ok v ∷ rs) same)
        | inr (vs, e, rest, failed, same) ↦ inr (v ∷ vs, e, rest, failed, ap (λ rs. ok v ∷ rs) same)
      ]

  -- Of any results: either all are values, and they combine to the values in their order, or they
  -- combine to the first error, the one that only values stand before.
  pub combine_first_error :
      (results : List (Result T E))
      → ((vs : List T) × (combine results ≡ ok vs) × (results ≡ map ok vs))
        ⊎ ((vs : List T) × (e : E) × (rest : List (Result T E)) × (combine results ≡ err e)
            × (results ≡ map ok vs ++ err e ∷ rest))
  unfolding combine
  combine_first_error results = combine_from-Combined [] results
