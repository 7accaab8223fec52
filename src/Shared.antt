-- ===== src/Shared.antt =====
-- `Result` of src/shared/result.ts.
pub mod Combining
mod Tests
use nestjs_ddd_lean.Prelude.{Bool, true, false, List, [], ◌∷◌, ◌++◌}

pub data Result {ℓ κ} (T : Type ℓ) (E : Type κ) : Type (ℓ ⊔ κ) where
  ok : T → Result T E
  err : E → Result T E

module _ {ℓ κ} {T : Type ℓ} {E : Type κ} where
  unfoldable pub map_ok {μ} : {U : Type μ} → Result T E → (T → U) → Result U E
  map_ok (ok v) func = ok (func v)
  map_ok (err e) func = err e

  unfoldable pub map_err {μ} : {F : Type μ} → Result T E → (E → F) → Result T F
  map_err (ok v) func = ok v
  map_err (err e) func = err (func e)

  unfoldable pub is_ok : Result T E → Bool
  is_ok (ok v) = true
  is_ok (err e) = false

  unfoldable pub is_err : Result T E → Bool
  is_err (ok v) = false
  is_err (err e) = true

  -- The loop of `combine`, with the values so far.
  unfoldable pub combine_from : List T → List (Result T E) → Result (List T) E
  combine_from values [] = ok values
  combine_from values (err e ∷ results) = err e
  combine_from values (ok v ∷ results) = combine_from (values ++ v ∷ []) results

  unfoldable pub combine : List (Result T E) → Result (List T) E
  combine results = combine_from [] results
