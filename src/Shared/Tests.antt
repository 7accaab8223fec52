-- ===== src/Shared/Tests.antt =====
-- A value, then two errors.
use nestjs_ddd_lean.Prelude.{ℕ, ◌≡◌, refl, ◌⊎◌, List, [], ◌∷◌, ◌++◌, map, String}
use nestjs_ddd_lean.Shared.{Result, ok, err, combine_from, combine}
use nestjs_ddd_lean.Shared.Combining.{combine_first_error}

abbrev results : List (Result ℕ String)
results = ok 1 ∷ err "first" ∷ err "second" ∷ []

first_error : combine results ≡ err "first"
unfolding combine combine_from
first_error = refl

combine_first_error_example :
    ((vs : List ℕ) × (combine results ≡ ok vs) × (results ≡ map ok vs))
    ⊎ ((vs : List ℕ) × (e : String) × (rest : List (Result ℕ String)) × (combine results ≡ err e)
        × (results ≡ map ok vs ++ err e ∷ rest))
combine_first_error_example = combine_first_error results
