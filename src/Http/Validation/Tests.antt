-- ===== src/Http/Validation/Tests.antt =====
-- A request whose query gets a default, and one whose params are refused.
use nestjs_ddd_lean.Prelude.{
  ◌≡◌, refl, true, arith, Option, none, some, [], ◌∷◌, String, is_some, inl, inr,
}
use nestjs_ddd_lean.Http.Filter.{join}
use nestjs_ddd_lean.Http.Validation.{
  Part, body, query, params, headers, part_name, detail, format_zod_error, Schema, end_all,
  intercept,
}
use nestjs_ddd_lean.Http.Validation.Reading.{has_part, ReadsValidated, reads_validated}

abbrev raw : Part → String
raw part = "raw"

abbrev strict : Part → Option Schema
strict params = some (λ s. inl (record { path = "id" ∷ []; message = "Required" } ∷ []))
strict part = none

abbrev schema : Part → Option Schema
schema body = none
schema query = some (λ s. inr "page 1")
schema params = some (λ s. inr "id 7")
schema headers = none

refused_params :
    intercept strict (params ∷ []) record { raw = raw; validated = λ q. none }
    ≡ inl ("params.id: Required" ∷ [])
unfolding intercept end_all format_zod_error detail part_name join
refused_params = refl

among : (p : Part) → is_some (schema p) ≡ true → has_part p (params ∷ query ∷ []) ≡ true
among body h = absurd (ground arith)
among query h = refl
among params h = refl
among headers h = absurd (ground arith)

reads_validated_example :
    ReadsValidated schema
      (params ∷ query ∷ [])
      record { raw = raw; validated = λ q. none }
      query
      (intercept schema (params ∷ query ∷ []) record { raw = raw; validated = λ q. none })
reads_validated_example = reads_validated schema raw (params ∷ query ∷ []) query (among query)
