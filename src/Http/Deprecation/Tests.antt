-- ===== src/Http/Deprecation/Tests.antt =====
-- A route that is deprecated with a successor, and one whose days are in the wrong order.
use nestjs_ddd_lean.Prelude.{◌≡◌, refl, none, some, String, inl, inr, is_empty, if◌then◌else◌}
use nestjs_ddd_lean.Http.Filter.{join}
use nestjs_ddd_lean.Http.Validation.{detail, format_zod_error}
use nestjs_ddd_lean.Http.Deprecation.{
  description, DeprecationHeaders, DeprecatedOptions, Zod, text_lt, refine,
  parse_deprecated_options, format_deprecation_headers, deprecated,
}

abbrev refining : Zod
refining refine o = let issues = refine o in if is_empty issues then inr o else inl issues

abbrev options : DeprecatedOptions
options = record {
  since = "2026-01-01";
  sunset = "2026-12-31";
  successor = some "https://v2";
  link = none;
  note = none;
}

abbrev reversed : DeprecatedOptions
reversed = record options { since = "2027-01-01" }

abbrev same_string : String → String
same_string s = s

abbrev replied_headers : DeprecationHeaders
replied_headers = record {
  deprecation = "@2026-01-01";
  sunset_header = "2026-12-31";
  link_header = some "<https://v2>; rel=\"successor-version\"";
}

replied :
    deprecated same_string same_string refining options
    ≡ inr (replied_headers, "Deprecated since 2026-01-01; sunset 2026-12-31.")
unfolding description deprecated parse_deprecated_options refine text_lt format_deprecation_headers
    join
replied = refl

refused :
    deprecated same_string same_string refining reversed
    ≡ inl
        "Invalid @Deprecated(...) options: Validation failed: sunset: sunset (2026-12-31) must not be earlier than since (2027-01-01)"
unfolding deprecated parse_deprecated_options refine text_lt join format_zod_error detail
refused = refl
