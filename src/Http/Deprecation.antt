-- ===== src/Http/Deprecation.antt =====
-- Deprecated routes: src/interface/http/common/deprecation-headers.util.ts,
-- decorators/deprecated.decorator.ts and interceptors/deprecation.interceptor.ts. What Zod makes of the
-- options, with the refinement it is given, is the parameter `safe_parse`; `unix_seconds` and
-- `utc_string` stand for the clock's texts of a day's midnight.
mod Tests
use nestjs_ddd_lean.Prelude.{
  ℕ, ◌≡◌, ◌≢◌, refl, ap, ◌∙◌, Bool, true, false, ◌||◌, ◌&&◌, Option, none, some, List, [], ◌∷◌,
  ◌++◌, String, char_codes, lookup, insert, lookup-insert_same, lookup-insert, truthy, is_empty,
  or_else, ltb, ◌==◌, if◌then◌else◌, if_ind, ◌===◌, ◌⊎◌, inl, inr, arith,
}
use nestjs_ddd_lean.Errors.{◌<>◌}
use nestjs_ddd_lean.Http.Filter.{join}
use nestjs_ddd_lean.Http.Validation.{Issue, format_zod_error}

pub record DeprecatedOptions : Type 0 where
  pub since : String
  pub sunset : String
  pub successor : Option String
  pub link : Option String
  pub note : Option String

pub record DeprecationHeaders : Type 0 where
  pub deprecation : String
  pub sunset_header : String
  pub link_header : Option String

-- `<` on texts: by their code units from the left
unfoldable pub text_lt : List ℕ → List ℕ → Bool
text_lt [] [] = false
text_lt [] (d ∷ t) = true
text_lt (c ∷ s) [] = false
text_lt (c ∷ s) (d ∷ t) = ltb c d || (c == d && text_lt s t)

-- The function that `superRefine` takes.
unfoldable pub refine : DeprecatedOptions → List Issue
refine value =
    if text_lt (char_codes value.sunset) (char_codes value.since)
    then record {
      path = "sunset" ∷ [];
      message =
          "sunset (" <> value.sunset <> ") must not be earlier than since (" <> value.since <> ")";
    }
      ∷ []
    else []

abbrev pub Zod : Type 0
Zod = (DeprecatedOptions → List Issue) → DeprecatedOptions → List Issue ⊎ DeprecatedOptions

abbrev pub parsed_or : List Issue ⊎ DeprecatedOptions → String ⊎ DeprecatedOptions
parsed_or (inr data_) = inr data_
parsed_or (inl issues) = inl (
    "Invalid @Deprecated(...) options: Validation failed: "
    <> join "; " (format_zod_error issues none))

-- `parseDeprecatedOptions`: the message of the error that is thrown, or the options.
unfoldable pub parse_deprecated_options : Zod → DeprecatedOptions → String ⊎ DeprecatedOptions
parse_deprecated_options safe_parse options = parsed_or (safe_parse refine options)

abbrev pub link_to : Option String → (rel : String) → List String
link_to none rel = []
link_to (some url) rel = if truthy (some url) then ("<" <> url <> rel) ∷ [] else []

abbrev pub joined : List String → Option String
joined [] = none
joined (l ∷ ls) = some (join ", " (l ∷ ls))

-- The description in the API's documentation.
unfoldable pub description : DeprecatedOptions → String
description parsed =
    let start = "Deprecated since " <> parsed.since <> "; sunset " <> parsed.sunset <> "." in
    if truthy parsed.note then start <> " " <> or_else parsed.note "" else start

module _ (unix_seconds utc_string : String → String) where
  unfoldable pub format_deprecation_headers : DeprecatedOptions → DeprecationHeaders
  format_deprecation_headers options = record {
    deprecation = "@" <> unix_seconds options.since;
    sunset_header = utc_string options.sunset;
    link_header = joined (
        link_to options.successor ">; rel=\"successor-version\""
        ++ link_to options.link ">; rel=\"deprecation\"");
  }

  abbrev pub decorated : String ⊎ DeprecatedOptions → String ⊎ (DeprecationHeaders × String)
  decorated (inl message) = inl message
  decorated (inr options) = inr (format_deprecation_headers options, description options)

  -- What `Deprecated` leaves at a route: the metadata and the description.
  unfoldable pub deprecated : Zod → DeprecatedOptions → String ⊎ (DeprecationHeaders × String)
  deprecated safe_parse options = decorated (parse_deprecated_options safe_parse options)

abbrev pub Response : Type 0
Response = List (String × String)

abbrev pub set_link : Option String → Response → Response
set_link none res = res
set_link (some l) res = if truthy (some l) then insert "Link" l res else res

-- `intercept`, for the metadata of the handler and of its class, up to the call of the handler.
abbrev pub set_headers : Option DeprecationHeaders → Response → Response
set_headers none res = res
set_headers (some h) res =
    set_link h.link_header
      (insert "Sunset" h.sunset_header (insert "Deprecation" h.deprecation res))

unfoldable pub intercept : (handler class_ : Option DeprecationHeaders) → Response → Response
intercept none class_ res = set_headers class_ res
intercept (some h) class_ res = set_headers (some h) res

insert_other :
    (written key value : String) (res : Response)
    → (written === key) ≡ false
    → lookup key (insert written value res) ≡ lookup key res
insert_other written key value res h = ground (arith, h, lookup-insert written key value res)

set_link_other :
    (key : String) (l : Option String) (res : Response)
    → ("Link" === key) ≡ false
    → lookup key (set_link l res) ≡ lookup key res
set_link_other key none res h = refl
set_link_other key (some l) res h =
    if_ind (λ r. lookup key r ≡ lookup key res) (truthy (some l))
      (λ t. insert_other "Link" key l res h) (λ f. refl)

-- The reply of a route that is deprecated, whatever its class is: its own dates in two headers, and
-- every header but these two and the link as it was.
pub intercept_dates :
    (h : DeprecationHeaders) (class_ : Option DeprecationHeaders) (res : Response)
    → let reply = intercept (some h) class_ res in
      (lookup "Deprecation" reply ≡ some h.deprecation)
      × (lookup "Sunset" reply ≡ some h.sunset_header)
      × ((key : String)
          → ("Link" === key) ≡ false
          → ("Sunset" === key) ≡ false
          → ("Deprecation" === key) ≡ false
          → lookup key reply ≡ lookup key res)
unfolding intercept
intercept_dates h class_ res =
    let first = insert "Deprecation" h.deprecation res in
    let second = insert "Sunset" h.sunset_header first in
    (
      set_link_other "Deprecation" h.link_header second refl
          ∙ insert_other "Sunset" "Deprecation" h.sunset_header first refl
          ∙ lookup-insert_same "Deprecation" h.deprecation res,
      set_link_other "Sunset" h.link_header second refl
          ∙ lookup-insert_same "Sunset" h.sunset_header first,
      λ key link sunset deprecation.
          set_link_other key h.link_header second link
          ∙ insert_other "Sunset" key h.sunset_header first sunset
          ∙ insert_other "Deprecation" key h.deprecation res deprecation,
    )

refine_nothing :
    (o : DeprecatedOptions)
    → refine o ≡ []
    → text_lt (char_codes o.sunset) (char_codes o.since) ≡ false
unfolding refine
refine_nothing o h = ground (arith, h)

declared :
    (unix_seconds utc_string : String → String) (o : DeprecatedOptions)
    (h : DeprecationHeaders × String) (parsed : List Issue ⊎ DeprecatedOptions)
    → ((v : DeprecatedOptions) → parsed ≡ inr v → (refine o ≡ []) × (v ≡ o))
    → decorated unix_seconds utc_string (parsed_or parsed) ≡ inr h
    → (text_lt (char_codes o.sunset) (char_codes o.since) ≡ false)
      × (h ≡ (format_deprecation_headers unix_seconds utc_string o, description o))
declared unix_seconds utc_string o h (inl issues) accepts given = absurd (ground (arith, given))
declared unix_seconds utc_string o h (inr v) accepts given =
    let (nothing, same) = accepts v refl in
    (
      refine_nothing o nothing,
      ground (
        arith,
        given,
        ap {B = DeprecationHeaders × String}
            (λ u. (format_deprecation_headers unix_seconds utc_string u, description u)) same,
      ),
    )

-- If Zod accepts only options in which the refinement finds nothing and gives them back, a route that
-- could be declared is not switched off before it is deprecated, and its headers and its
-- description are those of the options.
pub deprecated_in_order :
    (unix_seconds utc_string : String → String) (safe_parse : Zod)
    → ((o v : DeprecatedOptions) → safe_parse refine o ≡ inr v → (refine o ≡ []) × (v ≡ o))
    → (o : DeprecatedOptions) (h : DeprecationHeaders × String)
    → deprecated unix_seconds utc_string safe_parse o ≡ inr h
    → (text_lt (char_codes o.sunset) (char_codes o.since) ≡ false)
      × (h ≡ (format_deprecation_headers unix_seconds utc_string o, description o))
unfolding deprecated parse_deprecated_options
deprecated_in_order unix_seconds utc_string safe_parse accepts o h given =
    declared unix_seconds utc_string o h (safe_parse refine o) (accepts o) given
