-- ===== src/Legacy/Headers.antt =====
-- The headers of a forwarded request and of its response (forward-headers.util.ts), and its request id
-- (legacy-forwarder.ts, src/shared/correlation.ts). `toLowerCase` and `randomUUID` are parameters, and
-- the header's name that the configuration gives is a text.
mod Tests
use Prim.Native.String.{String}
use nestjs_ddd_lean.Prelude.{
  ℕ, ◌≡◌, refl, ap, Bool, true, not, ◌&&◌, ◌||◌, Option, none, some, List, [], ◌∷◌, all, length,
  ltb, leb, or_else, has, char_codes, lookup, insert, filter, if_ind, if◌then◌else◌,
}
use nestjs_ddd_lean.Errors.{◌<>◌}
use nestjs_ddd_lean.Http.Filter.{join}

-- The value of a header: a text or several. A header that is undefined is not in the list.
pub data Value : Type 0 where
  one : String → Value
  many : List String → Value

unfoldable pub hop_by_hop_headers : List String
hop_by_hop_headers =
    "connection" ∷ "keep-alive" ∷ "transfer-encoding" ∷ "upgrade" ∷ "proxy-authenticate"
    ∷ "proxy-authorization" ∷ "te" ∷ "trailer" ∷ []

-- `ForwardHeadersInput`
pub record ForwardHeadersInput : Type 0 where
  pub headers : List (String × Value)
  pub remote_address : String
  pub protocol : String
  pub host_header : Option String
  pub target_host : String
  pub preserve_host_header : Bool
  pub id_header : String
  pub id_value : String

-- `existing` counts as missing where it is the empty text.
unfoldable pub forwarded_for_value : Option Value → String → String
forwarded_for_value none remote_address = remote_address
forwarded_for_value (some (one String.[])) remote_address = remote_address
forwarded_for_value (some (one (String.◌∷◌ c s))) remote_address =
    String.◌∷◌ c s <> ", " <> remote_address
forwarded_for_value (some (many ss)) remote_address = join ", " ss <> ", " <> remote_address

-- `[A-Za-z0-9._:-]`
abbrev safe_code : ℕ → Bool
safe_code c =
    (leb 65 c && leb c 90)
    || (leb 97 c && leb c 122)
    || (leb 48 c && leb c 58)
    || (leb 45 c && leb c 46)
    || (leb 95 c && leb c 95)

-- `isSafeCorrelationId`
unfoldable pub is_safe_correlation_id : String → Bool
is_safe_correlation_id s =
    let cs = char_codes s in leb 1 (length cs) && leb (length cs) 128 && all safe_code cs

abbrev pub first_value : Option Value → Option String
first_value none = none
first_value (some (one s)) = some s
first_value (some (many [])) = none
first_value (some (many (s ∷ ss))) = some s

abbrev pub safe_or : Option String → String → String
safe_or none uuid = uuid
safe_or (some s) uuid = if is_safe_correlation_id s then s else uuid

abbrev pub IsSafe : String → Type 0
IsSafe s = is_safe_correlation_id s ≡ true

pub safe_or-IsSafe : (o : Option String) (uuid : String) → IsSafe uuid → IsSafe (safe_or o uuid)
safe_or-IsSafe none uuid h = h
safe_or-IsSafe (some s) uuid h = if_ind IsSafe (is_safe_correlation_id s) (λ t. t) (λ f. h)

module _ (lower : String → String) where
  -- `stripHopByHopHeaders`
  unfoldable pub strip_hop_by_hop_headers : List (String × Value) → List (String × Value)
  strip_hop_by_hop_headers headers = filter (λ h. not (has (lower h.0) hop_by_hop_headers)) headers

  -- `buildForwardHeaders`
  unfoldable pub build_forward_headers : ForwardHeadersInput → List (String × Value)
  build_forward_headers i =
      let host =
        if i.preserve_host_header then or_else i.host_header i.target_host else i.target_host in
      insert i.id_header (one i.id_value) (
        insert "host" (one host) (
          insert "x-forwarded-host" (one (or_else i.host_header "")) (
            insert "x-forwarded-proto" (one i.protocol) (
              insert "x-forwarded-for"
                (one (forwarded_for_value (lookup "x-forwarded-for" i.headers) i.remote_address))
                (strip_hop_by_hop_headers i.headers)))))

  -- `requestIdFor`
  unfoldable pub request_id_for : String → List (String × Value) → (uuid : String) → String
  request_id_for id_header headers uuid =
      safe_or (first_value (lookup (lower id_header) headers)) uuid

  -- The headers that the forwarder sets itself.
  abbrev pub own_headers : ForwardHeadersInput → List String
  own_headers i =
      "x-forwarded-for" ∷ "x-forwarded-proto" ∷ "x-forwarded-host" ∷ "host" ∷ i.id_header ∷ []
