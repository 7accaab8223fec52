-- ===== src/Legacy/Request.antt =====
-- What is sent to the legacy service (legacy-forwarder.ts: the constructor, the middleware and the start
-- of `forward`). The parser of URLs gives the target; lower case and random ids are parameters.
use nestjs_ddd_lean.Prelude.{
  ℕ, ◌≡◌, refl, Bool, true, Option, some, List, String, ◌===◌, lookup, lookup-insert_same, truthy,
  or_else, if◌then◌else◌, arith,
}
use nestjs_ddd_lean.Errors.{◌<>◌}
use nestjs_ddd_lean.Legacy.{matches_legacy_prefix}
use nestjs_ddd_lean.Legacy.Headers.{
  Value, one, first_value, is_safe_correlation_id, safe_or-IsSafe, ForwardHeadersInput,
  build_forward_headers, request_id_for,
}

-- `new URL(targetUrl)`
pub record Target : Type 0 where
  pub protocol : String
  pub hostname : String
  pub port : String

-- `targetHost`
unfoldable pub target_host : Target → String
target_host t = if truthy (some t.port) then t.hostname <> ":" <> t.port else t.hostname

-- A port of the URL, or the protocol's.
pub data Port : Type 0 where
  given : String → Port
  standard : ℕ → Port

unfoldable pub target_port : Target → Port
target_port t =
    if truthy (some t.port)
    then given t.port
    else standard (if t.protocol === "https:" then 443 else 80)

pub data Module : Type 0 where
  http https : Module

unfoldable pub client_of : Target → Module
client_of t = if t.protocol === "https:" then https else http

pub record Options : Type 0 where
  pub target : Target
  pub forward_prefixes : List (List ℕ)
  pub timeout_ms : ℕ
  pub preserve_host_header : Bool
  pub request_id_header : String

-- A request of a client; `path` is the list of its code units.
pub record Incoming : Type 0 where
  pub path : List ℕ
  pub original_url : String
  pub method : String
  pub protocol : String
  pub remote_address : Option String
  pub headers : List (String × Value)

pub record Outbound : Type 0 where
  pub client : Module
  pub protocol : String
  pub hostname : String
  pub port : Port
  pub method : String
  pub path : String
  pub headers : List (String × Value)
  pub timeout_ms : ℕ

pub data Handled : Type 0 where
  next : Handled
  forwarded : Outbound → Handled

module _ (lower : String → String) where
  abbrev pub headers_input : Options → Incoming → (uuid : String) → ForwardHeadersInput
  headers_input o req uuid = record {
    headers = req.headers;
    remote_address = or_else req.remote_address "unknown";
    protocol = if req.protocol === "https" then "https" else "http";
    host_header = first_value (lookup "host" req.headers);
    target_host = target_host o.target;
    preserve_host_header = o.preserve_host_header;
    id_header = o.request_id_header;
    id_value = request_id_for lower o.request_id_header req.headers uuid;
  }

  -- The call of `client.request` in `forward`
  unfoldable pub outbound : Options → Incoming → (uuid : String) → Outbound
  outbound o req uuid = record {
    client = client_of o.target;
    protocol = o.target.protocol;
    hostname = o.target.hostname;
    port = target_port o.target;
    method = req.method;
    path = req.original_url;
    headers = build_forward_headers lower (headers_input o req uuid);
    timeout_ms = o.timeout_ms;
  }

  -- `middleware`
  unfoldable pub middleware : Options → Incoming → (uuid : String) → Handled
  middleware o req uuid =
      if matches_legacy_prefix req.path o.forward_prefixes
      then forwarded (outbound o req uuid)
      else next

  -- A path under a prefix is forwarded with its method and its own path and query, and with a request
  -- id that is safe where the random ids are.
  pub forwarded_request :
      (o : Options) (req : Incoming) (uuid : String)
      → matches_legacy_prefix req.path o.forward_prefixes ≡ true
      → is_safe_correlation_id uuid ≡ true
      → (out : Outbound) × (middleware o req uuid ≡ forwarded out)
        × (out.method ≡ req.method)
        × (out.path ≡ req.original_url)
        × ((id : String) × (lookup o.request_id_header out.headers ≡ some (one id))
            × (is_safe_correlation_id id ≡ true))
  unfolding middleware outbound build_forward_headers request_id_for
  forwarded_request o req uuid under safe = (
    outbound o req uuid,
    ground (arith, under),
    refl,
    refl,
    (
      request_id_for lower o.request_id_header req.headers uuid,
      lookup-insert_same o.request_id_header _ _,
      safe_or-IsSafe (first_value (lookup (lower o.request_id_header) req.headers)) uuid safe,
    ),
  )
