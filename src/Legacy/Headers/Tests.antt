-- ===== src/Legacy/Headers/Tests.antt =====
-- A request with a hop-by-hop header, a cookie and a correlation id.
use nestjs_ddd_lean.Prelude.{◌≡◌, refl, false, some, [], ◌∷◌, String}
use nestjs_ddd_lean.Legacy.Headers.{
  one, hop_by_hop_headers, ForwardHeadersInput, forwarded_for_value, is_safe_correlation_id,
  strip_hop_by_hop_headers, build_forward_headers, request_id_for,
}

abbrev lower : String → String
lower s = s

abbrev input : ForwardHeadersInput
input = record {
  headers = ("connection", one "close") ∷ ("cookie", one "a=1") ∷ ("x-request-id", one "r 1") ∷ [];
  remote_address = "10.0.0.1";
  protocol = "https";
  host_header = some "api";
  target_host = "legacy:80";
  preserve_host_header = false;
  id_header = "x-request-id";
  id_value = "r-2";
}

built :
    build_forward_headers lower input
    ≡ ("cookie", one "a=1")
      ∷ ("x-request-id", one "r-2")
      ∷ ("x-forwarded-for", one "10.0.0.1")
      ∷ ("x-forwarded-proto", one "https")
      ∷ ("x-forwarded-host", one "api")
      ∷ ("host", one "legacy:80")
      ∷ []
unfolding build_forward_headers strip_hop_by_hop_headers hop_by_hop_headers forwarded_for_value
built = refl

-- An id with a space is not taken over.
unsafe_id : request_id_for lower "x-request-id" input.headers "fresh" ≡ "fresh"
unfolding request_id_for is_safe_correlation_id
unsafe_id = refl
