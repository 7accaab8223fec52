-- ===== src/Http/RequestIds/Tests.antt =====
-- A header with a line break, in a request that has no id.
use nestjs_ddd_lean.Prelude.{◌≡◌, refl, true, none, [], ◌∷◌}
use nestjs_ddd_lean.Legacy.Headers.{one, is_safe_correlation_id}
use nestjs_ddd_lean.Http.RequestIds.{HasId, Request, gen_req_id, use_middleware, one_request_id}

abbrev request : Request
request = record { headers = ("x-request-id", one "a\nb") ∷ []; id = none }

one_request_id_example :
    let (logged, log_id) = gen_req_id "x-request-id" request "1-2" in
    let (handled, answered) = use_middleware "x-request-id" request "1-2" in
    let (after, last_answered) = use_middleware "x-request-id" logged "3-4" in
    let (relogged, last_id) = gen_req_id "x-request-id" handled "3-4" in
    (is_safe_correlation_id log_id ≡ true)
    × HasId "x-request-id" logged log_id
    × HasId "x-request-id" after log_id
    × (last_answered ≡ ("x-request-id", log_id))
    × (is_safe_correlation_id answered.1 ≡ true)
    × (answered.0 ≡ "x-request-id")
    × HasId "x-request-id" handled answered.1
    × HasId "x-request-id" relogged answered.1
    × (last_id ≡ answered.1)
unfolding is_safe_correlation_id
one_request_id_example = one_request_id "x-request-id" request "1-2" "3-4" refl
