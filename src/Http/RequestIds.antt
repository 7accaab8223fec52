-- ===== src/Http/RequestIds.antt =====
-- The id of a request: src/interface/http/middleware/request-id.middleware.ts and `genReqId` of
-- src/infrastructure/logging/pino.options.ts. `randomUUID` gives the parameter `uuid`.
mod Tests
use nestjs_ddd_lean.Prelude.{
  ℕ, ◌≡◌, refl, sym, ap, ◌∙◌, subst, Bool, true, false, Bool-cases, inl, inr, Option, none, some,
  List, [], ◌∷◌, String, ◌===◌, eq_refl, lookup, insert, lookup-insert_same, if◌then◌else◌, if_ind,
  arith,
}
use nestjs_ddd_lean.Legacy.Headers.{
  Value, one, many, is_safe_correlation_id, IsSafe, safe_or-IsSafe, first_value, safe_or,
}

-- The headers of a request and its `id`, where that is a text.
pub record Request : Type 0 where
  pub headers : List (String × Value)
  pub id : Option String

abbrev pub with_id : String → Request → String → Request
with_id header_name req request_id = record {
  headers = insert header_name (one request_id) req.headers;
  id = some request_id;
}

abbrev pub candidate : String → Request → Option String
candidate header_name req = first_value (lookup header_name req.headers)

-- `genReqId`
unfoldable pub gen_req_id : (header_name : String) → Request → (uuid : String) → Request × String
gen_req_id header_name req uuid =
    let request_id = safe_or (candidate header_name req) uuid in
    (with_id header_name req request_id, request_id)

-- `RequestIdMiddleware.requestIdFor`
abbrev pub own_or : Option String → String → String
own_or none rest = rest
own_or (some i) rest = if is_safe_correlation_id i then i else rest

unfoldable pub request_id_for : (header_name : String) → Request → (uuid : String) → String
request_id_for header_name req uuid = own_or req.id (safe_or (candidate header_name req) uuid)

-- `RequestIdMiddleware.use`: the request, and the header that the response gets.
unfoldable pub use_middleware :
    (header_name : String) → Request → (uuid : String) → Request × (String × String)
use_middleware header_name req uuid =
    let request_id = request_id_for header_name req uuid in
    (with_id header_name req request_id, (header_name, request_id))

own_or-IsSafe : (o : Option String) (rest : String) → IsSafe rest → IsSafe (own_or o rest)
own_or-IsSafe none rest h = h
own_or-IsSafe (some s) rest h = if_ind IsSafe (is_safe_correlation_id s) (λ t. t) (λ f. h)

candidate-with_id :
    (header_name : String) (req : Request) (i : String)
    → candidate header_name (with_id header_name req i) ≡ some i
candidate-with_id header_name req i =
    ap first_value (lookup-insert_same header_name (one i) req.headers)

safe_or_safe : (i : String) (uuid : String) → IsSafe i → safe_or (some i) uuid ≡ i
safe_or_safe i uuid h = ground (arith, h)

-- The id of a request after both the logger and the middleware: it is the request's `id`, the value of
-- its header, and the response's header.
abbrev pub HasId : (header_name : String) → Request → String → Type 0
HasId header_name req i = (req.id ≡ some i) × (candidate header_name req ≡ some i)

-- A request has one id, in the log's lines, in its own header and in the response's header, whichever
-- of the logger and the middleware comes first, after the first of them and after both; it is safe,
-- where the random ids are: of 1 to 128 characters that are letters, digits or one of `. _ : -`.
pub one_request_id :
    (header_name : String) (req : Request) (uuid other_uuid : String)
    → is_safe_correlation_id uuid ≡ true
    → let (logged, log_id) = gen_req_id header_name req uuid in
      let (handled, answered) = use_middleware header_name req uuid in
      let (after, last_answered) = use_middleware header_name logged other_uuid in
      let (relogged, last_id) = gen_req_id header_name handled other_uuid in
      (is_safe_correlation_id log_id ≡ true)
      × HasId header_name logged log_id
      × HasId header_name after log_id
      × (last_answered ≡ (header_name, log_id))
      × (is_safe_correlation_id answered.1 ≡ true)
      × (answered.0 ≡ header_name)
      × HasId header_name handled answered.1
      × HasId header_name relogged answered.1
      × (last_id ≡ answered.1)
unfolding gen_req_id use_middleware request_id_for
one_request_id header_name req uuid other_uuid h =
    let log_id = safe_or (candidate header_name req) uuid in
    let log_safe : IsSafe log_id = safe_or-IsSafe (candidate header_name req) uuid h in
    let answer = own_or req.id log_id in
    let answer_safe : IsSafe answer = own_or-IsSafe req.id log_id log_safe in
    let same_log : own_or (some log_id)
          (safe_or (candidate header_name (with_id header_name req log_id)) other_uuid)
        ≡ log_id =
      ground (arith, log_safe) in
    let same_answer : safe_or (candidate header_name (with_id header_name req answer)) other_uuid
        ≡ answer =
      ap (λ c. safe_or c other_uuid) (candidate-with_id header_name req answer)
      ∙ safe_or_safe answer other_uuid answer_safe in
    (
      log_safe,
      (refl, candidate-with_id header_name req log_id),
      (
        ap some same_log,
        candidate-with_id header_name (with_id header_name req log_id) _ ∙ ap some same_log,
      ),
      ap (λ i. (header_name, i)) same_log,
      answer_safe,
      refl,
      (refl, candidate-with_id header_name req answer),
      (
        ap some same_answer,
        candidate-with_id header_name (with_id header_name req answer) _ ∙ ap some same_answer,
      ),
      same_answer,
    )
