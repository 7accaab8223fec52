-- ===== src/Http/Filter.antt =====
-- src/interface/http/global-exception.filter.ts. The response's JSON is a body with the fields that
-- the filter writes; `HttpStatus[status]` of Nest is a parameter.
pub mod Laws
mod Tests
use nestjs_ddd_lean.Prelude.{
  ℕ, Bool, true, false, ◌&&◌, Option, none, some, List, [], ◌∷◌, ◌++◌, String, if◌then◌else◌, ltb,
  leb, or_else,
}
use nestjs_ddd_lean.Errors.{◌<>◌}
use nestjs_ddd_lean.Http.Presenter.{Thrown, app, domain, foreign, Foreign, Presented, present}

pub data Message : Type 0 where
  one : String → Message
  many : List String → Message

-- What `HttpException.getResponse()` returns: an envelope, another record, a text, a list of texts, or
-- anything else. The fields of a record that are opaque to the filter are texts.
pub data RawResponse : Type 0 where
  envelope : (own : String) (meta : List (String × String)) → RawResponse
  fields : (message : Option Message) (code : Option String) (details : Option String) → RawResponse
  text : String → RawResponse
  texts : List String → RawResponse
  other : RawResponse

pub data Caught : Type 0 where
  http : (status : ℕ) → RawResponse → Caught
  thrown : Thrown → Caught

-- `req.id` and the header where they are texts, and the two urls of the request.
pub record Request : Type 0 where
  pub id : Option String
  pub header_id : Option String
  pub original_url : String
  pub url : String

pub data Details : Type 0 where
  opaque : String → Details
  field_errors : List (String × String) → Details

-- An object spread is a concatenation: the last binding of a key counts.
pub data Body : Type 0 where
  enveloped : (own : String) (meta : List (String × String)) → Body
  failure :
      (message : String) (code : Option String) (details : Option Details) (type : Option String)
      (meta : List (String × String))
      → Body

pub record Reply : Type 0 where
  pub status : ℕ
  pub body : Body

pub data Level : Type 0 where
  error warn : Level

-- A line of the log. Its message, the error's name, its cause and its origin are read of the exception.
pub record Line : Type 0 where
  pub level : Level
  pub request_id : String
  pub status : ℕ
  pub exception : Caught

unfoldable pub join : String → List String → String
join sep [] = ""
join sep (s ∷ []) = s
join sep (s ∷ t ∷ rest) = s <> sep <> join sep (t ∷ rest)

-- `toMessage`
unfoldable pub to_message : RawResponse → Option String
unfolding join
to_message (text s) = some s
to_message (texts ss) = some (join "; " ss)
to_message (fields m c d) = none
to_message (envelope o m) = none
to_message other = none

abbrev message_text : Message → String
message_text (one s) = s
message_text (many ss) = join "; " ss

-- The `message`, `code` and `details` of the record that the response is read as.
unfoldable pub read_response : RawResponse → Option String × Option String × Option String
unfolding to_message join
read_response (fields none c d) = (none, c, d)
read_response (fields (some m) c d) = (some (message_text m), c, d)
read_response r = (to_message r, none, none)

-- `log`
unfoldable pub log : Caught → ℕ → String → List Line
log exception status request_id =
    if ltb status 400
    then []
    else if leb 500 status
    then record { level = error; request_id = request_id; status = status; exception = exception }
      ∷ []
    else record { level = warn; request_id = request_id; status = status; exception = exception }
      ∷ []

-- `asExposedClientError`
unfoldable pub as_exposed_client_error :
    (ℕ → Option String) → Thrown → Option (ℕ × String × Option String)
as_exposed_client_error status_name (app e) = none
as_exposed_client_error status_name (domain e) = none
as_exposed_client_error status_name (foreign f) = elim f.status [
  | none ↦ none
  | some status ↦
      if f.is_object && f.expose && (leb 400 status && ltb status 500)
      then some (status, or_else f.message (or_else (status_name status) "Error"), f.type)
      else none
]

unfoldable pub request_id_of : Request → String
request_id_of r = or_else r.id (or_else r.header_id "no-id")

abbrev opaque_details : Option String → Option Details
opaque_details none = none
opaque_details (some d) = some (opaque d)

abbrev error_details : Option (List (String × String)) → Option Details
error_details none = none
error_details (some es) = some (field_errors es)

-- `originalUrl || url`
abbrev path_of : Request → String
path_of r = elim r.original_url [ String.[] ↦ r.url | String.◌∷◌ c s ↦ r.original_url ]

unfoldable pub meta_of : String → Request → List (String × String)
unfolding request_id_of
meta_of timestamp r =
    ("timestamp", timestamp) ∷ ("path", path_of r) ∷ ("requestId", request_id_of r) ∷ []

module _ (status_name : ℕ → Option String) where
  -- The branch of an `HttpException`.
  unfoldable pub reply_http : ℕ → RawResponse → List (String × String) → Reply
  unfolding read_response
  reply_http status (envelope own own_meta) meta = record {
    status = status;
    body = enveloped own (meta ++ own_meta);
  }
  reply_http status raw meta =
      let (message, code, details) = read_response raw in
      record {
        status = status;
        body =
            failure (or_else message (or_else (status_name status) "Error")) code
              (opaque_details details) none meta;
      }

  -- The branch of the presenter.
  unfoldable pub reply_presented : Presented → List (String × String) → Reply
  reply_presented p meta = record {
    status = p.status;
    body =
        failure (or_else p.problem.detail p.problem.title) p.problem.code
          (error_details p.problem.errors) (some p.problem.type) meta;
  }

  -- The reply to what is not an `HttpException`: to an exposed client error, or to the rest.
  unfoldable pub reply_error :
      Caught
      → Option (ℕ × String × Option String)
      → Presented
      → String
      → Request
      → Reply × List Line
  reply_error exception (some (status, message, type)) p timestamp req = (
    record { status = status; body = failure message type none none (meta_of timestamp req) },
    log exception status (request_id_of req),
  )
  reply_error exception none p timestamp req =
      (reply_presented p (meta_of timestamp req), log exception p.status (request_id_of req))

  -- `catch`
  unfoldable pub catch : String → Request → Caught → Reply × List Line
  catch timestamp req (http status raw) = (
    reply_http status raw (meta_of timestamp req),
    log (http status raw) status (request_id_of req),
  )
  catch timestamp req (thrown e) =
      let p = present e (some (request_id_of req)) in
      reply_error (thrown e) (as_exposed_client_error status_name e) p timestamp req
