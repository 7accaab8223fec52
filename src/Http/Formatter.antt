-- ===== src/Http/Formatter.antt =====
-- src/interface/http/common/interceptors/response-formatter.interceptor.ts, with the tests of shapes in
-- src/shared/helpers.ts and `isPresentableError` of src/shared/problem.ts. The exception that it throws
-- is what the exception filter catches. `shown` is the text of a field's value.
pub mod Envelopes
pub mod Refusing
mod Tests
use nestjs_ddd_lean.Prelude.{
  ℕ, Bool, true, false, not, ◌&&◌, ◌||◌, Option, none, some, String, ◌===◌, truthy, or_else,
  is_some, if◌then◌else◌, ◌⊎◌, inl, inr,
}
use nestjs_ddd_lean.Http.Presenter.{Thrown, app, domain, foreign, Answer, answers}
use nestjs_ddd_lean.Http.Filter.{RawResponse, fields, Message, one, Caught, http, thrown}

mutual
  -- A value that a handler returns. An object has its fields in their order; `failed` is an instance
  -- of Error, with its `code` and `details`; `stream` a Buffer, StreamableFile or Readable; what is
  -- opaque to the interceptor is `other`.
  pub data Value : Type 0 where
    bool : Bool → Value
    text : String → Value
    object : Fields → Value
    failed : Thrown → (code details : Option String) → Value
    stream : String → Value
    undefined null : Value
    other : String → Value

  pub data Fields : Type 0 where
    no_fields : Fields
    field : String → Value → Fields → Fields

unfoldable pub get_field : String → Fields → Option Value
get_field key no_fields = none
get_field key (field k v fs) = let rest = get_field key fs in if k === key then some v else rest

-- `{ ...fields, [key]: value }`: an old key keeps its place.
unfoldable pub put_field : String → Value → Fields → Fields
put_field key value no_fields = field key value no_fields
put_field key value (field k v fs) =
    let rest = put_field key value fs in if k === key then field key value fs else field k v rest

-- `{ ...fields, ...others }`
unfoldable pub spread : Fields → Fields → Fields
spread fs no_fields = fs
spread fs (field k v others) = spread (put_field k v fs) others

-- `isRecord`
abbrev pub is_record : Value → Bool
is_record (object fs) = true
is_record (failed e c d) = true
is_record (bool b) = false
is_record (text s) = false
is_record (stream s) = false
is_record undefined = false
is_record null = false
is_record (other s) = false

abbrev is_bool : Option Value → Bool
is_bool (some (bool b)) = true
is_bool o = false

abbrev is_some_record : Option Value → Bool
is_some_record none = false
is_some_record (some v) = is_record v

-- `isEnvelope`; an Error has no field `success`.
unfoldable pub is_envelope : Value → Bool
is_envelope (object fs) = is_bool (get_field "success" fs) && is_some_record (get_field "meta" fs)
is_envelope v = false

-- `isResultLike`, with what `Result.isOk` and `Result.isErr` then take out of it.
pub data ResultLike : Type 0 where
  ok_of err_of : Value → ResultLike

unfoldable pub result_like : Value → Option ResultLike
result_like (object fs) = elim (get_field "ok" fs) [
  | some (bool true) ↦ elim (get_field "value" fs) [ none ↦ none | some v ↦ some (ok_of v) ]
  | some (bool false) ↦ elim (get_field "error" fs) [ none ↦ none | some e ↦ some (err_of e) ]
  | _ ↦ none
]
result_like v = none

-- `isPresentableError` of an Error: the application's own classes always are.
unfoldable pub is_presentable_error : Thrown → Bool
is_presentable_error (app e) = true
is_presentable_error (domain e) = true
is_presentable_error (foreign f) = elim f.answer [ answers known p ↦ true | _ ↦ false ]

-- `errObj?.message ?? 'Operation failed'`, of which the filter reads nothing but a text.
abbrev message_of : Option Value → Option Message
message_of (some (text s)) = some (one s)
message_of none = some (one "Operation failed")
message_of (some undefined) = some (one "Operation failed")
message_of (some null) = some (one "Operation failed")
message_of (some v) = none

abbrev error_message : Thrown → Option Value
error_message (foreign f) = elim f.message [ none ↦ none | some m ↦ some (text m) ]
error_message e = none

-- What the `code` and the `details` of an object say: opaque texts.
abbrev shown_field : (Value → String) → Option Value → Option String
shown_field shown none = none
shown_field shown (some undefined) = none
shown_field shown (some v) = some (shown v)

-- The exception for an error that is not presentable.
unfoldable pub unprocessable : (Value → String) → Value → Caught
unprocessable shown (text code) = http 422 (fields (message_of none) (some code) none)
unprocessable shown (object fs) = http 422 (
    fields (message_of (get_field "message" fs)) (shown_field shown (get_field "code" fs))
      (shown_field shown (get_field "details" fs)))
unprocessable shown (failed e code details) =
    http 422 (fields (message_of (error_message e)) code details)
unprocessable shown v = http 422 (fields (message_of none) none none)

unfoldable pub refuse : (Value → String) → Value → Caught
refuse shown (failed e code details) =
    if is_presentable_error e then thrown e else unprocessable shown (failed e code details)
refuse shown v = unprocessable shown v

abbrev pub wrap : Value → Fields → Value
wrap value meta =
    object (field "success" (bool true) (field "data" value (field "meta" (object meta) no_fields)))

-- `{ ...body, meta: { ...meta, ...body.meta } }`
abbrev own_meta : Option Value → Fields
own_meta (some (object own)) = own
own_meta o = no_fields

abbrev merge_meta : Fields → Value → Value
merge_meta meta (object fs) =
    object (put_field "meta" (object (spread meta (own_meta (get_field "meta" fs)))) fs)
merge_meta meta v = v

abbrev format_result : (Value → String) → Fields → Value → Option ResultLike → Caught ⊎ Value
format_result shown meta body none = inr (wrap body meta)
format_result shown meta body (some (ok_of v)) = inr (wrap v meta)
format_result shown meta body (some (err_of e)) = inl (refuse shown e)

-- The function that the handler's value is mapped by.
unfoldable pub format : (Value → String) → Fields → Value → Caught ⊎ Value
format shown meta (stream s) = inr (stream s)
format shown meta body =
    if is_envelope body
    then inr (merge_meta meta body)
    else format_result shown meta body (result_like body)

-- What the interceptor reads of the request, the response and the handler's decorators.
pub record Context : Type 0 where
  pub skip_format : Option String
  pub raw_response : Bool
  pub headers_sent : Bool
  pub timestamp : String
  pub original_url : String
  pub url : String
  pub id : Option String

unfoldable pub meta_fields : Context → Fields
meta_fields c = field "timestamp" (text c.timestamp) (
    field "path" (text (if truthy (some c.original_url) then c.original_url else c.url))
      (field "requestId" (elim c.id [ none ↦ null | some i ↦ text i ]) no_fields))

unfoldable pub passes : Context → Bool
passes c = truthy c.skip_format || c.raw_response || c.headers_sent

-- `intercept`, for a handler that returns `body`.
unfoldable pub intercept : (Value → String) → Context → Value → Caught ⊎ Value
intercept shown c body = if passes c then inr body else format shown (meta_fields c) body
