-- ===== src/Http/Formatter/Tests.antt =====
-- Handlers that return an envelope of their own, a failed Result with a code, and one with an error of
-- the application.
use nestjs_ddd_lean.Prelude.{◌≡◌, refl, true, false, none, some, inl, inr}
use nestjs_ddd_lean.Errors.{not_found_error}
use nestjs_ddd_lean.Http.Presenter.{app}
use nestjs_ddd_lean.Http.Filter.{Caught, http, fields, one, Request, catch}
use nestjs_ddd_lean.Http.Formatter.{
  Value, bool, text, object, failed, null, Fields, no_fields, field, get_field, put_field, spread,
  is_envelope, result_like, refuse, unprocessable, format, Context, meta_fields, passes, intercept,
}
use nestjs_ddd_lean.Http.Formatter.Envelopes.{IsFormatted, intercept-IsFormatted}
use nestjs_ddd_lean.Http.Formatter.Refusing.{IsErrorStatus, failed_result_refused}

abbrev context : Context
context = record {
  skip_format = none;
  raw_response = false;
  headers_sent = false;
  timestamp = "now";
  original_url = "";
  url = "/users/7";
  id = none;
}

abbrev own_envelope : Value
own_envelope = object (
    field "success" (bool true)
      (field "meta" (object (field "path" (text "/mine") no_fields)) no_fields))

own_meta_wins :
    intercept (λ v. "") context own_envelope
    ≡ inr (
        object (
          field "success" (bool true) (
            field "meta"
              (object (
                field "timestamp"
                  (text "now")
                  (field "path" (text "/mine") (field "requestId" null no_fields))))
              no_fields)))
unfolding intercept format passes meta_fields is_envelope get_field put_field spread
own_meta_wins = refl

intercept-IsFormatted_example : IsFormatted own_envelope (intercept (λ v. "") context own_envelope)
unfolding passes
intercept-IsFormatted_example = intercept-IsFormatted (λ v. "") context own_envelope refl refl

abbrev missing_user : Value
missing_user = failed (app (not_found_error "No user 7" none)) none none

abbrev failed_result : Fields
failed_result = field "ok" (bool false) (field "error" missing_user no_fields)

code_only :
    intercept
      (λ v. "")
      context
      (object (field "ok" (bool false) (field "error" (text "E1") no_fields)))
    ≡ inl (http 422 (fields (some (one "Operation failed")) (some "E1") none))
unfolding intercept format passes meta_fields is_envelope get_field result_like refuse unprocessable
code_only = refl

abbrev request : Request
request = record { id = none; header_id = none; original_url = ""; url = "/users/7" }

failed_result_refused_example :
    (x : Caught) × (intercept (λ v. "") context (object failed_result) ≡ inl x)
    × IsErrorStatus (catch (λ n. none) "now" request x).0.status
unfolding passes is_envelope get_field result_like
failed_result_refused_example =
    failed_result_refused (λ v. "") (λ n. none) "now" request context failed_result missing_user
      refl refl refl
