-- ===== src/Http/Formatter/Envelopes.antt =====
-- What the response formatter answers with (response-formatter.interceptor.ts).
use nestjs_ddd_lean.Prelude.{
  ◌≡◌, refl, Bool, true, false, Option, none, some, String, ◌===◌, if◌then◌else◌, if_ind, ◌⊎◌, inl,
  inr, eq_iff, arith,
}
use nestjs_ddd_lean.Http.Filter.{Caught}
use nestjs_ddd_lean.Http.Formatter.{
  Value, bool, text, object, failed, stream, other, undefined, null, Fields, no_fields, field,
  get_field, put_field, spread, is_envelope, result_like, ResultLike, ok_of, err_of, own_meta,
  merge_meta, format_result, format, Context, meta_fields, passes, intercept,
}

get-put :
    (written read : String) (v : Value) (fs : Fields)
    → get_field read (put_field written v fs)
      ≡ (if written === read then some v else get_field read fs)
unfolding get_field put_field
get-put written read v no_fields = refl
get-put written read v (field k w fs) =
    let rest = get-put written read v fs in
    ground (arith, rest, eq_iff k read, eq_iff k written, eq_iff written read)

-- A stream is answered as it is.
abbrev pub is_stream : Value → Bool
is_stream (stream s) = true
is_stream v = false

-- An answer is an envelope, and an exception is for a failed Result.
abbrev pub IsFormatted : Value → Caught ⊎ Value → Type 0
IsFormatted body (inl e) = (error : Value) × (result_like body ≡ some (err_of error))
IsFormatted body (inr v) = is_envelope v ≡ true

merge_meta-IsEnvelope :
    (meta fs : Fields)
    → is_envelope (object fs) ≡ true
    → is_envelope (merge_meta meta (object fs)) ≡ true
unfolding is_envelope
merge_meta-IsEnvelope meta fs h =
    let m = object (spread meta (own_meta (get_field "meta" fs))) in
    rw (get-put "meta" "success" m fs) (rw (get-put "meta" "meta" m fs) (ground (arith, h)))

format_result-IsFormatted :
    (shown : Value → String) (meta : Fields) (body : Value) (r : Option ResultLike)
    → result_like body ≡ r
    → IsFormatted body (format_result shown meta body r)
unfolding is_envelope get_field
format_result-IsFormatted shown meta body none h = refl
format_result-IsFormatted shown meta body (some (ok_of v)) h = refl
format_result-IsFormatted shown meta body (some (err_of e)) h = (e, h)

format-IsFormatted :
    (shown : Value → String) (meta : Fields) (body : Value)
    → is_stream body ≡ false
    → IsFormatted body (format shown meta body)
unfolding format is_envelope result_like get_field
format-IsFormatted shown meta (stream s) h = absurd (ground arith)
format-IsFormatted shown meta (object fs) h =
    if_ind (IsFormatted (object fs)) (is_envelope (object fs)) (merge_meta-IsEnvelope meta fs)
      (λ plain. format_result-IsFormatted shown meta (object fs) (result_like (object fs)) refl)
format-IsFormatted shown meta (bool b) h = refl
format-IsFormatted shown meta (text s) h = refl
format-IsFormatted shown meta (failed e code details) h = refl
format-IsFormatted shown meta undefined h = refl
format-IsFormatted shown meta null h = refl
format-IsFormatted shown meta (other s) h = refl

-- Whatever a handler returns, except a stream: where the response is formatted at all, the answer is
-- an envelope, with the flag of success and a record of metadata, unless the handler returned a
-- failed Result, for which an exception is thrown.
pub intercept-IsFormatted :
    (shown : Value → String) (c : Context) (body : Value)
    → passes c ≡ false
    → is_stream body ≡ false
    → IsFormatted body (intercept shown c body)
unfolding intercept
intercept-IsFormatted shown c body h s = rw h (format-IsFormatted shown (meta_fields c) body s)
