-- ===== src/Http/Formatter/Refusing.antt =====
-- What the client gets for a failed Result of a handler: the response formatter
-- (response-formatter.interceptor.ts) and the exception filter (global-exception.filter.ts) together.
use nestjs_ddd_lean.Prelude.{
  true, ℕ, ◌≤◌, ◌<◌, ◌≡◌, refl, false, ◌&&◌, Option, none, some, String, if_ind, inl, ltb, leb,
  arith,
}
use nestjs_ddd_lean.Errors.{
  ProblemKind, validation, not_found, conflict, unauthorized, forbidden, service_unavailable,
  bad_request, internal, not_implemented, app_problem, domain_problem,
}
use nestjs_ddd_lean.Http.Presenter.{
  Thrown, app, domain, foreign, Foreign, Answer, answers, no_method, throws, other_value,
  kind_to_status, Presented, present, present_marked,
}
use nestjs_ddd_lean.Http.Filter.{
  Caught, http, thrown, Request, RawResponse, as_exposed_client_error, catch, reply_error,
  reply_presented, request_id_of,
}
use nestjs_ddd_lean.Http.Filter.Laws.{reply_http-status}
use nestjs_ddd_lean.Http.Formatter.{
  Value, bool, text, object, failed, stream, other, undefined, null, Fields, is_envelope,
  result_like, err_of, refuse, unprocessable, is_presentable_error, format, Context, passes,
  intercept,
}

-- The status of an error.
abbrev pub IsErrorStatus : ℕ → Type 0
IsErrorStatus status = (400 ≤ status) × (status < 600)

kind_to_status-IsErrorStatus : (k : ProblemKind) → IsErrorStatus (kind_to_status k)
unfolding kind_to_status
kind_to_status-IsErrorStatus validation = (omega arith, omega arith)
kind_to_status-IsErrorStatus not_found = (omega arith, omega arith)
kind_to_status-IsErrorStatus conflict = (omega arith, omega arith)
kind_to_status-IsErrorStatus unauthorized = (omega arith, omega arith)
kind_to_status-IsErrorStatus forbidden = (omega arith, omega arith)
kind_to_status-IsErrorStatus service_unavailable = (omega arith, omega arith)
kind_to_status-IsErrorStatus bad_request = (omega arith, omega arith)
kind_to_status-IsErrorStatus internal = (omega arith, omega arith)
kind_to_status-IsErrorStatus not_implemented = (omega arith, omega arith)

present_marked-IsErrorStatus :
    (f : Foreign) (trace : Option String) → IsErrorStatus (present_marked f trace).status
unfolding present_marked kind_to_status
present_marked-IsErrorStatus f trace =
    let client = kind_to_status-IsErrorStatus validation in
    let server = kind_to_status-IsErrorStatus internal in ground (arith, client, server)

present_foreign :
    (f : Foreign) (trace : Option String) (a : Answer)
    → f.answer ≡ a
    → IsErrorStatus (present (foreign f) trace).status
unfolding present
present_foreign f trace no_method e = rw e (present_marked-IsErrorStatus f trace)
present_foreign f trace throws e = rw e (present_marked-IsErrorStatus f trace)
present_foreign f trace other_value e = rw e (present_marked-IsErrorStatus f trace)
present_foreign f trace (answers true p) e = rw e (kind_to_status-IsErrorStatus p.kind)
present_foreign f trace (answers false p) e = rw e (omega arith, omega arith)

present-IsErrorStatus :
    (e : Thrown) (trace : Option String) → IsErrorStatus (present e trace).status
unfolding present
present-IsErrorStatus (app e) trace = kind_to_status-IsErrorStatus (app_problem e).kind
present-IsErrorStatus (domain e) trace = kind_to_status-IsErrorStatus (domain_problem e).kind
present-IsErrorStatus (foreign f) trace = present_foreign f trace f.answer refl

-- What is exposed of an error has the status of a client's mistake.
abbrev IsClientStatus : Option (ℕ × String × Option String) → Type 0
IsClientStatus none = Unit
IsClientStatus (some (status, message, type)) = IsErrorStatus status

foreign-IsClientStatus :
    (names : ℕ → Option String) (f : Foreign) (s : Option ℕ)
    → f.status ≡ s
    → IsClientStatus (as_exposed_client_error names (foreign f))
unfolding as_exposed_client_error
foreign-IsClientStatus names f none e = rw e tt
foreign-IsClientStatus names f (some status) e = rw e (
    if_ind IsClientStatus (f.is_object && f.expose && (leb 400 status && ltb status 500))
      (λ t. (ground (arith, t), ground (arith, t))) (λ h. tt))

as_exposed-IsClientStatus :
    (names : ℕ → Option String) (e : Thrown) → IsClientStatus (as_exposed_client_error names e)
unfolding as_exposed_client_error
as_exposed-IsClientStatus names (app e) = tt
as_exposed-IsClientStatus names (domain e) = tt
as_exposed-IsClientStatus names (foreign f) = foreign-IsClientStatus names f f.status refl

reply_error-IsErrorStatus :
    (names : ℕ → Option String) (c : Caught) (x : Option (ℕ × String × Option String))
    (p : Presented) (timestamp : String) (req : Request)
    → IsClientStatus x
    → IsErrorStatus p.status
    → IsErrorStatus (reply_error names c x p timestamp req).0.status
unfolding reply_error reply_presented
reply_error-IsErrorStatus names c none p timestamp req x h = h
reply_error-IsErrorStatus names c (some (status, m, t)) p timestamp req x h = x

catch_thrown-IsErrorStatus :
    (names : ℕ → Option String) (timestamp : String) (req : Request) (e : Thrown)
    → IsErrorStatus (catch names timestamp req (thrown e)).0.status
unfolding catch
catch_thrown-IsErrorStatus names timestamp req e =
    reply_error-IsErrorStatus names (thrown e) (as_exposed_client_error names e)
      (present e (some (request_id_of req))) timestamp req (as_exposed-IsClientStatus names e)
      (present-IsErrorStatus e (some (request_id_of req)))

catch_http-IsErrorStatus :
    (names : ℕ → Option String) (timestamp : String) (req : Request) (raw : RawResponse)
    → IsErrorStatus (catch names timestamp req (http 422 raw)).0.status
unfolding catch
catch_http-IsErrorStatus names timestamp req raw = rw reply_http-status (omega arith, omega arith)

module _ (shown : Value → String) (names : ℕ → Option String) (timestamp : String)
    (req : Request) where
  unprocessable-IsErrorStatus :
      (v : Value) → IsErrorStatus (catch names timestamp req (unprocessable shown v)).0.status
  unfolding unprocessable
  unprocessable-IsErrorStatus (text s) = catch_http-IsErrorStatus names timestamp req _
  unprocessable-IsErrorStatus (object fs) = catch_http-IsErrorStatus names timestamp req _
  unprocessable-IsErrorStatus (failed e c d) = catch_http-IsErrorStatus names timestamp req _
  unprocessable-IsErrorStatus (bool b) = catch_http-IsErrorStatus names timestamp req _
  unprocessable-IsErrorStatus (stream s) = catch_http-IsErrorStatus names timestamp req _
  unprocessable-IsErrorStatus (other s) = catch_http-IsErrorStatus names timestamp req _
  unprocessable-IsErrorStatus undefined = catch_http-IsErrorStatus names timestamp req _
  unprocessable-IsErrorStatus null = catch_http-IsErrorStatus names timestamp req _

  abbrev Refused : Caught → Type 0
  Refused x = IsErrorStatus (catch names timestamp req x).0.status

  refuse-Refused : (v : Value) → Refused (refuse shown v)
  unfolding refuse
  refuse-Refused (failed e c d) =
      if_ind Refused (is_presentable_error e)
        (λ t. catch_thrown-IsErrorStatus names timestamp req e)
        (λ h. unprocessable-IsErrorStatus (failed e c d))
  refuse-Refused (text s) = unprocessable-IsErrorStatus (text s)
  refuse-Refused (object fs) = unprocessable-IsErrorStatus (object fs)
  refuse-Refused (bool b) = unprocessable-IsErrorStatus (bool b)
  refuse-Refused (stream s) = unprocessable-IsErrorStatus (stream s)
  refuse-Refused (other s) = unprocessable-IsErrorStatus (other s)
  refuse-Refused undefined = unprocessable-IsErrorStatus undefined
  refuse-Refused null = unprocessable-IsErrorStatus null

  -- A handler that returns a failed Result, whatever its error, throws where the response is
  -- formatted, and the exception filter replies with a status from 400 to 599: never with a success.
  pub failed_result_refused :
      (c : Context) (fs : Fields) (error : Value)
      → passes c ≡ false
      → is_envelope (object fs) ≡ false
      → result_like (object fs) ≡ some (err_of error)
      → (x : Caught) × (intercept shown c (object fs) ≡ inl x)
        × IsErrorStatus (catch names timestamp req x).0.status
  unfolding intercept format
  failed_result_refused c fs error formatted plain failing =
      (refuse shown error, ground (arith, formatted, plain, failing), refuse-Refused error)
