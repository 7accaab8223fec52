-- ===== src/Http/Filter/Laws.antt =====
-- What the exception filter logs and what it keeps from the client (global-exception.filter.ts).
use nestjs_ddd_lean.Prelude.{
  ℕ, ◌≡◌, refl, ap, false, ◌||◌, Option, none, some, List, [], ◌∷◌, String, ◌≤◌, ◌<◌, ◌⊎◌, inl, inr,
  if◌then◌else◌, if_ind, Option-cases, arith,
}
use nestjs_ddd_lean.Errors.{
  AppError, bad_request_error, conflict_error, forbidden_error, not_found_error, unauthorized_error,
  unexpected_error, infrastructure_error, csrf_rejected_error, database_connection_error,
  database_execution_error, unknown_source_key_error, unsupported_dialect_error,
  aggregate_db_health_error, app_problem,
}
use nestjs_ddd_lean.Http.Presenter.{
  Thrown, app, domain, foreign, Foreign, as_problem, present, present_marked,
}
use nestjs_ddd_lean.Http.Filter.{
  Caught, thrown, Request, Line, error, warn, RawResponse, envelope, fields, text, texts, other,
  as_exposed_client_error, request_id_of, reply_http, reply_error, catch,
}

-- What the log of a reply is to hold.
abbrev Logged : Caught → ℕ → String → List Line → Type 0
Logged c status id lines =
    ((status < 400) × (lines ≡ []))
    ⊎ (((400 ≤ status)
          × (status < 500)
          × (lines ≡ record { level = warn; request_id = id; status = status; exception = c } ∷ []))
        ⊎ ((500 ≤ status)
            × (lines
                ≡ record { level = error; request_id = id; status = status; exception = c } ∷ [])))

pub reply_http-status :
    (names : ℕ → Option String) (status : ℕ) (raw : RawResponse) (meta : List (String × String))
    → (reply_http names status raw meta).status ≡ status
unfolding reply_http
reply_http-status names status (envelope own m) meta = refl
reply_http-status names status (fields m c d) meta = refl
reply_http-status names status (text s) meta = refl
reply_http-status names status (texts ss) meta = refl
reply_http-status names status other meta = refl

-- An application error without what its class keeps for the logs: details, causes, driver codes, SQL
-- tags, the failures of the sources, and the message of an infrastructure failure.
pub outward : AppError → AppError
outward (bad_request_error m) = bad_request_error m
outward (conflict_error m d) = conflict_error m none
outward (forbidden_error m d) = forbidden_error m none
outward (not_found_error m d) = not_found_error m none
outward (unauthorized_error m d) = unauthorized_error m none
outward (unexpected_error c) = unexpected_error ""
outward (infrastructure_error m c) = infrastructure_error "" none
outward csrf_rejected_error = csrf_rejected_error
outward (database_connection_error k c) = database_connection_error k none
outward (database_execution_error k t c n) = database_execution_error k none none none
outward (unknown_source_key_error k c) = unknown_source_key_error k none
outward (unsupported_dialect_error k d c) = unsupported_dialect_error k d none
outward (aggregate_db_health_error fs) = aggregate_db_health_error []

-- A foreign value shows its message only where it is marked as a domain error or says, as the values
-- of http-errors do, that its message may be shown.
pub outward_thrown : Thrown → Thrown
outward_thrown (app e) = app (outward e)
outward_thrown (domain e) = domain e
outward_thrown (foreign f) =
    if f.marked_domain || f.expose then foreign f else foreign (record f { message = none })

outward-app_problem : (e : AppError) → app_problem (outward e) ≡ app_problem e
unfolding outward app_problem
outward-app_problem (bad_request_error m) = refl
outward-app_problem (conflict_error m d) = refl
outward-app_problem (forbidden_error m d) = refl
outward-app_problem (not_found_error m d) = refl
outward-app_problem (unauthorized_error m d) = refl
outward-app_problem (unexpected_error c) = refl
outward-app_problem (infrastructure_error m c) = refl
outward-app_problem csrf_rejected_error = refl
outward-app_problem (database_connection_error k c) = refl
outward-app_problem (database_execution_error k t c n) = refl
outward-app_problem (unknown_source_key_error k c) = refl
outward-app_problem (unsupported_dialect_error k d c) = refl
outward-app_problem (aggregate_db_health_error fs) = refl

app_unexposed :
    (names : ℕ → Option String) (e : AppError) → as_exposed_client_error names (app e) ≡ none
unfolding as_exposed_client_error
app_unexposed names e = refl

as_exposed-hidden :
    (names : ℕ → Option String) (f : Foreign)
    → f.expose ≡ false
    → as_exposed_client_error names (foreign f) ≡ none
unfolding as_exposed_client_error
as_exposed-hidden names f h = elim (Option-cases f.status) [
  | inl e ↦ rw e refl
  | inr (n, e) ↦ rw e (ground (arith, h))
]

present-hidden :
    (f : Foreign) (trace : Option String)
    → f.marked_domain ≡ false
    → present (foreign (record f { message = none })) trace ≡ present (foreign f) trace
unfolding present present_marked
present-hidden f trace h = ground (arith, h)

present-outward :
    (e : AppError) (trace : Option String) → present (app (outward e)) trace ≡ present (app e) trace
unfolding present
present-outward e trace = ap (as_problem trace) (outward-app_problem e)

-- No reply differs when a thrown value loses what is not meant for the client: so nothing of it, such
-- as a driver's code, an SQL tag, a cause or the message of an unmarked foreign error, is ever in a
-- response. Of the log nothing is said: its line is there to hold the exception.
pub catch_hides :
    (names : ℕ → Option String) (timestamp : String) (req : Request) (e : Thrown)
    → (catch names timestamp req (thrown (outward_thrown e))).0
      ≡ (catch names timestamp req (thrown e)).0
unfolding catch outward_thrown reply_error
catch_hides names timestamp req (app e) =
    rw (app_unexposed names (outward e))
      (rw (app_unexposed names e) (rw (present-outward e (some (request_id_of req))) refl))
catch_hides names timestamp req (domain e) = refl
catch_hides names timestamp req (foreign f) =
    if_ind
      (λ x.
        (catch names timestamp req (thrown x)).0
        ≡ (catch names timestamp req (thrown (foreign f))).0)
      (f.marked_domain || f.expose) (λ t. refl)
      (λ h.
        let unmarked : f.marked_domain ≡ false = ground (arith, h) in
        let exposed : f.expose ≡ false = ground (arith, h) in
        rw (as_exposed-hidden names f exposed) (
          rw (as_exposed-hidden names (record f { message = none }) exposed)
            (rw (present-hidden f (some (request_id_of req)) unmarked) refl)))
