-- ===== src/Http/Presenter.antt =====
-- src/interface/http/error-presenter.ts, and what it can be given: any thrown value.
use nestjs_ddd_lean.Prelude.{ℕ, Bool, Option, none, some, String, if◌then◌else◌, or_else}
use nestjs_ddd_lean.Errors.{
  ProblemKind, validation, not_found, conflict, unauthorized, forbidden, service_unavailable,
  bad_request, internal, not_implemented, Problem, problem_type, AppError, DomainError, app_problem,
  domain_problem,
}

-- What `toProblem` of a value that is none of the application's classes comes to: there is no such
-- method, it throws, it returns something else, or it returns a problem, whose kind may be none of the
-- known ones (the `kind` of the model's problem is read only where it is known).
pub data Answer : Type 0 where
  no_method throws other_value : Answer
  answers : (known_kind : Bool) → Problem → Answer

-- A thrown value that is none of the application's classes. The fields of `http-errors` are there for
-- the exception filter: `expose === true`, and `status` where it is a number.
pub record Foreign : Type 0 where
  pub answer : Answer
  pub marked_domain : Bool
  pub marked_app : Bool
  pub is_object : Bool
  pub message : Option String
  pub expose : Bool
  pub status : Option ℕ
  pub type : Option String

pub data Thrown : Type 0 where
  app : AppError → Thrown
  domain : DomainError → Thrown
  foreign : Foreign → Thrown

-- `KIND_TO_STATUS`
unfoldable pub kind_to_status : ProblemKind → ℕ
kind_to_status validation = 422
kind_to_status not_found = 404
kind_to_status conflict = 409
kind_to_status unauthorized = 401
kind_to_status forbidden = 403
kind_to_status service_unavailable = 503
kind_to_status bad_request = 400
kind_to_status internal = 500
kind_to_status not_implemented = 501

-- `toProblemOnce`
unfoldable pub to_problem_once : Thrown → Option Problem
unfolding app_problem domain_problem
to_problem_once (app e) = some (app_problem e)
to_problem_once (domain e) = some (domain_problem e)
to_problem_once (foreign f) = elim f.answer [ answers known p ↦ some p | _ ↦ none ]

pub record Presented : Type 0 where
  pub status : ℕ
  pub problem : Problem
  pub trace_id : Option String

abbrev fallback : ProblemKind → String → String → Problem
fallback kind title detail = record {
  kind = kind;
  type = problem_type kind;
  title = title;
  detail = some detail;
  errors = none;
  code = none;
}

-- The soft fallbacks, by the markers of the value. The application's own objects always present a
-- problem, so only a foreign value comes here.
unfoldable pub present_marked : Foreign → Option String → Presented
unfolding kind_to_status problem_type
present_marked f trace =
    if f.marked_domain
    then record {
      status = kind_to_status validation;
      problem = fallback validation "Domain Error" (or_else f.message "Domain rule violated");
      trace_id = trace;
    }
    else if f.marked_app
    then record {
      status = kind_to_status internal;
      problem = fallback internal "Application Error" "Application failure";
      trace_id = trace;
    }
    else record {
      status = kind_to_status internal;
      problem = fallback internal "Internal Error" "Unexpected error";
      trace_id = trace;
    }

abbrev pub as_problem : Option String → Problem → Presented
as_problem trace p = record { status = kind_to_status p.kind; problem = p; trace_id = trace }

-- `ErrorPresenter.present`
unfoldable pub present : Thrown → Option String → Presented
unfolding present_marked app_problem domain_problem kind_to_status
present (app e) trace = as_problem trace (app_problem e)
present (domain e) trace = as_problem trace (domain_problem e)
present (foreign f) trace = elim f.answer [
  | answers known p ↦
      if known then as_problem trace p else record { status = 500; problem = p; trace_id = trace }
  | _ ↦ present_marked f trace
]
