-- ===== src/Errors.antt =====
-- The error classes and the problem that each presents: src/application/errors, src/domain/errors,
-- src/infrastructure/database/errors, src/interface/http/errors and src/shared/problem.ts.
-- An object of a class is a constructor with what it was built from; `details` and `cause` are opaque
-- texts, which the classes keep for the logs.
use Prim.Native.String
use nestjs_ddd_lean.Prelude.{ℕ, Option, none, some, List, String}

infixr 65 ◌<>◌
abbrev pub ◌<>◌ : String → String → String
s <> t = String.◌++◌ s t

pub data ProblemKind : Type 0 where
  validation not_found conflict unauthorized forbidden : ProblemKind
  service_unavailable bad_request internal not_implemented : ProblemKind

pub record Problem : Type 0 where
  pub kind : ProblemKind
  pub type : String
  pub title : String
  pub detail : Option String
  pub errors : Option (List (String × String))
  pub code : Option String

abbrev pub app_name : String
app_name = "nestjs-ddd-lean"

-- `ProblemTypes`
unfoldable pub problem_type : ProblemKind → String
problem_type validation = "urn:" <> app_name <> ":problem:validation"
problem_type not_found = "urn:" <> app_name <> ":problem:not-found"
problem_type conflict = "urn:" <> app_name <> ":problem:conflict"
problem_type unauthorized = "urn:" <> app_name <> ":problem:unauthorized"
problem_type forbidden = "urn:" <> app_name <> ":problem:forbidden"
problem_type service_unavailable = "urn:" <> app_name <> ":problem:service-unavailable"
problem_type bad_request = "urn:" <> app_name <> ":problem:bad-request"
problem_type internal = "urn:" <> app_name <> ":problem:internal"
problem_type not_implemented = "urn:" <> app_name <> ":problem:not-implemented"

pub record HealthFailure : Type 0 where
  pub source_key : String
  pub dialect : String
  pub message : String
  pub attempts : ℕ
  pub latency_ms : Option ℕ

-- The application's own error objects. The message comes first where the class takes one.
pub data AppError : Type 0 where
  bad_request_error : (message : String) → AppError
  conflict_error : (message : String) (details : Option String) → AppError
  forbidden_error : (message : String) (details : Option String) → AppError
  not_found_error : (message : String) (details : Option String) → AppError
  unauthorized_error : (message : String) (details : Option String) → AppError
  unexpected_error : (cause : String) → AppError
  infrastructure_error : (message : String) (cause : Option String) → AppError
  csrf_rejected_error : AppError
  database_connection_error : (source_key : String) (cause : Option String) → AppError
  database_execution_error :
      (source_key : String) (sql_tag : Option String) (cause : Option String) (code : Option String)
      → AppError
  unknown_source_key_error : (source_key : String) (cause : Option String) → AppError
  unsupported_dialect_error : (source_key dialect : String) (cause : Option String) → AppError
  aggregate_db_health_error : List HealthFailure → AppError

pub data DomainError : Type 0 where
  aggregate_not_found_error : (aggregate id : String) → DomainError
  validation_error : (field_errors : List (String × String)) → DomainError

abbrev pub tagged : Option String → String
tagged none = ""
tagged (some t) = " (" <> t <> ")"

abbrev pub coded : Option String → String
coded none = ""
coded (some c) = " [" <> c <> "]"

-- `error.message`
unfoldable pub app_message : AppError → String
app_message (bad_request_error m) = m
app_message (conflict_error m d) = m
app_message (forbidden_error m d) = m
app_message (not_found_error m d) = m
app_message (unauthorized_error m d) = m
app_message (unexpected_error c) = "Unexpected failure"
app_message (infrastructure_error m c) = m
app_message csrf_rejected_error = "Cross-site request rejected"
app_message (database_connection_error k c) =
    "Failed to acquire a DB connection for \"" <> k <> "\""
app_message (database_execution_error k t c n) =
    "DB execution failed for \"" <> k <> "\"" <> tagged t <> coded n
app_message (unknown_source_key_error k c) = "No database source configured for key \"" <> k <> "\""
app_message (unsupported_dialect_error k d c) =
    "Dialect \"" <> d <> "\" for source \"" <> k <> "\" is not implemented"
app_message (aggregate_db_health_error fs) = "One or more database sources are unavailable"

abbrev pub simple : ProblemKind → String → String → Problem
simple kind title detail = record {
  kind = kind;
  type = problem_type kind;
  title = title;
  detail = some detail;
  errors = none;
  code = none;
}

-- `toProblem` of each class: first of the ones whose message the client sees, then of those that keep
-- theirs.
abbrev bad_request_problem : String → Problem
bad_request_problem m = simple bad_request "Bad Request" m

abbrev conflict_problem : String → Problem
conflict_problem m = simple conflict "Conflict" m

abbrev forbidden_problem : String → Problem
forbidden_problem m = simple forbidden "Forbidden" m

abbrev not_found_problem : String → Problem
not_found_problem m = simple not_found "Not Found" m

abbrev unauthorized_problem : String → Problem
unauthorized_problem m = simple unauthorized "Unauthorized" m

-- `CsrfRejectedError` adds a code to the problem of `ForbiddenError`.
abbrev csrf_rejected_problem : Problem
csrf_rejected_problem = record (forbidden_problem "Cross-site request rejected") {
  code = some "CSRF_REJECTED";
}

abbrev unexpected_problem : Problem
unexpected_problem = simple internal "Internal Error" "Unexpected failure"

abbrev infrastructure_problem : Problem
infrastructure_problem = simple service_unavailable "Service Unavailable" "Try again later"

abbrev database_connection_problem : String → Problem
database_connection_problem k =
    simple service_unavailable "Database unavailable"
      ("Cannot obtain connection for source \"" <> k <> "\". Try again later.")

abbrev database_execution_problem : Problem
database_execution_problem = simple internal "Database error" "A database error occurred."

abbrev unknown_source_key_problem : String → Problem
unknown_source_key_problem k =
    simple service_unavailable "Unknown data source"
      ("The data source key \"" <> k <> "\" is not configured.")

abbrev unsupported_dialect_problem : String → String → Problem
unsupported_dialect_problem k d =
    simple not_implemented "Dialect not implemented"
      ("Dialect \"" <> d <> "\" for source \"" <> k <> "\" is not supported yet.")

abbrev aggregate_db_health_problem : Problem
aggregate_db_health_problem =
    simple service_unavailable "Database unavailable"
      "One or more data sources failed health checks."

unfoldable pub app_problem : AppError → Problem
app_problem (bad_request_error m) = bad_request_problem m
app_problem (conflict_error m d) = conflict_problem m
app_problem (forbidden_error m d) = forbidden_problem m
app_problem (not_found_error m d) = not_found_problem m
app_problem (unauthorized_error m d) = unauthorized_problem m
app_problem (unexpected_error c) = unexpected_problem
app_problem (infrastructure_error m c) = infrastructure_problem
app_problem csrf_rejected_error = csrf_rejected_problem
app_problem (database_connection_error k c) = database_connection_problem k
app_problem (database_execution_error k t c n) = database_execution_problem
app_problem (unknown_source_key_error k c) = unknown_source_key_problem k
app_problem (unsupported_dialect_error k d c) = unsupported_dialect_problem k d
app_problem (aggregate_db_health_error fs) = aggregate_db_health_problem

unfoldable pub domain_message : DomainError → String
domain_message (aggregate_not_found_error a i) = a <> "(" <> i <> ") not found"
domain_message (validation_error fs) = "Validation failed"

abbrev aggregate_not_found_problem : String → String → Problem
aggregate_not_found_problem a i = simple not_found "Not Found" (a <> "(" <> i <> ") not found")

abbrev validation_problem : List (String × String) → Problem
validation_problem fs = record (simple validation "Validation Error" "Validation failed") {
  errors = some fs;
}

unfoldable pub domain_problem : DomainError → Problem
domain_problem (aggregate_not_found_error a i) = aggregate_not_found_problem a i
domain_problem (validation_error fs) = validation_problem fs
