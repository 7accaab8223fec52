-- ===== src/Http/Filter/Tests.antt =====
-- The exception filter on a database failure and on an error of the body parser.
use nestjs_ddd_lean.Prelude.{ℕ, ◌≡◌, refl, true, false, Option, none, some, String}
use nestjs_ddd_lean.Errors.{database_execution_error}
use nestjs_ddd_lean.Http.Presenter.{Thrown, app, foreign, no_method}
use nestjs_ddd_lean.Http.Filter.{
  Request, thrown, failure, meta_of, as_exposed_client_error, reply_error, catch,
}
use nestjs_ddd_lean.Http.Filter.Laws.{outward_thrown, catch_hides}

abbrev names : ℕ → Option String
names n = none

abbrev request : Request
request = record { id = some "r-1"; header_id = none; original_url = "/users"; url = "/" }

abbrev failed_query : Thrown
failed_query =
    app (database_execution_error "main" (some "users") (some "cause") (some "ORA-00942"))

abbrev too_large : Thrown
too_large = foreign record {
  answer = no_method;
  marked_domain = false;
  marked_app = false;
  is_object = true;
  message = some "request entity too large";
  expose = true;
  status = some 413;
  type = some "entity.too.large";
}

too_large_reply : (catch names "t" request (thrown too_large)).0 ≡ record {
  status = 413;
  body =
      failure "request entity too large" (some "entity.too.large") none none (meta_of "t" request);
}
unfolding catch reply_error as_exposed_client_error
too_large_reply = refl

catch_hides_example :
    (catch names "t" request (thrown (outward_thrown failed_query))).0
    ≡ (catch names "t" request (thrown failed_query)).0
catch_hides_example = catch_hides names "t" request failed_query
