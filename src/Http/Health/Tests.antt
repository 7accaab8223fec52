-- ===== src/Http/Health/Tests.antt =====
-- A source that does not answer beside a placeholder: the process is not ready.
use nestjs_ddd_lean.Prelude.{
  ◌≡◌, refl, true, false, not, ◌&&◌, Option, none, some, List, [], ◌∷◌, String, All, all,
  if◌then◌else◌, ◌===◌,
}
use nestjs_ddd_lean.Database.Mapper.{Raised, other_error}
use nestjs_ddd_lean.Database.Pools.{
  SourceConfig, oracle, postgres, no_pools, init, init_rest, init_source, add_client, create_client,
  has_source, dialect_name, get_dialect, error_message,
}
use nestjs_ddd_lean.Database.Pools.Reports.{health}
use nestjs_ddd_lean.Http.Health.{ready, judge, shown_source, status_of, reported, not_ready}
use nestjs_ddd_lean.Http.Health.Ready.{answers_ping, ready_iff}

abbrev sources : List SourceConfig
sources =
    record { key = "main"; dialect = oracle } ∷ record { key = "old"; dialect = postgres } ∷ []

abbrev silent : String → Option Raised
silent key = if key === "main" then some (other_error "down") else none

hidden_report :
    ready silent false true (init none (λ k. none) sources no_pools).0
    ≡ not_ready (
        record {
          source_key = "main";
          dialect = "oracle";
          implemented = true;
          ok = false;
          error = none;
        }
        ∷ record {
          source_key = "old";
          dialect = "postgres";
          implemented = false;
          ok = false;
          error = none;
        }
        ∷ [])
unfolding ready judge shown_source health get_dialect error_message init init_rest init_source
    add_client create_client has_source dialect_name
hidden_report = refl

ready_iff_example :
    let m = (init none (λ k. none) sources no_pools).0 in
    (status_of (ready silent false false m)
      ≡ some (if not false && all (answers_ping silent) m.clients then 200 else 503))
    × All (λ h. h.error ≡ none) (reported (ready silent false true m))
ready_iff_example = ready_iff none (λ k. none) sources silent false false
