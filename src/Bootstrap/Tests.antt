-- ===== src/Bootstrap/Tests.antt =====
-- A worker of a cluster that forwards to a legacy service, and its primary.
use nestjs_ddd_lean.Prelude.{◌≡◌, refl, true, false, Option, none, some, [], ◌∷◌, ◌⊎◌, inr}
use nestjs_ddd_lean.Config.Checks.{InvalidConfig}
use nestjs_ddd_lean.Config.Tls.{TlsOptions}
use nestjs_ddd_lean.Bootstrap.{
  Settings, start_primary, create_application, print_failure, exit_1, allowed_origins, Throws,
  before_listening, attempt, failed, run_application, bootstrap,
}
use nestjs_ddd_lean.Bootstrap.Order.{serving, IsOrdered, bootstrap-IsOrdered}

abbrev settings : Settings
settings = record {
  cluster_enabled = true;
  trust_proxy = false;
  legacy_forward_enabled = true;
  server_timeout = 120000;
  headers_timeout = 121000;
  keep_alive_timeout = 61000;
  json_body_limit = "1mb";
  urlencoded_body_limit = "1mb";
  cors_origins = some [];
  swagger_enabled = none;
  is_production = true;
  cookie_name = some "jwt";
  port = 3000;
}

abbrev no_tls : Settings → InvalidConfig ⊎ Option TlsOptions
no_tls c = inr none

abbrev no_errors : Throws
no_errors s = none

primary : bootstrap no_errors (inr settings) no_tls true ≡ start_primary ∷ []
unfolding bootstrap attempt
primary = refl

no_reflected_origins : allowed_origins settings.cors_origins ≡ none
unfolding allowed_origins
no_reflected_origins = refl

-- A required database that does not answer stops the creation of the application.
abbrev no_database : Throws
no_database (create_application https) = some (inr "DB_HEALTH")
no_database s = none

aborted_boot :
    bootstrap no_database (inr settings) no_tls false
    ≡ create_application false ∷ print_failure "DB_HEALTH" ∷ exit_1 ∷ []
unfolding bootstrap run_application before_listening attempt failed
aborted_boot = refl

bootstrap-IsOrdered_example :
    IsOrdered no_errors (serving settings false) (bootstrap no_errors (inr settings) no_tls false)
bootstrap-IsOrdered_example = bootstrap-IsOrdered no_errors (inr settings) no_tls false
