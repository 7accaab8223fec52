-- ===== src/Bootstrap.antt =====
-- The start of a process: `bootstrap` of src/main.ts, with `setupSwagger` of
-- src/interface/http/swagger/swagger.setup.ts. What is done to the application is a list of steps in
-- their order. The configuration and the TLS options are what Config.Checks and Config.Tls give.
pub mod Attempts
pub mod Order
mod Tests
use nestjs_ddd_lean.Prelude.{
  ℕ, Bool, true, false, not, ◌&&◌, Option, none, some, List, [], ◌∷◌, ◌++◌, String, or_else,
  is_empty, is_some, truthy, if◌then◌else◌, ◌⊎◌, inl, inr,
}
use nestjs_ddd_lean.Config.Checks.{InvalidConfig}
use nestjs_ddd_lean.Config.Tls.{TlsOptions}

-- What `bootstrap` reads of the configuration.
pub record Settings : Type 0 where
  pub cluster_enabled : Bool
  pub trust_proxy : Bool
  pub legacy_forward_enabled : Bool
  pub server_timeout : ℕ
  pub headers_timeout : ℕ
  pub keep_alive_timeout : ℕ
  pub json_body_limit : String
  pub urlencoded_body_limit : String
  pub cors_origins : Option (List String)
  pub swagger_enabled : Option Bool
  pub is_production : Bool
  pub cookie_name : Option String
  pub port : ℕ

pub data Step : Type 0 where
  start_primary : Step
  create_application : (https : Bool) → Step  -- without Nest's own body parser
  use_logger : Step
  set_trust_proxy : Step
  use_helmet : Step
  use_forwarder : Step
  use_cookie_parser : Step
  set_timeouts : (server headers keep_alive : ℕ) → Step
  use_json_parser : (limit : String) → Step
  use_urlencoded_parser : (limit : String) → Step
  enable_cors : (origins : Option (List String)) → Step  -- none: no origin is allowed
  enable_versioning : Step
  mount_swagger : (cookie_name : String) → Step
  listen : ℕ → Step
  install_shutdown_handlers : Step
  log_listening : (scheme : String) → Step
  print_error : (message : String) → Step
  print_failure : (error : String) → Step  -- 'Failed to start application'
  exit_1 : Step

abbrev pub when : Bool → Step → List Step
when b step = if b then step ∷ [] else []

-- `setupSwagger`
unfoldable pub swagger_mounted : Settings → Bool
swagger_mounted c = or_else c.swagger_enabled (not c.is_production)

-- `corsOrigins.length ? corsOrigins : false`
unfoldable pub allowed_origins : Option (List String) → Option (List String)
allowed_origins origins =
    let given = or_else origins [] in if is_empty given then none else some given

-- A process that is not the primary: the steps before `listen`, for the three settings that decide
-- whether a step is taken, and then all of them.
abbrev pub steps_with : Settings → (https trust_proxy forward swagger : Bool) → List Step
steps_with c https trust_proxy forward swagger =
    (create_application https ∷ use_logger ∷ [])
    ++ (when trust_proxy set_trust_proxy
        ++ (use_helmet
            ∷ (when forward use_forwarder
                ++ (use_cookie_parser
                    ∷ set_timeouts c.server_timeout c.headers_timeout c.keep_alive_timeout
                    ∷ use_json_parser c.json_body_limit
                    ∷ use_urlencoded_parser c.urlencoded_body_limit
                    ∷ enable_cors (allowed_origins c.cors_origins)
                    ∷ enable_versioning
                    ∷ when swagger (mount_swagger (or_else c.cookie_name "jwt"))))))

unfoldable pub before_listening : Settings → (https : Bool) → List Step
before_listening c https =
    steps_with c https c.trust_proxy c.legacy_forward_enabled (swagger_mounted c)

unfoldable pub from_listening : Settings → (https : Bool) → List Step
from_listening c https =
    listen c.port
    ∷ install_shutdown_handlers
    ∷ log_listening (if https then "https" else "http")
    ∷ []

-- `bootstrap().catch(...)`, for an `InvalidConfigError` and for another error.
unfoldable pub failed : InvalidConfig ⊎ String → List Step
failed (inl e) = print_error e.message ∷ exit_1 ∷ []
failed (inr error) = print_failure error ∷ exit_1 ∷ []

-- What a step throws, if it does: creating the application connects to the databases and reads the
-- certificates, the forwarder parses its target, and `listen` may find the port taken.
abbrev pub Throws : Type 0
Throws = Step → Option (InvalidConfig ⊎ String)

-- Steps one after the other, up to one that throws.
unfoldable pub attempt : Throws → List Step → List Step
attempt throws [] = []
attempt throws (s ∷ steps) = s ∷ elim (throws s) [ none ↦ attempt throws steps | some e ↦ failed e ]

unfoldable pub run_application : Throws → Settings → (https : Bool) → List Step
run_application throws c https = attempt throws (before_listening c https ++ from_listening c https)

abbrev pub with_tls :
    Throws → Settings → (is_primary : Bool) → InvalidConfig ⊎ Option TlsOptions → List Step
with_tls throws c is_primary (inl e) = failed (inl e)
with_tls throws c is_primary (inr https_options) =
    if c.cluster_enabled && is_primary
    then attempt throws (start_primary ∷ [])
    else run_application throws c (is_some https_options)

-- `bootstrap`: the TLS options are read before anything else is done, also by a primary.
unfoldable pub bootstrap :
    Throws
    → (load_config : InvalidConfig ⊎ Settings)
    → (load_tls_options : Settings → InvalidConfig ⊎ Option TlsOptions) → (is_primary : Bool)
    → List Step
bootstrap throws (inl e) load_tls_options is_primary = failed (inl e)
bootstrap throws (inr c) load_tls_options is_primary =
    with_tls throws c is_primary (load_tls_options c)
