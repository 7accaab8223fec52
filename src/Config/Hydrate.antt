-- ===== src/Config/Hydrate.antt =====
-- What is validated (src/infrastructure/config/load-config.ts): the variables of the environment, read
-- into an object for each part of the program. `toLowerCase` and `toUpperCase` are parameters.
pub mod Blank
use nestjs_ddd_lean.Prelude.{
  ℕ, Bool, Option, none, some, List, [], ◌∷◌, char_codes, String, map, ◌===◌, if◌then◌else◌,
}
use nestjs_ddd_lean.Config.Env.{env_string, env_bool, env_list, BoolInput, flag, invalid}

mutual
  -- A value of the configuration, also of JSON; `undefined` is a field that is missing, too.
  pub data Tree : Type 0 where
    undefined null : Tree
    text : List ℕ → Tree
    boolean : Bool → Tree
    number : ℕ → Tree
    texts : List (List ℕ) → Tree
    array : Elements → Tree
    object : Fields → Tree

  pub data Fields : Type 0 where
    no_fields : Fields
    field : String → Tree → Fields → Fields

  pub data Elements : Type 0 where
    no_elements : Elements
    element : Tree → Elements → Elements

abbrev pub fields : List (String × Tree) → Fields
fields [] = no_fields
fields ((name, value) ∷ rest) = field name value (fields rest)

-- `process.env`, by the names' code units
abbrev pub Environment : Type 0
Environment = List ℕ → Option (List ℕ)

abbrev pub text_tree : Option (List ℕ) → Tree
text_tree none = undefined
text_tree (some s) = text s

abbrev pub bool_tree : Option BoolInput → Tree
bool_tree none = undefined
bool_tree (some (flag b)) = boolean b
bool_tree (some (invalid s)) = text s

abbrev pub texts_tree : Option (List (List ℕ)) → Tree
texts_tree none = undefined
texts_tree (some ss) = texts ss

-- The ways in which `hydrate` reads a variable.
pub record Readers : Type 0 where
  pub str : String → Tree
  pub bool : String → Tree
  pub list : String → Tree
  pub upper_list : String → Tree
  pub sources : Option (List ℕ)

abbrev pub upper_case : (List ℕ → List ℕ) → Option (List (List ℕ)) → Option (List (List ℕ))
upper_case upper none = none
upper_case upper (some ss) = some (map upper ss)

unfoldable pub readers : (lower upper : List ℕ → List ℕ) → Environment → Readers
readers lower upper env = record {
  str = λ k. text_tree (env_string (env (char_codes k)));
  bool = λ k. bool_tree (env_bool lower (env (char_codes k)));
  list = λ k. texts_tree (env_list (env (char_codes k)));
  upper_list = λ k. texts_tree (upper_case upper (env_list (env (char_codes k))));
  sources = env_string (env (char_codes "DATABASE_CONFIG_JSON"));
}

abbrev app_section : Readers → Tree
app_section r = object (fields (("env", r.str "NODE_ENV") ∷ []))

abbrev logging_section : Readers → Tree
logging_section r = object (
    fields (
      ("logLevel", r.str "LOG_LEVEL")
      ∷ ("showStackTraces", r.bool "SHOW_STACK_TRACES")
      ∷ ("requestIdHeader", r.str "REQUEST_ID_HEADER")
      ∷ ("toFile", r.bool "LOGGING_TO_FILE")
      ∷ ("directory", r.str "LOGGING_DIR")
      ∷ ("fileName", r.str "LOGGING_FILE_NAME")
      ∷ ("filesLimit", r.str "LOGGING_FILES_LIMIT")
      ∷ ("maxSize", r.str "LOGGING_MAX_SIZE")
      ∷ ("pretty", r.bool "LOGGING_PRETTY")
      ∷ []))

abbrev http_section : Readers → Tree
http_section r = object (
    fields (
      ("port", r.str "PORT")
      ∷ ("corsOrigins", r.list "CORS_ORIGINS")
      ∷ ("serverTimeout", r.str "SERVER_TIMEOUT")
      ∷ ("headersTimeout", r.str "HEADERS_TIMEOUT")
      ∷ ("keepAliveTimeout", r.str "KEEP_ALIVE_TIMEOUT")
      ∷ ("jsonBodyLimit", r.str "JSON_BODY_LIMIT")
      ∷ ("urlencodedBodyLimit", r.str "URLENCODED_BODY_LIMIT")
      ∷ ("swaggerEnabled", r.bool "SWAGGER_ENABLED")
      ∷ ("trustProxy", r.bool "TRUST_PROXY")
      ∷ ("csrfEnabled", r.bool "CSRF_ENABLED")
      ∷ ("csrfTrustedOrigins", r.list "CSRF_TRUSTED_ORIGINS")
      ∷ []))

abbrev health_section : Readers → Tree
health_section r = object (
    fields (
      ("pingOnBoot", r.bool "DATABASE_PING_ON_BOOT")
      ∷ ("timeoutMs", r.str "DATABASE_PING_TIMEOUT_MS")
      ∷ ("maxRetries", r.str "DATABASE_PING_MAX_RETRIES")
      ∷ ("requiredSources", r.list "DATABASE_PING_REQUIRED_SOURCES")
      ∷ ("concurrency", r.str "DATABASE_PING_CONCURRENCY")
      ∷ ("jitterMs", r.str "DATABASE_PING_JITTER_MS")
      ∷ []))

abbrev oracle_section : Readers → Tree
oracle_section r = object (
    fields (
      ("thickMode", r.bool "ORACLE_THICK_MODE")
      ∷ ("clientLibDir", r.str "ORACLE_CLIENT_LIB_DIR")
      ∷ ("clientConfigDir", r.str "ORACLE_CLIENT_CONFIG_DIR")
      ∷ ("fetchAsString", r.upper_list "ORACLE_FETCH_AS_STRING")
      ∷ ("fetchAsBuffer", r.upper_list "ORACLE_FETCH_AS_BUFFER")
      ∷ []))

abbrev jwt_section : Readers → Tree
jwt_section r = object (
    fields (
      ("secret", r.str "JWT_SECRET")
      ∷ ("algorithms", r.list "JWT_ALGORITHMS")
      ∷ ("issuer", r.str "JWT_ISSUER")
      ∷ ("audience", r.str "JWT_AUDIENCE")
      ∷ ("cookieName", r.str "JWT_COOKIE_NAME")
      ∷ []))

abbrev legacy_section : Readers → Tree
legacy_section r = object (
    fields (
      ("forwardEnabled", r.bool "LEGACY_FORWARD_ENABLED")
      ∷ ("targetUrl", r.str "LEGACY_TARGET_URL")
      ∷ ("forwardPrefixes", r.list "LEGACY_FORWARD_PREFIXES")
      ∷ ("timeoutMs", r.str "LEGACY_TIMEOUT_MS")
      ∷ ("preserveHostHeader", r.bool "LEGACY_PRESERVE_HOST_HEADER")
      ∷ ("logRequests", r.bool "LEGACY_LOG_REQUESTS")
      ∷ ("logFileName", r.str "LEGACY_LOG_FILE_NAME")
      ∷ []))

abbrev scheduler_section : Readers → Tree
scheduler_section r = object (
    fields
      (("enabled", r.bool "SCHEDULER_ENABLED") ∷ ("timezone", r.str "SCHEDULER_TIMEZONE") ∷ []))

abbrev shutdown_section : Readers → Tree
shutdown_section r = object (
    fields (
      ("drainDelayMs", r.str "SHUTDOWN_DRAIN_DELAY_MS")
      ∷ ("forceAfterMs", r.str "SHUTDOWN_FORCE_AFTER_MS")
      ∷ ("jobDrainMs", r.str "SHUTDOWN_JOB_DRAIN_MS")
      ∷ []))

abbrev tls_section : Readers → Tree
tls_section r = object (
    fields (
      ("enabled", r.bool "TLS_ENABLED")
      ∷ ("keyFile", r.str "TLS_KEY_FILE")
      ∷ ("certFile", r.str "TLS_CERT_FILE")
      ∷ ("caFile", r.str "TLS_CA_FILE")
      ∷ ("passphrase", r.str "TLS_PASSPHRASE")
      ∷ ("minVersion", r.str "TLS_MIN_VERSION")
      ∷ []))

abbrev cluster_section : Readers → Tree
cluster_section r = object (
    fields (
      ("enabled", r.bool "CLUSTER_ENABLED")
      ∷ ("workers", r.str "CLUSTER_WORKERS")
      ∷ ("respawn", r.bool "CLUSTER_RESPAWN")
      ∷ ("respawnMaxPerMinute", r.str "CLUSTER_RESPAWN_MAX_PER_MINUTE")
      ∷ ("isLeader", r.bool "CLUSTER_LEADER")
      ∷ []))

-- Without the sources there is no database.
abbrev database_section : Readers → Option (List ℕ) → Tree
database_section r none = undefined
database_section r (some json) = object (
    fields (
      ("sources", text json)
      ∷ ("health", health_section r)
      ∷ ("oracle", oracle_section r)
      ∷ ("useDbLink", r.bool "DATABASE_USE_DBLINK")
      ∷ []))

-- `hydrate`
unfoldable pub hydrate : Readers → Tree
hydrate r = object (
    fields (
      ("app", app_section r)
      ∷ ("logging", logging_section r)
      ∷ ("http", http_section r)
      ∷ ("database", database_section r r.sources)
      ∷ ("jwt", jwt_section r)
      ∷ ("legacy", legacy_section r)
      ∷ ("scheduler", scheduler_section r)
      ∷ ("shutdown", shutdown_section r)
      ∷ ("tls", tls_section r)
      ∷ ("cluster", cluster_section r)
      ∷ []))
