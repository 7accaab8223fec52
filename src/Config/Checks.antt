-- ===== src/Config/Checks.antt =====
-- What the schemas of the configuration check by functions of their own (load-config.ts and schemas/ in
-- src/infrastructure/config), and the error of a configuration that is not valid. What Zod checks by
-- itself is a parameter.
use nestjs_ddd_lean.Prelude.{
  ℕ, ◌+◌, Bool, not, ◌&&◌, ◌||◌, ◌==◌, Option, some, List, [], ◌∷◌, ◌++◌, String, map, all,
  is_empty, length, leb, truthy, has, if◌then◌else◌, ◌===◌, ◌⊎◌, inl, inr,
}
use nestjs_ddd_lean.Errors.{◌<>◌}
use nestjs_ddd_lean.Http.Filter.{join}
use nestjs_ddd_lean.Config.Hydrate.{Environment, readers, hydrate, Tree}

pub record Issue : Type 0 where
  pub path : List String
  pub code : String
  pub message : String

-- `ctx.addIssue` of a check that fails.
abbrev pub custom : List String → String → List Issue
custom path message = record { path = path; code = "custom"; message = message } ∷ []

abbrev pub unless : Bool → List Issue → List Issue
unless ok issues = if ok then [] else issues

-- `superRefine` of the whole configuration.
unfoldable pub root_issues : (legacy_log_file_name logging_file_name : String) → List Issue
root_issues legacy_file logging_file = unless (not (legacy_file === logging_file)) (
    custom ("legacy" ∷ "logFileName" ∷ [])
      "LEGACY_LOG_FILE_NAME must differ from LOGGING_FILE_NAME")

-- `superRefine` of `legacySchema`
unfoldable pub legacy_issues : (enabled : Bool) → Option String → List String → List Issue
legacy_issues enabled target_url forward_prefixes =
    if enabled
    then unless (truthy target_url)
        (custom ("targetUrl" ∷ []) "LEGACY_TARGET_URL is required when LEGACY_FORWARD_ENABLED=true")
      ++ unless (not (is_empty forward_prefixes)) (
          custom ("forwardPrefixes" ∷ [])
            "LEGACY_FORWARD_PREFIXES must list at least one prefix when LEGACY_FORWARD_ENABLED=true")
    else []

-- `tlsSchema`
pub record TlsConfig : Type 0 where
  pub enabled : Bool
  pub key_file : Option String
  pub cert_file : Option String
  pub ca_file : Option String
  pub passphrase : Option String
  pub min_version : String

unfoldable pub tls_issues : TlsConfig → List Issue
tls_issues tls =
    if tls.enabled
    then unless (truthy tls.key_file)
        (custom ("keyFile" ∷ []) "TLS_KEY_FILE is required when TLS_ENABLED=true")
      ++ unless (truthy tls.cert_file)
          (custom ("certFile" ∷ []) "TLS_CERT_FILE is required when TLS_ENABLED=true")
    else []

-- The fields of an `OracleSource` that its refinements look at.
pub record OracleSource : Type 0 where
  pub connection_url : Option String
  pub connect_string : Option String
  pub user : Option String
  pub password : Option String
  pub external_auth : Bool
  pub pool_min : ℕ
  pub pool_max : ℕ

-- `hasAll`
abbrev pub has_all : List (Option String) → Bool
has_all values = all truthy values

-- The two refinements of an Oracle source.
unfoldable pub oracle_issues : OracleSource → List Issue
oracle_issues o =
    unless
      (truthy o.connection_url
        || (o.external_auth && has_all (o.connect_string ∷ []))
        || has_all (o.connect_string ∷ o.user ∷ o.password ∷ []))
      (custom []
        "oracle: provide connectionUrl, connectString+user+password (or passwordEnv), or connectString with externalAuth")
    ++ unless (leb o.pool_min o.pool_max)
        (custom ("poolMin" ∷ []) "oracle: poolMin must be <= poolMax")

-- `new Set(keys).size`
abbrev pub set_size : List String → ℕ
set_size [] = 0
set_size (k ∷ ks) = let rest = set_size ks in if has k ks then rest else 1 + rest

-- The refinement of the sources.
unfoldable pub unique_keys : List String → Bool
unique_keys keys = set_size keys == length keys

-- `InvalidConfigError`: its issues with the paths joined, and its message.
pub record InvalidConfig : Type 0 where
  pub issues : List (String × String × String)
  pub message : String

abbrev line_of : String × String × String → String
line_of (path, code, message) = "  - " <> path <> ": " <> message

unfoldable pub invalid_config : List (String × String × String) → InvalidConfig
unfolding join
invalid_config issues = record {
  issues = issues;
  message = "Invalid configuration:\n" <> join "\n" (map line_of issues);
}

-- `i.path.join('.') || '(root)'`
abbrev path_text : List String → String
path_text path = let s = join "." path in if truthy (some s) then s else "(root)"

abbrev entry_of : Issue → String × String × String
entry_of i = (path_text i.path, i.code, i.message)

-- `loadEnvFiles`: what the files add to the environment, except in a test.
unfoldable pub load_env_files :
    (node_env : String) → (files : Environment → Environment) → Environment → Environment
load_env_files node_env files env =
    if has node_env ("test" ∷ "testing" ∷ []) then env else files env

-- `loadConfig`, for what the schema answers.
abbrev parsed_config : {C : Type 0} → List Issue ⊎ C → InvalidConfig ⊎ C
parsed_config (inl issues) = inl (invalid_config (map entry_of issues))
parsed_config (inr config) = inr config

module _ (lower upper : List ℕ → List ℕ) (files : Environment → Environment) where
  unfoldable pub load_config :
      {C : Type 0}
      → (safe_parse : Tree → List Issue ⊎ C) → (node_env : String) → Environment
      → InvalidConfig ⊎ C
  load_config safe_parse node_env env =
      parsed_config (safe_parse (hydrate (readers lower upper (load_env_files node_env files env))))
