-- ===== src/Database/Settings.antt =====
-- The settings of an Oracle pool (src/infrastructure/database/clients/oracle/oracle-pool.options.ts and
-- oracle-driver.init.ts). The parser of URLs and `decodeURIComponent` are parameters, and so is the
-- driver's initOracleClient, which may throw.
pub mod Connecting
mod Tests
use nestjs_ddd_lean.Prelude.{
  ℕ, Bool, true, false, not, Option, none, some, List, [], ◌∷◌, ◌++◌, String, ◌===◌, map, is_empty,
  or_else, truthy, if◌then◌else◌,
}
use nestjs_ddd_lean.Errors.{◌<>◌}

-- What `new URL(url)` has.
pub record ParsedUrl : Type 0 where
  pub username : String
  pub password : String
  pub hostname : String
  pub port : String
  pub pathname_without_slash : String
  pub search : String

-- `Credentials`
pub record Credentials : Type 0 where
  pub user : Option String
  pub password : Option String
  pub connect_string : Option String

-- `s || undefined`
abbrev pub non_empty : String → Option String
non_empty s = if truthy (some s) then some s else none

abbrev pub first_given : Option String → Option String → Option String
first_given none b = b
first_given (some a) b = some a

-- The fields of a source that concern who connects where.
pub record Source : Type 0 where
  pub connection_url : Option String
  pub connect_string : Option String
  pub user : Option String
  pub password : Option String
  pub external_auth : Bool

module _ (parse_url : String → ParsedUrl) (decode : String → String) where
  -- `parseOracleUrl`
  unfoldable pub parse_oracle_url : String → Credentials
  parse_oracle_url url =
      let parsed = parse_url url in
      let port = if truthy (some parsed.port) then parsed.port else "1521" in
      record {
        user = non_empty (decode parsed.username);
        password = non_empty (decode parsed.password);
        connect_string = some (
            parsed.hostname <> ":" <> port <> "/" <> parsed.pathname_without_slash
            <> parsed.search);
      }

  abbrev url_credentials : Option String → Credentials
  url_credentials none = record { user = none; password = none; connect_string = none }
  url_credentials (some String.[]) = record { user = none; password = none; connect_string = none }
  url_credentials (some (String.◌∷◌ c s)) = parse_oracle_url (String.◌∷◌ c s)

  -- The first part of `toPoolAttributes`
  unfoldable pub pool_credentials : Source → Credentials
  pool_credentials source =
      let credentials = url_credentials source.connection_url in
      record {
        user = if source.external_auth then none else first_given source.user credentials.user;
        password =
            if source.external_auth then none else first_given source.password credentials.password;
        connect_string = first_given source.connect_string credentials.connect_string;
      }

-- `OracleDriverConfig`
pub record DriverConfig : Type 0 where
  pub thick_mode : Bool
  pub client_lib_dir : Option String
  pub client_config_dir : Option String
  pub fetch_as_string : List String
  pub fetch_as_buffer : List String

-- What is done to the driver; the constants it takes for the types of columns are named.
pub data DriverCall : Type 0 where
  init_oracle_client : (lib_dir config_dir : Option String) → DriverCall
  set_fetch_as_string : List String → DriverCall
  set_fetch_as_buffer : List String → DriverCall

unfoldable pub fetch_type : String → String
fetch_type type = if type === "JSON" then "DB_TYPE_JSON" else type

abbrev unless_empty : List String → DriverCall → List DriverCall
unless_empty types call = if is_empty types then [] else call ∷ []

abbrev fetch_calls : DriverConfig → List DriverCall
fetch_calls config =
    unless_empty config.fetch_as_string
      (set_fetch_as_string (map fetch_type config.fetch_as_string))
    ++ unless_empty config.fetch_as_buffer (set_fetch_as_buffer ("BLOB" ∷ []))

-- `initOracleDriver`: the flag `initialized`, the calls, and what initOracleClient throws.
abbrev started_thick : DriverConfig → Option String → Bool × List DriverCall × Option String
started_thick config (some e) =
    (false, init_oracle_client config.client_lib_dir config.client_config_dir ∷ [], some e)
started_thick config none = (
  true,
  init_oracle_client config.client_lib_dir config.client_config_dir ∷ fetch_calls config,
  none,
)

unfoldable pub init_oracle_driver :
    (thrown : Option String)
    → (initialized : Bool) → DriverConfig
    → Bool × List DriverCall × Option String
init_oracle_driver thrown initialized config =
    if initialized
    then (true, [], none)
    else if config.thick_mode
    then started_thick config thrown
    else (true, fetch_calls config, none)
