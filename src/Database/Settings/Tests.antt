-- ===== src/Database/Settings/Tests.antt =====
-- A source with a URL and one with external authentication.
use nestjs_ddd_lean.Prelude.{◌≡◌, refl, true, false, none, some, [], ◌∷◌, String}
use nestjs_ddd_lean.Config.Checks.{OracleSource}
use nestjs_ddd_lean.Database.Settings.{
  ParsedUrl, DriverConfig, init_oracle_client, set_fetch_as_string, fetch_type, init_oracle_driver,
  parse_oracle_url, pool_credentials,
}
use nestjs_ddd_lean.Database.Settings.Connecting.{source_of}

abbrev parse_url : String → ParsedUrl
parse_url url = record {
  username = "app";
  password = "s3cret";
  hostname = "db";
  port = "";
  pathname_without_slash = "CORE";
  search = "";
}

abbrev by_url : OracleSource
by_url = record {
  connection_url = some "oracle://app:s3cret@db/CORE";
  connect_string = none;
  user = none;
  password = none;
  external_auth = false;
  pool_min = 2;
  pool_max = 10;
}

default_port :
    (pool_credentials parse_url (λ s. s) (source_of by_url)).connect_string ≡ some "db:1521/CORE"
unfolding pool_credentials parse_oracle_url
default_port = refl

abbrev thick : DriverConfig
thick = record {
  thick_mode = true;
  client_lib_dir = none;
  client_config_dir = none;
  fetch_as_string = "CLOB" ∷ "JSON" ∷ [];
  fetch_as_buffer = [];
}

thick_first : init_oracle_driver none false thick ≡ (
  true,
  init_oracle_client none none ∷ set_fetch_as_string ("CLOB" ∷ "DB_TYPE_JSON" ∷ []) ∷ [],
  none,
)
unfolding init_oracle_driver fetch_type
thick_first = refl
