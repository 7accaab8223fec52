-- ===== src/Config/Tests.antt =====
-- Lists, keys and secrets of a small environment, two sources, and certificate files.
use nestjs_ddd_lean.Prelude.{
  false, ℕ, ◌≡◌, refl, true, has, ◌===◌, Option, none, some, List, [], ◌∷◌, String, char_codes,
  if◌then◌else◌, inr, same_text,
}
use nestjs_ddd_lean.Database.Text.{is_space, trim}
use nestjs_ddd_lean.Config.Env.{env_string, env_list, split, trimmed_items}
use nestjs_ddd_lean.Config.Env.Lists.{join_units, env_list_round_trip}
use nestjs_ddd_lean.Config.Hydrate.{
  Tree, text, number, object, Fields, no_fields, field, Environment,
}
use nestjs_ddd_lean.Config.Access.{get, get_part, walk_parts}
use nestjs_ddd_lean.Config.Checks.{TlsConfig, unique_keys}
use nestjs_ddd_lean.Config.Secrets.{
  get_field, set_field, resolve_field, resolve_fields, secret_env_fields, secret,
  secret_refs_resolved,
}
use nestjs_ddd_lean.Config.Tls.{
  IsTlsOutcome, read_pem_file, load_tls_options, load_tls_options-IsTlsOutcome,
}

abbrev spaced : List ℕ
spaced = char_codes " core, ,b c "

spaced_list : env_list (some spaced) ≡ some (char_codes "core" ∷ char_codes "b c" ∷ [])
unfolding env_list env_string split trimmed_items is_space trim
spaced_list = refl

env_list_round_trip_example :
    env_list (some (join_units 44 (char_codes "core" ∷ char_codes "b c" ∷ [])))
    ≡ some (char_codes "core" ∷ char_codes "b c" ∷ [])
unfolding is_space
env_list_round_trip_example =
    env_list_round_trip (char_codes "core") (char_codes "b c" ∷ []) refl refl

abbrev environment : Environment
environment key =
    if same_text key (char_codes "CORE_PASSWORD")
    then some (char_codes "s3cret")
    else if same_text key (char_codes "PORT")
    then some (char_codes "  ")
    else none

abbrev config : Tree
config = object (field "http" (object (field "port" (number 3000) no_fields)) no_fields)

port : get config (char_codes "http.port") ≡ number 3000
unfolding get split walk_parts get_part
port = refl

abbrev core_source : Fields
core_source =
    field "key" (text (char_codes "core"))
      (field "passwordEnv" (text (char_codes "CORE_PASSWORD")) no_fields)

core_password :
    get_field "password" (resolve_fields environment secret_env_fields core_source)
    ≡ text (char_codes "s3cret")
unfolding resolve_fields resolve_field secret_env_fields get_field set_field
core_password = refl

secret_refs_resolved_example :
    get_field "password" (resolve_fields environment secret_env_fields core_source) ≡ (
      if has "password" secret_env_fields
      then secret environment core_source "password"
      else get_field "password" core_source)
secret_refs_resolved_example = secret_refs_resolved environment core_source "password"

two_keys : unique_keys ("core" ∷ "hr" ∷ []) ≡ true
unfolding unique_keys
two_keys = refl

key_twice : unique_keys ("core" ∷ "core" ∷ []) ≡ false
unfolding unique_keys
key_twice = refl

abbrev files : String → Option (List ℕ)
files name =
    if name === "key.pem"
    then some (1 ∷ [])
    else if name === "cert.pem"
    then some (2 ∷ [])
    else none

abbrev tls : TlsConfig
tls = record {
  enabled = true;
  key_file = some "key.pem";
  cert_file = some "cert.pem";
  ca_file = none;
  passphrase = none;
  min_version = "TLSv1.3";
}

loaded :
    load_tls_options files tls
    ≡ inr (
        some record {
          key = 1 ∷ [];
          cert = 2 ∷ [];
          ca = none;
          passphrase = none;
          min_version = "TLSv1.3";
        })
unfolding load_tls_options read_pem_file
loaded = refl

load_tls_options-IsTlsOutcome_example : IsTlsOutcome files tls (load_tls_options files tls)
load_tls_options-IsTlsOutcome_example = load_tls_options-IsTlsOutcome files tls
