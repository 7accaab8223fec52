-- ===== src/Config/Secrets.antt =====
-- The sources of DATABASE_CONFIG_JSON (src/infrastructure/config/schemas/database.schema.ts,
-- src/common/utils/parse-json.util.ts). `JSON.parse` is a parameter: a value, or none where it throws.
use nestjs_ddd_lean.Prelude.{
  ℕ, ◌≡◌, refl, ap, ◌∙◌, subst, Bool, true, false, ◌===◌, has, Option, none, some, List, [], ◌∷◌,
  String, eq_iff, if◌then◌else◌, ◌⊎◌, inl, inr, arith, Bool-cases,
}
use nestjs_ddd_lean.Errors.{◌<>◌}
use nestjs_ddd_lean.Config.Hydrate.{
  Tree, undefined, null, text, boolean, number, texts, array, object, Fields, no_fields, field,
  Elements, no_elements, element, Environment, text_tree,
}
use nestjs_ddd_lean.Config.Checks.{Issue, custom}

unfoldable pub get_field : String → Fields → Tree
get_field key no_fields = undefined
get_field key (field k v fs) = let rest = get_field key fs in if k === key then v else rest

-- `object[key] = value`
unfoldable pub set_field : String → Tree → Fields → Fields
set_field key value no_fields = field key value no_fields
set_field key value (field k v fs) =
    let rest = set_field key value fs in if k === key then field key value fs else field k v rest

unfoldable pub secret_env_fields : List String
secret_env_fields = "password" ∷ "walletPassword" ∷ []

abbrev pub is_undefined : Tree → Bool
is_undefined undefined = true
is_undefined v = false

-- `typeof ref === 'string' && ref.length > 0`
abbrev pub name_in : Tree → Option (List ℕ)
name_in (text (c ∷ s)) = some (c ∷ s)
name_in v = none

-- A field's value, where `ref` is what its `Env` field names.
abbrev pub secret_of : Environment → (own : Tree) → (ref : Option (List ℕ)) → Tree
secret_of env own none = own
secret_of env own (some ref) = if is_undefined own then text_tree (env ref) else own

-- One turn of the loop.
abbrev resolved_with : Environment → String → Tree → Option (List ℕ) → Fields → Fields
resolved_with env name own none fs = fs
resolved_with env name own (some ref) fs =
    if is_undefined own then set_field name (text_tree (env ref)) fs else fs

unfoldable pub resolve_field : Environment → String → Fields → Fields
resolve_field env name fs =
    resolved_with env name (get_field name fs) (name_in (get_field (name <> "Env") fs)) fs

-- The loop of `resolveSecretRefs`
unfoldable pub resolve_fields : Environment → List String → Fields → Fields
resolve_fields env [] fs = fs
resolve_fields env (name ∷ names) fs = resolve_fields env names (resolve_field env name fs)

unfoldable pub resolve_secret_refs : Environment → Tree → Tree
resolve_secret_refs env (object fs) = object (resolve_fields env secret_env_fields fs)
resolve_secret_refs env v = v

abbrev resolve_each : Environment → Elements → Elements
resolve_each env no_elements = no_elements
resolve_each env (element v es) = element (resolve_secret_refs env v) (resolve_each env es)

-- `parseJson`: none where it throws.
unfoldable pub parse_json : (json_parse : List ℕ → Option Tree) → Tree → Option Tree
parse_json json_parse undefined = some undefined
parse_json json_parse null = some undefined
parse_json json_parse (text []) = some undefined
parse_json json_parse (text (c ∷ s)) = json_parse (c ∷ s)
parse_json json_parse (texts ss) = some (texts ss)
parse_json json_parse (array es) = some (array es)
parse_json json_parse (object fs) = some (object fs)
parse_json json_parse (boolean b) = none
parse_json json_parse (number n) = none

abbrev resolve_list : Environment → Tree → Tree
resolve_list env (array es) = array (resolve_each env es)
resolve_list env v = v

abbrev sources_in : Tree → Tree
sources_in (object fs) = get_field "sources" fs
sources_in v = v

-- `parseSources`
abbrev sources_of : Environment → Option Tree → List Issue ⊎ Tree
sources_of env none = inl (custom [] "DATABASE_CONFIG_JSON is not valid JSON")
sources_of env (some parsed) = inr (resolve_list env (sources_in parsed))

unfoldable pub parse_sources :
    (json_parse : List ℕ → Option Tree) → Environment → Tree → List Issue ⊎ Tree
parse_sources json_parse env v = sources_of env (parse_json json_parse v)

get-set :
    (written read : String) (v : Tree) (fs : Fields)
    → get_field read (set_field written v fs) ≡ (if written === read then v else get_field read fs)
unfolding get_field set_field
get-set written read v no_fields = refl
get-set written read v (field k w fs) =
    let rest = get-set written read v fs in
    ground (arith, rest, eq_iff k read, eq_iff k written, eq_iff written read)

unchanged :
    (name read : String) (own : Tree) (fs : Fields)
    → get_field name fs ≡ own
    → get_field read fs ≡ (if name === read then own else get_field read fs)
unchanged name read own fs e = elim (Bool-cases (name === read)) [
  | inl same ↦ rw same (subst (λ k. get_field k fs ≡ own) ((eq_iff name read).0 same) e)
  | inr differ ↦ ground (arith, differ)
]

resolved-get :
    (env : Environment) (name read : String) (own : Tree) (ref : Option (List ℕ)) (fs : Fields)
    → get_field name fs ≡ own
    → get_field read (resolved_with env name own ref fs)
      ≡ (if name === read then secret_of env own ref else get_field read fs)
resolved-get env name read own none fs e = unchanged name read own fs e
resolved-get env name read own (some ref) fs e = elim (Bool-cases (is_undefined own)) [
  | inl missing ↦ rw missing (get-set name read (text_tree (env ref)) fs)
  | inr given ↦ rw given (unchanged name read own fs e)
]

-- The value that a secret's field is to have.
abbrev pub secret : Environment → Fields → String → Tree
secret env fs name = secret_of env (get_field name fs) (name_in (get_field (name <> "Env") fs))

resolve_field-get :
    (env : Environment) (name read : String) (fs : Fields)
    → get_field read (resolve_field env name fs)
      ≡ (if name === read then secret env fs name else get_field read fs)
unfolding resolve_field
resolve_field-get env name read fs =
    resolved-get env name read (get_field name fs) (name_in (get_field (name <> "Env") fs)) fs refl

password_only :
    (env : Environment) (fs : Fields) (key : String)
    → ("walletPassword" === key) ≡ false
    → get_field key (resolve_field env "password" fs) ≡ (
        if has key ("password" ∷ "walletPassword" ∷ [])
        then secret env fs key
        else get_field key fs)
password_only env fs key differ = elim (Bool-cases ("password" === key)) [
  | inl same ↦
      subst
        (λ k. get_field k (resolve_field env "password" fs) ≡ (
          if has k ("password" ∷ "walletPassword" ∷ []) then secret env fs k else get_field k fs))
        ((eq_iff "password" key).0 same) (resolve_field-get env "password" "password" fs)
  | inr other ↦ ground (arith, differ, other, resolve_field-get env "password" key fs)
]

wallet_secret :
    (env : Environment) (fs : Fields)
    → secret env (resolve_field env "password" fs) "walletPassword" ≡ secret env fs "walletPassword"
wallet_secret env fs =
    ap
      (λ own.
        secret_of env own
          (name_in (get_field "walletPasswordEnv" (resolve_field env "password" fs))))
      (resolve_field-get env "password" "walletPassword" fs)
    ∙ ap (λ ref. secret_of env (get_field "walletPassword" fs) (name_in ref))
        (resolve_field-get env "password" "walletPasswordEnv" fs)

-- Of the fields of a source only the two secrets are changed: one that is given stays as it is, and
-- one that is missing while its `Env` field has a name becomes the value of that variable.
pub secret_refs_resolved :
    (env : Environment) (fs : Fields) (key : String)
    → get_field key (resolve_fields env secret_env_fields fs)
      ≡ (if has key secret_env_fields then secret env fs key else get_field key fs)
unfolding resolve_fields secret_env_fields
secret_refs_resolved env fs key =
    let first = resolve_field env "password" fs in
    elim (Bool-cases ("walletPassword" === key)) [
      | inl same ↦
          subst
            (λ k. get_field k (resolve_field env "walletPassword" first) ≡ (
              if has k ("password" ∷ "walletPassword" ∷ [])
              then secret env fs k
              else get_field k fs))
            ((eq_iff "walletPassword" key).0 same)
            (resolve_field-get env "walletPassword" "walletPassword" first ∙ wallet_secret env fs)
      | inr differ ↦
          resolve_field-get env "walletPassword" key first
          ∙ (ap (λ b. if b then secret env first "walletPassword" else get_field key first) differ
              ∙ password_only env fs key differ)
    ]
