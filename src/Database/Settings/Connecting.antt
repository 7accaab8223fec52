-- ===== src/Database/Settings/Connecting.antt =====
-- Who connects where, for a source that the configuration accepts (oracle-pool.options.ts,
-- database.schema.ts).
use nestjs_ddd_lean.Prelude.{
  ◌≡◌, refl, Bool, true, false, ◌&&◌, ◌||◌, Bool-cases, inl, inr, Option, none, some, [], ◌∷◌,
  String, truthy, is_some, if◌then◌else◌, arith,
}
use nestjs_ddd_lean.Config.Checks.{OracleSource, oracle_issues, has_all}
use nestjs_ddd_lean.Database.Settings.{
  ParsedUrl, Source, first_given, url_credentials, parse_oracle_url, pool_credentials,
}

abbrev pub source_of : OracleSource → Source
source_of o = record {
  connection_url = o.connection_url;
  connect_string = o.connect_string;
  user = o.user;
  password = o.password;
  external_auth = o.external_auth;
}

-- A value that is given is not empty.
truthy-some : (o : Option String) → truthy o ≡ true → is_some o ≡ true
truthy-some none h = h
truthy-some (some s) h = refl

-- The first of the two checks, by the values it looks at.
abbrev accepted : (url connect_string user password : Option String) → (external_auth : Bool) → Bool
accepted url connect_string user password external_auth =
    truthy url
    || (external_auth && has_all (connect_string ∷ []))
    || has_all (connect_string ∷ user ∷ password ∷ [])

oracle_issues-accepted :
    (o : OracleSource)
    → oracle_issues o ≡ []
    → accepted o.connection_url o.connect_string o.user o.password o.external_auth ≡ true
unfolding oracle_issues
oracle_issues-accepted o h =
    elim (Bool-cases
      (accepted o.connection_url o.connect_string o.user o.password o.external_auth)) [
        | inl ok ↦ ok
        | inr refused ↦ absurd (ground (arith, refused, h))
      ]

module _ (parse_url : String → ParsedUrl) (decode : String → String) where
  connects :
      (url cs user password : Option String) (ext : Bool)
      → accepted url cs user password ext ≡ true
      → is_some (first_given cs (url_credentials parse_url decode url).connect_string) ≡ true
  unfolding parse_oracle_url
  connects url (some s) user password ext h = refl
  connects none none user password ext h = absurd (ground (arith, h))
  connects (some String.[]) none user password ext h = absurd (ground (arith, h))
  connects (some (String.◌∷◌ c s)) none user password ext h = refl

  authenticates :
      (url cs user password u p : Option String) (ext : Bool)
      → accepted url cs user password ext ≡ true
      → (ext || truthy url || (is_some (first_given user u) && is_some (first_given password p)))
        ≡ true
  authenticates url cs (some s) (some t) u p ext h = ground (arith, h)
  authenticates url cs none password u p ext h = ground (arith, h)
  authenticates url cs (some s) none u p ext h = ground (arith, h)

  external :
      (ext : Bool) (user password : Option String)
      → (if ext
          then is_some (if ext then none else user) || is_some (if ext then none else password)
          else false)
        ≡ false
  external true user password = refl
  external false user password = refl

  -- For a source that the configuration's check accepts the pool always gets a connect string, and a
  -- user and a password unless there is external authentication or a URL to take them from; with
  -- external authentication it gets neither of them.
  pub accepted_source_connects :
      (o : OracleSource)
      → oracle_issues o ≡ []
      → let c = pool_credentials parse_url decode (source_of o) in
        (is_some c.connect_string ≡ true)
        × ((o.external_auth || truthy o.connection_url || (is_some c.user && is_some c.password))
            ≡ true)
        × ((if o.external_auth then is_some c.user || is_some c.password else false) ≡ false)
  unfolding pool_credentials
  accepted_source_connects o h =
      let ok = oracle_issues-accepted o h in
      let from_url = url_credentials parse_url decode o.connection_url in
      (
        connects o.connection_url o.connect_string o.user o.password o.external_auth ok,
        ground (
          arith,
          authenticates o.connection_url o.connect_string o.user o.password from_url.user
              from_url.password o.external_auth ok,
        ),
        external o.external_auth (first_given o.user from_url.user)
            (first_given o.password from_url.password),
      )
