-- ===== src/Config/Tls.antt =====
-- src/infrastructure/tls/load-tls-options.ts. Reading a file is a parameter: its bytes, or none where
-- that throws.
use nestjs_ddd_lean.Prelude.{
  ℕ, ◌≡◌, refl, true, false, Option, none, some, List, [], ◌∷◌, String, is_empty, truthy, or_else,
  if◌then◌else◌, ◌⊎◌, inl, inr, if_ind,
}
use nestjs_ddd_lean.Errors.{◌<>◌}
use nestjs_ddd_lean.Config.Checks.{TlsConfig, InvalidConfig, invalid_config}

pub record TlsOptions : Type 0 where
  pub key : List ℕ
  pub cert : List ℕ
  pub ca : Option (List ℕ)
  pub passphrase : Option String
  pub min_version : String

-- A path that is undefined is written so in the message.
abbrev path_name : Option String → String
path_name path = or_else path "undefined"

abbrev unreadable : Option String → String → InvalidConfig
unreadable path variable =
    invalid_config
      ((variable, "custom", "cannot read " <> variable <> " at \"" <> path_name path <> "\"") ∷ [])

abbrev pub checked : Option String → String → Option (List ℕ) → InvalidConfig ⊎ List ℕ
checked path variable none = inl (unreadable path variable)
checked path variable (some []) = inl (
    invalid_config
      ((variable, "custom", variable <> " at \"" <> path_name path <> "\" is empty") ∷ []))
checked path variable (some (c ∷ s)) = inr (c ∷ s)

module _ (read_file : String → Option (List ℕ)) where
  -- `readFileSync(path)`, which throws without a path.
  abbrev pub contents : Option String → Option (List ℕ)
  contents none = none
  contents (some path) = read_file path

  -- `readPemFile`
  unfoldable pub read_pem_file : Option String → String → InvalidConfig ⊎ List ℕ
  read_pem_file path variable = checked path variable (contents path)

  abbrev given_passphrase : TlsConfig → Option String
  given_passphrase c = if truthy c.passphrase then c.passphrase else none

  abbrev options : TlsConfig → (key cert : List ℕ) → Option (List ℕ) → TlsOptions
  options c key cert ca = record {
    key = key;
    cert = cert;
    ca = ca;
    passphrase = given_passphrase c;
    min_version = c.min_version;
  }

  abbrev pub with_ca :
      TlsConfig → (key cert : List ℕ) → InvalidConfig ⊎ List ℕ → InvalidConfig ⊎ Option TlsOptions
  with_ca c key cert (inl e) = inl e
  with_ca c key cert (inr ca) = inr (some (options c key cert (some ca)))

  abbrev pub with_cert :
      TlsConfig → (key : List ℕ) → InvalidConfig ⊎ List ℕ → InvalidConfig ⊎ Option TlsOptions
  with_cert c key (inl e) = inl e
  with_cert c key (inr cert) =
      if truthy c.ca_file
      then with_ca c key cert (read_pem_file c.ca_file "TLS_CA_FILE")
      else inr (some (options c key cert none))

  abbrev pub with_key : TlsConfig → InvalidConfig ⊎ List ℕ → InvalidConfig ⊎ Option TlsOptions
  with_key c (inl e) = inl e
  with_key c (inr key) = with_cert c key (read_pem_file c.cert_file "TLS_CERT_FILE")

  -- `loadTlsOptions`
  unfoldable pub load_tls_options : TlsConfig → InvalidConfig ⊎ Option TlsOptions
  load_tls_options c =
      if c.enabled then with_key c (read_pem_file c.key_file "TLS_KEY_FILE") else inr none

  -- The bytes are those of a configured file, and not empty.
  abbrev pub Holds : Option String → List ℕ → Type 0
  Holds path bytes =
      (name : String) × (path ≡ some name)
      × (read_file name ≡ some bytes)
      × (is_empty bytes ≡ false)

  abbrev pub HoldsCa : TlsConfig → Option (List ℕ) → Type 0
  HoldsCa c none = truthy c.ca_file ≡ false
  HoldsCa c (some bytes) = Holds c.ca_file bytes

  -- A file that cannot be read, or is empty.
  abbrev pub IsBad : Option String → Type 0
  IsBad path = (contents path ≡ none) ⊎ (contents path ≡ some [])

  -- What loading the options may come to: it fails for a file that is bad, they are missing only where
  -- TLS is off, and have the key and the certificate of the configured files, and the chain exactly
  -- where one is configured.
  abbrev pub IsTlsOutcome : TlsConfig → InvalidConfig ⊎ Option TlsOptions → Type 0
  IsTlsOutcome c (inl e) =
      (c.enabled ≡ true)
      × (IsBad c.key_file ⊎ (IsBad c.cert_file ⊎ ((truthy c.ca_file ≡ true) × IsBad c.ca_file)))
  IsTlsOutcome c (inr none) = c.enabled ≡ false
  IsTlsOutcome c (inr (some o)) =
      (c.enabled ≡ true) × Holds c.key_file o.key × Holds c.cert_file o.cert × HoldsCa c o.ca

  -- Bytes that were read are those of the file.
  abbrev HoldsRead : Option String → InvalidConfig ⊎ List ℕ → Type 0
  HoldsRead path (inl e) = IsBad path
  HoldsRead path (inr bytes) = Holds path bytes

  checked-HoldsRead :
      (name : String) (variable : String) (o : Option (List ℕ))
      → read_file name ≡ o
      → HoldsRead (some name) (checked (some name) variable o)
  checked-HoldsRead name variable none e = inl e
  checked-HoldsRead name variable (some []) e = inr e
  checked-HoldsRead name variable (some (c ∷ s)) e = (name, refl, e, refl)

  read_pem_file-HoldsRead :
      (path : Option String) (variable : String) → HoldsRead path (read_pem_file path variable)
  unfolding read_pem_file
  read_pem_file-HoldsRead none variable = inl refl
  read_pem_file-HoldsRead (some name) variable =
      checked-HoldsRead name variable (read_file name) refl

  with_ca-IsTlsOutcome :
      (c : TlsConfig) (key cert : List ℕ) (r : InvalidConfig ⊎ List ℕ)
      → c.enabled ≡ true
      → Holds c.key_file key
      → Holds c.cert_file cert
      → truthy c.ca_file ≡ true
      → HoldsRead c.ca_file r
      → IsTlsOutcome c (with_ca c key cert r)
  with_ca-IsTlsOutcome c key cert (inl e) on k h t a = (on, inr (inr (t, a)))
  with_ca-IsTlsOutcome c key cert (inr ca) on k h t a = (on, k, h, a)

  with_cert-IsTlsOutcome :
      (c : TlsConfig) (key : List ℕ) (r : InvalidConfig ⊎ List ℕ)
      → c.enabled ≡ true
      → Holds c.key_file key
      → HoldsRead c.cert_file r
      → IsTlsOutcome c (with_cert c key r)
  with_cert-IsTlsOutcome c key (inl e) on k h = (on, inr (inl h))
  with_cert-IsTlsOutcome c key (inr cert) on k h =
      if_ind (IsTlsOutcome c) (truthy c.ca_file)
        (λ t.
          with_ca-IsTlsOutcome c key cert (read_pem_file c.ca_file "TLS_CA_FILE") on k h t
            (read_pem_file-HoldsRead c.ca_file "TLS_CA_FILE"))
        (λ f. (on, k, h, f))

  with_key-IsTlsOutcome :
      (c : TlsConfig) (r : InvalidConfig ⊎ List ℕ)
      → c.enabled ≡ true
      → HoldsRead c.key_file r
      → IsTlsOutcome c (with_key c r)
  with_key-IsTlsOutcome c (inl e) on k = (on, inl k)
  with_key-IsTlsOutcome c (inr key) on k =
      with_cert-IsTlsOutcome c key (read_pem_file c.cert_file "TLS_CERT_FILE") on k
        (read_pem_file-HoldsRead c.cert_file "TLS_CERT_FILE")

  -- A process whose TLS is on never starts without it: loading its options gives the bytes of the
  -- configured key and certificate files, none of them empty, with the chain exactly where one is
  -- configured, and fails only where one of these files cannot be read or is empty; there are no
  -- options exactly where TLS is off.
  pub load_tls_options-IsTlsOutcome : (c : TlsConfig) → IsTlsOutcome c (load_tls_options c)
  unfolding load_tls_options
  load_tls_options-IsTlsOutcome c =
      if_ind (IsTlsOutcome c) c.enabled
        (λ on.
          with_key-IsTlsOutcome c (read_pem_file c.key_file "TLS_KEY_FILE") on
            (read_pem_file-HoldsRead c.key_file "TLS_KEY_FILE"))
        (λ off. off)
