-- ===== src/Config/Keys.antt =====
-- Source keys that are unique (database.schema.ts) and the pools that are started for them
-- (pool.manager.ts).
use nestjs_ddd_lean.Prelude.{
  ◌≡◌, ◌≢◌, ◌≤◌, refl, sym, ap, ◌∙◌, subst, true, false, ◌===◌, Bool-cases, has, Option, none, some,
  List, [], ◌∷◌, ◌++◌, String, map, append-nil, append_assoc, lookup, insert, lookup-insert, length,
  ==→eq, eq_iff, ◌⊎◌, inl, inr, arith,
}
use nestjs_ddd_lean.Database.Mapper.{Raised}
use nestjs_ddd_lean.Database.Pools.{
  PoolManager, SourceConfig, Client, has_source, create_client, add_client, init_source, init_rest,
  init, no_pools,
}
use nestjs_ddd_lean.Config.Checks.{set_size, unique_keys}

-- No text comes twice.
abbrev NoRepeat : List String → Type 0
NoRepeat [] = Unit
NoRepeat (k ∷ ks) = (has k ks ≡ false) × NoRepeat ks

set_size-le : (ks : List String) → set_size ks ≤ length ks
set_size-le [] = omega arith
set_size-le (k ∷ ks) = ground (arith, set_size-le ks)

set_size-NoRepeat : (ks : List String) → set_size ks ≡ length ks → NoRepeat ks
set_size-NoRepeat [] h = tt
set_size-NoRepeat (k ∷ ks) h = elim (Bool-cases (has k ks)) [
  | inl again ↦ absurd (ground (arith, again, h, set_size-le ks))
  | inr new ↦ (new, set_size-NoRepeat ks (ground (arith, new, h)))
]

-- Keys that have no client yet.
abbrev Fresh : List (String × Client) → List String → Type 0
Fresh clients [] = Unit
Fresh clients (k ∷ ks) = (lookup k clients ≡ none) × Fresh clients ks

keys-insert :
    (k : String) (c : Client) (clients : List (String × Client))
    → lookup k clients ≡ none
    → map (λ e. e.0) (insert k c clients) ≡ map (λ e. e.0) clients ++ k ∷ []
keys-insert k c [] h = refl
keys-insert k c (e ∷ clients) h = elim (Bool-cases (e.0 === k)) [
  | inl same ↦ absurd (ground (arith, same, h))
  | inr differ ↦ ground (arith, differ, keys-insert k c clients (ground (arith, differ, h)))
]

insert-Fresh :
    (k : String) (c : Client) (clients : List (String × Client)) (ks : List String)
    → has k ks ≡ false
    → Fresh clients ks
    → Fresh (insert k c clients) ks
insert-Fresh k c clients [] h f = tt
insert-Fresh k c clients (j ∷ ks) h (f, fs) = (
  ground (arith, h, f, lookup-insert k j c clients, eq_iff k j, eq_iff j k),
  insert-Fresh k c clients ks (ground (arith, h)) fs,
)

sum_cases : {A B : Type 0} (r : A ⊎ B) → ((a : A) × (r ≡ inl a)) ⊎ ((b : B) × (r ≡ inr b))
sum_cases (inl a) = inl (a, refl)
sum_cases (inr b) = inr (b, refl)

some≢none : (e : Raised) → some e ≢ none
some≢none e h = ground (arith, h)

nil-Fresh : (ks : List String) → Fresh [] ks
nil-Fresh [] = tt
nil-Fresh (k ∷ ks) = (refl, nil-Fresh ks)

module _ (driver_start : Option Raised) (create_pool : String → Option Raised) where
  abbrev pub keys : PoolManager → List String
  keys m = map (λ e. e.0) m.clients

  init_rest_failed :
      (sources : List SourceConfig) (m : PoolManager) (e : Raised)
      → (init_rest driver_start create_pool sources (m, some e)).1 ≡ some e
  unfolding init_rest
  init_rest_failed [] m e = refl
  init_rest_failed (source ∷ sources) m e = refl

  -- Either starting a source's client fails, or the client comes after those before it.
  init_source-new :
      (source : SourceConfig) (m : PoolManager)
      → lookup source.key m.clients ≡ none
      → ((n : PoolManager) × (e : Raised) × (init_source driver_start create_pool source m
            ≡ (n, some e)))
        ⊎ ((c : Client) × (n : PoolManager) × (init_source driver_start create_pool source m
              ≡ (n, none))
            × (n.clients ≡ insert source.key c m.clients))
  unfolding init_source has_source add_client
  init_source-new source m h =
      let named : PoolManager = record {
        clients = m.clients;
        meta = insert source.key source.dialect m.meta;
      } in
      elim (sum_cases (create_client driver_start create_pool source.key source.dialect)) [
        | inl (e, failed) ↦ inl (named, e, rw h (rw failed refl))
        | inr (c, started) ↦ inr (
          c,
          record named { clients = insert source.key c m.clients },
          rw h (rw started refl),
          refl,
        )
      ]

  init_rest-keys :
      (sources : List SourceConfig) (m : PoolManager)
      → Fresh m.clients (map (λ s. s.key) sources)
      → NoRepeat (map (λ s. s.key) sources)
      → (init_rest driver_start create_pool sources (m, none)).1 ≡ none
      → keys (init_rest driver_start create_pool sources (m, none)).0
        ≡ keys m ++ map (λ s. s.key) sources
  unfolding init_rest
  init_rest-keys [] m f d h = sym (append-nil (keys m))
  init_rest-keys (source ∷ sources) m (fresh, f) (new, d) h =
      elim (init_source-new source m fresh) [
        | inl (n, e, failed) ↦ absurd (
            some≢none e (
              sym (init_rest_failed sources n e)
              ∙ subst (λ p. (init_rest driver_start create_pool sources p).1 ≡ none) failed h))
        | inr (c, n, started, grown) ↦
            let names = map (λ s. s.key) sources in
            let later : keys (init_rest driver_start create_pool sources (n, none)).0
                ≡ keys n ++ names =
              init_rest-keys sources n
                (subst (λ cs. Fresh cs names) (sym grown)
                  (insert-Fresh source.key c m.clients names new f))
                d
                (subst (λ p. (init_rest driver_start create_pool sources p).1 ≡ none) started h) in
            ap (λ p. keys (init_rest driver_start create_pool sources p).0) started
            ∙ (later
                ∙ (ap (λ cs. map (λ e. e.0) cs ++ names) grown
                    ∙ (ap (λ ks. ks ++ names) (keys-insert source.key c m.clients fresh)
                        ∙ append_assoc (keys m) (source.key ∷ []) names)))
      ]

  -- Where the configuration's check of the keys passes and starting the pools does not fail, there is
  -- exactly one client for each source, in the order of the sources.
  pub unique_keys_started :
      (sources : List SourceConfig)
      → unique_keys (map (λ s. s.key) sources) ≡ true
      → (init driver_start create_pool sources no_pools).1 ≡ none
      → keys (init driver_start create_pool sources no_pools).0 ≡ map (λ s. s.key) sources
  unfolding init unique_keys
  unique_keys_started sources unique started =
      let names = map (λ s. s.key) sources in
      init_rest-keys sources no_pools (nil-Fresh names)
        (set_size-NoRepeat names (==→eq (set_size names) (length names) unique)) started
