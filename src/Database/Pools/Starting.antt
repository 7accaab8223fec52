-- ===== src/Database/Pools/Starting.antt =====
-- What holds of the clients after `init` (pool.manager.ts).
use nestjs_ddd_lean.Prelude.{
  ◌≡◌, refl, sym, ap, ◌∙◌, true, Bool-cases, Option, none, some, ◌⊎◌, inl, inr, List, [], ◌∷◌,
  String, All, All-mono, map, Option-cases, lookup, insert, is_some, lookup-insert, eq_iff, eq_refl,
  if_ind, if◌then◌else◌, ◌===◌, arith,
}
use nestjs_ddd_lean.Database.Mapper.{Raised}
use nestjs_ddd_lean.Database.Pools.{
  Client, PoolManager, SourceConfig, has_source, add_client, init_source, init_rest, init, no_pools,
  Dialect, oracle_client, not_implemented_client, get_dialect, dialect_name,
}
use nestjs_ddd_lean.Database.Pools.Reports.{SourceHealth, health_of, health_each, health}

-- Each client's source has an entry that says its dialect.
abbrev IsKnown : PoolManager → Type 0
IsKnown m = (k : String) → is_some (lookup k m.clients) ≡ true → is_some (lookup k m.meta) ≡ true

is_some-insert :
    {V : Type 0} (k j : String) (v : V) (m : List (String × V))
    → is_some (lookup j (insert k v m)) ≡ (if k === j then true else is_some (lookup j m))
is_some-insert k j v m = ap is_some (lookup-insert k j v m) ∙ ground arith

module _ (driver_start : Option Raised) (create_pool : String → Option Raised) where
  add_client-IsKnown :
      (m : PoolManager) (source : SourceConfig) (c : Raised ⊎ Client)
      → IsKnown m
      → is_some (lookup source.key m.meta) ≡ true
      → IsKnown (add_client driver_start create_pool m source c).0
  unfolding add_client
  add_client-IsKnown m source (inl e) h k = h
  add_client-IsKnown m source (inr c) h k = λ j there. elim (Bool-cases (source.key === j)) [
    | inl same ↦ ap (λ x. is_some (lookup x m.meta)) (sym ((eq_iff source.key j).0 same)) ∙ k
    | inr differ ↦ h j (ground (arith, differ, there, is_some-insert source.key j c m.clients))
  ]

  init_source-IsKnown :
      (source : SourceConfig) (m : PoolManager)
      → IsKnown m
      → IsKnown (init_source driver_start create_pool source m).0
  unfolding init_source
  init_source-IsKnown source m h =
      if_ind (λ (r : PoolManager × Option Raised). IsKnown r.0) (has_source source.key m) (λ t. h)
        (λ f.
          add_client-IsKnown
            (record { clients = m.clients; meta = insert source.key source.dialect m.meta }) source
            _
            (λ k there.
              ground (arith, is_some-insert source.key k source.dialect m.meta, h k there))
            (ground (
              arith,
              is_some-insert source.key source.key source.dialect m.meta,
              eq_refl source.key,
            )))

  init_rest-IsKnown :
      (sources : List SourceConfig) (r : PoolManager × Option Raised)
      → IsKnown r.0
      → IsKnown (init_rest driver_start create_pool sources r).0
  unfolding init_rest
  init_rest-IsKnown [] r h = h
  init_rest-IsKnown (source ∷ sources) (m, some e) h = h
  init_rest-IsKnown (source ∷ sources) (m, none) h =
      init_rest-IsKnown sources (init_source driver_start create_pool source m)
        (init_source-IsKnown source m h)

lookup_own : {V : Type 0} (m : List (String × V)) → All (λ e. is_some (lookup e.0 m) ≡ true) m
lookup_own [] = tt
lookup_own ((k, v) ∷ m) = (
  ground (arith, eq_refl k),
  All-mono (λ e. is_some (lookup e.0 m) ≡ true) (λ e. is_some (lookup e.0 ((k, v) ∷ m)) ≡ true) m
      (λ e h. ground (arith, h)) (lookup_own m),
)

-- The dialect of a source that is known.
known_dialect :
    (k : String) (m : PoolManager)
    → is_some (lookup k m.meta) ≡ true
    → (d : Dialect) × (get_dialect k m ≡ inr d)
unfolding get_dialect
known_dialect k m h = elim (Option-cases (lookup k m.meta)) [
  | inl e ↦ absurd (ground (arith, h, e))
  | inr (d, e) ↦ (d, rw e refl)
]

module _ (answers : String → Option Raised) where
  health_each-total :
      (m : PoolManager) (es : List (String × Client))
      → All (λ e. is_some (lookup e.0 m.meta) ≡ true) es
      → (hs : List SourceHealth) × (health_each answers m es ≡ inr hs)
        × (map (λ h. h.source_key) hs ≡ map (λ e. e.0) es)
  health_each-total m [] h = ([], refl, refl)
  health_each-total m ((k, oracle_client) ∷ es) (h, hs) =
      let (d, found) = known_dialect k m h in
      let (rest, answered, keys) = health_each-total m es hs in
      (
        health_of answers k (dialect_name d) oracle_client ∷ rest,
        rw found (rw answered refl),
        ap (λ ks. k ∷ ks) keys,
      )
  health_each-total m ((k, not_implemented_client j n) ∷ es) (h, hs) =
      let (d, found) = known_dialect k m h in
      let (rest, answered, keys) = health_each-total m es hs in
      (
        health_of answers k (dialect_name d) (not_implemented_client j n) ∷ rest,
        rw found (rw answered refl),
        ap (λ ks. k ∷ ks) keys,
      )

  -- Once the pools are started from a configuration, even if starting one of them failed, the health
  -- report never throws for want of a source's dialect: it has one entry for each client, in their
  -- order, whatever the pings answer.
  pub health_reports :
      (driver_start : Option Raised) (create_pool : String → Option Raised)
      (sources : List SourceConfig)
      → let m = (init driver_start create_pool sources no_pools).0 in
        (hs : List SourceHealth) × (health answers m ≡ inr hs)
        × (map (λ h. h.source_key) hs ≡ map (λ e. e.0) m.clients)
  unfolding health init
  health_reports driver_start create_pool sources =
      let m = (init driver_start create_pool sources no_pools).0 in
      let known : IsKnown m =
        init_rest-IsKnown driver_start create_pool sources (no_pools, none) (λ k h. h) in
      health_each-total m m.clients (
        All-mono (λ e. is_some (lookup e.0 m.clients) ≡ true)
          (λ e. is_some (lookup e.0 m.meta) ≡ true) m.clients (λ e h. known e.0 h)
          (lookup_own m.clients))
