-- ===== src/Database/Pools/Reports.antt =====
-- The health report of the pool manager and its end (pool.manager.ts, `health` and `onModuleDestroy`).
use nestjs_ddd_lean.Prelude.{
  Bool, true, false, not, Option, none, some, List, [], ◌∷◌, String, is_some, map, filter, ℕ,
  if◌then◌else◌, ◌⊎◌, inl, inr,
}
use nestjs_ddd_lean.Database.Mapper.{Raised}
use nestjs_ddd_lean.Database.Pools.{
  PoolManager, Client, oracle_client, not_implemented_client, implemented, Dialect, dialect_name,
  get_dialect, error_message, info, warn, Line,
}

-- `SourceHealth`, without the latency and the pool's counters.
pub record SourceHealth : Type 0 where
  pub source_key : String
  pub dialect : String
  pub implemented : Bool
  pub ok : Bool
  pub error : Option String

module _ (answers : String → Option Raised) where
  abbrev pub health_of : String → String → Client → SourceHealth
  health_of key dialect (not_implemented_client k d) = record {
    source_key = key;
    dialect = dialect;
    implemented = false;
    ok = false;
    error = none;
  }
  health_of key dialect oracle_client = record {
    source_key = key;
    dialect = dialect;
    implemented = true;
    ok = not (is_some (answers key));
    error = elim (answers key) [ none ↦ none | some e ↦ some (error_message e) ];
  }

  abbrev pub health_add :
      String → Client → Raised ⊎ Dialect → Raised ⊎ List SourceHealth → Raised ⊎ List SourceHealth
  health_add key c (inl e) rest = inl e
  health_add key c (inr d) (inl e) = inl e
  health_add key c (inr d) (inr hs) = inr (health_of key (dialect_name d) c ∷ hs)

  abbrev pub health_each : PoolManager → List (String × Client) → Raised ⊎ List SourceHealth
  health_each m [] = inr []
  health_each m ((key, c) ∷ es) = health_add key c (get_dialect key m) (health_each m es)

  -- `health`
  unfoldable pub health : PoolManager → Raised ⊎ List SourceHealth
  health m = health_each m m.clients

  abbrev closed_lines : List (String × Client) → List Line
  closed_lines [] = []
  closed_lines ((key, not_implemented_client k d) ∷ es) =
      record { level = info; source_key = key; message = "db.pool.closed" } ∷ closed_lines es
  closed_lines ((key, oracle_client) ∷ es) = elim (answers key) [
    | none ↦ record { level = info; source_key = key; message = "db.pool.closed" } ∷ closed_lines es
    | some e ↦
        record { level = warn; source_key = key; message = "db.pool.close.failed" }
        ∷ closed_lines es
  ]

  -- `onModuleDestroy`, the answers being those of the closing: a failure is only logged.
  unfoldable pub on_module_destroy : PoolManager → PoolManager × List Line
  on_module_destroy m = (record { clients = []; meta = m.meta }, closed_lines m.clients)

-- `PoolStats`, as the driver's properties give them, or as its statistics do.
pub data PoolStats : Type 0 where
  counters : (opened in_use pool_min pool_max : ℕ) → PoolStats
  statistics : String → PoolStats

-- What the driver's pool has.
pub record DriverPool : Type 0 where
  pub connections_open : ℕ
  pub connections_in_use : ℕ
  pub pool_min : ℕ
  pub pool_max : ℕ
  pub get_statistics : String

-- `OracleClient.stats`
unfoldable pub stats : (enable_statistics : Bool) → DriverPool → PoolStats
stats enable_statistics pool =
    if not enable_statistics
    then counters pool.connections_open pool.connections_in_use pool.pool_min pool.pool_max
    else statistics pool.get_statistics

-- `poolStats`: a placeholder has none.
unfoldable pub pool_stats :
    (stats_of : String → PoolStats) → PoolManager → List (String × PoolStats)
pool_stats stats_of m = map (λ e. (e.0, stats_of e.0)) (filter (λ e. implemented e.1) m.clients)
