-- ===== src/Database/Pools.antt =====
-- src/infrastructure/database/connection/pool.manager.ts, with the placeholder of
-- clients/not-implemented.client.ts. The clients and what is known of the sources are dictionaries in
-- the order of insertion. What the driver answers is a parameter: whether it starts, whether a pool is
-- created, and what each attempt to ping a source, and each closing of a client, throws.
pub mod Reports
pub mod Pinging
pub mod Starting
mod Tests
use nestjs_ddd_lean.Prelude.{
  ℕ, zero, suc, ◌+◌, Bool, true, false, not, Option, none, some, List, [], ◌∷◌, ◌++◌, map, String,
  if◌then◌else◌, or_else, is_some, is_empty, filter, has, lookup, insert, ◌⊎◌, inl, inr,
}
use nestjs_ddd_lean.Errors.{
  ◌<>◌, HealthFailure, AppError, infrastructure_error, unexpected_error, database_connection_error,
  database_execution_error, unknown_source_key_error, unsupported_dialect_error,
  aggregate_db_health_error, app_message,
}
use nestjs_ddd_lean.Database.Mapper.{Raised, app_error, driver_error, other_error, raised_message}

pub data Dialect : Type 0 where
  oracle postgres mysql mariadb mssql sqlite : Dialect

unfoldable pub dialect_name : Dialect → String
dialect_name oracle = "oracle"
dialect_name postgres = "postgres"
dialect_name mysql = "mysql"
dialect_name mariadb = "mariadb"
dialect_name mssql = "mssql"
dialect_name sqlite = "sqlite"

pub record SourceConfig : Type 0 where
  pub key : String
  pub dialect : Dialect

-- The two classes of clients.
pub data Client : Type 0 where
  oracle_client : Client
  not_implemented_client : (source_key dialect : String) → Client

abbrev pub implemented : Client → Bool
implemented oracle_client = true
implemented (not_implemented_client k d) = false

-- `NotImplementedClient`: `withConnection`, `transaction` and `ping` all reject with this.
unfoldable pub placeholder_error : String → String → Raised
placeholder_error source_key dialect = app_error (unsupported_dialect_error source_key dialect none)

pub record PoolManager : Type 0 where
  pub clients : List (String × Client)
  pub meta : List (String × Dialect)

abbrev pub no_pools : PoolManager
no_pools = record { clients = []; meta = [] }

unfoldable pub has_source : String → PoolManager → Bool
has_source k m = is_some (lookup k m.clients)

abbrev or_unknown : {A : Type 0} → String → Option A → Raised ⊎ A
or_unknown k none = inl (app_error (unknown_source_key_error k none))
or_unknown k (some a) = inr a

-- `client`, which `withConnection` and `transaction` call first
unfoldable pub client : String → PoolManager → Raised ⊎ Client
client k m = or_unknown k (lookup k m.clients)

unfoldable pub get_dialect : String → PoolManager → Raised ⊎ Dialect
get_dialect k m = or_unknown k (lookup k m.meta)

module _ (driver_start : Option Raised) (create_pool : String → Option Raised) where
  -- The client of a source that has none yet.
  unfoldable pub create_client : String → Dialect → Raised ⊎ Client
  create_client key oracle = elim driver_start [
    | some e ↦ inl e
    | none ↦ elim (create_pool key) [
      | some e ↦ inl (app_error (database_connection_error key (some (raised_message e))))
      | none ↦ inr oracle_client
    ]
  ]
  create_client key d = inr (not_implemented_client key (dialect_name d))

  unfoldable pub add_client :
      PoolManager → SourceConfig → Raised ⊎ Client → PoolManager × Option Raised
  add_client m source (inl e) = (m, some e)
  add_client m source (inr c) =
      (record { clients = insert source.key c m.clients; meta = m.meta }, none)

  -- One turn of the loop of `init`.
  unfoldable pub init_source : SourceConfig → PoolManager → PoolManager × Option Raised
  init_source source m =
      if has_source source.key m
      then (m, none)
      else add_client
          (record { clients = m.clients; meta = insert source.key source.dialect m.meta }) source
          (create_client source.key source.dialect)

  -- `init`: the first failure ends it.
  unfoldable pub init_rest :
      List SourceConfig → PoolManager × Option Raised → PoolManager × Option Raised
  init_rest [] r = r
  init_rest (source ∷ sources) (m, some e) = (m, some e)
  init_rest (source ∷ sources) (m, none) = init_rest sources (init_source source m)

  unfoldable pub init : List SourceConfig → PoolManager → PoolManager × Option Raised
  init sources m = init_rest sources (m, none)

-- `errorMessage`: the message, with the cause's where there is one.
abbrev cause_of : AppError → Option String
cause_of (infrastructure_error m c) = c
cause_of (database_connection_error k c) = c
cause_of (database_execution_error k t c n) = c
cause_of (unknown_source_key_error k c) = c
cause_of (unsupported_dialect_error k d c) = c
cause_of e = none

unfoldable pub error_message : Raised → String
error_message (app_error e) = elim (cause_of e) [
  | none ↦ app_message e
  | some c ↦ app_message e <> ": " <> c
]
error_message (driver_error e) = e.message
error_message (other_error m) = m

-- What came of pinging one source: the attempt that succeeded, or the last error.
pub data Pinged : Type 0 where
  ok : (attempt : ℕ) → Pinged
  exhausted : Option Raised → Pinged

pub data Level : Type 0 where
  info warn error : Level

pub record Line : Type 0 where
  pub level : Level
  pub source_key : String
  pub message : String

module _ (answers : String → ℕ → Option Raised) (latency : String → ℕ) (retries : ℕ) where
  -- The `while` loop, with the attempts that are left; `last` is `lastError`. The delays between the
  -- attempts are left out.
  unfoldable pub ping_loop : String → (left attempt : ℕ) → Option Raised → Pinged
  ping_loop key zero attempt last = exhausted last
  ping_loop key (suc left) attempt last = elim (answers key (suc attempt)) [
    | none ↦ ok (suc attempt)
    | some e ↦ ping_loop key left (suc attempt) (some e)
  ]

  abbrev dialect_of : PoolManager → String → String
  dialect_of m key = elim (lookup key m.meta) [ none ↦ "unknown" | some d ↦ dialect_name d ]

  abbrev last_message : Option Raised → String
  last_message none = "undefined"
  last_message (some e) = error_message e

  unfoldable pub report :
      PoolManager → String → (required : Bool) → Pinged → List HealthFailure × List Line
  report m key required (ok attempt) =
      ([], record { level = info; source_key = key; message = "db.ping.success" } ∷ [])
  report m key required (exhausted last) =
      let failure : HealthFailure = record {
        source_key = key;
        dialect = dialect_of m key;
        message = last_message last;
        attempts = retries + 1;
        latency_ms = some (latency key);
      } in
      if required
      then (
        failure ∷ [],
        record { level = error; source_key = key; message = "db.ping.fail [required]" } ∷ [],
      )
      else ([], record { level = warn; source_key = key; message = "db.ping.fail [optional]" } ∷ [])

  -- One source of `pingAll`: a placeholder is not pinged.
  unfoldable pub ping_source :
      PoolManager → (required : Bool) → String × Client → List HealthFailure × List Line
  ping_source m required (key, oracle_client) =
      report m key required (ping_loop key (suc retries) 0 none)
  ping_source m required (key, not_implemented_client k d) =
      if required
      then (
        record {
          source_key = key;
          dialect = dialect_of m key;
          message = "dialect \"" <> dialect_of m key <> "\" is not implemented";
          attempts = 0;
          latency_ms = none;
        }
            ∷ [],
        [],
      )
      else (
        [],
        record { level = warn; source_key = key; message = "db.ping.skipped [not implemented]" }
            ∷ [],
      )

  -- `reqSet`: the given set, unless it is missing or empty.
  unfoldable pub required_keys : Option (List String) → PoolManager → List String
  required_keys given m =
      if is_empty (or_else given [])
      then map (λ e. e.0) (filter (λ e. implemented e.1) m.clients)
      else or_else given []

  abbrev pub ping_each :
      PoolManager → List String → List (String × Client) → List HealthFailure × List Line
  ping_each m required [] = ([], [])
  ping_each m required (e ∷ es) =
      let first = ping_source m (has e.0 required) e in
      let rest = ping_each m required es in (first.0 ++ rest.0, first.1 ++ rest.1)

  -- `pingAll`. The placeholders come first; the order in which the pings, which run side by side under
  -- the semaphore, push their failures is taken to be that of the sources.
  unfoldable pub ping_all : Option (List String) → PoolManager → Option AppError × List Line
  ping_all given m =
      let required = required_keys given m in
      let placeholders = ping_each m required (filter (λ e. not (implemented e.1)) m.clients) in
      let pinged = ping_each m required (filter (λ e. implemented e.1) m.clients) in
      let failures = placeholders.0 ++ pinged.0 in
      (
        if is_empty failures then none else some (aggregate_db_health_error failures),
        placeholders.1 ++ pinged.1,
      )
