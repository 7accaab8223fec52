-- ===== src/Database/Queries.antt =====
-- What is logged of a query (`withExecuteDefaults` of
-- src/infrastructure/database/clients/oracle.client.ts). A text is the list of its code units, the
-- driver's answer is a parameter.
mod Lines
use nestjs_ddd_lean.Prelude.{
  ℕ, zero, suc, Bool, true, false, ◌&&◌, Option, none, some, List, [], ◌∷◌, ◌++◌, String, ltb, leb,
  if◌then◌else◌, ◌⊎◌,
}
use nestjs_ddd_lean.Database.Text.{trim}

pub data Level : Type 0 where
  warn debug : Level

-- A line: 'db.query.slow' or 'db.query'. It has no binds.
pub record Line : Type 0 where
  pub level : Level
  pub source_key : String
  pub tag : Option String
  pub latency_ms : ℕ
  pub sql : Option (List ℕ)

abbrev pub sql_log_max : ℕ
sql_log_max = 500

-- `s.slice(0, n)`
abbrev pub slice : ℕ → List ℕ → List ℕ
slice zero s = []
slice (suc n) [] = []
slice (suc n) (c ∷ s) = c ∷ slice n s

abbrev sql_text : List ℕ → List ℕ
sql_text sql = slice sql_log_max (trim sql)

-- The settings of the source that matter for a query.
pub record QuerySource : Type 0 where
  pub key : String
  pub slow_query_ms : ℕ
  pub log_sql : Bool

-- The `finally` block.
unfoldable pub query_lines :
    QuerySource → Option String → (latency_ms : ℕ) → (sql : List ℕ) → List Line
query_lines source tag latency_ms sql =
    if ltb 0 source.slow_query_ms && leb source.slow_query_ms latency_ms
    then record {
      level = warn;
      source_key = source.key;
      tag = tag;
      latency_ms = latency_ms;
      sql = if source.log_sql then some (sql_text sql) else none;
    }
      ∷ []
    else if source.log_sql
    then record {
      level = debug;
      source_key = source.key;
      tag = tag;
      latency_ms = latency_ms;
      sql = some (sql_text sql);
    }
      ∷ []
    else []

-- Options by name: `{ ...defaults, ...options }` is a concatenation, the last binding of a name counts.
abbrev pub Options : Type 0
Options = List (String × String)

-- `execute`: what the driver answers, or throws, and the lines, which are written in either case.
unfoldable pub execute :
    {E R : Type 0}
    → (driver : List ℕ → Options → E ⊎ R) → (defaults options : Options) → QuerySource
    → Option String
    → (latency_ms : ℕ) → (sql : List ℕ) → (E ⊎ R) × List Line
execute driver defaults options source tag latency_ms sql =
    (driver sql (defaults ++ options), query_lines source tag latency_ms sql)
