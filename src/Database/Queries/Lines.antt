-- ===== src/Database/Queries/Lines.antt =====
-- How much of a query is logged (oracle.client.ts).
use nestjs_ddd_lean.Prelude.{
  ℕ, zero, suc, ◌≡◌, ◌≤◌, refl, sym, Bool, true, false, ◌&&◌, Option, none, some, List, [], ◌∷◌,
  String, All, length, ltb, leb, if◌then◌else◌, if_ind, is_some, ◌⊎◌, arith,
}
use nestjs_ddd_lean.Database.Text.{trim}
use nestjs_ddd_lean.Database.Queries.{
  Line, QuerySource, sql_log_max, slice, query_lines, Options, execute,
}

length-slice-le : (n : ℕ) (s : List ℕ) → length (slice n s) ≤ n
length-slice-le zero s = omega arith
length-slice-le (suc n) [] = omega arith
length-slice-le (suc n) (c ∷ s) = omega (arith, length-slice-le n s)

abbrev sql_length : Option (List ℕ) → ℕ
sql_length none = 0
sql_length (some s) = length s

-- A line may show a query only where the source logs SQL, and at most 500 code units of it.
abbrev Shows : Bool → Line → Type 0
Shows log_sql l = (is_some l.sql ≡ log_sql) × (sql_length l.sql ≤ 500)

shown_if :
    (log_sql : Bool) (t : List ℕ)
    → length t ≤ 500
    → let shown = if log_sql then some t else none in
      (is_some shown ≡ log_sql) × (sql_length shown ≤ 500)
shown_if true t h = (refl, h)
shown_if false t h = (refl, omega arith)

abbrev AtMostOne : Bool → List Line → Type 0
AtMostOne log_sql lines = (length lines ≤ 1) × All (Shows log_sql) lines

-- Whatever the driver answers or throws, a query leaves at most one line, which has its text exactly
-- where the source logs SQL, cut to 500 code units.
pub query_logged :
    {E R : Type 0} (driver : List ℕ → Options → E ⊎ R) (defaults options : Options)
    (source : QuerySource) (tag : Option String) (latency_ms : ℕ) (sql : List ℕ)
    → let lines = (execute driver defaults options source tag latency_ms sql).1 in
      (length lines ≤ 1) × All (Shows source.log_sql) lines
unfolding execute query_lines
query_logged driver defaults options source tag latency_ms sql =
    let short = length-slice-le sql_log_max (trim sql) in
    if_ind (AtMostOne source.log_sql)
      (ltb 0 source.slow_query_ms && leb source.slow_query_ms latency_ms)
      (λ slow. (omega arith, (shown_if source.log_sql (slice sql_log_max (trim sql)) short, tt)))
      (λ quick.
        if_ind (AtMostOne source.log_sql) source.log_sql
          (λ on. (omega arith, ((sym on, short), tt))) (λ off. (omega arith, tt)))
