-- ===== src/Database/Pools/Tests.antt =====
-- A database that answers the second attempt, beside a placeholder that nobody requires.
use nestjs_ddd_lean.Prelude.{
  ℕ, zero, suc, ◌+◌, ◌≤◌, ◌≡◌, ◌↔◌, ◌⊎◌, inr, map, refl, true, false, Option, none, some, List, [],
  ◌∷◌, String, All, has,
}
use nestjs_ddd_lean.Database.Mapper.{Raised, other_error}
use nestjs_ddd_lean.Database.Pools.{
  PoolManager, SourceConfig, oracle, postgres, oracle_client, not_implemented_client, implemented,
  no_pools, init, init_rest, init_source, add_client, create_client, has_source, dialect_name,
  required_keys, ping_loop, report, ping_source, ping_all,
}
use nestjs_ddd_lean.Database.Pools.Reports.{SourceHealth, health}
use nestjs_ddd_lean.Database.Pools.Pinging.{asked, ping_all_passes}
use nestjs_ddd_lean.Database.Pools.Starting.{health_reports}

abbrev sources : List SourceConfig
sources =
    record { key = "main"; dialect = oracle } ∷ record { key = "old"; dialect = postgres } ∷ []

abbrev pools : PoolManager
pools = record {
  clients = ("main", oracle_client) ∷ ("old", not_implemented_client "old" "postgres") ∷ [];
  meta = ("main", oracle) ∷ ("old", postgres) ∷ [];
}

init_two : init none (λ k. none) sources no_pools ≡ (pools, none)
unfolding init init_rest init_source add_client create_client has_source dialect_name
init_two = refl

abbrev answers : String → ℕ → Option Raised
answers key zero = none
answers key (suc zero) = some (other_error "down")
answers key (suc (suc n)) = none

abbrev latency : String → ℕ
latency key = 1

ping_two : (ping_all answers latency 2 none pools).0 ≡ none
unfolding ping_all required_keys ping_source report ping_loop
ping_two = refl

-- A required source that is not configured does not fail the check.
unconfigured_required : (ping_all answers latency 2 (some ("nope" ∷ [])) pools).0 ≡ none
unfolding ping_all required_keys ping_source report ping_loop
unconfigured_required = refl

ping_all_passes_example :
    ((ping_all answers latency 2 none pools).0 ≡ none)
    ↔ All
        (λ e.
          (has e.0 (asked none pools) ≡ false)
          ⊎ ((implemented e.1 ≡ true)
              × (attempt : ℕ) × (1 ≤ attempt)
              × (attempt ≤ 2 + 1)
              × (answers e.0 attempt ≡ none)))
        pools.clients
ping_all_passes_example = ping_all_passes answers latency 2 pools none

health_reports_example :
    let m = (init none (λ k. none) sources no_pools).0 in
    (hs : List SourceHealth) × (health (λ k. none) m ≡ inr hs)
    × (map (λ h. h.source_key) hs ≡ map (λ e. e.0) m.clients)
health_reports_example = health_reports (λ k. none) none (λ k. none) sources
