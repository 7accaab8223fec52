-- ===== src/Http/Health/Ready.antt =====
-- When a process is ready (health.controller.ts), over the pool manager's report (pool.manager.ts).
use nestjs_ddd_lean.Prelude.{
  ◌≡◌, refl, subst, Bool, true, false, not, ◌&&◌, Option, none, some, List, [], ◌∷◌, map, all, All,
  String, if◌then◌else◌, if_ind, is_some, ◌⊎◌, inl, inr, arith,
}
use nestjs_ddd_lean.Database.Mapper.{Raised}
use nestjs_ddd_lean.Database.Pools.{
  PoolManager, SourceConfig, Client, oracle_client, not_implemented_client, get_dialect, Dialect,
  init, no_pools,
}
use nestjs_ddd_lean.Database.Pools.Reports.{SourceHealth, health, health_each, health_add}
use nestjs_ddd_lean.Database.Pools.Starting.{health_reports}
use nestjs_ddd_lean.Http.Health.{shown_source, sources_ok, judge, ready, status_of, reported}

-- A client that can be pinged answers.
abbrev pub answers_ping : (String → Option Raised) → String × Client → Bool
answers_ping answers (key, oracle_client) = not (is_some (answers key))
answers_ping answers (key, not_implemented_client k d) = true

sources_ok-shown :
    (hide_errors : Bool) (hs : List SourceHealth)
    → sources_ok (map (shown_source hide_errors) hs) ≡ sources_ok hs
unfolding shown_source
sources_ok-shown hide_errors [] = refl
sources_ok-shown hide_errors (h ∷ hs) = ground (arith, sources_ok-shown hide_errors hs)

-- The sources of a report are fine exactly if a test holds.
abbrev OkIf : Bool → Raised ⊎ List SourceHealth → Type 0
OkIf b (inl e) = Unit
OkIf b (inr hs) = sources_ok hs ≡ b

health_add-OkIf :
    (answers : String → Option Raised) (k : String) (c : Client) (d : Raised ⊎ Dialect)
    (rest : Raised ⊎ List SourceHealth) (b : Bool)
    → OkIf b rest
    → OkIf (answers_ping answers (k, c) && b) (health_add answers k c d rest)
health_add-OkIf answers k c (inl e) rest b h = tt
health_add-OkIf answers k c (inr d) (inl e) b h = tt
health_add-OkIf answers k oracle_client (inr d) (inr hs) b h = ground (arith, h)
health_add-OkIf answers k (not_implemented_client j n) (inr d) (inr hs) b h = h

health_each-OkIf :
    (answers : String → Option Raised) (m : PoolManager) (es : List (String × Client))
    → OkIf (all (answers_ping answers) es) (health_each answers m es)
health_each-OkIf answers m [] = refl
health_each-OkIf answers m ((k, c) ∷ es) =
    health_add-OkIf answers k c (get_dialect k m) (health_each answers m es)
      (all (answers_ping answers) es) (health_each-OkIf answers m es)

hidden_errors : (hs : List SourceHealth) → All (λ h. h.error ≡ none) (map (shown_source true) hs)
unfolding shown_source
hidden_errors [] = tt
hidden_errors (h ∷ hs) = (refl, hidden_errors hs)

judge_status :
    (hide_errors : Bool) (hs : List SourceHealth) (b : Bool)
    → sources_ok hs ≡ b
    → status_of (judge hide_errors (inr hs)) ≡ some (if b then 200 else 503)
unfolding judge status_of
judge_status hide_errors hs b h = ground (arith, h, sources_ok-shown hide_errors hs)

judge_hides : (hs : List SourceHealth) → All (λ h. h.error ≡ none) (reported (judge true (inr hs)))
unfolding judge reported
judge_hides hs =
    if_ind (λ r. All (λ h. h.error ≡ none) (reported r)) (sources_ok (map (shown_source true) hs))
      (λ t. hidden_errors hs) (λ f. hidden_errors hs)

-- Once the pools are started from a configuration, even if starting one of them failed, a process is
-- ready, with status 200, exactly if it is not shutting down and every source that is implemented
-- answers its ping, and else replies 503; in production the report has no error's text.
pub ready_iff :
    (driver_start : Option Raised) (create_pool : String → Option Raised)
    (sources : List SourceConfig) (answers : String → Option Raised) (down hide_errors : Bool)
    → let m = (init driver_start create_pool sources no_pools).0 in
      (status_of (ready answers down hide_errors m)
        ≡ some (if not down && all (answers_ping answers) m.clients then 200 else 503))
      × All (λ h. h.error ≡ none) (reported (ready answers down true m))
unfolding ready status_of reported health
ready_iff driver_start create_pool sources answers true hide_errors = (refl, tt)
ready_iff driver_start create_pool sources answers false hide_errors =
    let m = (init driver_start create_pool sources no_pools).0 in
    let (hs, answered, keys) = health_reports answers driver_start create_pool sources in
    let b = all (answers_ping answers) m.clients in
    let fine : OkIf b (inr hs) = subst (OkIf b) answered (health_each-OkIf answers m m.clients) in
    (rw answered (judge_status hide_errors hs b fine), rw answered (judge_hides hs))
