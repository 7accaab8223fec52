-- ===== src/Http/Health.antt =====
-- src/interface/http/controllers/health.controller.ts. The report of the sources is the pool manager's
-- (Database.Pools), and an exception is what the exception filter catches.
pub mod Ready
mod Tests
use nestjs_ddd_lean.Prelude.{
  ℕ, Bool, true, false, not, Option, none, some, List, [], ◌∷◌, map, filter, all, String,
  if◌then◌else◌, ◌⊎◌, inl, inr,
}
use nestjs_ddd_lean.Database.Mapper.{Raised, app_error, driver_error, other_error}
use nestjs_ddd_lean.Database.Pools.{PoolManager}
use nestjs_ddd_lean.Database.Pools.Reports.{SourceHealth, health}

-- What `ready` comes to: the report, a `ServiceUnavailableException` with its code and, unless the
-- process is shutting down, the report; or what the report itself throws.
pub data Readiness : Type 0 where
  ready_ok : List SourceHealth → Readiness
  shutting_down : Readiness
  not_ready : List SourceHealth → Readiness
  raised : Raised → Readiness

-- `{ ...source, error: hideErrors ? undefined : source.error }`
unfoldable pub shown_source : Bool → SourceHealth → SourceHealth
shown_source hide_errors s = record s { error = if hide_errors then none else s.error }

abbrev pub sources_ok : List SourceHealth → Bool
sources_ok hs = all (λ h. h.ok) (filter (λ h. h.implemented) hs)

unfoldable pub judge : Bool → Raised ⊎ List SourceHealth → Readiness
judge hide_errors (inl e) = raised e
judge hide_errors (inr hs) =
    let sources = map (shown_source hide_errors) hs in
    if sources_ok sources then ready_ok sources else not_ready sources

-- `ready`
unfoldable pub ready :
    (answers : String → Option Raised) → (down hide_errors : Bool) → PoolManager → Readiness
ready answers down hide_errors m =
    if down then shutting_down else judge hide_errors (health answers m)

-- The status of the reply: a `ServiceUnavailableException` has 503.
unfoldable pub status_of : Readiness → Option ℕ
status_of (ready_ok hs) = some 200
status_of shutting_down = some 503
status_of (not_ready hs) = some 503
status_of (raised e) = none

-- What the client reads of the sources.
unfoldable pub reported : Readiness → List SourceHealth
reported (ready_ok hs) = hs
reported shutting_down = []
reported (not_ready hs) = hs
reported (raised e) = []
