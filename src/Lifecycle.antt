-- ===== src/Lifecycle.antt =====
-- Graceful shutdown: src/infrastructure/lifecycle/graceful-shutdown.ts and shutdown-state.ts, as the
-- process's signal handler calls it (src/main.ts, `installShutdownHandlers`), and
-- src/infrastructure/cluster/release-worker-channel.util.ts.
-- `runGracefulShutdown` is a state machine: each `await` is a phase, and what settles it an event.
pub mod Order
mod Tests
use nestjs_ddd_lean.Prelude.{ℕ, Bool, true, false, not, ◌&&◌, List, [], ◌∷◌, ◌++◌, if◌then◌else◌}

-- Which of the optional parts the caller gave.
pub record Options : Type 0 where
  pub drain_delay_ms : ℕ
  pub force_after_ms : ℕ
  pub can_close_idle : Bool  -- server.closeIdleConnections
  pub can_close_all : Bool  -- server.closeAllConnections
  pub has_drain_jobs : Bool
  pub connected : Bool  -- process.connected, with a `disconnect` function

-- Where the one run that `begin` let through stands; `closing` keeps whether the force timer is
-- still armed.
pub data Phase : Type 0 where
  serving : Phase
  delaying : Phase
  closing : (armed : Bool) → Phase
  draining_jobs : Phase
  closing_app : Phase
  done : Phase
  rejected : (in_close_app : Bool) → Phase  -- `drainJobs` or `closeApp` rejected

pub data Effect : Type 0 where
  began : Effect  -- the shutdown flag goes up: readiness fails from here on
  ignored : Effect  -- 'shutdown.signal.ignored'
  log_started : ℕ → Effect
  log_draining : ℕ → Effect
  timer_armed : ℕ → Effect
  idle_closed : Effect
  server_close : Effect
  log_forced : ℕ → Effect
  all_closed : Effect
  timer_cleared : Effect
  jobs_drain : Effect
  app_close : Effect
  log_finished : Effect
  channel_released : Effect

-- `ShutdownState`: `begin` tells whether the flag was down.
pub begin : Bool → Bool × Bool
begin shutting_down = if shutting_down then (true, false) else (true, true)

pub record Process : Type 0 where
  pub shutting_down : Bool
  pub phase : Phase

-- SIGTERM or SIGINT; the ends of `delay`, of the force timer, of `server.close`, of `drainJobs` and of
-- `closeApp`. The last two may reject.
pub data Event : Type 0 where
  signalled : Event
  delay_over : Event
  force_over : Event
  server_closed : Event
  jobs_drained : (fulfilled : Bool) → Event
  app_closed : (fulfilled : Bool) → Event

abbrev pub when {ℓ} : {A : Type ℓ} → Bool → A → List A
when true a = a ∷ []
when false a = []

-- The start of `runGracefulShutdown`, up to its first `await`.
pub on_signal : Options → Process → Process × List Effect
on_signal o p =
    let (flag, first) = begin p.shutting_down in
    if first
    then (
      record { shutting_down = flag; phase = delaying },
      began ∷ log_started o.drain_delay_ms ∷ [],
    )
    else (record p { shutting_down = flag }, ignored ∷ [])

-- The rest of it, after each `await`.
pub resume : Options → Event → Phase → Phase × List Effect
resume o delay_over delaying = (
  closing true,
  log_draining o.force_after_ms
      ∷ timer_armed o.force_after_ms
      ∷ (when o.can_close_idle idle_closed ++ server_close ∷ []),
)
resume o force_over (closing true) =
    (closing false, log_forced o.force_after_ms ∷ when o.can_close_all all_closed)
resume o server_closed (closing armed) =
    if o.has_drain_jobs
    then (draining_jobs, timer_cleared ∷ jobs_drain ∷ [])
    else (closing_app, timer_cleared ∷ app_close ∷ [])
resume o (jobs_drained true) draining_jobs = (closing_app, app_close ∷ [])
resume o (jobs_drained false) draining_jobs = (rejected false, [])
resume o (app_closed true) closing_app = (done, log_finished ∷ when o.connected channel_released)
resume o (app_closed false) closing_app = (rejected true, [])
resume o e phase = (phase, [])

pub step : Options → Event → Process → Process × List Effect
step o signalled p = on_signal o p
step o e p = let (phase, fx) = resume o e p.phase in (record p { phase = phase }, fx)

pub run : Options → List Event → Process → Process × List Effect
run o [] p = (p, [])
run o (e ∷ es) p = let (p', fx) = step o e p in let (p'', gx) = run o es p' in (p'', fx ++ gx)

abbrev pub up : Process
up = record { shutting_down = false; phase = serving }
