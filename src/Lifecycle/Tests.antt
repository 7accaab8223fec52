-- ===== src/Lifecycle/Tests.antt =====
-- A shutdown with two signals, where the server closes before the force timer.
use nestjs_ddd_lean.Prelude.{◌≡◌, refl, Bool, true, false, not, List, [], ◌∷◌}
use nestjs_ddd_lean.Lifecycle.{
  Options, began, ignored, log_started, log_draining, timer_armed, idle_closed, server_close,
  timer_cleared, jobs_drain, app_close, log_finished, signalled, delay_over, server_closed,
  jobs_drained, app_closed, Event, begin, on_signal, resume, step, run, up,
}
use nestjs_ddd_lean.Lifecycle.Order.{own, script, is_serving, shutdown_order}

abbrev options : Options
options = record {
  drain_delay_ms = 5000;
  force_after_ms = 10000;
  can_close_idle = true;
  can_close_all = true;
  has_drain_jobs = true;
  connected = false;
}

abbrev events : List Event
events =
    signalled ∷ signalled ∷ delay_over ∷ server_closed ∷ jobs_drained true ∷ app_closed true ∷ []

timely_shutdown :
    (run options events up).1
    ≡ began
      ∷ log_started 5000
      ∷ ignored
      ∷ log_draining 10000
      ∷ timer_armed 10000
      ∷ idle_closed
      ∷ server_close
      ∷ timer_cleared
      ∷ jobs_drain
      ∷ app_close
      ∷ log_finished
      ∷ []
unfolding run step on_signal begin resume
timely_shutdown = refl

shutdown_order_example :
    let (p, fx) = run options events up in
    (forced : Bool) × (own fx ≡ script options forced p.phase)
    × (p.shutting_down ≡ not (is_serving p.phase))
shutdown_order_example = shutdown_order options events
