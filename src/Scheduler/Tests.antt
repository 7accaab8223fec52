-- ===== src/Scheduler/Tests.antt =====
-- The scheduler on concrete inputs.
use nestjs_ddd_lean.Prelude.{◌+◌, ◌≡◌, refl, true, false, List, [], ◌∷◌}
use nestjs_ddd_lean.Scheduler.{
  Job, Settings, CronRegistry, Scheduler, runner, timeout, drain_timeout, runner_line, names,
  register_jobs, on_application_bootstrap, run_at, settle_drain, halt, stop, stop_timeout, step,
  run,
}
use nestjs_ddd_lean.Scheduler.Runner.{
  ticks, settles, finished, run_step, run_lines, runs_balance, count, is_start, is_end, flag,
}
use nestjs_ddd_lean.Scheduler.Laws.{bootstrap_registers}
use nestjs_ddd_lean.Scheduler.Draining.{starts, stop_ends}

abbrev two_jobs : List Job
two_jobs =
    record { name = "a"; cron_time = "* * * * *" }
    ∷ record { name = "b"; cron_time = "0 2 * * *" }
    ∷ []

abbrev accepting : CronRegistry
accepting = record { accepts = λ names name cron. true }

abbrev leading : Settings
leading = record { enabled = true; clustered = true; is_leader = true; timezone = "UTC" }

bootstrap_registers_example :
    names (on_application_bootstrap accepting leading two_jobs).0.registered ≡ "a" ∷ "b" ∷ []
unfolding on_application_bootstrap register_jobs
bootstrap_registers_example = ((bootstrap_registers accepting leading two_jobs).0 refl refl).0

runs_balance_example :
    let (r, ls) = run_lines (ticks ∷ ticks ∷ settles false ∷ ticks ∷ []) false in
    flag false + count is_start ls ≡ count is_end ls + flag r
runs_balance_example = (runs_balance (ticks ∷ ticks ∷ settles false ∷ ticks ∷ []) false).0

abbrev both_running : Scheduler
both_running = record {
  registered =
      record { name = "a"; cron_on = true; running = true; awaited = false }
      ∷ record { name = "b"; cron_on = true; running = true; awaited = false }
      ∷ [];
  stopping = false;
}

-- One of the two ends in time; the other is named in the timeout.
stop-run :
    (run (runner 0 (settles true) ∷ timeout ∷ []) (stop both_running).0).1
    ≡ runner_line "a" finished ∷ drain_timeout ("b" ∷ []) ∷ []
unfolding run step run_at run_step settle_drain stop stop_timeout halt
stop-run = refl

stop_ends_example : starts (run (runner 0 ticks ∷ timeout ∷ []) (stop both_running).0).1 ≡ 0
stop_ends_example = (stop_ends (runner 0 ticks ∷ timeout ∷ []) both_running).0
