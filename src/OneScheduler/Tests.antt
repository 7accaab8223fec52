-- ===== src/OneScheduler/Tests.antt =====
-- Two jobs, three workers, and a leader that crashes.
use nestjs_ddd_lean.Prelude.{◌+◌, ◌≤◌, true, none, List, [], ◌∷◌, arith, length, filter}
use nestjs_ddd_lean.Cluster.{ClusterApi, Config, Event, worker_exits, primary}
use nestjs_ddd_lean.Scheduler.{Job, CronRegistry}
use nestjs_ddd_lean.OneScheduler.{schedules, one_scheduler}

abbrev counting : ClusterApi
counting = record { fork_id = λ n. n + 1; fork_pid = λ n. none }

abbrev config : Config
config = record {
  sources = [];
  workers = 3;
  respawn = true;
  respawn_max_per_minute = 2;
  drain_delay_ms = 0;
  force_after_ms = 0;
  job_drain_ms = 0;
}

abbrev accepting : CronRegistry
accepting = record { accepts = λ names name cron. true }

abbrev jobs : List Job
jobs =
    record { name = "tickets.closeStale"; cron_time = "0 2 * * *" }
    ∷ record { name = "reports.send"; cron_time = "0 3 * * *" }
    ∷ []

abbrev leader_crash : List Event
leader_crash = worker_exits 1 none 1 none 1000 1000 ∷ []

one_scheduler_example :
    length
      (filter (schedules accepting true "UTC" jobs) (primary counting config 8 leader_crash).live)
    ≤ 1
one_scheduler_example =
    one_scheduler counting (λ m n e. omega arith) config 8 leader_crash accepting true "UTC" jobs
