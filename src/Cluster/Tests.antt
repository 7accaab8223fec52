-- ===== src/Cluster/Tests.antt =====
-- The primary on concrete inputs: three workers, the leader crashing twice, and a shutdown.
use nestjs_ddd_lean.Prelude.{
  ℕ, ◌+◌, ◌≤◌, ◌≡◌, refl, true, false, some, none, List, [], ◌∷◌, arith, length,
}
use nestjs_ddd_lean.Cluster.{
  ClusterApi, Config, Primary, Event, worker_exits, signalled, elapsed, sigterm, sigint, ids,
  has_worker, set_worker, delete_worker, fork_worker, fork_pool, start_primary, finish_shutdown,
  stragglers, notify_drained, lose_leader, shift_expired, respawn_worker, on_exit, handle, step,
  run, primary, resolve_worker_count,
}
use nestjs_ddd_lean.Cluster.Leader.{HasUniqueIds, leaders}
use nestjs_ddd_lean.Cluster.Startup.{start_primary_pool, leader_unique}
use nestjs_ddd_lean.Cluster.Respawn.{respawn_times, respawn_rate}
use nestjs_ddd_lean.Cluster.Window.{Spaced}
use nestjs_ddd_lean.Cluster.Kills.{kills, all_signalled}
use nestjs_ddd_lean.Cluster.Draining.{Drained}
use nestjs_ddd_lean.Cluster.Drain.{shutdown_once, shutdown_run}

abbrev counting : ClusterApi
counting = record { fork_id = λ n. n + 1; fork_pid = λ n. some (n + 100) }

counting-HasUniqueIds : HasUniqueIds counting
counting-HasUniqueIds m n e = omega arith

abbrev config : Config
config = record {
  sources = ("core", 10) ∷ [];
  workers = 0;
  respawn = true;
  respawn_max_per_minute = 2;
  drain_delay_ms = 5000;
  force_after_ms = 10000;
  job_drain_ms = 10000;
}

abbrev crash : ℕ → ℕ → Event
crash i now = worker_exits i none 1 none now now

abbrev crashes : List Event
crashes = crash 1 1000 ∷ crash 4 2000 ∷ crash 2 3000 ∷ crash 3 70000 ∷ []

abbrev started : Primary
started = record {
  live = [];
  respawn_timestamps = [];
  leader_id = none;
  shutting_down = false;
  waiting = none;
  exited = false;
  forks = 0;
}

-- The third crash within the minute is not replaced, and the fourth, a minute later, is.
crashes_run :
    let s = primary counting config 3 crashes in
    (ids s.live ≡ 5 ∷ 6 ∷ []) × (s.leader_id ≡ some 5) × (s.respawn_timestamps ≡ 70000 ∷ [])
unfolding primary run step handle on_exit respawn_worker lose_leader shift_expired fork_worker
    fork_pool set_worker has_worker delete_worker start_primary resolve_worker_count notify_drained
    finish_shutdown stragglers
crashes_run = (refl, refl, refl)

start_primary_pool_example : (start_primary counting config 3).0.leader_id ≡ some 1
start_primary_pool_example = (start_primary_pool counting counting-HasUniqueIds config 3).4

leader_unique_example : length (leaders (primary counting config 3 crashes).live) ≤ 1
leader_unique_example = (leader_unique counting counting-HasUniqueIds config 3 crashes).0

respawn_rate_example : Spaced 2 (
    respawn_times counting config
      (resolve_worker_count 0 3)
      crashes
      (start_primary counting config 3).0)
respawn_rate_example = respawn_rate counting config 3 crashes (omega arith)

abbrev pair : Primary
pair = record started {
  live =
      record { id = 1; pid = some 100; leader_env = true }
      ∷ record { id = 2; pid = some 101; leader_env = false }
      ∷ [];
  leader_id = some 1;
  forks = 2;
}

shutdown_once_example :
    kills (step counting config 2 (signalled sigterm) pair).1 ≡ all_signalled sigterm pair.live
shutdown_once_example = (shutdown_once counting config 2 sigterm sigint pair tt tt refl refl).0

shutdown_run_example :
    let s = (step counting config 2 (signalled sigterm) pair).0 in
    let es = crash 2 10 ∷ elapsed ∷ [] in
    Drained counting config 2 es s (run counting config 2 es s).0 (run counting config 2 es s).1
shutdown_run_example =
    shutdown_run counting config 2 sigterm (crash 2 10 ∷ elapsed ∷ []) pair tt refl refl
