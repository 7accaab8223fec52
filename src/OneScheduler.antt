-- ===== src/OneScheduler.antt =====
-- Where the primary and the scheduler meet: the worker that is forked with CLUSTER_LEADER=true is the
-- one whose scheduler registers the jobs (cluster-primary.ts, job-scheduler.ts).
mod Tests
use nestjs_ddd_lean.Prelude.{
  ℕ, suc, ◌≤◌, ◌≡◌, Bool, true, false, not, List, [], ◌∷◌, String, arith, if◌then◌else◌, length,
  filter, is_empty, Bool-cases, inl, inr,
}
use nestjs_ddd_lean.Cluster.{ClusterApi, Config, Worker, Event, primary}
use nestjs_ddd_lean.Cluster.Leader.{HasUniqueIds, leaders}
use nestjs_ddd_lean.Cluster.Startup.{leader_unique}
use nestjs_ddd_lean.Scheduler.{Job, Settings, CronRegistry, on_application_bootstrap}
use nestjs_ddd_lean.Scheduler.Laws.{bootstrap_registers, runs_jobs}

length-filter_mono {ℓ} :
    {A : Type ℓ} (p q : A → Bool) (xs : List A)
    → ((x : A) → p x ≡ true → q x ≡ true)
    → length (filter p xs) ≤ length (filter q xs)
length-filter_mono p q [] h = omega arith
length-filter_mono p q (x ∷ xs) h = ground (arith, length-filter_mono p q xs h, h x)

-- A worker of cluster mode reads CLUSTER_LEADER from the environment it was forked with.
abbrev pub worker_settings : Bool → String → Worker → Settings
worker_settings enabled zone w = record {
  enabled = enabled;
  clustered = true;
  is_leader = w.leader_env;
  timezone = zone;
}

pub schedules : CronRegistry → Bool → String → List Job → Worker → Bool
schedules registry enabled zone jobs w = not (
    is_empty (on_application_bootstrap registry (worker_settings enabled zone w) jobs).0.registered)

schedules→leader :
    (registry : CronRegistry) (enabled : Bool) (zone : String) (jobs : List Job) (w : Worker)
    → schedules registry enabled zone jobs w ≡ true
    → w.leader_env ≡ true
unfolding schedules
schedules→leader registry enabled zone jobs w h = elim (Bool-cases w.leader_env) [
  | inl leads ↦ leads
  | inr follows ↦
      let config = worker_settings enabled zone w in
      let none_registered =
        ((bootstrap_registers registry config jobs).1 (ground (arith, follows))).0 in
      absurd (ground (arith, none_registered))
]

-- In cluster mode, whatever workers exit and are replaced, at most one live worker has registered the
-- service's jobs, so no job is run by two workers. The ids that `cluster.fork` gives are taken to be
-- distinct.
pub one_scheduler :
    (api : ClusterApi)
    → HasUniqueIds api
    → (config : Config) (cpu_count : ℕ) (es : List Event) (registry : CronRegistry) (enabled : Bool)
      (zone : String) (jobs : List Job)
    → length (filter (schedules registry enabled zone jobs) (primary api config cpu_count es).live)
      ≤ 1
one_scheduler api unique config cpu_count es registry enabled zone jobs =
    let live = (primary api config cpu_count es).live in
    omega (
      arith,
      length-filter_mono (schedules registry enabled zone jobs) (λ w. w.leader_env) live
          (schedules→leader registry enabled zone jobs),
      (leader_unique api unique config cpu_count es).0,
    )
