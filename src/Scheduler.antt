-- ===== src/Scheduler.antt =====
-- Scheduled jobs: src/interface/scheduler/job-scheduler.ts. Each registered job has a runner
-- (Runner.antt); a promise that is awaited is a flag of the state, and what settles it is an event.
-- Nest's `SchedulerRegistry` and the `cron` package are the parameter `CronRegistry`.
pub mod Runner
pub mod Laws
pub mod Draining
mod Tests
use nestjs_ddd_lean.Prelude.{
  ℕ, zero, suc, Bool, true, false, not, ◌&&◌, List, [], ◌∷◌, ◌++◌, map, String, if◌then◌else◌,
  length, filter, any, is_empty,
}
use Runner.{RunnerEvent, ticks, settles, run_step, RunLine}

pub record Job : Type 0 where
  pub name : String
  pub cron_time : String

-- What `ConfigPort` answers for 'scheduler.enabled', 'cluster.enabled', 'cluster.isLeader' and
-- 'scheduler.timezone'.
pub record Settings : Type 0 where
  pub enabled : Bool
  pub clustered : Bool
  pub is_leader : Bool
  pub timezone : String

-- Whether `new CronJob(...)` and `addCronJob` accept a name and an expression, given the names that
-- are registered already; where they do not, they throw.
pub record CronRegistry : Type 0 where
  pub accepts : List String → String → String → Bool

-- One element of `registered`: its cron job fires while `cron_on`, `running` is the runner's
-- `isRunning`, and `awaited` says that `stop` took it into its snapshot.
pub record Registered : Type 0 where
  pub name : String
  pub cron_on : Bool
  pub running : Bool
  pub awaited : Bool

pub record Scheduler : Type 0 where
  pub registered : List Registered
  pub stopping : Bool  -- `stop` awaits its snapshot

pub data Effect : Type 0 where
  disabled : ℕ → Bool → Effect  -- the number of jobs, and whether the reason is 'not-leader'
  cron_started : String → String → String → Effect
  runner_line : String → RunLine → Effect
  cron_stopped : String → Effect
  drained : List String → Effect
  drain_timeout : List String → Effect

abbrev pub names : List Registered → List String
names = map (λ r. r.name)

-- The loop of `onApplicationBootstrap`; the last part tells whether it came to its end.
pub register_jobs : CronRegistry → String → List Job → Scheduler → Scheduler × List Effect × Bool
register_jobs registry zone [] s = (s, [], true)
register_jobs registry zone (j ∷ js) s =
    let entry : Registered = record {
      name = j.name;
      cron_on = true;
      running = false;
      awaited = false;
    } in
    let (s', fx, done) =
      register_jobs registry zone js (record s { registered = s.registered ++ entry ∷ [] }) in
    if registry.accepts (names s.registered) j.name j.cron_time
    then (s', cron_started j.name j.cron_time zone ∷ fx, done)
    else (s, [], false)

abbrev pub no_jobs : Scheduler
no_jobs = record { registered = []; stopping = false }

pub on_application_bootstrap : CronRegistry → Settings → List Job → Scheduler × List Effect × Bool
on_application_bootstrap registry config jobs =
    if not config.enabled
    then (no_jobs, disabled (length jobs) false ∷ [], true)
    else if config.clustered && not config.is_leader
    then (no_jobs, disabled (length jobs) true ∷ [], true)
    else register_jobs registry config.timezone jobs no_jobs

-- One runner's event, at its place in `registered`. A cron job that is stopped does not tick.
pub run_at : ℕ → RunnerEvent → List Registered → List Registered × List Effect
run_at i e [] = ([], [])
run_at zero e (r ∷ rs) =
    let (running, lines) = run_step r.cron_on e r.running in
    (record r { running = running } ∷ rs, map (runner_line r.name) lines)
run_at (suc i) e (r ∷ rs) = let (rs', fx) = run_at i e rs in (r ∷ rs', fx)

abbrev pub awaited : List Registered → List Registered
awaited = filter (λ r. r.awaited)

abbrev pub busy : List Registered → List Registered
busy = filter (λ r. r.running)

-- `Promise.all(running.map(... whenIdle()))` settles once every runner of the snapshot is idle.
pub settle_drain : Scheduler → Scheduler × List Effect
settle_drain s =
    if s.stopping && is_empty (busy (awaited s.registered))
    then (record s { stopping = false }, drained (names (awaited s.registered)) ∷ [])
    else (s, [])

halt : Registered → Registered
halt r = record r { cron_on = false; awaited = r.running }

-- `stop`, up to its wait.
pub stop : Scheduler → Scheduler × List Effect
stop s =
    let halted = map halt s.registered in
    (
      record { registered = halted; stopping = not (is_empty (busy s.registered)) },
      map (λ r. cron_stopped r.name) s.registered,
    )

-- The timer of `withTimeout`.
pub stop_timeout : Scheduler → Scheduler × List Effect
stop_timeout s =
    if s.stopping
    then (record s { stopping = false }, drain_timeout (names (busy (awaited s.registered))) ∷ [])
    else (s, [])

pub data Event : Type 0 where
  runner : ℕ → RunnerEvent → Event
  timeout : Event

pub step : Event → Scheduler → Scheduler × List Effect
step (runner i e) s =
    let (rs, fx) = run_at i e s.registered in
    let (s', gx) = settle_drain (record s { registered = rs }) in (s', fx ++ gx)
step timeout s = stop_timeout s

pub run : List Event → Scheduler → Scheduler × List Effect
run [] s = (s, [])
run (e ∷ es) s = let (s', fx) = step e s in let (s'', gx) = run es s' in (s'', fx ++ gx)
