-- ===== src/Cluster.antt =====
-- The primary process of cluster mode: src/infrastructure/cluster/cluster-primary.ts with
-- resolve-worker-count.util.ts, cluster-boot-rails.ts and cluster-api.ts.
-- `startPrimary` registers an exit listener and two signal handlers; each is a function from the
-- state to the new state and the effects in their order. Node's `cluster.fork` is the parameter
-- `ClusterApi`; times are milliseconds, read by `Date.now()` and passed in by the event.
pub mod Leader
pub mod Startup
mod Tests
pub mod Kills
pub mod Draining
pub mod Drain
pub mod Window
pub mod Respawn
use nestjs_ddd_lean.Prelude.{
  ℕ, zero, suc, ◌+◌, ◌*◌, max, Bool, true, false, not, Option, none, some, List, [], ◌∷◌, ◌++◌, map,
  String, if◌then◌else◌, ltb, leb, ◌==◌, filter, any, length, is_empty,
}

-- What the n-th call of `cluster.fork` gives: `worker.id` and `worker.process.pid`.
pub record ClusterApi : Type 0 where
  pub fork_id : ℕ → ℕ
  pub fork_pid : ℕ → Option ℕ

-- `leader_env` is the CLUSTER_LEADER that the worker was forked with.
pub record Worker : Type 0 where
  pub id : ℕ
  pub pid : Option ℕ
  pub leader_env : Bool

pub data Signal : Type 0 where
  sigterm sigint sigkill : Signal

pub record Config : Type 0 where
  pub sources : List (String × ℕ)  -- key, poolMax
  pub workers : ℕ
  pub respawn : Bool
  pub respawn_max_per_minute : ℕ
  pub drain_delay_ms : ℕ
  pub force_after_ms : ℕ
  pub job_drain_ms : ℕ

-- The logger's calls.
pub data Line : Type 0 where
  pool_capacity : String → ℕ → ℕ → ℕ → Line
  worker_started : ℕ → Option ℕ → Bool → Line
  leader_elected : Option ℕ → ℕ → Line
  worker_exited : ℕ → Option ℕ → ℕ → Option String → Bool → Line
  leader_lost : ℕ → Line
  rate_limited : ℕ → Line
  shutdown_started : Signal → ℕ → Line
  drain_timeout : List ℕ → ℕ → Line
  shutdown_finished : Signal → Line

pub data Effect : Type 0 where
  logged : Line → Effect
  forked : Worker → Effect
  killed : ℕ → Signal → Effect
  process_exit : ℕ → Effect

-- The closure's variables. `waiting` holds the signal while `shutdown` awaits its race, which is
-- when `notifyDrained` is set and pending; `forks` counts the calls of `fork`.
pub record Primary : Type 0 where
  pub live : List Worker
  pub respawn_timestamps : List ℕ
  pub leader_id : Option ℕ
  pub shutting_down : Bool
  pub waiting : Option Signal
  pub exited : Bool
  pub forks : ℕ

abbrev pub shutdown_slack_ms : ℕ
shutdown_slack_ms = 2000

abbrev pub respawn_window_ms : ℕ
respawn_window_ms = 60000

-- Both counts are integers, so `Math.floor` changes nothing.
unfoldable pub resolve_worker_count : ℕ → ℕ → ℕ
resolve_worker_count configured cpu_count =
    max 1 (if ltb 0 configured then configured else cpu_count)

unfoldable pub run_cluster_boot_rails : List (String × ℕ) → ℕ → List Effect
run_cluster_boot_rails sources worker_count =
    map (λ s. logged (pool_capacity s.0 s.1 worker_count (s.1 * worker_count))) sources

-- `liveWorkers.set(worker.id, worker)` and `liveWorkers.delete(id)`.
pub has_worker : ℕ → List Worker → Bool
has_worker i = any (λ w. w.id == i)

pub set_worker : Worker → List Worker → List Worker
set_worker w ws =
    if has_worker w.id ws then map (λ v. if v.id == w.id then w else v) ws else ws ++ w ∷ []

pub delete_worker : ℕ → List Worker → List Worker
delete_worker i = filter (λ w. not (w.id == i))

abbrev pub is_leader : Option ℕ → ℕ → Bool
is_leader none i = false
is_leader (some l) i = i == l

module _ (api : ClusterApi) where
  abbrev pub new_worker : ℕ → Bool → Worker
  new_worker n leader = record { id = api.fork_id n; pid = api.fork_pid n; leader_env = leader }

  pub fork_worker : Bool → Primary → Primary × List Effect
  fork_worker leader s =
      let w = new_worker s.forks leader in
      (
        record s {
          live = set_worker w s.live;
          leader_id = if leader then some w.id else s.leader_id;
          forks = suc s.forks;
        },
        forked w ∷ logged (worker_started w.id w.pid leader) ∷ [],
      )

  -- The rounds `index, index + 1, …` of the loop that forks the pool.
  pub fork_pool : ℕ → ℕ → Primary → Primary × List Effect
  fork_pool zero index s = (s, [])
  fork_pool (suc left) index s =
      let (s', fx) = fork_worker (index == 0) s in
      let (s'', gx) = fork_pool left (suc index) s' in (s'', fx ++ gx)

  abbrev pub no_workers : Primary
  no_workers = record {
    live = [];
    respawn_timestamps = [];
    leader_id = none;
    shutting_down = false;
    waiting = none;
    exited = false;
    forks = 0;
  }

  pub start_primary : Config → ℕ → Primary × List Effect
  start_primary config cpu_count =
      let count = resolve_worker_count config.workers cpu_count in
      let (s, fx) = fork_pool count 0 no_workers in
      (
        s,
        run_cluster_boot_rails config.sources count
            ++ (fx ++ logged (leader_elected s.leader_id count) ∷ []),
      )

pub data Outcome : Type 0 where
  drained timed_out : Outcome

abbrev pub wait_ms : Config → ℕ
wait_ms c = c.drain_delay_ms + c.force_after_ms + c.job_drain_ms + shutdown_slack_ms

abbrev pub ids : List Worker → List ℕ
ids = map (λ w. w.id)

-- The `if` of a timed-out drain: SIGKILL for every worker that is left.
pub stragglers : Config → Outcome → List Worker → List Effect
stragglers config drained live = []
stragglers config timed_out live =
    if is_empty live
    then []
    else logged (drain_timeout (ids live) (wait_ms config)) ∷ map (λ w. killed w.id sigkill) live

-- What `shutdown` does once its race is decided.
pub finish_shutdown : Config → Outcome → Signal → Primary → Primary × List Effect
finish_shutdown config outcome signal s = (
  record s { waiting = none; exited = true },
  stragglers config outcome s.live ++ (logged (shutdown_finished signal) ∷ process_exit 0 ∷ []),
)

-- `if (liveWorkers.size === 0) notifyDrained?.()`, with the continuation that it lets run: the
-- exit handler returns right after it, since `waiting` is set only while shutting down.
pub notify_drained : Config → Primary → Primary × List Effect
notify_drained config s =
    if is_empty s.live
    then elim s.waiting [ none ↦ (s, []) | some signal ↦ finish_shutdown config drained signal s ]
    else (s, [])

-- `leaderId = undefined` with its warning, where the leader is not replaced.
pub lose_leader : Bool → ℕ → Primary → Primary × List Effect
lose_leader true i s = (record s { leader_id = none }, logged (leader_lost i) ∷ [])
lose_leader false i s = (s, [])

-- The `while` that shifts the timestamps before `now() - RESPAWN_WINDOW_MS`; the test is written
-- with the sum, since `-` on ℕ stops at 0.
pub shift_expired : ℕ → List ℕ → List ℕ
shift_expired now [] = []
shift_expired now (t ∷ ts) =
    if ltb (t + respawn_window_ms) now then shift_expired now ts else t ∷ ts

-- `now` is the first reading of the clock and `later` the one that is pushed.
pub respawn_worker : ClusterApi → Config → ℕ → Bool → ℕ → ℕ → ℕ → Primary → Primary × List Effect
respawn_worker api config count was_leader i now later s =
    let kept = shift_expired now s.respawn_timestamps in
    let shifted = record s { respawn_timestamps = kept } in
    let (lost, fx) = lose_leader was_leader i shifted in
    let pushed = record s { respawn_timestamps = kept ++ later ∷ [] } in
    let (forked_it, gx) = fork_worker api was_leader pushed in
    let elected = logged (leader_elected (some (api.fork_id s.forks)) count) ∷ [] in
    if leb config.respawn_max_per_minute (length kept)
    then (lost, logged (rate_limited config.respawn_max_per_minute) ∷ fx)
    else (forked_it, gx ++ (if was_leader then elected else []))

-- `onExit`. The first effect is the warning, which is logged before anything else.
pub on_exit :
    ClusterApi
    → Config
    → ℕ
    → (i : ℕ) → Option ℕ
    → ℕ
    → Option String
    → ℕ
    → ℕ
    → Primary
    → Primary × List Effect
on_exit api config count i pid code signal now later s =
    let was_leader = is_leader s.leader_id i in
    let removed = record s { live = delete_worker i s.live } in
    let (s', fx) =
      if s.shutting_down
      then notify_drained config removed
      else if config.respawn
      then respawn_worker api config count was_leader i now later removed
      else lose_leader was_leader i removed in
    (s', logged (worker_exited i pid code signal was_leader) ∷ fx)

-- `shutdown`, up to its `await` or, with no worker left, to its end.
pub shutdown : Config → Signal → Primary → Primary × List Effect
shutdown config signal s =
    let begun = record s { shutting_down = true } in
    let opening =
      logged (shutdown_started signal (length s.live)) ∷ map (λ w. killed w.id signal) s.live in
    let (ended, fx) = finish_shutdown config drained signal begun in
    if s.shutting_down
    then (s, [])
    else if is_empty s.live
    then (ended, opening ++ fx)
    else (record begun { waiting = some signal }, opening)

-- The delay of the race is over.
pub drain_elapsed : Config → Primary → Primary × List Effect
drain_elapsed config s = elim s.waiting [
  | none ↦ (s, [])
  | some signal ↦ finish_shutdown config timed_out signal s
]

-- What the runtime delivers to the primary. SIGKILL cannot be handled, and only SIGTERM and SIGINT
-- are registered.
pub data Event : Type 0 where
  worker_exits : (i : ℕ) → Option ℕ → (code : ℕ) → Option String → (now later : ℕ) → Event
  signalled : Signal → Event
  elapsed : Event

pub handle : ClusterApi → Config → ℕ → Event → Primary → Primary × List Effect
handle api config count (worker_exits i pid code signal now later) s =
    on_exit api config count i pid code signal now later s
handle api config count (signalled sigkill) s = (s, [])
handle api config count (signalled signal) s = shutdown config signal s
handle api config count elapsed s = drain_elapsed config s

-- A process that has exited handles nothing.
pub step : ClusterApi → Config → ℕ → Event → Primary → Primary × List Effect
step api config count e s = if s.exited then (s, []) else handle api config count e s

pub run : ClusterApi → Config → ℕ → List Event → Primary → Primary × List Effect
run api config count [] s = (s, [])
run api config count (e ∷ es) s =
    let (s', fx) = step api config count e s in
    let (s'', gx) = run api config count es s' in (s'', fx ++ gx)

-- The primary after start-up and any events.
pub primary : ClusterApi → Config → ℕ → List Event → Primary
primary api config cpu_count es =
    (run api config (resolve_worker_count config.workers cpu_count) es
      (start_primary api config cpu_count).0).0
