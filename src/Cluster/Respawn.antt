-- ===== src/Cluster/Respawn.antt =====
-- The cap on respawns over the rolling window (cluster-primary.ts, `onExit`).
use nestjs_ddd_lean.Prelude.{
  ℕ, zero, suc, ◌≤◌, ◌<◌, ◌≡◌, refl, ap, ◌∙◌, Bool, true, false, Option, List, [], ◌∷◌, ◌++◌,
  append-nil, append_assoc, String, arith, if◌then◌else◌, ltb, leb, ◌==◌, length,
  get_elem?-lt_length, if_ind,
}
use nestjs_ddd_lean.Cluster.{
  Effect, ClusterApi, Config, Signal, sigterm, sigint, sigkill, Primary, Event, worker_exits,
  signalled, elapsed, is_leader, delete_worker, fork_worker, fork_pool, no_workers, start_primary,
  lose_leader, shift_expired, notify_drained, respawn_worker, on_exit, shutdown, drain_elapsed,
  handle, step, finish_shutdown, resolve_worker_count,
}
use nestjs_ddd_lean.Cluster.Window.{Spaced, Capped, later_clock, shift-Capped, push-Capped}

-- The time of the respawn that an exit led to, if it led to one.
respawned : Event → Primary → Primary → List ℕ
respawned (worker_exits i pid code signal now later) s s' =
    if ltb s.forks s'.forks then later ∷ [] else []
respawned (signalled signal) s s' = []
respawned elapsed s s' = []

-- The times of the respawns that a run makes, oldest first.
pub respawn_times : ClusterApi → Config → ℕ → List Event → Primary → List ℕ
respawn_times api config count [] s = []
respawn_times api config count (e ∷ es) s =
    let s' = (step api config count e s).0 in
    respawned e s s' ++ respawn_times api config count es s'

-- The clock never goes back, from `clock` on.
abbrev pub IsMonotone : ℕ → List Event → Type 0
IsMonotone clock [] = Unit
IsMonotone clock (worker_exits i pid code signal now later ∷ es) =
    (clock ≤ now) × (now ≤ later) × IsMonotone later es
IsMonotone clock (signalled signal ∷ es) = IsMonotone clock es
IsMonotone clock (elapsed ∷ es) = IsMonotone clock es

module _ (api : ClusterApi) (config : Config) (count : ℕ) where
  -- What an exit leaves: the queue as it was or shifted, and no fork, or one more time and a fork.
  data Moved (now later : ℕ) (s s' : Primary) : Type 0 where
    same : s'.respawn_timestamps ≡ s.respawn_timestamps → s'.forks ≡ s.forks → Moved now later s s'
    shifted :
        s'.respawn_timestamps ≡ shift_expired now s.respawn_timestamps
        → s'.forks ≡ s.forks
        → Moved now later s s'
    pushed :
        s'.respawn_timestamps ≡ shift_expired now s.respawn_timestamps ++ later ∷ []
        → length (shift_expired now s.respawn_timestamps) < config.respawn_max_per_minute
        → s'.forks ≡ suc s.forks
        → Moved now later s s'

  lose_leader_same :
      (was : Bool) (i : ℕ) (s : Primary)
      → ((lose_leader was i s).0.respawn_timestamps ≡ s.respawn_timestamps)
        × ((lose_leader was i s).0.forks ≡ s.forks)
  unfolding lose_leader
  lose_leader_same true i s = (refl, refl)
  lose_leader_same false i s = (refl, refl)

  respawn_worker-Moved :
      (i now later : ℕ) (s t : Primary) (was : Bool)
      → t.respawn_timestamps ≡ s.respawn_timestamps
      → t.forks ≡ s.forks
      → Moved now later s (respawn_worker api config count was i now later t).0
  unfolding respawn_worker fork_worker
  respawn_worker-Moved i now later s t was ts fs =
      let kept = shift_expired now t.respawn_timestamps in
      let (queue, forks) = lose_leader_same was i (record t { respawn_timestamps = kept }) in
      let kept_is = ap (shift_expired now) ts in
      if_ind (λ (r : Primary × List Effect). Moved now later s r.0)
        (leb config.respawn_max_per_minute (length kept))
        (λ full. shifted (queue ∙ kept_is) (forks ∙ fs))
        (λ room. pushed (ap (λ q. q ++ later ∷ []) kept_is) (ground (arith, kept_is)) (ap suc fs))

  notify_drained_same :
      (s : Primary)
      → ((notify_drained config s).0.respawn_timestamps ≡ s.respawn_timestamps)
        × ((notify_drained config s).0.forks ≡ s.forks)
  unfolding notify_drained finish_shutdown
  notify_drained_same s = (ground arith, ground arith)

  on_exit-Moved :
      (i : ℕ) (pid : Option ℕ) (code : ℕ) (signal : Option String) (now later : ℕ) (s : Primary)
      → Moved now later s (on_exit api config count i pid code signal now later s).0
  unfolding on_exit
  on_exit-Moved i pid code signal now later s =
      let removed = record s { live = delete_worker i s.live } in
      let was = is_leader s.leader_id i in
      let (queue, forks) = notify_drained_same removed in
      let (queue', forks') = lose_leader_same was i removed in
      if_ind (λ (r : Primary × List Effect). Moved now later s r.0) s.shutting_down
        (λ down. same queue forks)
        (λ up.
          if_ind (λ (r : Primary × List Effect). Moved now later s r.0) config.respawn
            (λ on. respawn_worker-Moved i now later s removed was refl refl)
            (λ off. same queue' forks'))

  on_exit_exited :
      (i : ℕ) (pid : Option ℕ) (code : ℕ) (signal : Option String) (now later : ℕ) (s : Primary)
      → Moved now later s (step api config count (worker_exits i pid code signal now later) s).0
  unfolding step handle
  on_exit_exited i pid code signal now later s =
      if_ind (λ (r : Primary × List Effect). Moved now later s r.0) s.exited
        (λ over. same refl refl) (λ on. on_exit-Moved i pid code signal now later s)

  signalled_same :
      (signal : Signal) (s : Primary)
      → (step api config count (signalled signal) s).0.respawn_timestamps ≡ s.respawn_timestamps
  unfolding step handle shutdown finish_shutdown
  signalled_same sigkill s = ground arith
  signalled_same sigterm s = ground arith
  signalled_same sigint s = ground arith

  elapsed_same :
      (s : Primary) → (step api config count elapsed s).0.respawn_timestamps ≡ s.respawn_timestamps
  unfolding step handle drain_elapsed finish_shutdown
  elapsed_same s = ground arith

  abbrev most : ℕ
  most = config.respawn_max_per_minute

  Moved-Capped :
      (times : List ℕ) (clock i : ℕ) (pid : Option ℕ) (code : ℕ) (signal : Option String)
      (now later : ℕ) (s s' : Primary)
      → Capped most times clock s.respawn_timestamps
      → clock ≤ now
      → now ≤ later
      → Moved now later s s'
      → Capped most
          (times ++ respawned (worker_exits i pid code signal now later) s s')
          later
          s'.respawn_timestamps
  unfolding respawned
  Moved-Capped times clock i pid code signal now later s s' c h k (same q f) =
      let none_new : (if ltb s.forks s'.forks then later ∷ [] else []) ≡ [] = ground arith in
      rw (none_new, append-nil, q)
        (later_clock most times clock s.respawn_timestamps c later (omega arith))
  Moved-Capped times clock i pid code signal now later s s' c h k (shifted q f) =
      let none_new : (if ltb s.forks s'.forks then later ∷ [] else []) ≡ [] = ground arith in
      rw (none_new, append-nil, q)
        (later_clock most times now (shift_expired now s.respawn_timestamps)
          (shift-Capped most times clock s.respawn_timestamps c now h) later k)
  Moved-Capped times clock i pid code signal now later s s' c h k (pushed q room f) =
      let one_new : (if ltb s.forks s'.forks then later ∷ [] else []) ≡ later ∷ [] = ground arith in
      rw (one_new, q)
        (push-Capped most times now (shift_expired now s.respawn_timestamps)
          (shift-Capped most times clock s.respawn_timestamps c now h) later k room)

  run-Spaced :
      (times : List ℕ) (clock : ℕ) (es : List Event) (s : Primary)
      → Capped most times clock s.respawn_timestamps
      → IsMonotone clock es
      → Spaced most (times ++ respawn_times api config count es s)
  unfolding respawn_times respawned
  run-Spaced times clock [] s c h = rw append-nil c.spaced
  run-Spaced times clock (worker_exits i pid code signal now later ∷ es) s c (h, k, m) =
      let e = worker_exits i pid code signal now later in
      let s' = (step api config count e s).0 in
      let moved = on_exit_exited i pid code signal now later s in
      rw (← append_assoc) (
        run-Spaced (times ++ respawned e s s') later es s'
          (Moved-Capped times clock i pid code signal now later s s' c h k moved) m)
  run-Spaced times clock (signalled signal ∷ es) s c m =
      let s' = (step api config count (signalled signal) s).0 in
      run-Spaced times clock es s' (rw (signalled_same signal s) c) m
  run-Spaced times clock (elapsed ∷ es) s c m =
      let s' = (step api config count elapsed s).0 in
      run-Spaced times clock es s' (rw (elapsed_same s) c) m

  fork_pool_queue :
      (left index : ℕ) (s : Primary)
      → (fork_pool api left index s).0.respawn_timestamps ≡ s.respawn_timestamps
  unfolding fork_pool fork_worker
  fork_pool_queue zero index s = refl
  fork_pool_queue (suc left) index s =
      fork_pool_queue left (suc index) (fork_worker api (index == 0) s).0

  no_respawns : Capped most [] 0 []
  no_respawns = record {
    older = [];
    split = refl;
    expired = tt;
    capped = omega arith;
    spaced = λ i x y ex ey. absurd (omega (arith, get_elem?-lt_length {A = ℕ} [] i ex));
  }

-- Over any events after start-up, while the clock never goes back: of any `respawnMaxPerMinute` + 1
-- successive respawns the last comes more than 60 seconds after the first, so no window of 60
-- seconds sees more than `respawnMaxPerMinute` of them.
pub respawn_rate :
    (api : ClusterApi) (config : Config) (cpu_count : ℕ) (es : List Event)
    → IsMonotone 0 es
    → Spaced config.respawn_max_per_minute (
        respawn_times api config
          (resolve_worker_count config.workers cpu_count)
          es
          (start_primary api config cpu_count).0)
unfolding start_primary
respawn_rate api config cpu_count es m =
    let count = resolve_worker_count config.workers cpu_count in
    let s = (start_primary api config cpu_count).0 in
    let queue : s.respawn_timestamps ≡ [] =
      fork_pool_queue api config count count 0 (no_workers api) in
    run-Spaced api config count [] 0 es s (rw queue (no_respawns api config count)) m
