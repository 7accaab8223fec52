-- ===== src/Cluster/Startup.antt =====
-- The pool that `startPrimary` forks, and the leader over the whole life of the primary
-- (cluster-primary.ts, resolve-worker-count.util.ts).
use nestjs_ddd_lean.Prelude.{
  ℕ, zero, suc, ◌+◌, ◌≤◌, ◌<◌, ◌≡◌, refl, ap, inl, true, false, some, List, [], ◌∷◌, ◌++◌, arith,
  ◌==◌, length, ==→eq, length-append,
}
use nestjs_ddd_lean.Cluster.{
  ClusterApi, Config, Primary, Event, ids, new_worker, fork_worker, fork_pool, no_workers,
  start_primary, run, primary, resolve_worker_count,
}
use nestjs_ddd_lean.Cluster.Leader.{
  HasUniqueIds, opt_list, leaders, LeaderInv, fork_worker-LeaderInv, run-LeaderInv,
  fresh_of_IsForked, set_worker-fresh, length-ids,
}

resolved_pos : (configured cpu_count : ℕ) → 0 < resolve_worker_count configured cpu_count
unfolding resolve_worker_count
resolved_pos configured cpu_count = omega arith

resolved_cpus :
    (configured cpu_count : ℕ)
    → configured ≡ 0
    → 0 < cpu_count
    → resolve_worker_count configured cpu_count ≡ cpu_count
unfolding resolve_worker_count
resolved_cpus configured cpu_count e p = ground arith

module _ (api : ClusterApi) (unique : HasUniqueIds api) where
  fork_pool-LeaderInv :
      (left index : ℕ) (s : Primary)
      → LeaderInv api s
      → s.shutting_down ≡ false
      → (index ≡ 0 → ids (leaders s.live) ≡ [])
      → LeaderInv api (fork_pool api left index s).0
  unfolding fork_pool
  fork_pool-LeaderInv zero index s v up h = v
  fork_pool-LeaderInv (suc left) index s v up h =
      fork_pool-LeaderInv left (suc index) (fork_worker api (index == 0) s).0
        (fork_worker-LeaderInv api unique (index == 0) s v.forked up (λ e. h (==→eq index 0 e))
          (λ e. ground (arith, v.marked)))
        (unfold fork_worker in up) (λ e. absurd (omega arith))

  length-fork_pool :
      (left index : ℕ) (s : Primary)
      → LeaderInv api s
      → s.shutting_down ≡ false
      → (index ≡ 0 → ids (leaders s.live) ≡ [])
      → length (fork_pool api left index s).0.live ≡ left + length s.live
  unfolding fork_pool
  length-fork_pool zero index s v up h = omega arith
  length-fork_pool (suc left) index s v up h =
      let w = new_worker api s.forks (index == 0) in
      let appended =
        set_worker-fresh w s.live (fresh_of_IsForked api unique s.forks s.live v.forked) in
      let rest =
        length-fork_pool left (suc index) (fork_worker api (index == 0) s).0
          (fork_worker-LeaderInv api unique (index == 0) s v.forked up (λ e. h (==→eq index 0 e))
            (λ e. ground (arith, v.marked)))
          (unfold fork_worker in up) (λ e. absurd (omega arith)) in
      let grown : length (fork_worker api (index == 0) s).0.live ≡ length (s.live ++ w ∷ []) =
        unfold fork_worker in ap length appended in
      omega (arith, rest, grown, length-append s.live (w ∷ []))

  -- The later rounds leave the leader alone, and none begins a shutdown.
  fork_pool_later :
      (left index : ℕ) (s : Primary)
      → ((fork_pool api left (suc index) s).0.leader_id ≡ s.leader_id)
        × ((fork_pool api left (suc index) s).0.shutting_down ≡ s.shutting_down)
  unfolding fork_pool fork_worker
  fork_pool_later zero index s = (refl, refl)
  fork_pool_later (suc left) index s =
      let (same, up) = fork_pool_later left (suc index) (fork_worker api (suc index == 0) s).0 in
      ground (arith, same, up)

  fork_pool_first :
      (n : ℕ)
      → 0 < n
      → ((fork_pool api n 0 (no_workers api)).0.leader_id ≡ some (api.fork_id 0))
        × ((fork_pool api n 0 (no_workers api)).0.shutting_down ≡ false)
  unfolding fork_pool fork_worker
  fork_pool_first zero h = absurd (omega arith)
  fork_pool_first (suc n) h = fork_pool_later n 0 (fork_worker api true (no_workers api)).0

  start_primary-LeaderInv :
      (config : Config) (cpu_count : ℕ) → LeaderInv api (start_primary api config cpu_count).0
  unfolding start_primary
  start_primary-LeaderInv config cpu_count =
      fork_pool-LeaderInv (resolve_worker_count config.workers cpu_count) 0 (no_workers api)
        (record { forked = tt; marked = inl refl }) refl (λ _. refl)

  -- At start-up the primary forks exactly `resolveWorkerCount(...)` workers, one per CPU core
  -- where the configuration says 0 and never none; exactly one of them is the leader, and
  -- `leaderId` names it.
  pub start_primary_pool :
      (config : Config) (cpu_count : ℕ)
      → let s = (start_primary api config cpu_count).0 in
        (length s.live ≡ resolve_worker_count config.workers cpu_count)
        × (1 ≤ length s.live)
        × (config.workers ≡ 0 → 0 < cpu_count → length s.live ≡ cpu_count)
        × (ids (leaders s.live) ≡ api.fork_id 0 ∷ [])
        × (s.leader_id ≡ some (api.fork_id 0))
  unfolding start_primary
  start_primary_pool config cpu_count =
      let n = resolve_worker_count config.workers cpu_count in
      let some_worker : 0 < n = resolved_pos config.workers cpu_count in
      let v = start_primary-LeaderInv config cpu_count in
      let (named, up) = fork_pool_first n some_worker in
      let count =
        length-fork_pool n 0 (no_workers api) (record { forked = tt; marked = inl refl }) refl
          (λ _. refl) in
      (
        omega (arith, count),
        omega (arith, count, some_worker),
        λ e p. omega (arith, count, resolved_cpus config.workers cpu_count e p),
        ground (arith, v.marked, named, up),
        named,
      )

  -- After start-up and any events (exits of any workers, signals, the end of the drain delay), at
  -- most one live worker was forked with CLUSTER_LEADER=true. Until a shutdown begins, the live
  -- workers so marked are exactly the one that `leaderId` names: one if it is set, else none.
  -- The ids that `cluster.fork` gives are taken to be distinct.
  pub leader_unique :
      (config : Config) (cpu_count : ℕ) (es : List Event)
      → let s = primary api config cpu_count es in
        (length (leaders s.live) ≤ 1)
        × (s.shutting_down ≡ false → ids (leaders s.live) ≡ opt_list s.leader_id)
  unfolding primary
  leader_unique config cpu_count es =
      let v =
        run-LeaderInv api unique config (resolve_worker_count config.workers cpu_count) es
          (start_primary api config cpu_count).0 (start_primary-LeaderInv config cpu_count) in
      let s =
        (run api config (resolve_worker_count config.workers cpu_count) es
          (start_primary api config cpu_count).0).0 in
      (ground (arith, v.marked, length-ids (leaders s.live)), ground (arith, v.marked))
