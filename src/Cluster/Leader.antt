-- ===== src/Cluster/Leader.antt =====
-- Which live workers were forked with CLUSTER_LEADER=true (cluster-primary.ts).
use nestjs_ddd_lean.Prelude.{
  ℕ, suc, ◌<◌, ◌≡◌, refl, sym, ◌∙◌, ◌≢◌, ◌⊎◌, inl, Bool, true, false, not, Option, none, some, List,
  [], ◌∷◌, ◌++◌, String, arith, if◌then◌else◌, ◌==◌, leb, filter, length, All, All-append, All-mono,
  All-filter, if_ind,
}
use nestjs_ddd_lean.Cluster.{
  Effect, ClusterApi, Worker, Config, Signal, sigterm, sigint, sigkill, Primary, Event,
  worker_exits, signalled, elapsed, is_leader, ids, has_worker, set_worker, delete_worker,
  new_worker, fork_worker, lose_leader, shift_expired, notify_drained, respawn_worker, on_exit,
  shutdown, drain_elapsed, handle, step, run, finish_shutdown,
}

-- Node's documentation: "Each new worker is given its own unique id".
abbrev pub HasUniqueIds : ClusterApi → Type 0
HasUniqueIds api = (m n : ℕ) → api.fork_id m ≡ api.fork_id n → m ≡ n

abbrev pub opt_list : Option ℕ → List ℕ
opt_list none = []
opt_list (some i) = i ∷ []

abbrev pub leaders : List Worker → List Worker
leaders = filter (λ w. w.leader_env)

abbrev without : ℕ → List ℕ → List ℕ
without i = filter (λ j. not (j == i))

leaders-delete_worker :
    (i : ℕ) (ws : List Worker) → ids (leaders (delete_worker i ws)) ≡ without i (ids (leaders ws))
unfolding delete_worker
leaders-delete_worker i [] = refl
leaders-delete_worker i (w ∷ ws) = ground (arith, leaders-delete_worker i ws)

has_worker-fresh : (i : ℕ) (ws : List Worker) → All (λ w. w.id ≢ i) ws → has_worker i ws ≡ false
unfolding has_worker
has_worker-fresh i [] h = refl
has_worker-fresh i (w ∷ ws) h = ground (arith, has_worker-fresh i ws h.1)

pub set_worker-fresh :
    (w : Worker) (ws : List Worker) → All (λ v. v.id ≢ w.id) ws → set_worker w ws ≡ ws ++ w ∷ []
unfolding set_worker
set_worker-fresh w ws h = rw (has_worker-fresh w.id ws h)

leaders-append :
    (ws : List Worker) (w : Worker)
    → ids (leaders (ws ++ w ∷ [])) ≡ ids (leaders ws) ++ (if w.leader_env then w.id ∷ [] else [])
leaders-append [] w = ground arith
leaders-append (v ∷ ws) w = ground (arith, leaders-append ws w)

pub length-ids : (ws : List Worker) → length (ids ws) ≡ length ws
length-ids [] = refl
length-ids (w ∷ ws) = omega (arith, length-ids ws)

module _ (api : ClusterApi) where
  abbrev pub IsForked : ℕ → Worker → Type 0
  IsForked n w = (k : ℕ) × (k < n) × (w.id ≡ api.fork_id k)

  -- Every live worker was forked; those marked as leader are the one that `leaderId` names, or
  -- none is left of them during a shutdown.
  pub record LeaderInv (s : Primary) : Type 0 where
    pub forked : All (IsForked s.forks) s.live
    pub marked :
        (ids (leaders s.live) ≡ opt_list s.leader_id)
        ⊎ ((ids (leaders s.live) ≡ []) × (s.shutting_down ≡ true))

  module _ (unique : HasUniqueIds api) where
    pub fresh_of_IsForked :
        (n : ℕ) (ws : List Worker) → All (IsForked n) ws → All (λ w. w.id ≢ api.fork_id n) ws
    fresh_of_IsForked n ws =
        All-mono (IsForked n) (λ w. w.id ≢ api.fork_id n) ws
          (λ w (k, lt, e) same. let clash = unique k n (sym e ∙ same) in absurd (omega arith))

    -- A fork appends its worker. A leader is forked only where no marked worker is left.
    pub fork_worker-LeaderInv :
        (leader : Bool) (s : Primary)
        → All (IsForked s.forks) s.live
        → s.shutting_down ≡ false
        → (leader ≡ true → ids (leaders s.live) ≡ [])
        → (leader ≡ false → ids (leaders s.live) ≡ opt_list s.leader_id)
        → LeaderInv (fork_worker api leader s).0
    unfolding fork_worker
    fork_worker-LeaderInv leader s f up h k =
        let w = new_worker api s.forks leader in
        let appended = set_worker-fresh w s.live (fresh_of_IsForked s.forks s.live f) in
        record {
          forked = rw appended (
              All-append (IsForked (suc s.forks)) s.live (w ∷ [])
                (All-mono (IsForked s.forks) (IsForked (suc s.forks)) s.live
                  (λ v (i, lt, e). (i, omega arith, e)) f)
                ((s.forks, omega arith, refl), tt));
          marked = inl (ground (arith, appended, leaders-append s.live w));
        }

    -- Once the leader has been deleted no marked worker is left; any other exit leaves the mark.
    without_leader :
        (s : Primary) (i : ℕ)
        → LeaderInv s
        → is_leader s.leader_id i ≡ true
        → ids (leaders (delete_worker i s.live)) ≡ []
    without_leader s i v h = rw (leaders-delete_worker i s.live) (ground (arith, v.marked))

    keep_leader :
        (s : Primary) (i : ℕ)
        → LeaderInv s
        → is_leader s.leader_id i ≡ false
        → s.shutting_down ≡ false
        → ids (leaders (delete_worker i s.live)) ≡ opt_list s.leader_id
    keep_leader s i v h up = rw (leaders-delete_worker i s.live) (ground (arith, v.marked))

    delete_draining :
        (s : Primary) (i : ℕ)
        → LeaderInv s
        → s.shutting_down ≡ true
        → LeaderInv (record s { live = delete_worker i s.live })
    unfolding delete_worker
    delete_draining s i v down = record {
      forked = All-filter (IsForked s.forks) (λ w. not (w.id == i)) s.live v.forked;
      marked = ground (arith, v.marked, leaders-delete_worker i s.live);
    }

    notify_drained-LeaderInv :
        (config : Config) (s : Primary) → LeaderInv s → LeaderInv (notify_drained config s).0
    unfolding notify_drained finish_shutdown
    notify_drained-LeaderInv config s v = ground arith

    lose_leader-LeaderInv :
        (was : Bool) (i : ℕ) (s : Primary)
        → All (IsForked s.forks) s.live
        → (was ≡ true → ids (leaders s.live) ≡ [])
        → (was ≡ false → ids (leaders s.live) ≡ opt_list s.leader_id)
        → LeaderInv (lose_leader was i s).0
    unfolding lose_leader
    lose_leader-LeaderInv true i s f h k = record { forked = f; marked = inl (h refl) }
    lose_leader-LeaderInv false i s f h k = record { forked = f; marked = inl (k refl) }

    respawn_worker-LeaderInv :
        (config : Config) (count i now later : ℕ) (s : Primary) (was : Bool)
        → All (IsForked s.forks) s.live
        → s.shutting_down ≡ false
        → (was ≡ true → ids (leaders s.live) ≡ [])
        → (was ≡ false → ids (leaders s.live) ≡ opt_list s.leader_id)
        → LeaderInv (respawn_worker api config count was i now later s).0
    unfolding respawn_worker
    respawn_worker-LeaderInv config count i now later s was f up h k =
        let kept = shift_expired now s.respawn_timestamps in
        if_ind (λ (r : Primary × List Effect). LeaderInv r.0)
          (leb config.respawn_max_per_minute (length kept))
          (λ full. lose_leader-LeaderInv was i (record s { respawn_timestamps = kept }) f h k)
          (λ room.
            fork_worker-LeaderInv was (record s { respawn_timestamps = kept ++ later ∷ [] }) f up h
              k)

    on_exit-LeaderInv :
        (config : Config) (count i : ℕ) (pid : Option ℕ) (code : ℕ) (signal : Option String)
        (now later : ℕ) (s : Primary)
        → LeaderInv s
        → LeaderInv (on_exit api config count i pid code signal now later s).0
    unfolding on_exit
    on_exit-LeaderInv config count i pid code signal now later s v =
        let removed = record s { live = delete_worker i s.live } in
        let was = is_leader s.leader_id i in
        let still = All-filter (IsForked s.forks) (λ w. not (w.id == i)) s.live v.forked in
        if_ind (λ (r : Primary × List Effect). LeaderInv r.0) s.shutting_down
          (λ down. notify_drained-LeaderInv config removed (delete_draining s i v down))
          (λ up.
            if_ind (λ (r : Primary × List Effect). LeaderInv r.0) config.respawn
              (λ on.
                respawn_worker-LeaderInv config count i now later removed was
                  (unfold delete_worker in still) up (without_leader s i v)
                  (λ h. keep_leader s i v h up))
              (λ off.
                lose_leader-LeaderInv was i removed (unfold delete_worker in still)
                  (without_leader s i v) (λ h. keep_leader s i v h up)))

    shutdown-LeaderInv :
        (config : Config) (signal : Signal) (s : Primary)
        → LeaderInv s
        → LeaderInv (shutdown config signal s).0
    unfolding shutdown finish_shutdown
    shutdown-LeaderInv config signal s v = ground (arith, v.marked, v.forked)

    drain_elapsed-LeaderInv :
        (config : Config) (s : Primary) → LeaderInv s → LeaderInv (drain_elapsed config s).0
    unfolding drain_elapsed finish_shutdown
    drain_elapsed-LeaderInv config s v = ground arith

    handle-LeaderInv :
        (config : Config) (count : ℕ) (e : Event) (s : Primary)
        → LeaderInv s
        → LeaderInv (handle api config count e s).0
    unfolding handle
    handle-LeaderInv config count (worker_exits i pid code signal now later) s v =
        on_exit-LeaderInv config count i pid code signal now later s v
    handle-LeaderInv config count (signalled sigkill) s v = v
    handle-LeaderInv config count (signalled sigterm) s v = shutdown-LeaderInv config sigterm s v
    handle-LeaderInv config count (signalled sigint) s v = shutdown-LeaderInv config sigint s v
    handle-LeaderInv config count elapsed s v = drain_elapsed-LeaderInv config s v

    step-LeaderInv :
        (config : Config) (count : ℕ) (e : Event) (s : Primary)
        → LeaderInv s
        → LeaderInv (step api config count e s).0
    unfolding step
    step-LeaderInv config count e s v = ground (arith, handle-LeaderInv config count e s v)

    pub run-LeaderInv :
        (config : Config) (count : ℕ) (es : List Event) (s : Primary)
        → LeaderInv s
        → LeaderInv (run api config count es s).0
    unfolding run
    run-LeaderInv config count [] s v = v
    run-LeaderInv config count (e ∷ es) s v =
        run-LeaderInv config count es (step api config count e s).0
          (step-LeaderInv config count e s v)
