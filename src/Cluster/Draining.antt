-- ===== src/Cluster/Draining.antt =====
-- The steps of a primary that is shutting down (cluster-primary.ts).
use nestjs_ddd_lean.Prelude.{
  ℕ, ◌≤◌, ◌≡◌, refl, sym, ap, ◌∙◌, ◌⊎◌, inl, inr, Bool, true, false, ◌||◌, Option, some, List, [],
  ◌∷◌, ◌++◌, append-nil, String, arith, if◌then◌else◌, length, is_empty, is_some, any,
  length-filter-le, subst, Option-cases, Bool-cases,
}
use nestjs_ddd_lean.Cluster.{
  Effect, ClusterApi, Config, Signal, sigterm, sigint, sigkill, Primary, Worker, Event,
  worker_exits, signalled, elapsed, delete_worker, notify_drained, on_exit, shutdown, drain_elapsed,
  handle, step, run, finish_shutdown, stragglers, timed_out,
}
use nestjs_ddd_lean.Cluster.Kills.{
  kills, all_signalled, kills-append, kills-stragglers, kills-finish,
}

abbrev pub IsTermination : Signal → Type 0
IsTermination sigterm = Unit
IsTermination sigint = Unit
IsTermination sigkill = ⊥

module _ (api : ClusterApi) (config : Config) (count : ℕ) where
  pub step-signalled :
      (signal : Signal) (s : Primary)
      → IsTermination signal
      → step api config count (signalled signal) s
        ≡ (if s.exited then (s, []) else shutdown config signal s)
  unfolding step handle
  step-signalled sigterm s t = refl
  step-signalled sigint s t = refl
  step-signalled sigkill s t = absurd t

  pub step-signalled_again :
      (signal : Signal) (s : Primary)
      → IsTermination signal
      → s.shutting_down ≡ true
      → step api config count (signalled signal) s ≡ (s, [])
  unfolding shutdown
  step-signalled_again signal s t down = step-signalled signal s t ∙ ground arith

  step_exited : (e : Event) (s : Primary) → s.exited ≡ true → step api config count e s ≡ (s, [])
  unfolding step
  step_exited e s over = ground arith

  pub run_exited :
      (es : List Event) (s : Primary) → s.exited ≡ true → run api config count es s ≡ (s, [])
  unfolding run
  run_exited [] s over = refl
  run_exited (e ∷ es) s over = rw (step_exited e s over) (rw (run_exited es s over))

  abbrev is_elapsed : Event → Bool
  is_elapsed elapsed = true
  is_elapsed (worker_exits i pid code signal now later) = false
  is_elapsed (signalled signal) = false

  -- What a drain comes to: it ends when no worker is left or the delay is over, and then sends
  -- SIGKILL to the workers that are left; before its end it sends nothing, and it forks nothing.
  pub record Drained (es : List Event) (s s' : Primary) (fx : List Effect) : Type 0 where
    pub ended : s'.exited ≡ (is_empty s'.live || any is_elapsed es)
    pub sent : kills fx ≡ (if s'.exited then all_signalled sigkill s'.live else [])
    pub no_fork : s'.forks ≡ s.forks
    pub fewer : length s'.live ≤ length s.live

  pub record IsDraining (s : Primary) : Type 0 where
    down : s.shutting_down ≡ true
    on : s.exited ≡ false
    busy : is_empty s.live ≡ false
    pending : is_some s.waiting ≡ true

  -- One exit while draining: the worker is deleted, and the process ends with the last of them.
  abbrev Exited : ℕ → Primary → Primary × List Effect → Type 0
  Exited i s (s', fx) =
      (s'.live ≡ delete_worker i s.live)
      × (s'.forks ≡ s.forks)
      × (kills fx ≡ [])
      × ((is_empty s'.live ≡ true) × (s'.exited ≡ true) ⊎ IsDraining s')

  exit-Exited :
      (i : ℕ) (pid : Option ℕ) (code : ℕ) (signal : Option String) (now later : ℕ) (s : Primary)
      → IsDraining s
      → Exited i s (step api config count (worker_exits i pid code signal now later) s)
  unfolding step handle on_exit notify_drained finish_shutdown stragglers kills
  exit-Exited i pid code signal now later s d =
      elim (Bool-cases (is_empty (delete_worker i s.live))) [
        | inl last ↦ (
          ground (arith, d.on, d.down, d.pending),
          ground (arith, d.on, d.down, d.pending),
          ground (arith, d.on, d.down, d.pending),
          inl (ground (arith, d.on, d.down, d.pending)),
        )
        | inr more ↦ (
          ground (arith, d.on, d.down, d.pending),
          ground (arith, d.on, d.down, d.pending),
          ground (arith, d.on, d.down, d.pending),
          inr (record {
            down = ground (arith, d.on, d.down, d.pending);
            on = ground (arith, d.on, d.down, d.pending);
            busy = ground (arith, d.on, d.down, d.pending);
            pending = ground (arith, d.on, d.down, d.pending);
          }),
        )
      ]

  step-elapsed :
      (signal : Signal) (s : Primary)
      → IsDraining s
      → s.waiting ≡ some signal
      → step api config count elapsed s ≡ finish_shutdown config timed_out signal s
  unfolding step handle drain_elapsed
  step-elapsed signal s d set = ground (arith, d.on)

  abbrev Expired : Primary → Primary × List Effect → Type 0
  Expired s (s', fx) =
      (s'.live ≡ s.live)
      × (s'.forks ≡ s.forks)
      × (kills fx ≡ all_signalled sigkill s.live)
      × (s'.exited ≡ true)

  elapsed-Expired : (s : Primary) → IsDraining s → Expired s (step api config count elapsed s)
  unfolding finish_shutdown
  elapsed-Expired s d = elim (Option-cases s.waiting) [
    | inl unset ↦ absurd (ground (arith, d.pending))
    | inr (signal, set) ↦
        subst (Expired s) (sym (step-elapsed signal s d set)) (
          refl,
          refl,
          kills-finish config timed_out signal s ∙ kills-stragglers config s.live,
          refl,
        )
  ]

  step-signalled_draining :
      (signal : Signal) (s : Primary)
      → IsDraining s
      → step api config count (signalled signal) s ≡ (s, [])
  unfolding step handle
  step-signalled_draining sigkill s d = ground arith
  step-signalled_draining sigterm s d = step-signalled_again sigterm s tt d.down
  step-signalled_draining sigint s d = step-signalled_again sigint s tt d.down

  length-delete_worker : (i : ℕ) (ws : List Worker) → length (delete_worker i ws) ≤ length ws
  unfolding delete_worker
  length-delete_worker i ws = length-filter-le _ ws

  -- A step that ends the process, with the SIGKILLs that it sent, is the whole of the drain.
  last-Drained :
      (e : Event) (es : List Event) (s s' : Primary) (fx : List Effect)
      → s'.exited ≡ true
      → is_empty s'.live || is_elapsed e ≡ true
      → kills fx ≡ all_signalled sigkill s'.live
      → s'.forks ≡ s.forks
      → length s'.live ≤ length s.live
      → Drained (e ∷ es) s (run api config count es s').0 (fx ++ (run api config count es s').1)
  last-Drained e es s s' fx over why sent forks fewer = rw (run_exited es s' over) (record {
    ended = ground (arith, over, why);
    sent = rw (append-nil fx) (sent ∙ ground (arith, over));
    no_fork = forks;
    fewer = fewer;
  })

  -- A step that sends nothing and is not the end of the delay adds nothing to the drain after it.
  next-Drained :
      (e : Event) (es : List Event) (s s' s'' : Primary) (fx gx : List Effect)
      → is_elapsed e ≡ false
      → kills fx ≡ []
      → s'.forks ≡ s.forks
      → length s'.live ≤ length s.live
      → Drained es s' s'' gx
      → Drained (e ∷ es) s s'' (fx ++ gx)
  next-Drained e es s s' s'' fx gx other quiet forks fewer d = record {
    ended = d.ended ∙ ground (arith, other);
    sent = kills-append fx gx ∙ (ap (λ l. l ++ kills gx) quiet ∙ d.sent);
    no_fork = d.no_fork ∙ forks;
    fewer = omega (arith, d.fewer);
  }

  pub drain_run :
      (es : List Event) (s : Primary)
      → IsDraining s
      → Drained es s (run api config count es s).0 (run api config count es s).1
  unfolding run kills
  drain_run [] s d = record {
    ended = ground (arith, d.on, d.busy);
    sent = ground (arith, d.on);
    no_fork = refl;
    fewer = omega arith;
  }
  drain_run (worker_exits i pid code signal now later ∷ es) s d =
      let e = worker_exits i pid code signal now later in
      let r = step api config count e s in
      let (live, forks, quiet, next) = exit-Exited i pid code signal now later s d in
      let fewer : length r.0.live ≤ length s.live =
        omega (arith, ap length live, length-delete_worker i s.live) in
      let rest = drain_run es r.0 in
      elim next [
        | inl (no_one, over) ↦
            last-Drained e es s r.0 r.1 over (ground (arith, no_one))
              (quiet ∙ unfold all_signalled in ground (arith, no_one)) forks fewer
        | inr still ↦
            next-Drained e es s r.0 (run api config count es r.0).0 r.1
              (run api config count es r.0).1 refl quiet forks fewer (rest still)
      ]
  drain_run (signalled signal ∷ es) s d = rw (step-signalled_draining signal s d) (
      next-Drained (signalled signal) es s s (run api config count es s).0 []
        (run api config count es s).1 refl (unfold kills in refl) refl (omega arith)
        (drain_run es s d))
  drain_run (elapsed ∷ es) s d =
      let r = step api config count elapsed s in
      let (live, forks, sent, over) = elapsed-Expired s d in
      last-Drained elapsed es s r.0 r.1 over (ground arith)
        (sent ∙ ap (all_signalled sigkill) (sym live)) forks (omega (arith, ap length live))

  pub shutdown-IsDraining :
      (signal : Signal) (s : Primary)
      → s.exited ≡ false
      → s.shutting_down ≡ false
      → is_empty s.live ≡ false
      → IsDraining (shutdown config signal s).0
  unfolding shutdown
  shutdown-IsDraining signal s on up busy = record {
    down = ground arith;
    on = ground arith;
    busy = ground arith;
    pending = ground arith;
  }
