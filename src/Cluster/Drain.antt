-- ===== src/Cluster/Drain.antt =====
-- The shutdown of the primary (cluster-primary.ts, `shutdown` and the draining side of `onExit`).
use nestjs_ddd_lean.Prelude.{
  ℕ, ◌≡◌, refl, sym, ◌∙◌, inl, inr, true, false, List, [], map, append-nil, arith, is_empty, if_ind,
  subst, Bool-cases,
}
use nestjs_ddd_lean.Cluster.{
  Effect, killed, ClusterApi, Config, Signal, Primary, Event, signalled, shutdown, step, run,
  finish_shutdown, stragglers, drained,
}
use nestjs_ddd_lean.Cluster.Kills.{kills, all_signalled, kills-append, kills-map}
use nestjs_ddd_lean.Cluster.Draining.{
  IsTermination, step-signalled, step-signalled_again, run_exited, Drained, drain_run,
  shutdown-IsDraining,
}

abbrev pub Begun : Signal → Primary → Primary × List Effect → Type 0
Begun signal s (s', fx) =
    (kills fx ≡ all_signalled signal s.live)
    × (s'.shutting_down ≡ true)
    × (s'.live ≡ s.live)
    × (s'.exited ≡ is_empty s.live)

shutdown-Begun :
    (config : Config) (signal : Signal) (s : Primary)
    → s.exited ≡ false
    → s.shutting_down ≡ false
    → Begun signal s (shutdown config signal s)
unfolding shutdown kills finish_shutdown stragglers
shutdown-Begun config signal s on up =
    let begun = record s { shutting_down = true } in
    let sent = map (λ w. killed w.id signal) s.live in
    let fx = (finish_shutdown config drained signal begun).1 in
    if_ind (Begun signal s) s.shutting_down (λ down. absurd (ground arith))
      (λ _.
        if_ind (Begun signal s) (is_empty s.live)
          (λ no_one. (
            kills-append sent fx ∙ (append-nil (kills sent) ∙ kills-map signal s.live),
            refl,
            refl,
            sym no_one,
          ))
          (λ some_one. (kills-map signal s.live, refl, refl, on ∙ sym some_one)))

module _ (api : ClusterApi) (config : Config) (count : ℕ) where
  -- The first SIGTERM or SIGINT is passed on to every live worker, once and to no other; from then
  -- on the primary is shutting down, and a second signal of either kind changes and does nothing.
  pub shutdown_once :
      (signal again : Signal) (s : Primary)
      → IsTermination signal
      → IsTermination again
      → s.exited ≡ false
      → s.shutting_down ≡ false
      → let (s', fx) = step api config count (signalled signal) s in
        (kills fx ≡ all_signalled signal s.live)
        × (s'.shutting_down ≡ true)
        × (s'.live ≡ s.live)
        × (s'.exited ≡ is_empty s.live)
        × (step api config count (signalled again) s' ≡ (s', []))
  shutdown_once signal again s t t' on up =
      let taken : step api config count (signalled signal) s ≡ shutdown config signal s =
        step-signalled api config count signal s t ∙ ground arith in
      let (sent, down, live, ended) =
        subst (Begun signal s) (sym taken) (shutdown-Begun config signal s on up) in
      (sent, down, live, ended, step-signalled_again api config count again _ t' down)

  -- After the first SIGTERM or SIGINT, whatever happens: the process ends exactly when no worker is
  -- left or the drain delay is over. At its end it sends SIGKILL to every worker that is left and to
  -- no other, which is to none where all have exited; before its end it sends no further signal.
  -- It forks no worker and gains none.
  pub shutdown_run :
      (signal : Signal) (es : List Event) (s : Primary)
      → IsTermination signal
      → s.exited ≡ false
      → s.shutting_down ≡ false
      → let s' = (step api config count (signalled signal) s).0 in
        Drained api config count es s' (run api config count es s').0 (run api config count es s').1
  shutdown_run signal es s t on up =
      let taken : step api config count (signalled signal) s ≡ shutdown config signal s =
        step-signalled api config count signal s t ∙ ground arith in
      let (sent, down, live, ended) = shutdown-Begun config signal s on up in
      let s' = (shutdown config signal s).0 in
      rw taken (elim (Bool-cases (is_empty s.live)) [
        | inl no_one ↦ rw (run_exited api config count es s' (ended ∙ no_one)) (record {
          ended = ground (arith, ended, no_one, live);
          sent = unfold kills all_signalled in ground (arith, ended, no_one, live);
          no_fork = refl;
          fewer = omega arith;
        })
        | inr some_one ↦
            drain_run api config count es s'
              (shutdown-IsDraining api config count signal s on up some_one)
      ])
