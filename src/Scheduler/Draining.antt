-- ===== src/Scheduler/Draining.antt =====
-- How `stop` ends (job-scheduler.ts).
use nestjs_ddd_lean.Prelude.{
  ℕ, zero, suc, ◌+◌, ◌≡◌, refl, ap, ◌∙◌, Bool, true, false, not, ◌&&◌, ◌||◌, List, [], ◌∷◌, ◌++◌,
  map, arith, is_empty, any, All, if_ind,
}
use nestjs_ddd_lean.Scheduler.{
  Registered, Scheduler, Effect, disabled, cron_started, runner_line, cron_stopped, drained,
  drain_timeout, run_at, awaited, busy, settle_drain, halt, stop, stop_timeout, Event, runner,
  timeout, step, run,
}
use nestjs_ddd_lean.Scheduler.Runner.{
  RunnerEvent, ticks, settles, started, skipped, finished, failed, run_step,
}

-- The reports of `stop`, and the runs that are started.
pub reports : List Effect → ℕ
reports [] = 0
reports (drained ns ∷ fx) = suc (reports fx)
reports (drain_timeout ns ∷ fx) = suc (reports fx)
reports (disabled n why ∷ fx) = reports fx
reports (cron_started n t z ∷ fx) = reports fx
reports (runner_line n l ∷ fx) = reports fx
reports (cron_stopped n ∷ fx) = reports fx

pub starts : List Effect → ℕ
starts [] = 0
starts (runner_line n started ∷ fx) = suc (starts fx)
starts (runner_line n skipped ∷ fx) = starts fx
starts (runner_line n finished ∷ fx) = starts fx
starts (runner_line n failed ∷ fx) = starts fx
starts (drained ns ∷ fx) = starts fx
starts (drain_timeout ns ∷ fx) = starts fx
starts (disabled n why ∷ fx) = starts fx
starts (cron_started n t z ∷ fx) = starts fx
starts (cron_stopped n ∷ fx) = starts fx

starts-append : (fx gx : List Effect) → starts (fx ++ gx) ≡ starts fx + starts gx
unfolding starts
starts-append [] gx = omega arith
starts-append (runner_line n started ∷ fx) gx = omega (arith, starts-append fx gx)
starts-append (runner_line n skipped ∷ fx) gx = starts-append fx gx
starts-append (runner_line n finished ∷ fx) gx = starts-append fx gx
starts-append (runner_line n failed ∷ fx) gx = starts-append fx gx
starts-append (drained ns ∷ fx) gx = starts-append fx gx
starts-append (drain_timeout ns ∷ fx) gx = starts-append fx gx
starts-append (disabled n why ∷ fx) gx = starts-append fx gx
starts-append (cron_started n t z ∷ fx) gx = starts-append fx gx
starts-append (cron_stopped n ∷ fx) gx = starts-append fx gx

reports-append : (fx gx : List Effect) → reports (fx ++ gx) ≡ reports fx + reports gx
unfolding reports
reports-append [] gx = omega arith
reports-append (drained ns ∷ fx) gx = omega (arith, reports-append fx gx)
reports-append (drain_timeout ns ∷ fx) gx = omega (arith, reports-append fx gx)
reports-append (disabled n why ∷ fx) gx = reports-append fx gx
reports-append (cron_started n t z ∷ fx) gx = reports-append fx gx
reports-append (runner_line n l ∷ fx) gx = reports-append fx gx
reports-append (cron_stopped n ∷ fx) gx = reports-append fx gx

abbrev IsHalted : List Registered → Type 0
IsHalted = All (λ r. r.cron_on ≡ false)

abbrev pub idle : List Registered → Bool
idle rs = is_empty (busy (awaited rs))

-- With the cron jobs stopped, a runner's event starts nothing, reports nothing and makes nobody busy.
run_at-IsHalted :
    (i : ℕ) (e : RunnerEvent) (rs : List Registered)
    → IsHalted rs
    → let (rs', fx) = run_at i e rs in
      IsHalted rs' × (starts fx ≡ 0) × (reports fx ≡ 0) × (idle rs ≡ true → idle rs' ≡ true)
unfolding run_at run_step starts reports
run_at-IsHalted i e [] h = (tt, refl, refl, λ d. d)
run_at-IsHalted zero ticks (r ∷ rs) (off, h) =
    ((off, h), ground arith, ground arith, λ d. ground arith)
run_at-IsHalted zero (settles f) (r ∷ rs) (off, h) =
    ((off, h), ground arith, ground arith, λ d. ground arith)
run_at-IsHalted (suc i) e (r ∷ rs) (off, h) =
    let (h', none_started, none_reported, still) = run_at-IsHalted i e rs h in
    ((off, h'), none_started, none_reported, λ d. ground (arith, still))

abbrev is_timeout : Event → Bool
is_timeout timeout = true
is_timeout (runner i e) = false

abbrev flag : Bool → ℕ
flag true = 1
flag false = 0

abbrev Settled : Scheduler → Scheduler × List Effect → Type 0
Settled s (s', fx) =
    (s'.registered ≡ s.registered)
    × (starts fx ≡ 0)
    × (s'.stopping ≡ (s.stopping && not (idle s.registered)))
    × (reports fx + flag s'.stopping ≡ flag s.stopping)

settle_drain-Settled : (s : Scheduler) → Settled s (settle_drain s)
unfolding settle_drain starts reports
settle_drain-Settled s = (ground arith, ground arith, ground arith, ground arith)

-- One event while the cron jobs are stopped.
abbrev Halted : Event → Scheduler → Scheduler × List Effect → Type 0
Halted e s (s', fx) =
    IsHalted s'.registered
    × (starts fx ≡ 0)
    × (idle s.registered ≡ true → idle s'.registered ≡ true)
    × (s'.stopping ≡ (s.stopping && not (idle s'.registered || is_timeout e)))
    × (reports fx + flag s'.stopping ≡ flag s.stopping)

step-Halted : (e : Event) (s : Scheduler) → IsHalted s.registered → Halted e s (step e s)
unfolding step stop_timeout starts reports
step-Halted timeout s h =
    if_ind (Halted timeout s) s.stopping (λ waits. (h, refl, λ d. d, ground arith, ground arith))
      (λ rests. (h, refl, λ d. d, ground arith, ground arith))
step-Halted (runner i e) s h =
    let (h', quiet, silent, still) = run_at-IsHalted i e s.registered h in
    let r = run_at i e s.registered in
    let settled = settle_drain (record s { registered = r.0 }) in
    let (same, none_started, stops, counted) =
      settle_drain-Settled (record s { registered = r.0 }) in
    (
      rw same h',
      omega (arith, starts-append r.1 settled.1, quiet, none_started),
      λ d. ap idle same ∙ still d,
      stops ∙ ground (arith, same),
      omega (arith, reports-append r.1 settled.1, silent, counted),
    )

-- What a run after `stop` comes to.
pub record Stopped (es : List Event) (s s' : Scheduler) (fx : List Effect) : Type 0 where
  pub no_start : starts fx ≡ 0
  pub stays_idle : idle s.registered ≡ true → idle s'.registered ≡ true
  pub resolved : s'.stopping ≡ (s.stopping && not (idle s'.registered || any is_timeout es))
  pub reported : reports fx + flag s'.stopping ≡ flag s.stopping

run-Stopped :
    (es : List Event) (s : Scheduler)
    → IsHalted s.registered
    → (s.stopping ≡ true → idle s.registered ≡ false)
    → Stopped es s (run es s).0 (run es s).1
unfolding run starts reports
run-Stopped [] s h w = record {
  no_start = refl;
  stays_idle = λ d. d;
  resolved = ground (arith, w);
  reported = omega arith;
}
run-Stopped (e ∷ es) s h w =
    let r = step e s in
    let (h', quiet, still, stops, counted) = step-Halted e s h in
    let rest = run-Stopped es r.0 h' (λ up. ground (arith, stops)) in
    let last = run es r.0 in
    record {
      no_start = omega (arith, starts-append r.1 last.1, quiet, rest.no_start);
      stays_idle = λ d. rest.stays_idle (still d);
      resolved = rest.resolved ∙ ground (arith, stops, rest.stays_idle);
      reported = omega (arith, reports-append r.1 last.1, counted, rest.reported);
    }

halt-IsHalted : (rs : List Registered) → IsHalted (map halt rs)
unfolding halt
halt-IsHalted [] = tt
halt-IsHalted (r ∷ rs) = (refl, halt-IsHalted rs)

halt_busy : (rs : List Registered) → idle (map halt rs) ≡ is_empty (busy rs)
unfolding halt
halt_busy [] = refl
halt_busy (r ∷ rs) = ground (arith, halt_busy rs)

-- After `stop`, whatever then happens: no run is started. `stop` waits exactly as long as a job that
-- was running when it was called still runs and its timeout has not come. It reports once, when its
-- wait ends, and never if no job was running.
pub stop_ends :
    (es : List Event) (s : Scheduler)
    → let s' = (stop s).0 in
      let (s'', fx) = run es s' in
      (starts fx ≡ 0)
      × (s''.stopping ≡ not (idle s''.registered || any is_timeout es))
      × (reports fx + flag s''.stopping ≡ flag (not (is_empty (busy s.registered))))
unfolding stop
stop_ends es s =
    let s' = (stop s).0 in
    let all_idle = halt_busy s.registered in
    let r = run-Stopped es s' (halt-IsHalted s.registered) (λ w. ground (arith, all_idle)) in
    (r.no_start, r.resolved ∙ ground (arith, r.stays_idle, all_idle), r.reported)
