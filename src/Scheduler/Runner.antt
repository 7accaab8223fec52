-- ===== src/Scheduler/Runner.antt =====
-- src/interface/scheduler/job-runner.ts. The state is whether `current` holds a run in flight.
use nestjs_ddd_lean.Prelude.{
  ℕ, suc, ◌+◌, ◌≤◌, ◌≡◌, refl, Bool, true, false, List, [], ◌∷◌, ◌++◌, arith, if◌then◌else◌,
}

-- The cron job calls `run`; the promise of `job.run()` settles, fulfilled or rejected.
pub data RunnerEvent : Type 0 where
  ticks : RunnerEvent
  settles : (fulfilled : Bool) → RunnerEvent

-- `started` is the call of `job.run()`; the others are the logger's lines.
pub data RunLine : Type 0 where
  started skipped finished failed : RunLine

-- `run` and, when `job.run()` has settled, the rest of `execute` with the `finally` of `run`.
unfoldable pub run_step : Bool → RunnerEvent → Bool → Bool × List RunLine
run_step cron_on ticks running =
    if cron_on then (true, (if running then skipped else started) ∷ []) else (running, [])
run_step cron_on (settles fulfilled) running =
    if running then (false, (if fulfilled then finished else failed) ∷ []) else (running, [])

pub run_lines : List RunnerEvent → Bool → Bool × List RunLine
run_lines [] running = (running, [])
run_lines (e ∷ es) running =
    let (r, ls) = run_step true e running in let (r', ls') = run_lines es r in (r', ls ++ ls')

abbrev pub is_start : RunLine → ℕ
is_start started = 1
is_start skipped = 0
is_start finished = 0
is_start failed = 0

abbrev pub is_end : RunLine → ℕ
is_end started = 0
is_end skipped = 0
is_end finished = 1
is_end failed = 1

abbrev pub count : (RunLine → ℕ) → List RunLine → ℕ
count f [] = 0
count f (l ∷ ls) = f l + count f ls

abbrev pub flag : Bool → ℕ
flag true = 1
flag false = 0

flag-le : (b : Bool) → flag b ≤ 1
flag-le true = omega arith
flag-le false = omega arith

count-append :
    (f : RunLine → ℕ) (xs ys : List RunLine) → count f (xs ++ ys) ≡ count f xs + count f ys
count-append f [] ys = omega arith
count-append f (x ∷ xs) ys = omega (arith, count-append f xs ys)

run_step_balance :
    (e : RunnerEvent) (b : Bool)
    → let (r, ls) = run_step true e b in flag b + count is_start ls ≡ count is_end ls + flag r
unfolding run_step
run_step_balance ticks true = refl
run_step_balance ticks false = refl
run_step_balance (settles true) true = refl
run_step_balance (settles false) true = refl
run_step_balance (settles f) false = refl

-- Over any ticks and settlings, and so after each of them: the calls of `job.run()` are the runs
-- that have been logged as finished or failed, and one more exactly while a run is in flight. So no
-- two runs of a job overlap, each is logged once, and a failure leaves the runner free for the next.
pub runs_balance :
    (es : List RunnerEvent) (b : Bool)
    → let (r, ls) = run_lines es b in
      (flag b + count is_start ls ≡ count is_end ls + flag r)
      × (count is_start ls ≤ suc (count is_end ls))
unfolding run_lines
runs_balance [] b = (omega arith, omega arith)
runs_balance (e ∷ es) b =
    let r = run_step true e b in
    let rest = run_lines es r.0 in
    let (balance, bound) = runs_balance es r.0 in
    let here = run_step_balance e b in
    let starts = count-append is_start r.1 rest.1 in
    let ends = count-append is_end r.1 rest.1 in
    (
      omega (arith, balance, here, starts, ends),
      omega (arith, balance, here, starts, ends, flag-le rest.0),
    )
