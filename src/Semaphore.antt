-- ===== src/Semaphore.antt =====
-- The concurrency limiter of src/common/utils/semaphore.util.ts.
-- A call of `with` is a number. Between its tests of `count` and its wake-ups a call yields, so the
-- state keeps apart the calls that wait in `queue`, those whose promise is resolved but that have
-- not run on yet (`woken`), and those whose `fn` is running.
pub mod Limit
mod Tests
use nestjs_ddd_lean.Prelude.{
  ℕ, suc, ◌+◌, ◌-◌, max, ◌≡◌, Option, none, some, List, [], ◌∷◌, ◌++◌, if◌then◌else◌, ltb, ◌==◌,
}
use mathlib.Core.Option

pub record Semaphore : Type 0 where
  pub count : ℕ
  pub queue : List ℕ
  pub woken : List ℕ
  pub running : List ℕ

-- The constructor.
pub new : ℕ → Semaphore
new most = record { count = max 1 most; queue = []; woken = []; running = [] }

-- `with` up to its first `await`: take a place, or queue.
pub enter : ℕ → Semaphore → Semaphore
enter i s =
    if ltb 0 s.count
    then record s { count = s.count - 1; running = i ∷ s.running }
    else record s { queue = s.queue ++ i ∷ [] }

-- `const n = this.queue.shift(); if (n) n();`
pub wake : List ℕ → Semaphore → Semaphore
wake [] s = s
wake (n ∷ rest) s = record s { queue = rest; woken = s.woken ++ n ∷ [] }

-- The `finally` of a call whose `fn` has settled, either way.
pub leave : Semaphore → Semaphore
leave s = let freed = record s { count = suc s.count } in wake freed.queue freed

pub take_out : ℕ → List ℕ → Option (List ℕ)
take_out i [] = none
take_out i (j ∷ js) = if j == i then some js else Option.map (λ r. j ∷ r) (take_out i js)

-- What happens to the calls at hand: the end of a running `fn`, or a woken call running on, which
-- calls `with` again.
pub data Move (s : Semaphore) : Semaphore → Type 0 where
  settles :
      (i : ℕ) (rest : List ℕ)
      → take_out i s.running ≡ some rest
      → Move s (leave (record s { running = rest }))
  resumes :
      (i : ℕ) (rest : List ℕ)
      → take_out i s.woken ≡ some rest
      → Move s (enter i (record s { woken = rest }))

-- A new call may come at any time.
pub data Step (s : Semaphore) : Semaphore → Type 0 where
  arrives : (i : ℕ) → Step s (enter i s)
  moves : {t : Semaphore} → Move s t → Step s t

pub data Reach (s : Semaphore) : Semaphore → Type 0 where
  here : Reach s s
  next : {t u : Semaphore} → Reach s t → Step t u → Reach s u
