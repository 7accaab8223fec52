-- ===== src/Semaphore/Tests.antt =====
-- The limiter with one place and two calls.
use nestjs_ddd_lean.Prelude.{◌≤◌, max, [], ◌∷◌, length, arith}
use nestjs_ddd_lean.Semaphore.{Semaphore, new, enter, Move, arrives, Reach, here, next}
use nestjs_ddd_lean.Semaphore.Limit.{running_limit, calls_end}

abbrev waiting : Semaphore
waiting = record { count = 0; queue = 8 ∷ []; woken = []; running = 7 ∷ [] }

waiting_reached : Reach (new 0) waiting
unfolding new enter
waiting_reached = next (next here (arrives 7)) (arrives 8)

running_limit_example : length waiting.running ≤ max 1 0
running_limit_example = (running_limit 0 waiting waiting_reached).0

calls_end_example : (t : Semaphore) × Move waiting t
calls_end_example = (calls_end 0 waiting waiting_reached).0 (omega arith)
