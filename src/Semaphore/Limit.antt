-- ===== src/Semaphore/Limit.antt =====
-- The limit holds, and no call is left waiting without a cause (semaphore.util.ts).
use nestjs_ddd_lean.Prelude.{
  ℕ, suc, ◌+◌, ◌*◌, ap, ◌≤◌, ◌<◌, max, ◌≡◌, refl, ◌≢◌, inl, inr, some, List, [], ◌∷◌, arith, ltb,
  length, length-append, Option-cases, if_ind,
}
use nestjs_ddd_lean.Semaphore.{
  Semaphore, new, enter, wake, leave, take_out, Step, arrives, moves, Move, settles, resumes, Reach,
  here, next,
}

length-take_out :
    (i : ℕ) (xs rest : List ℕ) → take_out i xs ≡ some rest → length xs ≡ suc (length rest)
unfolding take_out
length-take_out i [] rest e = absurd (ground arith)
length-take_out i (x ∷ xs) rest e = elim (Option-cases (take_out i xs)) [
  | inl missing ↦ ground (arith, missing)
  | inr (r, found) ↦ ground (arith, found, length-take_out i xs r found)
]

-- Every place is free or taken, and a call waits in the queue only while all places are taken or
-- owed to calls that have been woken.
pub record Inv (most : ℕ) (s : Semaphore) : Type 0 where
  pub places : s.count + length s.running ≡ max 1 most
  pub owed : s.queue ≢ [] → s.count ≤ length s.woken

enter-Inv :
    (most i : ℕ) (s : Semaphore)
    → s.count + length s.running ≡ max 1 most
    → (s.queue ≢ [] → s.count ≤ suc (length s.woken))
    → Inv most (enter i s)
unfolding enter
enter-Inv most i s p o =
    if_ind (Inv most) (ltb 0 s.count)
      (λ free. record { places = ground arith; owed = λ h. ground (arith, o h) })
      (λ full. record { places = p; owed = λ h. ground arith })

wake-Inv :
    (most : ℕ) (s : Semaphore) (q : List ℕ)
    → s.queue ≡ q
    → s.count + length s.running ≡ max 1 most
    → (q ≢ [] → s.count ≤ suc (length s.woken))
    → Inv most (wake q s)
unfolding wake
wake-Inv most s [] e p o = record { places = p; owed = λ h. absurd (h e) }
wake-Inv most s (n ∷ rest) e p o = record {
  places = p;
  owed = λ h. omega (arith, o (λ c. cc), length-append s.woken (n ∷ []));
}

Move-Inv : (most : ℕ) {s t : Semaphore} → Move s t → Inv most s → Inv most t
unfolding leave
Move-Inv most {s} (settles i rest e) v =
    let freed = record s { running = rest; count = suc s.count } in
    wake-Inv most freed s.queue refl (omega (arith, length-take_out i s.running rest e, v.places))
      (λ h. omega (arith, v.owed h))
Move-Inv most {s} (resumes i rest e) v =
    enter-Inv most i (record s { woken = rest }) v.places
      (λ h. omega (arith, v.owed h, length-take_out i s.woken rest e))

Step-Inv : (most : ℕ) {s t : Semaphore} → Step s t → Inv most s → Inv most t
Step-Inv most {s} (arrives i) v = enter-Inv most i s v.places (λ h. omega (arith, v.owed h))
Step-Inv most (moves m) v = Move-Inv most m v

pub Reach-Inv : (most : ℕ) {s : Semaphore} → Reach (new most) s → Inv most s
unfolding new
Reach-Inv most here = record { places = omega arith; owed = λ h. absurd (h refl) }
Reach-Inv most (next r st) = Step-Inv most st (Reach-Inv most r)

-- However calls come, end and run on, at most `max(1, most)` functions run at once, and a place is
-- free exactly for each one fewer.
pub running_limit :
    (most : ℕ) (s : Semaphore)
    → Reach (new most) s
    → (length s.running ≤ max 1 most) × (s.count + length s.running ≡ max 1 most)
running_limit most s r = (omega (arith, (Reach-Inv most r).places), (Reach-Inv most r).places)

-- The calls that have not ended, and a measure of the moves that they still need.
abbrev left : Semaphore → ℕ
left s = length s.running + length s.woken + length s.queue

abbrev pub work : Semaphore → ℕ
work s = left s * (left s + 2) + length s.woken

take_out-head : (i : ℕ) (xs : List ℕ) → take_out i (i ∷ xs) ≡ some xs
unfolding take_out
take_out-head i xs = ground arith

some-Move :
    (s : Semaphore) (running woken : List ℕ)
    → s.running ≡ running
    → s.woken ≡ woken
    → 0 < length running + length woken
    → (t : Semaphore) × Move s t
some-Move s (i ∷ rest) woken e f h =
    (leave (record s { running = rest }), settles i rest (rw e (take_out-head i rest)))
some-Move s [] (i ∷ rest) e f h =
    (enter i (record s { woken = rest }), resumes i rest (rw f (take_out-head i rest)))
some-Move s [] [] e f h = absurd (omega arith)

wake-left :
    (q : List ℕ) (s : Semaphore)
    → s.queue ≡ q
    → (left (wake q s) ≡ left s) × (length (wake q s).woken ≤ suc (length s.woken))
unfolding wake
wake-left [] s e = (refl, omega arith)
wake-left (n ∷ rest) s e = (
  omega (arith, length-append s.woken (n ∷ []), ap length e),
  omega (arith, length-append s.woken (n ∷ [])),
)

enter-left :
    (i : ℕ) (s : Semaphore)
    → (left (enter i s) ≡ suc (left s)) × (length (enter i s).woken ≡ length s.woken)
unfolding enter
enter-left i s = (ground (arith, length-append s.queue (i ∷ [])), ground arith)

-- One unit of work less outweighs one more woken call.
work_falls : (a b v w : ℕ) → a ≡ suc b → w ≤ suc v → b * (b + 2) + w < a * (a + 2) + v
work_falls a b v w e h = rw e (omega arith)

Move-work : {s t : Semaphore} → Move s t → work t < work s
unfolding leave
Move-work {s} (settles i rest e) =
    let freed = record s { running = rest; count = suc s.count } in
    let (same, woken) = wake-left s.queue freed refl in
    work_falls (left s) (left (wake s.queue freed)) (length s.woken)
      (length (wake s.queue freed).woken) (omega (arith, same, length-take_out i s.running rest e))
      woken
Move-work {s} (resumes i rest e) =
    let (more, same) = enter-left i (record s { woken = rest }) in
    let fewer = length-take_out i s.woken rest e in
    let level : left (enter i (record s { woken = rest })) ≡ left s = omega (arith, more, fewer) in
    rw level (omega (arith, same, fewer))

-- No call is lost: in every reachable state where a call has not ended, some call at hand can move,
-- that is a function is running or a woken call has yet to run on. And every such move uses up some
-- of a finite amount of work, so without new calls all calls end.
pub calls_end :
    (most : ℕ) (s : Semaphore)
    → Reach (new most) s
    → (0 < length s.running + length s.woken + length s.queue → (t : Semaphore) × Move s t)
      × ((t : Semaphore) → Move s t → work t < work s)
calls_end most s r =
    let v = Reach-Inv most r in
    (λ h. some-Move s s.running s.woken refl refl (busy s.queue refl h v), λ t m. Move-work m)
  where
    busy :
        (q : List ℕ) → s.queue ≡ q → 0 < left s → Inv most s → 0 < length s.running + length s.woken
    busy [] e h v = omega (arith, ap length e)
    busy (n ∷ q) e h v = omega (arith, v.places, v.owed (λ c. absurd (ground (arith, c, e))))
