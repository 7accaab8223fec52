-- ===== src/Logs/Origin.antt =====
-- Where an error comes from in this repository's own code (error-origin.util.ts). Objects may refer to
-- one another in a circle, so a value is a reference into a heap of objects. A while loop runs on fuel
-- and gives none if that is used up; `depth` is the source's own counter.
pub mod Ending
pub mod Chain
mod Tests
use nestjs_ddd_lean.Prelude.{
  ℕ, suc, zero, Bool, true, false, not, ◌&&◌, ◌||◌, ◌==◌, same_text, Option, none, some, List, [],
  ◌∷◌, ltb, if◌then◌else◌,
}
use nestjs_ddd_lean.Logs.Frames.{frame_from_stack}

-- An object's `stack` where it is a text, and its `cause`: a reference, or nothing that can be followed.
pub record Object : Type 0 where
  pub stack : Option (List ℕ)
  pub cause : Option ℕ

abbrev pub Heap : Type 0
Heap = ℕ → Object

abbrev pub max_cause_depth : ℕ
max_cause_depth = 10

-- `seen.has(current)`
abbrev pub seen_has : ℕ → List ℕ → Bool
seen_has id [] = false
seen_has id (i ∷ is) = i == id || seen_has id is

-- `stackOf`
unfoldable pub stack_of : Heap → ℕ → Option (List ℕ)
stack_of heap id = (heap id).stack

-- `causeOf`
unfoldable pub cause_of : Heap → ℕ → Option ℕ
cause_of heap id = (heap id).cause

-- `ErrorOrigin`; `{}` is two times none.
pub record ErrorOrigin : Type 0 where
  pub origin : Option (List ℕ)
  pub cause_origin : Option (List ℕ)

-- The variables of `resolveErrorOrigin` and, for the first loop, `origin`; for the second, `causeOrigin`.
pub record Walk : Type 0 where
  pub seen : List ℕ
  pub depth : ℕ
  pub current : Option ℕ
  pub found : Option (List ℕ)

-- `isTraversable(current) && depth < MAX_CAUSE_DEPTH && !seen.has(current)`, with the reference.
abbrev pub allowed : Option ℕ → ℕ → List ℕ → Option ℕ
allowed none depth seen = none
allowed (some id) depth seen =
    if ltb depth max_cause_depth && not (seen_has id seen) then some id else none

abbrev pub goes_on : Walk → Option ℕ
goes_on w = allowed w.current w.depth w.seen

-- `frame`, where it is a text that is not empty.
abbrev given : Option (List ℕ) → Option (List ℕ)
given none = none
given (some []) = none
given (some (c ∷ s)) = some (c ∷ s)

abbrev pub frame_at : Heap → ℕ → Option (List ℕ)
frame_at heap id = given (frame_from_stack (stack_of heap id))

-- `frame && frame !== origin`
abbrev pub unlike : List ℕ → Option (List ℕ) → Option (List ℕ)
unlike origin none = none
unlike origin (some frame) = if same_text frame origin then none else some frame

-- The body of a loop, that looks for what `pick` takes of an object.
unfoldable pub visit : Heap → (ℕ → Option (List ℕ)) → ℕ → Walk → Walk
visit heap pick id w = record {
  seen = id ∷ w.seen;
  depth = suc w.depth;
  current = cause_of heap id;
  found = pick id;
}

abbrev pub found_text : Walk → Bool
found_text w = elim w.found [ none ↦ false | some f ↦ true ]

unfoldable pub walk : ℕ → Heap → (ℕ → Option (List ℕ)) → Walk → Option Walk
walk zero heap pick w = none
walk (suc fuel) heap pick w = elim (goes_on w) [
  | none ↦ some w
  | some id ↦
      let next = visit heap pick id w in
      let rest = walk fuel heap pick next in if found_text next then some next else rest
]

-- The second loop begins where the first one ended.
unfoldable pub second_walk : ℕ → Heap → Walk → Option (ErrorOrigin × List ℕ)
second_walk fuel heap w = elim w.found [
  | none ↦ some (record { origin = none; cause_origin = none }, w.seen)
  | some f ↦ elim (walk fuel heap (λ id. unlike f (frame_at heap id)) (record w { found = none })) [
    | none ↦ none
    | some v ↦ some (record { origin = some f; cause_origin = v.found }, v.seen)
  ]
]

-- `resolveErrorOrigin`, with the objects it has looked at, the last one first.
unfoldable pub resolve_error_origin : ℕ → Heap → Option ℕ → Option (ErrorOrigin × List ℕ)
resolve_error_origin fuel heap error =
    elim (walk fuel heap (frame_at heap)
      record { seen = []; depth = 0; current = error; found = none }) [
        | none ↦ none
        | some w ↦ second_walk fuel heap w
      ]
