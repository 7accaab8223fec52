-- ===== src/Logs/Origin/Ending.antt =====
-- That the search for the origin of an error ends, also on causes in a circle (error-origin.util.ts).
use nestjs_ddd_lean.Prelude.{
  ℕ, suc, zero, ◌+◌, ◌≤◌, ◌<◌, ◌≡◌, refl, subst, false, not, ◌&&◌, Bool-cases, Option-cases, Option,
  none, some, some-injective, List, [], ◌∷◌, length, ltb, inl, inr, arith,
}
use nestjs_ddd_lean.Logs.Origin.{
  Heap, seen_has, ErrorOrigin, Walk, goes_on, frame_at, unlike, visit, found_text, walk, allowed,
  second_walk, resolve_error_origin,
}

abbrev pub Distinct : List ℕ → Type 0
Distinct [] = Unit
Distinct (i ∷ is) = (seen_has i is ≡ false) × Distinct is

-- What is true of the variables of a loop.
abbrev Good : Walk → Type 0
Good w = Distinct w.seen × (length w.seen ≡ w.depth) × (w.depth ≤ 10)

allowed-some :
    (current : Option ℕ) (depth : ℕ) (seen : List ℕ) (id : ℕ)
    → allowed current depth seen ≡ some id
    → (depth < 10) × (seen_has id seen ≡ false)
allowed-some none depth seen id e = absurd (ground arith)
allowed-some (some i) depth seen id e = elim (Bool-cases (ltb depth 10 && not (seen_has i seen))) [
  | inl on ↦
      subst (λ j. (depth < 10) × (seen_has j seen ≡ false))
        (some-injective i id (ground (arith, e, on))) (ground (arith, on), ground (arith, on))
  | inr off ↦ absurd (ground (arith, e, off))
]

visit-Good :
    (heap : Heap) (pick : ℕ → Option (List ℕ)) (id : ℕ) (w : Walk)
    → goes_on w ≡ some id
    → Good w
    → Good (visit heap pick id w)
unfolding visit
visit-Good heap pick id w e (d, l, b) =
    let (low, unseen) = allowed-some w.current w.depth w.seen id e in
    ((unseen, d), ground arith, ground arith)

walk-Good :
    (fuel : ℕ) (heap : Heap) (pick : ℕ → Option (List ℕ)) (w : Walk)
    → 10 < fuel + w.depth
    → Good w
    → (v : Walk) × (walk fuel heap pick w ≡ some v) × Good v
unfolding walk visit
walk-Good zero heap pick w h good = absurd (ground arith)
walk-Good (suc fuel) heap pick w h good = elim (Option-cases (goes_on w)) [
  | inl stopped ↦ (w, ground (arith, stopped), good)
  | inr (id, e) ↦
      let next = visit heap pick id w in
      elim (Bool-cases (found_text next)) [
        | inl found ↦ (next, ground (arith, e, found), visit-Good heap pick id w e good)
        | inr not_found ↦
            let (v, r, g) =
              walk-Good fuel heap pick next (omega (arith, h)) (visit-Good heap pick id w e good) in
            (v, ground (arith, e, not_found, r), g)
      ]
]

second_walk-Good :
    (fuel : ℕ) (heap : Heap) (w : Walk)
    → 10 < fuel
    → Good w
    → (r : ErrorOrigin × List ℕ) × (second_walk fuel heap w ≡ some r)
      × Distinct r.1
      × (length r.1 ≤ 10)
unfolding second_walk
second_walk-Good fuel heap w h (d, l, b) = elim (Option-cases w.found) [
  | inl e ↦ (
    (record { origin = none; cause_origin = none }, w.seen),
    ground (arith, e),
    d,
    omega (arith, l, b),
  )
  | inr (f, e) ↦
      let (v, ends, (d1, l1, b1)) =
        walk-Good fuel heap (λ id. unlike f (frame_at heap id)) (record w { found = none })
          (omega (arith, h)) (d, l, b) in
      (
        (record { origin = some f; cause_origin = v.found }, v.seen),
        ground (arith, e, ends),
        d1,
        omega (arith, l1, b1),
      )
]

-- For every error, also where causes lead back to an error before them, the search ends within 11
-- turns of each of its two loops; it looks at no object twice, and at no more than 10.
pub search_ends :
    (fuel : ℕ) (heap : Heap) (error : Option ℕ)
    → 10 < fuel
    → (r : ErrorOrigin × List ℕ) × (resolve_error_origin fuel heap error ≡ some r)
      × Distinct r.1
      × (length r.1 ≤ 10)
unfolding resolve_error_origin
search_ends fuel heap error h =
    let (w, ends, good) =
      walk-Good fuel heap (frame_at heap)
        record { seen = []; depth = 0; current = error; found = none } (omega (arith, h))
        (tt, refl, omega arith) in
    let (r, more, d, l) = second_walk-Good fuel heap w h good in
    (r, ground (arith, ends, more), d, l)
