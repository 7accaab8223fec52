-- ===== src/Logs/Origin/Chain.antt =====
-- What the search for the origin of an error finds (error-origin.util.ts).
use nestjs_ddd_lean.Prelude.{
  ℕ, suc, zero, ◌+◌, ◌<◌, ◌≡◌, refl, sym, ap, ◌∙◌, subst, not, ◌&&◌, Bool-cases, Option-cases,
  Option, none, some, some-injective, List, [], ◌∷◌, ltb, if◌then◌else◌, inl, inr, arith,
}
use nestjs_ddd_lean.Logs.Origin.{
  Heap, seen_has, cause_of, ErrorOrigin, Walk, goes_on, frame_at, unlike, visit, walk, allowed,
  second_walk, resolve_error_origin,
}

-- The first objects of a chain of causes, up to a number of them and to the first that comes again.
abbrev pub chain : ℕ → Heap → (seen : List ℕ) → Option ℕ → List ℕ
chain zero heap seen error = []
chain (suc n) heap seen none = []
chain (suc n) heap seen (some id) =
    let rest = chain n heap (id ∷ seen) (cause_of heap id) in
    if seen_has id seen then [] else id ∷ rest

-- The first text that the objects give, and the objects after that one.
abbrev pub first_text : (ℕ → Option (List ℕ)) → List ℕ → Option (List ℕ × List ℕ)
first_text pick [] = none
first_text pick (id ∷ ids) =
    let rest = first_text pick ids in elim (pick id) [ none ↦ rest | some s ↦ some (s, ids) ]

abbrev pub text_of : Option (List ℕ × List ℕ) → Option (List ℕ)
text_of none = none
text_of (some m) = some m.0

-- The first frame of a chain, and the first one after it that is another.
abbrev pub expected : Heap → Option (List ℕ × List ℕ) → ErrorOrigin
expected heap none = record { origin = none; cause_origin = none }
expected heap (some m) = record {
  origin = some m.0;
  cause_origin = text_of (first_text (λ id. unlike m.0 (frame_at heap id)) m.1);
}

chain-stopped :
    (left : ℕ) (heap : Heap) (current : Option ℕ) (depth : ℕ) (seen : List ℕ)
    → left + depth ≡ 10
    → allowed current depth seen ≡ none
    → chain left heap seen current ≡ []
chain-stopped zero heap current depth seen h e = refl
chain-stopped (suc n) heap none depth seen h e = refl
chain-stopped (suc n) heap (some id) depth seen h e = ground (arith, h, e)

chain-goes :
    (left : ℕ) (heap : Heap) (current : Option ℕ) (depth : ℕ) (seen : List ℕ) (id : ℕ)
    → left + depth ≡ 10
    → allowed current depth seen ≡ some id
    → (n : ℕ) × (left ≡ suc n)
      × (chain left heap seen current ≡ id ∷ chain n heap (id ∷ seen) (cause_of heap id))
chain-goes zero heap none depth seen id h e = absurd (ground arith)
chain-goes zero heap (some i) depth seen id h e = absurd (ground (arith, h, e))
chain-goes (suc n) heap none depth seen id h e = absurd (ground arith)
chain-goes (suc n) heap (some i) depth seen id h e =
    elim (Bool-cases (ltb depth 10 && not (seen_has i seen))) [
      | inl on ↦ (
        n,
        refl,
        subst
            (λ j. chain (suc n) heap seen (some i) ≡ j ∷ chain n heap (j ∷ seen) (cause_of heap j))
            (some-injective i id (ground (arith, e, on))) (ground (arith, on)),
      )
      | inr off ↦ absurd (ground (arith, e, off))
    ]

-- How a loop has ended, for what the objects before it gave.
abbrev Ended : Heap → Walk → Option (List ℕ × List ℕ) → Type 0
Ended heap v none = v.found ≡ none
Ended heap v (some m) =
    (v.found ≡ some m.0)
    × ((left : ℕ) × (left + v.depth ≡ 10) × (chain left heap v.seen v.current ≡ m.1))

first-found :
    (pick : ℕ → Option (List ℕ)) (id : ℕ) (ids s : List ℕ)
    → pick id ≡ some s
    → first_text pick (id ∷ ids) ≡ some (s, ids)
first-found pick id ids s h = ground (arith, h)

first-missing :
    (pick : ℕ → Option (List ℕ)) (id : ℕ) (ids : List ℕ)
    → pick id ≡ none
    → first_text pick (id ∷ ids) ≡ first_text pick ids
first-missing pick id ids h = ground (arith, h)

walk-Ended :
    (fuel : ℕ) (heap : Heap) (pick : ℕ → Option (List ℕ)) (left : ℕ) (w : Walk)
    → left < fuel
    → left + w.depth ≡ 10
    → w.found ≡ none
    → (v : Walk) × (walk fuel heap pick w ≡ some v)
      × Ended heap v (first_text pick (chain left heap w.seen w.current))
unfolding walk visit
walk-Ended zero heap pick left w h d e = absurd (ground arith)
walk-Ended (suc fuel) heap pick left w h d e = elim (Option-cases (goes_on w)) [
  | inl stopped ↦ (
    w,
    ground (arith, stopped),
    subst (λ c. Ended heap w (first_text pick c))
        (sym (chain-stopped left heap w.current w.depth w.seen d stopped)) e,
  )
  | inr (id, go) ↦
      let next = visit heap pick id w in
      let (n, one_more, c) = chain-goes left heap w.current w.depth w.seen id d go in
      elim (Option-cases (pick id)) [
        | inr (s, found) ↦ (
          next,
          ground (arith, go, found),
          subst (Ended heap next) (sym (ap (first_text pick) c ∙ first-found pick id _ s found))
              (found, (n, omega (arith, d, one_more), refl)),
        )
        | inl not_found ↦
            let (v, r, g) =
              walk-Ended fuel heap pick n next (omega (arith, h, one_more))
                (omega (arith, d, one_more)) not_found in
            (
              v,
              ground (arith, go, not_found, r),
              subst (Ended heap v)
                  (sym (ap (first_text pick) c ∙ first-missing pick id _ not_found)) g,
            )
      ]
]

abbrev pub result : Option (ErrorOrigin × List ℕ) → Option ErrorOrigin
result none = none
result (some r) = some r.0

found-Ended :
    (heap : Heap) (v : Walk) (m : Option (List ℕ × List ℕ)) → Ended heap v m → v.found ≡ text_of m
found-Ended heap v none h = h
found-Ended heap v (some m) h = h.0

second_walk-expected :
    (fuel : ℕ) (heap : Heap) (w : Walk) (m : Option (List ℕ × List ℕ))
    → 10 < fuel
    → Ended heap w m
    → result (second_walk fuel heap w) ≡ some (expected heap m)
unfolding second_walk
second_walk-expected fuel heap w none h e = ground (arith, e)
second_walk-expected fuel heap w (some m) h (found, (left, deep, c)) =
    let pick : ℕ → Option (List ℕ) = λ id. unlike m.0 (frame_at heap id) in
    let (v, ends, last) =
      walk-Ended fuel heap pick left (record w { found = none }) (omega (arith, h, deep)) deep
        refl in
    let same : v.found ≡ text_of (first_text pick m.1) =
      found-Ended heap v _ last ∙ ap (λ ids. text_of (first_text pick ids)) c in
    ground (arith, found, ends, same)

-- The origin of an error is the first frame of the project's code along its first ten causes, itself
-- included, up to one that comes again; the other frame is the first one after that which differs
-- from it; and each is left out where there is none.
pub origin_of_chain :
    (fuel : ℕ) (heap : Heap) (error : Option ℕ)
    → 10 < fuel
    → result (resolve_error_origin fuel heap error)
      ≡ some (expected heap (first_text (frame_at heap) (chain 10 heap [] error)))
unfolding resolve_error_origin
origin_of_chain fuel heap error h =
    let (w, ends, last) =
      walk-Ended fuel heap (frame_at heap) 10
        record { seen = []; depth = 0; current = error; found = none } h refl refl in
    ground (arith, ends, second_walk-expected fuel heap w _ h last)
