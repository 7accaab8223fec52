-- ===== src/Database/Pools/Pinging.antt =====
-- When the health check of all sources fails (pool.manager.ts, `pingAll`).
use nestjs_ddd_lean.Prelude.{
  ℕ, zero, suc, ◌+◌, ◌≤◌, ◌<◌, ◌≡◌, ◌≢◌, ◌↔◌, ◌⊎◌, inl, inr, refl, sym, ap, subst, ◌∙◌, Bool, true,
  false, not, Bool-cases, Option, none, some, Option-cases, List, [], ◌∷◌, ◌++◌, String, All,
  All-filter, map, filter, is_empty, has, if◌then◌else◌, arith, ltb, ltb→lt,
}
use nestjs_ddd_lean.Errors.{HealthFailure, aggregate_db_health_error}
use nestjs_ddd_lean.Database.Mapper.{Raised}
use nestjs_ddd_lean.Database.Pools.{
  Client, oracle_client, not_implemented_client, implemented, PoolManager, Pinged, ok, exhausted,
  ping_loop, report, ping_source, ping_each, required_keys, ping_all,
}

is_empty-append :
    {A : Type 0} (xs ys : List A)
    → is_empty (xs ++ ys) ≡ true
    → (is_empty xs ≡ true) × (is_empty ys ≡ true)
is_empty-append [] ys h = (refl, h)
is_empty-append (x ∷ xs) ys h = absurd (ground arith)

is_empty-both :
    {A : Type 0} (xs ys : List A)
    → is_empty xs ≡ true
    → is_empty ys ≡ true
    → is_empty (xs ++ ys) ≡ true
is_empty-both [] ys h k = k
is_empty-both (x ∷ xs) ys h k = absurd (ground arith)

both_halves :
    {A : Type 0} (P : A → Type 0) (p : A → Bool) (xs : List A)
    → All P (filter p xs)
    → All P (filter (λ x. not (p x)) xs)
    → All P xs
both_halves P p [] h k = tt
both_halves P p (x ∷ xs) h k = elim (Bool-cases (p x)) [
  | inl t ↦
      let h' : P x × All P (filter p xs) =
        subst (λ b. All P (if b then x ∷ filter p xs else filter p xs)) t h in
      let k' : All P (filter (λ x. not (p x)) xs) =
        subst
          (λ b.
            All P (if not b then x ∷ filter (λ x. not (p x)) xs else filter (λ x. not (p x)) xs))
          t k in
      (h'.0, both_halves P p xs h'.1 k')
  | inr f ↦
      let h' : All P (filter p xs) =
        subst (λ b. All P (if b then x ∷ filter p xs else filter p xs)) f h in
      let k' : P x × All P (filter (λ x. not (p x)) xs) =
        subst
          (λ b.
            All P (if not b then x ∷ filter (λ x. not (p x)) xs else filter (λ x. not (p x)) xs))
          f k in
      (k'.0, both_halves P p xs h' k'.1)
]

no_failures :
    (fs : List HealthFailure)
    → ((if is_empty fs then none else some (aggregate_db_health_error fs)) ≡ none)
      ↔ (is_empty fs ≡ true)
no_failures [] = ((λ h. refl), (λ h. refl))
no_failures (f ∷ fs) = ((λ h. absurd (ground arith)), (λ h. absurd (ground arith)))

-- The keys that the check requires: the given ones, or those of the clients that can be pinged.
abbrev pub asked : Option (List String) → PoolManager → List String
asked none m = map (λ e. e.0) (filter (λ e. implemented e.1) m.clients)
asked (some []) m = map (λ e. e.0) (filter (λ e. implemented e.1) m.clients)
asked (some (key ∷ keys)) m = key ∷ keys

module _ (answers : String → ℕ → Option Raised) (latency : String → ℕ) (retries : ℕ) where
  -- A source that lets the check pass: not required, or implemented with an attempt that succeeds.
  abbrev Passes : List String → String × Client → Type 0
  Passes required (key, c) =
      (has key required ≡ false)
      ⊎ ((implemented c ≡ true)
          × (attempt : ℕ) × (1 ≤ attempt)
          × (attempt ≤ retries + 1)
          × (answers key attempt ≡ none))

  abbrev Ends : String → ℕ → ℕ → Pinged → Type 0
  Ends key left attempt (ok a) = (attempt < a) × (a ≤ attempt + left) × (answers key a ≡ none)
  Ends key left attempt (exhausted last) =
      (a : ℕ) → attempt < a → a ≤ attempt + left → answers key a ≢ none

  Ends-extend :
      (key : String) (left attempt : ℕ) (p : Pinged)
      → answers key (suc attempt) ≢ none
      → Ends key left (suc attempt) p
      → Ends key (suc left) attempt p
  Ends-extend key left attempt (ok a) h (low, high, good) = (omega arith, omega arith, good)
  Ends-extend key left attempt (exhausted last) h none_good = λ a low high.
      elim (Bool-cases (ltb (suc attempt) a)) [
        | inl later ↦ none_good a (ltb→lt _ _ later) (omega arith)
        | inr now ↦
            let same : a ≡ suc attempt = ground arith in
            λ good. h (ap (answers key) (sym same) ∙ good)
      ]

  ping_loop-Ends :
      (key : String) (left attempt : ℕ) (last : Option Raised)
      → Ends key left attempt (ping_loop answers latency retries key left attempt last)
  unfolding ping_loop
  ping_loop-Ends key zero attempt last = λ a h k. absurd (omega arith)
  ping_loop-Ends key (suc left) attempt last = elim (Option-cases (answers key (suc attempt))) [
    | inl good ↦
        let now : ping_loop answers latency retries key (suc left) attempt last ≡ ok (suc attempt) =
          ground (arith, good) in
        rw now (omega arith, omega arith, good)
    | inr (e, bad) ↦
        let fails : answers key (suc attempt) ≢ none = λ h. ground (arith, h, bad) in
        let next : ping_loop answers latency retries key (suc left) attempt last
            ≡ ping_loop answers latency retries key left (suc attempt) (some e) =
          ground (arith, bad) in
        rw next (
          Ends-extend key left attempt
            (ping_loop answers latency retries key left (suc attempt) (some e)) fails
            (ping_loop-Ends key left (suc attempt) (some e)))
  ]

  module _ (m : PoolManager) where
    report-Passes :
        (key : String) (required : List String) (p : Pinged)
        → Ends key (suc retries) 0 p
        → (is_empty (report answers latency retries m key (has key required) p).0 ≡ true)
          ↔ Passes required (key, oracle_client)
    unfolding report
    report-Passes key required (ok a) (low, high, good) =
        ((λ h. inr (refl, a, low, omega arith, good)), (λ h. refl))
    report-Passes key required (exhausted last) none_good = elim (Bool-cases (has key required)) [
      | inl needed ↦ (
        rw needed (λ h. absurd (ground arith)),
        λ h. elim h [
          | inl free ↦ absurd (ground (arith, free, needed))
          | inr (i, a, low, high, good) ↦ absurd (none_good a low (omega arith) good)
        ],
      )
      | inr free ↦ ((λ h. inl free), rw free (λ h. refl))
    ]

    ping_source-Passes :
        (required : List String) (e : String × Client)
        → (is_empty (ping_source answers latency retries m (has e.0 required) e).0 ≡ true)
          ↔ Passes required e
    unfolding ping_source
    ping_source-Passes required (key, oracle_client) =
        report-Passes key required _ (ping_loop-Ends key (suc retries) 0 none)
    ping_source-Passes required (key, not_implemented_client k d) =
        elim (Bool-cases (has key required)) [
          | inl needed ↦ (
            rw needed (λ h. absurd (ground arith)),
            λ h. elim h [
              | inl free ↦ absurd (ground (arith, free, needed))
              | inr (i, a, low, high, good) ↦ absurd (ground (arith, i))
            ],
          )
          | inr free ↦ ((λ h. inl free), rw free (λ h. refl))
        ]

    ping_each-Passes :
        (required : List String) (es : List (String × Client))
        → (is_empty (ping_each answers latency retries m required es).0 ≡ true)
          ↔ All (Passes required) es
    ping_each-Passes required [] = ((λ h. tt), (λ h. refl))
    ping_each-Passes required (e ∷ es) =
        let first = ping_source-Passes required e in
        let rest = ping_each-Passes required es in
        let fs = (ping_source answers latency retries m (has e.0 required) e).0 in
        let gs = (ping_each answers latency retries m required es).0 in
        (
          (λ h. (first.0 (is_empty-append fs gs h).0, rest.0 (is_empty-append fs gs h).1)),
          λ (p, ps). is_empty-both fs gs (first.1 p) (rest.1 ps),
        )

    asked-required_keys :
        (given : Option (List String))
        → required_keys answers latency retries given m ≡ asked given m
    unfolding required_keys
    asked-required_keys none = refl
    asked-required_keys (some []) = refl
    asked-required_keys (some (key ∷ keys)) = refl

    ping_all-Passes :
        (given : Option (List String))
        → ((ping_all answers latency retries given m).0 ≡ none)
          ↔ All (Passes (required_keys answers latency retries given m)) m.clients
    unfolding ping_all
    ping_all-Passes given =
        let required = required_keys answers latency retries given m in
        let P = Passes required in
        let placeholders = filter (λ e. not (implemented e.1)) m.clients in
        let pingable = filter (λ e. implemented e.1) m.clients in
        let fs = (ping_each answers latency retries m required placeholders).0 in
        let gs = (ping_each answers latency retries m required pingable).0 in
        (
          (λ h.
              let (a, b) = is_empty-append fs gs ((no_failures (fs ++ gs)).0 h) in
              both_halves P (λ e. implemented e.1) m.clients
                ((ping_each-Passes required pingable).0 b)
                ((ping_each-Passes required placeholders).0 a)),
          λ h. (no_failures (fs ++ gs)).1 (
              is_empty-both fs gs
                ((ping_each-Passes required placeholders).1 (All-filter P _ m.clients h))
                ((ping_each-Passes required pingable).1 (All-filter P _ m.clients h))),
        )

    -- For any clients and answers, the check of all sources throws nothing exactly if each source that
    -- has a client is either not required, or its client can be pinged and answers one of its attempts,
    -- of which there are one more than the retries. Required are the keys that are given, or, where
    -- none are, those of the clients that can be pinged. A required key without a client is not looked
    -- at.
    pub ping_all_passes :
        (given : Option (List String))
        → ((ping_all answers latency retries given m).0 ≡ none)
          ↔ All
              (λ e.
                (has e.0 (asked given m) ≡ false)
                ⊎ ((implemented e.1 ≡ true)
                    × (attempt : ℕ) × (1 ≤ attempt)
                    × (attempt ≤ retries + 1)
                    × (answers e.0 attempt ≡ none)))
              m.clients
    ping_all_passes given =
        subst
          (λ required.
            ((ping_all answers latency retries given m).0 ≡ none) ↔ All (Passes required) m.clients)
          (asked-required_keys given) (ping_all-Passes given)
