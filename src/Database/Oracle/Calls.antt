-- ===== src/Database/Oracle/Calls.antt =====
-- The calls at a connection (oracle.client.ts): where a series of them ends by an error, and whether the
-- connection has been given back.
use nestjs_ddd_lean.Prelude.{
  ℕ, ◌≡◌, refl, ◌∙◌, Bool, true, false, Option, none, some, Option-cases, inl, inr, List, [], ◌∷◌,
  ◌++◌, append_assoc, All, or_else, if_ind, ltb, arith,
}
use nestjs_ddd_lean.Database.Mapper.{Raised}
use nestjs_ddd_lean.Database.Oracle.{
  Source, ConnectionOptions, Call, set_client_id, set_call_timeout, close, prepared, first_failure,
}

abbrev pub closes : Call → Bool
closes (close drop) = true
closes _ = false

abbrev pub is_setter : Call → Bool
is_setter (set_client_id u) = true
is_setter (set_call_timeout n) = true
is_setter _ = false

-- No connection was borrowed, or the last call closes it.
abbrev pub given_back : List Call → Bool
given_back [] = true
given_back (c ∷ []) = closes c
given_back (c ∷ d ∷ ds) = given_back (d ∷ ds)

pub given_back-append : (xs : List Call) (c : Call) → given_back (xs ++ c ∷ []) ≡ closes c
given_back-append [] c = refl
given_back-append (x ∷ []) c = refl
given_back-append (x ∷ y ∷ xs) c = given_back-append (y ∷ xs) c

-- What holds of the calls that set a session up.
pub prepared-All :
    (P : Call → Type 0)
    → ((n : ℕ) → P (set_call_timeout n))
    → ((u : List ℕ) → P (set_client_id u))
    → (source : Source) (options : ConnectionOptions) (name : Option (List ℕ))
    → All P (prepared source options name)
prepared-All P timeout client source options none =
    if_ind (λ (cs : List Call). All P (cs ++ []))
      (ltb 0 (or_else options.call_timeout_ms source.call_timeout_ms)) (λ t. (timeout _, tt))
      (λ f. tt)
prepared-All P timeout client source options (some u) =
    if_ind (λ (cs : List Call). All P (cs ++ set_client_id u ∷ []))
      (ltb 0 (or_else options.call_timeout_ms source.call_timeout_ms))
      (λ t. (timeout _, (client u, tt))) (λ f. (client u, tt))

module _ (throws : List Call → Option Raised) where
  -- The calls up to one that threw.
  abbrev pub FailedAt :
      (Call → Type 0) → (history : List Call) → Option (List Call × Raised) → Type 0
  FailedAt P history none = Unit
  FailedAt P history (some (calls, e)) =
      (done : List Call) × (c : Call) × (calls ≡ history ++ (done ++ c ∷ []))
      × All P done
      × P c
      × (throws calls ≡ some e)

  FailedAt-extend :
      (P : Call → Type 0) (history : List Call) (c : Call) (f : Option (List Call × Raised))
      → P c
      → FailedAt P (history ++ c ∷ []) f
      → FailedAt P history f
  FailedAt-extend P history c none p h = tt
  FailedAt-extend P history c (some (calls, e)) p (done, d, same, ps, q, threw) =
      (c ∷ done, d, same ∙ append_assoc history (c ∷ []) (done ++ d ∷ []), (p, ps), q, threw)

  pub first_failure-FailedAt :
      (P : Call → Type 0) (history cs : List Call)
      → All P cs
      → FailedAt P history (first_failure throws history cs)
  unfolding first_failure
  first_failure-FailedAt P history [] h = tt
  first_failure-FailedAt P history (c ∷ cs) (p, ps) =
      elim (Option-cases (throws (history ++ c ∷ []))) [
        | inl passes ↦
            let next : first_failure throws history (c ∷ cs)
                ≡ first_failure throws (history ++ c ∷ []) cs =
              ground (arith, passes) in
            rw next (
              FailedAt-extend P history c (first_failure throws (history ++ c ∷ []) cs) p
                (first_failure-FailedAt P (history ++ c ∷ []) cs ps))
        | inr (e, bad) ↦
            let now : first_failure throws history (c ∷ cs) ≡ some (history ++ c ∷ [], e) =
              ground (arith, bad) in
            rw now ([], c, refl, tt, p, bad)
      ]

  -- Where no call throws.
  pub first_failure-none :
      (history : List Call) (c : Call) (cs : List Call)
      → first_failure throws history (c ∷ cs) ≡ none
      → (throws (history ++ c ∷ []) ≡ none) × (first_failure throws (history ++ c ∷ []) cs ≡ none)
  unfolding first_failure
  first_failure-none history c cs h = elim (Option-cases (throws (history ++ c ∷ []))) [
    | inl passes ↦ (passes, ground (arith, h, passes))
    | inr (e, bad) ↦ absurd (ground (arith, h, bad))
  ]
