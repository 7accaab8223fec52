-- ===== src/Legacy/Prefix.antt =====
-- Which paths are forwarded: the boundary of a prefix is a segment's (matches-prefix.util.ts).
use nestjs_ddd_lean.Prelude.{
  same_text, ℕ, ◌≡◌, refl, sym, ap, ◌∙◌, ◌↔◌, ◌⊎◌, inl, inr, Bool, true, false, ◌||◌, ◌==◌,
  is_empty, subst, Bool-cases, List, [], ◌∷◌, ◌++◌, append_assoc, any, arith,
}
use nestjs_ddd_lean.Legacy.{slash, strip_slash, normalize, starts_with, matches_legacy_prefix}

same_text-eq : (s t : List ℕ) → same_text s t ≡ true → s ≡ t
same_text-eq [] [] h = refl
same_text-eq [] (d ∷ ds) h = absurd (ground arith)
same_text-eq (c ∷ cs) [] h = absurd (ground arith)
same_text-eq (c ∷ cs) (d ∷ ds) h =
    let first : c ≡ d = ground arith in
    let rest : cs ≡ ds = same_text-eq cs ds (ground arith) in cc (first, rest)

same_text_refl : (s : List ℕ) → same_text s s ≡ true
same_text_refl [] = refl
same_text_refl (c ∷ cs) = ground (arith, same_text_refl cs)

starts_with-append : (s t : List ℕ) → starts_with (s ++ t) s ≡ true
starts_with-append [] [] = refl
starts_with-append [] (c ∷ t) = refl
starts_with-append (c ∷ s) t = ground (arith, starts_with-append s t)

starts_with-rest : (s t : List ℕ) → starts_with s t ≡ true → (rest : List ℕ) × (s ≡ t ++ rest)
starts_with-rest s [] h = (s, refl)
starts_with-rest [] (c ∷ cs) h = absurd (ground arith)
starts_with-rest (d ∷ ds) (c ∷ cs) h =
    let (rest, e) = starts_with-rest ds cs (ground arith) in
    let first : d ≡ c = ground arith in (rest, cc (first, e))

abbrev pub ends_in_slash : List ℕ → Bool
ends_in_slash [] = false
ends_in_slash (c ∷ []) = c == slash
ends_in_slash (c ∷ d ∷ ds) = ends_in_slash (d ∷ ds)

-- A path without the one slash that may stand at its end; the path of a slash alone keeps it.
abbrev pub Trimmed : (path trimmed : List ℕ) → Type 0
Trimmed path t =
    ((path ≡ t ++ slash ∷ []) × (is_empty t ≡ false))
    ⊎ ((path ≡ t) × ((t ≡ slash ∷ []) ⊎ (ends_in_slash t ≡ false)))

-- A path that is one of the prefixes, or goes on after it with a slash, both trimmed.
abbrev pub Under : List ℕ → List (List ℕ) → Type 0
Under path [] = ⊥
Under path (prefix ∷ prefixes) =
    ((t p : List ℕ) × Trimmed path t
      × Trimmed prefix p
      × ((t ≡ p) ⊎ ((rest : List ℕ) × (t ≡ p ++ slash ∷ rest))))
    ⊎ Under path prefixes

strip_slash-Trimmed :
    (c : ℕ) (s : List ℕ)
    → ((c ∷ s ≡ strip_slash c s ++ slash ∷ []) × (ends_in_slash (c ∷ s) ≡ true))
      ⊎ ((c ∷ s ≡ strip_slash c s) × (ends_in_slash (c ∷ s) ≡ false))
strip_slash-Trimmed c [] = elim (Bool-cases (c == slash)) [
  | inl t ↦ inl (ground (arith, t), t)
  | inr f ↦ inr (ground (arith, f), f)
]
strip_slash-Trimmed c (d ∷ s) = elim (strip_slash-Trimmed d s) [
  | inl (e, t) ↦ inl (ap (λ r. c ∷ r) e, t)
  | inr (e, f) ↦ inr (ap (λ r. c ∷ r) e, f)
]

normalize-Trimmed : (path : List ℕ) → Trimmed path (normalize path)
unfolding normalize
normalize-Trimmed [] = inr (refl, inr refl)
normalize-Trimmed (c ∷ []) = elim (Bool-cases (c == slash)) [
  | inl t ↦ inr (refl, inl (ground (arith, t)))
  | inr f ↦ inr (refl, inr f)
]
normalize-Trimmed (c ∷ d ∷ s) = elim (strip_slash-Trimmed d s) [
  | inl (e, t) ↦ inl (ap (λ r. c ∷ r) e, refl)
  | inr (e, f) ↦
      let same : c ∷ d ∷ s ≡ c ∷ strip_slash d s = ap (λ r. c ∷ r) e in
      inr (same, inr (ap ends_in_slash (sym same) ∙ f))
]

strip_slash-append : (c : ℕ) (s : List ℕ) → strip_slash c (s ++ slash ∷ []) ≡ c ∷ s
strip_slash-append c [] = refl
strip_slash-append c (d ∷ s) = ap (λ r. c ∷ r) (strip_slash-append d s)

strip_slash_id : (c : ℕ) (s : List ℕ) → ends_in_slash (c ∷ s) ≡ false → strip_slash c s ≡ c ∷ s
strip_slash_id c [] h = ground (arith, h)
strip_slash_id c (d ∷ s) h = ap (λ r. c ∷ r) (strip_slash_id d s h)

normalize-append : (t : List ℕ) → is_empty t ≡ false → normalize (t ++ slash ∷ []) ≡ t
unfolding normalize
normalize-append [] h = absurd (ground arith)
normalize-append (c ∷ []) h = refl
normalize-append (c ∷ d ∷ s) h = ap (λ r. c ∷ r) (strip_slash-append d s)

normalize_id : (t : List ℕ) → ends_in_slash t ≡ false → normalize t ≡ t
unfolding normalize
normalize_id [] h = refl
normalize_id (c ∷ []) h = refl
normalize_id (c ∷ d ∷ s) h = ap (λ r. c ∷ r) (strip_slash_id d s h)

Trimmed-normalize : (path t : List ℕ) → Trimmed path t → normalize path ≡ t
unfolding normalize
Trimmed-normalize path t (inl (e, h)) = ap normalize e ∙ normalize-append t h
Trimmed-normalize path t (inr (e, inl bare)) = ap normalize (e ∙ bare) ∙ sym bare
Trimmed-normalize path t (inr (e, inr f)) = ap normalize e ∙ normalize_id t f

module _ (path : List ℕ) where
  abbrev target : List ℕ
  target = normalize path

  abbrev falls_under : List ℕ → Bool
  falls_under prefix =
      same_text target (normalize prefix) || starts_with target (normalize prefix ++ slash ∷ [])

  falls_under-path :
      (prefix : List ℕ)
      → falls_under prefix ≡ true
      → (target ≡ normalize prefix)
        ⊎ ((rest : List ℕ) × (target ≡ normalize prefix ++ slash ∷ rest))
  falls_under-path prefix h = elim (Bool-cases (same_text target (normalize prefix))) [
    | inl same ↦ inl (same_text-eq target (normalize prefix) same)
    | inr differ ↦
        let (rest, e) =
          starts_with-rest target (normalize prefix ++ slash ∷ []) (ground (arith, h, differ)) in
        inr (rest, e ∙ append_assoc (normalize prefix) (slash ∷ []) rest)
  ]

  path-falls_under :
      (prefix : List ℕ)
      → ((target ≡ normalize prefix)
          ⊎ ((rest : List ℕ) × (target ≡ normalize prefix ++ slash ∷ rest)))
      → falls_under prefix ≡ true
  path-falls_under prefix (inl e) =
      let same : same_text target (normalize prefix) ≡ true =
        ap (λ t. same_text t (normalize prefix)) e ∙ same_text_refl (normalize prefix) in
      ground (arith, same)
  path-falls_under prefix (inr (rest, e)) =
      let starts : starts_with target (normalize prefix ++ slash ∷ []) ≡ true =
        ap (λ t. starts_with t (normalize prefix ++ slash ∷ []))
          (e ∙ sym (append_assoc (normalize prefix) (slash ∷ []) rest))
        ∙ starts_with-append (normalize prefix ++ slash ∷ []) rest in
      elim (Bool-cases (same_text target (normalize prefix))) [
        | inl same ↦ ground (arith, same)
        | inr differ ↦ ground (arith, starts, differ)
      ]

  falls_under-Trimmed :
      (prefix t p : List ℕ)
      → Trimmed path t
      → Trimmed prefix p
      → (t ≡ p) ⊎ ((rest : List ℕ) × (t ≡ p ++ slash ∷ rest))
      → falls_under prefix ≡ true
  falls_under-Trimmed prefix t p a b h = path-falls_under prefix (
      subst (λ q. (target ≡ q) ⊎ ((rest : List ℕ) × (target ≡ q ++ slash ∷ rest)))
        (sym (Trimmed-normalize prefix p b))
        (subst (λ u. (u ≡ p) ⊎ ((rest : List ℕ) × (u ≡ p ++ slash ∷ rest)))
          (sym (Trimmed-normalize path t a)) h))

  any-Under : (prefixes : List (List ℕ)) → (any falls_under prefixes ≡ true) ↔ Under path prefixes
  any-Under [] = ((λ h. absurd (ground arith)), (λ h. absurd h))
  any-Under (prefix ∷ prefixes) = (
    (λ h. elim (Bool-cases (falls_under prefix)) [
      | inl here ↦ inl (
        target,
        normalize prefix,
        normalize-Trimmed path,
        normalize-Trimmed prefix,
        falls_under-path prefix here,
      )
      | inr there ↦ inr ((any-Under prefixes).0 (ground (arith, h, there)))
    ]),
    λ h. elim h [
      | inl (t, p, a, b, here) ↦
          ap (λ c. c || any falls_under prefixes) (falls_under-Trimmed prefix t p a b here)
      | inr there ↦ elim (Bool-cases (falls_under prefix)) [
        | inl here ↦ ap (λ b. b || any falls_under prefixes) here
        | inr not_here ↦
            ap (λ b. b || any falls_under prefixes) not_here ∙ (any-Under prefixes).1 there
      ]
    ],
  )

-- A path is forwarded exactly if it is one of the prefixes, or such a prefix followed by a slash and
-- anything else, where one slash at the end of the path and of the prefix is left out, unless it is the
-- whole: a prefix never matches a part of a segment.
pub matches_legacy_prefix_iff :
    (path : List ℕ) (prefixes : List (List ℕ))
    → (matches_legacy_prefix path prefixes ≡ true) ↔ Under path prefixes
unfolding matches_legacy_prefix
matches_legacy_prefix_iff path prefixes = any-Under path prefixes
