-- ===== src/Bootstrap/Attempts.antt =====
-- Kinds of steps of a start, and what attempting steps up to one that throws makes of their order
-- (main.ts).
use nestjs_ddd_lean.Prelude.{
  ◌≡◌, refl, Bool, true, false, not, ◌&&◌, Bool-cases, Option-cases, List, [], ◌∷◌, ◌++◌, String,
  any, all, is_some, ◌⊎◌, inl, inr, arith,
}
use nestjs_ddd_lean.Config.Checks.{InvalidConfig}
use nestjs_ddd_lean.Bootstrap.{
  Step, start_primary, create_application, install_shutdown_handlers, exit_1, print_error,
  print_failure, use_forwarder, use_cookie_parser, use_json_parser, use_urlencoded_parser, listen,
  failed, Throws, attempt,
}

abbrev pub is_parser : Step → Bool
is_parser use_cookie_parser = true
is_parser (use_json_parser l) = true
is_parser (use_urlencoded_parser l) = true
is_parser s = false

abbrev pub is_forwarder : Step → Bool
is_forwarder use_forwarder = true
is_forwarder s = false

abbrev pub is_listen : Step → Bool
is_listen (listen p) = true
is_listen s = false

abbrev pub is_application : Step → Bool
is_application (create_application h) = true
is_application s = false

abbrev pub is_primary_start : Step → Bool
is_primary_start start_primary = true
is_primary_start s = false

-- No step of one kind comes after one of another.
abbrev pub never_after : (earlier later : Step → Bool) → List Step → Bool
never_after earlier later [] = true
never_after earlier later (s ∷ ss) =
    let rest = never_after earlier later ss in not (later s && any earlier ss) && rest

abbrev pub is_install : Step → Bool
is_install install_shutdown_handlers = true
is_install s = false

abbrev pub is_exit : Step → Bool
is_exit exit_1 = true
is_exit s = false

-- No step of a list throws.
abbrev pub all_done : Throws → List Step → Bool
all_done throws steps = all (λ s. not (is_some (throws s))) steps

-- A kind of step that is not among those that end a start with an error.
abbrev Unfailing : (Step → Bool) → Type 0
Unfailing p = (e : InvalidConfig ⊎ String) → any p (failed e) ≡ false

failed-kinds :
    (p : Step → Bool)
    → ((m : String) → p (print_error m) ≡ false)
    → ((m : String) → p (print_failure m) ≡ false)
    → p exit_1 ≡ false
    → Unfailing p
unfolding failed
failed-kinds p a b c (inl e) = ground (arith, a e.message, c)
failed-kinds p a b c (inr e) = ground (arith, b e, c)

pub is_application-Unfailing : Unfailing is_application
is_application-Unfailing = failed-kinds is_application (λ m. refl) (λ m. refl) refl

pub is_forwarder-Unfailing : Unfailing is_forwarder
is_forwarder-Unfailing = failed-kinds is_forwarder (λ m. refl) (λ m. refl) refl

pub is_install-Unfailing : Unfailing is_install
is_install-Unfailing = failed-kinds is_install (λ m. refl) (λ m. refl) refl

pub is_listen-Unfailing : Unfailing is_listen
is_listen-Unfailing = failed-kinds is_listen (λ m. refl) (λ m. refl) refl

pub is_parser-Unfailing : Unfailing is_parser
is_parser-Unfailing = failed-kinds is_parser (λ m. refl) (λ m. refl) refl

pub is_primary_start-Unfailing : Unfailing is_primary_start
is_primary_start-Unfailing = failed-kinds is_primary_start (λ m. refl) (λ m. refl) refl

module _ (throws : Throws) where
  pub attempt-any :
      (p : Step → Bool) (xs zs : List Step)
      → Unfailing p
      → any p xs ≡ false
      → any p (attempt throws (xs ++ zs)) ≡ (all_done throws xs && any p (attempt throws zs))
  unfolding attempt
  attempt-any p [] zs u h = refl
  attempt-any p (s ∷ xs) zs u h = elim (Option-cases (throws s)) [
    | inl done ↦ ground (arith, done, h, attempt-any p xs zs u (ground (arith, h)))
    | inr (e, bad) ↦ ground (arith, bad, h, u e)
  ]

  pub attempt-no :
      (p : Step → Bool) (xs : List Step)
      → Unfailing p
      → any p xs ≡ false
      → any p (attempt throws xs) ≡ false
  unfolding attempt
  attempt-no p [] u h = refl
  attempt-no p (s ∷ xs) u h = elim (Option-cases (throws s)) [
    | inl done ↦ ground (arith, done, h, attempt-no p xs u (ground (arith, h)))
    | inr (e, bad) ↦ ground (arith, bad, h, u e)
  ]

  failed-never :
      (earlier later : Step → Bool) (e : InvalidConfig ⊎ String)
      → any earlier (failed e) ≡ false
      → never_after earlier later (failed e) ≡ true
  unfolding failed
  failed-never earlier later (inl e) h = ground (arith, h)
  failed-never earlier later (inr e) h = ground (arith, h)

  pub attempt-never :
      (earlier later : Step → Bool) (xs : List Step)
      → Unfailing earlier
      → never_after earlier later xs ≡ true
      → never_after earlier later (attempt throws xs) ≡ true
  unfolding attempt
  attempt-never earlier later [] u h = refl
  attempt-never earlier later (s ∷ xs) u h = elim (Option-cases (throws s)) [
    | inr (e, bad) ↦ ground (arith, bad, h, u e, failed-never earlier later e (u e))
    | inl done ↦
        let rest = attempt-never earlier later xs u (ground (arith, h)) in
        elim (Bool-cases (any earlier xs)) [
          | inl some_later ↦ ground (arith, done, h, some_later, rest)
          | inr none_later ↦ ground (arith, done, rest, attempt-no earlier xs u none_later)
        ]
  ]

  failed-exits : (e : InvalidConfig ⊎ String) → any is_exit (failed e) ≡ true
  unfolding failed
  failed-exits (inl e) = refl
  failed-exits (inr e) = refl

  pub attempt-exit :
      (xs : List Step)
      → any is_exit xs ≡ false
      → any is_exit (attempt throws xs) ≡ not (all_done throws xs)
  unfolding attempt
  attempt-exit [] h = refl
  attempt-exit (s ∷ xs) h = elim (Option-cases (throws s)) [
    | inl done ↦ ground (arith, done, h, attempt-exit xs (ground (arith, h)))
    | inr (e, bad) ↦ ground (arith, bad, h, failed-exits e)
  ]
