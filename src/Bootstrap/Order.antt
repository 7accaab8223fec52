-- ===== src/Bootstrap/Order.antt =====
-- The order of the steps of a start (main.ts).
use nestjs_ddd_lean.Prelude.{
  ◌≡◌, refl, ap, ◌∙◌, Bool, true, false, not, ◌&&◌, Option-cases, Option, List, [], ◌∷◌, ◌++◌, any,
  is_some, if◌then◌else◌, ◌⊎◌, inl, inr, arith,
}
use nestjs_ddd_lean.Config.Checks.{InvalidConfig}
use nestjs_ddd_lean.Config.Tls.{TlsOptions}
use nestjs_ddd_lean.Bootstrap.{
  Settings, Step, start_primary, listen, swagger_mounted, steps_with, before_listening,
  from_listening, failed, Throws, attempt, run_application, with_tls, bootstrap,
}
use nestjs_ddd_lean.Bootstrap.Attempts.{
  is_parser, is_forwarder, is_listen, is_application, is_primary_start, never_after, is_install,
  is_exit, all_done, is_application-Unfailing, is_forwarder-Unfailing, is_install-Unfailing,
  is_listen-Unfailing, is_parser-Unfailing, is_primary_start-Unfailing, attempt-any, attempt-no,
  attempt-never, attempt-exit,
}

-- How a process starts: it refuses its configuration, it is a primary, or it is to listen.
pub data Start : Type 0 where
  refused primary : Start
  serving : Settings → (https : Bool) → Start

abbrev pub start_with : Settings → (is_primary : Bool) → InvalidConfig ⊎ Option TlsOptions → Start
start_with c b (inl e) = refused
start_with c b (inr options) = if b then primary else serving c (is_some options)

abbrev pub start_of :
    (load_config : InvalidConfig ⊎ Settings)
    → (load_tls_options : Settings → InvalidConfig ⊎ Option TlsOptions) → (is_primary : Bool)
    → Start
start_of (inl e) load_tls_options is_primary = refused
start_of (inr c) load_tls_options is_primary =
    start_with c (c.cluster_enabled && is_primary) (load_tls_options c)

abbrev pub creates : Start → Bool
creates refused = false
creates primary = false
creates (serving c https) = true

abbrev pub starts_primary : Start → Bool
starts_primary primary = true
starts_primary s = false

-- Whether the steps before `listen` are done, so that it is called.
abbrev pub listens : Throws → Start → Bool
listens throws refused = false
listens throws primary = false
listens throws (serving c https) = all_done throws (before_listening c https)

-- Whether it listens, so that the shutdown handlers are installed.
abbrev pub listening : Throws → Start → Bool
listening throws refused = false
listening throws primary = false
listening throws (serving c https) =
    all_done throws (before_listening c https) && not (is_some (throws (listen c.port)))

-- Whether anything fails.
abbrev pub fails : Throws → Start → Bool
fails throws refused = true
fails throws primary = not (all_done throws (start_primary ∷ []))
fails throws (serving c https) =
    not (all_done throws (before_listening c https ++ from_listening c https))

-- What the steps of a start have in common, and what is among them.
abbrev pub IsOrdered : Throws → Start → List Step → Type 0
IsOrdered throws start steps =
    (never_after is_forwarder is_parser steps ≡ true)
    × (never_after is_parser is_listen steps ≡ true)
    × (never_after is_listen is_install steps ≡ true)
    × (any is_primary_start steps ≡ starts_primary start)
    × (any is_application steps ≡ creates start)
    × (any is_listen steps ≡ listens throws start)
    × (any is_install steps ≡ listening throws start)
    × (any is_exit steps ≡ fails throws start)

module _ (throws : Throws) where
  -- What the steps are where none throws.
  abbrev IsPlanned : (xs zs : List Step) → Type 0
  IsPlanned xs zs =
      (never_after is_forwarder is_parser (xs ++ zs) ≡ true)
      × (never_after is_parser is_listen (xs ++ zs) ≡ true)
      × (never_after is_listen is_install (xs ++ zs) ≡ true)
      × (any is_primary_start (xs ++ zs) ≡ false)
      × (any is_listen xs ≡ false)
      × (any is_install xs ≡ false)
      × (any is_exit (xs ++ zs) ≡ false)

  steps-IsPlanned :
      (c : Settings) (https trust_proxy forward swagger : Bool)
      → IsPlanned (steps_with c https trust_proxy forward swagger) (from_listening c https)
  unfolding from_listening
  steps-IsPlanned c https true true true = (refl, refl, refl, refl, refl, refl, refl)
  steps-IsPlanned c https true true false = (refl, refl, refl, refl, refl, refl, refl)
  steps-IsPlanned c https true false true = (refl, refl, refl, refl, refl, refl, refl)
  steps-IsPlanned c https true false false = (refl, refl, refl, refl, refl, refl, refl)
  steps-IsPlanned c https false true true = (refl, refl, refl, refl, refl, refl, refl)
  steps-IsPlanned c https false true false = (refl, refl, refl, refl, refl, refl, refl)
  steps-IsPlanned c https false false true = (refl, refl, refl, refl, refl, refl, refl)
  steps-IsPlanned c https false false false = (refl, refl, refl, refl, refl, refl, refl)

  from_listening-listens :
      (c : Settings) (https : Bool) → any is_listen (attempt throws (from_listening c https)) ≡ true
  unfolding from_listening attempt
  from_listening-listens c https = refl

  from_listening-installs :
      (c : Settings) (https : Bool)
      → any is_install (attempt throws (from_listening c https))
        ≡ not (is_some (throws (listen c.port)))
  unfolding from_listening attempt
  from_listening-installs c https = elim (Option-cases (throws (listen c.port))) [
    | inl done ↦ ground (arith, done)
    | inr (e, bad) ↦ ground (arith, bad, is_install-Unfailing e)
  ]

  creates_first :
      (c : Settings) (https : Bool) → any is_application (run_application throws c https) ≡ true
  unfolding run_application before_listening attempt
  creates_first c https = refl

  run_application-IsOrdered :
      (c : Settings) (https : Bool)
      → IsPlanned (before_listening c https) (from_listening c https)
      → IsOrdered throws (serving c https) (run_application throws c https)
  unfolding run_application
  run_application-IsOrdered c https (forwards, parses, handles, first, before, until, exit) =
      let xs = before_listening c https in
      let zs = from_listening c https in
      (
        attempt-never throws is_forwarder is_parser (xs ++ zs) is_forwarder-Unfailing forwards,
        attempt-never throws is_parser is_listen (xs ++ zs) is_parser-Unfailing parses,
        attempt-never throws is_listen is_install (xs ++ zs) is_listen-Unfailing handles,
        attempt-no throws is_primary_start (xs ++ zs) is_primary_start-Unfailing first,
        creates_first c https,
        attempt-any throws is_listen xs zs is_listen-Unfailing before
            ∙ ground (arith, from_listening-listens c https),
        attempt-any throws is_install xs zs is_install-Unfailing until
            ∙ ap (λ b. all_done throws xs && b) (from_listening-installs c https),
        attempt-exit throws (xs ++ zs) exit,
      )

  before-IsPlanned :
      (c : Settings) (https : Bool) → IsPlanned (before_listening c https) (from_listening c https)
  unfolding before_listening
  before-IsPlanned c https =
      steps-IsPlanned c https c.trust_proxy c.legacy_forward_enabled (swagger_mounted c)

  primary-IsOrdered : IsOrdered throws primary (attempt throws (start_primary ∷ []))
  unfolding attempt
  primary-IsOrdered =
      let alone = start_primary ∷ [] in
      (
        attempt-never throws is_forwarder is_parser alone is_forwarder-Unfailing refl,
        attempt-never throws is_parser is_listen alone is_parser-Unfailing refl,
        attempt-never throws is_listen is_install alone is_listen-Unfailing refl,
        refl,
        attempt-no throws is_application alone is_application-Unfailing refl,
        attempt-no throws is_listen alone is_listen-Unfailing refl,
        attempt-no throws is_install alone is_install-Unfailing refl,
        attempt-exit throws alone refl,
      )

  refused-IsOrdered : (e : InvalidConfig) → IsOrdered throws refused (failed (inl e))
  unfolding failed
  refused-IsOrdered e = (refl, refl, refl, refl, refl, refl, refl, refl)

  chosen-IsOrdered :
      (c : Settings) (https is_primary : Bool)
      → IsOrdered throws (if is_primary then primary else serving c https) (
          if is_primary
          then attempt throws (start_primary ∷ [])
          else run_application throws c https)
  chosen-IsOrdered c https true = primary-IsOrdered
  chosen-IsOrdered c https false = run_application-IsOrdered c https (before-IsPlanned c https)

  with_tls-IsOrdered :
      (c : Settings) (is_primary : Bool) (t : InvalidConfig ⊎ Option TlsOptions)
      → IsOrdered throws
          (start_with c (c.cluster_enabled && is_primary) t)
          (with_tls throws c is_primary t)
  with_tls-IsOrdered c is_primary (inl e) = refused-IsOrdered e
  with_tls-IsOrdered c is_primary (inr options) =
      chosen-IsOrdered c (is_some options) (c.cluster_enabled && is_primary)

-- However a process starts, and whichever of its steps throws: the forwarder is never after a parser,
-- which would have read the body that it is to pass on, and no parser is added after the process
-- listens, nor does it listen after its shutdown handlers are installed. A process that is not the
-- primary of a cluster and whose configuration and TLS options could be loaded creates an application;
-- it listens exactly if no step before that throws, and its shutdown handlers are installed exactly if
-- listening did not fail either. No other process does any of this. It exits exactly if the
-- configuration or the TLS options could not be loaded or a step of its own throws.
pub bootstrap-IsOrdered :
    (throws : Throws) (load_config : InvalidConfig ⊎ Settings)
    (load_tls_options : Settings → InvalidConfig ⊎ Option TlsOptions) (is_primary : Bool)
    → IsOrdered throws
        (start_of load_config load_tls_options is_primary)
        (bootstrap throws load_config load_tls_options is_primary)
unfolding bootstrap
bootstrap-IsOrdered throws (inl e) load_tls_options is_primary = refused-IsOrdered throws e
bootstrap-IsOrdered throws (inr c) load_tls_options is_primary =
    with_tls-IsOrdered throws c is_primary (load_tls_options c)
