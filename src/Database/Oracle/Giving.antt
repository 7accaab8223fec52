-- ===== src/Database/Oracle/Giving.antt =====
-- Whether every borrowed connection is given back, and what a health check does on a source that requires
-- a user (oracle.client.ts).
use nestjs_ddd_lean.Prelude.{
  ℕ, ◌≡◌, refl, sym, subst, Bool, true, false, Option, none, some, ◌⊎◌, inl, inr, List, [], ◌∷◌,
  ◌++◌, append_assoc, String, All, All-append, All-mono, is_some,
}
use nestjs_ddd_lean.Errors.{◌<>◌, unauthorized_error}
use nestjs_ddd_lean.Database.Text.{trim}
use nestjs_ddd_lean.Database.Mapper.{Raised, app_error}
use nestjs_ddd_lean.Database.Oracle.{
  Source, ConnectionOptions, Call, set_call_timeout, close, Log, Ran, thrown, Resolved, refused,
  nobody, user, resolve_context_user, prepared, clear_context, clearing, cleared, closed,
  close_connection, release, use_prepared, use_connection, with_resolved, with_connection, ping,
}
use nestjs_ddd_lean.Database.Oracle.Calls.{
  closes, is_setter, FailedAt, first_failure-FailedAt, prepared-All,
}

-- What was done with the connection first, and the close that ends it.
abbrev GivenBack : List Call → Type 0
GivenBack calls =
    (before : List Call) × (drop : Bool) × (calls ≡ before ++ close drop ∷ [])
    × All (λ c. closes c ≡ false) before

module _ (decimal : ℕ → String) (source : Source) (throws : List Call → Option Raised) where
  -- The last call is a setter that threw, and nothing closed the connection.
  abbrev Kept : List Call → Type 0
  Kept calls =
      (before : List Call) × (c : Call) × (e : Raised) × (calls ≡ before ++ c ∷ [])
      × (is_setter c ≡ true)
      × (throws calls ≡ some e)
      × All (λ d. closes d ≡ false) before

  closed-Ended :
      (history : List Call) (drop : Bool) (logs : List Log) (answer : Option Raised)
      → throws (history ++ set_call_timeout source.call_timeout_ms ∷ []) ≡ answer
      → All (λ c. closes c ≡ false) history
      → let calls = (closed decimal source throws history drop logs answer).0 in
        GivenBack calls ⊎ Kept calls
  unfolding closed
  closed-Ended history drop logs (some e) threw h =
      inr (history, set_call_timeout source.call_timeout_ms, e, refl, refl, threw, h)
  closed-Ended history drop logs none threw h =
      let last = set_call_timeout source.call_timeout_ms ∷ [] in
      inl (
        history ++ last,
        drop,
        rw append_assoc refl,
        All-append (λ c. closes c ≡ false) history last h (refl, tt),
      )

  cleared-Ended :
      (history : List Call) (f : Option (List Call × Raised))
      → FailedAt throws (λ c. closes c ≡ false) history f
      → All (λ c. closes c ≡ false) history
      → let calls =
          (close_connection decimal source throws (cleared decimal source throws history f)).0 in
        GivenBack calls ⊎ Kept calls
  unfolding cleared close_connection
  cleared-Ended history none failed h =
      closed-Ended (history ++ clearing decimal source throws) false _ _ refl (
        All-append (λ c. closes c ≡ false) history (clearing decimal source throws) h
          (refl, (refl, (refl, tt))))
  cleared-Ended history (some (calls, e)) (done, c, same, before, last, threw) h =
      closed-Ended calls true _ _ refl (
        subst (All (λ c. closes c ≡ false)) (sym same) (
          All-append (λ c. closes c ≡ false) history (done ++ c ∷ []) h
            (All-append (λ c. closes c ≡ false) done (c ∷ []) before (last, tt))))

  release-Ended :
      (history : List Call) (clear : Bool)
      → All (λ c. closes c ≡ false) history
      → let calls = (release decimal source throws history clear).0 in GivenBack calls ⊎ Kept calls
  unfolding release clear_context close_connection
  release-Ended history false h = closed-Ended history false _ _ refl h
  release-Ended history true h =
      cleared-Ended history _
        (first_failure-FailedAt throws (λ c. closes c ≡ false) history
          (clearing decimal source throws) (refl, (refl, (refl, tt))))
        h

  module _ {A : Type 0} (options : ConnectionOptions) (fn : List Call → Ran A) where
    use_prepared-Ended :
        (name : Option (List ℕ)) (f : Option (List Call × Raised))
        → FailedAt throws (λ c. (closes c ≡ false) × (is_setter c ≡ true)) [] f
        → ((h : List Call) → All (λ c. closes c ≡ false) (fn h).calls)
        → let calls = (use_prepared decimal source throws options name fn f).calls in
          GivenBack calls ⊎ Kept calls
    unfolding use_prepared
    use_prepared-Ended name (some (calls, e)) (done, c, same, before, (unclosed, setter), threw)
          kept =
        inr (done, c, e, same, setter, threw, All-mono _ _ done (λ d p. p.0) before)
    use_prepared-Ended name none failed kept =
        let before = prepared source options name in
        release-Ended (before ++ (fn before).calls) (is_some name) (
          All-append (λ c. closes c ≡ false) before (fn before).calls
            (prepared-All (λ c. closes c ≡ false) (λ n. refl) (λ u. refl) source options name)
            (kept before))

    use_connection-Ended :
        (name : Option (List ℕ))
        → ((h : List Call) → All (λ c. closes c ≡ false) (fn h).calls)
        → let calls = (use_connection decimal source throws options name fn).calls in
          GivenBack calls ⊎ Kept calls
    unfolding use_connection
    use_connection-Ended name kept =
        let P : Call → Type 0 = λ c. (closes c ≡ false) × (is_setter c ≡ true) in
        use_prepared-Ended name _
          (first_failure-FailedAt throws P [] (prepared source options name)
            (prepared-All P (λ n. (refl, refl)) (λ u. (refl, refl)) source options name))
          kept

    with_resolved-Ended :
        (resolved : Resolved) (acquired : Option Raised)
        → ((h : List Call) → All (λ c. closes c ≡ false) (fn h).calls)
        → let calls = (with_resolved decimal source throws options fn resolved acquired).calls in
          (calls ≡ []) ⊎ (GivenBack calls ⊎ Kept calls)
    unfolding with_resolved
    with_resolved-Ended (refused e) acquired kept = inl refl
    with_resolved-Ended nobody (some e) kept = inl refl
    with_resolved-Ended (user u) (some e) kept = inl refl
    with_resolved-Ended nobody none kept = inr (use_connection-Ended _ kept)
    with_resolved-Ended (user u) none kept = inr (use_connection-Ended _ kept)

    -- For a callback that does not close the connection itself, whether it returns or throws and
    -- whatever the driver answers: either no connection was borrowed and nothing is called on one, or
    -- the connection is closed exactly once, after everything else, or the last call was a setter of
    -- the driver that threw, and then the connection is never closed.
    pub connection_given_back :
        (acquired : Option Raised)
        → ((h : List Call) → All (λ c. closes c ≡ false) (fn h).calls)
        → let calls = (with_connection decimal source throws acquired options fn).calls in
          (calls ≡ [])
          ⊎ (((before : List Call) × (drop : Bool) × (calls ≡ before ++ close drop ∷ [])
                × All (λ c. closes c ≡ false) before)
              ⊎ ((before : List Call) × (c : Call) × (e : Raised) × (calls ≡ before ++ c ∷ [])
                  × (is_setter c ≡ true)
                  × (throws calls ≡ some e)
                  × All (λ d. closes d ≡ false) before))
    unfolding with_connection
    connection_given_back acquired kept =
        with_resolved-Ended (resolve_context_user source options) acquired kept

  -- A health check gives no user: on a source that requires one it is refused before a connection is
  -- borrowed, whatever the state of the database.
  pub ping_refused :
      (acquired : Option Raised) (timeout_ms : ℕ)
      → source.context_user.enabled ≡ true
      → source.context_user.required ≡ true
      → let ran = ping decimal source throws acquired timeout_ms in
        (ran.calls ≡ [])
        × (ran.outcome
            ≡ thrown (
                app_error (
                  unauthorized_error
                    ("Database source \"" <> source.key <> "\" requires a context user")
                    none)))
  unfolding ping with_connection with_resolved resolve_context_user trim
  ping_refused acquired timeout_ms on required = rw on (rw required (refl, refl))
