-- ===== src/Database/Oracle/Identity.antt =====
-- The identity that the next borrower of a connection finds (oracle.client.ts, `withConnection`).
use nestjs_ddd_lean.Prelude.{
  ℕ, ◌≡◌, refl, false, Option, none, some, List, [], ◌∷◌, ◌++◌, String, All, All-append, or_else,
  if_ind, ltb, ap, ◌∙◌,
}
use nestjs_ddd_lean.Database.Mapper.{Raised}
use nestjs_ddd_lean.Database.Oracle.{
  Source, ConnectionOptions, Call, Ran, Resolved, refused, nobody, user, resolve_context_user,
  prepared, use_prepared, use_connection, with_resolved, with_connection,
}
use nestjs_ddd_lean.Database.Oracle.Session.{
  IsAnonymous, LeavesNobody, sets_identity, fresh, serve, release-clears, release-polite, Session,
  left_in_pool, kept-LeavesNobody, LeavesPool,
}
use nestjs_ddd_lean.Database.Oracle.Calls.{
  closes, given_back, given_back-append, FailedAt, first_failure-FailedAt, prepared-All,
}

prepared-polite :
    (source : Source) (options : ConnectionOptions)
    → All (λ c. sets_identity c ≡ false) (prepared source options none)
prepared-polite source options =
    if_ind (λ (cs : List Call). All (λ c. sets_identity c ≡ false) (cs ++ []))
      (ltb 0 (or_else options.call_timeout_ms source.call_timeout_ms)) (λ t. (refl, tt)) (λ f. tt)

module _ (throws : List Call → Option Raised) (decimal : ℕ → String) (source : Source) {A : Type 0}
    (options : ConnectionOptions) (fn : List Call → Ran A) where
  use_prepared-anonymous :
      (name : Option (List ℕ)) (s : Session) (f : Option (List Call × Raised))
      → FailedAt throws (λ c. closes c ≡ false) [] f
      → ((h : List Call) → All (λ c. sets_identity c ≡ false) (fn h).calls)
      → IsAnonymous s
      → LeavesPool throws decimal source
          (use_prepared decimal source throws options name fn f).calls
          (some s)
  unfolding use_prepared
  use_prepared-anonymous name s (some (calls, e)) (done, c, same, before, setter, threw) polite h =
      kept-LeavesNobody calls _ (ap given_back same ∙ given_back-append done c ∙ setter)
  use_prepared-anonymous (some u) s none failed polite h =
      release-clears throws decimal source _ (some s)
  use_prepared-anonymous none s none failed polite h =
      let before = prepared source options none in
      release-polite throws decimal source (before ++ (fn before).calls) s
        (All-append (λ c. sets_identity c ≡ false) before (fn before).calls
          (prepared-polite source options) (polite before))
        h

  use_connection-anonymous :
      (name : Option (List ℕ)) (s : Session)
      → ((h : List Call) → All (λ c. sets_identity c ≡ false) (fn h).calls)
      → IsAnonymous s
      → LeavesPool throws decimal source
          (use_connection decimal source throws options name fn).calls
          (some s)
  unfolding use_connection
  use_connection-anonymous name s polite h =
      use_prepared-anonymous name s _
        (first_failure-FailedAt throws (λ c. closes c ≡ false) [] (prepared source options name)
          (prepared-All (λ c. closes c ≡ false) (λ n. refl) (λ u. refl) source options name))
        polite h

  with_resolved-anonymous :
      (resolved : Resolved) (acquired : Option Raised) (s : Session)
      → ((h : List Call) → All (λ c. sets_identity c ≡ false) (fn h).calls)
      → IsAnonymous s
      → LeavesPool throws decimal source
          (with_resolved decimal source throws options fn resolved acquired).calls
          (some s)
  unfolding with_resolved serve
  with_resolved-anonymous (refused e) acquired s polite h = h
  with_resolved-anonymous nobody (some e) s polite h = h
  with_resolved-anonymous (user u) (some e) s polite h = h
  with_resolved-anonymous nobody none s polite h = use_connection-anonymous _ s polite h
  with_resolved-anonymous (user u) none s polite h = use_connection-anonymous _ s polite h

-- A call of `withConnection`, with all that the world answers to it.
pub record Turn (A : Type 0) : Type 0 where
  pub throws : List Call → Option Raised
  pub acquired : Option Raised
  pub options : ConnectionOptions
  pub fn : List Call → Ran A

left_or_fresh : (s : Option Session) → LeavesNobody s → IsAnonymous (or_else s fresh)
unfolding fresh
left_or_fresh none h = (refl, tt)
left_or_fresh (some s) h = h

module _ {A : Type 0} (decimal : ℕ → String) (source : Source) where
  -- A connection that one borrower after the other gets; in place of one that is
  -- dropped, or not given back, the pool has a new one.
  pub take_turns : List (Turn A) → Session → Session
  take_turns [] s = s
  take_turns (t ∷ ts) s =
      let ran = with_connection decimal source t.throws t.acquired t.options t.fn in
      take_turns ts (or_else (left_in_pool ran.calls (serve t.throws [] ran.calls (some s))) fresh)

  take_turns-IsAnonymous :
      (ts : List (Turn A)) (s : Session)
      → All (λ t. (h : List Call) → All (λ c. sets_identity c ≡ false) (t.fn h).calls) ts
      → IsAnonymous s
      → IsAnonymous (take_turns ts s)
  unfolding take_turns with_connection
  take_turns-IsAnonymous [] s p h = h
  take_turns-IsAnonymous (t ∷ ts) s (p, ps) h = take_turns-IsAnonymous ts _ ps (
      left_or_fresh _ (
        with_resolved-anonymous t.throws decimal source t.options t.fn
          (resolve_context_user source t.options) t.acquired s p h))

  -- However many calls borrow a connection one after the other, whatever their options, their
  -- callbacks (which may fail, but do not set an identity themselves) and the answers of the driver:
  -- the next borrower's connection has no identity, neither set at the client nor, as far as the
  -- round trips decide it, at the database.
  pub identity_never_leaks :
      (ts : List (Turn A))
      → All (λ t. (h : List Call) → All (λ c. sets_identity c ≡ false) (t.fn h).calls) ts
      → let s = take_turns ts fresh in (s.local ≡ []) × All (λ id. id ≡ []) s.server
  unfolding fresh
  identity_never_leaks ts p = take_turns-IsAnonymous ts fresh p (refl, tt)
