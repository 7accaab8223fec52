-- ===== src/Database/Oracle/Session.antt =====
-- Which identity the database may attribute a session's work to (oracle.client.ts), as node-oracledb
-- documents it: setting the client's id only takes effect with the next round trip.
use nestjs_ddd_lean.Prelude.{
  ℕ, ◌≡◌, refl, ◌∙◌, Bool, true, false, Option, none, some, List, [], ◌∷◌, ◌++◌, append_assoc,
  append-nil, String, All, All-append, if_ind, if◌then◌else◌, arith,
}
use nestjs_ddd_lean.Database.Mapper.{Raised}
use nestjs_ddd_lean.Database.Oracle.{
  Source, Call, set_client_id, set_call_timeout, used, pinged, committed, rolled_back, close,
  clear_context, release, clearing, cleared, closed, close_connection, first_failure, Log,
}
use nestjs_ddd_lean.Database.Oracle.Calls.{given_back, given_back-append, first_failure-none}

-- The id set at the client, and the ids that the database may have: a round trip that fails may or may
-- not have brought the new one.
pub record Session : Type 0 where
  pub local : List ℕ
  pub server : List (List ℕ)

abbrev round_trip : Option Raised → Session → Session
round_trip none s = record { local = s.local; server = s.local ∷ [] }
round_trip (some e) s = record { local = s.local; server = s.local ∷ s.server }

-- A dropped connection leaves no session.
abbrev serve_call : Option Raised → Call → Session → Option Session
serve_call answer (set_client_id u) s = some (record { local = u; server = s.server })
serve_call answer (set_call_timeout n) s = some s
serve_call answer (close true) s = none
serve_call answer (close false) s = some s
serve_call answer (used n) s = some (round_trip answer s)
serve_call answer pinged s = some (round_trip answer s)
serve_call answer committed s = some (round_trip answer s)
serve_call answer rolled_back s = some (round_trip answer s)

abbrev serve_left : Option Raised → Call → Option Session → Option Session
serve_left answer c none = none
serve_left answer c (some s) = serve_call answer c s

abbrev pub IsAnonymous : Session → Type 0
IsAnonymous s = (s.local ≡ []) × All (λ id. id ≡ []) s.server

abbrev pub LeavesNobody : Option Session → Type 0
LeavesNobody none = Unit
LeavesNobody (some s) = IsAnonymous s

abbrev pub sets_identity : Call → Bool
sets_identity (set_client_id u) = true
sets_identity _ = false

unfoldable pub fresh : Session
fresh = record { local = []; server = [] }

-- A session that is not given back does not go to a next borrower.
abbrev pub left_in_pool : List Call → Option Session → Option Session
left_in_pool calls s = if given_back calls then s else none

pub pool-LeavesNobody :
    (calls : List Call) (s : Option Session) → LeavesNobody s → LeavesNobody (left_in_pool calls s)
pool-LeavesNobody calls s h = if_ind LeavesNobody (given_back calls) (λ t. h) (λ f. tt)

pub kept-LeavesNobody :
    (calls : List Call) (s : Option Session)
    → given_back calls ≡ false
    → LeavesNobody (left_in_pool calls s)
kept-LeavesNobody calls s h = rw h tt

module _ (throws : List Call → Option Raised) where
  -- What the calls leave of a session.
  unfoldable pub serve : (history calls : List Call) → Option Session → Option Session
  serve history [] s = s
  serve history (c ∷ cs) s =
      serve (history ++ c ∷ []) cs (serve_left (throws (history ++ c ∷ [])) c s)

  serve-append :
      (history xs ys : List Call) (s : Option Session)
      → serve history (xs ++ ys) s ≡ serve (history ++ xs) ys (serve history xs s)
  unfolding serve
  serve-append history [] ys s = rw append-nil refl
  serve-append history (c ∷ cs) ys s =
      serve-append (history ++ c ∷ []) cs ys (serve_left (throws (history ++ c ∷ [])) c s)
      ∙ rw append_assoc refl

  round_trip-IsAnonymous :
      (answer : Option Raised) (s : Session) → IsAnonymous s → IsAnonymous (round_trip answer s)
  round_trip-IsAnonymous none s (l, h) = (l, (l, tt))
  round_trip-IsAnonymous (some e) s (l, h) = (l, (l, h))

  serve_left-polite :
      (answer : Option Raised) (c : Call) (s : Option Session)
      → sets_identity c ≡ false
      → LeavesNobody s
      → LeavesNobody (serve_left answer c s)
  serve_left-polite answer c none p h = tt
  serve_left-polite answer (set_client_id u) (some s) p h = absurd (ground arith)
  serve_left-polite answer (set_call_timeout n) (some s) p h = h
  serve_left-polite answer (close true) (some s) p h = tt
  serve_left-polite answer (close false) (some s) p h = h
  serve_left-polite answer (used n) (some s) p h = round_trip-IsAnonymous answer s h
  serve_left-polite answer pinged (some s) p h = round_trip-IsAnonymous answer s h
  serve_left-polite answer committed (some s) p h = round_trip-IsAnonymous answer s h
  serve_left-polite answer rolled_back (some s) p h = round_trip-IsAnonymous answer s h

  serve-polite :
      (history cs : List Call) (s : Option Session)
      → All (λ c. sets_identity c ≡ false) cs
      → LeavesNobody s
      → LeavesNobody (serve history cs s)
  unfolding serve
  serve-polite history [] s p h = h
  serve-polite history (c ∷ cs) s (p, ps) h =
      serve-polite (history ++ c ∷ []) cs (serve_left (throws (history ++ c ∷ [])) c s) ps
        (serve_left-polite (throws (history ++ c ∷ [])) c s p h)

  pinged-anonymous :
      (history : List Call) (t t' : ℕ) (s : Session)
      → throws (((history ++ set_client_id [] ∷ []) ++ set_call_timeout t ∷ []) ++ pinged ∷ [])
        ≡ none
      → LeavesNobody (
          serve history
            (set_client_id []
              ∷ set_call_timeout t
              ∷ pinged
              ∷ set_call_timeout t'
              ∷ close false
              ∷ [])
            (some s))
  unfolding serve
  pinged-anonymous history t t' s h = rw h (refl, (refl, tt))

  release-anonymous :
      (history : List Call) (t t' : ℕ) (s : Option Session)
      → throws (((history ++ set_client_id [] ∷ []) ++ set_call_timeout t ∷ []) ++ pinged ∷ [])
        ≡ none
      → LeavesNobody (
          serve history
            (set_client_id []
              ∷ set_call_timeout t
              ∷ pinged
              ∷ set_call_timeout t'
              ∷ close false
              ∷ [])
            s)
  unfolding serve
  release-anonymous history t t' none h = tt
  release-anonymous history t t' (some s) h = pinged-anonymous history t t' s h

  dropped-anonymous :
      (history : List Call) (t : ℕ) (s : Option Session)
      → LeavesNobody (serve history (set_call_timeout t ∷ close true ∷ []) s)
  unfolding serve
  dropped-anonymous history t none = tt
  dropped-anonymous history t (some s) = tt

  module _ (decimal : ℕ → String) (source : Source) where
    -- What the calls leave for the next borrower.
    abbrev pub LeavesPool : List Call → Option Session → Type 0
    LeavesPool calls s = LeavesNobody (left_in_pool calls (serve [] calls s))

    closed-anonymous :
        (history : List Call) (answer : Option Raised) (s : Option Session)
        → first_failure throws history (clearing decimal source throws) ≡ none
        → LeavesPool
            (closed decimal source throws
              (history ++ clearing decimal source throws)
              false
              []
              answer).0
            s
    unfolding closed
    closed-anonymous history (some e) s h =
        let cleared_calls = history ++ clearing decimal source throws in
        let last = set_call_timeout source.call_timeout_ms in
        kept-LeavesNobody (cleared_calls ++ last ∷ []) (serve [] (cleared_calls ++ last ∷ []) s)
          (given_back-append cleared_calls last)
    closed-anonymous history none s h =
        let (a, h1) = first_failure-none throws history (set_client_id []) _ h in
        let (b, h2) = first_failure-none throws _ _ _ h1 in
        let (c, h3) = first_failure-none throws _ _ _ h2 in
        let calls =
          (history ++ clearing decimal source throws)
          ++ set_call_timeout source.call_timeout_ms ∷ close false ∷ [] in
        let left : LeavesNobody (serve [] calls s) =
          rw append_assoc
            (rw serve-append (release-anonymous history _ _ (serve [] history s) c)) in
        pool-LeavesNobody calls (serve [] calls s) left

    closed-dropped :
        (history : List Call) (logs : List Log) (answer : Option Raised) (s : Option Session)
        → LeavesPool (closed decimal source throws history true logs answer).0 s
    unfolding closed
    closed-dropped history logs (some e) s =
        let last = set_call_timeout source.call_timeout_ms in
        kept-LeavesNobody (history ++ last ∷ []) (serve [] (history ++ last ∷ []) s)
          (given_back-append history last)
    closed-dropped history logs none s =
        let calls = history ++ set_call_timeout source.call_timeout_ms ∷ close true ∷ [] in
        let left : LeavesNobody (serve [] calls s) =
          rw serve-append (dropped-anonymous history _ (serve [] history s)) in
        pool-LeavesNobody calls (serve [] calls s) left

    cleared-anonymous :
        (history : List Call) (f : Option (List Call × Raised)) (s : Option Session)
        → first_failure throws history (clearing decimal source throws) ≡ f
        → LeavesPool
            (close_connection decimal source throws (cleared decimal source throws history f)).0
            s
    unfolding close_connection cleared
    cleared-anonymous history none s h = closed-anonymous history _ s h
    cleared-anonymous history (some (calls, e)) s h = closed-dropped calls _ _ s

    -- Giving a connection back after clearing: whatever was done with it before.
    pub release-clears :
        (history : List Call) (s : Option Session)
        → LeavesPool (release decimal source throws history true).0 s
    unfolding release clear_context
    release-clears history s = cleared-anonymous history _ s refl

    closed-polite :
        (history : List Call) (answer : Option Raised) (s : Session)
        → All (λ c. sets_identity c ≡ false) history
        → IsAnonymous s
        → LeavesPool (closed decimal source throws history false [] answer).0 (some s)
    unfolding closed
    closed-polite history (some e) s p h =
        let last = set_call_timeout source.call_timeout_ms in
        kept-LeavesNobody (history ++ last ∷ []) (serve [] (history ++ last ∷ []) (some s))
          (given_back-append history last)
    closed-polite history none s p h =
        let last = set_call_timeout source.call_timeout_ms ∷ close false ∷ [] in
        pool-LeavesNobody (history ++ last) (serve [] (history ++ last) (some s)) (
          serve-polite [] (history ++ last) (some s)
            (All-append (λ c. sets_identity c ≡ false) history last p (refl, (refl, tt))) h)

    pub release-polite :
        (history : List Call) (s : Session)
        → All (λ c. sets_identity c ≡ false) history
        → IsAnonymous s
        → LeavesPool (release decimal source throws history false).0 (some s)
    unfolding release clear_context close_connection
    release-polite history s p h = closed-polite history _ s p h
