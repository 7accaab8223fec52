-- ===== src/Legacy/Settling.antt =====
-- One line of the log for each forwarded request (legacy-forwarder.ts).
use nestjs_ddd_lean.Prelude.{
  ℕ, ◌≡◌, refl, ap, ◌∙◌, Bool, true, false, not, ◌&&◌, ◌||◌, any, Option, none, some, List, [], ◌∷◌,
  ◌++◌, length, length-append, is_some, or_else, subst, append-nil, if◌then◌else◌, if_ind, arith,
}
use nestjs_ddd_lean.Legacy.{
  ForwardOutcome, completed, aborted, failed, Line, Forward, forwarded, Event, timeout, response,
  errored, response_closed, request_aborted, Effect, wrote_head, ended, response_destroyed,
  outbound_destroyed, piped, logged, log_outcome, settle, on_error, on_close, step, run,
}

unfoldable pub lines : List Effect → List Line
lines [] = []
lines (logged l ∷ fx) = l ∷ lines fx
lines (e ∷ fx) = lines fx

-- The events before the legacy service answers, and those from its answer on.
abbrev pub early : List Event → List Event
early [] = []
early (response status ∷ es) = []
early (timeout ∷ es) = timeout ∷ early es
early (errored ∷ es) = errored ∷ early es
early (response_closed finished ∷ es) = response_closed finished ∷ early es
early (request_aborted ∷ es) = request_aborted ∷ early es

abbrev pub late : List Event → List Event
late [] = []
late (response status ∷ es) = response status ∷ es
late (timeout ∷ es) = late es
late (errored ∷ es) = late es
late (response_closed finished ∷ es) = late es
late (request_aborted ∷ es) = late es

-- The response to the client closes, with or without its end.
abbrev pub closes : Event → Bool
closes (response_closed finished) = true
closes e = false

-- The outbound request fails, or the client leaves while it still sends.
abbrev pub fails : Event → Bool
fails errored = true
fails request_aborted = true
fails e = false

abbrev pub ends : Event → Bool
ends e = closes e || fails e

-- The response closed while the legacy service had not answered, and nothing else came to an end.
abbrev pub unheard : List Event → Bool
unheard es = any closes (early es) && not (any fails (early es)) && not (any ends (late es))

-- Whether a listener has settled the request.
has_ended : (answered : Bool) → List Event → Bool
has_ended answered [] = false
has_ended answered (timeout ∷ es) = has_ended answered es
has_ended answered (response status ∷ es) = has_ended true es
has_ended answered (errored ∷ es) = true
has_ended answered (request_aborted ∷ es) = true
has_ended answered (response_closed finished ∷ es) = answered || has_ended answered es

lines-append : (fx gx : List Effect) → lines (fx ++ gx) ≡ lines fx ++ lines gx
unfolding lines
lines-append [] gx = refl
lines-append (logged l ∷ fx) gx = ap (λ ls. l ∷ ls) (lines-append fx gx)
lines-append (wrote_head n ∷ fx) gx = lines-append fx gx
lines-append (ended s ∷ fx) gx = lines-append fx gx
lines-append (response_destroyed ∷ fx) gx = lines-append fx gx
lines-append (outbound_destroyed ∷ fx) gx = lines-append fx gx
lines-append (piped ∷ fx) gx = lines-append fx gx

-- What a listener may do to the state: settle it, with one line, or leave it.
abbrev Settles : Forward → Forward × List Effect → Type 0
Settles f (g, fx) =
    (g.settled ≡ true)
    × (g.upstream_status ≡ f.upstream_status)
    × (length (lines fx) ≡ (if f.settled then 0 else 1))

one_line :
    (outcome : ForwardOutcome) (status : Option ℕ)
    → length (lines (log_outcome true outcome status)) ≡ 1
unfolding log_outcome lines
one_line completed status = refl
one_line aborted status = refl
one_line failed status = refl

settle-Settles :
    (outcome : ForwardOutcome) (status : Option ℕ) (f : Forward)
    → Settles f (settle true outcome status f)
unfolding settle lines
settle-Settles outcome status f =
    if_ind (Settles f) f.settled (λ h. (h, refl, rw h refl))
      (λ h. (refl, refl, rw h (one_line outcome status)))

-- More effects that log nothing.
Settles-append :
    (f : Forward) (r : Forward × List Effect) (gx : List Effect)
    → lines gx ≡ []
    → Settles f r
    → Settles f (r.0, r.1 ++ gx)
Settles-append f (g, fx) gx h (s, u, n) = (
  s,
  u,
  ap length (lines-append fx gx ∙ (ap (λ ls. lines fx ++ ls) h ∙ append-nil (lines fx))) ∙ n,
)

on_error-Settles : (f : Forward) → Settles f (on_error true f)
unfolding on_error lines
on_error-Settles f =
    let status = if f.timed_out then 504 else 502 in
    let r = settle true failed (some status) f in
    let now = settle-Settles failed (some status) f in
    if_ind (Settles f) r.0.headers_sent
      (λ sent. Settles-append f r (response_destroyed ∷ []) refl now)
      (λ unsent.
        let (s, u, n) =
          Settles-append f r
            (wrote_head status
              ∷ ended (if f.timed_out then "Gateway Timeout" else "Bad Gateway")
              ∷ [])
            refl now in
        (s, u, n))

-- How many lines the events leave, from any state.
abbrev Leaves : Bool → List Event → Forward → List Effect → Type 0
Leaves answered es f fx =
    length (lines fx) ≡ (if f.settled then 0 else if has_ended answered es then 1 else 0)

after_settling :
    (es : List Event) (f : Forward) (r : Forward × List Effect) (fx : List Effect)
    → Settles f r
    → Leaves (is_some r.0.upstream_status) es r.0 fx
    → length (lines (r.1 ++ fx)) ≡ (if f.settled then 0 else 1)
after_settling es f (g, gx) fx (s, u, n) h =
    let none_left : length (lines fx) ≡ 0 = ground (arith, h, s) in
    ap length (lines-append gx fx)
    ∙ ground (arith, length-append (lines gx) (lines fx), none_left, n)

close-lines :
    (finished : Bool) (status : ℕ) (f : Forward)
    → Settles f (on_close true finished (some status) f)
unfolding on_close lines
close-lines true status f = settle-Settles completed (some status) f
close-lines false status f =
    Settles-append f (settle true aborted (some status) f) (outbound_destroyed ∷ []) refl
      (settle-Settles aborted (some status) f)

closing-lines :
    (finished : Bool) (es : List Event) (f : Forward) (answered : Option ℕ)
    → f.upstream_status ≡ answered
    → ((g : Forward) → Leaves (is_some g.upstream_status) es g (run true es g).1)
    → let r = on_close true finished answered f in
      length (lines (r.1 ++ (run true es r.0).1)) ≡ (
        if f.settled
        then 0
        else if is_some answered || has_ended (is_some answered) es
        then 1
        else 0)
unfolding on_close
closing-lines finished es f none e h =
    subst (λ a. Leaves (is_some a) es f (run true es f).1) e (h f)
closing-lines finished es f (some status) e h =
    let r = on_close true finished (some status) f in
    after_settling es f r (run true es r.0).1 (close-lines finished status f) (h r.0)

run-lines :
    (es : List Event) (f : Forward) → Leaves (is_some f.upstream_status) es f (run true es f).1
unfolding run step lines has_ended
run-lines [] f = ground arith
run-lines (timeout ∷ es) f = run-lines es (record f { timed_out = true })
run-lines (response status ∷ es) f =
    run-lines es (record f { upstream_status = some (or_else status 502); headers_sent = true })
run-lines (errored ∷ es) f =
    let r = on_error true f in
    after_settling es f r (run true es r.0).1 (on_error-Settles f) (run-lines es r.0)
run-lines (request_aborted ∷ es) f =
    let r = settle true aborted none f in
    let now = Settles-append f r (outbound_destroyed ∷ []) refl (settle-Settles aborted none f) in
    after_settling es f (r.0, r.1 ++ outbound_destroyed ∷ []) (run true es r.0).1 now
      (run-lines es r.0)
run-lines (response_closed finished ∷ es) f =
    closing-lines finished es f f.upstream_status refl (run-lines es)

answered-has_ended : (es : List Event) → has_ended true es ≡ any ends es
unfolding has_ended
answered-has_ended [] = refl
answered-has_ended (timeout ∷ es) = answered-has_ended es
answered-has_ended (response status ∷ es) = answered-has_ended es
answered-has_ended (errored ∷ es) = refl
answered-has_ended (response_closed finished ∷ es) = refl
answered-has_ended (request_aborted ∷ es) = refl

unanswered-has_ended :
    (es : List Event) → has_ended false es ≡ (any fails (early es) || any ends (late es))
unfolding has_ended
unanswered-has_ended [] = refl
unanswered-has_ended (timeout ∷ es) = unanswered-has_ended es
unanswered-has_ended (response status ∷ es) = answered-has_ended es
unanswered-has_ended (errored ∷ es) = refl
unanswered-has_ended (response_closed finished ∷ es) = unanswered-has_ended es
unanswered-has_ended (request_aborted ∷ es) = refl

ends-halves :
    (es : List Event)
    → any ends es ≡ (any closes (early es) || any fails (early es) || any ends (late es))
ends-halves [] = refl
ends-halves (timeout ∷ es) = ends-halves es
ends-halves (response status ∷ es) = refl
ends-halves (errored ∷ es) = ground arith
ends-halves (response_closed finished ∷ es) = refl
ends-halves (request_aborted ∷ es) = ground arith

heard-has_ended : (es : List Event) → has_ended false es ≡ (any ends es && not (unheard es))
heard-has_ended es = ground (arith, unanswered-has_ended es, ends-halves es)

-- Where requests are logged: whatever events the two connections of a forwarded request bring, in any
-- order and number, it leaves one line in the log once an error, a client that leaves or the closing of
-- the response has ended it, and none before. The one exception is a request whose response closes
-- before the legacy service has answered, as when the client hangs up while it waits: it leaves no
-- line, unless an error, a client that leaves or another closing after the answer follows.
pub forward_logged_once :
    (es : List Event)
    → length (lines (run true es forwarded).1) ≡ (if any ends es && not (unheard es) then 1 else 0)
forward_logged_once es = run-lines es forwarded ∙ ap (λ b. if b then 1 else 0) (heard-has_ended es)
