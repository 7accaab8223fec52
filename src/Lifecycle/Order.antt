-- ===== src/Lifecycle/Order.antt =====
-- The order of a graceful shutdown, against the steps that its documentation lists
-- (graceful-shutdown.ts).
use nestjs_ddd_lean.Prelude.{
  ◌≡◌, refl, sym, ap, ◌∙◌, Bool, true, false, not, List, [], ◌∷◌, ◌++◌, append-nil, append_assoc,
  arith, if◌then◌else◌, if_ind, Bool-cases, inl, inr, Bool-cases, inl, inr,
}
use nestjs_ddd_lean.Lifecycle.{
  Options, Phase, serving, delaying, closing, draining_jobs, closing_app, done, rejected, Effect,
  began, ignored, log_started, log_draining, timer_armed, idle_closed, server_close, log_forced,
  all_closed, timer_cleared, jobs_drain, app_close, log_finished, channel_released, begin, Process,
  Event, signalled, delay_over, force_over, server_closed, jobs_drained, app_closed, when,
  on_signal, resume, step, run, up,
}

-- The effects of the one run that was let through.
pub own : List Effect → List Effect
own [] = []
own (ignored ∷ fx) = own fx
own (e ∷ fx) = e ∷ own fx

-- Readiness fails first; then, after the delay, idle sockets and the server are closed; then, if the
-- force timer came before the server had closed, all sockets.
pub until_closed : Options → (forced : Bool) → List Effect
until_closed o forced =
    (began ∷ log_started o.drain_delay_ms ∷ [])
    ++ ((log_draining o.force_after_ms
          ∷ timer_armed o.force_after_ms
          ∷ (when o.can_close_idle idle_closed ++ server_close ∷ []))
        ++ (if forced then log_forced o.force_after_ms ∷ when o.can_close_all all_closed else []))

-- The server has closed and the jobs, if there is a scheduler, are drained before the application is
-- closed, and only then is the worker's channel released.
pub script : Options → (forced : Bool) → Phase → List Effect
script o forced serving = []
script o forced delaying = began ∷ log_started o.drain_delay_ms ∷ []
script o forced (closing armed) = until_closed o forced
script o forced draining_jobs = until_closed o forced ++ timer_cleared ∷ jobs_drain ∷ []
script o forced (rejected false) = until_closed o forced ++ timer_cleared ∷ jobs_drain ∷ []
script o forced closing_app =
    until_closed o forced ++ timer_cleared ∷ (when o.has_drain_jobs jobs_drain ++ app_close ∷ [])
script o forced (rejected true) =
    until_closed o forced ++ timer_cleared ∷ (when o.has_drain_jobs jobs_drain ++ app_close ∷ [])
script o forced done =
    until_closed o forced
    ++ timer_cleared
      ∷ ((when o.has_drain_jobs jobs_drain ++ app_close ∷ [])
          ++ log_finished ∷ when o.connected channel_released)

own-append : (fx gx : List Effect) → own (fx ++ gx) ≡ own fx ++ own gx
unfolding own
own-append [] gx = refl
own-append (ignored ∷ fx) gx = own-append fx gx
own-append (began ∷ fx) gx = ap (λ l. began ∷ l) (own-append fx gx)
own-append (log_started n ∷ fx) gx = ap (λ l. log_started n ∷ l) (own-append fx gx)
own-append (log_draining n ∷ fx) gx = ap (λ l. log_draining n ∷ l) (own-append fx gx)
own-append (timer_armed n ∷ fx) gx = ap (λ l. timer_armed n ∷ l) (own-append fx gx)
own-append (idle_closed ∷ fx) gx = ap (λ l. idle_closed ∷ l) (own-append fx gx)
own-append (server_close ∷ fx) gx = ap (λ l. server_close ∷ l) (own-append fx gx)
own-append (log_forced n ∷ fx) gx = ap (λ l. log_forced n ∷ l) (own-append fx gx)
own-append (all_closed ∷ fx) gx = ap (λ l. all_closed ∷ l) (own-append fx gx)
own-append (timer_cleared ∷ fx) gx = ap (λ l. timer_cleared ∷ l) (own-append fx gx)
own-append (jobs_drain ∷ fx) gx = ap (λ l. jobs_drain ∷ l) (own-append fx gx)
own-append (app_close ∷ fx) gx = ap (λ l. app_close ∷ l) (own-append fx gx)
own-append (log_finished ∷ fx) gx = ap (λ l. log_finished ∷ l) (own-append fx gx)
own-append (channel_released ∷ fx) gx = ap (λ l. channel_released ∷ l) (own-append fx gx)

abbrev Agrees : Options → Bool → Phase → Type 0
Agrees o forced (closing armed) = forced ≡ not armed
Agrees o forced draining_jobs = o.has_drain_jobs ≡ true
Agrees o forced serving = forced ≡ false
Agrees o forced delaying = forced ≡ false
Agrees o forced closing_app = Unit
Agrees o forced done = Unit
Agrees o forced (rejected app) = Unit

abbrev pub is_serving : Phase → Bool
is_serving serving = true
is_serving delaying = false
is_serving (closing armed) = false
is_serving draining_jobs = false
is_serving closing_app = false
is_serving done = false
is_serving (rejected app) = false

-- How the script grows by one step.
abbrev Grows : Options → Bool → Phase → Phase × List Effect → Type 0
Grows o forced phase (phase', fx) =
    (forced' : Bool) × (script o forced phase ++ own fx ≡ script o forced' phase')
    × Agrees o forced' phase'
    × (is_serving phase' ≡ is_serving phase)

stays :
    (o : Options) (forced : Bool) (phase : Phase)
    → Agrees o forced phase
    → Grows o forced phase (phase, [])
unfolding own
stays o forced phase a = (forced, append-nil _, a, refl)

resume-Grows :
    (o : Options) (e : Event) (forced : Bool) (phase : Phase)
    → Agrees o forced phase
    → Grows o forced phase (resume o e phase)
unfolding resume script until_closed own
resume-Grows o delay_over forced delaying a = (false, ground arith, refl, refl)
resume-Grows o force_over forced (closing true) a = (true, ground arith, refl, refl)
resume-Grows o server_closed forced (closing armed) a =
    if_ind (Grows o forced (closing armed)) o.has_drain_jobs (λ h. (forced, ground arith, h, refl))
      (λ h. (forced, ground arith, tt, refl))
resume-Grows o (jobs_drained true) forced draining_jobs a = (forced, ground arith, tt, refl)
resume-Grows o (jobs_drained false) forced draining_jobs a = (forced, append-nil _, tt, refl)
resume-Grows o (app_closed true) forced closing_app a = (forced, ground arith, tt, refl)
resume-Grows o (app_closed false) forced closing_app a = (forced, append-nil _, tt, refl)
resume-Grows o _ forced phase a = (forced, append-nil _, a, refl)

-- What a process has done by itself is the script of its phase, and the flag is down only while it
-- serves.
abbrev Scripted : Options → List Effect → Process → Type 0
Scripted o fx p =
    (forced : Bool) × (own fx ≡ script o forced p.phase)
    × Agrees o forced p.phase
    × (p.shutting_down ≡ not (is_serving p.phase))

resume-Scripted :
    (o : Options) (e : Event) (fx : List Effect) (p : Process)
    → Scripted o fx p
    → let (phase, gx) = resume o e p.phase in Scripted o (fx ++ gx) (record p { phase = phase })
resume-Scripted o e fx p (forced, same, a, flag) =
    let (forced', grown, a', serves) = resume-Grows o e forced p.phase a in
    let gx = (resume o e p.phase).1 in
    (
      forced',
      own-append fx gx ∙ (ap (λ l. l ++ own gx) same ∙ grown),
      a',
      flag ∙ ap not (sym serves),
    )

serving_of : (phase : Phase) → is_serving phase ≡ true → phase ≡ serving
serving_of serving h = refl
serving_of _ h = absurd (ground arith)

on_signal-Scripted :
    (o : Options) (fx : List Effect) (p : Process)
    → Scripted o fx p
    → Scripted o (fx ++ (on_signal o p).1) (on_signal o p).0
unfolding on_signal begin own script
on_signal-Scripted o fx p (forced, same, a, flag) = elim (Bool-cases p.shutting_down) [
  | inl down ↦
      let alone : on_signal o p ≡ (p, ignored ∷ []) = ground (arith, down) in
      rw alone (forced, own-append fx (ignored ∷ []) ∙ (append-nil (own fx) ∙ same), a, flag)
  | inr waiting ↦
      let started = began ∷ log_started o.drain_delay_ms ∷ [] in
      let begun : on_signal o p ≡ (record { shutting_down = true; phase = delaying }, started) =
        ground (arith, waiting) in
      let first = serving_of p.phase (ground (arith, waiting, flag)) in
      let nothing : own fx ≡ [] = same ∙ ap (script o forced) first in
      rw begun (false, own-append fx started ∙ ap (λ l. l ++ started) nothing, refl, refl)
]

step-Scripted :
    (o : Options) (e : Event) (fx : List Effect) (p : Process)
    → Scripted o fx p
    → Scripted o (fx ++ (step o e p).1) (step o e p).0
unfolding step
step-Scripted o signalled fx p h = on_signal-Scripted o fx p h
step-Scripted o delay_over fx p h = resume-Scripted o delay_over fx p h
step-Scripted o e fx p h = resume-Scripted o e fx p h

run-Scripted :
    (o : Options) (es : List Event) (fx : List Effect) (p : Process)
    → Scripted o fx p
    → Scripted o (fx ++ (run o es p).1) (run o es p).0
unfolding run
run-Scripted o [] fx p h = rw append-nil h
run-Scripted o (e ∷ es) fx p h =
    let r = step o e p in
    let rest = run o es r.0 in
    rw (← append_assoc) (run-Scripted o es (fx ++ r.1) r.0 (step-Scripted o e fx p h))

-- Whatever signals come and whatever the awaited parts do, in any order: what the process has done,
-- apart from ignoring further signals, is exactly the documented sequence up to the phase it is in,
-- with or without the forced closing of all connections. So every part is done at most once, the
-- application is closed only after the server has closed and the jobs have drained, and readiness
-- fails from the first signal on.
pub shutdown_order :
    (o : Options) (es : List Event)
    → let (p, fx) = run o es up in
      (forced : Bool) × (own fx ≡ script o forced p.phase)
      × (p.shutting_down ≡ not (is_serving p.phase))
unfolding script own
shutdown_order o es =
    let (forced, same, a, flag) = run-Scripted o es [] up (false, refl, refl, refl) in
    (forced, same, flag)
