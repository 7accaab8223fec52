-- ===== src/Legacy.antt =====
-- src/infrastructure/legacy: which paths are forwarded to the legacy service (matches-prefix.util.ts)
-- and what a forwarded request does with the events of its two connections (legacy-forwarder.ts). Paths
-- are lists of code units. What is sent to the legacy
-- service is in Headers and Request.
pub mod Prefix
pub mod Headers
pub mod Settling
pub mod Request
mod Tests
use nestjs_ddd_lean.Prelude.{
  ℕ, zero, suc, Bool, true, false, not, ◌&&◌, ◌||◌, Option, none, some, List, [], ◌∷◌, ◌++◌, String,
  if◌then◌else◌, ◌==◌, same_text, or_else, any, is_empty,
}

abbrev pub slash : ℕ
slash = 47

abbrev pub strip_slash : ℕ → List ℕ → List ℕ
strip_slash c [] = if c == slash then [] else c ∷ []
strip_slash c (d ∷ ds) = c ∷ strip_slash d ds

-- `normalize`: one trailing slash goes, unless the path is that slash.
unfoldable pub normalize : List ℕ → List ℕ
normalize [] = []
normalize (c ∷ []) = c ∷ []
normalize (c ∷ d ∷ ds) = c ∷ strip_slash d ds

-- `startsWith`
abbrev pub starts_with : List ℕ → List ℕ → Bool
starts_with s [] = true
starts_with [] (c ∷ cs) = false
starts_with (d ∷ ds) (c ∷ cs) = (d == c) && starts_with ds cs

-- `matchesLegacyPrefix`
unfoldable pub matches_legacy_prefix : List ℕ → List (List ℕ) → Bool
matches_legacy_prefix path prefixes =
    let target = normalize path in
    any
      (λ prefix.
        let normalized = normalize prefix in
        same_text target normalized || starts_with target (normalized ++ slash ∷ []))
      prefixes

-- `ForwardOutcome`
pub data ForwardOutcome : Type 0 where
  completed aborted failed : ForwardOutcome

pub data Level : Type 0 where
  info warn error : Level

pub record Line : Type 0 where
  pub level : Level
  pub status : Option ℕ

-- The state that the listeners of one forwarded request share: `timedOut`, `settled`, the status of the
-- legacy service once it has answered, and whether the head of the response is written.
pub record Forward : Type 0 where
  pub timed_out : Bool
  pub settled : Bool
  pub upstream_status : Option ℕ
  pub headers_sent : Bool

abbrev pub forwarded : Forward
forwarded = record {
  timed_out = false;
  settled = false;
  upstream_status = none;
  headers_sent = false;
}

pub data Event : Type 0 where
  timeout : Event
  response : (status_code : Option ℕ) → Event
  errored : Event
  response_closed : (finished : Bool) → Event
  request_aborted : Event

pub data Effect : Type 0 where
  wrote_head : ℕ → Effect
  ended : String → Effect
  response_destroyed outbound_destroyed piped : Effect
  logged : Line → Effect

module _ (log_requests : Bool) where
  -- `logOutcome`
  unfoldable pub log_outcome : ForwardOutcome → Option ℕ → List Effect
  log_outcome failed status = logged (record { level = error; status = status }) ∷ []
  log_outcome aborted status =
      if log_requests then logged (record { level = warn; status = status }) ∷ [] else []
  log_outcome completed status =
      if log_requests then logged (record { level = info; status = status }) ∷ [] else []

  -- `settle`
  unfoldable pub settle : ForwardOutcome → Option ℕ → Forward → Forward × List Effect
  settle outcome status f =
      if f.settled then (f, []) else (record f { settled = true }, log_outcome outcome status)

  -- The listener of an error of the outbound request.
  unfoldable pub on_error : Forward → Forward × List Effect
  on_error f =
      let status = if f.timed_out then 504 else 502 in
      let (g, fx) = settle failed (some status) f in
      if g.headers_sent then (g, fx ++ response_destroyed ∷ []) else (
        record g { headers_sent = true },
        fx
            ++ wrote_head status
              ∷ ended (if f.timed_out then "Gateway Timeout" else "Bad Gateway")
              ∷ [],
      )

  -- The listener of the response's closing, which is there once the legacy service has answered.
  unfoldable pub on_close : Bool → Option ℕ → Forward → Forward × List Effect
  on_close finished none f = (f, [])
  on_close true (some status) f = settle completed (some status) f
  on_close false (some status) f =
      let (g, fx) = settle aborted (some status) f in (g, fx ++ outbound_destroyed ∷ [])

  unfoldable pub step : Event → Forward → Forward × List Effect
  step timeout f = (record f { timed_out = true }, outbound_destroyed ∷ [])
  step (response status_code) f =
      let status = or_else status_code 502 in
      (
        record f { upstream_status = some status; headers_sent = true },
        wrote_head status ∷ piped ∷ [],
      )
  step errored f = on_error f
  step (response_closed finished) f = on_close finished f.upstream_status f
  step request_aborted f = let (g, fx) = settle aborted none f in (g, fx ++ outbound_destroyed ∷ [])

  unfoldable pub run : List Event → Forward → Forward × List Effect
  run [] f = (f, [])
  run (e ∷ es) f = let r = step e f in let rest = run es r.0 in (rest.0, r.1 ++ rest.1)
