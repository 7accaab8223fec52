-- ===== src/Legacy/Tests.antt =====
-- A path with and without its slash, and a legacy service that times out after it has answered.
use nestjs_ddd_lean.Prelude.{
  ℕ, ◌≡◌, refl, ◌↔◌, true, false, not, ◌&&◌, any, some, List, [], ◌∷◌, length, if◌then◌else◌,
}
use nestjs_ddd_lean.Legacy.{
  normalize, matches_legacy_prefix, Event, timeout, response, errored, response_closed, wrote_head,
  piped, outbound_destroyed, response_destroyed, logged, error, log_outcome, settle, on_error,
  on_close, step, run, forwarded,
}
use nestjs_ddd_lean.Legacy.Prefix.{Under, matches_legacy_prefix_iff}
use nestjs_ddd_lean.Legacy.Settling.{lines, ends, unheard, forward_logged_once}

-- `/v1`, `/v1/` and `/v1x`
abbrev v1 : List ℕ
v1 = 47 ∷ 118 ∷ 49 ∷ []

abbrev v1_slash : List ℕ
v1_slash = 47 ∷ 118 ∷ 49 ∷ 47 ∷ []

abbrev v1x : List ℕ
v1x = 47 ∷ 118 ∷ 49 ∷ 120 ∷ []

same_path : matches_legacy_prefix v1 (v1_slash ∷ []) ≡ true
unfolding matches_legacy_prefix normalize
same_path = refl

other_segment : matches_legacy_prefix v1x (v1 ∷ []) ≡ false
unfolding matches_legacy_prefix normalize
other_segment = refl

matches_legacy_prefix_iff_example :
    (matches_legacy_prefix v1 (v1_slash ∷ []) ≡ true) ↔ Under v1 (v1_slash ∷ [])
matches_legacy_prefix_iff_example = matches_legacy_prefix_iff v1 (v1_slash ∷ [])

abbrev events : List Event
events = response (some 200) ∷ timeout ∷ errored ∷ response_closed false ∷ []

timed_out_late :
    (run true events forwarded).1
    ≡ wrote_head 200
      ∷ piped
      ∷ outbound_destroyed
      ∷ logged (record { level = error; status = some 504 })
      ∷ response_destroyed
      ∷ outbound_destroyed
      ∷ []
unfolding run step on_error on_close settle log_outcome
timed_out_late = refl

-- The client hangs up while it waits for the legacy service's answer.
unlogged :
    length (lines (run true (response_closed false ∷ response (some 200) ∷ []) forwarded).1) ≡ 0
unfolding run step on_close lines
unlogged = refl

forward_logged_once_example :
    length (lines (run true events forwarded).1)
    ≡ (if any ends events && not (unheard events) then 1 else 0)
forward_logged_once_example = forward_logged_once events
