-- ===== src/Logs/Options/Levels.antt =====
-- The level of an access line (pino.options.ts), beside the line of the exception filter
-- (global-exception.filter.ts).
use nestjs_ddd_lean.Prelude.{
  ℕ, ◌≡◌, refl, ap, ◌∙◌, true, false, ltb, Bool-cases, inl, inr, Option, some, List, [], ◌∷◌,
  String, arith, char_codes,
}
use nestjs_ddd_lean.Http.Filter.{Caught, Line, log, Level}
use nestjs_ddd_lean.Logs.Options.{AccessLevel, error, warn, info, is_health_check, custom_log_level}

abbrev level_of : Level → AccessLevel
level_of Level.error = error
level_of Level.warn = warn

abbrev first_level : List Line → AccessLevel
first_level [] = info
first_level (l ∷ ls) = level_of l.level

log-first_level :
    (exception : Caught) (status : ℕ) (request_id : String) (url : Option (List ℕ))
    → ltb status 400 ≡ false
    → custom_log_level false status url ≡ first_level (log exception status request_id)
unfolding log custom_log_level
log-first_level exception status request_id url h = ground (arith, h)

-- The access line has the level of the exception filter's line, for a reply that has one.
same_level :
    (exception : Caught) (status : ℕ) (request_id : String) (url : Option (List ℕ)) (l : Line)
    → log exception status request_id ≡ l ∷ []
    → custom_log_level false status url ≡ level_of l.level
unfolding log
same_level exception status request_id url l h = elim (Bool-cases (ltb status 400)) [
  | inl low ↦ absurd (ground (arith, low, h))
  | inr high ↦ log-first_level exception status request_id url high ∙ ap first_level h
]

poll_with_query : is_health_check (some (char_codes "/health/ready/?full=1")) ≡ true
unfolding is_health_check
poll_with_query = refl

not_a_poll : is_health_check (some (char_codes "/healthy")) ≡ false
unfolding is_health_check
not_a_poll = refl
