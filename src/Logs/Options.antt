-- ===== src/Logs/Options.antt =====
-- The options of the logger (src/infrastructure/logging/pino.options.ts): where lines go, what they say
-- of an error, and the level of an access line. Joining a path and whether a module is installed are
-- parameters, as are an error's name and message. Fixed settings of pino-http are left out.
mod Levels
use nestjs_ddd_lean.Prelude.{
  ℕ, ◌+◌, Bool, true, false, not, ◌&&◌, ◌||◌, ◌==◌, ltb, leb, Option, none, some, List, [], ◌∷◌,
  String, or_else, all, is_empty, same_text, char_codes, if◌then◌else◌,
}
use nestjs_ddd_lean.Logs.Frames.{starts_with}
use nestjs_ddd_lean.Logs.Trace.{format_stack_trace}
use nestjs_ddd_lean.Logs.Origin.{Heap, ErrorOrigin, resolve_error_origin, stack_of}

-- What the options read of the configuration.
pub record LoggingConfig : Type 0 where
  pub log_level : String
  pub show_stack_traces : Bool
  pub to_file : Bool
  pub directory : String
  pub file_name : String
  pub files_limit : ℕ
  pub max_size : String
  pub pretty : Option Bool
  pub is_development : Bool

-- The targets of pino: a rolled file (its name, size and number of files), coloured lines, or standard
-- output.
pub data Target : Type 0 where
  roll : (level file size : String) (count : ℕ) → Target
  pretty_console : (level : String) → Target
  standard_output : (level : String) → Target

module _ (join_path : String → String → String) (is_resolvable : String → Bool) where
  -- `rollingFileTarget`: one file more than the limit, for the current one.
  unfoldable pub rolling_file_target : LoggingConfig → String → Target
  rolling_file_target c file_name =
      roll c.log_level (join_path c.directory file_name) c.max_size (c.files_limit + 1)

  -- `fileRotationTarget`
  unfoldable pub file_rotation_target : LoggingConfig → Option Target
  file_rotation_target c = if c.to_file then some (rolling_file_target c c.file_name) else none

  -- `consoleTarget`
  unfoldable pub console_target : LoggingConfig → Target
  console_target c =
      if or_else c.pretty c.is_development && is_resolvable "pino-pretty"
      then pretty_console c.log_level
      else standard_output c.log_level

  abbrev present_targets : Option Target → Target → List Target
  present_targets none console = console ∷ []
  present_targets (some file) console = file ∷ console ∷ []

  -- `createTransportTargets`
  unfoldable pub create_transport_targets : LoggingConfig → List Target
  create_transport_targets c = present_targets (file_rotation_target c) (console_target c)

  -- `createDedicatedFileTargets`
  unfoldable pub create_dedicated_file_targets : LoggingConfig → String → List Target
  create_dedicated_file_targets c file_name =
      if c.to_file then rolling_file_target c file_name ∷ [] else console_target c ∷ []

-- `^\/health(\/ready)?\/?(\?.*)?$`: what follows the path is nothing, or a query on one line.
abbrev query_end : List ℕ → Bool
query_end [] = true
query_end (c ∷ s) = c == 63 && all (λ d. not (d == 10 || d == 13 || d == 8232 || d == 8233)) s

abbrev slash_end : List ℕ → Bool
slash_end [] = true
slash_end (c ∷ s) = if c == 47 then query_end s || query_end (c ∷ s) else query_end (c ∷ s)

abbrev after_prefix : List ℕ → List ℕ → Option (List ℕ)
after_prefix [] s = some s
after_prefix (c ∷ p) [] = none
after_prefix (c ∷ p) (d ∷ s) = let rest = after_prefix p s in if c == d then rest else none

abbrev ends_after : Option (List ℕ) → Bool
ends_after none = false
ends_after (some s) = slash_end s

abbrev health_end : Option (List ℕ) → Bool
health_end none = false
health_end (some s) = ends_after (after_prefix (char_codes "/ready") s) || slash_end s

-- `isHealthCheck`
unfoldable pub is_health_check : Option (List ℕ) → Bool
is_health_check none = false
is_health_check (some []) = false
is_health_check (some (c ∷ s)) = health_end (after_prefix (char_codes "/health") (c ∷ s))

pub data AccessLevel : Type 0 where
  error warn info silent : AccessLevel

-- `customLogLevel`
unfoldable pub custom_log_level :
    (failed : Bool) → (status : ℕ) → (url : Option (List ℕ)) → AccessLevel
custom_log_level failed status url =
    if failed || leb 500 status
    then error
    else if leb 400 status
    then warn
    else if is_health_check url
    then silent
    else info

-- What a line says of an error.
pub record ErrorLine : Type 0 where
  pub type : String
  pub message : String
  pub origin : Option (List ℕ)
  pub cause_origin : Option (List ℕ)
  pub stack : Option (List ℕ)

-- The `raw` of a value: null or undefined, something else that is no object, or an object.
pub data RawField : Type 0 where
  nullish primitive : RawField
  reference : ℕ → RawField

-- `unwrapRaw`, with the value's `raw` where it has one.
unfoldable pub unwrap_raw : (value : Option ℕ) → (raw : Option RawField) → Option ℕ
unwrap_raw value none = value
unwrap_raw value (some nullish) = value
unwrap_raw value (some primitive) = none
unwrap_raw value (some (reference original)) = some original

abbrev shown_stack : Bool → Heap → Option ℕ → Option (List ℕ)
shown_stack show heap none = none
shown_stack show heap (some id) = if show then format_stack_trace (stack_of heap id) else none

abbrev error_line :
    Bool
    → Heap
    → Option ℕ
    → (type message : String) → Option (ErrorOrigin × List ℕ)
    → Option ErrorLine
error_line show heap source type message none = none
error_line show heap source type message (some found) = some record {
  type = type;
  message = message;
  origin = found.0.origin;
  cause_origin = found.0.cause_origin;
  stack = shown_stack show heap source;
}

-- `errorSerializer`, on the fuel of the search for the origin.
unfoldable pub serialize_error :
    (name_of message_of : Option ℕ → String)
    → LoggingConfig
    → ℕ
    → Heap
    → (value : Option ℕ) → (raw : Option RawField) → Option ErrorLine
serialize_error name_of message_of c fuel heap value raw =
    let source = unwrap_raw value raw in
    error_line c.show_stack_traces heap source (name_of source) (message_of source)
      (resolve_error_origin fuel heap source)
