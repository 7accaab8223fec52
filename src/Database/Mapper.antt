-- ===== src/Database/Mapper.antt =====
-- src/infrastructure/database/clients/oracle/oracle-error.mapper.ts. How the language writes a number
-- is a parameter. The details and the cause of the new error are opaque texts.
pub mod Codes
pub mod Laws
use nestjs_ddd_lean.Prelude.{
  ℕ, zero, suc, ◌-◌, ◌≡◌, refl, ap, ◌⊎◌, inl, inr, Option, none, some, Option-cases, List, [], ◌∷◌,
  Bool, true, false, has, ◌===◌, truthy, if◌then◌else◌, if_ind, arith,
}
use Prim.Native.String.{String}
use nestjs_ddd_lean.Errors.{
  ◌<>◌, AppError, conflict_error, database_connection_error, database_execution_error, app_message,
  app_problem, tagged,
}

-- An object of the driver, with its `code` and `errorNum`.
pub record DriverError : Type 0 where
  pub code : Option String
  pub error_num : Option ℕ
  pub message : String

-- A thrown value: an error of the application, an object with a `code` or an `errorNum`, or another.
pub data Raised : Type 0 where
  app_error : AppError → Raised
  driver_error : DriverError → Raised
  other_error : (message : String) → Raised

unfoldable pub connection_codes : List String
connection_codes =
    "NJS-040" ∷ "NJS-076" ∷ "NJS-500" ∷ "NJS-501" ∷ "NJS-503" ∷ "NJS-510" ∷ "NJS-521" ∷ "DPI-1010"
    ∷ "DPI-1080" ∷ "ORA-03113" ∷ "ORA-03114" ∷ "ORA-03135" ∷ "ORA-12170" ∷ "ORA-12514" ∷ "ORA-12541"
    ∷ "ORA-12543" ∷ "ORA-12545" ∷ []

abbrev pub chars : String → ℕ
chars String.[] = 0
chars (String.◌∷◌ c s) = suc (chars s)

abbrev pub pad_zeros : ℕ → String → String
pad_zeros zero s = s
pad_zeros (suc n) s = "0" <> pad_zeros n s

abbrev pub raised_message : Raised → String
raised_message (driver_error e) = e.message
raised_message (app_error e) = app_message e
raised_message (other_error m) = m

module _ (decimal : ℕ → String) where
  -- `String(errorNum).padStart(5, '0')`
  abbrev pub padded : ℕ → String
  padded n = pad_zeros (5 - chars (decimal n)) (decimal n)

  -- The code of an object; the number 0 counts as no number.
  unfoldable pub driver_code : DriverError → Option String
  driver_code e = elim e.code [
    | some c ↦ some c
    | none ↦ elim e.error_num [
      | none ↦ none
      | some zero ↦ none
      | some (suc n) ↦ some ("ORA-" <> padded (suc n))
    ]
  ]

  -- A `DatabaseExecutionError` has a `code` of its own.
  unfoldable pub code_of : Raised → Option String
  code_of (driver_error e) = driver_code e
  code_of (app_error (database_execution_error k t c code)) = code
  code_of (app_error e) = none
  code_of (other_error m) = none

  abbrev pub classified : Raised → String → Option String → String → Raised
  classified error source_key tag code =
      if code === "ORA-00001"
      then app_error
          (conflict_error "Duplicate value" (some (code <> " " <> source_key <> tagged tag)))
      else if has code connection_codes
      then app_error (database_connection_error source_key (some (raised_message error)))
      else app_error
          (database_execution_error source_key tag (some (raised_message error)) (some code))

  unfoldable pub mapped : Raised → String → Option String → Option String → Raised
  mapped error source_key tag none = error
  mapped error source_key tag (some String.[]) = error
  mapped error source_key tag (some (String.◌∷◌ c s)) =
      classified error source_key tag (String.◌∷◌ c s)

  -- `mapOracleError`
  unfoldable pub map_oracle_error : Raised → String → Option String → Raised
  map_oracle_error error source_key tag = mapped error source_key tag (code_of error)
