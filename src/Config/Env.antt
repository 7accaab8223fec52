-- ===== src/Config/Env.antt =====
-- Reading the values of the environment (src/infrastructure/config/env.util.ts). A value is the list of
-- its code units; `toLowerCase` is a parameter.
pub mod Lists
use nestjs_ddd_lean.Prelude.{
  ℕ, Bool, true, false, not, ◌||◌, ◌==◌, Option, none, some, List, [], ◌∷◌, String, map, filter,
  is_empty, char_codes, same_text, if◌then◌else◌,
}
use nestjs_ddd_lean.Database.Text.{trim}

abbrev pub non_blank : List ℕ → Option (List ℕ)
non_blank [] = none
non_blank (c ∷ s) = some (c ∷ s)

-- `envString`
unfoldable pub env_string : Option (List ℕ) → Option (List ℕ)
env_string none = none
env_string (some value) = non_blank (trim value)

-- `spellings.includes(v)`
abbrev one_of : List ℕ → List String → Bool
one_of v [] = false
one_of v (spelling ∷ spellings) = same_text (char_codes spelling) v || one_of v spellings

unfoldable pub true_spellings : List String
true_spellings = "true" ∷ "1" ∷ "yes" ∷ "on" ∷ []

unfoldable pub false_spellings : List String
false_spellings = "false" ∷ "0" ∷ "no" ∷ "off" ∷ []

-- A Boolean, or a value that is none and is left to the validation.
pub data BoolInput : Type 0 where
  flag : Bool → BoolInput
  invalid : List ℕ → BoolInput

abbrev bool_of : (raw lowered : List ℕ) → BoolInput
bool_of raw lowered =
    if one_of lowered true_spellings
    then flag true
    else if one_of lowered false_spellings
    then flag false
    else invalid raw

abbrev pub bool_read :
    (lower : List ℕ → List ℕ) → (raw : List ℕ) → Option (List ℕ) → Option BoolInput
bool_read lower raw none = none
bool_read lower raw (some v) = some (bool_of raw (lower v))

-- `envBool`
unfoldable pub env_bool : (lower : List ℕ → List ℕ) → Option (List ℕ) → Option BoolInput
env_bool lower none = none
env_bool lower (some value) = bool_read lower value (env_string (some value))

-- `s.split(separator)`, for a separator of one code unit
abbrev put_unit : ℕ → List (List ℕ) → List (List ℕ)
put_unit c [] = (c ∷ []) ∷ []
put_unit c (s ∷ ss) = (c ∷ s) ∷ ss

unfoldable pub split : ℕ → List ℕ → List (List ℕ)
split separator [] = [] ∷ []
split separator (c ∷ s) =
    let rest = split separator s in if c == separator then [] ∷ rest else put_unit c rest

-- `items.map((item) => item.trim()).filter(Boolean)`
unfoldable pub trimmed_items : List (List ℕ) → List (List ℕ)
trimmed_items items = filter (λ item. not (is_empty item)) (map trim items)

-- `envList`
abbrev pub items_of : Option (List ℕ) → Option (List (List ℕ))
items_of none = none
items_of (some v) = some (trimmed_items (split 44 v))

unfoldable pub env_list : Option (List ℕ) → Option (List (List ℕ))
env_list value = items_of (env_string value)
