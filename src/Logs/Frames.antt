-- ===== src/Logs/Frames.antt =====
-- The frames of a stack trace (error-origin.util.ts, format-stack-trace.util.ts in src/common/utils). A
-- text is the list of its code units, and a regular expression is its matcher: the longest text for
-- `.*` first.
pub mod Laws
mod Tests
use nestjs_ddd_lean.Prelude.{
  ℕ, Bool, true, false, not, ◌&&◌, ◌||◌, Option, none, some, List, [], ◌∷◌, ◌++◌, String, any, all,
  filter, leb, ◌==◌, is_empty, is_some, if◌then◌else◌, char_codes,
}
use nestjs_ddd_lean.Database.Text.{is_space, trim}

abbrev pub starts_with : List ℕ → List ℕ → Bool
starts_with [] s = true
starts_with (c ∷ cs) [] = false
starts_with (c ∷ cs) (d ∷ s) = c == d && starts_with cs s

-- What follows the first code unit of the first occurrence of a text, `slice(indexOf(m) + 1)`, if
-- there is one.
abbrev pub after_first : List ℕ → List ℕ → Option (List ℕ)
after_first m [] = none
after_first m (c ∷ s) = if starts_with m (c ∷ s) then some s else after_first m s

-- `s.includes(m)`
abbrev pub includes : List ℕ → List ℕ → Bool
includes m [] = is_empty m
includes m (c ∷ s) = starts_with m (c ∷ s) || includes m s

-- `s.split('\n')`
abbrev put_first : ℕ → List (List ℕ) → List (List ℕ)
put_first c [] = (c ∷ []) ∷ []
put_first c (line ∷ lines) = (c ∷ line) ∷ lines

unfoldable pub split_lines : List ℕ → List (List ℕ)
split_lines [] = [] ∷ []
split_lines (c ∷ s) = let rest = split_lines s in if c == 10 then [] ∷ rest else put_first c rest

-- `.` of a regular expression: not a line terminator.
abbrev dot : ℕ → Bool
dot c = not (c == 10 || c == 13 || c == 8232 || c == 8233)

-- `\d`
abbrev digit : ℕ → Bool
digit c = leb 48 c && leb c 57

-- `(.*)\)$`
abbrev until_paren : List ℕ → Option (List ℕ)
until_paren [] = none
until_paren (c ∷ []) = if c == 41 then some [] else none
until_paren (c ∷ d ∷ s) =
    let rest = until_paren (d ∷ s) in
    if dot c then elim rest [ none ↦ none | some loc ↦ some (c ∷ loc) ] else none

-- `^(.*)\s\((.*)\)$`
abbrev call_here : ℕ → List ℕ → Option (List ℕ × List ℕ)
call_here c [] = none
call_here c (d ∷ s) =
    if is_space c && d == 40
    then elim (until_paren s) [ none ↦ none | some loc ↦ some ([], loc) ]
    else none

unfoldable pub match_call : List ℕ → Option (List ℕ × List ℕ)
match_call [] = none
match_call (c ∷ s) =
    let deeper = match_call s in
    if dot c
    then elim deeper [ none ↦ call_here c s | some m ↦ some (c ∷ m.0, m.1) ]
    else call_here c s

-- `ParsedFrame`
pub record ParsedFrame : Type 0 where
  pub fn : Option (List ℕ)
  pub location : List ℕ

abbrev non_empty : List ℕ → Option (List ℕ)
non_empty [] = none
non_empty (c ∷ s) = some (c ∷ s)

-- `parseFrame`
abbrev frame_of : List ℕ → Option (List ℕ × List ℕ) → ParsedFrame
frame_of rest none = record { fn = none; location = rest }
frame_of rest (some m) = record { fn = non_empty (trim m.0); location = trim m.1 }

abbrev drop3 : List ℕ → List ℕ
drop3 (a ∷ b ∷ c ∷ s) = s
drop3 s = []

unfoldable pub parse_frame : List ℕ → Option ParsedFrame
parse_frame raw_line =
    let line = trim raw_line in
    if starts_with (char_codes "at ") line
    then (let rest = trim (drop3 line) in some (frame_of rest (match_call rest)))
    else none

unfoldable pub own_path_markers : List (List ℕ)
own_path_markers = char_codes "/src/" ∷ char_codes "/dist/" ∷ char_codes "/test/" ∷ []

-- `isOwnFrame`
unfoldable pub is_own_frame : List ℕ → Bool
is_own_frame location =
    not (starts_with (char_codes "node:") location)
    && not (includes (char_codes "node_modules") location)
    && any (λ marker. includes marker location) own_path_markers

-- `relativeToProject`
abbrev pub relative_from : List (List ℕ) → List ℕ → Option (List ℕ)
relative_from [] location = none
relative_from (marker ∷ markers) location = elim (after_first marker location) [
  | some relative ↦ some relative
  | none ↦ relative_from markers location
]

unfoldable pub relative_to_project : List ℕ → Option (List ℕ)
relative_to_project location = relative_from own_path_markers location

-- `^(.*):(\d+):(\d+)$`: from the code unit after the first colon, the digits before the second.
abbrev digits_only : List ℕ → Bool
digits_only s = not (is_empty s) && all digit s

abbrev line_number : List ℕ → Option (List ℕ)
line_number [] = none
line_number (c ∷ s) =
    let rest = line_number s in
    if digit c
    then elim rest [
      | some digits ↦ some (c ∷ digits)
      | none ↦ elim s [
        | [] ↦ none
        | d ∷ col ↦ if d == 58 && digits_only col then some (c ∷ []) else none
      ]
    ]
    else none

abbrev colon_here : ℕ → List ℕ → Option (List ℕ × List ℕ)
colon_here c s =
    if c == 58 then elim (line_number s) [ none ↦ none | some digits ↦ some ([], digits) ] else none

unfoldable pub match_position : List ℕ → Option (List ℕ × List ℕ)
match_position [] = none
match_position (c ∷ s) =
    let deeper = match_position s in
    if dot c
    then elim deeper [ none ↦ colon_here c s | some m ↦ some (c ∷ m.0, m.1) ]
    else colon_here c s

-- `stripColumn`
abbrev pub position : List ℕ → Option (List ℕ × List ℕ) → List ℕ
position location none = location
position location (some m) = m.0 ++ 58 ∷ m.1

unfoldable pub strip_column : List ℕ → List ℕ
strip_column location = position location (match_position location)

-- The text of a frame: its place, and the function where it is known.
abbrev pub described : Option (List ℕ) → List ℕ → List ℕ
described none location = location
described (some fn) location = location ++ (32 ∷ 40 ∷ (fn ++ 41 ∷ []))

-- One turn of the loop over the lines.
abbrev pub own_text : ParsedFrame → Option (List ℕ)
own_text frame =
    if is_own_frame frame.location
    then elim (relative_to_project frame.location) [
      | none ↦ none
      | some [] ↦ none
      | some (c ∷ s) ↦ some (described frame.fn (strip_column (c ∷ s)))
    ]
    else none

abbrev pub own_line : List ℕ → Option (List ℕ)
own_line raw_line = elim (parse_frame raw_line) [ none ↦ none | some frame ↦ own_text frame ]

abbrev pub first_own : List (List ℕ) → Option (List ℕ)
first_own [] = none
first_own (line ∷ lines) =
    let rest = first_own lines in elim (own_line line) [ none ↦ rest | some s ↦ some s ]

-- `frameFromStack`
unfoldable pub frame_from_stack : Option (List ℕ) → Option (List ℕ)
frame_from_stack none = none
frame_from_stack (some []) = none
frame_from_stack (some (c ∷ s)) = first_own (split_lines (c ∷ s))
