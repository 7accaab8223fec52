-- ===== src/Logs/Trace.antt =====
-- The part of a stack trace that is logged with an error (format-stack-trace.util.ts).
use nestjs_ddd_lean.Prelude.{
  ℕ, zero, suc, Bool, not, ◌&&◌, Option, none, some, List, [], ◌∷◌, ◌++◌, filter, is_empty,
  if◌then◌else◌, char_codes,
}
use nestjs_ddd_lean.Database.Text.{trim}
use nestjs_ddd_lean.Logs.Frames.{includes, split_lines}

-- `lines.slice(0, n)`
abbrev slice : ℕ → List (List ℕ) → List (List ℕ)
slice zero lines = []
slice (suc n) [] = []
slice (suc n) (line ∷ lines) = line ∷ slice n lines

-- `lines.join('\n')`
abbrev join_lines : List (List ℕ) → List ℕ
join_lines [] = []
join_lines (line ∷ []) = line
join_lines (line ∷ next ∷ lines) = line ++ 10 ∷ join_lines (next ∷ lines)

abbrev trim_all : List (List ℕ) → List (List ℕ)
trim_all [] = []
trim_all (line ∷ lines) = trim line ∷ trim_all lines

unfoldable pub relevant : List ℕ → Bool
relevant line =
    includes (char_codes "/src/") line
    && not (includes (char_codes "node_modules") line)
    && not (includes (char_codes "(internal") line)
    && not (includes (char_codes "processTicksAndRejections") line)

unfoldable pub stack_lines : List ℕ → List (List ℕ)
stack_lines stack = filter (λ line. not (is_empty line)) (trim_all (split_lines stack))

-- The lines of the result.
unfoldable pub shown_lines : List (List ℕ) → List (List ℕ)
shown_lines lines =
    let top_frames = slice 3 (filter relevant lines) in
    if is_empty top_frames then slice 3 lines else top_frames

-- `formatStackTrace`
unfoldable pub format_stack_trace : Option (List ℕ) → Option (List ℕ)
format_stack_trace none = none
format_stack_trace (some []) = none
format_stack_trace (some (c ∷ s)) = some (join_lines (shown_lines (stack_lines (c ∷ s))))
