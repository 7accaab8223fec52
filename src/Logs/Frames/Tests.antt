-- ===== src/Logs/Frames/Tests.antt =====
-- Frames of this repository, of a library and of node.
use nestjs_ddd_lean.Prelude.{ℕ, ◌≡◌, refl, some, List, char_codes}
use nestjs_ddd_lean.Database.Text.{is_space, trim}
use nestjs_ddd_lean.Logs.Frames.{
  split_lines, match_call, parse_frame, own_path_markers, is_own_frame, relative_to_project,
  match_position, strip_column, frame_from_stack,
}

abbrev stack : List ℕ
stack =
    char_codes
      "Error: x\n    at f (node:fs:1:2)\n    at a.b (/app/src/x y.ts:12:3)\n at /src/z.ts:1:1"

own : frame_from_stack (some stack) ≡ some (char_codes "src/x y.ts:12 (a.b)")
unfolding frame_from_stack split_lines parse_frame match_call own_path_markers is_own_frame
    relative_to_project match_position strip_column is_space trim
own = refl
