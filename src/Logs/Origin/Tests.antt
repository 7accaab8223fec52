-- ===== src/Logs/Origin/Tests.antt =====
-- Two errors that are each other's cause, one thrown in this repository and one by a library, and a
-- third around them.
use nestjs_ddd_lean.Prelude.{
  ℕ, ◌≡◌, ◌≤◌, refl, some, List, [], char_codes, length, arith, zero, suc,
}
use nestjs_ddd_lean.Database.Text.{is_space, trim}
use nestjs_ddd_lean.Logs.Frames.{
  split_lines, match_call, parse_frame, own_path_markers, is_own_frame, relative_to_project,
  match_position, strip_column, frame_from_stack,
}
use nestjs_ddd_lean.Logs.Frames.Laws.{InProject, FirstShown, frame_from_stack-InProject}
use nestjs_ddd_lean.Logs.Origin.{
  Heap, ErrorOrigin, frame_at, stack_of, cause_of, visit, walk, second_walk, resolve_error_origin,
}
use nestjs_ddd_lean.Logs.Origin.Ending.{Distinct, search_ends}
use nestjs_ddd_lean.Logs.Origin.Chain.{chain, first_text, expected, result, origin_of_chain}

abbrev query : List ℕ
query = char_codes "Error: x\n    at run (/app/node_modules/d.js:1:2)\n    at q (/app/src/q.ts:7:3)"

abbrev driver : List ℕ
driver = char_codes "Error: y\n    at run (/app/node_modules/d.js:1:2)"

abbrev outer : List ℕ
outer = char_codes "Error: z\n    at /app/dist/main.js:5:1"

abbrev circle : Heap
circle zero = record { stack = some outer; cause = some 1 }
circle (suc zero) = record { stack = some driver; cause = some 2 }
circle (suc (suc n)) = record { stack = some query; cause = some 1 }

circle_origin :
    result (resolve_error_origin 11 circle (some 0))
    ≡ some record {
      origin = some (char_codes "dist/main.js:5");
      cause_origin = some (char_codes "src/q.ts:7 (q)");
    }
unfolding frame_from_stack split_lines parse_frame match_call own_path_markers is_own_frame
    relative_to_project match_position strip_column is_space trim stack_of cause_of visit walk
    second_walk resolve_error_origin
circle_origin = refl

query_frame : frame_from_stack (some query) ≡ some (char_codes "src/q.ts:7 (q)")
unfolding frame_from_stack split_lines parse_frame match_call own_path_markers is_own_frame
    relative_to_project match_position strip_column is_space trim
query_frame = refl

-- A directory above the project that has such a name is shown.
in_usr_src :
    frame_from_stack (some (char_codes "Error: w\n    at /usr/src/app/dist/main.js:5:1"))
    ≡ some (char_codes "src/app/dist/main.js:5")
unfolding frame_from_stack split_lines parse_frame match_call own_path_markers is_own_frame
    relative_to_project match_position strip_column is_space trim
in_usr_src = refl

frame_from_stack-InProject_example :
    InProject (char_codes "src/q.ts:7 (q)")
    × FirstShown (split_lines query) (char_codes "src/q.ts:7 (q)")
frame_from_stack-InProject_example =
    frame_from_stack-InProject (some query) (char_codes "src/q.ts:7 (q)") query_frame

origin_of_chain_example :
    result (resolve_error_origin 11 circle (some 0))
    ≡ some (expected circle (first_text (frame_at circle) (chain 10 circle [] (some 0))))
origin_of_chain_example = origin_of_chain 11 circle (some 0) (omega arith)

search_ends_example :
    (r : ErrorOrigin × List ℕ) × (resolve_error_origin 11 circle (some 1) ≡ some r)
    × Distinct r.1
    × (length r.1 ≤ 10)
search_ends_example = search_ends 11 circle (some 1) (omega arith)
