-- ===== src/Http/OrderBy/Tests.antt =====
-- A list of two sort keys, a key without a direction, and a second colon.
use nestjs_ddd_lean.Prelude.{
  ℕ, ◌≡◌, refl, Option, none, some, List, [], ◌∷◌, same_text, if◌then◌else◌,
}
use nestjs_ddd_lean.Config.Env.{split}
use nestjs_ddd_lean.Http.OrderBy.{
  Dir, asc, desc, dir_text, parse_segment, parse_segments, parse_order_by,
}

abbrev order_dir : Option (List ℕ) → Option Dir
order_dir none = none
order_dir (some s) =
    if same_text s (dir_text asc)
    then some asc
    else (if same_text s (dir_text desc) then some desc else none)

-- "a:asc,b:desc"
two_keys :
    parse_order_by order_dir (97 ∷ 58 ∷ 97 ∷ 115 ∷ 99 ∷ 44 ∷ 98 ∷ 58 ∷ 100 ∷ 101 ∷ 115 ∷ 99 ∷ [])
    ≡ some (record { field = 97 ∷ []; dir = asc } ∷ record { field = 98 ∷ []; dir = desc } ∷ [])
unfolding parse_order_by parse_segments parse_segment split
two_keys = refl

-- "a"
no_direction : parse_order_by order_dir (97 ∷ []) ≡ none
unfolding parse_order_by parse_segments parse_segment split
no_direction = refl

-- "a:asc:b"
second_colon :
    parse_order_by order_dir (97 ∷ 58 ∷ 97 ∷ 115 ∷ 99 ∷ 58 ∷ 98 ∷ [])
    ≡ some (record { field = 97 ∷ []; dir = asc } ∷ [])
unfolding parse_order_by parse_segments parse_segment split
second_colon = refl
