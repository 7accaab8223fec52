-- ===== src/Config/Access.antt =====
-- Reading the validated configuration (src/infrastructure/config/env-config.adapter.ts).
use nestjs_ddd_lean.Prelude.{
  ℕ, ◌≡◌, refl, sym, ap, ◌∙◌, Bool, true, false, List, [], ◌∷◌, ◌++◌, all, if◌then◌else◌, same_text,
  char_codes, arith,
}
use nestjs_ddd_lean.Config.Env.{split}
use nestjs_ddd_lean.Config.Env.Lists.{join_units, is_free, split-join_units}
use nestjs_ddd_lean.Config.Hydrate.{
  Tree, undefined, null, text, boolean, number, texts, array, object, Fields, no_fields, field,
}

-- `current[part]`
unfoldable pub get_part : List ℕ → Fields → Tree
get_part part no_fields = undefined
get_part part (field k v fs) =
    let rest = get_part part fs in if same_text (char_codes k) part then v else rest

-- The loop of `get` over the parts of a key: what is not a record has no parts.
unfoldable pub walk_parts : List (List ℕ) → Tree → Tree
walk_parts [] current = current
walk_parts (part ∷ parts) (object fs) = walk_parts parts (get_part part fs)
walk_parts (part ∷ parts) undefined = undefined
walk_parts (part ∷ parts) null = undefined
walk_parts (part ∷ parts) (text s) = undefined
walk_parts (part ∷ parts) (boolean b) = undefined
walk_parts (part ∷ parts) (number n) = undefined
walk_parts (part ∷ parts) (texts ss) = undefined
walk_parts (part ∷ parts) (array es) = undefined

-- `get`
unfoldable pub get : Tree → List ℕ → Tree
get config key = walk_parts (split 46 key) config

-- `isDevelopment`, `isProduction`
abbrev is_text : Tree → List ℕ → Bool
is_text (text s) t = same_text s t
is_text v t = false

unfoldable pub is_development : Tree → Bool
is_development config =
    is_text (walk_parts (char_codes "app" ∷ char_codes "env" ∷ []) config)
      (char_codes "development")

unfoldable pub is_production : Tree → Bool
is_production config =
    is_text (walk_parts (char_codes "app" ∷ char_codes "env" ∷ []) config) (char_codes "production")

walk_undefined : (parts : List (List ℕ)) → walk_parts parts undefined ≡ undefined
unfolding walk_parts
walk_undefined [] = refl
walk_undefined (part ∷ parts) = refl

walk-append :
    (ps qs : List (List ℕ)) (v : Tree) → walk_parts (ps ++ qs) v ≡ walk_parts qs (walk_parts ps v)
unfolding walk_parts
walk-append [] qs v = refl
walk-append (p ∷ ps) qs (object fs) = walk-append ps qs (get_part p fs)
walk-append (p ∷ ps) qs undefined = sym (walk_undefined qs)
walk-append (p ∷ ps) qs null = sym (walk_undefined qs)
walk-append (p ∷ ps) qs (text s) = sym (walk_undefined qs)
walk-append (p ∷ ps) qs (boolean b) = sym (walk_undefined qs)
walk-append (p ∷ ps) qs (number n) = sym (walk_undefined qs)
walk-append (p ∷ ps) qs (texts ss) = sym (walk_undefined qs)
walk-append (p ∷ ps) qs (array es) = sym (walk_undefined qs)

get-join_units :
    (config : Tree) (p : List ℕ) (ps : List (List ℕ))
    → all (is_free 46) (p ∷ ps) ≡ true
    → get config (join_units 46 (p ∷ ps)) ≡ walk_parts (p ∷ ps) config
unfolding get
get-join_units config p ps free =
    ap (λ parts. walk_parts parts config) (split-join_units 46 p ps free)

all-append :
    (ps qs : List (List ℕ))
    → all (is_free 46) ps ≡ true
    → all (is_free 46) qs ≡ true
    → all (is_free 46) (ps ++ qs) ≡ true
all-append [] qs h k = k
all-append (p ∷ ps) qs h k = ground (arith, h, all-append ps qs (ground (arith, h)) k)

-- Reading a dotted key is reading its last names in what its first names give, wherever the key is
-- divided, also where that is missing or no record; the names have no dots in them.
pub get_nested :
    (config : Tree) (p : List ℕ) (ps : List (List ℕ)) (q : List ℕ) (qs : List (List ℕ))
    → all (is_free 46) (p ∷ ps) ≡ true
    → all (is_free 46) (q ∷ qs) ≡ true
    → get config (join_units 46 ((p ∷ ps) ++ (q ∷ qs)))
      ≡ get (get config (join_units 46 (p ∷ ps))) (join_units 46 (q ∷ qs))
get_nested config p ps q qs free free_too =
    get-join_units config p (ps ++ q ∷ qs) (all-append (p ∷ ps) (q ∷ qs) free free_too)
    ∙ (walk-append (p ∷ ps) (q ∷ qs) config
        ∙ sym (
            ap (λ v. get v (join_units 46 (q ∷ qs))) (get-join_units config p ps free)
            ∙ get-join_units (walk_parts (p ∷ ps) config) q qs free_too))
