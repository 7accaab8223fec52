-- ===== src/Http/OrderBy.antt =====
-- The sort order in a query: src/interface/http/schemas/order-by.util.ts. A text is the list of its code
-- units; what `z.enum(['asc', 'desc']).parse` makes of a text, or of none, is the parameter `order_dir`.
mod Tests
use nestjs_ddd_lean.Prelude.{
  ℕ, ◌≡◌, refl, ap, ◌∙◌, Bool, true, false, ◌&&◌, Option, none, some, List, [], ◌∷◌, ◌++◌, map, all,
  arith,
}
use nestjs_ddd_lean.Config.Env.{split}
use nestjs_ddd_lean.Config.Env.Lists.{
  join_units, is_free, split-append, split-free, split-join_units,
}

pub data Dir : Type 0 where
  asc desc : Dir

pub record OrderByPart : Type 0 where
  pub field : List ℕ
  pub dir : Dir

abbrev pub dir_text : Dir → List ℕ
dir_text asc = 97 ∷ 115 ∷ 99 ∷ []
dir_text desc = 100 ∷ 101 ∷ 115 ∷ 99 ∷ []

-- `const [field, dir] = seg.split(':')`: what is after a second colon is dropped.
abbrev pub field_of : List (List ℕ) → List ℕ
field_of [] = []
field_of (f ∷ rest) = f

abbrev pub dir_of : List (List ℕ) → Option (List ℕ)
dir_of [] = none
dir_of (f ∷ []) = none
dir_of (f ∷ d ∷ rest) = some d

infixl 5 ◌>>=◌
abbrev pub ◌>>=◌ {ℓ κ} : {A : Type ℓ} {B : Type κ} → Option A → (A → Option B) → Option B
none >>= f = none
some a >>= f = f a

module _ (order_dir : Option (List ℕ) → Option Dir) where
  -- A segment; none stands for the error that `parse` throws.
  unfoldable pub parse_segment : List ℕ → Option OrderByPart
  parse_segment seg = do
    let parts = split 58 seg
    d ← order_dir (dir_of parts)
    some (record { field = field_of parts; dir = d })

  unfoldable pub parse_segments : List (List ℕ) → Option (List OrderByPart)
  parse_segments [] = some []
  parse_segments (seg ∷ segs) = do
    part ← parse_segment seg
    parts ← parse_segments segs
    some (part ∷ parts)

  -- `parseOrderBy`
  unfoldable pub parse_order_by : List ℕ → Option (List OrderByPart)
  parse_order_by input = parse_segments (split 44 input)

-- "field:dir"
abbrev pub written : OrderByPart → List ℕ
written part = part.field ++ 58 ∷ dir_text part.dir

-- A field's name holds neither a comma nor a colon.
abbrev pub is_plain : OrderByPart → Bool
is_plain part = is_free 44 part.field && is_free 58 part.field

dir_text-free : (d : Dir) → all (is_free 58) (dir_text d ∷ []) ≡ true
dir_text-free asc = refl
dir_text-free desc = refl

dir_text-no_comma : (d : Dir) → is_free 44 (dir_text d) ≡ true
dir_text-no_comma asc = refl
dir_text-no_comma desc = refl

is_free-append :
    (sep : ℕ) (s t : List ℕ)
    → is_free sep s ≡ true
    → is_free sep t ≡ true
    → is_free sep (s ++ t) ≡ true
is_free-append sep [] t h k = k
is_free-append sep (c ∷ s) t h k = ground (arith, h, is_free-append sep s t (ground (arith, h)) k)

written-free :
    (parts : List OrderByPart)
    → all is_plain parts ≡ true
    → all (is_free 44) (map written parts) ≡ true
written-free [] h = refl
written-free (part ∷ parts) h = ground (
  arith,
  written-free parts (ground (arith, h)),
  is_free-append 44 part.field (58 ∷ dir_text part.dir) (ground (arith, h))
      (dir_text-no_comma part.dir),
)

split-written :
    (part : OrderByPart)
    → is_plain part ≡ true
    → split 58 (written part) ≡ part.field ∷ dir_text part.dir ∷ []
split-written part h =
    split-append 58 part.field (dir_text part.dir) (ground (arith, h))
    ∙ ap (λ rest. part.field ∷ rest)
        (split-free 58 (dir_text part.dir) (ground (arith, dir_text-free part.dir)))

module _ (order_dir : Option (List ℕ) → Option Dir)
    (known : (d : Dir) → order_dir (some (dir_text d)) ≡ some d) where
  parse_segment-written :
      (part : OrderByPart)
      → is_plain part ≡ true
      → parse_segment order_dir (written part) ≡ some part
  unfolding parse_segment
  parse_segment-written part h = rw (split-written part h) (rw (known part.dir) refl)

  parse_segments-written :
      (parts : List OrderByPart)
      → all is_plain parts ≡ true
      → parse_segments order_dir (map written parts) ≡ some parts
  unfolding parse_segments
  parse_segments-written [] h = refl
  parse_segments-written (part ∷ parts) h =
      rw (parse_segment-written part (ground (arith, h)))
        (rw (parse_segments-written parts (ground (arith, h))) refl)

  -- One or more sort keys that are written as "field:dir" with commas between them are read back, if
  -- their fields hold neither commas nor colons.
  pub parse_order_by-written :
      (part : OrderByPart) (parts : List OrderByPart)
      → all is_plain (part ∷ parts) ≡ true
      → parse_order_by order_dir (join_units 44 (map written (part ∷ parts))) ≡ some (part ∷ parts)
  unfolding parse_order_by
  parse_order_by-written part parts h =
      rw (split-join_units 44 (written part) (map written parts) (written-free (part ∷ parts) h))
        (parse_segments-written (part ∷ parts) h)
