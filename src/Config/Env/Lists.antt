-- ===== src/Config/Env/Lists.antt =====
-- Lists in the environment (env.util.ts): what is written with commas is read back.
use nestjs_ddd_lean.Prelude.{
  ℕ, ◌≡◌, refl, ap, ◌∙◌, Bool, true, false, not, ◌&&◌, ◌==◌, some, List, [], ◌∷◌, ◌++◌, all, arith,
}
use nestjs_ddd_lean.Database.Text.{is_space, trim, trim_end}
use nestjs_ddd_lean.Config.Env.{env_string, split, trimmed_items, env_list}

-- `items.join(separator)`
abbrev pub join_units : ℕ → List (List ℕ) → List ℕ
join_units separator [] = []
join_units separator (s ∷ []) = s
join_units separator (s ∷ t ∷ rest) = s ++ separator ∷ join_units separator (t ∷ rest)

abbrev last_unit : ℕ → List ℕ → ℕ
last_unit c [] = c
last_unit c (d ∷ s) = last_unit d s

-- A text that is not empty and neither begins nor ends with white space.
abbrev pub is_trimmed : List ℕ → Bool
is_trimmed [] = false
is_trimmed (c ∷ s) = not (is_space c) && not (is_space (last_unit c s))

-- A text without the separator.
abbrev pub is_free : ℕ → List ℕ → Bool
is_free separator s = all (λ c. not (c == separator)) s

trim_end_id : (c : ℕ) (s : List ℕ) → is_space (last_unit c s) ≡ false → trim_end (c ∷ s) ≡ c ∷ s
trim_end_id c [] h = ground (arith, h)
trim_end_id c (d ∷ s) h = ground (arith, trim_end_id d s h)

trim_id : (s : List ℕ) → is_trimmed s ≡ true → trim s ≡ s
unfolding trim
trim_id [] h = absurd (ground arith)
trim_id (c ∷ s) h = ground (arith, h, trim_end_id c s (ground (arith, h)))

pub split-free : (sep : ℕ) (s : List ℕ) → is_free sep s ≡ true → split sep s ≡ s ∷ []
unfolding split
split-free sep [] h = refl
split-free sep (c ∷ s) h = ground (arith, h, split-free sep s (ground (arith, h)))

pub split-append :
    (sep : ℕ) (s t : List ℕ) → is_free sep s ≡ true → split sep (s ++ sep ∷ t) ≡ s ∷ split sep t
unfolding split
split-append sep [] t h = ground arith
split-append sep (c ∷ s) t h = ground (arith, h, split-append sep s t (ground (arith, h)))

-- What is joined with a separator that is in none of the texts is split into them again.
pub split-join_units :
    (sep : ℕ) (s : List ℕ) (items : List (List ℕ))
    → all (is_free sep) (s ∷ items) ≡ true
    → split sep (join_units sep (s ∷ items)) ≡ s ∷ items
split-join_units sep s [] h = split-free sep s (ground (arith, h))
split-join_units sep s (t ∷ items) h =
    split-append sep s (join_units sep (t ∷ items)) (ground (arith, h))
    ∙ ap (λ rest. s ∷ rest) (split-join_units sep t items (ground (arith, h)))

last_unit-append : (c d : ℕ) (s t : List ℕ) → last_unit c (s ++ d ∷ t) ≡ last_unit d t
last_unit-append c d [] t = refl
last_unit-append c d (e ∷ s) t = last_unit-append e d s t

is_trimmed-append :
    (sep : ℕ) (s t : List ℕ)
    → is_trimmed s ≡ true
    → is_trimmed t ≡ true
    → is_trimmed (s ++ sep ∷ t) ≡ true
is_trimmed-append sep [] t h k = absurd (ground arith)
is_trimmed-append sep (c ∷ s) [] h k = absurd (ground arith)
is_trimmed-append sep (c ∷ s) (d ∷ t) h k =
    rw (last_unit-append c sep s (d ∷ t)) (ground (arith, h, k))

is_trimmed-join_units :
    (sep : ℕ) (s : List ℕ) (items : List (List ℕ))
    → all is_trimmed (s ∷ items) ≡ true
    → is_trimmed (join_units sep (s ∷ items)) ≡ true
is_trimmed-join_units sep s [] h = ground (arith, h)
is_trimmed-join_units sep s (t ∷ items) h =
    is_trimmed-append sep s _ (ground (arith, h))
      (is_trimmed-join_units sep t items (ground (arith, h)))

trimmed_items-id :
    (items : List (List ℕ)) → all is_trimmed items ≡ true → trimmed_items items ≡ items
unfolding trimmed_items
trimmed_items-id [] h = refl
trimmed_items-id ([] ∷ items) h = absurd (ground arith)
trimmed_items-id ((c ∷ s) ∷ items) h =
    rw (trim_id (c ∷ s) (ground (arith, h)))
      (ap (λ rest. (c ∷ s) ∷ rest) (trimmed_items-id items (ground (arith, h))))

env_string_id : (s : List ℕ) → is_trimmed s ≡ true → env_string (some s) ≡ some s
unfolding env_string
env_string_id [] h = absurd (ground arith)
env_string_id (c ∷ s) h = rw (trim_id (c ∷ s) h) refl

-- A list that is written into a variable with commas between its entries is read back as it was: for
-- one or more entries without commas, none of which is empty or has white space around it.
pub env_list_round_trip :
    (item : List ℕ) (items : List (List ℕ))
    → all is_trimmed (item ∷ items) ≡ true
    → all (is_free 44) (item ∷ items) ≡ true
    → env_list (some (join_units 44 (item ∷ items))) ≡ some (item ∷ items)
unfolding env_list
env_list_round_trip item items trimmed free =
    rw (env_string_id (join_units 44 (item ∷ items)) (is_trimmed-join_units 44 item items trimmed))
      (rw (split-join_units 44 item items free) (ap some (trimmed_items-id (item ∷ items) trimmed)))
