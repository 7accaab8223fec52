-- ===== src/Database/Text.antt =====
-- The context user's name (oracle.client.ts): a text is its list of code points, since the name is cut
-- to a number of bytes of UTF-8.
use nestjs_ddd_lean.Prelude.{
  ℕ, ◌+◌, ◌≤◌, ◌<◌, ◌≡◌, refl, sym, Bool, ◌&&◌, ◌||◌, List, [], ◌∷◌, ◌++◌, append-nil, append_assoc,
  ◌⊎◌, inl, inr, if◌then◌else◌, if_ind, ltb, leb, is_empty, arith, subst, leb→le,
}

-- How many bytes UTF-8 takes for a code point; a lone surrogate is written as U+FFFD, which takes 3.
unfoldable pub utf8_size : ℕ → ℕ
utf8_size c = if ltb c 128 then 1 else if ltb c 2048 then 2 else if ltb c 65536 then 3 else 4

-- `Buffer.byteLength(value, 'utf8')`
unfoldable pub byte_length : List ℕ → ℕ
byte_length [] = 0
byte_length (c ∷ cs) = utf8_size c + byte_length cs

abbrev keep_chars : (result rest : List ℕ) → ℕ → List ℕ
keep_chars result [] max_bytes = result
keep_chars result (c ∷ rest) max_bytes =
    if leb (byte_length (result ++ c ∷ [])) max_bytes
    then keep_chars (result ++ c ∷ []) rest max_bytes
    else result

-- `truncateBytes`
unfoldable pub truncate_bytes : List ℕ → ℕ → List ℕ
truncate_bytes value max_bytes =
    if leb (byte_length value) max_bytes then value else keep_chars [] value max_bytes

-- The white space of ECMAScript.
unfoldable pub is_space : ℕ → Bool
is_space c =
    (leb 9 c && leb c 13)
    || (leb c 32 && leb 32 c)
    || (leb 160 c && leb c 160)
    || (leb 5760 c && leb c 5760)
    || (leb 8192 c && leb c 8202)
    || (leb 8232 c && leb c 8233)
    || (leb 8239 c && leb c 8239)
    || (leb 8287 c && leb c 8287)
    || (leb 12288 c && leb c 12288)
    || (leb 65279 c && leb c 65279)

abbrev pub trim_start : List ℕ → List ℕ
trim_start [] = []
trim_start (c ∷ cs) = if is_space c then trim_start cs else c ∷ cs

abbrev pub trim_end : List ℕ → List ℕ
trim_end [] = []
trim_end (c ∷ cs) = let rest = trim_end cs in if is_empty rest && is_space c then [] else c ∷ rest

-- `value.trim()`
unfoldable pub trim : List ℕ → List ℕ
trim cs = trim_end (trim_start cs)

-- What a cut text is: what was left out begins with a character that would have been too long.
abbrev Cut : List ℕ → ℕ → List ℕ → Type 0
Cut value max_bytes kept =
    (byte_length kept ≤ max_bytes)
    × ((left : List ℕ) × (value ≡ kept ++ left)
        × ((left ≡ [])
            ⊎ ((c : ℕ) × (more : List ℕ) × (left ≡ c ∷ more)
                × (max_bytes < byte_length (kept ++ c ∷ [])))))

keep_chars-Cut :
    (result rest : List ℕ) (max_bytes : ℕ)
    → byte_length result ≤ max_bytes
    → Cut (result ++ rest) max_bytes (keep_chars result rest max_bytes)
keep_chars-Cut result [] max_bytes h = (h, ([], refl, inl refl))
keep_chars-Cut result (c ∷ rest) max_bytes h =
    if_ind (Cut (result ++ c ∷ rest) max_bytes) (leb (byte_length (result ++ c ∷ [])) max_bytes)
      (λ fits.
        subst (λ v. Cut v max_bytes (keep_chars (result ++ c ∷ []) rest max_bytes))
          (append_assoc result (c ∷ []) rest)
          (keep_chars-Cut (result ++ c ∷ []) rest max_bytes (leb→le _ _ fits)))
      (λ over. (h, (c ∷ rest, refl, inr (c, rest, refl, ground arith))))

-- For every name and limit: the name is cut at the end of a character, to the longest such beginning
-- that takes no more than the given number of bytes, and is whole where it takes no more.
pub truncate_bytes_longest :
    (value : List ℕ) (max_bytes : ℕ)
    → let kept = truncate_bytes value max_bytes in
      (byte_length kept ≤ max_bytes)
      × ((left : List ℕ) × (value ≡ kept ++ left)
          × ((left ≡ [])
              ⊎ ((c : ℕ) × (more : List ℕ) × (left ≡ c ∷ more)
                  × (max_bytes < byte_length (kept ++ c ∷ [])))))
unfolding truncate_bytes byte_length
truncate_bytes_longest value max_bytes =
    if_ind (Cut value max_bytes) (leb (byte_length value) max_bytes)
      (λ fits. (ground arith, ([], sym (append-nil value), inl refl)))
      (λ over. keep_chars-Cut [] value max_bytes (omega arith))
