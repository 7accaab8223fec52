-- ===== src/Prelude/Texts.antt =====
-- Texts: sets of texts, and dictionaries with texts as keys.
use Prim.Native.Char.{code}
use Prim.Native.Nat.{ℕ}
use Prim.Native.String.{String}
use text.Mathlib.Text
use text.Mathlib.TextEquality.{eq_iff}
use text.Mathlib.TextPositions.{eq_refl}
use mathlib.Core.Path.{◌≡◌, refl}
use mathlib.Core.Bool.{Bool, true, false, ◌&&◌, ◌||◌}
use mathlib.Core.Option.{Option, none, some}
use mathlib.Core.List.{List, [], ◌∷◌}
use native.Mathlib.Omega.{arith}
use nestjs_ddd_lean.Prelude.Tests.{if◌then◌else◌, ◌==◌}

-- The code units of a text.
abbrev pub char_codes : String → List ℕ
char_codes String.[] = []
char_codes (String.◌∷◌ first rest) = code first ∷ char_codes rest

-- `===` of texts as lists of code units.
abbrev pub same_text : List ℕ → List ℕ → Bool
same_text [] [] = true
same_text [] (d ∷ t) = false
same_text (c ∷ s) [] = false
same_text (c ∷ s) (d ∷ t) = c == d && same_text s t

infix 50 ◌===◌
abbrev pub ◌===◌ : String → String → Bool
s === t = Text.◌==◌ s t

-- `set.has(s)`, `list.includes(s)`
abbrev pub has : String → List String → Bool
has s [] = false
has s (t ∷ ts) = t === s || has s ts

-- A text that is not empty, as `if (s)` tests it.
abbrev pub truthy : Option String → Bool
truthy none = false
truthy (some String.[]) = false
truthy (some (String.◌∷◌ c s)) = true

module _ {ℓ} {V : Type ℓ} where
  -- `map.get(key)`
  abbrev pub lookup : String → List (String × V) → Option V
  lookup key [] = none
  lookup key (entry ∷ entries) = if entry.0 === key then some entry.1 else lookup key entries

  -- `map.set(key, value)`: an old key keeps its place, a new one comes last.
  abbrev pub insert : String → V → List (String × V) → List (String × V)
  insert key value [] = (key, value) ∷ []
  insert key value (entry ∷ entries) =
      if entry.0 === key then (key, value) ∷ entries else entry ∷ insert key value entries

  pub lookup-insert :
      (written read : String) (value : V) (entries : List (String × V))
      → lookup read (insert written value entries)
        ≡ (if written === read then some value else lookup read entries)
  lookup-insert written read value [] = refl
  lookup-insert written read value (entry ∷ entries) =
      let rest = lookup-insert written read value entries in
      ground (arith, rest, eq_iff entry.0 read, eq_iff entry.0 written, eq_iff written read)

  pub lookup-insert_same :
      (key : String) (value : V) (entries : List (String × V))
      → lookup key (insert key value entries) ≡ some value
  lookup-insert_same key value entries =
      ground (arith, lookup-insert key key value entries, eq_refl key)
