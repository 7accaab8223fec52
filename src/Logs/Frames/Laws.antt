-- ===== src/Logs/Frames/Laws.antt =====
-- What a frame that is logged begins with (error-origin.util.ts).
use nestjs_ddd_lean.Prelude.{
  ℕ, ◌≡◌, refl, sym, subst, ◌∙◌, Bool, true, not, ◌&&◌, Bool-cases, Option-cases, inl, inr, Option,
  none, some, some-injective, List, [], map, ◌∷◌, ◌++◌, any, all, ◌==◌, char_codes, arith, false,
  ap, All, or_else,
}
use nestjs_ddd_lean.Logs.Frames.{
  starts_with, includes, after_first, dot, split_lines, match_position, strip_column, described,
  ParsedFrame, parse_frame, own_path_markers, is_own_frame, relative_from, relative_to_project,
  own_text, own_line, first_own, frame_from_stack,
}

-- The directories of the project that a frame may name.
abbrev pub own_directories : List (List ℕ)
own_directories = char_codes "src/" ∷ char_codes "dist/" ∷ char_codes "test/" ∷ []

-- A text that begins in one of them.
abbrev pub InProject : List ℕ → Type 0
InProject s = any (λ d. starts_with d s) own_directories ≡ true

after_first-starts : (m s r : List ℕ) → after_first (47 ∷ m) s ≡ some r → starts_with m r ≡ true
after_first-starts m [] r e = absurd (ground arith)
after_first-starts m (c ∷ s) r e = elim (Bool-cases (starts_with (47 ∷ m) (c ∷ s))) [
  | inl here ↦
      subst (λ t. starts_with m t ≡ true) (some-injective s r (ground (arith, here, e)))
        (ground (arith, here))
  | inr not_here ↦ after_first-starts m s r (ground (arith, not_here, e))
]

starts_with-append : (m s t : List ℕ) → starts_with m s ≡ true → starts_with m (s ++ t) ≡ true
starts_with-append [] s t h = refl
starts_with-append (c ∷ m) [] t h = absurd (ground arith)
starts_with-append (c ∷ m) (d ∷ s) t h = ground (arith, starts_with-append m s t)

-- A character that no position begins at.
abbrev plain : ℕ → Bool
plain c = dot c && not (c == 58)

position_step : (c : ℕ) (s : List ℕ) → plain c ≡ true → strip_column (c ∷ s) ≡ c ∷ strip_column s
unfolding strip_column match_position
position_step c s h = elim (Option-cases (match_position s)) [
  | inl e ↦ ground (arith, e, h)
  | inr (m, e) ↦ ground (arith, e, h)
]

starts_with-strip :
    (m s : List ℕ)
    → all plain m ≡ true
    → starts_with m s ≡ true
    → starts_with m (strip_column s) ≡ true
starts_with-strip [] s p h = refl
starts_with-strip (c ∷ m) [] p h = absurd (ground arith)
starts_with-strip (c ∷ m) (d ∷ s) p h =
    subst (λ t. starts_with (c ∷ m) t ≡ true) (sym (position_step d s (ground arith)))
      (ground (arith, h, starts_with-strip m s (ground (arith, p)) (ground (arith, h))))

relative_from-starts :
    (dirs : List (List ℕ)) (l r : List ℕ)
    → relative_from (map (λ d. 47 ∷ d) dirs) l ≡ some r
    → any (λ d. starts_with d r) dirs ≡ true
relative_from-starts [] l r e = absurd (ground arith)
relative_from-starts (d ∷ dirs) l r e = elim (Option-cases (after_first (47 ∷ d) l)) [
  | inl none_here ↦ ground (arith, relative_from-starts dirs l r (ground (arith, none_here, e)))
  | inr (t, here) ↦ ground (arith, after_first-starts d l r (ground (arith, here, e)))
]

any-strip :
    (dirs : List (List ℕ)) (s : List ℕ)
    → all (all plain) dirs ≡ true
    → any (λ d. starts_with d s) dirs ≡ true
    → any (λ d. starts_with d (strip_column s)) dirs ≡ true
any-strip [] s p h = h
any-strip (d ∷ dirs) s p h = elim (Bool-cases (starts_with d s)) [
  | inl here ↦ ground (arith, starts_with-strip d s (ground (arith, p)) here)
  | inr not_here ↦
      ground (arith, any-strip dirs s (ground (arith, p)) (ground (arith, h, not_here)))
]

any-append :
    (dirs : List (List ℕ)) (s t : List ℕ)
    → any (λ d. starts_with d s) dirs ≡ true
    → any (λ d. starts_with d (s ++ t)) dirs ≡ true
any-append [] s t h = h
any-append (d ∷ dirs) s t h = elim (Bool-cases (starts_with d s)) [
  | inl here ↦ ground (arith, starts_with-append d s t here)
  | inr not_here ↦ ground (arith, any-append dirs s t (ground (arith, h, not_here)))
]

described-InProject : (fn : Option (List ℕ)) (s : List ℕ) → InProject s → InProject (described fn s)
described-InProject none s h = h
described-InProject (some fn) s h = any-append own_directories s (32 ∷ 40 ∷ (fn ++ 41 ∷ [])) h

relative-InProject : (l r : List ℕ) → relative_to_project l ≡ some r → InProject r
unfolding relative_to_project own_path_markers
relative-InProject l r e = relative_from-starts own_directories l r e

after_first-split :
    (m s r : List ℕ) → after_first (47 ∷ m) s ≡ some r → (before : List ℕ) × (s ≡ before ++ 47 ∷ r)
after_first-split m [] r e = absurd (ground arith)
after_first-split m (c ∷ s) r e = elim (Bool-cases (starts_with (47 ∷ m) (c ∷ s))) [
  | inl here ↦
      let rest : s ≡ r = some-injective s r (ground (arith, here, e)) in
      let slash : c ≡ 47 = ground (arith, here) in ([], cc (rest, slash))
  | inr not_here ↦
      let (before, same) = after_first-split m s r (ground (arith, not_here, e)) in
      (c ∷ before, ap (λ t. c ∷ t) same)
]

relative_from-split :
    (dirs : List (List ℕ)) (l r : List ℕ)
    → relative_from (map (λ d. 47 ∷ d) dirs) l ≡ some r
    → (before : List ℕ) × (l ≡ before ++ 47 ∷ r)
relative_from-split [] l r e = absurd (ground arith)
relative_from-split (d ∷ dirs) l r e = elim (Option-cases (after_first (47 ∷ d) l)) [
  | inl none_here ↦ relative_from-split dirs l r (ground (arith, none_here, e))
  | inr (t, here) ↦
      let same : t ≡ r = some-injective t r (ground (arith, here, e)) in
      after_first-split d l r (here ∙ ap some same)
]

-- What is logged of a frame: of a location outside the dependencies and node's own code, what follows
-- one of its slashes and begins there with a directory's name, and the function.
abbrev pub ShownOf : ParsedFrame → List ℕ → Type 0
ShownOf frame f =
    (before s : List ℕ) × (frame.location ≡ before ++ 47 ∷ s)
    × InProject s
    × (starts_with (char_codes "node:") frame.location ≡ false)
    × (includes (char_codes "node_modules") frame.location ≡ false)
    × (f ≡ described frame.fn (strip_column s))

both_false : (a b c : Bool) → (not a && not b && c) ≡ true → (a ≡ false) × (b ≡ false)
both_false true b c h = absurd (ground (arith, h))
both_false false true c h = absurd (ground (arith, h))
both_false false false c h = (refl, refl)

own-place :
    (l : List ℕ)
    → is_own_frame l ≡ true
    → (starts_with (char_codes "node:") l ≡ false)
      × (includes (char_codes "node_modules") l ≡ false)
unfolding is_own_frame
own-place l h =
    both_false (starts_with (char_codes "node:") l) (includes (char_codes "node_modules") l)
      (any (λ marker. includes marker l) own_path_markers) h

own_text_of :
    (frame : ParsedFrame) (r : Option (List ℕ)) (f : List ℕ)
    → is_own_frame frame.location ≡ true
    → (relative_to_project frame.location ≡ r)
    → (elim r [
      | none ↦ none
      | some [] ↦ none
      | some (c ∷ s) ↦ some (described frame.fn (strip_column (c ∷ s)))
    ])
      ≡ some f
    → ShownOf frame f
unfolding relative_to_project own_path_markers
own_text_of frame none f own e h = absurd (ground arith)
own_text_of frame (some []) f own e h = absurd (ground arith)
own_text_of frame (some (c ∷ s)) f own e h =
    let (before, same) = relative_from-split own_directories frame.location (c ∷ s) e in
    (
      before,
      c ∷ s,
      same,
      relative-InProject frame.location (c ∷ s) e,
      (own-place frame.location own).0,
      (own-place frame.location own).1,
      sym (some-injective _ f h),
    )

own_text-ShownOf : (frame : ParsedFrame) (f : List ℕ) → own_text frame ≡ some f → ShownOf frame f
own_text-ShownOf frame f e = elim (Bool-cases (is_own_frame frame.location)) [
  | inl own ↦
      own_text_of frame (relative_to_project frame.location) f own refl (ground (arith, own, e))
  | inr not_own ↦ absurd (ground (arith, not_own, e))
]

-- A frame is that of a line, and none of the lines before it has one.
abbrev pub FirstShown : List (List ℕ) → List ℕ → Type 0
FirstShown lines f =
    (above : List (List ℕ)) × (line : List ℕ) × (below : List (List ℕ)) × (frame : ParsedFrame)
    × (lines ≡ above ++ line ∷ below)
    × All (λ l. own_line l ≡ none) above
    × (parse_frame line ≡ some frame)
    × ShownOf frame f

own_line-ShownOf :
    (line f : List ℕ)
    → own_line line ≡ some f
    → (frame : ParsedFrame) × (parse_frame line ≡ some frame) × ShownOf frame f
own_line-ShownOf line f e = elim (Option-cases (parse_frame line)) [
  | inl nothing ↦ absurd (ground (arith, nothing, e))
  | inr (frame, parsed) ↦ (frame, parsed, own_text-ShownOf frame f (ground (arith, parsed, e)))
]

first_own-FirstShown :
    (lines : List (List ℕ)) (f : List ℕ) → first_own lines ≡ some f → FirstShown lines f
first_own-FirstShown [] f e = absurd (ground arith)
first_own-FirstShown (line ∷ lines) f e = elim (Option-cases (own_line line)) [
  | inl not_own ↦
      let (above, own, below, frame, same, skipped, parsed, shown) =
        first_own-FirstShown lines f (ground (arith, not_own, e)) in
      (
        line ∷ above,
        own,
        below,
        frame,
        ap (λ ls. line ∷ ls) same,
        (not_own, skipped),
        parsed,
        shown,
      )
  | inr (g, own) ↦
      let (frame, parsed, shown) = own_line-ShownOf line f (ground (arith, own, e)) in
      ([], line, lines, frame, refl, tt, parsed, shown)
]

shown-InProject : (frame : ParsedFrame) (f : List ℕ) → ShownOf frame f → InProject f
shown-InProject frame f (before, s, same, begins, inside, own, e) =
    subst InProject (sym e)
      (described-InProject frame.fn (strip_column s) (any-strip own_directories s refl begins))

-- The frame that a stack trace is logged with is that of its first line that has one. Of the line's
-- location, which is none of node's own and none of a dependency's, it shows only what follows a slash
-- and begins there with `src/`, `dist/` or `test/`, as `strip_column` leaves it, and the function where
-- it is known; so it begins with one of these names itself. That is a directory of the project where no
-- directory above it has such a name.
pub frame_from_stack-InProject :
    (stack : Option (List ℕ)) (frame : List ℕ)
    → frame_from_stack stack ≡ some frame
    → InProject frame × FirstShown (split_lines (or_else stack [])) frame
unfolding frame_from_stack
frame_from_stack-InProject none frame e = absurd (ground arith)
frame_from_stack-InProject (some []) frame e = absurd (ground arith)
frame_from_stack-InProject (some (c ∷ s)) frame e =
    let first = first_own-FirstShown (split_lines (c ∷ s)) frame e in
    let (above, line, below, parsed, same, skipped, is_parsed, shown) = first in
    (shown-InProject parsed frame shown, first)
