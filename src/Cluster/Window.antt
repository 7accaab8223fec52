-- ===== src/Cluster/Window.antt =====
-- The times of the respawns and the queue of those in the window (cluster-primary.ts, `onExit`).
use nestjs_ddd_lean.Prelude.{
  ℕ, ◌+◌, ◌≤◌, ◌<◌, ◌≡◌, refl, sym, ap, ◌∙◌, some, List, [], ◌∷◌, ◌++◌, append_assoc, dec_lt, arith,
  if◌then◌else◌, ltb, length, get_elem?, length-append, get_elem?-append_left, get_elem?-append_end,
  get_elem?-lt_length, All, All-append, All-mono, All-get_elem?, some-injective,
}
use nestjs_ddd_lean.Cluster.{shift_expired, respawn_window_ms}

-- Among the respawn times, oldest first, the one `most` places on is more than a window later.
abbrev pub Spaced : ℕ → List ℕ → Type 0
Spaced most times =
    (i x y : ℕ)
    → get_elem? times i ≡ some x
    → get_elem? times (i + most) ≡ some y
    → x + respawn_window_ms < y

-- `times` are all respawns so far, of which the queue holds the last ones: those before it had
-- left the window when the clock was last read.
pub record Capped (most : ℕ) (times : List ℕ) (clock : ℕ) (queue : List ℕ) : Type 0 where
  pub older : List ℕ
  pub split : times ≡ older ++ queue
  pub expired : All (λ t. t + respawn_window_ms < clock) older
  pub capped : length queue ≤ most
  pub spaced : Spaced most times

dropped : ℕ → List ℕ → List ℕ
dropped now [] = []
dropped now (t ∷ ts) = if ltb (t + respawn_window_ms) now then t ∷ dropped now ts else []

dropped-append : (now : ℕ) (ts : List ℕ) → ts ≡ dropped now ts ++ shift_expired now ts
unfolding dropped shift_expired
dropped-append now [] = refl
dropped-append now (t ∷ ts) = ground (arith, dropped-append now ts)

dropped_expired : (now : ℕ) (ts : List ℕ) → All (λ t. t + respawn_window_ms < now) (dropped now ts)
unfolding dropped
dropped_expired now [] = tt
dropped_expired now (t ∷ ts) = ground (arith, dropped_expired now ts)

module _ (most : ℕ) (times : List ℕ) (clock : ℕ) (queue : List ℕ)
    (c : Capped most times clock queue) where
  pub later_clock : (clock' : ℕ) → clock ≤ clock' → Capped most times clock' queue
  later_clock clock' h = record {
    older = c.older;
    split = c.split;
    expired =
        All-mono (λ t. t + respawn_window_ms < clock) (λ t. t + respawn_window_ms < clock') c.older
          (λ t lt. omega arith) c.expired;
    capped = c.capped;
    spaced = c.spaced;
  }

  pub shift-Capped : (now : ℕ) → clock ≤ now → Capped most times now (shift_expired now queue)
  unfolding later_clock
  shift-Capped now h = record {
    older = c.older ++ dropped now queue;
    split =
        c.split
        ∙ (ap (λ q. c.older ++ q) (dropped-append now queue)
            ∙ sym (append_assoc c.older (dropped now queue) (shift_expired now queue)));
    expired =
        All-append (λ t. t + respawn_window_ms < now) c.older (dropped now queue)
          (later_clock now h).expired (dropped_expired now queue);
    capped = omega (
      arith,
      c.capped,
      ap length (dropped-append now queue),
      length-append (dropped now queue) (shift_expired now queue),
    );
    spaced = c.spaced;
  }

  push-Spaced :
      (later : ℕ) → clock ≤ later → length queue < most → Spaced most (times ++ later ∷ [])
  unfolding later_clock
  push-Spaced later h room i x y ex ey =
      let within = get_elem?-lt_length (times ++ later ∷ []) (i + most) ey in
      let total = length-append times (later ∷ []) in
      let parts : length times ≡ length c.older + length queue =
        ap length c.split ∙ length-append c.older queue in
      elim (dec_lt (i + most) (length times)) [
        | yes before ↦
            c.spaced i x y (sym (get_elem?-append_left times (later ∷ []) i (omega arith)) ∙ ex)
              (sym (get_elem?-append_left times (later ∷ []) (i + most) before) ∙ ey)
        | no last ↦
            let at_end : length times ≡ i + most = omega (arith, within, total) in
            let in_older : i < length c.older = omega (arith, at_end, parts) in
            let y_is =
              some-injective later y
                (sym (get_elem?-append_end times later (i + most) at_end) ∙ ey) in
            let x_at : get_elem? c.older i ≡ some x =
              sym (get_elem?-append_left c.older queue i in_older)
              ∙ (ap (λ l. get_elem? l i) (sym c.split)
                  ∙ (sym (get_elem?-append_left times (later ∷ []) i (omega (arith, at_end, parts)))
                      ∙ ex)) in
            let old = All-get_elem? (λ t. t + respawn_window_ms < clock) c.older i c.expired x_at in
            omega (arith, old, y_is)
      ]

  pub push-Capped :
      (later : ℕ)
      → clock ≤ later
      → length queue < most
      → Capped most (times ++ later ∷ []) later (queue ++ later ∷ [])
  unfolding later_clock
  push-Capped later h room = record {
    older = c.older;
    split = ap (λ l. l ++ later ∷ []) c.split ∙ append_assoc c.older queue (later ∷ []);
    expired = (later_clock later h).expired;
    capped = omega (arith, length-append queue (later ∷ []));
    spaced = push-Spaced later h room;
  }
