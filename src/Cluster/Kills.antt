-- ===== src/Cluster/Kills.antt =====
-- The signals that the primary sends (cluster-primary.ts).
use nestjs_ddd_lean.Prelude.{ℕ, ◌≡◌, refl, ap, ◌∙◌, List, [], ◌∷◌, ◌++◌, map, append-nil}
use nestjs_ddd_lean.Cluster.{
  Effect, logged, forked, killed, process_exit, Config, Signal, sigkill, Primary, Worker,
  finish_shutdown, stragglers, timed_out, Outcome,
}

-- The signals that were sent, in order, and the workers that were forked.
unfoldable pub kills : List Effect → List (ℕ × Signal)
kills [] = []
kills (killed i signal ∷ fx) = (i, signal) ∷ kills fx
kills (logged line ∷ fx) = kills fx
kills (forked w ∷ fx) = kills fx
kills (process_exit code ∷ fx) = kills fx

unfoldable pub all_signalled : Signal → List Worker → List (ℕ × Signal)
all_signalled signal = map (λ w. (w.id, signal))

pub kills-append : (fx gx : List Effect) → kills (fx ++ gx) ≡ kills fx ++ kills gx
unfolding kills
kills-append [] gx = refl
kills-append (killed i signal ∷ fx) gx = ap (λ l. (i, signal) ∷ l) (kills-append fx gx)
kills-append (logged line ∷ fx) gx = kills-append fx gx
kills-append (forked w ∷ fx) gx = kills-append fx gx
kills-append (process_exit code ∷ fx) gx = kills-append fx gx

pub kills-map :
    (signal : Signal) (ws : List Worker)
    → kills (map (λ w. killed w.id signal) ws) ≡ all_signalled signal ws
unfolding kills all_signalled
kills-map signal [] = refl
kills-map signal (w ∷ ws) = ap (λ l. (w.id, signal) ∷ l) (kills-map signal ws)

pub kills-stragglers :
    (config : Config) (ws : List Worker)
    → kills (stragglers config timed_out ws) ≡ all_signalled sigkill ws
unfolding stragglers kills all_signalled
kills-stragglers config [] = refl
kills-stragglers config (w ∷ ws) = ap (λ l. (w.id, sigkill) ∷ l) (kills-map sigkill ws)

pub kills-finish :
    (config : Config) (outcome : Outcome) (signal : Signal) (s : Primary)
    → kills (finish_shutdown config outcome signal s).1 ≡ kills (stragglers config outcome s.live)
unfolding finish_shutdown
kills-finish config outcome signal s =
    kills-append (stragglers config outcome s.live) _ ∙ unfold kills in append-nil _
