-- ===== src/Scoring/Standings/Determinism.antt =====
-- The board is a function of the set of events: their order does not matter.
use mathlib.Core.Logic.{∥∥₁_elim}
use mathlib.Core.List.{Perm, Permᴰ}
use flagfish.Prelude.{◌≡◌, ap, List}
use flagfish.Scoring.Standings.{Event, Standing, aggregate, rank, places, board}
use flagfish.Scoring.Standings.Order.{IsDistinct, IsOrdered, rank-perm, rank-permᴰ, rank-IsOrdered}
use flagfish.Scoring.Standings.Aggregate.{aggregate-IsDistinct, aggregate-perm}

Standings-set : IsSet (List Standing)
Standings-set = hlevel

board-permᴰ : {e₁ e₂ : List Event} → Permᴰ e₁ e₂ → board e₁ ≡ board e₂
unfolding board
board-permᴰ {e₁} p = ap (places 1) (rank-perm (aggregate-perm p) (aggregate-IsDistinct e₁))

-- Any interleaving of the same events gives the same board: accounts, scores, dates and places.
pub board-perm : (e₁ e₂ : List Event) → Perm e₁ e₂ → board e₁ ≡ board e₂
board-perm e₁ e₂ p = ∥∥₁_elim p (Standings-set (board e₁) (board e₂)) board-permᴰ

-- What is ranked is exactly what was aggregated, one entry for each account, and on the board every
-- entry is strictly before all that follow it in the order of `Less`.
rank-aggregate :
    (events : List Event)
    → Permᴰ (rank (aggregate events)) (aggregate events)
      × IsDistinct (aggregate events)
      × IsOrdered (rank (aggregate events))
rank-aggregate events =
    let distinct = aggregate-IsDistinct events in
    (rank-permᴰ (aggregate events), distinct, rank-IsOrdered (aggregate events) distinct)
