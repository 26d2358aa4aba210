-- ===== src/Scoring/Standings/Tests.antt =====
-- A small event, on the board.

use mathlib.Core.List.{Permᴰ}
use flagfish.Prelude.{ℕ, ◌≡◌, refl, none, List, [], ◌∷◌}
use flagfish.Prelude.Int.{ℤ, pos, negsuc, add64}
use flagfish.Scoring.Standings.{Event, Standing, aggregate, board}
use flagfish.Scoring.Standings.Determinism.{board-perm}
use flagfish.Scoring.Standings.Accounts.{find, own_entry, find-aggregate}

abbrev event : ℕ → ℤ → ℕ → Event
event a v t = record { account_id = a; value = v; at = t }

-- accounts 7 and 3 tie on score, and account 7 got there first; account 5 has zero points only
abbrev events : List Event
events =
    event 7 (pos 100) 10
    ∷ event 3 (pos 150) 20
    ∷ event 5 (pos 0) 1
    ∷ event 3 (negsuc 49) 25
    ∷ event 7 (pos 0) 40
    ∷ []

abbrev standing : ℕ → ℤ → ℕ → ℕ → Standing
standing a s t p = record {
  entry = record { account_id = a; score = s; last_event = t };
  place = p;
}

board_run : board events ≡ standing 7 (pos 100) 10 1 ∷ standing 3 (pos 100) 25 2 ∷ []
unfolding board add64
board_run = refl

board-perm_example :
    board (event 1 (pos 5) 3 ∷ event 2 (pos 9) 4 ∷ [])
    ≡ board (event 2 (pos 9) 4 ∷ event 1 (pos 5) 3 ∷ [])
board-perm_example =
    board-perm (event 1 (pos 5) 3 ∷ event 2 (pos 9) 4 ∷ [])
      (event 2 (pos 9) 4 ∷ event 1 (pos 5) 3 ∷ []) ∣ Permᴰ.swap refl refl ∣₁

find-aggregate_example : find 3 (aggregate events) ≡ own_entry 3 none events
find-aggregate_example = find-aggregate 3 events
