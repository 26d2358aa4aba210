-- ===== src/Feed/Solves.antt =====
-- internal/solvefeed/broadcaster.go: the same fan-out for the solves, with a larger buffer, no replay
-- and no watermark. `decode` stands for the JSON decoder of the standard library.
use flagfish.Prelude.{ℕ, Option, none, some}
use flagfish.Flags.Space.{Bytes}
use flagfish.Feed.{Bus, broadcast}
use flagfish.Gameplay.Store.{Pulse}

-- `subscriberBuffer`
abbrev pub solve_buffer : ℕ
solve_buffer = 64

-- `deliver`: a payload that cannot be read is logged and skipped
unfoldable pub deliver_solve : (Bytes → Option Pulse) → Bytes → Bus Pulse → Option (Bus Pulse)
unfolding broadcast
deliver_solve decode payload b = elim (decode payload) [
  | none ↦ some b
  | some e ↦ broadcast solve_buffer e b
]
