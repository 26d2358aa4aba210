-- ===== src/Feed.antt =====
-- The fan-out of internal/notify/broadcaster.go and internal/solvefeed/broadcaster.go: one pump sends
-- every message to the channels of all subscribers and never waits for one. A Go channel is its
-- unread messages, what its reader has taken, and whether it is closed; a send to or a close of a
-- closed channel panics, which is `none`. The map of subscribers is the flag `registered`.
pub mod Safety
pub mod Delivery
pub mod Pump
pub mod Order
pub mod Replay
pub mod Watermark
pub mod Solves
pub mod Tests
use flagfish.Prelude.{
  ℕ, suc, Bool, true, false, not, ◌&&◌, Option, none, some, List, [], ◌∷◌, ◌++◌, ltb, length, ◌==◌,
  if◌then◌else◌, ◌>>=◌,
}

pub record Channel {ℓ} (A : Type ℓ) : Type ℓ where
  pub id : ℕ
  pub taken : List A
  pub buffer : List A
  pub closed : Bool
  pub registered : Bool

-- `Broadcaster`; `next` numbers the subscribers
pub record Bus {ℓ} (A : Type ℓ) : Type ℓ where
  pub channels : List (Channel A)
  pub stopped : Bool
  pub next : ℕ

module _ {ℓ} {A : Type ℓ} where
  -- `close(sub.ch)` and `delete(b.subs, sub)`
  unfoldable pub drop : Channel A → Option (Channel A)
  drop c = if c.closed then none else some (record c { closed = true; registered = false })

  -- `sub.ch <- n` in a `select`: `cap` is the size of the buffer
  unfoldable pub offer : ℕ → A → Channel A → Option (Channel A)
  unfolding drop
  offer cap n c =
      if ltb (length c.buffer) cap
      then if c.closed then none else some (record c { buffer = c.buffer ++ n ∷ [] })
      else drop c

  -- the loop over the subscribers, under the lock
  unfoldable pub each :
      (Channel A → Option (Channel A)) → List (Channel A) → Option (List (Channel A))
  each f [] = some []
  each f (c ∷ cs) =
      (if c.registered then f c else some c) >>= λ d. each f cs >>= λ ds. some (d ∷ ds)

  abbrev pub with_channels : Bus A → List (Channel A) → Bus A
  with_channels b cs = record b { channels = cs }

  -- `broadcast`
  unfoldable pub broadcast : ℕ → A → Bus A → Option (Bus A)
  unfolding each offer
  broadcast cap n b = each (offer cap n) b.channels >>= λ cs. some (with_channels b cs)

  -- `closeAll`
  unfoldable pub close_all : Bus A → Option (Bus A)
  unfolding each drop
  close_all b = each drop b.channels >>= λ cs. some (record b { channels = cs; stopped = true })

  abbrev pub new_channel : Bus A → Channel A
  new_channel b = record {
    id = b.next;
    taken = [];
    buffer = [];
    closed = b.stopped;
    registered = not b.stopped;
  }

  -- `Subscribe`
  unfoldable pub subscribe : Bus A → Bus A
  subscribe b = record b { channels = new_channel b ∷ b.channels; next = suc b.next }

  unfoldable pub remove_from : ℕ → List (Channel A) → Option (List (Channel A))
  unfolding drop
  remove_from id [] = some []
  remove_from id (c ∷ cs) = (if c.id == id && c.registered then drop c else some c) >>= λ d.
      remove_from id cs >>= λ ds. some (d ∷ ds)

  -- `remove`
  unfoldable pub remove : ℕ → Bus A → Option (Bus A)
  unfolding remove_from
  remove id b = remove_from id b.channels >>= λ cs. some (with_channels b cs)

  unfoldable pub take_one : Channel A → Channel A
  take_one c = elim c.buffer [
    | [] ↦ c
    | n ∷ rest ↦ record c { taken = c.taken ++ n ∷ []; buffer = rest }
  ]

  unfoldable pub receive_from : ℕ → List (Channel A) → List (Channel A)
  unfolding take_one
  receive_from id [] = []
  receive_from id (c ∷ cs) = (if c.id == id then take_one c else c) ∷ receive_from id cs

  -- the reader of a channel takes a message
  unfoldable pub receive : ℕ → Bus A → Bus A
  unfolding receive_from
  receive id b = with_channels b (receive_from id b.channels)

-- what happens to a broadcaster, in the order in which its mutex lets it
pub data Event {ℓ} (A : Type ℓ) : Type ℓ where
  subscribes : Event A
  removes : ℕ → Event A
  sends : A → Event A
  receives : ℕ → Event A
  closes : Event A

module _ {ℓ} {A : Type ℓ} (cap : ℕ) where
  unfoldable pub step : Event A → Bus A → Option (Bus A)
  unfolding broadcast close_all subscribe remove receive
  step subscribes b = some (subscribe b)
  step (removes id) b = remove id b
  step (sends n) b = broadcast cap n b
  step (receives id) b = some (receive id b)
  step closes b = close_all b

  unfoldable pub run : List (Event A) → Bus A → Option (Bus A)
  unfolding step
  run [] b = some b
  run (e ∷ es) b = step e b >>= λ c. run es c

-- `NewBroadcaster`
abbrev pub new_bus {ℓ} : {A : Type ℓ} → Bus A
new_bus = record { channels = []; stopped = false; next = 0 }
