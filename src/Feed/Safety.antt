-- ===== src/Feed/Safety.antt =====
-- No broadcaster panics: a channel is closed once and nothing is sent to it afterwards, and no buffer
-- outgrows its size.
use flagfish.Prelude.{
  ℕ, ◌≤◌, ◌≡◌, refl, true, not, Option, none, some, List, [], ◌∷◌, All, arith, length,
  length-append, ◌>>=◌,
}
use flagfish.Feed.{
  Channel, Bus, drop, offer, each, broadcast, close_all, subscribe, remove_from, remove, take_one,
  receive_from, receive, Event, subscribes, removes, sends, receives, closes, step, run, new_bus,
}

module _ {ℓ} {A : Type ℓ} (cap : ℕ) where
  -- the subscribers in the map are those whose channels are open, and no buffer is over its size
  abbrev pub Sound : Channel A → Type 0
  Sound c = (c.registered ≡ not c.closed) × (length c.buffer ≤ cap)

  -- a step that does not panic, to channels that are sound
  abbrev pub Safe : Option (List (Channel A)) → Type 0
  Safe none = ⊥
  Safe (some cs) = All Sound cs

  abbrev SafeOne : Option (Channel A) → Type 0
  SafeOne none = ⊥
  SafeOne (some c) = Sound c

  offer-Safe : (n : A) (c : Channel A) → Sound c → c.registered ≡ true → SafeOne (offer cap n c)
  unfolding offer drop
  offer-Safe n c s here = ground (arith, s.0, s.1, here, length-append c.buffer (n ∷ []))

  drop-Safe : (c : Channel A) → Sound c → c.registered ≡ true → SafeOne (drop c)
  unfolding drop
  drop-Safe c s here = ground (arith, s.0, s.1, here)

  each-Safe :
      (f : Channel A → Option (Channel A)) (cs : List (Channel A))
      → ((c : Channel A) → Sound c → c.registered ≡ true → SafeOne (f c))
      → All Sound cs
      → Safe (each f cs)
  unfolding each
  each-Safe f [] keeps sound = tt
  each-Safe f (c ∷ cs) keeps sound =
      ground (arith, sound.0, keeps c sound.0, each-Safe f cs keeps sound.1)

  remove_from-Safe : (id : ℕ) (cs : List (Channel A)) → All Sound cs → Safe (remove_from id cs)
  unfolding remove_from
  remove_from-Safe id [] sound = tt
  remove_from-Safe id (c ∷ cs) sound =
      ground (arith, sound.0, drop-Safe c sound.0, remove_from-Safe id cs sound.1)

  take_one-Sound : (c : Channel A) → Sound c → Sound (take_one c)
  unfolding take_one
  take_one-Sound c s = ground (arith, s.0, s.1)

  receive_from-Sound :
      (id : ℕ) (cs : List (Channel A)) → All Sound cs → All Sound (receive_from id cs)
  unfolding receive_from
  receive_from-Sound id [] sound = tt
  receive_from-Sound id (c ∷ cs) sound =
      ground (arith, sound.0, take_one-Sound c sound.0, receive_from-Sound id cs sound.1)

  abbrev pub SafeBus : Option (Bus A) → Type 0
  SafeBus none = ⊥
  SafeBus (some b) = All Sound b.channels

  pub step-SafeBus : (e : Event A) (b : Bus A) → All Sound b.channels → SafeBus (step cap e b)
  unfolding step broadcast close_all subscribe remove receive
  step-SafeBus subscribes b sound = ground (arith, sound)
  step-SafeBus (removes id) b sound = ground (arith, remove_from-Safe id b.channels sound)
  step-SafeBus (sends n) b sound =
      ground (arith, each-Safe (offer cap n) b.channels (λ c s here. offer-Safe n c s here) sound)
  step-SafeBus (receives id) b sound = receive_from-Sound id b.channels sound
  step-SafeBus closes b sound =
      ground (arith, each-Safe drop b.channels (λ c s here. drop-Safe c s here) sound)

  after-SafeBus :
      (x : Option (Bus A)) (f : Bus A → Option (Bus A))
      → ((c : Bus A) → All Sound c.channels → SafeBus (f c))
      → SafeBus x
      → SafeBus (x >>= f)
  after-SafeBus none f keeps s = s
  after-SafeBus (some c) f keeps s = keeps c s

  pub run-SafeBus :
      (es : List (Event A)) (b : Bus A) → All Sound b.channels → SafeBus (run cap es b)
  unfolding run
  run-SafeBus [] b sound = sound
  run-SafeBus (e ∷ es) b sound =
      after-SafeBus (step cap e b) (λ c. run cap es c) (λ c s. run-SafeBus es c s)
        (step-SafeBus e b sound)

  reached_bus :
      (x : Option (Bus A)) → SafeBus x → (b : Bus A) × ((x ≡ some b) × All Sound b.channels)
  reached_bus none s = absurd s
  reached_bus (some b) s = (b, (refl, s))

  -- Whatever clients and the pump do in whatever order, a new broadcaster does not panic: no channel
  -- is closed twice or sent to once closed. The subscribers in its map are the ones whose channels
  -- are open, and no buffer holds more than its size.
  pub run_safe :
      (es : List (Event A)) → (b : Bus A) × ((run cap es new_bus ≡ some b) × All Sound b.channels)
  run_safe es = reached_bus (run cap es new_bus) (run-SafeBus es new_bus tt)
