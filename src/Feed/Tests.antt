-- ===== src/Feed/Tests.antt =====
-- A run of a broadcaster with two subscribers, of which one falls behind, and a catch-up.

use flagfish.Prelude.{
  zero, suc, none, Option, map, ◌⊎◌, ℕ, ◌≡◌, refl, true, false, some, List, [], ◌∷◌, ◌++◌, All,
  arith,
}
use flagfish.Rows.{first}
use flagfish.Feed.{
  Channel, Bus, Event, subscribes, removes, sends, receives, closes, step, run, new_bus, broadcast,
  each, offer, drop,
}
use flagfish.Feed.Safety.{Sound}
use flagfish.Feed.Order.{Distinct}
use flagfish.Feed.Replay.{Reached, keeps_up}
use flagfish.Feed.Delivery.{channel_with, stream, sent, run_delivers}
use flagfish.Feed.Pump.{
  Notification, Pump, Client, reads, subscriber_buffer, catch_up, catch_up_limit, after,
}
use flagfish.Feed.Watermark.{catch_up_reaches}

abbrev chan : ℕ → List ℕ → List ℕ → Channel ℕ
chan id taken buffer = record {
  id = id;
  taken = taken;
  buffer = buffer;
  closed = false;
  registered = true;
}

abbrev two : Bus ℕ
two = record { channels = chan 1 [] [] ∷ chan 0 [] (7 ∷ []) ∷ []; stopped = false; next = 2 }

abbrev events : List (Event ℕ)
events = sends 8 ∷ receives 1 ∷ sends 9 ∷ []

-- with buffers of two, the subscriber that reads gets both messages and the other is dropped
abbrev later : Bus ℕ
later = record {
  channels =
      chan 1 (8 ∷ []) (9 ∷ [])
      ∷ record { id = 0; taken = []; buffer = 7 ∷ 8 ∷ []; closed = true; registered = false }
      ∷ [];
  stopped = false;
  next = 2;
}

events-run : run 2 events two ≡ some later
unfolding run step broadcast each offer drop flagfish.Feed.receive flagfish.Feed.receive_from
    flagfish.Feed.take_one
events-run = refl

run_delivers_example :
    stream 2 (chan 1 (8 ∷ []) (9 ∷ [])) ≡ stream 2 (chan 1 [] []) ++ sent 2 events
unfolding first
run_delivers_example =
    run_delivers 2 events two later 1 (chan 1 [] []) (chan 1 (8 ∷ []) (9 ∷ [])) (omega arith) refl
      events-run refl refl

abbrev note : ℕ → Notification
note id = record { id = id; title = "t"; content = "c"; date = id }

-- the ids from a number down to 1: a table that is not in the order of its ids
abbrev down_from : ℕ → List Notification
down_from zero = []
down_from (suc k) = note (suc k) ∷ down_from k

abbrev rows : List Notification
rows = down_from 20

abbrev listener : List Notification → List Notification → Channel Notification
listener old ns = record { id = 0; taken = old; buffer = ns; closed = false; registered = true }

abbrev pump : List Notification → List Notification → ℕ → Pump
pump old ns mark = record {
  bus = record { channels = listener old ns ∷ []; stopped = false; next = 1 };
  last_id = some mark;
}

-- before each broadcast the reader of the one channel takes a message
abbrev reading : ℕ → List (List Client)
reading zero = []
reading (suc k) = (reads 0 ∷ []) ∷ reading k

abbrev early : List Notification
early =
    note 2
    ∷ note 3
    ∷ note 4
    ∷ note 5
    ∷ note 6
    ∷ note 7
    ∷ note 8
    ∷ note 9
    ∷ note 10
    ∷ note 11
    ∷ note 12
    ∷ note 13
    ∷ note 14
    ∷ note 15
    ∷ note 16
    ∷ note 17
    ∷ note 18
    ∷ note 19
    ∷ []

abbrev pump_after : Pump
pump_after = pump early (note 20 ∷ []) 20

pump-Sound : All (Sound subscriber_buffer) (pump [] [] 1).bus.channels
pump-Sound = ((refl, omega arith), tt)

abbrev channels_of : Option Pump → List (Channel Notification)
channels_of none = []
channels_of (some p) = p.bus.channels

-- the one that does not read is dropped
fell_behind :
    map (λ c. c.registered) (channels_of (catch_up [] rows rows (pump [] [] 1))) ≡ false ∷ []
unfolding catch_up
fell_behind = refl

rows-Distinct : Distinct rows
rows-Distinct = ground arith

reader_keeps_up : keeps_up 0 (reading 19) (after rows 1 catch_up_limit) ≡ true
unfolding keeps_up after
reader_keeps_up = refl

catch_up_reaches_example :
    (q : Pump) × ((catch_up (reading 19) rows rows (pump [] [] 1) ≡ some q)
      × ((d : Channel Notification) × ((first (channel_with subscriber_buffer 0) q.bus.channels
              ≡ some d)
            × (((d.registered ≡ false) ⊎ Reached rows 1 (listener [] []) d)
                × ((keeps_up 0 (reading 19) (after rows 1 catch_up_limit) ≡ false)
                    ⊎ (d.registered ≡ true))))))
unfolding first
catch_up_reaches_example =
    catch_up_reaches (reading 19) rows rows (pump [] [] 1) 1 0 (listener [] []) rows-Distinct
      pump-Sound refl (omega arith) refl refl

run_safe_example :
    (b : Bus ℕ) × ((run 16 (subscribes ∷ sends 1 ∷ removes 0 ∷ closes ∷ []) new_bus ≡ some b)
      × All (Sound 16) b.channels)
run_safe_example = flagfish.Feed.Safety.run_safe 16 (subscribes ∷ sends 1 ∷ removes 0 ∷ closes ∷ [])
