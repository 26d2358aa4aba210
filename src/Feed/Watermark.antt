-- ===== src/Feed/Watermark.antt =====
-- The watermark that a catch-up after an outage leaves.
use flagfish.Prelude.{
  ◌⊎◌, Bool, false, ℕ, ◌≤◌, ◌<◌, ◌≡◌, refl, true, false, some, List, All, arith, ◌==◌, Bool-cases,
  inl, inr,
}
use flagfish.Rows.{exists, first}
use flagfish.Feed.Order.{Distinct, after-Replayed}
use flagfish.Feed.Safety.{Sound}
use flagfish.Feed.Delivery.{channel_with}
use flagfish.Feed.Replay.{Reached, keeps_up, replay_runs, replay-Got, replay-registered}
use flagfish.Feed.{Channel}
use flagfish.Feed.Pump.{
  Notification, Pump, subscriber_buffer, catch_up_limit, latest_id, after, Client, replay, jump,
  catch_up,
}

-- no row of a list is above the mark
abbrev pub Below : ℕ → List Notification → Type 0
Below w ns = All (λ n. n.id ≤ w) ns

-- whether a read of the table had the id
abbrev pub saw : List Notification → ℕ → Bool
saw seen id = exists (λ x. x.id == id) seen

-- every row that both of the reads of a catch-up had is at or below the mark
abbrev pub NoneAbove : ℕ → List Notification → List Notification → Type 0
NoneAbove w seen rows = All (λ n. (n.id ≤ w) ⊎ (saw seen n.id ≡ false)) rows

catch_up-done :
    (turns : List (List Client)) (seen rows : List Notification) (p s : Pump) (m : ℕ)
    → p.last_id ≡ some m
    → replay turns (after rows m catch_up_limit) p ≡ some s
    → catch_up turns seen rows p ≡ some (jump (latest_id seen) (after rows m catch_up_limit) s)
unfolding catch_up
catch_up-done turns seen rows p s m mark done = rw (catch_up, mark, done) refl

-- On a table with unique ids, a catch-up of a pump that has a watermark and whose channels are sound
-- does not panic, whatever the clients do between its broadcasts. A subscriber that was in the map is
-- then either out of it, or has been sent, after what it had before, the first hundred of the rows
-- above the old watermark in the order of their ids, or all of them where they are fewer, and nothing
-- else. It is in the map where, before each broadcast, it reads at least once and neither it nor the
-- shutdown takes it out.
pub catch_up_reaches :
    (turns : List (List Client)) (seen rows : List Notification) (p : Pump) (m id : ℕ)
    (c : Channel Notification)
    → Distinct rows
    → All (Sound subscriber_buffer) p.bus.channels
    → p.last_id ≡ some m
    → id < p.bus.next
    → first (channel_with subscriber_buffer id) p.bus.channels ≡ some c
    → c.registered ≡ true
    → (q : Pump) × ((catch_up turns seen rows p ≡ some q)
        × ((d : Channel Notification) × ((first (channel_with subscriber_buffer id) q.bus.channels
                ≡ some d)
              × (((d.registered ≡ false) ⊎ Reached rows m c d)
                  × ((keeps_up id turns (after rows m catch_up_limit) ≡ false)
                      ⊎ (d.registered ≡ true))))))
catch_up_reaches turns seen rows p m id c keys sound mark old found mapped =
    let news : List Notification = after rows m catch_up_limit in
    let (rest, replayed) = after-Replayed rows m keys in
    let (s, (done, ran)) = replay_runs turns news p sound in
    let (d, (found_d, got)) = replay-Got turns news p s id c ran old found in
    (
      jump (latest_id seen) news s,
      (
        catch_up-done turns seen rows p s m mark done,
        (
          d,
          (
            ground (arith, found_d),
            (
              elim (Bool-cases d.registered) [
                | inl here ↦ inr (record {
                  news = news;
                  rest = rest;
                  replayed = replayed;
                  streamed = (got.1 here).1;
                })
                | inr gone ↦ inl gone
              ],
              elim (Bool-cases (keeps_up id turns news)) [
                | inl keeps ↦ inr (
                    replay-registered turns news p s id c d sound mapped ran old found found_d
                      keeps)
                | inr slow ↦ inl slow
              ],
            ),
          ),
        ),
      ),
    )
