-- ===== src/Feed/Replay.antt =====
-- The loop of a catch-up is a run of the broadcaster in which the clients take their turns.
use flagfish.Prelude.{
  Bool, true, false, ◌&&◌, suc, ◌==◌, Bool-cases, ℕ, ◌<◌, ◌≡◌, refl, sym, ap, ◌∙◌, none, some, List,
  [], ◌∷◌, ◌++◌, map, All, arith, ◌>>=◌, Option-cases, inl, inr, some-injective,
}
use mathlib.Core.Path.{subst}
use flagfish.Rows.{exists, first}
use flagfish.Feed.Delivery.Kept.{At, harmless, harmless-At, read-At, send-At}
use flagfish.Feed.{Channel, Bus, Event, sends, receives, broadcast, step, run}
use flagfish.Feed.Safety.{Sound, SafeBus, run-SafeBus}
use flagfish.Feed.Delivery.{stream, channel_with, sent, Found, FoundBus, run-Found}
use flagfish.Feed.Pump.{
  Notification, Pump, Client, arrives, departs, reads, shuts_down, event, turn, later_turns,
  subscriber_buffer, fan_out, serve, replay,
}
use flagfish.Feed.Order.{Replayed}

-- what a subscriber that is still in the map has been sent
pub record Reached (rows : List Notification) (mark : ℕ) (c d : Channel Notification) : Type 0 where
  pub news : List Notification
  pub rest : List Notification
  pub replayed : Replayed rows mark news rest
  pub streamed : stream subscriber_buffer d ≡ stream subscriber_buffer c ++ news

-- the events of a replay
abbrev script : List (List Client) → List Notification → List (Event Notification)
script turns [] = []
script turns (n ∷ ns) = map event (turn turns) ++ (sends n ∷ script (later_turns turns) ns)

run-append :
    (es fs : List (Event Notification)) (b : Bus Notification)
    → run subscriber_buffer (es ++ fs) b
      ≡ (run subscriber_buffer es b >>= λ c. run subscriber_buffer fs c)
unfolding run
run-append [] fs b = refl
run-append (e ∷ es) fs b = elim (Option-cases (step subscriber_buffer e b)) [
  | inl panic ↦ rw panic refl
  | inr (c, stepped) ↦ rw stepped (run-append es fs c)
]

sent_clients :
    (cs : List Client) (es : List (Event Notification))
    → sent subscriber_buffer (map event cs ++ es) ≡ sent subscriber_buffer es
unfolding sent
sent_clients [] es = refl
sent_clients (arrives ∷ cs) es = sent_clients cs es
sent_clients (departs id ∷ cs) es = sent_clients cs es
sent_clients (reads id ∷ cs) es = sent_clients cs es
sent_clients (shuts_down ∷ cs) es = sent_clients cs es

sent-script :
    (turns : List (List Client)) (ns : List Notification)
    → sent subscriber_buffer (script turns ns) ≡ ns
unfolding sent
sent-script turns [] = refl
sent-script turns (n ∷ ns) =
    sent_clients (turn turns) (sends n ∷ script (later_turns turns) ns)
    ∙ ap (λ xs. n ∷ xs) (sent-script (later_turns turns) ns)

-- the run of the events of a turn and of the broadcast after it
serve-run :
    (cs : List Client) (n : Notification) (p : Pump) (es : List (Event Notification))
    → run subscriber_buffer (map event cs ++ (sends n ∷ es)) p.bus
      ≡ (serve cs n p >>= λ q. run subscriber_buffer es q.bus)
unfolding serve fan_out run step
serve-run cs n p es =
    run-append (map event cs) (sends n ∷ es) p.bus
    ∙ elim (Option-cases (run subscriber_buffer (map event cs) p.bus)) [
      | inl panic ↦ rw (panic, serve) refl
      | inr (bus, ran) ↦ elim (Option-cases (broadcast subscriber_buffer n bus)) [
        | inl panic ↦ rw (ran, serve, panic) refl
        | inr (final, sent_one) ↦ rw (ran, serve, sent_one) refl
      ]
    ]

replay-run :
    (turns : List (List Client)) (ns : List Notification) (p : Pump)
    → run subscriber_buffer (script turns ns) p.bus ≡ (replay turns ns p >>= λ q. some q.bus)
unfolding replay run
replay-run turns [] p = refl
replay-run turns (n ∷ ns) p =
    serve-run (turn turns) n p (script (later_turns turns) ns)
    ∙ elim (Option-cases (serve (turn turns) n p)) [
      | inl panic ↦ rw panic refl
      | inr (r, served) ↦ rw served (replay-run (later_turns turns) ns r)
    ]

pub replay_runs :
    (turns : List (List Client)) (ns : List Notification) (p : Pump)
    → All (Sound subscriber_buffer) p.bus.channels
    → (q : Pump) × ((replay turns ns p ≡ some q)
        × (run subscriber_buffer (script turns ns) p.bus ≡ some q.bus))
replay_runs turns ns p sound = elim (Option-cases (replay turns ns p)) [
  | inl panic ↦
      let stuck : run subscriber_buffer (script turns ns) p.bus ≡ none =
        replay-run turns ns p ∙ rw panic refl in
      absurd (
        subst (SafeBus subscriber_buffer) stuck
          (run-SafeBus subscriber_buffer (script turns ns) p.bus sound))
  | inr (q, done) ↦ (q, (done, replay-run turns ns p ∙ rw done refl))
]

pub replay-Got :
    (turns : List (List Client)) (ns : List Notification) (p q : Pump) (id : ℕ)
    (c : Channel Notification)
    → run subscriber_buffer (script turns ns) p.bus ≡ some q.bus
    → id < p.bus.next
    → first (channel_with subscriber_buffer id) p.bus.channels ≡ some c
    → Found subscriber_buffer ns id c (some q.bus.channels)
replay-Got turns ns p q id c ran old found =
    subst (λ (xs : List Notification). Found subscriber_buffer xs id c (some q.bus.channels))
      (sent-script turns ns)
      (subst (FoundBus subscriber_buffer (sent subscriber_buffer (script turns ns)) id c) ran
        (run-Found subscriber_buffer (script turns ns) p.bus id c old found)).0

-- in its turn the subscriber reads at least once, and neither it nor the shutdown takes it out
unfoldable pub all : {A : Type 0} → (A → Bool) → List A → Bool
all test [] = true
all test (x ∷ xs) = test x && all test xs

abbrev is_read : ℕ → Client → Bool
is_read id (reads k) = k == id
is_read id _ = false

unfoldable pub attends : ℕ → List Client → Bool
unfolding all exists
attends id cs = all (λ c. harmless subscriber_buffer id (event c)) cs && exists (is_read id) cs

-- a subscriber that reads before each broadcast of the messages
unfoldable pub keeps_up : ℕ → List (List Client) → List Notification → Bool
unfolding attends
keeps_up id turns [] = true
keeps_up id turns (n ∷ ns) = attends id (turn turns) && keeps_up id (later_turns turns) ns

first-All :
    {A : Type 0} (P : A → Type 0) (test : A → Bool) (xs : List A) (x : A)
    → first test xs ≡ some x
    → All P xs
    → (test x ≡ true) × P x
unfolding first
first-All P test [] x h ps = absurd (ground (arith, h))
first-All P test (y ∷ ys) x h ps = elim (Bool-cases (test y)) [
  | inl own ↦
      let same : y ≡ x = some-injective (ground (arith, h, own)) in
      subst (λ z. (test z ≡ true) × P z) same (own, ps.0)
  | inr other ↦ first-All P test ys x (ground (arith, h, other)) ps.1
]

is_read-event : (id : ℕ) (c : Client) → is_read id c ≡ true → event c ≡ receives id
is_read-event id arrives h = absurd (ground (arith, h))
is_read-event id (departs k) h = absurd (ground (arith, h))
is_read-event id (reads k) h = let same : k ≡ id = ground (arith, h) in ap (λ x. receives x) same
is_read-event id shuts_down h = absurd (ground (arith, h))

clients-At :
    (cs : List Client) (es : List (Event Notification)) (id k : ℕ) (b after : Bus Notification)
    → all (λ c. harmless subscriber_buffer id (event c)) cs ≡ true
    → run subscriber_buffer (map event cs ++ es) b ≡ some after
    → At subscriber_buffer id k b
    → (m : Bus Notification) × ((run subscriber_buffer es m ≡ some after)
        × At subscriber_buffer id k m)
unfolding run all
clients-At [] es id k b after h ran a = (b, (ran, a))
clients-At (c ∷ cs) es id k b after h ran a =
    elim (Option-cases (step subscriber_buffer (event c) b)) [
      | inl panic ↦ absurd (ground (arith, ran, panic))
      | inr (m, stepped) ↦
          clients-At cs es id k m after (ground (arith, h)) (sym (rw (stepped, run) refl) ∙ ran)
            (harmless-At subscriber_buffer (event c) id k b m (ground (arith, h)) stepped a)
    ]

turn-At :
    (cs : List Client) (es : List (Event Notification)) (id k : ℕ) (b after : Bus Notification)
    → attends id cs ≡ true
    → run subscriber_buffer (map event cs ++ es) b ≡ some after
    → At subscriber_buffer id (suc k) b
    → (m : Bus Notification) × ((run subscriber_buffer es m ≡ some after)
        × At subscriber_buffer id k m)
unfolding run attends all exists
turn-At [] es id k b after h ran a = absurd (ground (arith, h))
turn-At (c ∷ cs) es id k b after h ran a =
    elim (Option-cases (step subscriber_buffer (event c) b)) [
      | inl panic ↦ absurd (ground (arith, ran, panic))
      | inr (m, stepped) ↦
          let on : run subscriber_buffer (map event cs ++ es) m ≡ some after =
            sym (rw (stepped, run) refl) ∙ ran in
          elim (Bool-cases (is_read id c)) [
            | inl own ↦
                let same : event c ≡ receives id = is_read-event id c own in
                let less : At subscriber_buffer id k m =
                  read-At subscriber_buffer id k b m
                    (subst (λ e. step subscriber_buffer e b ≡ some m) same stepped) a in
                clients-At cs es id k m after (ground (arith, h)) on less
            | inr other ↦ turn-At cs es id k m after (ground (arith, h, other)) on (
                harmless-At subscriber_buffer (event c) id (suc k) b m (ground (arith, h)) stepped
                  a)
          ]
    ]

script-At :
    (turns : List (List Client)) (ns : List Notification) (id : ℕ) (b after : Bus Notification)
    → keeps_up id turns ns ≡ true
    → run subscriber_buffer (script turns ns) b ≡ some after
    → At subscriber_buffer id subscriber_buffer b
    → At subscriber_buffer id subscriber_buffer after
unfolding keeps_up run
script-At turns [] id b after h ran a =
    subst (At subscriber_buffer id subscriber_buffer) (some-injective ran) a
script-At turns (n ∷ ns) id b after h ran a =
    let (m, (on, less)) =
      turn-At (turn turns) (sends n ∷ script (later_turns turns) ns) id 15 b after
        (ground (arith, h)) ran a in
    elim (Option-cases (step subscriber_buffer (sends n) m)) [
      | inl panic ↦ absurd (ground (arith, on, panic))
      | inr (r, stepped) ↦
          script-At (later_turns turns) ns id r after (ground (arith, h))
            (sym (rw (stepped, run) refl) ∙ on)
            (send-At subscriber_buffer n id 15 m r (omega arith) stepped less)
    ]

-- A subscriber in the map of sound channels that reads before each broadcast is in the map after them.
pub replay-registered :
    (turns : List (List Client)) (ns : List Notification) (p q : Pump) (id : ℕ)
    (c d : Channel Notification)
    → All (Sound subscriber_buffer) p.bus.channels
    → c.registered ≡ true
    → run subscriber_buffer (script turns ns) p.bus ≡ some q.bus
    → id < p.bus.next
    → first (channel_with subscriber_buffer id) p.bus.channels ≡ some c
    → first (channel_with subscriber_buffer id) q.bus.channels ≡ some d
    → keeps_up id turns ns ≡ true
    → d.registered ≡ true
replay-registered turns ns p q id c d sound here ran old found found_d keeps =
    let (own, safe) =
      first-All (Sound subscriber_buffer) (channel_with subscriber_buffer id) p.bus.channels c found
        sound in
    let a = script-At turns ns id p.bus q.bus keeps ran (record {
      channel = c;
      found = found;
      old = old;
      own = ground (arith, own);
      here = here;
      unclosed = ground (arith, safe.0, here);
      unread = safe.1;
    }) in
    let same : a.channel ≡ d = some-injective (sym a.found ∙ found_d) in
    subst (λ (x : Channel Notification). x.registered ≡ true) same a.here
