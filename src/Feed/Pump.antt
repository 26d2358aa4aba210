-- ===== src/Feed/Pump.antt =====
-- The pump of internal/notify/broadcaster.go over the rows that internal/notify/notify.go publishes:
-- a signalled id is looked up and sent, and a new subscription to the signals replays what the last
-- one missed. The rows of the table are in any order. The watermark -1 is `none`.
use Prim.Native.String.{String}
use flagfish.Prelude.{
  ℕ, zero, suc, Bool, Option, none, some, List, [], ◌∷◌, ◌++◌, map, ltb, leb, length, ◌==◌,
  if◌then◌else◌, ◌>>=◌,
}
use flagfish.Rows.{first, select}
use flagfish.Feed.{Bus, broadcast, Event, subscribes, removes, receives, closes, run}

pub record Notification : Type 0 where
  pub id : ℕ
  pub title : String
  pub content : String
  pub date : ℕ

-- the notifications table with its sequence
pub record Board : Type 0 where
  pub rows : List Notification
  pub seq : ℕ

-- `subscriberBuffer` and `catchUpLimit`
abbrev pub subscriber_buffer : ℕ
subscriber_buffer = 16

abbrev pub catch_up_limit : ℕ
catch_up_limit = 100

abbrev pub new_row : Board → String → String → ℕ → Notification
new_row b title content now = record { id = b.seq; title = title; content = content; date = now }

-- `Publish` and `PublishSystem`: the row, and the id that the commit signals
unfoldable pub publish : Board → String → String → ℕ → ℕ × Board
publish b title content now =
    (b.seq, record b { rows = b.rows ++ new_row b title content now ∷ []; seq = suc b.seq })

-- `Service.LatestID`: the highest id, 0 on an empty table
unfoldable pub latest_id : List Notification → ℕ
latest_id [] = 0
latest_id (n ∷ ns) = let rest = latest_id ns in if ltb rest n.id then n.id else rest

abbrev pub is_after : ℕ → Notification → Bool
is_after id n = ltb id n.id

unfoldable pub take_up_to {ℓ} : {A : Type ℓ} → ℕ → List A → List A
take_up_to zero xs = []
take_up_to (suc k) [] = []
take_up_to (suc k) (x ∷ xs) = x ∷ take_up_to k xs

-- ORDER BY id
unfoldable pub insert_by_id : Notification → List Notification → List Notification
insert_by_id n [] = n ∷ []
insert_by_id n (x ∷ xs) =
    let later = insert_by_id n xs in if leb n.id x.id then n ∷ x ∷ xs else x ∷ later

unfoldable pub order_by_id : List Notification → List Notification
unfolding insert_by_id
order_by_id [] = []
order_by_id (n ∷ ns) = insert_by_id n (order_by_id ns)

-- `Service.After`
unfoldable pub after : List Notification → ℕ → ℕ → List Notification
unfolding take_up_to select order_by_id
after rows id limit = take_up_to limit (order_by_id (select (is_after id) rows))

-- `Service.Get`: `none` is ErrNotFound
unfoldable pub get : List Notification → ℕ → Option Notification
unfolding first
get rows id = first (λ n. n.id == id) rows

-- `Broadcaster` with its watermark
pub record Pump : Type 0 where
  pub bus : Bus Notification
  pub last_id : Option ℕ

-- `advance`: the loop on the compare-and-swap ends with the greater of the two
unfoldable pub raise : Option ℕ → ℕ → Option ℕ
raise none id = some id
raise (some cur) id = if leb id cur then some cur else some id

abbrev pub advance : ℕ → Pump → Pump
advance id p = record p { last_id = raise p.last_id id }

-- `b.advance(n.ID); b.broadcast(n)`; `none` is a panic
unfoldable pub fan_out : Notification → Pump → Option Pump
unfolding raise broadcast
fan_out n p = broadcast subscriber_buffer n p.bus >>= λ bus.
    some (record { bus = bus; last_id = raise p.last_id n.id })

-- What clients and the shutdown do to the broadcaster while the pump does not hold its lock. They send
-- nothing: the pump is the one goroutine that broadcasts.
pub data Client : Type 0 where
  arrives : Client
  departs : ℕ → Client
  reads : ℕ → Client
  shuts_down : Client

abbrev pub event : Client → Event Notification
event arrives = subscribes
event (departs id) = removes id
event (reads id) = receives id
event shuts_down = closes

-- the clients' turn before a broadcast, and the turns after it; none are left of an empty list
abbrev pub turn : List (List Client) → List Client
turn [] = []
turn (t ∷ ts) = t

abbrev pub later_turns : List (List Client) → List (List Client)
later_turns [] = []
later_turns (t ∷ ts) = ts

-- the body of the loop of `catchUp`, after a turn of the clients
unfoldable pub serve : List Client → Notification → Pump → Option Pump
unfolding run fan_out
serve clients n p =
    run subscriber_buffer (map event clients) p.bus >>= λ bus. fan_out n (record p { bus = bus })

-- the loop of `catchUp`
unfoldable pub replay : List (List Client) → List Notification → Pump → Option Pump
unfolding serve
replay turns [] p = some p
replay turns (n ∷ ns) p = serve (turn turns) n p >>= λ q. replay (later_turns turns) ns q

abbrev pub jump : ℕ → List Notification → Pump → Pump
jump latest missed p = if length missed == catch_up_limit then advance latest p else p

-- `catchUp`: LatestID reads the table `seen` and After the table `rows`, and neither read fails
unfoldable pub catch_up :
    List (List Client) → List Notification → List Notification → Pump → Option Pump
unfolding latest_id after replay raise
catch_up turns seen rows p = elim p.last_id [
  | none ↦ some (record p { last_id = some (latest_id seen) })
  | some id ↦ replay turns (after rows id catch_up_limit) p >>= λ q.
      some (jump (latest_id seen) (after rows id catch_up_limit) q)
]

-- `deliver`, with the number that `strconv.ParseInt` reads and no error but ErrNotFound
unfoldable pub deliver : List Notification → Option ℕ → Pump → Option Pump
unfolding get fan_out raise
deliver rows none p = some p
deliver rows (some id) p = elim (get rows id) [ none ↦ some (advance id p) | some n ↦ fan_out n p ]
