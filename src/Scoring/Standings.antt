-- ===== src/Scoring/Standings.antt =====
-- internal/domain/scoring/standings.go: from scoring events to the board. Instants are nanoseconds
-- since Go's zero time, so the zero `time.Time` is 0; scores are 64-bit and wrap.
pub mod Order
mod Aggregate
pub mod Determinism
pub mod Accounts
mod Tests
use flagfish.Prelude.{ℕ, ◌+◌, Bool, true, false, not, List, [], ◌∷◌, ltb, ◌==◌, if◌then◌else◌}
use flagfish.Prelude.Int.{ℤ, pos, ltb_ℤ, eqb_ℤ, add64}

pub record Event : Type 0 where
  pub account_id : ℕ
  pub value : ℤ
  pub at : ℕ

pub record Entry : Type 0 where
  pub account_id : ℕ
  pub score : ℤ
  pub last_event : ℕ

pub record Standing : Type 0 where
  pub entry : Entry
  pub place : ℕ

-- `Event.Counts`
unfoldable pub counts : Event → Bool
counts e = not (eqb_ℤ e.value (pos 0))

-- The body of `Aggregate`'s loop on the account's entry.
unfoldable pub credit : Event → Entry → Entry
credit ev e = record e {
  score = add64 e.score ev.value;
  last_event = if ltb e.last_event ev.at then ev.at else e.last_event;
}

abbrev pub fresh : ℕ → Entry
fresh id = record { account_id = id; score = pos 0; last_event = 0 }

-- `byAccount[ev.AccountID]`, created when it is missing. The map is an association list.
unfoldable pub bump : Event → List Entry → List Entry
unfolding credit
bump ev [] = credit ev (fresh ev.account_id) ∷ []
bump ev (e ∷ es) = if e.account_id == ev.account_id then credit ev e ∷ es else e ∷ bump ev es

unfoldable pub aggregate_from : List Entry → List Event → List Entry
unfolding counts bump
aggregate_from entries [] = entries
aggregate_from entries (ev ∷ events) =
    aggregate_from (if not (counts ev) then entries else bump ev entries) events

-- `Aggregate`
unfoldable pub aggregate : List Event → List Entry
unfolding aggregate_from
aggregate events = aggregate_from [] events

-- `Less`
unfoldable pub less : Entry → Entry → Bool
less a b =
    if not (eqb_ℤ a.score b.score)
    then ltb_ℤ b.score a.score
    else if not (a.last_event == b.last_event)
    then ltb a.last_event b.last_event
    else ltb a.account_id b.account_id

-- One step of a stable sort.
unfoldable pub insert : Entry → List Entry → List Entry
insert x [] = x ∷ []
insert x (y ∷ ys) = if less y x then y ∷ insert x ys else x ∷ y ∷ ys

-- `Rank`: a stable sort by `Less`
unfoldable pub rank : List Entry → List Entry
unfolding insert less
rank [] = []
rank (e ∷ es) = insert e (rank es)

unfoldable pub places : ℕ → List Entry → List Standing
places n [] = []
places n (e ∷ es) = record { entry = e; place = n } ∷ places (n + 1) es

-- `Board`
unfoldable pub board : List Event → List Standing
unfolding aggregate rank places
board events = places 1 (rank (aggregate events))
