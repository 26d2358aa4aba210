-- ===== src/Scoring/Standings/Accounts.antt =====
-- Where an account stands depends on its own events alone.
use mathlib.Core.Path.{subst}
use flagfish.Prelude.{
  ℕ, ◌≡◌, ◌≢◌, refl, ap, ◌∙◌, Bool-cases, not, ◌&&◌, inl, inr, Option, none, some, List, [], ◌∷◌,
  All, arith, ◌==◌, ==_iff, if◌then◌else◌,
}
use flagfish.Prelude.Int.{pos}
use flagfish.Scoring.Standings.{
  Event, Entry, counts, credit, fresh, bump, aggregate_from, aggregate,
}

-- the entry of an account
pub find : ℕ → List Entry → Option Entry
find a [] = none
find a (x ∷ xs) = if x.account_id == a then some x else find a xs

abbrev or_fresh : ℕ → Option Entry → Entry
or_fresh a none = fresh a
or_fresh a (some x) = x

-- The entry of one account, from its own events that count, in their order.
pub own_entry : ℕ → Option Entry → List Event → Option Entry
own_entry a o [] = o
own_entry a o (ev ∷ evs) =
    own_entry a (if counts ev && ev.account_id == a then some (credit ev (or_fresh a o)) else o) evs

find-bump_self :
    (ev : Event) (l : List Entry)
    → find ev.account_id (bump ev l)
      ≡ some (credit ev (or_fresh ev.account_id (find ev.account_id l)))
unfolding find bump credit
find-bump_self ev [] = ground arith
find-bump_self ev (x ∷ l) = ground (arith, find-bump_self ev l)

find-bump_other :
    (a : ℕ) (ev : Event) (l : List Entry) → ev.account_id ≢ a → find a (bump ev l) ≡ find a l
unfolding find bump credit
find-bump_other a ev [] h = ground arith
find-bump_other a ev (x ∷ l) h = ground (arith, find-bump_other a ev l)

find-bump :
    (a : ℕ) (ev : Event) (l : List Entry)
    → find a (bump ev l)
      ≡ (if ev.account_id == a then some (credit ev (or_fresh a (find a l))) else find a l)
find-bump a ev l = elim (Bool-cases (ev.account_id == a)) [
  | inl same ↦ rw same (
      subst (λ n. find n (bump ev l) ≡ some (credit ev (or_fresh n (find n l))))
        ((==_iff ev.account_id a).0 same) (find-bump_self ev l))
  | inr apart ↦ rw apart (find-bump_other a ev l (ground arith))
]

find-step :
    (a : ℕ) (ev : Event) (l : List Entry)
    → find a (if not (counts ev) then l else bump ev l) ≡ (
        if counts ev && ev.account_id == a
        then some (credit ev (or_fresh a (find a l)))
        else find a l)
find-step a ev l = ground (arith, find-bump a ev l)

find-aggregate_from :
    (a : ℕ) (evs : List Event) (l : List Entry)
    → find a (aggregate_from l evs) ≡ own_entry a (find a l) evs
unfolding aggregate_from own_entry
find-aggregate_from a [] l = refl
find-aggregate_from a (ev ∷ evs) l =
    find-aggregate_from a evs (if not (counts ev) then l else bump ev l)
    ∙ ap (λ o. own_entry a o evs) (find-step a ev l)

-- The entry that `Aggregate` has for an account is the one built from that account's own counted
-- events; there is none exactly when that gives none.
pub find-aggregate :
    (a : ℕ) (events : List Event) → find a (aggregate events) ≡ own_entry a none events
unfolding aggregate find
find-aggregate a events = find-aggregate_from a events []

-- every event of the account is worth 0
abbrev pub ZeroOnly : ℕ → List Event → Type 0
ZeroOnly a = All (λ ev. ev.account_id ≡ a → ev.value ≡ pos 0)

own_entry-ZeroOnly :
    (a : ℕ) (events : List Event) → ZeroOnly a events → own_entry a none events ≡ none
unfolding own_entry counts
own_entry-ZeroOnly a [] h = refl
own_entry-ZeroOnly a (ev ∷ events) h = ground (arith, own_entry-ZeroOnly a events h.1)

-- An account whose events are all worth 0 is absent from the aggregation, and so from the board.
ZeroOnly-absent :
    (a : ℕ) (events : List Event) → ZeroOnly a events → find a (aggregate events) ≡ none
ZeroOnly-absent a events h = find-aggregate a events ∙ own_entry-ZeroOnly a events h
