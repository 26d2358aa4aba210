-- ===== src/Roster/Valid/Enroll.antt =====
-- A player gets onto a team: into one that exists, where a lone arrival takes an empty seat, or into
-- the new one that the player leads.

use flagfish.Prelude.{
  ℕ, ◌+◌, ◌≤◌, ◌≡◌, refl, ◌∙◌, Bool, true, false, some, arith, Option-cases, inl, inr, Bool-cases,
  ◌==◌,
}
use flagfish.Rows.{count, exists}
use flagfish.Rows.Laws.{
  exists-update, exists-updated, count-update_le, count-update_keeps, count-le, count-exists,
}
use flagfish.Rows.Kept.{All-update}
use flagfish.Roster.{
  TeamRow, Roster, has_id, is_team, on_team, with_team, with_captain, teamless_with_id, adoptable,
}
use flagfish.Roster.Command.{member_of}
use flagfish.Roster.Move.{seated_users, joined}
use flagfish.Roster.Valid.{Led, Seated, IsValid}
use flagfish.Roster.Valid.Depart.{team_exists-update}

pub Seated-enrolled :
    (user team : ℕ) (r : Roster) (t : TeamRow)
    → Seated r.users t
    → Seated (seated_users user team r) t
Seated-enrolled user team r t seat = elim (Option-cases t.captain_id) [
  | inl empty ↦ rw empty refl
  | inr (c, led) ↦ rw led (
      exists-update (member_of c t.id) (teamless_with_id user) (with_team (some team)) r.users
        (λ u member teamless. absurd (ground (arith, member, teamless)))
        (ground (arith, seat, led)))
]

-- the arrival is a member
pub arrived :
    (user team : ℕ) (r : Roster)
    → exists (teamless_with_id user) r.users ≡ true
    → exists (member_of user team) (seated_users user team r) ≡ true
arrived user team r there =
    exists-updated (member_of user team) (teamless_with_id user) (with_team (some team)) r.users
      (λ u e. ground (arith, e)) there

pub other_team_count :
    (user team : ℕ) (r : Roster) (i : ℕ)
    → (i == team) ≡ false
    → count (on_team i) (seated_users user team r) ≡ count (on_team i) r.users
other_team_count user team r i other =
    count-update_keeps (on_team i) (teamless_with_id user) (with_team (some team)) r.users
      (λ u e. ground (arith, e, other))

-- a team grows by one at the most
pub own_team_count :
    (user team : ℕ) (r : Roster)
    → IsValid r
    → count (on_team team) (seated_users user team r) ≤ count (on_team team) r.users + 1
own_team_count user team r valid = omega (
  arith,
  count-update_le (on_team team) (teamless_with_id user) (with_team (some team)) r.users,
  count-le (teamless_with_id user) (has_id user) r.users (λ u e. ground (arith, e)),
  valid.users_unique user,
)

arrival_counted :
    (user team : ℕ) (r : Roster)
    → exists (teamless_with_id user) r.users ≡ true
    → 1 ≤ count (on_team team) (seated_users user team r)
arrival_counted user team r there = count-exists (on_team team) (seated_users user team r) (
    exists-updated (on_team team) (teamless_with_id user) (with_team (some team)) r.users
      (λ u e. ground (arith, e)) there)

Led-enrolled :
    (user team : ℕ) (r : Roster) (t : TeamRow)
    → IsValid r
    → exists (teamless_with_id user) r.users ≡ true
    → adoptable (seated_users user team r) team t ≡ false
    → Led r.users t
    → Led (seated_users user team r) t
Led-enrolled user team r t valid there kept led c = elim (Bool-cases (t.id == team)) [
  | inl own ↦ absurd (
      ground (
        arith,
        own,
        kept,
        c,
        led c,
        own_team_count user team r valid,
        arrival_counted user team r there,
      ))
  | inr other ↦ other_team_count user team r t.id other ∙ led c
]

Seated-adopted :
    (user team : ℕ) (r : Roster) (t : TeamRow)
    → exists (teamless_with_id user) r.users ≡ true
    → adoptable (seated_users user team r) team t ≡ true
    → Seated (seated_users user team r) (with_captain (some user) t)
Seated-adopted user team r t there e =
    let own : t.id ≡ team = ground (arith, e) in rw own (arrived user team r there)

pub joined-IsValid :
    (user team : ℕ) (r : Roster)
    → exists (teamless_with_id user) r.users ≡ true
    → exists (is_team team) r.teams ≡ true
    → IsValid r
    → IsValid (joined user team r)
joined-IsValid user team r there room valid = record {
  users_unique = λ i.
      rw
        (count-update_keeps (has_id i) (teamless_with_id user) (with_team (some team)) r.users
          (λ u e. refl))
        (valid.users_unique i);
  teams_unique = λ i.
      rw (count-update_keeps (is_team i) adopts (with_captain (some user)) r.teams (λ t e. refl))
        (valid.teams_unique i);
  seats =
      All-update adopts (with_captain (some user)) r.teams
        (λ t seat e. Seated-adopted user team r t there e)
        (λ t seat e. Seated-enrolled user team r t seat) valid.seats;
  led =
      All-update adopts (with_captain (some user)) r.teams (λ t led e c. absurd (ground (arith, c)))
        (λ t led e. Led-enrolled user team r t valid there e led) valid.led;
  enrolled =
      All-update (teamless_with_id user) (with_team (some team)) r.users
        (λ u here e.
          team_exists-update adopts (with_captain (some user)) r.teams (some team) (λ t. refl)
          ∙ room)
        (λ u here e.
          team_exists-update adopts (with_captain (some user)) r.teams u.team_id (λ t. refl) ∙ here)
        valid.enrolled;
  fresh =
      All-update adopts (with_captain (some user)) r.teams (λ t lt e. lt) (λ t lt e. lt)
        valid.fresh;
}
  where
    adopts : TeamRow → Bool
    adopts = adoptable (seated_users user team r) team
