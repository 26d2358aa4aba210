-- ===== src/Roster/Valid.antt =====
-- The well-formed roster: the primary keys hold, a captain is a member of the team, a team with
-- members has a captain, and a member's team exists.
pub mod Depart
pub mod Enroll
pub mod Seat
pub mod Found
pub mod Opened
pub mod Moves
use flagfish.Prelude.{
  ℕ, ◌≤◌, ◌<◌, ◌≡◌, refl, Bool, true, false, ◌&&◌, Option, none, some, List, [], ◌∷◌, All,
}
use flagfish.Rows.{same_id, count, exists}
use flagfish.Roster.{UserRow, TeamRow, Roster, has_id, is_team, on_team, captainless}
use flagfish.Roster.Command.{member_of}

abbrev pub seat_taken : List UserRow → ℕ → Option ℕ → Bool
seat_taken users team none = true
seat_taken users team (some captain) = exists (member_of captain team) users

abbrev pub team_exists : List TeamRow → Option ℕ → Bool
team_exists teams none = true
team_exists teams (some team) = exists (is_team team) teams

-- a captainless team is empty
abbrev pub Led : List UserRow → TeamRow → Type 0
Led users t = captainless t ≡ true → count (on_team t.id) users ≡ 0

abbrev pub Seated : List UserRow → TeamRow → Type 0
Seated users t = seat_taken users t.id t.captain_id ≡ true

pub record IsValid (r : Roster) : Type 0 where
  pub users_unique : (i : ℕ) → count (has_id i) r.users ≤ 1
  pub teams_unique : (i : ℕ) → count (is_team i) r.teams ≤ 1
  pub seats : All (Seated r.users) r.teams
  pub led : All (Led r.users) r.teams
  pub enrolled : All (λ u. team_exists r.teams u.team_id ≡ true) r.users
  pub fresh : All (λ t. t.id < r.team_seq) r.teams
