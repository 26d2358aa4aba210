-- ===== src/Roster.antt =====
-- The users and teams tables with the ledger columns that name a team, and the statements of
-- internal/db/teams.sql.gen.go and team_roster.sql.gen.go that change them, with the triggers, the
-- unique indexes and the foreign keys of internal/db/migrations that can refuse them. A primary key
-- matches one row. A rolled back transaction gives its ids back here, which Postgres does not. The
-- statements of a captain are in Roster/Command.
pub mod Command
pub mod Reads
pub mod Player
pub mod Captain
pub mod Admin
pub mod Moderation
pub mod Request
pub mod Move
pub mod Valid
pub mod LastAdmin
pub mod Capacity
pub mod History
pub mod Replies
pub mod Denied
pub mod SignedOut
pub mod Tests
use Prim.Native.String.{String}
use text.Mathlib.Text.{◌==◌ as str_eq}
use flagfish.Prelude.{
  ℕ, zero, suc, ◌+◌, Bool, true, false, not, ◌&&◌, ◌||◌, Option, none, some, List, [], ◌∷◌, leb,
  ltb, ◌==◌, if◌then◌else◌,
}
use flagfish.Prelude.Int.{ℤ, pos, negsuc}
use flagfish.Rows.{same_id, count, exists, first, update_where, delete_where}
use flagfish.Flags.Space.{Bytes}

pub record UserRow : Type 0 where
  pub id : ℕ
  pub team_id : Option ℕ
  pub is_admin : Bool
  pub hidden : Bool
  pub banned : Bool
  pub verified : Bool
  pub must_change_password : Bool

pub record TeamRow : Type 0 where
  pub id : ℕ
  pub name : String
  pub email : Option String
  pub password_hash : Bytes
  pub website : Option String
  pub affiliation : Option String
  pub country : Option String
  pub captain_id : Option ℕ
  pub hidden : Bool
  pub banned : Bool

-- a row of solves or awards, as far as a score reads it
pub record Entry : Type 0 where
  pub user_id : ℕ
  pub team_id : Option ℕ
  pub value : ℤ
  pub date : ℕ

pub record Roster : Type 0 where
  pub users : List UserRow
  pub teams : List TeamRow
  pub solves : List Entry
  pub awards : List Entry
  pub submissions : List Entry
  pub hint_unlocks : List Entry
  -- the owners of the rows of sessions and api_tokens
  pub sessions : List ℕ
  pub api_tokens : List ℕ
  pub team_seq : ℕ
  -- `NULLIF(value,'')::int` of the keys of the config table
  pub num_teams : Option ℤ
  pub team_size : Option ℤ

-- 23505, 23514 and 23503
pub data SqlError : Type 0 where
  unique_violation check_violation foreign_key_violation : SqlError

-- the error of a statement, or the rows it touched with the tables after it
pub data Outcome : Type 0 where
  raised : SqlError → Outcome
  touched : ℕ → Roster → Outcome

-- `cap IS NOT NULL AND cap > 0 AND n >= cap`
unfoldable pub reached : Option ℤ → ℕ → Bool
reached none n = false
reached (some (pos zero)) n = false
reached (some (pos (suc cap))) n = leb (suc cap) n
reached (some (negsuc cap)) n = false

abbrev pub has_id : ℕ → UserRow → Bool
has_id id u = u.id == id

abbrev pub is_team : ℕ → TeamRow → Bool
is_team id t = t.id == id

abbrev pub led_by : ℕ → TeamRow → Bool
led_by user t = same_id t.captain_id (some user)

abbrev pub on_team : ℕ → UserRow → Bool
on_team team u = same_id u.team_id (some team)

-- `EXISTS (SELECT 1 FROM solves s WHERE s.team_id = ..)`
abbrev pub for_team : ℕ → Entry → Bool
for_team team e = same_id e.team_id (some team)

abbrev pub team_scored : List Entry → Option ℕ → Bool
team_scored solves none = false
team_scored solves (some team) = exists (for_team team) solves

abbrev pub with_team : Option ℕ → UserRow → UserRow
with_team team u = record u { team_id = team }

abbrev pub with_captain : Option ℕ → TeamRow → TeamRow
with_captain captain t = record t { captain_id = captain }

abbrev pub with_hash : Bytes → TeamRow → TeamRow
with_hash hash t = record t { password_hash = hash }

abbrev pub set_users : Roster → List UserRow → Roster
set_users r users = record r { users = users }

abbrev pub set_teams : Roster → List TeamRow → Roster
set_teams r teams = record r { teams = teams }

abbrev pub is_listed : TeamRow → Bool
is_listed t = not t.banned && not t.hidden

abbrev pub new_team : Roster → String → Bytes → ℕ → TeamRow
new_team r name hash captain = record {
  id = r.team_seq;
  name = name;
  email = none;
  password_hash = hash;
  website = none;
  affiliation = none;
  country = none;
  captain_id = some captain;
  hidden = false;
  banned = false;
}

abbrev pub add_team : Roster → TeamRow → Roster
add_team r t = record r { teams = t ∷ r.teams; team_seq = suc r.team_seq }

abbrev pub named : String → TeamRow → Bool
named name t = str_eq t.name name

-- `CreateTeam`: the caps trigger, then the unique name, then the captain's foreign key
unfoldable pub create_team : Roster → String → Bytes → ℕ → Outcome
unfolding reached count exists
create_team r name hash captain =
    if reached r.num_teams (count is_listed r.teams)
    then raised check_violation
    else if exists (named name) r.teams
    then raised unique_violation
    else if exists (has_id captain) r.users
    then touched 1 (add_team r (new_team r name hash captain))
    else raised foreign_key_violation

abbrev pub teamless_with_id : ℕ → UserRow → Bool
teamless_with_id user u = has_id user u && elim u.team_id [ none ↦ true | some _ ↦ false ]

-- `EnrollUser`, whose caps trigger weighs team_size on the row it matches
unfoldable pub enroll_user : Roster → ℕ → ℕ → Outcome
unfolding reached count exists update_where
enroll_user r team user =
    if not (exists (teamless_with_id user) r.users)
    then touched 0 r
    else if reached r.team_size (count (on_team team) r.users)
    then raised check_violation
    else if exists (is_team team) r.teams
    then touched (count (teamless_with_id user) r.users)
        (set_users r (update_where (teamless_with_id user) (with_team (some team)) r.users))
    else raised foreign_key_violation

abbrev pub captainless : TeamRow → Bool
captainless t = elim t.captain_id [ none ↦ true | some _ ↦ false ]

abbrev pub adoptable : List UserRow → ℕ → TeamRow → Bool
adoptable users team t = is_team team t && captainless t && count (on_team t.id) users == 1

-- `AdoptCaptainlessTeam`
unfoldable pub adopt_captainless_team : Roster → ℕ → ℕ → Outcome
unfolding count exists update_where
adopt_captainless_team r user team =
    if exists (adoptable r.users team) r.teams && not (exists (has_id user) r.users)
    then raised foreign_key_violation
    else touched (count (adoptable r.users team) r.teams)
        (set_teams r (update_where (adoptable r.users team) (with_captain (some user)) r.teams))

abbrev pub may_leave : Roster → ℕ → ℕ → UserRow → Bool
may_leave r user team u = has_id user u && on_team team u && not (team_scored r.solves u.team_id)

-- `LeaveTeam`
unfoldable pub leave_team : Roster → ℕ → ℕ → Outcome
unfolding count update_where
leave_team r user team =
    touched (count (may_leave r user team) r.users)
      (set_users r (update_where (may_leave r user team) (with_team none) r.users))

-- `SELECT min(u.id) FROM users u WHERE u.team_id = t.id`
unfoldable pub min_member : ℕ → List UserRow → Option ℕ
min_member team [] = none
min_member team (u ∷ us) =
    let rest = min_member team us in
    if on_team team u
    then elim rest [ none ↦ some u.id | some m ↦ some (if ltb m u.id then m else u.id) ]
    else rest

abbrev pub led_team : ℕ → ℕ → TeamRow → Bool
led_team team user t = is_team team t && led_by user t

abbrev pub with_min : List UserRow → TeamRow → TeamRow
with_min users t = with_captain (min_member t.id users) t

-- `ReassignCaptainAfterLeave`
unfoldable pub reassign_captain_after_leave : Roster → ℕ → ℕ → Outcome
unfolding count update_where
reassign_captain_after_leave r team user =
    touched (count (led_team team user) r.teams)
      (set_teams r (update_where (led_team team user) (with_min r.users) r.teams))
