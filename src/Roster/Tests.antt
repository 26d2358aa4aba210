-- ===== src/Roster/Tests.antt =====
-- Runs on a roster of two teams: the theorems at inputs where their hypotheses hold, and the join
-- that overlaps a ban.
use Prim.Native.String.{String}
use flagfish.Prelude.{
  not, ◌&&◌, ℕ, ◌≡◌, refl, Bool, true, false, Option, none, some, List, [], ◌∷◌, arith, length,
  ◌==◌,
}
use flagfish.Prelude.Int.{pos}
use flagfish.Rows.{count, exists, update_where, delete_where}
use flagfish.Flags.Space.{Bytes}
use flagfish.Roster.{UserRow, TeamRow, Entry, Roster, led_by, has_id, reached, for_team, is_team}
use flagfish.Roster.Player.{
  Library, Result, failed, succeeded, team_join_denied, join, team_full, create,
}
use flagfish.Roster.Command.{member_of}
use flagfish.Roster.Captain.{transfer, kick, leave, disband}
use flagfish.Roster.Moderation.{set_team_banned, force_password_change, set_must_change}
use flagfish.Roster.Request.{Request, step, run}
use flagfish.Roster.Move.{HasAdmin}
use flagfish.Roster.Valid.{IsValid}
use flagfish.Roster.Valid.Moves.{run-IsValid}
use flagfish.Roster.LastAdmin.{step-HasAdmin}
use flagfish.Roster.Capacity.{Capped, run-Capped}
use flagfish.Roster.History.{Remembers, run-Remembers}
use flagfish.Roster.Replies.{size, scored_roster_frozen}
use flagfish.Roster.Denied.{denied, is_denial, join_denial_iff}
use flagfish.Roster.SignedOut.{Sets, NoSession, password_change_ends}
use flagfish.Roster.Admin.{usable_admin}
use flagfish.Account.{teams}

-- a hash is the password itself
abbrev lib : Library
lib = record { hash = λ p. some p; verify = λ h p. ((length h == length p), false); lower = λ s. s }

abbrev player : ℕ → Option ℕ → Bool → UserRow
player id team admin = record {
  id = id;
  team_id = team;
  is_admin = admin;
  hidden = false;
  banned = false;
  verified = true;
  must_change_password = false;
}

abbrev secret : Bytes
secret = 1 ∷ 2 ∷ 3 ∷ 4 ∷ 5 ∷ 6 ∷ 7 ∷ 8 ∷ []

abbrev team : ℕ → String → Option ℕ → Bool → TeamRow
team id name captain banned = record {
  id = id;
  name = name;
  email = none;
  password_hash = secret;
  website = none;
  affiliation = none;
  country = none;
  captain_id = captain;
  hidden = false;
  banned = banned;
}

-- users 1 and 2 on team 1, which has solved a challenge, and the admin 3 on no team; team 2 is empty
abbrev event : Bool → Roster
event banned = record {
  users = player 1 (some 1) false ∷ player 2 (some 1) false ∷ player 3 none true ∷ [];
  teams = team 1 "alpha" (some 1) false ∷ team 2 "beta" none banned ∷ [];
  solves = record { user_id = 1; team_id = some 1; value = pos 100; date = 5 } ∷ [];
  awards = [];
  submissions = [];
  hint_unlocks = [];
  sessions = 1 ∷ 3 ∷ 1 ∷ [];
  api_tokens = 1 ∷ [];
  team_seq = 3;
  num_teams = none;
  team_size = some (pos 2);
}

event-IsValid : (banned : Bool) → IsValid (event banned)
unfolding count exists
event-IsValid banned = record {
  users_unique = λ i. ground arith;
  teams_unique = λ i. ground arith;
  seats = (refl, (refl, tt));
  led = ((λ c. absurd (ground (arith, c))), ((λ c. refl), tt));
  enrolled = (refl, (refl, (refl, tt)));
  fresh = (omega arith, (omega arith, tt));
}

event-HasAdmin : (banned : Bool) → HasAdmin (event banned)
unfolding exists
event-HasAdmin banned = ground arith

-- the captain founds no second team, the admin joins beta, is moved to alpha, which is full
abbrev day : List Request
day =
    Request.create_request 1 "gamma" secret
    ∷ Request.join_request (event false) 3 "beta" secret
    ∷ Request.move_request teams 2 3 1
    ∷ Request.leave_request (event false) 2
    ∷ []

run-IsValid_example : IsValid (run lib (event false) day)
run-IsValid_example = run-IsValid lib day (event false) (event-IsValid false)

step-HasAdmin_example : HasAdmin (step lib (event false) (Request.team_ban_request 3 2 true))
step-HasAdmin_example =
    step-HasAdmin lib (event false) (Request.team_ban_request 3 2 true) (event-IsValid false) tt
      (event-HasAdmin false)

event-Capped : Capped 1 (event false)
unfolding count
event-Capped = record { limit = refl; within = λ i. ground arith }

run-Capped_example : Capped 1 (run lib (event false) day)
run-Capped_example = run-Capped lib day 1 (event false) (event-IsValid false) event-Capped

run-Remembers_example : Remembers 1 (event false) (run lib (event false) day)
unfolding exists
run-Remembers_example = run-Remembers lib day (event false) 1 (event-IsValid false) refl refl

scored_roster_frozen_example :
    (size (leave (event false) (event false) 1).1 1 ≡ size (event false) 1)
    × ((size (kick (event false) 1 2).1 1 ≡ size (event false) 1)
        × (size (disband (event false) 1).1 1 ≡ size (event false) 1))
unfolding exists
scored_roster_frozen_example = scored_roster_frozen (event false) (event false) 1 2 1 refl

join_denial_iff_example :
    is_denial (join lib (event true) (event true) 3 "beta" secret).0
    ≡ denied lib (event true) "beta" secret
join_denial_iff_example = join_denial_iff lib (event true) (event true) 3 "beta" secret

-- the roster that the password change of user 1 leaves
abbrev reset : Roster
reset = record (event false) {
  users = update_where (has_id 1) set_must_change (event false).users;
  sessions = delete_where (λ owner. owner == 1) (event false).sessions;
  api_tokens = delete_where (λ owner. owner == 1) (event false).api_tokens;
}

password_change_ends_example :
    Sets (event false) 1 set_must_change reset
    × (NoSession 1 reset × (exists (λ owner. owner == 1) reset.api_tokens ≡ false))
unfolding force_password_change
password_change_ends_example = password_change_ends (event false) reset 1 refl

abbrev overlapped : List Request
overlapped =
    Request.team_ban_request 3 2 true ∷ Request.join_request (event false) 3 "beta" secret ∷ []

-- The only admin bans team 2 while a join of theirs, which read the team before, is under way: the
-- instance is left without an admin who can log in.
lost_admin :
    exists
      (usable_admin (run lib (event false) overlapped).teams)
      (run lib (event false) overlapped).users
    ≡ false
unfolding run exists join flagfish.Roster.Player.commit_own flagfish.Roster.Player.join_tx
    set_team_banned
lost_admin = refl

-- a team without a solve, before and after its second member leaves
abbrev unscored : Roster
unscored = record (event false) { solves = [] }

abbrev departed : Roster
departed = (leave unscored unscored 2).1

-- The captain hands the seat to user 2 with a statement that read the users before user 2 left: the
-- team is led by a user who is not on it.
astray :
    exists
      (λ t. led_by 2 t && not (exists (member_of 2 t.id) departed.users))
      (transfer unscored.users departed 1 2).1.teams
    ≡ true
unfolding exists leave transfer
astray = refl
