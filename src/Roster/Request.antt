-- ===== src/Roster/Request.antt =====
-- One request to the roster: each constructor is an operation of internal/accounts/teams.go, or of
-- internal/adminops/teams.go, users.go and team_roster.go. A `seen` roster is what the operation
-- read before its transaction, which other requests can have changed since. A transfer reads the
-- users that it finds: a departure that overlaps its one statement is not a sequence of requests.
use Prim.Native.String.{String}
use flagfish.Prelude.{ℕ, Bool, Option, List, [], ◌∷◌}
use flagfish.Account.{Mode}
use flagfish.Flags.Space.{Bytes}
use flagfish.Roster.{Roster}
use flagfish.Roster.Command.{Patch}
use flagfish.Roster.Player.{Library, create, join}
use flagfish.Roster.Captain.{leave, update_own_team, set_join_secret, kick, transfer, disband}
use flagfish.Roster.Admin.{Done, refused, done, remove_team_member, move_team_member}
use flagfish.Roster.Moderation.{
  Moderated, rejected, applied, NewTeam, set_banned, set_role, set_team_banned, set_user_hidden,
  set_team_hidden, set_verified, verify_all, force_password_change, set_team_join_secret,
  create_team_by_admin, update_team_by_admin,
}

pub data Request : Type 0 where
  create_request : ℕ → String → Bytes → Request
  join_request : Roster → ℕ → String → Bytes → Request
  leave_request : Roster → ℕ → Request
  edit_request : ℕ → Patch → Request
  secret_request : ℕ → Bytes → Request
  kick_request : ℕ → ℕ → Request
  transfer_request : ℕ → ℕ → Request
  disband_request : ℕ → Request
  remove_request : Mode → ℕ → ℕ → Request
  move_request : Mode → ℕ → ℕ → ℕ → Request
  ban_request : ℕ → ℕ → Bool → Request
  role_request : ℕ → Bool → Request
  team_ban_request : ℕ → ℕ → Bool → Request
  hide_request : ℕ → Bool → Request
  team_hide_request : ℕ → Bool → Request
  verify_request : ℕ → Bool → Request
  verify_all_request : Request
  force_request : ℕ → Request
  unlock_request : ℕ → Bytes → Request
  new_team_request : NewTeam → Request
  edit_team_request : ℕ → Option String → Patch → Request

-- the roster after a reply of adminops, which rolls a refusal back
abbrev pub after_done : Roster → Done → Roster
after_done r (refused f) = r
after_done r (done s) = s

abbrev pub after_moderated : Roster → Moderated → Roster
after_moderated r (rejected f) = r
after_moderated r (applied s) = s

unfoldable pub step : Library → Roster → Request → Roster
step lib r (create_request user name password) = (create lib r user name password).1
step lib r (join_request seen user name password) = (join lib seen r user name password).1
step lib r (leave_request seen user) = (leave seen r user).1
step lib r (edit_request user p) = (update_own_team lib r user p).1
step lib r (secret_request user secret) = (set_join_secret lib r user secret).1
step lib r (kick_request user member) = (kick r user member).1
step lib r (transfer_request user heir) = (transfer r.users r user heir).1
step lib r (disband_request user) = (disband r user).1
step lib r (remove_request mode team user) = after_done r (remove_team_member r mode team user)
step lib r (move_request mode from user to) = after_done r (move_team_member r mode from user to)
step lib r (ban_request actor user banned) = after_moderated r (set_banned r actor user banned)
step lib r (role_request user to_admin) = after_moderated r (set_role r user to_admin)
step lib r (team_ban_request actor team banned) =
    after_moderated r (set_team_banned r actor team banned)
step lib r (hide_request user hidden) = after_moderated r (set_user_hidden r user hidden)
step lib r (team_hide_request team hidden) = after_moderated r (set_team_hidden r team hidden)
step lib r (verify_request user verified) = after_moderated r (set_verified r user verified)
step lib r verify_all_request = (verify_all r).1
step lib r (force_request user) = after_moderated r (force_password_change r user)
step lib r (unlock_request team hash) = after_moderated r (set_team_join_secret r team hash)
step lib r (new_team_request n) = after_moderated r (create_team_by_admin lib.lower r n)
step lib r (edit_team_request team name p) =
    after_moderated r (update_team_by_admin lib.lower r team name p)

-- the requests of an event, one after the other
unfoldable pub run : Library → Roster → List Request → Roster
unfolding step
run lib r [] = r
run lib r (q ∷ qs) = run lib (step lib r q) qs
