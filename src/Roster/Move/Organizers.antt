-- ===== src/Roster/Move/Organizers.antt =====
-- Every request, of a player, a captain or an organizer, is a sequence of moves.

use flagfish.Prelude.{◌≡◌, Bool, true}
use flagfish.Roster.{Roster}
use flagfish.Roster.Player.{Library}
use flagfish.Roster.Request.{Request, step}
use flagfish.Roster.Valid.{IsValid}
use flagfish.Roster.Move.{Moves}
use flagfish.Roster.Move.Players.{
  Current, create-Moves, join-Moves, leave-Moves, update_own_team-Moves, set_join_secret-Moves,
  kick-Moves, transfer-Moves, disband-Moves,
}
use flagfish.Roster.Move.Repairs.{move-Moves, remove-Moves}
use flagfish.Roster.Move.Moderators.{
  create_team_by_admin-Moves, force-Moves, set_banned-Moves, set_hidden-Moves, set_role-Moves,
  set_team_banned-Moves, set_team_hidden-Moves, set_verified-Moves, unlock-Moves,
  update_team_by_admin-Moves, verify_all-Moves,
}

module _ (b : Bool) where
  -- the condition on a careful join: the team that it read is not banned since
  abbrev pub Careful : Roster → Request → Type 0
  Careful r (Request.join_request seen user name password) = b ≡ true → Current seen r name
  Careful r _ = Unit

  -- Every request, refused or not, is a sequence of moves.
  pub step-Moves :
      (lib : Library) (r : Roster) (q : Request)
      → IsValid r
      → Careful r q
      → Moves b r (step lib r q)
  unfolding step
  step-Moves lib r (Request.create_request user name password) valid c =
      create-Moves b lib r user name password
  step-Moves lib r (Request.join_request seen user name password) valid c =
      join-Moves b lib seen r user name password c
  step-Moves lib r (Request.leave_request seen user) valid c = leave-Moves b seen r user
  step-Moves lib r (Request.edit_request user p) valid c = update_own_team-Moves b lib r user p
  step-Moves lib r (Request.secret_request user secret) valid c =
      set_join_secret-Moves b lib r user secret
  step-Moves lib r (Request.kick_request user member) valid c = kick-Moves b r user member
  step-Moves lib r (Request.transfer_request user heir) valid c = transfer-Moves b r user heir
  step-Moves lib r (Request.disband_request user) valid c = disband-Moves b r user
  step-Moves lib r (Request.remove_request mode team user) valid c = remove-Moves b r mode team user
  step-Moves lib r (Request.move_request mode from user to) valid c =
      move-Moves b r mode from user to valid
  step-Moves lib r (Request.ban_request actor user flag) valid c =
      set_banned-Moves b r actor user flag valid
  step-Moves lib r (Request.role_request user flag) valid c = set_role-Moves b r user flag
  step-Moves lib r (Request.team_ban_request actor team flag) valid c =
      set_team_banned-Moves b r actor team flag
  step-Moves lib r (Request.hide_request user flag) valid c = set_hidden-Moves b r user flag
  step-Moves lib r (Request.team_hide_request team flag) valid c =
      set_team_hidden-Moves b r team flag
  step-Moves lib r (Request.verify_request user flag) valid c = set_verified-Moves b r user flag
  step-Moves lib r Request.verify_all_request valid c = verify_all-Moves b r
  step-Moves lib r (Request.force_request user) valid c = force-Moves b r user
  step-Moves lib r (Request.unlock_request team hash) valid c = unlock-Moves b r team hash
  step-Moves lib r (Request.new_team_request n) valid c = create_team_by_admin-Moves b lib.lower r n
  step-Moves lib r (Request.edit_team_request team name p) valid c =
      update_team_by_admin-Moves b lib.lower r team name p
