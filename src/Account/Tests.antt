-- ===== src/Account/Tests.antt =====
-- Memberships at each side of the team id.
use flagfish.Prelude.{◌≡◌, ◌↔◌, some}
use flagfish.Account.{teams, Membership, mode_name, parse_mode}
use flagfish.Account.Resolve.{parse_mode-mode_name}

abbrev member_of_9 : Membership
member_of_9 = record { user_id = 4; team_id = some 9 }

abbrev unaffiliated : Membership
unaffiliated = record { user_id = 4; team_id = some 0 }

parse_mode-mode_name_example : (parse_mode "teams" ≡ some teams) ↔ (mode_name teams ≡ some "teams")
parse_mode-mode_name_example = parse_mode-mode_name teams "teams"
