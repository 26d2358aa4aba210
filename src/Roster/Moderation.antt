-- ===== src/Roster/Moderation.antt =====
-- internal/adminops/users.go and teams.go: what an organizer does to one user or one team, with the
-- statements of internal/db/admin.sql.gen.go, admin_verification.sql.gen.go and auth.sql.gen.go that
-- they run. Each runs in one transaction. `seen` is the roster after the lock on the admin roster.
use Prim.Native.String.{String}
use flagfish.Prelude.{
  ℕ, Bool, true, false, not, ◌&&◌, Option, none, some, List, ◌==◌, if◌then◌else◌,
}
use flagfish.Rows.{same_id, count, exists, update_where, delete_where}
use flagfish.Flags.Space.{Bytes}
use flagfish.Roster.{
  UserRow, TeamRow, Roster, reached, has_id, is_team, on_team, named, is_listed, set_users,
  set_teams, add_team, with_hash,
}
use flagfish.Roster.Command.{Patch, apply_patch, email_clash}
use flagfish.Roster.Reads.{get_user}
use flagfish.Roster.Admin.{
  AdminFailure, team_not_found, user_not_found, last_admin, count_other_admins,
  count_admins_outside_team,
}

pub data ModerationFailure : Type 0 where
  self_ban self_team_ban no_actor : ModerationFailure
  team_name_taken team_email_taken team_cap_reached : ModerationFailure
  admin : AdminFailure → ModerationFailure

pub data Moderated : Type 0 where
  rejected : ModerationFailure → Moderated
  applied : Roster → Moderated

abbrev pub set_banned_flag : Bool → UserRow → UserRow
set_banned_flag b u = record u { banned = b }

abbrev pub set_team_banned_flag : Bool → TeamRow → TeamRow
set_team_banned_flag b t = record t { banned = b }

abbrev pub set_role_flag : Bool → UserRow → UserRow
set_role_flag b u = record u { is_admin = b }

abbrev pub set_hidden_flag : Bool → UserRow → UserRow
set_hidden_flag b u = record u { hidden = b }

abbrev pub set_team_hidden_flag : Bool → TeamRow → TeamRow
set_team_hidden_flag b t = record t { hidden = b }

abbrev pub set_verified_flag : Bool → UserRow → UserRow
set_verified_flag b u = record u { verified = b }

abbrev pub set_must_change : UserRow → UserRow
set_must_change u = record u { must_change_password = true }

-- UPDATE users SET .. WHERE id = .., and ErrUserNotFound on no row
unfoldable pub update_user_row : Roster → ℕ → (UserRow → UserRow) → Moderated
unfolding exists update_where
update_user_row r user set =
    if exists (has_id user) r.users
    then applied (set_users r (update_where (has_id user) set r.users))
    else rejected (admin user_not_found)

-- UPDATE teams SET .. WHERE id = .., and ErrTeamNotFound on no row
unfoldable pub update_team_row : Roster → ℕ → (TeamRow → TeamRow) → Moderated
unfolding exists update_where
update_team_row r team set =
    if exists (is_team team) r.teams
    then applied (set_teams r (update_where (is_team team) set r.teams))
    else rejected (admin team_not_found)

-- `DeleteUserSessions`
abbrev pub delete_user_sessions : ℕ → Roster → Roster
delete_user_sessions user r = record r {
  sessions = delete_where (λ owner. owner == user) r.sessions;
}

-- `DeleteUserAPITokens`, and the count that it reports
abbrev pub delete_user_api_tokens : ℕ → Roster → Roster
delete_user_api_tokens user r = record r {
  api_tokens = delete_where (λ owner. owner == user) r.api_tokens;
}

-- `DeleteTeamSessions`
abbrev pub on_team_id : List UserRow → ℕ → ℕ → Bool
on_team_id users team owner = exists (λ u. has_id owner u && on_team team u) users

abbrev pub delete_team_sessions : ℕ → Roster → Roster
delete_team_sessions team r = record r {
  sessions = delete_where (on_team_id r.users team) r.sessions;
}

unfoldable pub then_apply : (Roster → Roster) → Moderated → Moderated
then_apply f (rejected e) = rejected e
then_apply f (applied r) = applied (f r)

-- what SetBanned checks before a ban; `none` lets it pass
unfoldable pub ban_guard : Roster → ℕ → Option ModerationFailure
unfolding get_user count_other_admins
ban_guard r user = elim (get_user r user) [
  | none ↦ some (admin user_not_found)
  | some target ↦
      if target.is_admin && not target.banned
      then if count_other_admins r user == 0 then some (admin last_admin) else none
      else none
]

unfoldable pub ban_user : Roster → ℕ → Moderated
unfolding ban_guard update_user_row then_apply
ban_user r user = elim (ban_guard r user) [
  | some f ↦ rejected f
  | none ↦ then_apply (delete_user_sessions user) (update_user_row r user (set_banned_flag true))
]

-- `SetBanned`
unfoldable pub set_banned : Roster → ℕ → ℕ → Bool → Moderated
unfolding ban_user update_user_row
set_banned r actor user banned = elim banned [
  | true ↦ if actor == user then rejected self_ban else ban_user r user
  | false ↦ update_user_row r user (set_banned_flag false)
]

-- `SetRole`, with whether the role is "admin"; a role that is neither is refused by a CHECK
unfoldable pub set_role : Roster → ℕ → Bool → Moderated
unfolding count_other_admins update_user_row
set_role r user to_admin =
    if not to_admin && count_other_admins r user == 0
    then rejected (admin last_admin)
    else update_user_row r user (set_role_flag to_admin)

-- what SetTeamBanned checks before a ban
unfoldable pub team_ban_guard : Roster → ℕ → ℕ → Option ModerationFailure
unfolding get_user count_admins_outside_team
team_ban_guard r actor team = elim (get_user r actor) [
  | none ↦ some no_actor
  | some u ↦
      if same_id u.team_id (some team)
      then some self_team_ban
      else if count_admins_outside_team r team == 0
      then some (admin last_admin)
      else none
]

unfoldable pub ban_team : Roster → ℕ → ℕ → Moderated
unfolding team_ban_guard update_team_row then_apply
ban_team r actor team = elim (team_ban_guard r actor team) [
  | some f ↦ rejected f
  | none ↦
      then_apply (delete_team_sessions team) (update_team_row r team (set_team_banned_flag true))
]

-- `SetTeamBanned`
unfoldable pub set_team_banned : Roster → ℕ → ℕ → Bool → Moderated
unfolding ban_team update_team_row
set_team_banned r actor team banned = elim banned [
  | true ↦ ban_team r actor team
  | false ↦ update_team_row r team (set_team_banned_flag false)
]

-- `SetUserHidden`
unfoldable pub set_user_hidden : Roster → ℕ → Bool → Moderated
unfolding update_user_row
set_user_hidden r user hidden = update_user_row r user (set_hidden_flag hidden)

-- `SetTeamHidden`
unfoldable pub set_team_hidden : Roster → ℕ → Bool → Moderated
unfolding update_team_row
set_team_hidden r team hidden = update_team_row r team (set_team_hidden_flag hidden)

-- `SetVerified`
unfoldable pub set_verified : Roster → ℕ → Bool → Moderated
unfolding update_user_row
set_verified r user verified = update_user_row r user (set_verified_flag verified)

-- `VerifyAll`
unfoldable pub verify_all : Roster → ℕ × Roster
unfolding count update_where
verify_all r = (
  count (λ u. not u.verified) r.users,
  set_users r (update_where (λ u. not u.verified) (set_verified_flag true) r.users),
)

-- `ForcePasswordChange`
unfoldable pub force_password_change : Roster → ℕ → Moderated
unfolding update_user_row then_apply
force_password_change r user =
    then_apply (λ s. delete_user_api_tokens user (delete_user_sessions user s))
      (update_user_row r user set_must_change)

-- `SetTeamJoinSecret`
unfoldable pub set_team_join_secret : Roster → ℕ → Bytes → Moderated
unfolding update_team_row
set_team_join_secret r team hash = update_team_row r team (with_hash hash)

-- `NewTeam`, without the password that the handler has hashed
pub record NewTeam : Type 0 where
  pub name : String
  pub password_hash : Bytes
  pub email : Option String
  pub website : Option String
  pub affiliation : Option String
  pub country : Option String

abbrev pub admin_team : Roster → NewTeam → TeamRow
admin_team r n = record {
  id = r.team_seq;
  name = n.name;
  email = n.email;
  password_hash = n.password_hash;
  website = n.website;
  affiliation = n.affiliation;
  country = n.country;
  captain_id = none;
  hidden = false;
  banned = false;
}

-- `AdminCreateTeam` and `teamConstraint`: the caps trigger, then the indexes in the order of creation
unfoldable pub create_team_by_admin : (String → String) → Roster → NewTeam → Moderated
unfolding reached count exists
create_team_by_admin lower r n =
    if reached r.num_teams (count is_listed r.teams)
    then rejected team_cap_reached
    else if email_clash lower r.teams (admin_team r n)
    then rejected team_email_taken
    else if exists (named n.name) r.teams
    then rejected team_name_taken
    else applied (add_team r (admin_team r n))

-- `COALESCE(name, t.name)` beside the columns of a captain's patch
unfoldable pub apply_admin_patch : Option String → Patch → TeamRow → TeamRow
unfolding apply_patch
apply_admin_patch none p t = apply_patch p t
apply_admin_patch (some name) p t = record (apply_patch p t) { name = name }

abbrev pub name_clash : List TeamRow → TeamRow → Bool
name_clash rows t = exists (λ o. not (o.id == t.id) && named t.name o) rows

-- `UpdateTeam` of the organizer
unfoldable pub update_team_by_admin :
    (String → String) → Roster → ℕ → Option String → Patch → Moderated
unfolding exists update_team_row apply_admin_patch
update_team_by_admin lower r team name p =
    if exists (λ t. is_team team t && email_clash lower r.teams (apply_admin_patch name p t))
      r.teams
    then rejected team_email_taken
    else if exists (λ t. is_team team t && name_clash r.teams (apply_admin_patch name p t)) r.teams
    then rejected team_name_taken
    else update_team_row r team (apply_admin_patch name p)
