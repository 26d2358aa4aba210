-- ===== src/Roster/Command.antt =====
-- internal/db/teams.sql.gen.go and team_roster.sql.gen.go: the statements behind the requests of a
-- captain, and the two that repair a team for an organizer or rehash its password.
use Prim.Native.String.{String}
use text.Mathlib.Text.{◌==◌ as str_eq}
use flagfish.Prelude.{
  ℕ, Bool, true, false, not, ◌&&◌, ◌||◌, Option, none, some, List, ◌==◌, if◌then◌else◌,
}
use flagfish.Rows.{count, exists, update_where, delete_where}
use flagfish.Flags.Space.{Bytes}
use flagfish.Roster.{
  Outcome, Roster, TeamRow, UserRow, for_team, foreign_key_violation, has_id, is_team, led_by,
  led_team, on_team, raised, set_teams, set_users, team_scored, touched, unique_violation,
  with_captain, with_hash, with_team,
}

-- `EXISTS (SELECT 1 FROM teams t WHERE t.id = m.team_id AND t.captain_id = ..)`
abbrev pub commands : List TeamRow → ℕ → Option ℕ → Bool
commands teams captain none = false
commands teams captain (some team) = exists (led_team team captain) teams

abbrev pub may_kick : Roster → ℕ → ℕ → UserRow → Bool
may_kick r member captain m =
    has_id member m
    && not (m.id == captain)
    && (commands r.teams captain m.team_id && not (team_scored r.solves m.team_id))

-- `KickMember`
unfoldable pub kick_member : Roster → ℕ → ℕ → Outcome
unfolding count update_where
kick_member r member captain =
    touched (count (may_kick r member captain) r.users)
      (set_users r (update_where (may_kick r member captain) (with_team none) r.users))

abbrev pub member_of : ℕ → ℕ → UserRow → Bool
member_of user team u = has_id user u && on_team team u

abbrev pub may_transfer : List UserRow → ℕ → ℕ → TeamRow → Bool
may_transfer users heir captain t = led_by captain t && exists (member_of heir t.id) users

-- `TransferCaptaincy`. The EXISTS locks no row of users: `seen` is the table that it reads, which a
-- concurrent departure can have changed since.
unfoldable pub transfer_captaincy : List UserRow → Roster → ℕ → ℕ → Outcome
unfolding count update_where
transfer_captaincy seen r heir captain =
    touched (count (may_transfer seen heir captain) r.teams) (
      set_teams r
        (update_where (may_transfer seen heir captain) (with_captain (some heir)) r.teams))

-- `t.id = (SELECT u.team_id FROM users u WHERE u.id = ..) AND t.captain_id = ..`
abbrev pub may_disband : List UserRow → ℕ → TeamRow → Bool
may_disband users captain t = led_by captain t && exists (member_of captain t.id) users

-- the RESTRICT foreign keys of the ledger
abbrev pub has_history : Roster → TeamRow → Bool
has_history r t =
    exists (for_team t.id) r.submissions
    || exists (for_team t.id) r.solves
    || (exists (for_team t.id) r.awards || exists (for_team t.id) r.hint_unlocks)

abbrev pub in_some : (TeamRow → Bool) → List TeamRow → Option ℕ → Bool
in_some test teams none = false
in_some test teams (some team) = exists (λ t. test t && is_team team t) teams

-- the rows of users that ON DELETE SET NULL reaches
abbrev pub orphaned : (TeamRow → Bool) → List TeamRow → UserRow → Bool
orphaned test teams u = in_some test teams u.team_id

-- `DisbandTeam`
unfoldable pub disband_team : Roster → ℕ → Outcome
unfolding count exists update_where delete_where
disband_team r captain =
    if exists (λ t. may_disband r.users captain t && has_history r t) r.teams
    then raised foreign_key_violation
    else touched (count (may_disband r.users captain) r.teams) (record r {
      users =
          update_where (orphaned (may_disband r.users captain) r.teams) (with_team none) r.users;
      teams = delete_where (may_disband r.users captain) r.teams;
    })

-- `SetJoinSecretByCaptain`
unfoldable pub set_join_secret_by_captain : Roster → Bytes → ℕ → Outcome
unfolding count update_where
set_join_secret_by_captain r hash captain =
    touched (count (led_by captain) r.teams)
      (set_teams r (update_where (led_by captain) (with_hash hash) r.teams))

-- `UpdateTeamPasswordHash`
unfoldable pub update_team_password_hash : Roster → ℕ → Bytes → Roster
unfolding update_where
update_team_password_hash r team hash =
    set_teams r (update_where (is_team team) (with_hash hash) r.teams)

-- `AdminDetachMember`
unfoldable pub admin_detach_member : Roster → ℕ → ℕ → Outcome
unfolding count update_where
admin_detach_member r user team =
    touched (count (member_of user team) r.users)
      (set_users r (update_where (member_of user team) (with_team none) r.users))

-- `TeamPatch`
pub record Patch : Type 0 where
  pub email : Option String
  pub website : Option String
  pub affiliation : Option String
  pub country : Option String
  pub clear_email : Bool
  pub clear_website : Bool
  pub clear_affiliation : Bool
  pub clear_country : Bool

-- `CASE WHEN clear THEN NULL ELSE COALESCE(new, old) END`
unfoldable pub patched : Bool → Option String → Option String → Option String
patched true new old = none
patched false none old = old
patched false (some s) old = some s

unfoldable pub apply_patch : Patch → TeamRow → TeamRow
unfolding patched
apply_patch p t = record t {
  email = patched p.clear_email p.email t.email;
  website = patched p.clear_website p.website t.website;
  affiliation = patched p.clear_affiliation p.affiliation t.affiliation;
  country = patched p.clear_country p.country t.country;
}

-- two emails that teams_email_uniq takes for one, by the database's `lower`
abbrev pub same_email : (String → String) → Option String → Option String → Bool
same_email lower none b = false
same_email lower (some a) none = false
same_email lower (some a) (some b) = str_eq (lower a) (lower b)

abbrev pub email_clash : (String → String) → List TeamRow → TeamRow → Bool
email_clash lower teams t =
    exists (λ o. not (o.id == t.id) && same_email lower o.email t.email) teams

-- `UpdateTeamByCaptain`
unfoldable pub update_team_by_captain : (String → String) → Roster → ℕ → Patch → Outcome
unfolding count exists update_where apply_patch
update_team_by_captain lower r user p =
    if exists (λ t. may_disband r.users user t && email_clash lower r.teams (apply_patch p t))
      r.teams
    then raised unique_violation
    else touched (count (may_disband r.users user) r.teams)
        (set_teams r (update_where (may_disband r.users user) (apply_patch p) r.teams))
