-- ===== src/Roster/Admin.antt =====
-- internal/adminops/team_roster.go: an organizer takes a player off a team or moves one to another.
-- The account mode is the instance's; the audit stamp of the transaction touches none of the tables.
use flagfish.Prelude.{
  ℕ, Bool, true, false, not, ◌&&◌, ◌||◌, Option, List, none, some, ◌==◌, if◌then◌else◌,
}
use flagfish.Account.{Mode, users, teams, unknown}
use flagfish.Rows.{count, exists, first}
use flagfish.Roster.{
  UserRow, TeamRow, Roster, SqlError, unique_violation, check_violation, foreign_key_violation,
  raised, touched, has_id, is_team, on_team, enroll_user, adopt_captainless_team,
  reassign_captain_after_leave,
}
use flagfish.Roster.Command.{admin_detach_member}
use flagfish.Roster.Reads.{get_user}

pub data AdminFailure : Type 0 where
  team_not_found user_not_found user_not_on_team team_is_full same_team : AdminFailure
  not_teams_mode last_admin enrolment_missed : AdminFailure
  statement : SqlError → AdminFailure

pub data Done : Type 0 where
  refused : AdminFailure → Done
  done : Roster → Done

-- `zeroRowReason`
unfoldable pub zero_row_reason : Roster → ℕ → ℕ → AdminFailure
unfolding exists get_user
zero_row_reason r team user = elim (exists (is_team team) r.teams) [
  | false ↦ team_not_found
  | true ↦ elim (get_user r user) [ none ↦ user_not_found | some _ ↦ user_not_on_team ]
]

-- `detachMember`
unfoldable pub detach_member : Roster → ℕ → ℕ → Done
unfolding admin_detach_member zero_row_reason reassign_captain_after_leave
detach_member r team user = elim (admin_detach_member r user team) [
  | raised e ↦ refused (statement e)
  | touched rows detached ↦ elim (rows == 0) [
    | true ↦ refused (zero_row_reason detached team user)
    | false ↦ elim (reassign_captain_after_leave detached team user) [
      | raised e ↦ refused (statement e)
      | touched _ after ↦ done after
    ]
  ]
]

-- `COALESCE(t.banned, false)` over the LEFT JOIN of a user's team
abbrev pub on_banned_team : List TeamRow → Option ℕ → Bool
on_banned_team rows none = false
on_banned_team rows (some team) = exists (λ t. is_team team t && t.banned) rows

-- an admin who can log in and administer
abbrev pub usable_admin : List TeamRow → UserRow → Bool
usable_admin rows u = u.is_admin && not u.banned && not (on_banned_team rows u.team_id)

-- `AdminCountOtherAdmins`
unfoldable pub count_other_admins : Roster → ℕ → ℕ
unfolding count
count_other_admins r user = count (λ u. usable_admin r.teams u && not (has_id user u)) r.users

-- `AdminCountAdminsOutsideTeam`
unfoldable pub count_admins_outside_team : Roster → ℕ → ℕ
unfolding count
count_admins_outside_team r team =
    count (λ u. usable_admin r.teams u && not (on_team team u)) r.users

-- `moveConstraint`; the check constraint is users_caps, since the detach left no team to switch from
unfoldable pub move_constraint : SqlError → AdminFailure
move_constraint foreign_key_violation = team_not_found
move_constraint check_violation = team_is_full
move_constraint unique_violation = statement unique_violation

-- `guardAdminOntoBannedTeam`: `none` lets the move pass. The lock on the admin roster is held.
unfoldable pub guard_admin_onto_banned_team : Roster → ℕ → ℕ → Option AdminFailure
unfolding get_user first count_other_admins
guard_admin_onto_banned_team r user to = elim (get_user r user) [
  | none ↦ some user_not_found
  | some target ↦
      if not target.is_admin || target.banned then none else elim (first (is_team to) r.teams) [
        | none ↦ some team_not_found
        | some t ↦
            if not t.banned
            then none
            else if count_other_admins r user == 0
            then some last_admin
            else none
      ]
]

-- the join leg of a move, after the detach
unfoldable pub attach_member : Roster → ℕ → ℕ → Done
unfolding enroll_user move_constraint adopt_captainless_team
attach_member r team user = elim (enroll_user r team user) [
  | raised e ↦ refused (move_constraint e)
  | touched rows enrolled ↦ elim (rows == 0) [
    | true ↦ refused enrolment_missed
    | false ↦ elim (adopt_captainless_team enrolled user team) [
      | raised e ↦ refused (statement e)
      | touched _ after ↦ done after
    ]
  ]
]

-- `RemoveTeamMember`
unfoldable pub remove_team_member : Roster → Mode → ℕ → ℕ → Done
unfolding detach_member
remove_team_member r teams team user = detach_member r team user
remove_team_member r users team user = refused not_teams_mode
remove_team_member r unknown team user = refused not_teams_mode

unfoldable pub move_tx : Roster → ℕ → ℕ → ℕ → Done
unfolding guard_admin_onto_banned_team detach_member attach_member
move_tx r from user to = elim (guard_admin_onto_banned_team r user to) [
  | some f ↦ refused f
  | none ↦ elim (detach_member r from user) [
    | refused f ↦ refused f
    | done detached ↦ attach_member detached to user
  ]
]

-- `MoveTeamMember`
unfoldable pub move_team_member : Roster → Mode → ℕ → ℕ → ℕ → Done
unfolding move_tx
move_team_member r teams from user to =
    if from == to then refused same_team else move_tx r from user to
move_team_member r users from user to = refused not_teams_mode
move_team_member r unknown from user to = refused not_teams_mode
