-- ===== src/Roster/Captain.antt =====
-- `Service` of internal/accounts/teams.go, the operations on a team that exists: leaving it, and
-- what its captain does. The audit stamp of `captainTx` touches none of these tables. An argument
-- `seen` is the roster of the reads outside the transaction.
use flagfish.Prelude.{List, ℕ, Bool, true, false, none, some, ◌==◌, if◌then◌else◌, ◌&&◌}
use flagfish.Rows.{same_id}
use flagfish.Flags.Space.{Bytes}
use flagfish.Roster.{
  UserRow, Roster, SqlError, unique_violation, check_violation, foreign_key_violation, raised,
  touched, leave_team, reassign_captain_after_leave,
}
use flagfish.Roster.Command.{
  kick_member, transfer_captaincy, disband_team, set_join_secret_by_captain, update_team_by_captain,
  Patch,
}
use flagfish.Roster.Reads.{Profile, get_user, team_captain_scored}
use flagfish.Roster.Player.{
  Library, Failure, not_on_team, team_has_scored, not_captain, team_email_taken, target_not_member,
  cannot_kick_self, team_has_history, no_such_user, database, Result, failed, succeeded, Reply,
  hash_join_secret, reply_own_team,
}

-- the transaction of LeaveTeam, on the user's team of the read before it
unfoldable pub leave_tx : Roster → ℕ → ℕ → Result Roster
unfolding leave_team reassign_captain_after_leave
leave_tx r user team = elim (leave_team r user team) [
  | raised e ↦ failed (database e)
  | touched rows left ↦ elim (rows == 0) [
    | true ↦ failed team_has_scored
    | false ↦ elim (reassign_captain_after_leave left team user) [
      | raised e ↦ failed (database e)
      | touched _ after ↦ succeeded after
    ]
  ]
]

abbrev pub commit : Roster → Result Roster → Reply Unit
commit r (failed f) = (failed f, r)
commit r (succeeded after) = (succeeded tt, after)

-- `LeaveTeam`
unfoldable pub leave : Roster → Roster → ℕ → Reply Unit
unfolding get_user leave_tx
leave seen r user = elim (get_user seen user) [
  | none ↦ (failed no_such_user, r)
  | some u ↦ elim u.team_id [
    | none ↦ (failed not_on_team, r)
    | some team ↦ commit r (leave_tx r user team)
  ]
]

-- the answer to a statement that found no team of the caller's to act on
unfoldable pub why_not_captain : Roster → ℕ → Failure
unfolding get_user
why_not_captain r user = elim (get_user r user) [
  | none ↦ no_such_user
  | some u ↦ elim u.team_id [ none ↦ not_on_team | some _ ↦ not_captain ]
]

-- `UpdateOwnTeam`. The name of the constraint is teams_email_uniq: no other one is on its columns.
unfoldable pub update_own_team : Library → Roster → ℕ → Patch → Reply Profile
unfolding update_team_by_captain why_not_captain reply_own_team
update_own_team lib r user p = elim (update_team_by_captain lib.lower r user p) [
  | raised unique_violation ↦ (failed team_email_taken, r)
  | raised check_violation ↦ (failed (database check_violation), r)
  | raised foreign_key_violation ↦ (failed (database foreign_key_violation), r)
  | touched rows after ↦
      if rows == 0 then (failed (why_not_captain r user), r) else reply_own_team after user
]

-- `SetJoinSecret`
unfoldable pub set_join_secret : Library → Roster → ℕ → Bytes → Reply Unit
unfolding hash_join_secret set_join_secret_by_captain why_not_captain
set_join_secret lib r actor secret = elim (hash_join_secret lib secret) [
  | failed f ↦ (failed f, r)
  | succeeded h ↦ elim (set_join_secret_by_captain r h actor) [
    | raised e ↦ (failed (database e), r)
    | touched rows after ↦
        if rows == 0 then (failed (why_not_captain after actor), after) else (succeeded tt, after)
  ]
]

-- the end of rosterRefusal, with the caller's team
unfoldable pub target_refusal : Roster → ℕ → ℕ → Bool → Bool → Failure
unfolding get_user
target_refusal r team target scored_blocks scored = elim (get_user r target) [
  | none ↦ target_not_member
  | some t ↦
      if same_id t.team_id (some team)
      then if scored_blocks && scored then team_has_scored else target_not_member
      else target_not_member
]

-- `rosterRefusal`; a team id whose row is gone is an internal error, which no foreign key allows
unfoldable pub roster_refusal : Roster → ℕ → ℕ → Bool → Failure
unfolding get_user team_captain_scored target_refusal
roster_refusal r captain target scored_blocks = elim (get_user r captain) [
  | none ↦ no_such_user
  | some u ↦ elim u.team_id [
    | none ↦ not_on_team
    | some team ↦ elim (team_captain_scored r team) [
      | none ↦ database foreign_key_violation
      | some info ↦
          if same_id info.captain_id (some captain)
          then target_refusal r team target scored_blocks info.scored
          else not_captain
    ]
  ]
]

-- `KickMember`
unfoldable pub kick : Roster → ℕ → ℕ → Reply Profile
unfolding kick_member roster_refusal reply_own_team
kick r actor member = elim (kick_member r member actor) [
  | raised e ↦ (failed (database e), r)
  | touched rows after ↦
      if rows == 0
      then (
        failed
            (if member == actor then cannot_kick_self else roster_refusal after actor member true),
        after,
      )
      else reply_own_team after actor
]

-- `TransferCaptaincy`, with the users that the EXISTS of its statement reads
unfoldable pub transfer : List UserRow → Roster → ℕ → ℕ → Reply Profile
unfolding transfer_captaincy roster_refusal reply_own_team
transfer seen r actor heir = elim (transfer_captaincy seen r heir actor) [
  | raised e ↦ (failed (database e), r)
  | touched rows after ↦
      if rows == 0
      then (failed (roster_refusal after actor heir false), after)
      else reply_own_team after actor
]

unfoldable pub disband_error : SqlError → Failure
disband_error foreign_key_violation = team_has_history
disband_error unique_violation = database unique_violation
disband_error check_violation = database check_violation

-- `DisbandTeam`
unfoldable pub disband : Roster → ℕ → Reply Unit
unfolding disband_team disband_error why_not_captain
disband r actor = elim (disband_team r actor) [
  | raised e ↦ (failed (disband_error e), r)
  | touched rows after ↦
      if rows == 0 then (failed (why_not_captain after actor), after) else (succeeded tt, after)
]
