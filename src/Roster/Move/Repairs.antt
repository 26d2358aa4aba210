-- ===== src/Roster/Move/Repairs.antt =====
-- internal/adminops/team_roster.go: the repairs of a roster are sequences of moves.

use flagfish.Prelude.{ℕ, ◌≡◌, Bool, true, false, none, arith}
use flagfish.Account.{Mode, users, teams, unknown}
use flagfish.Rows.{count, exists}
use flagfish.Roster.{
  Roster, is_team, on_team, teamless_with_id, reached, enroll_user, adopt_captainless_team,
  reassign_captain_after_leave,
}
use flagfish.Roster.Command.{member_of, admin_detach_member}
use flagfish.Roster.Admin.{
  guard_admin_onto_banned_team, Done, refused, done, detach_member, attach_member, move_tx,
  remove_team_member, move_team_member,
}
use flagfish.Roster.Request.{after_done}
use flagfish.Roster.Valid.{IsValid}
use flagfish.Roster.Move.{detached, joins, Moves, stay, Moves-trans}
use flagfish.Roster.Move.Admins.{Harmless, Harmless-departed, joined_spare}
use flagfish.Roster.Move.Guards.{guard-Harmless}
use flagfish.Roster.Move.{move, halt}

-- a reply of adminops whose commit is reached by moves
abbrev Ok : Bool → Roster → Done → Type 0
Ok b r (refused f) = Unit
Ok b r (done s) = Moves b r s

abbrev HarmlessAfter : Done → ℕ → ℕ → Type 0
HarmlessAfter (refused f) user to = Unit
HarmlessAfter (done s) user to = Harmless s user to

detach_member-Harmless :
    (r : Roster) (from user to : ℕ)
    → Harmless r user to
    → HarmlessAfter (detach_member r from user) user to
unfolding detach_member admin_detach_member reassign_captain_after_leave
detach_member-Harmless r from user to harmless =
    ground (arith, Harmless-departed (member_of user from) r user from to (λ u e. e) harmless)

module _ (b : Bool) where
  detach_member-Ok : (r : Roster) (team user : ℕ) → Ok b r (detach_member r team user)
  unfolding detach_member admin_detach_member reassign_captain_after_leave
  detach_member-Ok r team user = ground (arith, move b (detached {r = r} user team))

  attach_member-Ok :
      (r : Roster) (team user : ℕ) → Harmless r user team → Ok b r (attach_member r team user)
  unfolding attach_member enroll_user adopt_captainless_team
  attach_member-Ok r team user harmless = ground (
    arith,
    λ (there : exists (teamless_with_id user) r.users ≡ true)
          (room : reached r.team_size (count (on_team team) r.users) ≡ false)
          (stands : exists (is_team team) r.teams ≡ true).
        move b (
          joins {r = r} user team (record { there = there; room = room }) stands
            (λ careful. joined_spare r user team harmless)),
  )

  after_done-Moves : (r : Roster) (x : Done) → Ok b r x → Moves b r (after_done r x)
  after_done-Moves r (refused f) ok = stay
  after_done-Moves r (done s) ok = ok

  Ok-trans : (r s : Roster) (x : Done) → Moves b r s → Ok b s x → Ok b r x
  Ok-trans r s (refused f) ms ok = tt
  Ok-trans r s (done u) ms ok = Moves-trans ms ok

  -- the second leg of a move, on what the first leg did
  attach_after-Ok :
      (r : Roster) (x : Done) (to user : ℕ)
      → Ok b r x
      → HarmlessAfter x user to
      → Ok b r (elim x [ refused f ↦ refused f | done s ↦ attach_member s to user ])
  attach_after-Ok r (refused f) to user ok harmless = tt
  attach_after-Ok r (done s) to user ok harmless =
      Ok-trans r s (attach_member s to user) ok (attach_member-Ok s to user harmless)

  move_tx-Ok : (r : Roster) (from user to : ℕ) → IsValid r → Ok b r (move_tx r from user to)
  unfolding move_tx
  move_tx-Ok r from user to valid = ground (
    arith,
    λ (passes : guard_admin_onto_banned_team r user to ≡ none).
        attach_after-Ok r (detach_member r from user) to user (detach_member-Ok r from user)
          (detach_member-Harmless r from user to (guard-Harmless r user to valid passes)),
  )

  pub remove-Moves :
      (r : Roster) (mode : Mode) (team user : ℕ)
      → Moves b r (after_done r (remove_team_member r mode team user))
  unfolding remove_team_member
  remove-Moves r teams team user =
      after_done-Moves r (detach_member r team user) (detach_member-Ok r team user)
  remove-Moves r users team user = stay
  remove-Moves r unknown team user = stay

  pub move-Moves :
      (r : Roster) (mode : Mode) (from user to : ℕ)
      → IsValid r
      → Moves b r (after_done r (move_team_member r mode from user to))
  unfolding move_team_member
  move-Moves r teams from user to valid = ground (
    arith,
    halt b r,
    after_done-Moves r (move_tx r from user to) (move_tx-Ok r from user to valid),
  )
  move-Moves r users from user to valid = stay
  move-Moves r unknown from user to valid = stay
