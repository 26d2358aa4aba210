-- ===== src/Roster/Move/Moderators.antt =====
-- internal/adminops/users.go and teams.go: moderation is a sequence of moves.
use Prim.Native.String.{String}
use flagfish.Prelude.{
  ℕ, ◌≡◌, refl, Bool, true, false, not, ◌&&◌, Option, none, some, arith, Option-cases, inl, inr,
  ◌==◌,
}
use flagfish.Rows.{update_where}
use flagfish.Rows.Laws.{exists-map}
use flagfish.Rows.Kept.{exists-update_false}
use flagfish.Flags.Space.{Bytes}
use flagfish.Roster.{UserRow, TeamRow, Roster, has_id, is_team, set_users, set_teams, with_hash}
use flagfish.Roster.Command.{Patch, apply_patch}
use flagfish.Roster.Admin.{count_other_admins, usable_admin}
use flagfish.Roster.Moderation.{
  Moderated, rejected, applied, NewTeam, admin_team, update_user_row, update_team_row, then_apply,
  ban_user, ban_guard, team_ban_guard, set_banned, set_role, ban_team, set_team_banned,
  set_user_hidden, set_team_hidden, set_verified, set_verified_flag, verify_all,
  force_password_change, set_team_join_secret, create_team_by_admin, apply_admin_patch,
  update_team_by_admin, delete_user_sessions, delete_team_sessions, set_banned_flag,
  set_team_banned_flag, set_role_flag, set_hidden_flag, set_team_hidden_flag, set_must_change,
}
use flagfish.Roster.Request.{after_moderated}
use flagfish.Roster.Valid.{IsValid}
use flagfish.Roster.Move.{
  Spares, opens, edits_users, edits_teams, signs_out, Moves, stay, Moves-trans,
}
use flagfish.Roster.Move.Admins.{banned_with, users_spare, teams_spare}
use flagfish.Roster.Move.Guards.{ban_guard_spare, role_spare, team_ban_guard_spare}
use flagfish.Roster.Move.{move, halt}

unban_spare :
    (r : Roster) (team : ℕ)
    → Spares r (set_teams r (update_where (is_team team) (set_team_banned_flag false) r.teams))
unban_spare r team some_admin =
    exists-map (usable_admin r.teams)
      (usable_admin (update_where (is_team team) (set_team_banned_flag false) r.teams)) r.users
      (λ u e. unbanned u e) some_admin
  where
    unbanned :
        (u : UserRow)
        → usable_admin r.teams u ≡ true
        → usable_admin (update_where (is_team team) (set_team_banned_flag false) r.teams) u ≡ true
    unbanned u e = elim (Option-cases u.team_id) [
      | inl teamless ↦ ground (arith, e, teamless)
      | inr (k, on) ↦ ground (
        arith,
        e,
        on,
        exists-update_false (banned_with k) (is_team team) (set_team_banned_flag false) r.teams
            (λ t h. ground arith),
      )
    ]

admin_patch_keeps :
    (name : Option String) (p : Patch) (t : TeamRow)
    → ((apply_admin_patch name p t).id ≡ t.id)
      × (((apply_admin_patch name p t).captain_id ≡ t.captain_id)
          × ((apply_admin_patch name p t).banned ≡ t.banned))
unfolding apply_admin_patch apply_patch
admin_patch_keeps none p t = (refl, (refl, refl))
admin_patch_keeps (some name) p t = (refl, (refl, refl))

module _ (b : Bool) where
  update_user_row-Moves :
      (r : Roster) (user : ℕ) (set : UserRow → UserRow)
      → ((u : UserRow) → (set u).id ≡ u.id)
      → ((u : UserRow) → (set u).team_id ≡ u.team_id)
      → Spares r (set_users r (update_where (has_id user) set r.users))
      → Moves b r (after_moderated r (update_user_row r user set))
  unfolding update_user_row
  update_user_row-Moves r user set same_key same_team spares =
      ground
        (arith, halt b r, move b (edits_users {r = r} (has_id user) set same_key same_team spares))

  update_team_row-Moves :
      (r : Roster) (team : ℕ) (set : TeamRow → TeamRow)
      → ((t : TeamRow) → (set t).id ≡ t.id)
      → ((t : TeamRow) → (set t).captain_id ≡ t.captain_id)
      → Spares r (set_teams r (update_where (is_team team) set r.teams))
      → Moves b r (after_moderated r (update_team_row r team set))
  unfolding update_team_row
  update_team_row-Moves r team set same_key same_seat spares =
      ground
        (arith, halt b r, move b (edits_teams {r = r} (is_team team) set same_key same_seat spares))

  then_apply-Moves :
      (f : Roster → Roster) (r : Roster) (x : Moderated)
      → ((s : Roster) → Moves b s (f s))
      → Moves b r (after_moderated r x)
      → Moves b r (after_moderated r (then_apply f x))
  unfolding then_apply
  then_apply-Moves f r (rejected e) signs ok = stay
  then_apply-Moves f r (applied s) signs ok = Moves-trans ok (signs s)

  ban_user-Moves :
      (r : Roster) (user : ℕ) → IsValid r → Moves b r (after_moderated r (ban_user r user))
  unfolding ban_user
  ban_user-Moves r user valid = ground (
    arith,
    halt b r,
    λ (passes : ban_guard r user ≡ none).
        then_apply-Moves (delete_user_sessions user) r
          (update_user_row r user (set_banned_flag true))
          (λ s. move b (signs_out (delete_user_sessions user s).sessions s.api_tokens))
          (update_user_row-Moves r user (set_banned_flag true) (λ u. refl) (λ u. refl)
            (ban_guard_spare r user valid passes)),
  )

  ban_team-Moves :
      (r : Roster) (actor team : ℕ) → Moves b r (after_moderated r (ban_team r actor team))
  unfolding ban_team
  ban_team-Moves r actor team = ground (
    arith,
    halt b r,
    λ (passes : team_ban_guard r actor team ≡ none).
        then_apply-Moves (delete_team_sessions team) r
          (update_team_row r team (set_team_banned_flag true))
          (λ s. move b (signs_out (delete_team_sessions team s).sessions s.api_tokens))
          (update_team_row-Moves r team (set_team_banned_flag true) (λ t. refl) (λ t. refl)
            (team_ban_guard_spare r actor team passes)),
  )

  pub set_banned-Moves :
      (r : Roster) (actor user : ℕ) (banned : Bool)
      → IsValid r
      → Moves b r (after_moderated r (set_banned r actor user banned))
  unfolding set_banned
  set_banned-Moves r actor user true valid = ground (arith, halt b r, ban_user-Moves r user valid)
  set_banned-Moves r actor user false valid =
      update_user_row-Moves r user (set_banned_flag false) (λ u. refl) (λ u. refl)
        (users_spare (has_id user) (set_banned_flag false) r (λ u e h. ground (arith, e)))

  pub set_team_banned-Moves :
      (r : Roster) (actor team : ℕ) (banned : Bool)
      → Moves b r (after_moderated r (set_team_banned r actor team banned))
  unfolding set_team_banned
  set_team_banned-Moves r actor team true = ban_team-Moves r actor team
  set_team_banned-Moves r actor team false =
      update_team_row-Moves r team (set_team_banned_flag false) (λ t. refl) (λ t. refl)
        (unban_spare r team)

  pub set_role-Moves :
      (r : Roster) (user : ℕ) (to_admin : Bool)
      → Moves b r (after_moderated r (set_role r user to_admin))
  unfolding set_role
  set_role-Moves r user to_admin = ground (
    arith,
    halt b r,
    λ (passes : (not to_admin && count_other_admins r user == 0) ≡ false).
        update_user_row-Moves r user (set_role_flag to_admin) (λ u. refl) (λ u. refl)
          (role_spare r user to_admin passes),
  )

  pub force-Moves :
      (r : Roster) (user : ℕ) → Moves b r (after_moderated r (force_password_change r user))
  unfolding force_password_change
  force-Moves r user =
      then_apply-Moves _ r (update_user_row r user set_must_change) (λ s. move b (signs_out _ _))
        (update_user_row-Moves r user set_must_change (λ u. refl) (λ u. refl)
          (users_spare (has_id user) set_must_change r (λ u e h. ground (arith, e))))

  pub set_hidden-Moves :
      (r : Roster) (user : ℕ) (flag : Bool)
      → Moves b r (after_moderated r (set_user_hidden r user flag))
  unfolding set_user_hidden
  set_hidden-Moves r user flag =
      update_user_row-Moves r user (set_hidden_flag flag) (λ u. refl) (λ u. refl)
        (users_spare (has_id user) (set_hidden_flag flag) r (λ u e h. ground (arith, e)))

  pub set_team_hidden-Moves :
      (r : Roster) (team : ℕ) (flag : Bool)
      → Moves b r (after_moderated r (set_team_hidden r team flag))
  unfolding set_team_hidden
  set_team_hidden-Moves r team flag =
      update_team_row-Moves r team (set_team_hidden_flag flag) (λ t. refl) (λ t. refl)
        (teams_spare (is_team team) (set_team_hidden_flag flag) r (λ t. refl) (λ t. refl))

  pub set_verified-Moves :
      (r : Roster) (user : ℕ) (flag : Bool)
      → Moves b r (after_moderated r (set_verified r user flag))
  unfolding set_verified
  set_verified-Moves r user flag =
      update_user_row-Moves r user (set_verified_flag flag) (λ u. refl) (λ u. refl)
        (users_spare (has_id user) (set_verified_flag flag) r (λ u e h. ground (arith, e)))

  pub verify_all-Moves : (r : Roster) → Moves b r (verify_all r).1
  unfolding verify_all
  verify_all-Moves r = move b (
      edits_users {r = r} (λ u. not u.verified) (set_verified_flag true) (λ u. refl) (λ u. refl)
        (users_spare (λ u. not u.verified) (set_verified_flag true) r (λ u e h. ground (arith, e))))

  pub unlock-Moves :
      (r : Roster) (team : ℕ) (hash : Bytes)
      → Moves b r (after_moderated r (set_team_join_secret r team hash))
  unfolding set_team_join_secret
  unlock-Moves r team hash =
      update_team_row-Moves r team (with_hash hash) (λ t. refl) (λ t. refl)
        (teams_spare (is_team team) (with_hash hash) r (λ t. refl) (λ t. refl))

  pub create_team_by_admin-Moves :
      (lower : String → String) (r : Roster) (n : NewTeam)
      → Moves b r (after_moderated r (create_team_by_admin lower r n))
  unfolding create_team_by_admin
  create_team_by_admin-Moves lower r n =
      ground (arith, halt b r, move b (opens {r = r} (admin_team r n) refl refl refl))

  pub update_team_by_admin-Moves :
      (lower : String → String) (r : Roster) (team : ℕ) (name : Option String) (p : Patch)
      → Moves b r (after_moderated r (update_team_by_admin lower r team name p))
  unfolding update_team_by_admin
  update_team_by_admin-Moves lower r team name p = ground (
    arith,
    halt b r,
    update_team_row-Moves r team (apply_admin_patch name p) (λ t. (admin_patch_keeps name p t).0)
        (λ t. (admin_patch_keeps name p t).1.0)
        (teams_spare (is_team team) (apply_admin_patch name p) r
          (λ t. (admin_patch_keeps name p t).0) (λ t. (admin_patch_keeps name p t).1.1)),
  )
