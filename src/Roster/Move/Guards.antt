-- ===== src/Roster/Move/Guards.antt =====
-- What the checks of internal/adminops under the lock on the admin roster establish: the change that
-- follows spares a usable admin.
use flagfish.Prelude.{
  ℕ, ◌≡◌, refl, Bool, true, false, not, ◌&&◌, none, some, List, [], ◌∷◌, arith, Option-cases,
  Bool-cases, inl, inr, ◌==◌,
}
use flagfish.Rows.{exists, first, update_where}
use flagfish.Rows.Laws.{exists-update, exists-map}
use flagfish.Rows.Kept.{exists-update_kept, exists-of-count, first_unique}
use flagfish.Roster.{UserRow, Roster, has_id, is_team, on_team, set_users, set_teams}
use flagfish.Roster.Reads.{get_user}
use flagfish.Roster.Admin.{
  usable_admin, count_other_admins, count_admins_outside_team, guard_admin_onto_banned_team,
}
use flagfish.Roster.Moderation.{
  ban_guard, team_ban_guard, set_banned_flag, set_team_banned_flag, set_role_flag,
}
use flagfish.Roster.Valid.{IsValid}
use flagfish.Roster.Move.{Spares}
use flagfish.Roster.Move.Admins.{
  banned_with, other_admin, active_admin, Harmless, open_team, another, player, users_spare,
}

abbrev is_active : UserRow → Bool
is_active u = u.is_admin && not u.banned

inactive :
    (r : Roster) (user : ℕ) (u : UserRow)
    → IsValid r
    → get_user r user ≡ some u
    → is_active u ≡ false
    → exists (active_admin user) r.users ≡ false
unfolding get_user
inactive r user u valid found idle =
    first_unique (has_id user) is_active r.users u (valid.users_unique user) found idle

another_left :
    (r : Roster) (user : ℕ)
    → (count_other_admins r user == 0) ≡ false
    → exists (other_admin r user) r.users ≡ true
unfolding count_other_admins
another_left r user some_left = exists-of-count (other_admin r user) r.users some_left

pub guard-Harmless :
    (r : Roster) (user to : ℕ)
    → IsValid r
    → guard_admin_onto_banned_team r user to ≡ none
    → Harmless r user to
unfolding guard_admin_onto_banned_team
guard-Harmless r user to valid passes = elim (Option-cases (get_user r user)) [
  | inl absent ↦ absurd (ground (arith, passes, absent))
  | inr (u, found) ↦ elim (Bool-cases (is_active u)) [
    | inr idle ↦ player (inactive r user u valid found idle)
    | inl active ↦ elim (Option-cases (first (is_team to) r.teams)) [
      | inl gone ↦ absurd (ground (arith, passes, found, active, gone))
      | inr (t, there) ↦ elim (Bool-cases t.banned) [
        | inr calm ↦
            open_team (
              first_unique (is_team to) (λ o. o.banned) r.teams t (valid.teams_unique to) there
                calm)
        | inl banned ↦
            another (another_left r user (ground (arith, passes, found, active, there, banned)))
      ]
    ]
  ]
]

-- a change of one user who is not the only usable admin
other_spare :
    (r : Roster) (user : ℕ) (set : UserRow → UserRow)
    → exists (other_admin r user) r.users ≡ true
    → Spares r (set_users r (update_where (has_id user) set r.users))
other_spare r user set left some_admin =
    exists-map (other_admin r user) (usable_admin r.teams) (update_where (has_id user) set r.users)
      (λ u e. ground (arith, e))
      (exists-update (other_admin r user) (has_id user) set r.users
        (λ u e h. absurd (ground (arith, e, h))) left)

no_usable_admin :
    (r : Roster) (user : ℕ) (us : List UserRow)
    → exists (active_admin user) us ≡ false
    → exists (other_admin r user) us ≡ false
    → exists (usable_admin r.teams) us ≡ false
unfolding exists
no_usable_admin r user [] e f = refl
no_usable_admin r user (u ∷ us) e f = ground (arith, e, f, no_usable_admin r user us)

idle_spare :
    (r : Roster) (user : ℕ) (set : UserRow → UserRow)
    → exists (active_admin user) r.users ≡ false
    → Spares r (set_users r (update_where (has_id user) set r.users))
idle_spare r user set idle some_admin = elim (Bool-cases (exists (other_admin r user) r.users)) [
  | inl left ↦ other_spare r user set left some_admin
  | inr alone ↦ absurd (ground (arith, no_usable_admin r user r.users idle alone, some_admin))
]

pub ban_guard_spare :
    (r : Roster) (user : ℕ)
    → IsValid r
    → ban_guard r user ≡ none
    → Spares r (set_users r (update_where (has_id user) (set_banned_flag true) r.users))
unfolding ban_guard
ban_guard_spare r user valid passes = elim (Option-cases (get_user r user)) [
  | inl absent ↦ absurd (ground (arith, passes, absent))
  | inr (u, found) ↦ elim (Bool-cases (is_active u)) [
    | inr idle ↦ idle_spare r user (set_banned_flag true) (inactive r user u valid found idle)
    | inl active ↦
        other_spare r user (set_banned_flag true)
          (another_left r user (ground (arith, passes, found, active)))
  ]
]

pub role_spare :
    (r : Roster) (user : ℕ) (to_admin : Bool)
    → (not to_admin && count_other_admins r user == 0) ≡ false
    → Spares r (set_users r (update_where (has_id user) (set_role_flag to_admin) r.users))
role_spare r user true passes =
    users_spare (has_id user) (set_role_flag true) r (λ u e h. ground (arith, e))
role_spare r user false passes =
    other_spare r user (set_role_flag false) (another_left r user passes)

abbrev outside : Roster → ℕ → UserRow → Bool
outside r team u = usable_admin r.teams u && not (on_team team u)

ban_elsewhere :
    (r : Roster) (team : ℕ) (u : UserRow)
    → outside r team u ≡ true
    → usable_admin (update_where (is_team team) (set_team_banned_flag true) r.teams) u ≡ true
ban_elsewhere r team u e = elim (Option-cases u.team_id) [
  | inl teamless ↦ ground (arith, e, teamless)
  | inr (k, on) ↦ ground (
    arith,
    e,
    on,
    exists-update_kept (banned_with k) (is_team team) (set_team_banned_flag true) r.teams
        (λ t h. ground (arith, h, e, on)),
  )
]

pub team_ban_guard_spare :
    (r : Roster) (actor team : ℕ)
    → team_ban_guard r actor team ≡ none
    → Spares r (set_teams r (update_where (is_team team) (set_team_banned_flag true) r.teams))
unfolding team_ban_guard count_admins_outside_team
team_ban_guard_spare r actor team passes some_admin =
    exists-map (outside r team)
      (usable_admin (update_where (is_team team) (set_team_banned_flag true) r.teams)) r.users
      (λ u e. ban_elsewhere r team u e)
      (exists-of-count (outside r team) r.users (ground (arith, passes)))
