-- ===== src/Roster/Move/Admins.antt =====
-- Which changes of the tables spare a usable admin.
use flagfish.Prelude.{
  ℕ, ◌≡◌, refl, ◌∙◌, Bool, true, false, not, ◌&&◌, Option, none, some, List, [], ◌∷◌, arith,
}
use flagfish.Rows.{exists, update_where}
use flagfish.Rows.Laws.{exists-update, exists-update_same, exists-map}
use flagfish.Roster.{
  UserRow, TeamRow, Roster, has_id, is_team, with_team, with_captain, with_min, set_users,
  set_teams, teamless_with_id, adoptable, led_team,
}
use flagfish.Roster.Command.{member_of}
use flagfish.Roster.Admin.{usable_admin, on_banned_team}
use flagfish.Roster.Move.{Spares, joined, seated_users, departed}

abbrev pub banned_with : ℕ → TeamRow → Bool
banned_with k t = is_team k t && t.banned

-- a change of teams that leaves every id and ban
pub banned_kept :
    (test : TeamRow → Bool) (set : TeamRow → TeamRow) (teams : List TeamRow)
    → ((t : TeamRow) → (set t).id ≡ t.id)
    → ((t : TeamRow) → (set t).banned ≡ t.banned)
    → (k : Option ℕ) → on_banned_team (update_where test set teams) k ≡ on_banned_team teams k
banned_kept test set teams key ban none = refl
banned_kept test set teams key ban (some k) =
    exists-update_same (banned_with k) test set teams (λ t. ground (arith, key t, ban t))

pub teams_spare :
    (test : TeamRow → Bool) (set : TeamRow → TeamRow) (r : Roster)
    → ((t : TeamRow) → (set t).id ≡ t.id)
    → ((t : TeamRow) → (set t).banned ≡ t.banned)
    → Spares r (set_teams r (update_where test set r.teams))
teams_spare test set r key ban some_admin =
    exists-map (usable_admin r.teams) (usable_admin (update_where test set r.teams)) r.users
      (λ u e. ground (arith, e, banned_kept test set r.teams key ban u.team_id)) some_admin

pub users_spare :
    (test : UserRow → Bool) (set : UserRow → UserRow) (r : Roster)
    → ((u : UserRow)
        → usable_admin r.teams u ≡ true
        → test u ≡ true
        → usable_admin r.teams (set u) ≡ true)
    → Spares r (set_users r (update_where test set r.users))
users_spare test set r keeps some_admin =
    exists-update (usable_admin r.teams) test set r.users keeps some_admin

-- members who become teamless
pub vacated_spare :
    (test : UserRow → Bool) (r : Roster)
    → Spares r (set_users r (update_where test (with_team none) r.users))
vacated_spare test r = users_spare test (with_team none) r (λ u e h. ground (arith, e))

pub departed_spare :
    (test : UserRow → Bool) (user team : ℕ) (r : Roster) → Spares r (departed test user team r)
departed_spare test user team r some_admin =
    teams_spare (led_team team user) (with_min (update_where test (with_team none) r.users))
      (set_users r (update_where test (with_team none) r.users)) (λ t. refl) (λ t. refl)
      (vacated_spare test r some_admin)

abbrev pub other_admin : Roster → ℕ → UserRow → Bool
other_admin r user u = usable_admin r.teams u && not (has_id user u)

abbrev pub active_admin : ℕ → UserRow → Bool
active_admin user u = has_id user u && (u.is_admin && not u.banned)

-- A user gets onto a team that is not banned, or another admin is left, or the user is none.
pub data Harmless (r : Roster) (user team : ℕ) : Type 0 where
  open_team : on_banned_team r.teams (some team) ≡ false → Harmless r user team
  another : exists (other_admin r user) r.users ≡ true → Harmless r user team
  player : exists (active_admin user) r.users ≡ false → Harmless r user team

exists-spared :
    (r : Roster) (user team : ℕ)
    → exists (active_admin user) r.users ≡ false
    → (us : List UserRow) → exists (active_admin user) us ≡ false
    → exists (usable_admin r.teams) us ≡ true
    → exists
        (usable_admin r.teams)
        (update_where (teamless_with_id user) (with_team (some team)) us)
      ≡ true
unfolding exists update_where
exists-spared r user team all [] idle e = e
exists-spared r user team all (u ∷ us) idle e =
    ground (arith, idle, e, exists-spared r user team all us)

pub enrolled_spare :
    (r : Roster) (user team : ℕ)
    → Harmless r user team
    → Spares r (set_users r (seated_users user team r))
enrolled_spare r user team (open_team calm) some_admin =
    users_spare (teamless_with_id user) (with_team (some team)) r (λ u e h. ground (arith, e, calm))
      some_admin
enrolled_spare r user team (another left) some_admin =
    exists-map (other_admin r user) (usable_admin r.teams) (seated_users user team r)
      (λ u e. ground (arith, e))
      (exists-update (other_admin r user) (teamless_with_id user) (with_team (some team)) r.users
        (λ u e h. absurd (ground (arith, e, h))) left)
enrolled_spare r user team (player idle) some_admin =
    exists-spared r user team idle r.users idle some_admin

pub joined_spare :
    (r : Roster) (user team : ℕ) → Harmless r user team → Spares r (joined user team r)
joined_spare r user team harmless some_admin =
    teams_spare (adoptable (seated_users user team r) team) (with_captain (some user))
      (set_users r (seated_users user team r)) (λ t. refl) (λ t. refl)
      (enrolled_spare r user team harmless some_admin)

-- what a move checks on the roster holds after its first leg
pub Harmless-departed :
    (test : UserRow → Bool) (r : Roster) (user from to : ℕ)
    → ((u : UserRow) → test u ≡ true → member_of user from u ≡ true)
    → Harmless r user to
    → Harmless (departed test user from r) user to
Harmless-departed test r user from to goes (open_team calm) = open_team (
    banned_kept (led_team from user) (with_min (update_where test (with_team none) r.users)) r.teams
      (λ t. refl) (λ t. refl) (some to)
    ∙ calm)
Harmless-departed test r user from to goes (another left) = another (
    exists-map (other_admin r user) (other_admin (departed test user from r) user)
      (update_where test (with_team none) r.users)
      (λ u e. ground (
        arith,
        e,
        banned_kept (led_team from user) (with_min (update_where test (with_team none) r.users))
            r.teams (λ t. refl) (λ t. refl) u.team_id,
      ))
      (exists-update (other_admin r user) test (with_team none) r.users
        (λ u e h. absurd (ground (arith, e, goes u h))) left))
Harmless-departed test r user from to goes (player idle) =
    player (exists-update_same (active_admin user) test (with_team none) r.users (λ u. refl) ∙ idle)
