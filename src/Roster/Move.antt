-- ===== src/Roster/Move.antt =====
-- The roster as a transition system: what one transaction does to the tables, with the conditions
-- under which the statements let it. Every request is a sequence of moves. A careful move is one
-- that has an argument that it does not cost the instance its last usable admin.
pub mod Admins
pub mod Guards
pub mod Players
pub mod Organizers
pub mod Repairs
pub mod Moderators
use flagfish.Prelude.{ℕ, suc, ◌≡◌, refl, Bool, true, false, Option, none, some, List, [], ◌∷◌, ◌&&◌}
use flagfish.Rows.{count, exists, update_where, delete_where}
use flagfish.Roster.{
  UserRow, TeamRow, Roster, has_id, is_team, on_team, with_team, with_captain, with_min, set_users,
  set_teams, teamless_with_id, adoptable, add_team, may_leave, led_team, reached,
}
use flagfish.Roster.Command.{member_of, may_kick, may_transfer, may_disband, orphaned, has_history}
use flagfish.Roster.Admin.{usable_admin}

abbrev pub vacated : (UserRow → Bool) → Roster → List UserRow
vacated test r = update_where test (with_team none) r.users

-- a member goes, and the captain's seat is settled behind them
abbrev pub departed : (UserRow → Bool) → ℕ → ℕ → Roster → Roster
departed test user team r =
    set_teams (set_users r (vacated test r))
      (update_where (led_team team user) (with_min (vacated test r)) r.teams)

abbrev pub seated_users : ℕ → ℕ → Roster → List UserRow
seated_users user team r = update_where (teamless_with_id user) (with_team (some team)) r.users

-- a player is enrolled, and takes an empty seat if alone
abbrev pub joined : ℕ → ℕ → Roster → Roster
joined user team r =
    set_teams (set_users r (seated_users user team r))
      (update_where (adoptable (seated_users user team r) team) (with_captain (some user)) r.teams)

-- a new team and its captain
abbrev pub founded : ℕ → TeamRow → Roster → Roster
founded user t r = set_users (add_team r t) (seated_users user t.id (add_team r t))

abbrev pub kicked : ℕ → ℕ → Roster → Roster
kicked member captain r =
    set_users r (update_where (may_kick r member captain) (with_team none) r.users)

abbrev pub transferred : ℕ → ℕ → Roster → Roster
transferred heir captain r =
    set_teams r
      (update_where (may_transfer r.users heir captain) (with_captain (some heir)) r.teams)

abbrev pub disbanded : ℕ → Roster → Roster
disbanded captain r = record r {
  users = update_where (orphaned (may_disband r.users captain) r.teams) (with_team none) r.users;
  teams = delete_where (may_disband r.users captain) r.teams;
}

-- the enrolment of a user without a team, with room for one more
pub record Enrols (r : Roster) (user team : ℕ) : Type 0 where
  pub there : exists (teamless_with_id user) r.users ≡ true
  pub room : reached r.team_size (count (on_team team) r.users) ≡ false

-- an admin who is not banned, on no banned team
abbrev pub HasAdmin : Roster → Type 0
HasAdmin r = exists (usable_admin r.teams) r.users ≡ true

abbrev pub Spares : Roster → Roster → Type 0
Spares r s = HasAdmin r → HasAdmin s

pub data Move (careful : Bool) : Roster → Roster → Type 0 where
  leaves :
      {r : Roster} (user team : ℕ) → Move careful r (departed (may_leave r user team) user team r)
  detached :
      {r : Roster} (user team : ℕ) → Move careful r (departed (member_of user team) user team r)
  joins :
      {r : Roster} (user team : ℕ)
      → Enrols r user team
      → exists (is_team team) r.teams ≡ true
      → (careful ≡ true → Spares r (joined user team r))
      → Move careful r (joined user team r)
  founds :
      {r : Roster} (user : ℕ) (t : TeamRow)
      → t.id ≡ r.team_seq
      → t.captain_id ≡ some user
      → t.banned ≡ false
      → Enrols r user t.id
      → Move careful r (founded user t r)
  kicks : {r : Roster} (member captain : ℕ) → Move careful r (kicked member captain r)
  transfers : {r : Roster} (heir captain : ℕ) → Move careful r (transferred heir captain r)
  disbands :
      {r : Roster} (captain : ℕ)
      → exists (λ t. may_disband r.users captain t && has_history r t) r.teams ≡ false
      → Move careful r (disbanded captain r)
  opens :
      {r : Roster} (t : TeamRow)
      → t.id ≡ r.team_seq
      → t.captain_id ≡ none
      → t.banned ≡ false
      → Move careful r (add_team r t)
  edits_users :
      {r : Roster} (test : UserRow → Bool) (set : UserRow → UserRow)
      → ((u : UserRow) → (set u).id ≡ u.id)
      → ((u : UserRow) → (set u).team_id ≡ u.team_id)
      → Spares r (set_users r (update_where test set r.users))
      → Move careful r (set_users r (update_where test set r.users))
  edits_teams :
      {r : Roster} (test : TeamRow → Bool) (set : TeamRow → TeamRow)
      → ((t : TeamRow) → (set t).id ≡ t.id)
      → ((t : TeamRow) → (set t).captain_id ≡ t.captain_id)
      → Spares r (set_teams r (update_where test set r.teams))
      → Move careful r (set_teams r (update_where test set r.teams))
  signs_out :
      {r : Roster} (sessions api_tokens : List ℕ)
      → Move careful r (record r { sessions = sessions; api_tokens = api_tokens })

infixr 50 ◌▸◌
pub data Moves (careful : Bool) : Roster → Roster → Type 0 where
  stay : {r : Roster} → Moves careful r r
  ◌▸◌ : {r s t : Roster} → Move careful r s → Moves careful s t → Moves careful r t

pub one : {b : Bool} {r s : Roster} → Move b r s → Moves b r s
one m = m ▸ stay

pub Moves-trans : {b : Bool} {r s t : Roster} → Moves b r s → Moves b s t → Moves b r t
Moves-trans stay ms = ms
Moves-trans (m ▸ ns) ms = m ▸ Moves-trans ns ms

pub move : (b : Bool) {r s : Roster} → Move b r s → Moves b r s
move b = one

pub halt : (b : Bool) (r : Roster) → Moves b r r
halt b r = stay
