-- ===== src/Roster/Reads.antt =====
-- The read models of internal/db/teams.sql.gen.go and the profiles that internal/accounts/teams.go
-- builds from them. A cutoff is the freeze horizon, `none` for the live board. `teamMembers` sorts by
-- id and is bounded by 1000 rows. The names and the solved challenges are left out.
use Prim.Native.String.{String}
use flagfish.Prelude.{
  ℕ, zero, suc, Bool, true, false, not, ◌&&◌, ◌||◌, Option, none, some, List, [], ◌∷◌, leb, ltb,
  ◌==◌, map, if◌then◌else◌,
}
use flagfish.Prelude.Int.{ℤ, pos, ◌+ℤ◌}
use flagfish.Rows.{same_id, count, first, select}
use flagfish.Roster.{
  UserRow, TeamRow, Entry, Roster, has_id, is_team, on_team, for_team, team_scored, named,
}

pub record Member : Type 0 where
  pub user_id : ℕ
  pub captain : Bool
  pub solve_count : ℕ
  pub points : ℤ

-- `Team`, as the public profile and the own-team view carry it
pub record Profile : Type 0 where
  pub id : ℕ
  pub email : Option String
  pub website : Option String
  pub affiliation : Option String
  pub country : Option String
  pub score : ℤ
  pub is_captain : Bool
  pub members : List Member

-- `cutoff IS NULL OR date < cutoff`
abbrev pub before : Option ℕ → Entry → Bool
before none e = true
before (some t) e = ltb e.date t

unfoldable pub sum_values : (Entry → Bool) → List Entry → ℤ
sum_values test [] = pos 0
sum_values test (e ∷ es) = let rest = sum_values test es in if test e then e.value +ℤ rest else rest

abbrev pub team_entry : Option ℕ → ℕ → Entry → Bool
team_entry cutoff team e = for_team team e && before cutoff e

abbrev pub member_entry : Option ℕ → ℕ → ℕ → Entry → Bool
member_entry cutoff team user e = for_team team e && (e.user_id == user && before cutoff e)

-- the score of GetTeamPublicProfile, and with no cutoff of GetOwnTeam
unfoldable pub team_score : Roster → Option ℕ → ℕ → ℤ
unfolding sum_values
team_score r cutoff team =
    sum_values (team_entry cutoff team) r.solves +ℤ sum_values (team_entry cutoff team) r.awards

-- a row of ListTeamMembers
unfoldable pub member_row : Roster → Option ℕ → TeamRow → UserRow → Member
unfolding count sum_values
member_row r cutoff t u = record {
  user_id = u.id;
  captain = same_id (some u.id) t.captain_id;
  solve_count = count (member_entry cutoff t.id u.id) r.solves;
  points = sum_values (member_entry cutoff t.id u.id) r.solves;
}

abbrev pub shown_member : Bool → ℕ → UserRow → Bool
shown_member include_masked team u =
    on_team team u && (include_masked || not u.hidden && not u.banned)

-- ORDER BY u.id
unfoldable pub insert_by_id : UserRow → List UserRow → List UserRow
insert_by_id u [] = u ∷ []
insert_by_id u (v ∷ vs) =
    let rest = insert_by_id u vs in if leb u.id v.id then u ∷ v ∷ vs else v ∷ rest

unfoldable pub sort_by_id : List UserRow → List UserRow
unfolding insert_by_id
sort_by_id [] = []
sort_by_id (u ∷ us) = insert_by_id u (sort_by_id us)

unfoldable pub take_rows {ℓ} : {A : Type ℓ} → ℕ → List A → List A
take_rows zero xs = []
take_rows (suc n) [] = []
take_rows (suc n) (x ∷ xs) = x ∷ take_rows n xs

-- `teamMembers`
unfoldable pub team_members : Roster → TeamRow → Bool → Option ℕ → List Member
unfolding member_row select sort_by_id take_rows
team_members r t include_masked cutoff =
    map (member_row r cutoff t)
      (take_rows 1000 (sort_by_id (select (shown_member include_masked t.id) r.users)))

-- `GetUserByID`
unfoldable pub get_user : Roster → ℕ → Option UserRow
unfolding first
get_user r user = first (has_id user) r.users

-- `teams t JOIN users u ON u.team_id = t.id`, for one user
unfoldable pub team_of : Roster → ℕ → Option TeamRow
unfolding get_user first
team_of r user = elim (get_user r user) [
  | none ↦ none
  | some u ↦ elim u.team_id [ none ↦ none | some team ↦ first (is_team team) r.teams ]
]

abbrev pub own_profile : Roster → ℕ → TeamRow → Profile
own_profile r user t = record {
  id = t.id;
  email = t.email;
  website = t.website;
  affiliation = t.affiliation;
  country = t.country;
  score = team_score r none t.id;
  is_captain = same_id t.captain_id (some user);
  members = team_members r t true none;
}

-- `Service.OwnTeam`: `none` is ErrNotOnTeam
unfoldable pub own_team : Roster → ℕ → Option Profile
unfolding team_of
own_team r user = elim (team_of r user) [ none ↦ none | some t ↦ some (own_profile r user t) ]

abbrev pub is_public : ℕ → TeamRow → Bool
is_public team t = is_team team t && (not t.hidden && not t.banned)

abbrev pub public_profile : Roster → Option ℕ → TeamRow → Profile
public_profile r cutoff t = record {
  id = t.id;
  email = none;
  website = t.website;
  affiliation = t.affiliation;
  country = t.country;
  score = team_score r cutoff t.id;
  is_captain = false;
  members = team_members r t false cutoff;
}

-- `Service.TeamProfile`: `none` is ErrTeamNotFound
unfoldable pub team_profile : Roster → ℕ → Option ℕ → Option Profile
unfolding first
team_profile r team cutoff = elim (first (is_public team) r.teams) [
  | none ↦ none
  | some t ↦ some (public_profile r cutoff t)
]

-- `GetTeamForJoin`
unfoldable pub get_team_for_join : Roster → String → Option TeamRow
unfolding first
get_team_for_join r name = first (named name) r.teams

-- `TeamCaptainScored`
pub record CaptainScored : Type 0 where
  pub captain_id : Option ℕ
  pub scored : Bool

unfoldable pub team_captain_scored : Roster → ℕ → Option CaptainScored
unfolding first
team_captain_scored r team = elim (first (is_team team) r.teams) [
  | none ↦ none
  | some t ↦ some (record { captain_id = t.captain_id; scored = team_scored r.solves (some t.id) })
]
