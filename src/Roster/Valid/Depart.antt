-- ===== src/Roster/Valid/Depart.antt =====
-- A player leaves a team, on their own or by an organizer's hand, and the seat is settled behind
-- them: the pair of statements keeps the roster valid.
use flagfish.Prelude.{
  ℕ, ◌≤◌, ◌≡◌, refl, ◌∙◌, Bool, true, false, Option, none, some, List, [], ◌∷◌, arith, Option-cases,
  inl, inr,
}
use flagfish.Rows.{count, exists, update_where}
use flagfish.Rows.Laws.{exists-update, exists-update_same, count-update_shrinks, count-update_keeps}
use flagfish.Rows.Kept.{All-update}
use flagfish.Roster.{
  UserRow, TeamRow, Roster, has_id, is_team, on_team, led_team, min_member, with_team, with_min,
}
use flagfish.Roster.Command.{member_of}
use flagfish.Roster.Move.{vacated, departed}
use flagfish.Roster.Valid.{team_exists, Led, Seated, IsValid}

-- the least member is a member, and there is none only in an empty team
pub min_member-member :
    (team : ℕ) (us : List UserRow) (m : ℕ)
    → min_member team us ≡ some m
    → exists (member_of m team) us ≡ true
unfolding min_member exists
min_member-member team [] m e = absurd (ground (arith, e))
min_member-member team (u ∷ us) m e = elim (Option-cases (min_member team us)) [
  | inl empty ↦ ground (arith, e, empty)
  | inr (k, found) ↦ ground (arith, e, found, min_member-member team us k found)
]

pub min_member-none :
    (team : ℕ) (us : List UserRow) → min_member team us ≡ none → count (on_team team) us ≡ 0
unfolding min_member count
min_member-none team [] e = refl
min_member-none team (u ∷ us) e = elim (Option-cases (min_member team us)) [
  | inl empty ↦ ground (arith, e, empty, min_member-none team us empty)
  | inr (k, found) ↦ ground (arith, e, found)
]

pub Seated-min : (users : List UserRow) (t : TeamRow) → Seated users (with_min users t)
unfolding min_member
Seated-min users t = elim (Option-cases (min_member t.id users)) [
  | inl empty ↦ rw empty refl
  | inr (m, found) ↦ rw found (min_member-member t.id users m found)
]

pub Led-min : (users : List UserRow) (t : TeamRow) → Led users (with_min users t)
unfolding min_member
Led-min users t c = elim (Option-cases (min_member t.id users)) [
  | inl empty ↦ min_member-none t.id users empty
  | inr (m, found) ↦ absurd (ground (arith, c, found))
]

-- the tests of the statements that take a player off a team
abbrev pub Departs : (UserRow → Bool) → ℕ → ℕ → Type 0
Departs test user team = (u : UserRow) → test u ≡ true → member_of user team u ≡ true

Seated-vacated :
    (test : UserRow → Bool) (user team : ℕ) (users : List UserRow) (t : TeamRow)
    → Departs test user team
    → led_team team user t ≡ false
    → Seated users t
    → Seated (update_where test (with_team none) users) t
Seated-vacated test user team users t departs unled seat = elim (Option-cases t.captain_id) [
  | inl empty ↦ rw empty refl
  | inr (c, led) ↦ rw led (
      exists-update (member_of c t.id) test (with_team none) users
        (λ u member leaves. absurd (ground (arith, departs u leaves, member, unled, led)))
        (ground (arith, seat, led)))
]

Led-vacated :
    (test : UserRow → Bool) (users : List UserRow) (t : TeamRow)
    → Led users t
    → Led (update_where test (with_team none) users) t
Led-vacated test users t led c = omega (arith, led c, shrinks)
  where
    shrinks :
        count (on_team t.id) (update_where test (with_team none) users) ≤ count (on_team t.id) users
    shrinks =
        count-update_shrinks (on_team t.id) test (with_team none) users
          (λ u e h. absurd (ground (arith, h)))

pub team_exists-update :
    (test : TeamRow → Bool) (set : TeamRow → TeamRow) (teams : List TeamRow) (team : Option ℕ)
    → ((t : TeamRow) → (set t).id ≡ t.id)
    → team_exists (update_where test set teams) team ≡ team_exists teams team
team_exists-update test set teams none keeps = refl
team_exists-update test set teams (some team) keeps =
    exists-update_same (is_team team) test set teams (λ t. ground (arith, keeps t))

pub departed-IsValid :
    (test : UserRow → Bool) (user team : ℕ) (r : Roster)
    → Departs test user team
    → IsValid r
    → IsValid (departed test user team r)
departed-IsValid test user team r departs valid = record {
  users_unique = λ i.
      rw (count-update_keeps (has_id i) test (with_team none) r.users (λ u e. refl))
        (valid.users_unique i);
  teams_unique = λ i.
      rw
        (count-update_keeps (is_team i) (led_team team user) (with_min (vacated test r)) r.teams
          (λ t e. refl))
        (valid.teams_unique i);
  seats =
      All-update (led_team team user) (with_min (vacated test r)) r.teams
        (λ t seat e. Seated-min (vacated test r) t)
        (λ t seat e. Seated-vacated test user team r.users t departs e seat) valid.seats;
  led =
      All-update (led_team team user) (with_min (vacated test r)) r.teams
        (λ t led e. Led-min (vacated test r) t) (λ t led e. Led-vacated test r.users t led)
        valid.led;
  enrolled =
      All-update test (with_team none) r.users (λ u there e. refl)
        (λ u there e.
          team_exists-update (led_team team user) (with_min (vacated test r)) r.teams u.team_id
            (λ t. refl)
          ∙ there)
        valid.enrolled;
  fresh =
      All-update (led_team team user) (with_min (vacated test r)) r.teams (λ t lt e. lt)
        (λ t lt e. lt) valid.fresh;
}
