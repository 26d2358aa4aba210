-- ===== src/Roster/Valid/Seat.antt =====
-- A captain kicks a member, hands over the seat or disbands the team: the roster stays valid. The
-- ids of the teams being unique is what keeps a captain from acting on another team.
use flagfish.Prelude.{
  ℕ, ◌≡◌, refl, ◌∙◌, Bool, true, false, not, ◌&&◌, none, some, List, All, arith, Option-cases, inl,
  inr, Bool-cases,
}
use flagfish.Rows.{exists, update_where, delete_where}
use flagfish.Rows.Laws.{
  exists-update, count-update_keeps, count-update_shrinks, count-delete_le, exists-map,
}
use flagfish.Rows.Kept.{
  count-split, exists-delete, All-update, All-weaken, All-delete, All-rows, All-both,
}
use flagfish.Roster.{
  UserRow, TeamRow, Roster, has_id, is_team, on_team, with_team, with_captain, led_by, led_team,
}
use flagfish.Roster.Command.{member_of, may_kick, may_transfer, may_disband, orphaned}
use flagfish.Roster.Move.{kicked, transferred, disbanded}
use flagfish.Roster.Valid.{team_exists, Led, Seated, IsValid}
use flagfish.Roster.Valid.Depart.{team_exists-update}

-- among rows with unique ids, a test on the row of an id is a test on every row of it
abbrev Decides : List TeamRow → TeamRow → Type 0
Decides teams t =
    (test : TeamRow → Bool) → exists (λ o. test o && is_team t.id o) teams ≡ true → test t ≡ true

decides : (r : Roster) → IsValid r → All (Decides r.teams) r.teams
decides r valid = All-rows r.teams (λ t witness test e. elim (Bool-cases (test t)) [
  | inl passes ↦ passes
  | inr fails ↦ absurd (
      ground (
        arith,
        valid.teams_unique t.id,
        count-split (is_team t.id) test r.teams e
            (witness (λ o. not (test o) && is_team t.id o) (ground (arith, fails))),
      ))
])

seats_decided : (r : Roster) → IsValid r → All (λ t. Decides r.teams t × Seated r.users t) r.teams
seats_decided r valid =
    All-both (Decides r.teams) (Seated r.users) r.teams (decides r valid) valid.seats

-- members who go while no captain does
Seated-kept :
    (test : UserRow → Bool) (users : List UserRow) (t : TeamRow)
    → ((u : UserRow) (c : ℕ) → t.captain_id ≡ some c → member_of c t.id u ≡ true → test u ≡ false)
    → Seated users t
    → Seated (update_where test (with_team none) users) t
Seated-kept test users t stays seat = elim (Option-cases t.captain_id) [
  | inl empty ↦ rw empty refl
  | inr (c, led) ↦ rw led (
      exists-update (member_of c t.id) test (with_team none) users
        (λ u member goes. absurd (ground (arith, stays u c led member, goes)))
        (ground (arith, seat, led)))
]

Led-kept :
    (test : UserRow → Bool) (users : List UserRow) (t : TeamRow)
    → Led users t
    → Led (update_where test (with_team none) users) t
Led-kept test users t led c = omega (
  arith,
  led c,
  count-update_shrinks (on_team t.id) test (with_team none) users
      (λ u e h. absurd (ground (arith, h))),
)

commanded :
    (r : Roster) (member captain : ℕ) (u : UserRow) (k : ℕ)
    → may_kick r member captain u ≡ true
    → u.team_id ≡ some k
    → exists (led_team k captain) r.teams ≡ true
commanded r member captain u k goes on = ground (arith, goes, on)

-- a captain of the team is not the member who goes
captain_stays :
    (r : Roster) (member captain : ℕ) (t : TeamRow)
    → Decides r.teams t
    → (u : UserRow) (c : ℕ) → t.captain_id ≡ some c
    → member_of c t.id u ≡ true
    → may_kick r member captain u ≡ false
captain_stays r member captain t only u c led in_seat =
    elim (Bool-cases (may_kick r member captain u)) [
      | inr stays ↦ stays
      | inl goes ↦ elim (Option-cases u.team_id) [
        | inl teamless ↦ absurd (ground (arith, in_seat, teamless))
        | inr (k, on) ↦ absurd (
            ground (
              arith,
              in_seat,
              led,
              goes,
              only (led_by captain) (
                  exists-map (led_team k captain) (λ o. led_by captain o && is_team t.id o) r.teams
                    (λ o e. ground (arith, e, in_seat, on))
                    (commanded r member captain u k goes on)),
            ))
      ]
    ]

pub kicked-IsValid :
    (member captain : ℕ) (r : Roster) → IsValid r → IsValid (kicked member captain r)
kicked-IsValid member captain r valid = record {
  users_unique = λ i.
      rw
        (count-update_keeps (has_id i) (may_kick r member captain) (with_team none) r.users
          (λ u e. refl))
        (valid.users_unique i);
  teams_unique = valid.teams_unique;
  seats =
      All-weaken r.teams
        (λ t both.
          Seated-kept (may_kick r member captain) r.users t
            (captain_stays r member captain t both.0) both.1)
        (seats_decided r valid);
  led = All-weaken r.teams (λ t led. Led-kept (may_kick r member captain) r.users t led) valid.led;
  enrolled =
      All-update (may_kick r member captain) (with_team none) r.users (λ u there e. refl)
        (λ u there e. there) valid.enrolled;
  fresh = valid.fresh;
}

pub transferred-IsValid :
    (heir captain : ℕ) (r : Roster) → IsValid r → IsValid (transferred heir captain r)
transferred-IsValid heir captain r valid = record {
  users_unique = valid.users_unique;
  teams_unique = λ i.
      rw (count-update_keeps (is_team i) moves (with_captain (some heir)) r.teams (λ t e. refl))
        (valid.teams_unique i);
  seats =
      All-update moves (with_captain (some heir)) r.teams (λ t seat e. ground (arith, e))
        (λ t seat e. seat) valid.seats;
  led =
      All-update moves (with_captain (some heir)) r.teams (λ t led e c. absurd (ground (arith, c)))
        (λ t led e. led) valid.led;
  enrolled =
      All-weaken r.users
        (λ u there.
          team_exists-update moves (with_captain (some heir)) r.teams u.team_id (λ t. refl) ∙ there)
        valid.enrolled;
  fresh =
      All-update moves (with_captain (some heir)) r.teams (λ t lt e. lt) (λ t lt e. lt) valid.fresh;
}
  where
    moves : TeamRow → Bool
    moves = may_transfer r.users heir captain

-- the members of a team that is kept are not orphans
kept_home :
    (r : Roster) (test : TeamRow → Bool) (t : TeamRow)
    → Decides r.teams t
    → test t ≡ false
    → (u : UserRow) (c : ℕ) → t.captain_id ≡ some c
    → member_of c t.id u ≡ true
    → orphaned test r.teams u ≡ false
kept_home r test t only stands u c led member = elim (Option-cases u.team_id) [
  | inl teamless ↦ rw teamless refl
  | inr (k, on) ↦ elim (Bool-cases (exists (λ o. test o && is_team k o) r.teams)) [
    | inr none_gone ↦ rw on none_gone
    | inl gone ↦ absurd (
        ground (
          arith,
          stands,
          only test (
              exists-map (λ o. test o && is_team k o) (λ o. test o && is_team t.id o) r.teams
                (λ o e. ground (arith, e, member, on)) gone),
        ))
  ]
]

home_stands :
    (r : Roster) (test : TeamRow → Bool) (u : UserRow)
    → team_exists r.teams u.team_id ≡ true
    → orphaned test r.teams u ≡ false
    → team_exists (delete_where test r.teams) u.team_id ≡ true
home_stands r test u there kept = elim (Option-cases u.team_id) [
  | inl teamless ↦ rw teamless refl
  | inr (k, on) ↦ rw on (
      exists-delete (is_team k) test r.teams (ground (arith, there, on)) (ground (arith, kept, on)))
]

pub disbanded-IsValid : (captain : ℕ) (r : Roster) → IsValid r → IsValid (disbanded captain r)
disbanded-IsValid captain r valid = record {
  users_unique = λ i.
      rw
        (count-update_keeps (has_id i) (orphaned gone r.teams) (with_team none) r.users
          (λ u e. refl))
        (valid.users_unique i);
  teams_unique = λ i. omega (arith, valid.teams_unique i, count-delete_le (is_team i) gone r.teams);
  seats =
      All-delete gone r.teams
        (λ t both stands.
          Seated-kept (orphaned gone r.teams) r.users t (kept_home r gone t both.0 stands) both.1)
        (seats_decided r valid);
  led =
      All-delete gone r.teams (λ t led e. Led-kept (orphaned gone r.teams) r.users t led) valid.led;
  enrolled =
      All-update (orphaned gone r.teams) (with_team none) r.users (λ u there e. refl)
        (λ u there e. home_stands r gone u there e) valid.enrolled;
  fresh = All-delete gone r.teams (λ t lt e. lt) valid.fresh;
}
  where
    gone : TeamRow → Bool
    gone = may_disband r.users captain
