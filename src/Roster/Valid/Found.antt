-- ===== src/Roster/Valid/Found.antt =====
-- A new team with its captain on it, and the statements that change no id, no membership and no
-- captain: the roster stays valid.

use flagfish.Prelude.{
  ℕ, ◌<◌, ◌≡◌, refl, ◌∙◌, Bool, true, some, List, [], ◌∷◌, All, arith, Option-cases, inl, inr,
  Bool-cases, ◌==◌,
}
use flagfish.Rows.{count, exists, update_where}
use flagfish.Rows.Laws.{exists-update_same, count-update_keeps}
use flagfish.Rows.Kept.{All-update, All-weaken, All-both}
use flagfish.Roster.{
  UserRow, TeamRow, Roster, has_id, is_team, on_team, with_team, set_users, set_teams,
  teamless_with_id,
}
use flagfish.Roster.Command.{member_of}
use flagfish.Roster.Move.{founded}
use flagfish.Roster.Valid.{team_exists, Led, Seated, IsValid}
use flagfish.Roster.Valid.Depart.{team_exists-update}
use flagfish.Roster.Valid.Enroll.{Seated-enrolled, other_team_count, arrived}

pub count_fresh :
    (n : ℕ) (teams : List TeamRow) → All (λ t. t.id < n) teams → count (is_team n) teams ≡ 0
unfolding count
count_fresh n [] h = refl
count_fresh n (t ∷ ts) h = ground (arith, h.0, count_fresh n ts h.1)

pub founded-IsValid :
    (user : ℕ) (t : TeamRow) (r : Roster)
    → t.id ≡ r.team_seq
    → t.captain_id ≡ some user
    → exists (teamless_with_id user) r.users ≡ true
    → IsValid r
    → IsValid (founded user t r)
unfolding count exists
founded-IsValid user t r new led there valid = record {
  users_unique = λ i.
      rw
        (count-update_keeps (has_id i) (teamless_with_id user) (with_team (some t.id)) r.users
          (λ u e. refl))
        (valid.users_unique i);
  teams_unique = λ i. elim (Bool-cases (r.team_seq == i)) [
    | inl own ↦
        let same : r.team_seq ≡ i = ground (arith, own) in
        ground (arith, same, new, count_fresh r.team_seq r.teams valid.fresh)
    | inr other ↦ ground (arith, other, new, valid.teams_unique i)
  ];
  seats = (
    rw led (arrived user t.id r there),
    All-weaken r.teams (λ o seat. Seated-enrolled user t.id r o seat) valid.seats,
  );
  led = (
    (λ c. absurd (ground (arith, c, led))),
    All-weaken r.teams
        (λ o both c. other_team_count user t.id r o.id (ground (arith, both.0, new)) ∙ both.1 c)
        (All-both (λ o. o.id < r.team_seq) (Led r.users) r.teams valid.fresh valid.led),
  );
  enrolled =
      All-update (teamless_with_id user) (with_team (some t.id)) r.users (λ u here e. ground arith)
        (λ u here e. there_still u here) valid.enrolled;
  fresh = (ground (arith, new), All-weaken r.teams (λ o lt. omega (arith, lt)) valid.fresh);
}
  where
    there_still :
        (u : UserRow)
        → team_exists r.teams u.team_id ≡ true
        → team_exists (t ∷ r.teams) u.team_id ≡ true
    there_still u here = elim (Option-cases u.team_id) [
      | inl teamless ↦ rw teamless refl
      | inr (k, on) ↦ rw on (ground (arith, here, on))
    ]

-- an update of users that moves nobody
pub users_kept-IsValid :
    (test : UserRow → Bool) (set : UserRow → UserRow) (r : Roster)
    → ((u : UserRow) → (set u).id ≡ u.id)
    → ((u : UserRow) → (set u).team_id ≡ u.team_id)
    → IsValid r
    → IsValid (set_users r (update_where test set r.users))
users_kept-IsValid test set r same_key same_team valid = record {
  users_unique = λ i.
      rw (count-update_keeps (has_id i) test set r.users (λ u e. ground (arith, same_key u)))
        (valid.users_unique i);
  teams_unique = valid.teams_unique;
  seats = All-weaken r.teams (λ t seat. seated t seat) valid.seats;
  led =
      All-weaken r.teams
        (λ t led c.
          count-update_keeps (on_team t.id) test set r.users (λ u e. ground (arith, same_team u))
          ∙ led c)
        valid.led;
  enrolled =
      All-update test set r.users (λ u here e. ground (arith, here, same_team u)) (λ u here e. here)
        valid.enrolled;
  fresh = valid.fresh;
}
  where
    seated : (t : TeamRow) → Seated r.users t → Seated (update_where test set r.users) t
    seated t seat = elim (Option-cases t.captain_id) [
      | inl empty ↦ rw empty refl
      | inr (c, led) ↦ rw led (
          exists-update_same (member_of c t.id) test set r.users
            (λ u. ground (arith, same_key u, same_team u))
          ∙ ground (arith, seat, led))
    ]

-- an update of teams that leaves every id and captain
pub teams_kept-IsValid :
    (test : TeamRow → Bool) (set : TeamRow → TeamRow) (r : Roster)
    → ((t : TeamRow) → (set t).id ≡ t.id)
    → ((t : TeamRow) → (set t).captain_id ≡ t.captain_id)
    → IsValid r
    → IsValid (set_teams r (update_where test set r.teams))
teams_kept-IsValid test set r same_key same_seat valid = record {
  users_unique = valid.users_unique;
  teams_unique = λ i.
      rw (count-update_keeps (is_team i) test set r.teams (λ t e. ground (arith, same_key t)))
        (valid.teams_unique i);
  seats =
      All-update test set r.teams (λ t seat e. rw (same_key t, same_seat t) seat) (λ t seat e. seat)
        valid.seats;
  led =
      All-update test set r.teams (λ t led e. rw (same_key t, same_seat t) led) (λ t led e. led)
        valid.led;
  enrolled =
      All-weaken r.users (λ u here. team_exists-update test set r.teams u.team_id same_key ∙ here)
        valid.enrolled;
  fresh =
      All-update test set r.teams (λ t lt e. ground (arith, lt, same_key t)) (λ t lt e. lt)
        valid.fresh;
}
