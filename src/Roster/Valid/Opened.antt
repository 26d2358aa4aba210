-- ===== src/Roster/Valid/Opened.antt =====
-- An organizer opens a team without a captain or a member: the roster stays valid.

use flagfish.Prelude.{
  ℕ, ◌≡◌, refl, true, none, List, [], ◌∷◌, All, arith, Option-cases, inl, inr, Bool-cases, ◌==◌,
}
use flagfish.Rows.{count, exists}
use flagfish.Rows.Kept.{All-weaken}
use flagfish.Roster.{UserRow, TeamRow, Roster, is_team, on_team, add_team}
use flagfish.Roster.Valid.{team_exists, IsValid}
use flagfish.Roster.Valid.Found.{count_fresh}
use flagfish.Rows.Laws.{count-exists}

-- no member has the id of a team that is not there yet
count_absent :
    (r : Roster) (n : ℕ) (us : List UserRow)
    → count (is_team n) r.teams ≡ 0
    → All (λ u. team_exists r.teams u.team_id ≡ true) us
    → count (on_team n) us ≡ 0
unfolding count
count_absent r n [] e all = refl
count_absent r n (u ∷ us) e all = elim (Option-cases u.team_id) [
  | inl teamless ↦ ground (arith, teamless, count_absent r n us e all.1)
  | inr (k, on) ↦ elim (Bool-cases (k == n)) [
    | inr other ↦ ground (arith, on, other, count_absent r n us e all.1)
    | inl same ↦
        let key : k ≡ n = ground (arith, same) in
        let room : exists (is_team k) r.teams ≡ true = ground (arith, all.0, on) in
        absurd (omega (arith, e, count-exists (is_team n) r.teams (rw (← key) room)))
  ]
]

-- a team that an organizer makes has no captain and no member
pub opened-IsValid :
    (r : Roster) (t : TeamRow)
    → t.id ≡ r.team_seq
    → t.captain_id ≡ none
    → IsValid r
    → IsValid (add_team r t)
unfolding count exists
opened-IsValid r t new vacant valid = record {
  users_unique = valid.users_unique;
  teams_unique = λ i. elim (Bool-cases (r.team_seq == i)) [
    | inl own ↦
        let same : r.team_seq ≡ i = ground (arith, own) in
        ground (arith, same, new, count_fresh r.team_seq r.teams valid.fresh)
    | inr other ↦ ground (arith, other, new, valid.teams_unique i)
  ];
  seats = (rw vacant refl, valid.seats);
  led = (
    (λ c. rw new (
        count_absent r r.team_seq r.users (count_fresh r.team_seq r.teams valid.fresh)
          valid.enrolled)),
    valid.led,
  );
  enrolled = All-weaken r.users (λ u here. there_still u here) valid.enrolled;
  fresh = (ground (arith, new), All-weaken r.teams (λ o lt. omega (arith, lt)) valid.fresh);
}
  where
    there_still :
        (u : UserRow)
        → team_exists r.teams u.team_id ≡ true
        → team_exists (t ∷ r.teams) u.team_id ≡ true
    there_still u here = elim (Option-cases u.team_id) [
      | inl teamless ↦ rw teamless refl
      | inr (k, on) ↦ rw on (ground (arith, here, on))
    ]
