-- ===== src/Roster/Capacity.antt =====
-- The team_size cap: no sequence of requests puts more members on a team than the configured size,
-- whatever the order in which players race for the last seat.
use flagfish.Prelude.{
  ℕ, suc, ◌≤◌, ◌<◌, ◌≡◌, Bool, false, none, some, List, arith, ◌==◌, Bool-cases, inl, inr,
}
use flagfish.Prelude.Int.{pos}
use flagfish.Rows.{count, update_where}
use flagfish.Rows.Laws.{count-update_shrinks, count-update_keeps}
use flagfish.Roster.{UserRow, Roster, on_team, with_team, reached, may_leave}
use flagfish.Roster.Command.{may_kick, may_disband, member_of, orphaned}
use flagfish.Roster.Player.{Library}
use flagfish.Roster.Request.{Request, run}
use flagfish.Roster.Move.{
  Enrols, Move, leaves, detached, joins, founds, kicks, transfers, disbands, opens, edits_users,
  edits_teams, signs_out, Moves, stay, ◌▸◌, seated_users,
}
use flagfish.Roster.Valid.{IsValid}
use flagfish.Roster.Valid.Enroll.{own_team_count, other_team_count}
use flagfish.Roster.Valid.Moves.{Move-IsValid, run-Moves}

-- the cap is on, and no team exceeds it
pub record Capped (cap : ℕ) (r : Roster) : Type 0 where
  pub limit : r.team_size ≡ some (pos (suc cap))
  pub within : (team : ℕ) → count (on_team team) r.users ≤ suc cap

room_left : (cap n : ℕ) → reached (some (pos (suc cap))) n ≡ false → n < suc cap
unfolding reached
room_left cap n e = ground (arith, e)

-- a statement that only takes players off their teams
vacated-Capped :
    (cap : ℕ) (test : UserRow → Bool) (r : Roster)
    → Capped cap r
    → (team : ℕ) → count (on_team team) (update_where test (with_team none) r.users) ≤ suc cap
vacated-Capped cap test r capped team = omega (
  arith,
  capped.within team,
  count-update_shrinks (on_team team) test (with_team none) r.users
      (λ u e h. absurd (ground (arith, h))),
)

seated-Capped :
    (cap user team : ℕ) (r : Roster)
    → IsValid r
    → Enrols r user team
    → Capped cap r
    → (i : ℕ) → count (on_team i) (seated_users user team r) ≤ suc cap
seated-Capped cap user team r valid e capped i = elim (Bool-cases (i == team)) [
  | inr other ↦ rw (other_team_count user team r i other) (capped.within i)
  | inl own ↦
      let same : i ≡ team = ground (arith, own) in
      rw same (
        omega (
          arith,
          own_team_count user team r valid,
          room_left cap (count (on_team team) r.users) (rw (← capped.limit) e.room),
        ))
]

Move-Capped :
    {b : Bool} {r s : Roster} (cap : ℕ) → Move b r s → IsValid r → Capped cap r → Capped cap s
Move-Capped {r = r} cap (leaves user team) valid c = record {
  limit = c.limit;
  within = vacated-Capped cap (may_leave r user team) r c;
}
Move-Capped {r = r} cap (detached user team) valid c = record {
  limit = c.limit;
  within = vacated-Capped cap (member_of user team) r c;
}
Move-Capped {r = r} cap (joins user team e stands spares) valid c = record {
  limit = c.limit;
  within = seated-Capped cap user team r valid e c;
}
Move-Capped {r = r} cap (founds user t key led calm e) valid c = record {
  limit = c.limit;
  within = seated-Capped cap user t.id r valid e c;
}
Move-Capped {r = r} cap (kicks member captain) valid c = record {
  limit = c.limit;
  within = vacated-Capped cap (may_kick r member captain) r c;
}
Move-Capped {r = r} cap (transfers heir captain) valid c = record {
  limit = c.limit;
  within = c.within;
}
Move-Capped {r = r} cap (disbands captain clear) valid c = record {
  limit = c.limit;
  within = vacated-Capped cap (orphaned (may_disband r.users captain) r.teams) r c;
}
Move-Capped {r = r} cap (opens t key vacant calm) valid c = record {
  limit = c.limit;
  within = c.within;
}
Move-Capped {r = r} cap (edits_users test set key home spares) valid c = record {
  limit = c.limit;
  within = λ team.
      rw (count-update_keeps (on_team team) test set r.users (λ u e. ground (arith, home u)))
        (c.within team);
}
Move-Capped {r = r} cap (edits_teams test set key seat spares) valid c = record {
  limit = c.limit;
  within = c.within;
}
Move-Capped {r = r} cap (signs_out sessions api_tokens) valid c = record {
  limit = c.limit;
  within = c.within;
}

Moves-Capped :
    {b : Bool} {r s : Roster} (cap : ℕ) → Moves b r s → IsValid r → Capped cap r → Capped cap s
Moves-Capped cap stay valid c = c
Moves-Capped cap (m ▸ ms) valid c =
    Moves-Capped cap ms (Move-IsValid m valid) (Move-Capped cap m valid c)

-- Where team_size is a positive number and no team of a valid roster exceeds it, no team exceeds it
-- after any sequence of requests, an organizer's moves between teams included.
pub run-Capped :
    (lib : Library) (qs : List Request) (cap : ℕ) (r : Roster)
    → IsValid r
    → Capped cap r
    → Capped cap (run lib r qs)
run-Capped lib qs cap r valid c = Moves-Capped cap (run-Moves lib qs r valid) valid c
