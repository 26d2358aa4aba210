-- ===== src/Roster/History.antt =====
-- The ledger outlives the roster: what a team has scored stays, the team that scored it stays, and
-- its players cannot shrink it.
use flagfish.Prelude.{
  ℕ, ◌≡◌, refl, ◌∙◌, Bool, true, false, ◌&&◌, ◌||◌, some, List, arith, Bool-cases, inl, inr,
}
use flagfish.Rows.{exists, delete_where}
use flagfish.Rows.Laws.{exists-update_same, exists-map}
use flagfish.Rows.Kept.{exists-delete}
use flagfish.Roster.{
  TeamRow, Roster, is_team, for_team, may_leave, led_team, with_min, with_captain, adoptable,
}
use flagfish.Roster.Command.{has_history, may_disband, may_transfer, member_of}
use flagfish.Roster.Player.{Library}
use flagfish.Roster.Request.{Request, run}
use flagfish.Roster.Move.{
  Move, leaves, detached, joins, founds, kicks, transfers, disbands, opens, edits_users,
  edits_teams, signs_out, Moves, stay, ◌▸◌, vacated, seated_users,
}
use flagfish.Roster.Valid.{IsValid}
use flagfish.Roster.Valid.Moves.{run-Moves}

-- the team stands with every ledger row that it had
pub record Remembers (team : ℕ) (r s : Roster) : Type 0 where
  pub solves_kept : s.solves ≡ r.solves
  pub awards_kept : s.awards ≡ r.awards
  pub submissions_kept : s.submissions ≡ r.submissions
  pub unlocks_kept : s.hint_unlocks ≡ r.hint_unlocks
  pub stands : exists (is_team team) s.teams ≡ true

-- whether any ledger row names the team
abbrev pub in_ledger : Roster → ℕ → Bool
in_ledger r team =
    exists (for_team team) r.submissions
    || exists (for_team team) r.solves
    || (exists (for_team team) r.awards || exists (for_team team) r.hint_unlocks)

team_survives :
    (r : Roster) (captain team : ℕ)
    → in_ledger r team ≡ true
    → exists (λ t. may_disband r.users captain t && has_history r t) r.teams ≡ false
    → exists (is_team team) r.teams ≡ true
    → exists (is_team team) (delete_where (may_disband r.users captain) r.teams) ≡ true
team_survives r captain team known clear stands =
    exists-delete (is_team team) (may_disband r.users captain) r.teams stands not_gone
  where
    doomed :
        (t : TeamRow)
        → (may_disband r.users captain t && is_team team t) ≡ true
        → (may_disband r.users captain t && has_history r t) ≡ true
    doomed t e =
        let same : t.id ≡ team = ground (arith, e) in
        let history : has_history r t ≡ true = rw same known in ground (arith, e, history)

    not_gone : exists (λ t. may_disband r.users captain t && is_team team t) r.teams ≡ false
    not_gone =
        elim (Bool-cases (exists (λ t. may_disband r.users captain t && is_team team t) r.teams)) [
          | inr safe ↦ safe
          | inl gone ↦ absurd (
              ground (
                arith,
                clear,
                exists-map (λ t. may_disband r.users captain t && is_team team t)
                    (λ t. may_disband r.users captain t && has_history r t) r.teams
                    (λ t e. doomed t e) gone,
              ))
        ]

Move-Remembers :
    {b : Bool} {r s : Roster} (team : ℕ)
    → Move b r s
    → in_ledger r team ≡ true
    → exists (is_team team) r.teams ≡ true
    → Remembers team r s
unfolding exists
Move-Remembers {r = r} team (leaves user k) known stands = record {
  solves_kept = refl;
  awards_kept = refl;
  submissions_kept = refl;
  unlocks_kept = refl;
  stands =
      exists-update_same (is_team team) (led_team k user)
        (with_min (vacated (may_leave r user k) r)) r.teams (λ t. refl)
      ∙ stands;
}
Move-Remembers {r = r} team (detached user k) known stands = record {
  solves_kept = refl;
  awards_kept = refl;
  submissions_kept = refl;
  unlocks_kept = refl;
  stands =
      exists-update_same (is_team team) (led_team k user) (with_min (vacated (member_of user k) r))
        r.teams (λ t. refl)
      ∙ stands;
}
Move-Remembers {r = r} team (joins user k e there spares) known stands = record {
  solves_kept = refl;
  awards_kept = refl;
  submissions_kept = refl;
  unlocks_kept = refl;
  stands =
      exists-update_same (is_team team) (adoptable (seated_users user k r) k)
        (with_captain (some user)) r.teams (λ t. refl)
      ∙ stands;
}
Move-Remembers {r = r} team (founds user t key led calm e) known stands = record {
  solves_kept = refl;
  awards_kept = refl;
  submissions_kept = refl;
  unlocks_kept = refl;
  stands = ground (arith, stands);
}
Move-Remembers {r = r} team (kicks member captain) known stands = record {
  solves_kept = refl;
  awards_kept = refl;
  submissions_kept = refl;
  unlocks_kept = refl;
  stands = stands;
}
Move-Remembers {r = r} team (transfers heir captain) known stands = record {
  solves_kept = refl;
  awards_kept = refl;
  submissions_kept = refl;
  unlocks_kept = refl;
  stands =
      exists-update_same (is_team team) (may_transfer r.users heir captain)
        (with_captain (some heir)) r.teams (λ t. refl)
      ∙ stands;
}
Move-Remembers {r = r} team (disbands captain clear) known stands = record {
  solves_kept = refl;
  awards_kept = refl;
  submissions_kept = refl;
  unlocks_kept = refl;
  stands = team_survives r captain team known clear stands;
}
Move-Remembers {r = r} team (opens t key vacant calm) known stands = record {
  solves_kept = refl;
  awards_kept = refl;
  submissions_kept = refl;
  unlocks_kept = refl;
  stands = ground (arith, stands);
}
Move-Remembers {r = r} team (edits_users test set key home spares) known stands = record {
  solves_kept = refl;
  awards_kept = refl;
  submissions_kept = refl;
  unlocks_kept = refl;
  stands = stands;
}
Move-Remembers {r = r} team (edits_teams test set key seat spares) known stands = record {
  solves_kept = refl;
  awards_kept = refl;
  submissions_kept = refl;
  unlocks_kept = refl;
  stands = exists-update_same (is_team team) test set r.teams (λ t. ground (arith, key t)) ∙ stands;
}
Move-Remembers {r = r} team (signs_out sessions api_tokens) known stands = record {
  solves_kept = refl;
  awards_kept = refl;
  submissions_kept = refl;
  unlocks_kept = refl;
  stands = stands;
}

Remembers-trans :
    (team : ℕ) (r s t : Roster) → Remembers team r s → Remembers team s t → Remembers team r t
Remembers-trans team r s t m n = record {
  solves_kept = n.solves_kept ∙ m.solves_kept;
  awards_kept = n.awards_kept ∙ m.awards_kept;
  submissions_kept = n.submissions_kept ∙ m.submissions_kept;
  unlocks_kept = n.unlocks_kept ∙ m.unlocks_kept;
  stands = n.stands;
}

in_ledger_kept :
    (team : ℕ) (r s : Roster)
    → Remembers team r s
    → in_ledger r team ≡ true
    → in_ledger s team ≡ true
in_ledger_kept team r s m known =
    rw (m.submissions_kept, m.solves_kept, m.awards_kept, m.unlocks_kept) known

Moves-Remembers :
    {b : Bool} {r s : Roster} (team : ℕ)
    → Moves b r s
    → in_ledger r team ≡ true
    → exists (is_team team) r.teams ≡ true
    → Remembers team r s
Moves-Remembers team stay known stands = record {
  solves_kept = refl;
  awards_kept = refl;
  submissions_kept = refl;
  unlocks_kept = refl;
  stands = stands;
}
Moves-Remembers {r = r} team (◌▸◌ {s = mid} {t = t} m ms) known stands =
    Remembers-trans team r mid t first_leg
      (Moves-Remembers team ms (in_ledger_kept team r mid first_leg known) first_leg.stands)
  where
    first_leg : Remembers team r mid
    first_leg = Move-Remembers team m known stands

-- A team that a solve, an award, a submission or a hint unlock names is still there after any
-- sequence of requests to a valid roster, and no row of the ledger has changed.
pub run-Remembers :
    (lib : Library) (qs : List Request) (r : Roster) (team : ℕ)
    → IsValid r
    → in_ledger r team ≡ true
    → exists (is_team team) r.teams ≡ true
    → Remembers team r (run lib r qs)
run-Remembers lib qs r team valid known stands =
    Moves-Remembers team (run-Moves lib qs r valid) known stands
