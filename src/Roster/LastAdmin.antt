-- ===== src/Roster/LastAdmin.antt =====
-- The instance keeps an admin who can log in and administer: one who is not banned and is on no
-- banned team. A join reads whether the team is banned before its transaction and without the lock on
-- the admin roster; `LostAdmin` is what a ban in between can do.
use Prim.Native.String.{String}
use flagfish.Prelude.{
  ℕ, ◌≡◌, refl, Bool, true, false, not, ◌&&◌, none, some, ◌∷◌, arith, Option-cases, Bool-cases, inl,
  inr, sym,
}
use flagfish.Rows.{exists, update_where, delete_where}
use mathlib.Core.Path.{subst}
use flagfish.Rows.Laws.{count-exists, exists-map}
use flagfish.Rows.Kept.{count-split, exists-of-first, exists-delete_false}
use flagfish.Roster.{
  UserRow, TeamRow, Roster, is_team, with_team, named, add_team, may_leave, with_captain,
}
use flagfish.Roster.Command.{may_kick, may_disband, may_transfer, orphaned, member_of}
use flagfish.Roster.Reads.{get_team_for_join}
use flagfish.Roster.Admin.{usable_admin, on_banned_team}
use flagfish.Roster.Player.{Library}
use flagfish.Roster.Request.{Request, step}
use flagfish.Roster.Valid.{IsValid}
use flagfish.Roster.Valid.Found.{count_fresh}
use flagfish.Roster.Valid.Moves.{Move-IsValid}
use flagfish.Roster.Move.{
  HasAdmin, Spares, Move, leaves, detached, joins, founds, kicks, transfers, disbands, opens,
  edits_users, edits_teams, signs_out, Moves, stay, ◌▸◌, disbanded,
}
use flagfish.Roster.Move.Admins.{
  teams_spare, vacated_spare, departed_spare, banned_with, open_team, enrolled_spare,
}
use flagfish.Roster.Move.Players.{Current}
use flagfish.Roster.Move.Organizers.{Careful, step-Moves}

-- a new team that is not banned
added_spare : (t : TeamRow) (r : Roster) → t.banned ≡ false → Spares r (add_team r t)
unfolding exists
added_spare t r calm some_admin =
    exists-map (usable_admin r.teams) (usable_admin (t ∷ r.teams)) r.users (λ u e. still u e)
      some_admin
  where
    still : (u : UserRow) → usable_admin r.teams u ≡ true → usable_admin (t ∷ r.teams) u ≡ true
    still u e = elim (Option-cases u.team_id) [
      | inl teamless ↦ ground (arith, e, teamless)
      | inr (k, on) ↦ ground (arith, e, on, calm)
    ]

new_team_calm :
    (t : TeamRow) (r : Roster)
    → IsValid r
    → t.id ≡ r.team_seq
    → t.banned ≡ false
    → on_banned_team (t ∷ r.teams) (some t.id) ≡ false
unfolding exists
new_team_calm t r valid new calm = elim (Bool-cases (exists (banned_with t.id) r.teams)) [
  | inr free ↦ ground (arith, calm, free)
  | inl used ↦ absurd (
      ground (
        arith,
        new,
        count_fresh r.team_seq r.teams valid.fresh,
        count-exists (is_team t.id) r.teams
            (exists-map (banned_with t.id) (is_team t.id) r.teams (λ o e. ground (arith, e)) used),
      ))
]

disbanded_spare : (captain : ℕ) (r : Roster) → Spares r (disbanded captain r)
disbanded_spare captain r some_admin =
    exists-map (usable_admin r.teams) (usable_admin (delete_where gone r.teams))
      (update_where (orphaned gone r.teams) (with_team none) r.users) (λ u e. still u e)
      (vacated_spare (orphaned gone r.teams) r some_admin)
  where
    gone : TeamRow → Bool
    gone = may_disband r.users captain

    still :
        (u : UserRow)
        → usable_admin r.teams u ≡ true
        → usable_admin (delete_where gone r.teams) u ≡ true
    still u e = elim (Option-cases u.team_id) [
      | inl teamless ↦ ground (arith, e, teamless)
      | inr (k, on) ↦ ground (arith, e, on, exists-delete_false (banned_with k) gone r.teams)
    ]

Move-HasAdmin : {r s : Roster} → Move true r s → IsValid r → HasAdmin r → HasAdmin s
Move-HasAdmin {r = r} (leaves user team) valid h =
    departed_spare (may_leave r user team) user team r h
Move-HasAdmin {r = r} (detached user team) valid h =
    departed_spare (member_of user team) user team r h
Move-HasAdmin {r = r} (joins user team e stands spares) valid h = spares refl h
Move-HasAdmin {r = r} (founds user t key led calm e) valid h =
    enrolled_spare (add_team r t) user t.id (open_team (new_team_calm t r valid key calm))
      (added_spare t r calm h)
Move-HasAdmin {r = r} (kicks member captain) valid h = vacated_spare (may_kick r member captain) r h
Move-HasAdmin {r = r} (transfers heir captain) valid h =
    teams_spare (may_transfer r.users heir captain) (with_captain (some heir)) r (λ t. refl)
      (λ t. refl) h
Move-HasAdmin {r = r} (disbands captain clear) valid h = disbanded_spare captain r h
Move-HasAdmin {r = r} (opens t key vacant calm) valid h = added_spare t r calm h
Move-HasAdmin {r = r} (edits_users test set key home spares) valid h = spares h
Move-HasAdmin {r = r} (edits_teams test set key seat spares) valid h = spares h
Move-HasAdmin {r = r} (signs_out sessions api_tokens) valid h = h

Moves-HasAdmin : {r s : Roster} → Moves true r s → IsValid r → HasAdmin r → HasAdmin s
Moves-HasAdmin stay valid h = h
Moves-HasAdmin (m ▸ ms) valid h = Moves-HasAdmin ms (Move-IsValid m valid) (Move-HasAdmin m valid h)

-- a join that read the roster it writes is careful
serial-Current : (r : Roster) (name : String) → IsValid r → Current r r name
unfolding get_team_for_join
serial-Current r name valid t found calm = elim (Bool-cases (on_banned_team r.teams (some t.id))) [
  | inr free ↦ free
  | inl taken ↦ absurd (
      ground (
        arith,
        valid.teams_unique t.id,
        count-split (is_team t.id) (λ o. o.banned) r.teams
            (exists-map (banned_with t.id) (λ o. o.banned && is_team t.id o) r.teams
              (λ o e. ground (arith, e)) taken)
            (exists-map (λ o. named name o && (is_team t.id o && not o.banned))
              (λ o. not o.banned && is_team t.id o) r.teams (λ o e. ground (arith, e))
              (exists-of-first (named name) r.teams t found (λ o. is_team t.id o && not o.banned)
                (ground (arith, calm)))),
      ))
]

-- the requests that no other one overlaps
abbrev pub Serial : Roster → Request → Type 0
Serial r (Request.join_request seen user name password) = seen ≡ r
Serial r _ = Unit

Serial-Careful : (r : Roster) (q : Request) → IsValid r → Serial r q → Careful true r q
Serial-Careful r (Request.join_request seen user name password) valid same =
    λ e. subst (λ s. Current s r name) (sym same) (serial-Current r name valid)
Serial-Careful r _ valid same = tt

-- No request costs a valid roster its last usable admin, where a join reads the roster it writes:
-- bans of users and of teams, demotions, moves between teams, departures, joins and disbanded teams
-- included.
pub step-HasAdmin :
    (lib : Library) (r : Roster) (q : Request)
    → IsValid r
    → Serial r q
    → HasAdmin r
    → HasAdmin (step lib r q)
step-HasAdmin lib r q valid serial h =
    Moves-HasAdmin (step-Moves true lib r q valid (Serial-Careful r q valid serial)) valid h
