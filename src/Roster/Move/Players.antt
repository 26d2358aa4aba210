-- ===== src/Roster/Move/Players.antt =====
-- Every operation of a player or a captain is a sequence of moves.
use Prim.Native.String.{String}
use flagfish.Prelude.{
  ℕ, ◌≡◌, refl, ◌∙◌, Bool, true, false, ◌&&◌, Option, some, arith, Option-cases, inl, inr, ◌⊎◌,
}
use flagfish.Rows.{count, exists, update_where}
use flagfish.Flags.Space.{Bytes}
use flagfish.Roster.{
  TeamRow, Roster, reached, on_team, is_team, set_teams, teamless_with_id, new_team, led_by,
  with_hash, create_team, enroll_user, adopt_captainless_team, leave_team,
  reassign_captain_after_leave,
}
use flagfish.Roster.Command.{
  Patch, has_history, may_disband, apply_patch, kick_member, transfer_captaincy, disband_team,
  set_join_secret_by_captain, update_team_password_hash, update_team_by_captain,
}
use flagfish.Roster.Reads.{own_team, get_user, get_team_for_join}
use flagfish.Roster.Player.{
  Library, Failure, Result, failed, succeeded, enroll, create_tx, create, commit_own,
  reply_own_team, join_tx, join_found, join_verified, join, rehash_team_password, rehashed,
  hash_join_secret,
}
use flagfish.Roster.Captain.{
  commit, leave_tx, leave, update_own_team, set_join_secret, kick, transfer, disband,
}
use flagfish.Roster.Admin.{on_banned_team}
use flagfish.Roster.Move.Admins.{teams_spare, banned_kept, joined_spare, open_team}
use flagfish.Roster.Move.{
  Spares, Move, leaves, joins, founds, kicks, transfers, disbands, edits_teams, Moves, stay, one,
  Moves-trans, joined, kicked, transferred,
}

-- what a transaction commits is reached by moves
abbrev pub Commits : Bool → Roster → Result Roster → Type 0
Commits b r (failed f) = Unit
Commits b r (succeeded s) = Moves b r s

-- what a join saw of the team: if it was not banned then, it is not banned now
abbrev pub Current : Roster → Roster → String → Type 0
Current seen r name =
    (t : TeamRow)
    → get_team_for_join seen name ≡ some t
    → t.banned ≡ false
    → on_banned_team r.teams (some t.id) ≡ false

Result-cases {ℓ} :
    {A : Type ℓ} (x : Result A) → ((f : Failure) × (x ≡ failed f)) ⊎ ((a : A) × (x ≡ succeeded a))
Result-cases (failed f) = inl (f, refl)
Result-cases (succeeded a) = inr (a, refl)

-- the read after a commit changes nothing
pub reply_own_team_keeps : (r : Roster) (user : ℕ) → (reply_own_team r user).1 ≡ r
unfolding reply_own_team
reply_own_team_keeps r user = elim (Option-cases (own_team r user)) [
  | inl absent ↦ rw (absent, reply_own_team) refl
  | inr (p, found) ↦ rw (found, reply_own_team) refl
]

rehash-banned :
    (lib : Library) (r : Roster) (t : TeamRow) (password : Bytes) (rehash : Bool) (k : Option ℕ)
    → on_banned_team (rehashed lib r t password rehash).teams k ≡ on_banned_team r.teams k
unfolding rehash_team_password update_team_password_hash
rehash-banned lib r t password false k = refl
rehash-banned lib r t password true k = elim (Option-cases (lib.hash password)) [
  | inl failure ↦ rw (failure, rehash_team_password) refl
  | inr (h, hashed) ↦
      rw (hashed, rehash_team_password)
        (banned_kept (is_team t.id) (with_hash h) r.teams (λ o. refl) (λ o. refl) k)
]

module _ (b : Bool) where
  move : {r s : Roster} → Move b r s → Moves b r s
  move = one

  halt : (r : Roster) → Moves b r r
  halt r = stay

  create_tx-Commits :
      (r : Roster) (user : ℕ) (name : String) (hash : Bytes)
      → Commits b r (create_tx r user name hash)
  unfolding create_tx create_team enroll enroll_user
  create_tx-Commits r user name hash = ground (
    arith,
    λ (there : exists (teamless_with_id user) r.users ≡ true)
          (room : reached r.team_size (count (on_team r.team_seq) r.users) ≡ false).
        move (
          founds {r = r} user (new_team r name hash user) refl refl refl
            (record { there = there; room = room })),
  )

  join_tx-Commits :
      (r : Roster) (team user : ℕ)
      → (b ≡ true → Spares r (joined user team r))
      → Commits b r (join_tx r team user)
  unfolding join_tx enroll enroll_user adopt_captainless_team
  join_tx-Commits r team user spares = ground (
    arith,
    λ (there : exists (teamless_with_id user) r.users ≡ true)
          (room : reached r.team_size (count (on_team team) r.users) ≡ false)
          (stands : exists (is_team team) r.teams ≡ true).
        move (joins {r = r} user team (record { there = there; room = room }) stands spares),
  )

  leave_tx-Commits : (r : Roster) (user team : ℕ) → Commits b r (leave_tx r user team)
  unfolding leave_tx leave_team reassign_captain_after_leave
  leave_tx-Commits r user team = ground (arith, move (leaves {r = r} user team))

  commit_own-Moves :
      (r : Roster) (x : Result Roster) (user : ℕ)
      → Commits b r x
      → Moves b r (commit_own r x user).1
  unfolding commit_own
  commit_own-Moves r (failed f) user kept = stay
  commit_own-Moves r (succeeded s) user kept = rw (reply_own_team_keeps s user) kept

  pub create-Moves :
      (lib : Library) (r : Roster) (user : ℕ) (name : String) (password : Bytes)
      → Moves b r (create lib r user name password).1
  unfolding create
  create-Moves lib r user name password = elim (Result-cases (hash_join_secret lib password)) [
    | inl (f, weak) ↦ rw (weak, create) stay
    | inr (h, hashed) ↦
        rw (hashed, create)
          (commit_own-Moves r (create_tx r user name h) user (create_tx-Commits r user name h))
  ]

  rehashed-Moves :
      (lib : Library) (r : Roster) (t : TeamRow) (password : Bytes) (rehash : Bool)
      → Moves b r (rehashed lib r t password rehash)
  unfolding rehash_team_password update_team_password_hash
  rehashed-Moves lib r t password false = stay
  rehashed-Moves lib r t password true = elim (Option-cases (lib.hash password)) [
    | inl failure ↦ rw (failure, rehash_team_password) stay
    | inr (h, hashed) ↦
        rw (hashed, rehash_team_password)
          (move (
            edits_teams {r = r} (is_team t.id) (with_hash h) (λ o. refl) (λ o. refl)
              (teams_spare (is_team t.id) (with_hash h) r (λ o. refl) (λ o. refl))))
  ]

  join_found-Moves :
      (lib : Library) (r : Roster) (user : ℕ) (t : TeamRow) (password : Bytes)
      → (b ≡ true → t.banned ≡ false → on_banned_team r.teams (some t.id) ≡ false)
      → Moves b r (join_found lib r user t password).1
  unfolding join_found join_verified
  join_found-Moves lib r user t password calm = ground (
    arith,
    halt r,
    λ (open_to_all : t.banned ≡ false). Moves-trans kept (
        commit_own-Moves before (join_tx before t.id user) user (
          join_tx-Commits before t.id user (λ careful. joined_spare before user t.id (
            open_team
              (rehash-banned lib r t password rehash (some t.id) ∙ calm careful open_to_all))))),
  )
    where
      rehash : Bool
      rehash = (lib.verify t.password_hash password).1

      before : Roster
      before = rehashed lib r t password rehash

      kept : Moves b r before
      kept = rehashed-Moves lib r t password rehash

  pub join-Moves :
      (lib : Library) (seen r : Roster) (user : ℕ) (name : String) (password : Bytes)
      → (b ≡ true → Current seen r name)
      → Moves b r (join lib seen r user name password).1
  unfolding join
  join-Moves lib seen r user name password current =
      elim (Option-cases (get_team_for_join seen name)) [
        | inl absent ↦ rw (absent, join) stay
        | inr (t, found) ↦
            rw (found, join)
              (join_found-Moves lib r user t password
                (λ careful open_to_all. current careful t found open_to_all))
      ]

  commit-Moves : (r : Roster) (x : Result Roster) → Commits b r x → Moves b r (commit r x).1
  commit-Moves r (failed f) kept = stay
  commit-Moves r (succeeded s) kept = kept

  pub leave-Moves : (seen r : Roster) (user : ℕ) → Moves b r (leave seen r user).1
  unfolding leave
  leave-Moves seen r user = elim (Option-cases (get_user seen user)) [
    | inl absent ↦ rw (absent, leave) stay
    | inr (u, found) ↦ elim (Option-cases u.team_id) [
      | inl teamless ↦ rw (found, leave, teamless) stay
      | inr (team, on) ↦
          rw (found, leave, on)
            (commit-Moves r (leave_tx r user team) (leave_tx-Commits r user team))
    ]
  ]

  pub update_own_team-Moves :
      (lib : Library) (r : Roster) (user : ℕ) (p : Patch)
      → Moves b r (update_own_team lib r user p).1
  unfolding update_own_team update_team_by_captain apply_patch
  update_own_team-Moves lib r user p = ground (
    arith,
    halt r,
    reply_own_team_keeps
        (set_teams r (update_where (may_disband r.users user) (apply_patch p) r.teams)) user,
    move (
        edits_teams {r = r} (may_disband r.users user) (apply_patch p) (λ t. refl) (λ t. refl)
          (teams_spare (may_disband r.users user) (apply_patch p) r (λ t. refl) (λ t. refl))),
  )

  pub set_join_secret-Moves :
      (lib : Library) (r : Roster) (user : ℕ) (secret : Bytes)
      → Moves b r (set_join_secret lib r user secret).1
  unfolding set_join_secret set_join_secret_by_captain
  set_join_secret-Moves lib r user secret = elim (Result-cases (hash_join_secret lib secret)) [
    | inl (f, weak) ↦ rw (weak, set_join_secret) stay
    | inr (h, hashed) ↦
        rw (hashed, set_join_secret)
          (ground (
            arith,
            halt r,
            move (
                edits_teams {r = r} (led_by user) (with_hash h) (λ t. refl) (λ t. refl)
                  (teams_spare (led_by user) (with_hash h) r (λ t. refl) (λ t. refl))),
          ))
  ]

  pub kick-Moves : (r : Roster) (user member : ℕ) → Moves b r (kick r user member).1
  unfolding kick kick_member
  kick-Moves r user member =
      ground
        (arith, reply_own_team_keeps (kicked member user r) user, move (kicks {r = r} member user))

  pub transfer-Moves : (r : Roster) (user heir : ℕ) → Moves b r (transfer r.users r user heir).1
  unfolding transfer transfer_captaincy
  transfer-Moves r user heir = ground (
    arith,
    reply_own_team_keeps (transferred heir user r) user,
    move (transfers {r = r} heir user),
  )

  pub disband-Moves : (r : Roster) (user : ℕ) → Moves b r (disband r user).1
  unfolding disband disband_team
  disband-Moves r user = ground (
    arith,
    halt r,
    λ (clear : exists (λ t. may_disband r.users user t && has_history r t) r.teams ≡ false).
        move (disbands {r = r} user clear),
  )
