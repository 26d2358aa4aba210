-- ===== src/Roster/Denied.antt =====
-- A denied join: an unknown name, a banned team and a wrong password get one and the same answer,
-- which no other refusal gives, and change nothing.
use Prim.Native.String.{String}
use flagfish.Prelude.{
  ℕ, ◌≡◌, refl, sym, ◌∙◌, Bool, true, false, not, ◌||◌, none, some, arith, Option-cases, Bool-cases,
  inl, inr,
}
use flagfish.Flags.Space.{Bytes}
use flagfish.Roster.{TeamRow, Roster, enroll_user, adopt_captainless_team}
use flagfish.Roster.Reads.{get_team_for_join}
use flagfish.Roster.Player.{
  Library, Result, failed, succeeded, team_join_denied, join, join_found, join_verified, rehashed,
  join_tx, enroll, enroll_error, commit_own, reply_own_team,
}

-- the three reasons
unfoldable pub denied : Library → Roster → String → Bytes → Bool
denied lib seen name password = elim (get_team_for_join seen name) [
  | none ↦ true
  | some t ↦ t.banned || not (lib.verify t.password_hash password).0
]

abbrev pub is_denial {ℓ} : {A : Type ℓ} → Result A → Bool
is_denial (failed team_join_denied) = true
is_denial _ = false

tx-not_denial : (r : Roster) (team user : ℕ) → is_denial (join_tx r team user) ≡ false
unfolding join_tx enroll enroll_user enroll_error adopt_captainless_team
tx-not_denial r team user = ground arith

own-not_denial : (r : Roster) (user : ℕ) → is_denial (reply_own_team r user).0 ≡ false
unfolding reply_own_team
own-not_denial r user = ground arith

commit-not_denial :
    (r : Roster) (x : Result Roster) (user : ℕ)
    → is_denial x ≡ false
    → is_denial (commit_own r x user).0 ≡ false
unfolding commit_own
commit-not_denial r (failed f) user other = ground (arith, other)
commit-not_denial r (succeeded s) user other = own-not_denial s user

found-not_denial :
    (lib : Library) (r : Roster) (user : ℕ) (t : TeamRow) (password : Bytes)
    → (t.banned || not (lib.verify t.password_hash password).0) ≡ false
    → is_denial (join_found lib r user t password).0 ≡ false
unfolding join_found join_verified
found-not_denial lib r user t password passes = ground (
  arith,
  passes,
  commit-not_denial before (join_tx before t.id user) user (tx-not_denial before t.id user),
)
  where
    before : Roster
    before = rehashed lib r t password (lib.verify t.password_hash password).1

quiet :
    (lib : Library) (r : Roster) (user : ℕ) (t : TeamRow) (password : Bytes)
    → (t.banned || not (lib.verify t.password_hash password).0) ≡ true
    → join_found lib r user t password ≡ (failed team_join_denied, r)
unfolding join_found
quiet lib r user t password e = elim (Bool-cases t.banned) [
  | inl banned ↦ rw (banned, join_found) refl
  | inr calm ↦
      let wrong : (lib.verify t.password_hash password).0 ≡ false = ground (arith, e, calm) in
      rw (calm, join_found, join_verified, wrong) refl
]

-- A join for an unknown name, for a banned team or with a wrong password changes nothing, and its
-- answer is the one denial.
join-denied :
    (lib : Library) (seen r : Roster) (user : ℕ) (name : String) (password : Bytes)
    → denied lib seen name password ≡ true
    → join lib seen r user name password ≡ (failed team_join_denied, r)
unfolding denied join
join-denied lib seen r user name password e = elim (Option-cases (get_team_for_join seen name)) [
  | inl absent ↦ rw (absent, join) refl
  | inr (t, found) ↦ rw (found, join) (quiet lib r user t password (ground (arith, e, found)))
]

-- A join is answered by the denial exactly when the name is unknown, the team is banned or the
-- password is wrong: a full team, a user who is on a team already and every other refusal answer
-- otherwise.
pub join_denial_iff :
    (lib : Library) (seen r : Roster) (user : ℕ) (name : String) (password : Bytes)
    → is_denial (join lib seen r user name password).0 ≡ denied lib seen name password
unfolding denied join
join_denial_iff lib seen r user name password = elim (Bool-cases (denied lib seen name password)) [
  | inl e ↦ rw (join-denied lib seen r user name password e, e) refl
  | inr e ↦ elim (Option-cases (get_team_for_join seen name)) [
    | inl absent ↦ absurd (ground (arith, e, absent))
    | inr (t, found) ↦
        rw (found, join) (found-not_denial lib r user t password (ground (arith, e, found))) ∙ sym e
  ]
]
