-- ===== src/Roster/Player.antt =====
-- `Service` of internal/accounts/teams.go: the team operations of players and captains. `Library`
-- stands for the password hashing and for the database's `lower`. A transaction that fails leaves
-- the tables as they were; the rehash of a join password is outside the transaction.
use Prim.Native.String.{String}
use flagfish.Prelude.{ℕ, Bool, Option, none, some, ltb, length, ◌==◌, if◌then◌else◌}
use flagfish.Flags.Space.{Bytes}
use flagfish.Roster.{
  TeamRow, Roster, SqlError, unique_violation, check_violation, foreign_key_violation, raised,
  touched, create_team, enroll_user, adopt_captainless_team,
}
use flagfish.Roster.Command.{update_team_password_hash}
use flagfish.Roster.Reads.{Profile, own_team, get_team_for_join}

pub record Library : Type 0 where
  -- `Hash`: `none` is its error
  pub hash : Bytes → Option Bytes
  -- `Verify`: whether the password fits, and whether to hash it again
  pub verify : Bytes → Bytes → Bool × Bool
  pub lower : String → String

pub data Failure : Type 0 where
  team_name_taken team_cap_reached team_full already_on_team team_join_denied : Failure
  not_on_team team_has_scored not_captain team_email_taken join_secret_too_short : Failure
  target_not_member cannot_kick_self team_has_history : Failure
  no_such_user hash_failed : Failure
  database : SqlError → Failure

pub data Result {ℓ} (A : Type ℓ) : Type ℓ where
  failed : Failure → Result A
  succeeded : A → Result A

-- the reply and the tables after it
abbrev pub Reply : Type 0 → Type 0
Reply A = Result A × Roster

abbrev pub min_join_secret_len : ℕ
min_join_secret_len = 8

-- `HashJoinSecret`
unfoldable pub hash_join_secret : Library → Bytes → Result Bytes
hash_join_secret lib secret =
    if ltb (length secret) min_join_secret_len
    then failed join_secret_too_short
    else elim (lib.hash secret) [ none ↦ failed hash_failed | some h ↦ succeeded h ]

-- the `return s.OwnTeam(ctx, userID)` after a commit
unfoldable pub reply_own_team : Roster → ℕ → Reply Profile
unfolding own_team
reply_own_team r user = elim (own_team r user) [
  | none ↦ (failed not_on_team, r)
  | some p ↦ (succeeded p, r)
]

unfoldable pub enroll_error : SqlError → Failure
enroll_error check_violation = team_full
enroll_error unique_violation = database unique_violation
enroll_error foreign_key_violation = database foreign_key_violation

-- `enroll`
unfoldable pub enroll : Roster → ℕ → ℕ → Result Roster
unfolding enroll_user enroll_error
enroll r team user = elim (enroll_user r team user) [
  | raised e ↦ failed (enroll_error e)
  | touched rows after ↦ if rows == 0 then failed already_on_team else succeeded after
]

unfoldable pub create_error : SqlError → Failure
create_error unique_violation = team_name_taken
create_error check_violation = team_cap_reached
create_error foreign_key_violation = database foreign_key_violation

-- the transaction of CreateTeam: the row, then its captain's membership; the new id is `r.team_seq`
unfoldable pub create_tx : Roster → ℕ → String → Bytes → Result Roster
unfolding create_team create_error enroll
create_tx r user name hash = elim (create_team r name hash user) [
  | raised e ↦ failed (create_error e)
  | touched _ made ↦ enroll made r.team_seq user
]

-- a transaction, then the caller's own team
unfoldable pub commit_own : Roster → Result Roster → ℕ → Reply Profile
unfolding reply_own_team
commit_own r (failed f) user = (failed f, r)
commit_own r (succeeded after) user = reply_own_team after user

-- `CreateTeam`
unfoldable pub create : Library → Roster → ℕ → String → Bytes → Reply Profile
unfolding hash_join_secret create_tx commit_own
create lib r user name password = elim (hash_join_secret lib password) [
  | failed f ↦ (failed f, r)
  | succeeded h ↦ commit_own r (create_tx r user name h) user
]

unfoldable pub join_tx : Roster → ℕ → ℕ → Result Roster
unfolding enroll adopt_captainless_team
join_tx r team user = elim (enroll r team user) [
  | failed f ↦ failed f
  | succeeded enrolled ↦ elim (adopt_captainless_team enrolled user team) [
    | raised e ↦ failed (database e)
    | touched _ after ↦ succeeded after
  ]
]

-- `rehashTeamPassword`
unfoldable pub rehash_team_password : Library → Roster → ℕ → Bytes → Roster
unfolding update_team_password_hash
rehash_team_password lib r team password = elim (lib.hash password) [
  | none ↦ r
  | some h ↦ update_team_password_hash r team h
]

abbrev pub rehashed : Library → Roster → TeamRow → Bytes → Bool → Roster
rehashed lib r t password rehash = if rehash then rehash_team_password lib r t.id password else r

abbrev pub commit_join : Roster → ℕ → ℕ → Reply Profile
commit_join r team user = commit_own r (join_tx r team user) user

unfoldable pub join_verified : Library → Roster → ℕ → TeamRow → Bytes → Bool × Bool → Reply Profile
unfolding rehash_team_password
join_verified lib r user t password verdict =
    if verdict.0
    then commit_join (rehashed lib r t password verdict.1) t.id user
    else (failed team_join_denied, r)

-- `JoinTeam` with the row of the team
unfoldable pub join_found : Library → Roster → ℕ → TeamRow → Bytes → Reply Profile
unfolding join_verified
join_found lib r user t password =
    if t.banned
    then (failed team_join_denied, r)
    else join_verified lib r user t password (lib.verify t.password_hash password)

-- `JoinTeam`; `seen` is the roster of the read of the team, before the transaction
unfoldable pub join : Library → Roster → Roster → ℕ → String → Bytes → Reply Profile
unfolding get_team_for_join join_found
join lib seen r user name password = elim (get_team_for_join seen name) [
  | none ↦ (failed team_join_denied, r)
  | some t ↦ join_found lib r user t password
]
