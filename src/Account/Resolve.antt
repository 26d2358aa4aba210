-- ===== src/Account/Resolve.antt =====
-- What `Resolve` and `Teamless` promise: a resolved account is the id that the mode names, and a
-- caller is teamless exactly when the mode is teams and no team id is at hand.
use Prim.Native.String.{String}
use text.Mathlib.TextEquality.{eq_iff}
use flagfish.Prelude.{ℕ, ◌<◌, ◌≡◌, ◌≢◌, ◌↔◌, ◌⊎◌, true, none, some, arith}
use flagfish.Account.{
  Mode, users, teams, unknown, mode_name, parse_mode, Membership, account, resolve, teamless,
}

-- the id that the mode reads, if it is a real one
abbrev pub Plays : Mode → Membership → ℕ → Type 0
Plays users mem n = (mem.user_id ≡ n) × (0 < n)
Plays teams mem n = (mem.team_id ≡ some n) × (0 < n)
Plays unknown mem n = ⊥

-- `Resolve` returns account n exactly when n is the non-zero id that the mode names: the user id in
-- users mode, the team id in teams mode; under an unknown mode it returns no account.
resolve_iff : (m : Mode) (mem : Membership) (n : ℕ) → (resolve m mem ≡ account n) ↔ Plays m mem n
unfolding resolve
resolve_iff users mem n = ground arith
resolve_iff teams mem n = ground arith
resolve_iff unknown mem n = ground arith

-- `Teamless` holds exactly in teams mode for a membership whose team id is nil or 0; so a user who
-- is not teamless and has a user id has an account under either mode.
teamless_iff :
    (m : Mode) (mem : Membership)
    → (teamless m mem ≡ true) ↔ ((m ≡ teams) × ((mem.team_id ≡ none) ⊎ (mem.team_id ≡ some 0)))
unfolding teamless
teamless_iff m mem = ground arith

users≢teams : ◌≢◌ {A = String} "users" "teams"
users≢teams = ground (arith, eq_iff "users" "teams")

-- The name of a mode parses back to the mode.
pub parse_mode-mode_name :
    (m : Mode) (s : String) → (parse_mode s ≡ some m) ↔ (mode_name m ≡ some s)
unfolding parse_mode mode_name
parse_mode-mode_name users s = ground (arith, eq_iff s "users", eq_iff s "teams")
parse_mode-mode_name teams s = ground (arith, eq_iff s "users", eq_iff s "teams", users≢teams)
parse_mode-mode_name unknown s = ground (arith, eq_iff s "users", eq_iff s "teams")
