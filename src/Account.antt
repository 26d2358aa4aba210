-- ===== src/Account.antt =====
-- internal/domain/account/account.go: the user/team duality. Ids are int64 values that Postgres
-- hands out from 1 upwards; 0 is Go's zero value.
pub mod Resolve
pub mod Tests
use Prim.Native.String.{String}
use text.Mathlib.Text.{◌==◌ as str_eq}
use flagfish.Prelude.{
  ℕ, zero, suc, ◌<◌, Bool, true, false, ◌&&◌, Option, none, some, ltb, ◌==◌, if◌then◌else◌,
}

-- `Mode` is a uint8: `unknown` stands for the values past the two named ones.
pub data Mode : Type 0 where
  users teams unknown : Mode

pub Mode-discrete : Discrete Mode
Mode-discrete = hlevel

-- `modeNames[m]`
unfoldable pub mode_name : Mode → Option String
mode_name users = some "users"
mode_name teams = some "teams"
mode_name unknown = none

unfoldable pub parse_mode : String → Option Mode
parse_mode s =
    if str_eq s "users" then some users else if str_eq s "teams" then some teams else none

pub data Error : Type 0 where
  no_user_id teamless_user unknown_mode : Error

pub data Resolved : Type 0 where
  account : ℕ → Resolved
  failed : Error → Resolved

pub record Membership : Type 0 where
  pub user_id : ℕ
  pub team_id : Option ℕ

-- `mem.TeamID == nil || *mem.TeamID == 0`
abbrev resolve_team : Option ℕ → Resolved
resolve_team none = failed teamless_user
resolve_team (some zero) = failed teamless_user
resolve_team (some (suc t)) = account (suc t)

-- `Mode.Resolve`
unfoldable pub resolve : Mode → Membership → Resolved
resolve users mem = if mem.user_id == 0 then failed no_user_id else account mem.user_id
resolve teams mem = resolve_team mem.team_id
resolve unknown mem = failed unknown_mode

abbrev is_teamless_error : Resolved → Bool
is_teamless_error (failed teamless_user) = true
is_teamless_error _ = false

-- `Mode.Teamless`
unfoldable pub teamless : Mode → Membership → Bool
unfolding resolve
teamless m mem = is_teamless_error (resolve m mem)

-- `AssertModeAtBoot`: false is the refusal to boot.
unfoldable pub assert_mode_at_boot : Mode → ℕ → Bool
assert_mode_at_boot users team_count = if ltb 0 team_count then false else true
assert_mode_at_boot _ team_count = true
