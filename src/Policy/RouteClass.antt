-- ===== src/Policy/RouteClass.antt =====
-- internal/domain/policy/routeclass.go: the route policy decision table.
use flagfish.Prelude.{Bool, true, false, ◌||◌, List, [], ◌∷◌}
use flagfish.Account
use flagfish.Account.{Mode, users, teams}
use flagfish.Policy.Types.{
  VisKind, challenge, score, account, registration, RouteClass, theme_asset, setup, index, pages,
  register, login, logout, reset, confirm, challenge_list, challenge_detail, challenge_attempt,
  challenge_solves, hint_unlock, solution_unlock, scoreboard, scoreboard_detail, account_list,
  account_detail, account_self, password_change, team_enrollment, team_self, team_create,
  team_detail, tokens, sse, notifications, solve_feed, admin, admin_scoreboard, statistics, export,
}

pub record Attrs : Type 0 where
  pub vis_gates : List VisKind
  -- empty means that the route exists in every mode
  pub modes : List Mode
  pub requires_auth : Bool
  pub requires_verified : Bool
  pub requires_profile : Bool
  pub requires_team : Bool
  pub time_gated : Bool
  pub mutates_score : Bool
  pub closes_at_end : Bool
  pub admin_only : Bool
  pub exempt_from_ban : Bool
  pub exempt_from_password_change : Bool

-- the zero value of the struct
abbrev pub blank : Attrs
blank = record {
  vis_gates = [];
  modes = [];
  requires_auth = false;
  requires_verified = false;
  requires_profile = false;
  requires_team = false;
  time_gated = false;
  mutates_score = false;
  closes_at_end = false;
  admin_only = false;
  exempt_from_ban = false;
  exempt_from_password_change = false;
}

-- the four recurring rows of the table
abbrev authed : Attrs
authed = record blank { requires_auth = true }

abbrev browsing : Attrs
browsing = record blank {
  vis_gates = challenge ∷ [];
  requires_verified = true;
  requires_profile = true;
  requires_team = true;
  time_gated = true;
}

abbrev unlocking : Attrs
unlocking = record authed { requires_verified = true; time_gated = true; mutates_score = true }

abbrev for_admins : Attrs
for_admins = record blank { admin_only = true }

-- `classAttrs`; a key that the map lacks gives the zero value.
unfoldable pub attrs : RouteClass → Attrs
attrs theme_asset = record blank { exempt_from_ban = true; exempt_from_password_change = true }
attrs setup = record blank { exempt_from_password_change = true }
attrs register = record blank { vis_gates = registration ∷ [] }
attrs login = record blank { exempt_from_password_change = true }
attrs logout = record blank { exempt_from_password_change = true }
attrs reset = record blank { exempt_from_password_change = true }
attrs challenge_list = browsing
attrs challenge_detail = browsing
attrs challenge_attempt = record browsing { requires_auth = true; mutates_score = true }
attrs challenge_solves = record blank {
  vis_gates = challenge ∷ account ∷ [];
  requires_verified = true;
  time_gated = true;
}
attrs hint_unlock = unlocking
attrs solution_unlock = unlocking
attrs scoreboard = record blank { vis_gates = account ∷ score ∷ [] }
attrs scoreboard_detail = record blank { vis_gates = account ∷ score ∷ [] }
attrs account_list = record blank { vis_gates = account ∷ [] }
attrs account_detail = record blank { vis_gates = account ∷ [] }
attrs account_self = authed
attrs password_change = record authed { exempt_from_password_change = true }
attrs team_enrollment = record authed { modes = teams ∷ []; closes_at_end = true }
attrs team_create = record authed { modes = teams ∷ []; closes_at_end = true }
attrs team_self = record authed { modes = teams ∷ [] }
attrs team_detail = record blank { vis_gates = account ∷ []; modes = teams ∷ [] }
attrs tokens = record authed { requires_verified = true }
attrs sse = authed
attrs notifications = authed
attrs solve_feed = record authed {
  vis_gates = challenge ∷ [];
  requires_verified = true;
  time_gated = true;
}
attrs admin = for_admins
attrs admin_scoreboard = for_admins
attrs statistics = for_admins
attrs export = for_admins
attrs _ = blank

-- the comparison of two modes
abbrev mode_eq : Mode → Mode → Bool
mode_eq users users = true
mode_eq teams teams = true
mode_eq Account.unknown Account.unknown = true
mode_eq _ _ = false

-- the loop of `AvailableIn`
unfoldable pub mode_in : List Mode → Mode → Bool
mode_in [] m = false
mode_in (allowed ∷ rest) m = mode_eq allowed m || mode_in rest m

abbrev listed : List Mode → Mode → Bool
listed [] m = true
listed (allowed ∷ rest) m = mode_in (allowed ∷ rest) m

-- `RouteClass.AvailableIn`
unfoldable pub available_in : RouteClass → Mode → Bool
unfolding attrs mode_in
available_in c m = listed (attrs c).modes m

-- `AllClasses`, from ClassThemeAsset to ClassExport.
abbrev pub all_classes : List RouteClass
all_classes =
    theme_asset ∷ setup ∷ index ∷ pages ∷ register ∷ login ∷ logout ∷ reset ∷ confirm
    ∷ challenge_list ∷ challenge_detail ∷ challenge_attempt ∷ challenge_solves ∷ hint_unlock
    ∷ solution_unlock ∷ scoreboard ∷ scoreboard_detail ∷ account_list ∷ account_detail
    ∷ account_self ∷ password_change ∷ team_enrollment ∷ team_self ∷ team_create ∷ team_detail
    ∷ tokens ∷ sse ∷ notifications ∷ solve_feed ∷ admin ∷ admin_scoreboard ∷ statistics ∷ export
    ∷ []
