-- ===== src/Policy/Types.antt =====
-- internal/domain/policy/policy.go, and the enumeration of routeclass.go. Instants are numbers of
-- nanoseconds since Go's zero time.
use Prim.Native.String.{String}
use text.Mathlib.Text.{◌==◌ as str_eq}
use flagfish.Prelude.{ℕ, Bool, false, not, Option, none, some, ltb, if◌then◌else◌}
use flagfish.Account.{Mode}

-- `unknown_phase` stands for the values of the uint8 past the named ones.
pub data Phase : Type 0 where
  before_start running ended unknown_phase : Phase

-- `end != nil && now.After(*end)`
unfoldable pub after_end : ℕ → Option ℕ → Bool
after_end now none = false
after_end now (some e) = ltb e now

-- `start != nil && !now.After(*start)`
unfoldable pub not_started : ℕ → Option ℕ → Bool
not_started now none = false
not_started now (some s) = not (ltb s now)

-- `PhaseAt`
unfoldable pub phase_at : ℕ → Option ℕ → Option ℕ → Phase
unfolding after_end not_started
phase_at now start end =
    if not_started now start then before_start else if after_end now end then ended else running

-- `Vis` and `VisKind` are uint8: `other` stands for the values past the named ones.
pub data Vis : Type 0 where
  public private admins hidden mlc other : Vis

pub data VisKind : Type 0 where
  challenge score account registration : VisKind
  other_kind : VisKind

-- `Vis.String` on the named values.
unfoldable pub vis_name : Vis → Option String
vis_name public = some "public"
vis_name private = some "private"
vis_name admins = some "admins"
vis_name hidden = some "hidden"
vis_name mlc = some "mlc"
vis_name other = none

unfoldable pub parse_vis : String → Option Vis
parse_vis s =
    if str_eq s "public"
    then some public
    else if str_eq s "private"
    then some private
    else if str_eq s "admins"
    then some admins
    else if str_eq s "hidden"
    then some hidden
    else if str_eq s "mlc"
    then some mlc
    else none

pub data Surface : Type 0 where
  public_surface admin_surface : Surface

-- The classes of routeclass.go, in its order; `undeclared` stands for the uint8 values past the last one.
pub data RouteClass : Type 0 where
  unknown theme_asset setup index pages : RouteClass
  register login logout reset confirm : RouteClass
  challenge_list challenge_detail challenge_attempt challenge_solves : RouteClass
  hint_unlock solution_unlock : RouteClass
  scoreboard scoreboard_detail : RouteClass
  account_list account_detail account_self password_change : RouteClass
  team_enrollment team_self team_create team_detail : RouteClass
  tokens sse notifications solve_feed : RouteClass
  admin admin_scoreboard statistics export : RouteClass
  undeclared : RouteClass

pub RouteClass-discrete : Discrete RouteClass
RouteClass-discrete = hlevel

pub record Event : Type 0 where
  pub mode : Mode
  pub setup_done : Bool
  pub challenge_vis : Vis
  pub score_vis : Vis
  pub account_vis : Vis
  pub registration_vis : Vis
  pub verify_emails : Bool
  pub view_after_ctf : Bool
  pub phase : Phase
  pub paused : Bool
  pub freeze_at : Option ℕ
  pub team_creation : Bool

-- `Event.visFor`
unfoldable pub vis_for : Event → VisKind → Vis
vis_for e challenge = e.challenge_vis
vis_for e score = e.score_vis
vis_for e account = e.account_vis
vis_for e registration = e.registration_vis
vis_for e other_kind = admins

pub record Principal : Type 0 where
  pub authed : Bool
  pub is_admin : Bool
  pub verified : Bool
  pub banned : Bool
  pub team_banned : Bool
  pub teamless : Bool
  pub profile_complete : Bool
  pub team_profile_complete : Bool
  pub force_password_change : Bool
  pub user_id : ℕ
  pub account_id : ℕ

pub record Request : Type 0 where
  pub class : RouteClass
  pub surface : Surface
  pub admin_view : Bool
  pub preview : Bool

pub record Policy : Type 0 where
  pub e : Event
  pub p : Principal
  pub r : Request
