-- ===== src/Config.antt =====
-- internal/config/snapshot.go: the typed snapshot of the config table. `Library` stands for the parsers of Go's standard library;
-- times are seconds of the Unix epoch.
pub mod Registry
pub mod Bootable
pub mod Build
pub mod Coherent
pub mod Manager
pub mod Tests
use Prim.Native.String.{String}
use text.Mathlib.Text.{◌==◌ as str_eq}
use flagfish.Prelude.{
  ℕ, ◌+◌, Bool, true, false, not, ◌&&◌, ◌||◌, Option, none, some, List, [], ◌∷◌, ◌++◌, ltb, ◌==◌,
  if◌then◌else◌, ◌>>=◌,
}
use flagfish.Prelude.Int.{ℤ, pos, ltb_ℤ}
use flagfish.Account.{Mode, users}
use flagfish.Policy.Types.{
  Vis, VisKind, challenge, score, account, registration, other_kind, public, private, admins,
  hidden, mlc, other, parse_vis,
}

pub record Url : Type 0 where
  pub scheme : String
  pub host : String

pub record Library : Type 0 where
  -- strings.TrimSpace, strings.Split at commas, strconv.Atoi and ParseInt
  pub trim_space : String → String
  pub split : String → List String
  pub atoi : String → Option ℤ
  pub parse_int : String → Option ℤ
  -- mail.ParseAddress, url.Parse, and the JSON decoder on an object of strings
  pub is_address : String → Bool
  pub parse_url : String → Option Url
  pub is_tokens : String → Bool

pub data PortalView : Type 0 where
  standard_view globe_view : PortalView

-- `ParsePortalView`
unfoldable pub parse_portal_view : String → Option PortalView
parse_portal_view s =
    if str_eq s "standard"
    then some standard_view
    else if str_eq s "globe"
    then some globe_view
    else none

pub data WebhookEvent : Type 0 where
  first_blood_event solve_event : WebhookEvent

-- `ParseWebhookEvent`
unfoldable pub parse_webhook_event : String → Option WebhookEvent
parse_webhook_event s =
    if str_eq s "first_blood"
    then some first_blood_event
    else if str_eq s "solve"
    then some solve_event
    else none

-- `WebhookEventSet`
pub record WebhookEventSet : Type 0 where
  pub first_blood : Bool
  pub solve : Bool

abbrev pub with_event : WebhookEvent → WebhookEventSet → WebhookEventSet
with_event first_blood_event s = record s { first_blood = true }
with_event solve_event s = record s { solve = true }

pub record Snapshot : Type 0 where
  pub ctf_name : String
  pub ctf_description : String
  pub theme : String
  pub theme_tokens : String
  pub portal_view : PortalView
  pub mode : Mode
  pub setup_done : Bool
  pub challenge_vis : Vis
  pub score_vis : Vis
  pub account_vis : Vis
  pub registration_vis : Vis
  pub verify_emails : Bool
  pub view_after_ctf : Bool
  pub paused : Bool
  pub team_creation : Bool
  pub start : Option ℤ
  pub end : Option ℤ
  pub freeze : Option ℤ
  pub num_users : ℤ
  pub num_teams : ℤ
  pub team_size : ℤ
  pub mail_server : String
  pub mail_port : ℤ
  pub mail_username : String
  pub mail_password : String
  pub mail_tls : Bool
  pub mail_from : String
  pub webhook_url : String
  pub webhook_enabled : Bool
  pub webhook_events : WebhookEventSet
  -- the number of repairs
  pub repairs : ℕ

abbrev pub defaults : Snapshot
defaults = record {
  ctf_name = "";
  ctf_description = "";
  theme = "core";
  theme_tokens = "";
  portal_view = standard_view;
  mode = users;
  setup_done = false;
  challenge_vis = private;
  score_vis = public;
  account_vis = public;
  registration_vis = public;
  verify_emails = false;
  view_after_ctf = false;
  paused = false;
  team_creation = true;
  start = none;
  end = none;
  freeze = none;
  num_users = pos 0;
  num_teams = pos 0;
  team_size = pos 0;
  mail_server = "";
  mail_port = pos 0;
  mail_username = "";
  mail_password = "";
  mail_tls = false;
  mail_from = "";
  webhook_url = "";
  webhook_enabled = false;
  webhook_events = record { first_blood = true; solve = false };
  repairs = 0;
}
