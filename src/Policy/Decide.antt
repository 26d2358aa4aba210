-- ===== src/Policy/Decide.antt =====
-- internal/domain/policy/decide.go: the route policy gate, one function for each numbered step and
-- their composition in the source's order.
pub mod Permitted
pub mod Correct
pub mod Walls
use Prim.Native.String.{String}
use flagfish.Prelude.{
  ℕ, ◌≡◌, refl, ◌↔◌, Bool, true, false, not, ◌&&◌, ◌||◌, Option, none, some, List, [], ◌∷◌, arith,
  if◌then◌else◌,
}
use flagfish.Account
use flagfish.Account.{Mode, users, teams}
use flagfish.Policy.Types.{
  Phase, before_start, running, ended, unknown_phase, Vis, public, private, admins, hidden, mlc,
  other, VisKind, challenge, score, account, registration, other_kind, RouteClass, Event, vis_for,
  Principal, Policy,
}
use flagfish.Policy.Types
use flagfish.Policy.RouteClass.{attrs, available_in}

pub data Reason : Type 0 where
  none_given setup_incomplete banned_user banned_team password_change_required not_found : Reason
  auth_required authentication_required admins_only scores_hidden unverified : Reason
  incomplete_profile incomplete_team_profile team_required already_on_team : Reason
  team_creation_disabled ctf_not_started ctf_ended paused_ctf already_authed admin_required : Reason

pub record Outcome : Type 0 where
  pub allow : Bool
  pub status : ℕ
  pub redirect : String
  pub reason : Reason

abbrev pub allowed : Outcome
allowed = record { allow = true; status = 0; redirect = ""; reason = none_given }

abbrev pub deny : ℕ → String → Reason → Outcome
deny status redirect reason = record {
  allow = false;
  status = status;
  redirect = redirect;
  reason = reason;
}

abbrev pub login_first : Outcome
login_first = deny 403 "/login" auth_required

abbrev pub missing : Outcome
missing = deny 404 "" not_found

-- the comparisons `r.Class == ClassX` of the source
unfoldable pub is_unknown : RouteClass → Bool
is_unknown RouteClass.unknown = true
is_unknown _ = false

unfoldable pub is_setup : RouteClass → Bool
is_setup RouteClass.setup = true
is_setup _ = false

unfoldable pub is_theme_asset : RouteClass → Bool
is_theme_asset RouteClass.theme_asset = true
is_theme_asset _ = false

unfoldable pub is_attempt : RouteClass → Bool
is_attempt RouteClass.challenge_attempt = true
is_attempt _ = false

unfoldable pub is_register : RouteClass → Bool
is_register RouteClass.register = true
is_register _ = false

unfoldable pub is_team_create : RouteClass → Bool
is_team_create RouteClass.team_create = true
is_team_create _ = false

abbrev pub is_teams : Mode → Bool
is_teams teams = true
is_teams _ = false

abbrev is_registration : VisKind → Bool
is_registration registration = true
is_registration _ = false

abbrev is_challenge : VisKind → Bool
is_challenge challenge = true
is_challenge _ = false

-- `checkVis`, on the value of the setting
unfoldable pub check_setting : Vis → VisKind → Principal → Outcome
check_setting public kind pr = allowed
check_setting private kind pr =
    if is_registration kind then missing else if pr.authed then allowed else login_first
check_setting hidden kind pr = if pr.is_admin then allowed else deny 403 "" scores_hidden
check_setting admins kind pr =
    if pr.is_admin
    then allowed
    else if is_challenge kind
    then (if pr.authed then deny 403 "" admins_only else login_first)
    else missing
check_setting mlc kind pr = missing
check_setting other kind pr = missing

unfoldable pub check_vis : VisKind → Event → Principal → Outcome
unfolding check_setting
check_vis kind e pr = check_setting (vis_for e kind) kind pr

-- A gate gives its denial, or `none` to fall through to the next.
abbrev pub Gate : Type 0
Gate = Option Outcome

abbrev when : Bool → Outcome → Gate → Gate
when true o rest = some o
when false o rest = rest

-- 0. An unclassified route fails closed.
unfoldable pub classified : Policy → Gate
classified p = when (is_unknown p.r.class) missing none

-- 1. Setup.
unfoldable pub setup_gate : Policy → Gate
setup_gate p =
    when (not p.e.setup_done && (not (is_setup p.r.class) && not (is_theme_asset p.r.class)))
      (deny 0 "/setup" setup_incomplete) (when (p.e.setup_done && is_setup p.r.class) missing none)

-- 3. The ban wall.
unfoldable pub ban_gate : Policy → Gate
ban_gate p =
    if p.p.authed && not (attrs p.r.class).exempt_from_ban
    then when p.p.banned (deny 403 "" banned_user)
        (when p.p.team_banned (deny 403 "" banned_team) none)
    else none

-- 4. Forced password change.
unfoldable pub password_gate : Policy → Gate
password_gate p =
    when
      (p.p.authed
        && (p.p.force_password_change && not (attrs p.r.class).exempt_from_password_change))
      (deny 0 "/change-password" password_change_required) none

-- 5. The route may not exist in this mode.
unfoldable pub mode_gate : Policy → Gate
mode_gate p = when (not (available_in p.r.class p.e.mode)) missing none

-- 6. The admin surface.
unfoldable pub admin_gate : Policy → Gate
admin_gate p =
    when ((attrs p.r.class).admin_only && not p.p.is_admin) (deny 403 "" admin_required) none

-- 7. Visibility: the loop returns the first denial.
unfoldable pub visibility_loop : List VisKind → Event → Principal → Gate
visibility_loop [] e pr = none
visibility_loop (kind ∷ kinds) e pr =
    let rest = visibility_loop kinds e pr in
    let o = check_vis kind e pr in if o.allow then rest else some o

unfoldable pub visibility_gate : Policy → Gate
visibility_gate p = visibility_loop (attrs p.r.class).vis_gates p.e p.p

-- 8. Authentication.
unfoldable pub auth_gate : Policy → Gate
auth_gate p =
    when ((attrs p.r.class).requires_auth && not p.p.authed)
      (if is_attempt p.r.class then deny 403 "" authentication_required else login_first)
      (when (is_register p.r.class && p.p.authed) (deny 0 "/challenges" already_authed) none)

-- 9. Email verification.
unfoldable pub verified_gate : Policy → Gate
verified_gate p =
    when
      (p.e.verify_emails
        && (p.p.authed
            && (not p.p.is_admin && (not p.p.verified && (attrs p.r.class).requires_verified))))
      (deny 403 "/confirm" unverified) none

-- 10. Profile completeness.
unfoldable pub profile_gate : Policy → Gate
profile_gate p =
    if (attrs p.r.class).requires_profile && (p.p.authed && not p.p.is_admin)
    then when (not p.p.profile_complete) (deny 0 "/settings" incomplete_profile) (
        when (is_teams p.e.mode && (not p.p.teamless && not p.p.team_profile_complete))
          (deny 403 "" incomplete_team_profile) none)
    else none

-- 11. Team membership.
unfoldable pub team_gate : Policy → Gate
team_gate p =
    when
      ((attrs p.r.class).requires_team && (is_teams p.e.mode && (p.p.teamless && not p.p.is_admin)))
      (deny 403 "/team" team_required)
      (if is_team_create p.r.class
        then when (not p.e.team_creation && not p.p.is_admin) (deny 403 "" team_creation_disabled)
            (when (not p.p.teamless) (deny 403 "" already_on_team) none)
        else none)

-- the `switch e.Phase` of step 12
unfoldable pub phase_gate : Phase → Policy → Gate
phase_gate running p = none
phase_gate unknown_phase p = none
phase_gate ended p =
    when ((attrs p.r.class).mutates_score || not p.e.view_after_ctf) (deny 403 "" ctf_ended) none
phase_gate before_start p = some (
    if is_teams p.e.mode && p.p.teamless
    then deny 0 "/team" team_required
    else deny 403 "" ctf_not_started)

-- 12. The clock.
unfoldable pub clock_gate : Policy → Gate
unfolding phase_gate
clock_gate p =
    if (attrs p.r.class).time_gated && not p.p.is_admin then phase_gate p.e.phase p else none

abbrev is_ended : Phase → Bool
is_ended ended = true
is_ended _ = false

-- 12b. The enrollment window.
unfoldable pub enrollment_gate : Policy → Gate
enrollment_gate p =
    when ((attrs p.r.class).closes_at_end && (not p.p.is_admin && is_ended p.e.phase))
      (deny 403 "" ctf_ended) none

-- 13. Pause.
unfoldable pub pause_gate : Policy → Gate
pause_gate p =
    when (is_attempt p.r.class && (p.e.paused && (not p.r.preview || not p.p.is_admin)))
      (deny 403 "" paused_ctf) none

-- The first denial, in order; with none, `Allow`.
unfoldable pub first_denial : List Gate → Outcome
first_denial [] = allowed
first_denial (none ∷ gates) = first_denial gates
first_denial (some o ∷ gates) = o

abbrev pub gates : Policy → List Gate
gates p =
    classified p
    ∷ setup_gate p
    ∷ ban_gate p
    ∷ password_gate p
    ∷ mode_gate p
    ∷ admin_gate p
    ∷ visibility_gate p
    ∷ auth_gate p
    ∷ verified_gate p
    ∷ profile_gate p
    ∷ team_gate p
    ∷ clock_gate p
    ∷ enrollment_gate p
    ∷ pause_gate p
    ∷ []

-- `Decide`
unfoldable pub decide : Policy → Outcome
unfolding first_denial
decide p = first_denial (gates p)
