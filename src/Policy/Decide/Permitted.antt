-- ===== src/Policy/Decide/Permitted.antt =====
-- The conditions under which a request is let through, with no order of evaluation, and the gates
-- of `Decide` one by one against them.
use flagfish.Prelude.{◌≡◌, ◌≢◌, refl, ◌↔◌, ◌⊎◌, true, false, none, List, [], ◌∷◌, All, arith}
use flagfish.Account.{teams}
use flagfish.Policy.Types.{
  before_start, ended, Vis, public, private, admins, hidden, mlc, other, VisKind, registration,
  RouteClass, Event, vis_for, Principal, Policy,
}
use flagfish.Policy.RouteClass.{attrs, available_in}
use flagfish.Policy.Decide.{
  check_vis, classified, setup_gate, ban_gate, password_gate, mode_gate, admin_gate,
  visibility_loop, visibility_gate, auth_gate, verified_gate, profile_gate, team_gate, clock_gate,
  enrollment_gate, pause_gate, is_unknown, is_setup, is_theme_asset, is_attempt, is_register,
  is_team_create,
}

-- What a visibility setting asks of the caller.
abbrev pub Shows : Vis → VisKind → Principal → Type 0
Shows public kind pr = Unit
Shows private kind pr = (kind ≢ registration) × (pr.authed ≡ true)
Shows hidden kind pr = pr.is_admin ≡ true
Shows admins kind pr = pr.is_admin ≡ true
Shows mlc kind pr = ⊥
Shows other kind pr = ⊥

abbrev pub Ready : Policy → Type 0
Ready p =
    (p.e.setup_done ≡ true) × (p.r.class ≢ RouteClass.setup)
    ⊎ (p.e.setup_done ≡ false)
      × ((p.r.class ≡ RouteClass.setup) ⊎ (p.r.class ≡ RouteClass.theme_asset))

abbrev pub Unbanned : Policy → Type 0
Unbanned p =
    p.p.authed ≡ true
    → (attrs p.r.class).exempt_from_ban ≡ false
    → (p.p.banned ≡ false) × (p.p.team_banned ≡ false)

abbrev pub PasswordSettled : Policy → Type 0
PasswordSettled p =
    p.p.authed ≡ true
    → p.p.force_password_change ≡ true
    → (attrs p.r.class).exempt_from_password_change ≡ true

abbrev pub Visible : Policy → Type 0
Visible p = All (λ kind. Shows (vis_for p.e kind) kind p.p) (attrs p.r.class).vis_gates

abbrev pub Authenticated : Policy → Type 0
Authenticated p =
    ((attrs p.r.class).requires_auth ≡ true → p.p.authed ≡ true)
    × (p.r.class ≡ RouteClass.register → p.p.authed ≡ false)

abbrev pub Verified : Policy → Type 0
Verified p =
    p.e.verify_emails ≡ true
    → p.p.authed ≡ true
    → p.p.is_admin ≡ false
    → (attrs p.r.class).requires_verified ≡ true
    → p.p.verified ≡ true

abbrev pub Completed : Policy → Type 0
Completed p =
    (attrs p.r.class).requires_profile ≡ true
    → p.p.authed ≡ true
    → p.p.is_admin ≡ false
    → (p.p.profile_complete ≡ true)
      × (p.e.mode ≡ teams → p.p.teamless ≡ false → p.p.team_profile_complete ≡ true)

abbrev pub Teamed : Policy → Type 0
Teamed p =
    ((attrs p.r.class).requires_team ≡ true
      → p.e.mode ≡ teams
      → p.p.teamless ≡ true
      → p.p.is_admin ≡ true)
    × (p.r.class ≡ RouteClass.team_create
        → ((p.e.team_creation ≡ true) ⊎ (p.p.is_admin ≡ true)) × (p.p.teamless ≡ true))

abbrev pub InTime : Policy → Type 0
InTime p =
    (attrs p.r.class).time_gated ≡ true
    → p.p.is_admin ≡ false
    → (p.e.phase ≢ before_start)
      × (p.e.phase ≡ ended
          → ((attrs p.r.class).mutates_score ≡ false) × (p.e.view_after_ctf ≡ true))

abbrev pub EnrollmentOpen : Policy → Type 0
EnrollmentOpen p = (attrs p.r.class).closes_at_end ≡ true → p.p.is_admin ≡ false → p.e.phase ≢ ended

abbrev pub Unpaused : Policy → Type 0
Unpaused p =
    p.r.class ≡ RouteClass.challenge_attempt
    → p.e.paused ≡ true
    → (p.r.preview ≡ true) × (p.p.is_admin ≡ true)

-- All of them together.
pub record Permitted (p : Policy) : Type 0 where
  pub named : p.r.class ≢ RouteClass.unknown
  pub ready : Ready p
  pub unbanned : Unbanned p
  pub password : PasswordSettled p
  pub in_mode : available_in p.r.class p.e.mode ≡ true
  pub admin : (attrs p.r.class).admin_only ≡ true → p.p.is_admin ≡ true
  pub visible : Visible p
  pub authenticated : Authenticated p
  pub verified : Verified p
  pub completed : Completed p
  pub teamed : Teamed p
  pub in_time : InTime p
  pub enrollment : EnrollmentOpen p
  pub unpaused : Unpaused p

-- The class tests decide equality with their class.
pub is_unknown_iff : (c : RouteClass) → (is_unknown c ≡ true) ↔ (c ≡ RouteClass.unknown)
unfolding is_unknown
is_unknown_iff c = ground arith

pub is_setup_iff : (c : RouteClass) → (is_setup c ≡ true) ↔ (c ≡ RouteClass.setup)
unfolding is_setup
is_setup_iff c = ground arith

pub is_theme_asset_iff : (c : RouteClass) → (is_theme_asset c ≡ true) ↔ (c ≡ RouteClass.theme_asset)
unfolding is_theme_asset
is_theme_asset_iff c = ground arith

pub is_attempt_iff : (c : RouteClass) → (is_attempt c ≡ true) ↔ (c ≡ RouteClass.challenge_attempt)
unfolding is_attempt
is_attempt_iff c = ground arith

pub is_register_iff : (c : RouteClass) → (is_register c ≡ true) ↔ (c ≡ RouteClass.register)
unfolding is_register
is_register_iff c = ground arith

pub is_team_create_iff : (c : RouteClass) → (is_team_create c ≡ true) ↔ (c ≡ RouteClass.team_create)
unfolding is_team_create
is_team_create_iff c = ground arith

module _ (p : Policy) where
  pub classified_iff : (classified p ≡ none) ↔ (p.r.class ≢ RouteClass.unknown)
  unfolding classified
  classified_iff = ground (arith, is_unknown_iff p.r.class)

  pub setup_gate_iff : (setup_gate p ≡ none) ↔ Ready p
  unfolding setup_gate
  setup_gate_iff = ground (arith, is_setup_iff p.r.class, is_theme_asset_iff p.r.class)

  pub ban_gate_iff : (ban_gate p ≡ none) ↔ Unbanned p
  unfolding ban_gate
  ban_gate_iff = ground arith

  pub password_gate_iff : (password_gate p ≡ none) ↔ PasswordSettled p
  unfolding password_gate
  password_gate_iff = ground arith

  pub mode_gate_iff : (mode_gate p ≡ none) ↔ (available_in p.r.class p.e.mode ≡ true)
  unfolding mode_gate
  mode_gate_iff = ground arith

  pub admin_gate_iff :
      (admin_gate p ≡ none) ↔ ((attrs p.r.class).admin_only ≡ true → p.p.is_admin ≡ true)
  unfolding admin_gate
  admin_gate_iff = ground arith

  pub auth_gate_iff : (auth_gate p ≡ none) ↔ Authenticated p
  unfolding auth_gate
  auth_gate_iff = ground (arith, is_register_iff p.r.class)

  pub verified_gate_iff : (verified_gate p ≡ none) ↔ Verified p
  unfolding verified_gate
  verified_gate_iff = ground arith

  pub profile_gate_iff : (profile_gate p ≡ none) ↔ Completed p
  unfolding profile_gate
  profile_gate_iff = ground arith

  pub team_gate_iff : (team_gate p ≡ none) ↔ Teamed p
  unfolding team_gate
  team_gate_iff = ground (arith, is_team_create_iff p.r.class)

  pub clock_gate_iff : (clock_gate p ≡ none) ↔ InTime p
  unfolding clock_gate
  clock_gate_iff = ground arith

  pub enrollment_gate_iff : (enrollment_gate p ≡ none) ↔ EnrollmentOpen p
  unfolding enrollment_gate
  enrollment_gate_iff = ground arith

  pub pause_gate_iff : (pause_gate p ≡ none) ↔ Unpaused p
  unfolding pause_gate
  pause_gate_iff = ground (arith, is_attempt_iff p.r.class)

pub check_vis_iff :
    (kind : VisKind) (e : Event) (pr : Principal)
    → ((check_vis kind e pr).allow ≡ true) ↔ Shows (vis_for e kind) kind pr
unfolding check_vis
check_vis_iff kind e pr = ground arith

visibility_loop_iff :
    (kinds : List VisKind) (e : Event) (pr : Principal)
    → (visibility_loop kinds e pr ≡ none) ↔ All (λ kind. Shows (vis_for e kind) kind pr) kinds
unfolding visibility_loop
visibility_loop_iff [] e pr = (λ _. tt, λ _. refl)
visibility_loop_iff (kind ∷ kinds) e pr =
    ground (arith, check_vis_iff kind e pr, visibility_loop_iff kinds e pr)

pub visibility_gate_iff : (p : Policy) → (visibility_gate p ≡ none) ↔ Visible p
unfolding visibility_gate
visibility_gate_iff p = visibility_loop_iff (attrs p.r.class).vis_gates p.e p.p
