-- ===== src/Policy/Decide/Walls.antt =====
-- What follows from the route gate for the rules that the product names.
use flagfish.Prelude.{
  ◌≡◌, ◌≢◌, refl, ◌↔◌, ◌⊎◌, inl, inr, Bool, true, false, List, [], ◌∷◌, All, Bool-cases, arith,
}
use flagfish.Policy.Types.{
  ended, Vis, VisKind, RouteClass, unknown, theme_asset, setup, challenge_attempt, hint_unlock,
  solution_unlock, team_enrollment, team_create, Event, Principal, Policy, vis_for,
}
use flagfish.Policy.RouteClass.{attrs}
use flagfish.Policy.Decide.{
  deny, banned_user, decide, classified, setup_gate, ban_gate, pause_gate, password_gate, mode_gate,
  admin_gate, visibility_loop, visibility_gate, auth_gate, verified_gate, profile_gate, team_gate,
  clock_gate, enrollment_gate, check_vis,
}
use flagfish.Policy.Decide.Permitted.{
  Permitted, Shows, is_unknown_iff, is_setup_iff, is_theme_asset_iff, is_attempt_iff,
}
use flagfish.Policy.Decide.Correct.{decide_iff}

-- the same request from a caller who is an admin
abbrev pub promoted : Policy → Policy
promoted p = record p { p = record p.p { is_admin = true } }

Shows-promoted :
    (v : Vis) (kind : VisKind) (pr : Principal)
    → Shows v kind pr
    → Shows v kind (record pr { is_admin = true })
Shows-promoted v kind pr h = ground arith

All-promoted :
    (kinds : List VisKind) (e : Event) (pr : Principal)
    → All (λ kind. Shows (vis_for e kind) kind pr) kinds
    → All (λ kind. Shows (vis_for e kind) kind (record pr { is_admin = true })) kinds
All-promoted [] e pr h = tt
All-promoted (kind ∷ kinds) e pr h =
    (Shows-promoted (vis_for e kind) kind pr h.0, All-promoted kinds e pr h.1)

Permitted-promoted : (p : Policy) → Permitted p → Permitted (promoted p)
Permitted-promoted p h =
    let visible = All-promoted (attrs p.r.class).vis_gates p.e p.p h.visible in
    ground (arith, visible)

-- Making the caller an admin never turns an allowed request into a denied one.
decide-promoted : (p : Policy) → (decide p).allow ≡ true → (decide (promoted p)).allow ≡ true
decide-promoted p h = (decide_iff (promoted p)).1 (Permitted-promoted p ((decide_iff p).0 h))

exempt_from_ban_iff : (c : RouteClass) → ((attrs c).exempt_from_ban ≡ true) ↔ (c ≡ theme_asset)
unfolding attrs
exempt_from_ban_iff theme_asset = ground arith
exempt_from_ban_iff c = ground arith

-- On an instance that is set up, an authenticated banned caller gets the 403 of the ban wall on
-- every declared route but the theme assets and the setup page, whatever else holds of the request,
-- admin rights included.
pub decide-banned :
    (p : Policy)
    → p.e.setup_done ≡ true
    → p.p.authed ≡ true
    → p.p.banned ≡ true
    → p.r.class ≢ unknown
    → p.r.class ≢ setup
    → p.r.class ≢ theme_asset
    → decide p ≡ deny 403 "" banned_user
unfolding decide classified setup_gate ban_gate
decide-banned p s a b u st t = ground (
  arith,
  is_unknown_iff p.r.class,
  is_setup_iff p.r.class,
  is_theme_asset_iff p.r.class,
  exempt_from_ban_iff p.r.class,
)

-- the routes that move a standing or a roster
pub data Scoring : RouteClass → Type 0 where
  attempt : Scoring challenge_attempt
  hint : Scoring hint_unlock
  solution : Scoring solution_unlock
  enroll : Scoring team_enrollment
  found : Scoring team_create

abbrev Closed : RouteClass → Type 0
Closed c =
    ((attrs c).time_gated ≡ true) × ((attrs c).mutates_score ≡ true)
    ⊎ ((attrs c).closes_at_end ≡ true)

Scoring-Closed : {c : RouteClass} → Scoring c → Closed c
unfolding attrs
Scoring-Closed attempt = inl (refl, refl)
Scoring-Closed hint = inl (refl, refl)
Scoring-Closed solution = inl (refl, refl)
Scoring-Closed enroll = inr refl
Scoring-Closed found = inr refl

Permitted-open :
    {p : Policy} → Permitted p → p.e.phase ≡ ended → p.p.is_admin ≡ false → Closed p.r.class → ⊥
Permitted-open h e a c = ground (arith, h.in_time, h.enrollment)

-- Once the event has ended, no caller but an admin can attempt a challenge, unlock a hint or a
-- solution, or move on or off a roster, and the setting that reopens a finished event for reading
-- does not change that.
pub ended-denies :
    (p : Policy)
    → p.e.phase ≡ ended
    → p.p.is_admin ≡ false
    → Scoring p.r.class
    → (decide p).allow ≡ false
ended-denies p e a s = elim (Bool-cases (decide p).allow) [
  | inl yes' ↦ absurd (Permitted-open ((decide_iff p).0 yes') e a (Scoring-Closed s))
  | inr denied ↦ denied
]

-- the same request with the pause switch set to b
abbrev pub with_pause : Bool → Policy → Policy
with_pause b p = record p { e = record p.e { paused = b } }

pause_gate-other :
    (b : Bool) (p : Policy)
    → p.r.class ≢ challenge_attempt
    → pause_gate (with_pause b p) ≡ pause_gate p
unfolding pause_gate
pause_gate-other b p h = ground (arith, is_attempt_iff p.r.class)

check_vis-with_pause :
    (b : Bool) (kind : VisKind) (e : Event) (pr : Principal)
    → check_vis kind (record e { paused = b }) pr ≡ check_vis kind e pr
unfolding check_vis vis_for
check_vis-with_pause b VisKind.challenge e pr = refl
check_vis-with_pause b kind e pr = refl

visibility_loop-with_pause :
    (b : Bool) (kinds : List VisKind) (e : Event) (pr : Principal)
    → visibility_loop kinds (record e { paused = b }) pr ≡ visibility_loop kinds e pr
unfolding visibility_loop
visibility_loop-with_pause b [] e pr = refl
visibility_loop-with_pause b (kind ∷ kinds) e pr =
    rw (check_vis-with_pause b kind e pr, visibility_loop-with_pause b kinds e pr)

clock_gate-with_pause : (b : Bool) (p : Policy) → clock_gate (with_pause b p) ≡ clock_gate p
unfolding clock_gate
clock_gate-with_pause b p = ground arith

-- The pause switch gates attempts alone: on every other route it changes neither the decision nor
-- the denial that the caller sees.
pause_elsewhere :
    (b : Bool) (p : Policy) → p.r.class ≢ challenge_attempt → decide (with_pause b p) ≡ decide p
unfolding decide classified setup_gate ban_gate password_gate mode_gate admin_gate visibility_gate
    auth_gate verified_gate profile_gate team_gate enrollment_gate
pause_elsewhere b p h =
    rw (pause_gate-other b p h, clock_gate-with_pause b p)
      (rw (visibility_loop-with_pause b (attrs p.r.class).vis_gates p.e p.p))
