-- ===== src/Policy/Decide/Correct.antt =====
-- `Decide` allows exactly the permitted requests: the gates' order decides only which denial a
-- caller sees.
use flagfish.Prelude.{◌≡◌, refl, ◌↔◌, true, false, none, some, List, [], ◌∷◌, All, arith}
use flagfish.Policy.Types.{VisKind, Event, Principal, Policy}
use flagfish.Policy.Decide.{
  Gate, classified, setup_gate, ban_gate, password_gate, mode_gate, admin_gate, visibility_loop,
  visibility_gate, auth_gate, verified_gate, profile_gate, team_gate, clock_gate, enrollment_gate,
  pause_gate, gates, first_denial, decide,
}
use flagfish.Policy.Decide.Permitted.{
  Permitted, classified_iff, setup_gate_iff, ban_gate_iff, password_gate_iff, mode_gate_iff,
  admin_gate_iff, visibility_gate_iff, auth_gate_iff, verified_gate_iff, profile_gate_iff,
  team_gate_iff, clock_gate_iff, enrollment_gate_iff, pause_gate_iff,
}

-- what a gate returns is a denial
abbrev Denies : Gate → Type 0
Denies none = Unit
Denies (some o) = o.allow ≡ false

visibility_loop-Denies :
    (kinds : List VisKind) (e : Event) (pr : Principal) → Denies (visibility_loop kinds e pr)
unfolding visibility_loop
visibility_loop-Denies [] e pr = tt
visibility_loop-Denies (kind ∷ kinds) e pr = ground (arith, visibility_loop-Denies kinds e pr)

visibility_gate-Denies : (p : Policy) → Denies (visibility_gate p)
unfolding visibility_gate
visibility_gate-Denies p = visibility_loop-Denies _ p.e p.p

gates-Denies : (p : Policy) → All Denies (gates p)
unfolding classified setup_gate ban_gate password_gate mode_gate admin_gate auth_gate verified_gate
    profile_gate team_gate clock_gate enrollment_gate pause_gate
gates-Denies p = ground (arith, visibility_gate-Denies p)

abbrev Passes : List Gate → Type 0
Passes = All (λ gate. gate ≡ none)

first_denial_iff : (gs : List Gate) → All Denies gs → ((first_denial gs).allow ≡ true) ↔ Passes gs
unfolding first_denial
first_denial_iff [] h = (λ _. tt, λ _. refl)
first_denial_iff (none ∷ gs) h =
    (λ e. (refl, (first_denial_iff gs h.1).0 e), λ all. (first_denial_iff gs h.1).1 all.1)
first_denial_iff (some o ∷ gs) h = ground arith

Passes-iff : (p : Policy) → Passes (gates p) ↔ Permitted p
Passes-iff p = ground (
  arith,
  classified_iff p,
  setup_gate_iff p,
  ban_gate_iff p,
  password_gate_iff p,
  mode_gate_iff p,
  admin_gate_iff p,
  visibility_gate_iff p,
  auth_gate_iff p,
  verified_gate_iff p,
  profile_gate_iff p,
  team_gate_iff p,
  clock_gate_iff p,
  enrollment_gate_iff p,
  pause_gate_iff p,
)

-- `Decide` allows a request exactly when every condition of `Permitted` holds: the class is
-- declared, the instance is set up, the caller is neither banned nor forced to change a password,
-- the route exists in the mode, and the admin, visibility, authentication, verification, profile,
-- team, clock, enrollment and pause conditions hold.
pub decide_iff : (p : Policy) → ((decide p).allow ≡ true) ↔ Permitted p
unfolding decide
decide_iff p =
    let first = first_denial_iff (gates p) (gates-Denies p) in
    let all = Passes-iff p in (λ e. all.0 (first.0 e), λ h. first.1 (all.1 h))
