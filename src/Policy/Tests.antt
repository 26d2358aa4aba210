-- ===== src/Policy/Tests.antt =====
-- Requests on one event that is set up, in teams mode, frozen at instant 50.
use flagfish.Prelude.{ℕ, ◌≡◌, refl, ◌↔◌, Bool, true, false, none, some, [], ◌∷◌, arith}
use flagfish.Prelude.Int.{pos}
use flagfish.Account.{teams}
use flagfish.Policy.Types.{
  running, ended, public, private, RouteClass, challenge_attempt, challenge_list, hint_unlock,
  scoreboard, public_surface, Event, Principal, Request, Policy, before_start, phase_at, vis_for,
}
use flagfish.Policy.RouteClass.{attrs, available_in}
use flagfish.Policy.Decide.{
  deny, banned_user, decide, classified, setup_gate, ban_gate, password_gate, mode_gate, admin_gate,
  visibility_gate, auth_gate, verified_gate, profile_gate, team_gate, clock_gate, enrollment_gate,
  pause_gate, is_unknown, is_setup, visibility_loop, check_vis, is_register, is_team_create,
  is_attempt,
}
use flagfish.Policy.Decide.Permitted.{Permitted}
use flagfish.Policy.Decide.Correct.{decide_iff}
use flagfish.Policy.Decide.Walls.{decide-banned, ended-denies, hint}
use flagfish.Policy.Freeze.{freeze_exempt, frozen, allowed_public_frozen}
use flagfish.Policy.Redact.{
  Redactor, AccountFields, MemberContribution, redact_self, redact_account, redact_team_member,
  challenge_solve_count, challenge_solve_list, profile_solve_list, profile_score_history,
  withheld_together,
}
use flagfish.Policy.Clock.{Started, phase_at-before_start}

abbrev event : Event
event = record {
  mode = teams;
  setup_done = true;
  challenge_vis = private;
  score_vis = public;
  account_vis = public;
  registration_vis = public;
  verify_emails = true;
  view_after_ctf = true;
  phase = running;
  paused = false;
  freeze_at = some 50;
  team_creation = true;
}

abbrev player : Principal
player = record {
  authed = true;
  is_admin = false;
  verified = true;
  banned = false;
  team_banned = false;
  teamless = false;
  profile_complete = true;
  team_profile_complete = true;
  force_password_change = false;
  user_id = 4;
  account_id = 9;
}

abbrev request : RouteClass → Request
request c = record { class = c; surface = public_surface; admin_view = false; preview = false }

abbrev policy : RouteClass → Policy
policy c = record { e = event; p = player; r = request c }

allows : RouteClass → Bool
allows c = (decide (policy c)).allow

attempt_allowed : (decide (policy challenge_attempt)).allow ≡ true
unfolding decide classified setup_gate ban_gate password_gate mode_gate admin_gate visibility_gate
    auth_gate verified_gate profile_gate team_gate clock_gate enrollment_gate pause_gate is_unknown
    is_setup attrs available_in visibility_loop check_vis vis_for is_register is_team_create
    is_attempt
attempt_allowed = refl

board_allowed : (decide (policy scoreboard)).allow ≡ true
unfolding decide classified setup_gate ban_gate password_gate mode_gate admin_gate visibility_gate
    auth_gate verified_gate profile_gate team_gate clock_gate enrollment_gate pause_gate is_unknown
    is_setup attrs available_in visibility_loop check_vis vis_for is_register is_team_create
    is_attempt
board_allowed = refl

decide_iff_example :
    ((decide (policy challenge_attempt)).allow ≡ true) ↔ Permitted (policy challenge_attempt)
decide_iff_example = decide_iff (policy challenge_attempt)

abbrev banned_policy : Policy
banned_policy = record {
  e = event;
  p = record player { banned = true; is_admin = true };
  r = request challenge_list;
}

decide-banned_example : decide banned_policy ≡ deny 403 "" banned_user
decide-banned_example =
    decide-banned banned_policy refl refl refl (λ h. ground arith) (λ h. ground arith)
      (λ h. ground arith)

abbrev finished : Policy
finished = record { e = record event { phase = ended }; p = player; r = request hint_unlock }

ended-denies_example : (decide finished).allow ≡ false
ended-denies_example = ended-denies finished refl refl hint

-- an admin who previews a challenge while the event is paused
abbrev preview : Policy
preview = record {
  e = record event { paused = true };
  p = record player { is_admin = true };
  r = record {
    class = challenge_attempt;
    surface = public_surface;
    admin_view = false;
    preview = true;
  };
}

allowed_public_frozen_example :
    (freeze_exempt (policy scoreboard) ≡ false) × (frozen (policy scoreboard) ≡ true)
allowed_public_frozen_example =
    allowed_public_frozen (policy scoreboard) board_allowed refl refl refl

abbrev redactor : Redactor
redactor = record { scores_visible = false; accounts_visible = true }

abbrev fields : AccountFields
fields = record { score = some (pos 120); place = some 2 }

abbrev contribution : MemberContribution
contribution = record { points = some (pos 30); solve_count = some 1 }

own_place_withheld : (redact_self redactor fields).place ≡ none
unfolding redact_self
own_place_withheld = refl

withheld_together_example :
    ((redact_account redactor fields).score ≡ none)
    × ((redact_account redactor fields).place ≡ none)
    × ((redact_team_member redactor contribution).points ≡ none)
    × (challenge_solve_count redactor (some 5) ≡ none)
    × (challenge_solve_list {Row = ℕ} redactor (7 ∷ []) ≡ [])
    × (profile_solve_list {Row = ℕ} redactor (7 ∷ []) ≡ [])
    × (profile_score_history {Row = ℕ} redactor (7 ∷ []) ≡ [])
    × ((redact_self redactor fields).score ≡ some (pos 120))
withheld_together_example =
    withheld_together redactor fields fields contribution (some 5) (7 ∷ []) 2 refl
      own_place_withheld

phase_at-before_start_example :
    (phase_at 30 (some 30) (some 20) ≡ before_start) ↔ ¬ Started 30 (some 30)
phase_at-before_start_example = phase_at-before_start 30 (some 30) (some 20)
