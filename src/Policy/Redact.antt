-- ===== src/Policy/Redact.antt =====
-- internal/domain/policy/redact.go: field redaction, with the page gate of page.go and the caps
-- rules of named_policies.go. A nil pointer or slice is `none` or the empty list.
use flagfish.Prelude.{
  ℕ, ◌≡◌, ◌≢◌, ◌↔◌, ◌⊎◌, Bool, true, false, not, ◌&&◌, Option, none, some, List, [], arith,
  if◌then◌else◌,
}
use flagfish.Prelude.Int.{ℤ}
use flagfish.Policy.Types.{
  Vis, public, private, admins, hidden, mlc, other, VisKind, registration, Principal, Policy,
}
use flagfish.Policy.Decide.{Outcome, allowed, missing, login_first, check_setting}

-- `visible`
unfoldable pub visible : Vis → Principal → Bool
visible public pr = true
visible private pr = pr.authed
visible admins pr = pr.is_admin
visible hidden pr = false
visible mlc pr = false
visible other pr = false

pub record Redactor : Type 0 where
  pub scores_visible : Bool
  pub accounts_visible : Bool

-- `NewRedactor`
unfoldable pub new_redactor : Policy → Redactor
unfolding visible
new_redactor p = record {
  scores_visible = visible p.e.score_vis p.p;
  accounts_visible = visible p.e.account_vis p.p;
}

pub record AccountFields : Type 0 where
  pub score : Option ℤ
  pub place : Option ℕ

-- `Redactor.Account`, on the fields it is handed
unfoldable pub redact_account : Redactor → AccountFields → AccountFields
redact_account r f = if not r.scores_visible then record { score = none; place = none } else f

-- `Redactor.Self`
unfoldable pub redact_self : Redactor → AccountFields → AccountFields
redact_self r f = if not r.scores_visible then record f { place = none } else f

-- `Redactor.ChallengeSolveCount`
unfoldable pub challenge_solve_count : Redactor → Option ℕ → Option ℕ
challenge_solve_count r count = if r.scores_visible && r.accounts_visible then count else none

-- `Redactor.ChallengeSolveList`, `ProfileSolveList` and `ProfileScoreHistory`, at any row type
module _ {ℓ} {Row : Type ℓ} where
  unfoldable pub challenge_solve_list : Redactor → List Row → List Row
  challenge_solve_list r solves = if r.scores_visible && r.accounts_visible then solves else []

  unfoldable pub profile_solve_list : Redactor → List Row → List Row
  profile_solve_list r solves = if r.scores_visible then solves else []

  unfoldable pub profile_score_history : Redactor → List Row → List Row
  profile_score_history r points = if r.scores_visible then points else []

pub record MemberContribution : Type 0 where
  pub points : Option ℤ
  pub solve_count : Option ℕ

-- `Redactor.TeamMember`
unfoldable pub redact_team_member : Redactor → MemberContribution → MemberContribution
redact_team_member r c =
    if not r.scores_visible then record { points = none; solve_count = none } else c

-- `PageView` of page.go
unfoldable pub page_view : Bool → Bool → Principal → Outcome
page_view draft auth_required pr =
    if draft then missing else if auth_required && not pr.authed then login_first else allowed

-- `CountsTowardCap` and `BypassesCaps` of named_policies.go
unfoldable pub counts_toward_cap : Bool → Bool → Bool
counts_toward_cap banned hidden' = not banned && not hidden'

unfoldable pub bypasses_caps : Principal → Bool
bypasses_caps pr = pr.is_admin

-- For a setting of scores or accounts, the gate and the redactor read it alike, but for `hidden`:
-- the gate lets the caller through exactly when the values are shown to the caller, or the setting
-- is `hidden` and the caller is an admin, whom the redactor still shows nothing.
visible_iff_checked :
    (v : Vis) (kind : VisKind) (pr : Principal)
    → kind ≢ registration
    → ((check_setting v kind pr).allow ≡ true)
      ↔ ((visible v pr ≡ true) ⊎ (v ≡ hidden) × (pr.is_admin ≡ true))
unfolding check_setting visible
visible_iff_checked v kind pr h = ground arith

-- Where the caller's own place is withheld, nothing that would give it away is shown: another
-- account's score and place, a team member's points, the solve count and the solve list of a
-- challenge, and the solves and the score history of a profile are all withheld; the caller's own
-- score is left as it is.
pub withheld_together :
    (r : Redactor) (f other_account : AccountFields) (c : MemberContribution) (count : Option ℕ)
    (solves : List ℕ) (place : ℕ)
    → f.place ≡ some place
    → (redact_self r f).place ≡ none
    → ((redact_account r other_account).score ≡ none)
      × ((redact_account r other_account).place ≡ none)
      × ((redact_team_member r c).points ≡ none)
      × (challenge_solve_count r count ≡ none)
      × (challenge_solve_list r solves ≡ [])
      × (profile_solve_list r solves ≡ [])
      × (profile_score_history r solves ≡ [])
      × ((redact_self r f).score ≡ f.score)
unfolding challenge_solve_count challenge_solve_list redact_self redact_account redact_team_member
    profile_solve_list profile_score_history
withheld_together r f other_account c count solves place shown hidden' = ground arith
