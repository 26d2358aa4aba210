-- ===== src/Roster/SignedOut.antt =====
-- A ban and a forced password change end every session of the user, and the latter every API token.
use mathlib.Core.Path.{subst}
use flagfish.Prelude.{
  ℕ, ◌≡◌, refl, Bool, true, false, List, [], ◌∷◌, arith, Bool-cases, inl, inr, ◌==◌,
}
use flagfish.Rows.{exists, update_where, delete_where}
use flagfish.Roster.{UserRow, Roster, has_id}
use flagfish.Roster.Moderation.{
  Moderated, rejected, applied, set_banned, ban_user, update_user_row, then_apply, set_banned_flag,
  delete_user_sessions, force_password_change, set_must_change, set_team_banned, ban_team,
  update_team_row, on_team_id,
}

deleted {ℓ} :
    {A : Type ℓ} (test : A → Bool) (xs : List A) → exists test (delete_where test xs) ≡ false
unfolding exists delete_where
deleted test [] = refl
deleted test (x ∷ xs) = elim (Bool-cases (test x)) [
  | inl gone ↦ rw gone (deleted test xs)
  | inr kept ↦ ground (arith, kept, deleted test xs)
]

-- what an applied change leaves
abbrev pub Leaves : (Roster → Type 0) → Moderated → Type 0
Leaves P (rejected f) = Unit
Leaves P (applied s) = P s

abbrev pub NoSession : ℕ → Roster → Type 0
NoSession user s = exists (λ owner. owner == user) s.sessions ≡ false

user_row-Leaves :
    (r : Roster) (user : ℕ) (set : UserRow → UserRow)
    → Leaves (NoSession user) (then_apply (delete_user_sessions user) (update_user_row r user set))
unfolding then_apply update_user_row
user_row-Leaves r user set = ground (arith, deleted (λ owner. owner == user) r.sessions)

-- the users of the roster that a change leaves are the old ones with the row of the user changed
abbrev pub Sets : Roster → ℕ → (UserRow → UserRow) → Roster → Type 0
Sets r user set s = s.users ≡ update_where (has_id user) set r.users

-- A ban that is applied sets the flag on the user and leaves the user no session.
pub set_banned_ends :
    (r : Roster) (actor user : ℕ)
    → Leaves
        (λ s. Sets r user (set_banned_flag true) s × NoSession user s)
        (set_banned r actor user true)
unfolding set_banned ban_user then_apply update_user_row
set_banned_ends r actor user = ground (arith, deleted (λ owner. owner == user) r.sessions)

force_password_change_ends :
    (r : Roster) (user : ℕ)
    → Leaves
        (λ s.
          Sets r user set_must_change s
          × (NoSession user s × (exists (λ owner. owner == user) s.api_tokens ≡ false)))
        (force_password_change r user)
unfolding force_password_change then_apply update_user_row
force_password_change_ends r user = ground (
  arith,
  deleted (λ owner. owner == user) r.sessions,
  deleted (λ owner. owner == user) r.api_tokens,
)

-- A forced password change that is applied sets the flag on the user, changes no other user, and
-- leaves the user neither a session nor an API token.
pub password_change_ends :
    (r s : Roster) (user : ℕ)
    → force_password_change r user ≡ applied s
    → Sets r user set_must_change s
      × (NoSession user s × (exists (λ owner. owner == user) s.api_tokens ≡ false))
password_change_ends r s user e =
    subst
      (Leaves (λ (s : Roster).
        Sets r user set_must_change s
        × (NoSession user s × (exists (λ owner. owner == user) s.api_tokens ≡ false))))
      e (force_password_change_ends r user)

-- A team ban that is applied leaves no session whose owner is on the team.
pub set_team_banned_ends :
    (r : Roster) (actor team : ℕ)
    → Leaves
        (λ s. exists (on_team_id r.users team) s.sessions ≡ false)
        (set_team_banned r actor team true)
unfolding set_team_banned ban_team then_apply update_team_row
set_team_banned_ends r actor team = ground (arith, deleted (on_team_id r.users team) r.sessions)
