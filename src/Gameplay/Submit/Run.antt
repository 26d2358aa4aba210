-- ===== src/Gameplay/Submit/Run.antt =====
-- Sequences of submissions, each of which may have read, before its locks, any store at all.
use mathlib.Core.Path.{subst}
use flagfish.Prelude.{
  ℕ, suc, ◌≤◌, ◌≡◌, refl, ap, ◌∙◌, inl, inr, Bool, true, false, ◌&&◌, List, [], ◌∷◌, ◌==◌, arith,
  Bool-cases, if◌then◌else◌,
}
use flagfish.Account.{Mode}
use flagfish.Gameplay.Store.{Store, insert_submission}
use flagfish.Gameplay.Check.{Library}
use flagfish.Gameplay.Submit.{Input, Result, committed, submit}
use flagfish.Gameplay.Submit.Keeps.{submit-Passed}
use flagfish.Gameplay.Submit.Effects.{
  Settled-Keeps, solve_locked-cases, conclude-cases, submitted, this_solve, find_challenge_lem,
}
use flagfish.Gameplay.Submit.Blood.{
  drawn, FreshIds, admit-id, Bled, Bled-logged, Bled-solved, Bled-before,
}

hit_parts : (b : Bool) (x c : ℕ) → (b && x == c) ≡ true → (b ≡ true) × (x ≡ c)
hit_parts b x c h = ground (arith, h)

module _ (lib : Library) (mode : Mode) where
  submit-Bled :
      (now : ℕ) (seen s : Store) (input : Input) (r : Result) (after : Store)
      → FreshIds s
      → submit lib mode now seen s input ≡ committed r after
      → Bled mode s input.challenge_id r after
  unfolding insert_submission
  submit-Bled now seen s input r after fresh h =
      let p = submit-Passed lib mode now seen s input h in
      elim (conclude-cases mode now s p.challenge input p.match r after p.concluded) [
        | inl (e, k) ↦
            Bled-logged mode s after input.challenge_id r fresh (ap (λ t. t.solves) k)
              (ap (λ t. t.solve_seq) k) (ap (λ t. t.users) k) (ap (λ t. t.team_rows) k)
              (ap (λ q. q.first_blood) e)
        | inr (locked, found, path) ↦
            elim (solve_locked-cases mode now locked input p.match.attributed_account_id s r after
              path) [
                | inl (t, e, k) ↦
                    Bled-logged mode s after input.challenge_id r fresh (ap (λ t. t.solves) k)
                      (ap (λ t. t.solve_seq) k) (ap (λ t. t.users) k) (ap (λ t. t.team_rows) k)
                      (ap (λ q. q.first_blood) e)
                | inr (free, settled) ↦
                    let id =
                      (find_challenge_lem p.challenge.id s.challenges locked found).0
                      ∙ admit-id lib mode seen input p.challenge p.is_admitted in
                    subst (λ c. Bled mode s c r after) id
                      (Bled-before
                        {t = submitted mode now locked input p.match.attributed_account_id s} s refl
                        refl refl
                        (Bled-solved mode
                          (submitted mode now locked input p.match.attributed_account_id s) after
                          locked input.actor
                          (this_solve mode now locked input p.match.attributed_account_id s) r fresh
                          refl refl refl refl (ap (λ q. q.first_blood) settled.reply)
                          (Settled-Keeps settled)))
              ]
      ]

  -- a run of committed submissions, with the inputs and the replies
  pub data Run : Store → List (Input × Result) → Store → Type 0 where
    done : {s : Store} → Run s [] s
    step :
        (now : ℕ) (seen : Store) {s mid after : Store} {input : Input} {r : Result}
        {rest : List (Input × Result)}
        → submit lib mode now seen s input ≡ committed r mid
        → Run mid rest after
        → Run s ((input, r) ∷ rest) after

  -- the number of first bloods on the challenge
  abbrev pub bloods : ℕ → List (Input × Result) → ℕ
  bloods c [] = 0
  bloods c (x ∷ rest) =
      if x.1.first_blood && x.0.challenge_id == c then suc (bloods c rest) else bloods c rest

  drawn_no_more :
      (c : ℕ) {s after : Store} {rs : List (Input × Result)}
      → FreshIds s
      → Run s rs after
      → drawn mode s c ≡ true
      → bloods c rs ≡ 0
  drawn_no_more c fresh done d = refl
  drawn_no_more c fresh (step now seen {s} {mid} {after} {input} {r} {rest} h run) d =
      let b = submit-Bled now seen s input r mid fresh h in
      let none_later = drawn_no_more c b.fresh run (b.stays c d) in
      elim (Bool-cases (r.first_blood && input.challenge_id == c)) [
        | inl hit ↦
            let was =
              subst (λ x. drawn mode s x ≡ false)
                (hit_parts r.first_blood input.challenge_id c hit).1
                (b.was_dry (hit_parts r.first_blood input.challenge_id c hit).0) in
            absurd (ground (arith, d, was))
        | inr miss ↦ rw (miss) none_later
      ]

  -- From any store whose solves have ids below the next one, and however the submissions interleave
  -- before their locks, a challenge yields at most one first blood.
  pub one_first_blood :
      (c : ℕ) {s after : Store} {rs : List (Input × Result)}
      → FreshIds s
      → Run s rs after
      → bloods c rs ≤ 1
  one_first_blood c fresh done = omega arith
  one_first_blood c fresh (step now seen {s} {mid} {after} {input} {r} {rest} h run) =
      let b = submit-Bled now seen s input r mid fresh h in
      elim (Bool-cases (r.first_blood && input.challenge_id == c)) [
        | inl hit ↦
            let drawn_now =
              subst (λ x. drawn mode mid x ≡ true)
                (hit_parts r.first_blood input.challenge_id c hit).1
                (b.is_drawn (hit_parts r.first_blood input.challenge_id c hit).0) in
            let none_later = drawn_no_more c b.fresh run drawn_now in
            rw (hit) (omega (arith, none_later))
        | inr miss ↦ rw (miss) (one_first_blood c b.fresh run)
      ]
