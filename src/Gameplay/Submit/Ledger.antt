-- ===== src/Gameplay/Submit/Ledger.antt =====
-- The ledger of solves is append-only, an account solves a challenge once, and the cap on attempts
-- holds.
use mathlib.Core.Path.{subst}
use flagfish.Prelude.{
  ℕ, suc, ◌≤◌, ◌<◌, ◌≡◌, ◌≢◌, ◌↔◌, refl, sym, ap, ◌∙◌, ◌⊎◌, inl, inr, Bool, true, false, some, List,
  [], ◌∷◌, arith, Bool-cases,
}
use flagfish.Prelude.Int.{pos}
use flagfish.Account.{Mode}
use flagfish.Gameplay.Store.{
  Challenge, Solve, Store, insert_submission, clash, exists, find_challenge, count, count_incorrect,
  wrong_attempt, Submission,
}
use flagfish.Gameplay.Check.{Library, no_attempts_remaining}
use flagfish.Gameplay.Submit.{
  Input, Result, correct, Reply, rolled_back, committed, admitted, admit, exhausted, submit,
  after_reply,
}
use flagfish.Gameplay.Submit.Keeps.{submit-Passed}
use flagfish.Gameplay.Submit.Blood.{admit-id}
use flagfish.Gameplay.Submit.Effects.{
  find_challenge_lem, Settled-Keeps, solve_locked-cases, conclude-cases, this_solve,
}

-- a new row of the ledger: who solved the challenge that was asked for, at the price of its locked
-- row
pub record Entered (s : Store) (input : Input) (r : Result) (v : Solve) : Type 0 where
  pub locked : Challenge
  pub found : find_challenge input.challenge_id s.challenges ≡ some locked
  pub for_challenge : v.challenge_id ≡ input.challenge_id
  pub by_user : v.user_id ≡ input.actor.user_id
  pub by_team : v.team_id ≡ input.actor.team_id
  pub at_price : v.value ≡ locked.value
  pub replied : r.value ≡ locked.value
  pub no_clash : exists (clash v.challenge_id v.user_id v.team_id) s.solves ≡ false

module _ (lib : Library) (mode : Mode) (now : ℕ) (seen s : Store) (input : Input) where
  -- A submission that commits with the status correct adds one solve to the ledger, by the actor, of
  -- the challenge whose id was submitted, at the value that the locked row of that id has, which is
  -- also the value of the reply, and the actor had no solve of it by user or by team; with any other status it leaves the ledger
  -- as it was. No solve is ever changed or removed.
  pub submit_ledger :
      (r : Result) (after : Store)
      → submit lib mode now seen s input ≡ committed r after
      → ((r.status ≢ correct) × (after.solves ≡ s.solves))
        ⊎ ((v : Solve) × (r.status ≡ correct) × (after.solves ≡ v ∷ s.solves) × Entered s input r v)
  unfolding insert_submission
  submit_ledger r after h =
      let p = submit-Passed lib mode now seen s input h in
      let id = admit-id lib mode seen input p.challenge p.is_admitted in
      elim (conclude-cases mode now s p.challenge input p.match r after p.concluded) [
        | inl (e, k) ↦ inl ((λ x. ground (arith, e, x)), ap (λ t. t.solves) k)
        | inr (locked, found, path) ↦
            elim (solve_locked-cases mode now locked input p.match.attributed_account_id s r after
              path) [
                | inl (t, e, k) ↦ inl ((λ x. ground (arith, e, x)), ap (λ t. t.solves) k)
                | inr (free, settled) ↦ inr (
                  this_solve mode now locked input p.match.attributed_account_id s,
                  ap (λ q. q.status) settled.reply,
                  (Settled-Keeps settled).solves,
                  record {
                    locked = locked;
                    found = ap (λ n. find_challenge n s.challenges) (sym id) ∙ found;
                    for_challenge =
                        (find_challenge_lem p.challenge.id s.challenges locked found).0 ∙ id;
                    by_user = refl;
                    by_team = refl;
                    at_price = refl;
                    replied = ap (λ q. q.value) settled.reply;
                    no_clash = free;
                  },
                )
              ]
      ]

-- no two solves of one challenge share their user or their team
abbrev pub OncePerAccount : List Solve → Type 0
OncePerAccount [] = Unit
OncePerAccount (v ∷ vs) =
    (exists (clash v.challenge_id v.user_id v.team_id) vs ≡ false) × OncePerAccount vs

ledger-OncePerAccount :
    (lib : Library) (mode : Mode) (now : ℕ) (seen s : Store) (input : Input) (reply : Reply Result)
    → submit lib mode now seen s input ≡ reply
    → OncePerAccount s.solves
    → OncePerAccount (after_reply s reply).solves
ledger-OncePerAccount lib mode now seen s input (rolled_back f) h once = once
ledger-OncePerAccount lib mode now seen s input (committed r after) h once =
    elim (submit_ledger lib mode now seen s input r after h) [
      | inl (status, same) ↦ subst OncePerAccount (sym same) once
      | inr (v, status, more, entered) ↦ subst OncePerAccount (sym more) (entered.no_clash, once)
    ]

-- If no two solves of one challenge share their user or their team, the same holds after any
-- submission, however old the store is that it read before it took its locks.
pub submit-OncePerAccount :
    (lib : Library) (mode : Mode) (now : ℕ) (seen s : Store) (input : Input)
    → OncePerAccount s.solves
    → OncePerAccount (after_reply s (submit lib mode now seen s input)).solves
submit-OncePerAccount lib mode now seen s input once =
    ledger-OncePerAccount lib mode now seen s input (submit lib mode now seen s input) refl once

count_cons :
    {A : Type 0} (test : A → Bool) (x : A) (xs : List A) → count test (x ∷ xs) ≤ suc (count test xs)
unfolding count
count_cons test x xs = ground arith

module _ (lib : Library) (mode : Mode) (now : ℕ) (seen s : Store) (input : Input) where
  -- every committed submission adds one row to the log
  logged :
      (r : Result) (after : Store)
      → submit lib mode now seen s input ≡ committed r after
      → (x : Submission) × (after.submissions ≡ x ∷ s.submissions)
  unfolding insert_submission
  logged r after h =
      let p = submit-Passed lib mode now seen s input h in
      elim (conclude-cases mode now s p.challenge input p.match r after p.concluded) [
        | inl (e, k) ↦ (_, ap (λ t. t.submissions) k)
        | inr (locked, found, path) ↦
            elim (solve_locked-cases mode now locked input p.match.attributed_account_id s r after
              path) [
                | inl (t, e, k) ↦ (_, ap (λ t. t.submissions) k)
                | inr (free, settled) ↦ (_, (Settled-Keeps settled).submissions)
              ]
      ]

  one_more_attempt :
      (c : ℕ) (reply : Reply Result)
      → submit lib mode now seen s input ≡ reply
      → count_incorrect mode (after_reply s reply) c input.actor
        ≤ suc (count_incorrect mode s c input.actor)
  unfolding count_incorrect
  one_more_attempt c (rolled_back f) h = omega arith
  one_more_attempt c (committed r after) h =
      let (x, e) = logged r after h in
      subst
        (λ l.
          count (wrong_attempt mode c input.actor) l
          ≤ suc (count (wrong_attempt mode c input.actor) s.submissions))
        (sym e) (count_cons (wrong_attempt mode c input.actor) x s.submissions)

  exhausted_iff :
      (c : Challenge) (k : ℕ)
      → c.max_attempts ≡ pos k
      → 0 < k
      → (exhausted mode s c input.actor ≡ true) ↔ (k ≤ count_incorrect mode s c.id input.actor)
  unfolding exhausted
  exhausted_iff c k e h = rw (e) (ground arith)

  submit-exhausted :
      (c : Challenge)
      → admit lib mode seen input ≡ admitted c
      → exhausted mode s c input.actor ≡ true
      → submit lib mode now seen s input ≡ rolled_back no_attempts_remaining
  unfolding submit
  submit-exhausted c e x = rw (e, x, submit)

  -- On a challenge that allows k attempts, k positive, and that the actor may play: once k wrong
  -- answers of the account are logged, a submission is refused and its flag is not compared; before
  -- that, at most k are logged after it, however old the store of the reads without a lock is.
  pub submit_cap :
      (c : Challenge) (k : ℕ)
      → admit lib mode seen input ≡ admitted c
      → c.max_attempts ≡ pos k
      → 0 < k
      → ((k ≤ count_incorrect mode s c.id input.actor)
          × (submit lib mode now seen s input ≡ rolled_back no_attempts_remaining))
        ⊎ ((count_incorrect mode s c.id input.actor < k)
            × (count_incorrect mode
                  (after_reply s (submit lib mode now seen s input))
                  c.id
                  input.actor
                ≤ k))
  submit_cap c k e a h = elim (Bool-cases (exhausted mode s c input.actor)) [
    | inl x ↦ inl ((exhausted_iff c k a h).0 x, submit-exhausted c e x)
    | inr x ↦
        let more = one_more_attempt c.id (submit lib mode now seen s input) refl in
        let below : count_incorrect mode s c.id input.actor < k =
          ground (arith, exhausted_iff c k a h, x) in
        inr (below, omega (arith, more, below))
  ]
