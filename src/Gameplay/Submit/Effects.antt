-- ===== src/Gameplay/Submit/Effects.antt =====
-- What a committed submission has done to the ledger of solves and to the attempts.
use mathlib.Core.Path.{subst}
use flagfish.Prelude.{
  ℕ, ◌≡◌, sym, ap, ◌∙◌, ◌⊎◌, inl, inr, Bool, true, false, ◌&&◌, Option, none, some, List, [], ◌∷◌,
  ◌==◌, arith, Bool-cases, Option-cases,
}
use flagfish.Account.{Mode}
use flagfish.Gameplay.Store.{
  Challenge, Solve, Store, Actor, insert_submission, insert_solve, new_solve, with_solve, clash,
  exists, correct_kind, incorrect_kind, find_challenge,
}
use flagfish.Gameplay.Check.{Match}
use flagfish.Gameplay.Submit.{
  Input, Result, correct, bare, incorrect, already_solved, Reply, committed, draws_blood, paid,
  celebrate, publish, reprice, settle, solve_locked, conclude,
}
use flagfish.Gameplay.Submit.Keeps.{
  Keeps, Keeps-trans, Paid-cases, celebrate-Keeps, publish-Keeps, reprice-Keeps,
}

committed-injective :
    {r q : Result} {s t : Store}
    → ◌≡◌ {A = Reply Result} (committed r s) (committed q t)
    → (r ≡ q) × (s ≡ t)
committed-injective h = (cc, cc)

pub find_challenge_lem :
    (id : ℕ) (cs : List Challenge) (c : Challenge)
    → find_challenge id cs ≡ some c
    → (c.id ≡ id) × (c.is_visible ≡ true)
unfolding find_challenge
find_challenge_lem id [] c h = cc
find_challenge_lem id (x ∷ cs) c h = elim (Bool-cases (x.id == id && x.is_visible)) [
  | inl here ↦
      let e : x ≡ c = ground (arith, here, h) in
      subst (λ y. (y.id ≡ id) × (y.is_visible ≡ true)) e (ground (arith, here))
  | inr there ↦ find_challenge_lem id cs c (ground (arith, there, h))
]

-- the reply to a solve and its tail
pub record Settled (mode : Mode) (c : Challenge) (v : Solve) (first : Bool) (mid : Store)
    (r : Result) (after : Store) : Type 0 where
  pub reply :
      r ≡ record { status = correct; first_blood = first; value = v.value; next_id = c.next_id }
  pub priced : Store
  pub kept : Keeps mid priced
  pub repriced : reprice mode priced c ≡ paid after

pub settle-Settled :
    (mode : Mode) (c : Challenge) (a : Actor) (v : Solve) (first : Bool) (mid : Store) (r : Result)
    (after : Store)
    → settle mode c a v first mid ≡ committed r after
    → Settled mode c v first mid r after
unfolding settle
settle-Settled mode c a v first mid r after h = elim (Paid-cases (celebrate first mid c a v)) [
  | inl (f, e) ↦ absurd (ground (arith, e, h))
  | inr (p, e) ↦ elim (Paid-cases (reprice mode (publish p c v first) c)) [
    | inl (f, k) ↦ absurd (ground (arith, e, k, h))
    | inr (q, k) ↦
        let parts =
          committed-injective
            {r = record {
              status = correct;
              first_blood = first;
              value = v.value;
              next_id = c.next_id;
            }}
            {s = q} (sym (rw (e, k, settle)) ∙ h) in
        record {
          reply = sym parts.0;
          priced = publish p c v first;
          kept = Keeps-trans (celebrate-Keeps first mid c a v p e) (publish-Keeps p c v first);
          repriced = k ∙ ap paid parts.1;
        }
  ]
]

pub Settled-Keeps :
    {mode : Mode} {c : Challenge} {v : Solve} {first : Bool} {mid : Store} {r : Result}
    {after : Store}
    → Settled mode c v first mid r after
    → Keeps mid after
Settled-Keeps {mode} {c} {v} {first} {mid} {r} {after} h =
    Keeps-trans h.kept (reprice-Keeps mode h.priced c after h.repriced)

-- the cases of the correct path: the account has a solve already, or this is its first
module _ (mode : Mode) (now : ℕ) (c : Challenge) (input : Input) (attributed : Option ℕ)
    (s : Store) where
  abbrev pub submitted : Store
  submitted = insert_submission s c.id input.actor correct_kind input.provided attributed

  abbrev pub this_solve : Solve
  this_solve = new_solve submitted s.submission_seq c.id input.actor c.value now

  abbrev pub solved_store : Store
  solved_store = with_solve submitted this_solve

  abbrev pub taken : Bool
  taken = exists (clash c.id input.actor.user_id input.actor.team_id) submitted.solves

  pub solve_locked-cases :
      (r : Result) (after : Store)
      → solve_locked mode now c input attributed s ≡ committed r after
      → ((taken ≡ true) × (r ≡ bare already_solved) × (after ≡ submitted))
        ⊎ ((taken ≡ false)
            × Settled mode c this_solve
                (draws_blood mode solved_store c this_solve input.actor)
                solved_store
                r
                after)
  unfolding solve_locked insert_solve
  solve_locked-cases r after h = elim (Bool-cases taken) [
    | inl t ↦
        let parts =
          committed-injective {r = bare already_solved} {s = submitted}
            (sym (rw (t, solve_locked)) ∙ h) in
        inl (t, sym parts.0, sym parts.1)
    | inr f ↦ inr (
      f,
      settle-Settled mode c input.actor this_solve
          (draws_blood mode solved_store c this_solve input.actor) solved_store r after
          (sym (rw (f, solve_locked)) ∙ h),
    )
  ]

module _ (mode : Mode) (now : ℕ) (s : Store) (c : Challenge) (input : Input) (m : Match) where
  -- a wrong answer, or the correct path on the row of the store
  pub conclude-cases :
      (r : Result) (after : Store)
      → conclude mode now s c input m ≡ committed r after
      → ((r ≡ bare incorrect)
          × (after ≡ insert_submission s c.id input.actor incorrect_kind input.provided none))
        ⊎ ((locked : Challenge) × (find_challenge c.id s.challenges ≡ some locked)
            × (solve_locked mode now locked input m.attributed_account_id s ≡ committed r after))
  unfolding conclude
  conclude-cases r after h = elim (Bool-cases m.correct) [
    | inr wrong ↦
        let parts =
          committed-injective {r = bare incorrect}
            {s = insert_submission s c.id input.actor incorrect_kind input.provided none}
            (sym (rw (wrong, conclude)) ∙ h) in
        inl (sym parts.0, sym parts.1)
    | inl right ↦ elim (Option-cases (find_challenge c.id s.challenges)) [
      | inl gone ↦ absurd (ground (arith, right, gone, h))
      | inr (locked, e) ↦ inr (locked, e, sym (rw (right, e, conclude)) ∙ h)
    ]
  ]
