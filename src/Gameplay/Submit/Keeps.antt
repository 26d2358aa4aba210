-- ===== src/Gameplay/Submit/Keeps.antt =====
-- Taking a committed submission apart, and what each step of it leaves as it was.
use mathlib.Core.Path.{subst}
use flagfish.Prelude.{
  ℕ, ◌≡◌, refl, sym, ◌∙◌, ◌⊎◌, inl, inr, Bool, true, false, Option, some, arith, Bool-cases,
  Option-cases,
}
use flagfish.Prelude.Int.{ℤ, pos}
use flagfish.Account.{Mode}
use flagfish.Scoring.Decay.{is_static}
use flagfish.Scoring.Decay.Sql.{recalc}
use flagfish.Scoring.Decay.Sql
use flagfish.Gameplay.Store.{
  Challenge, Solve, Store, Actor, insert_award, with_award, with_price, exists, second_blood,
  recalc_challenge_value, counted_solves, first_blood_kind, AwardKind,
}
use flagfish.Gameplay.Check.{Library, Failure, Match, Check, fault, verdict, check}
use flagfish.Gameplay.Submit.{
  Input, Result, committed, Admitted, refused, admitted, admit, exhausted, Paid, unpaid, paid,
  pay_bonus, celebrate, publish, announce, reprice, conclude, submit, is_bonus,
}

Value-cases : (v : Sql.Value) → ((v ≡ Sql.error) ⊎ (v ≡ Sql.null)) ⊎ ((x : ℤ) × (v ≡ Sql.int x))
Value-cases Sql.error = inl (inl refl)
Value-cases Sql.null = inl (inr refl)
Value-cases (Sql.int x) = inr (x, refl)

Admitted-cases :
    (a : Admitted) → ((f : Failure) × (a ≡ refused f)) ⊎ ((c : Challenge) × (a ≡ admitted c))
Admitted-cases (refused f) = inl (f, refl)
Admitted-cases (admitted c) = inr (c, refl)

Check-cases : (k : Check) → ((f : Failure) × (k ≡ fault f)) ⊎ ((m : Match) × (k ≡ verdict m))
Check-cases (fault f) = inl (f, refl)
Check-cases (verdict m) = inr (m, refl)

pub Paid-cases : (p : Paid) → ((f : Failure) × (p ≡ unpaid f)) ⊎ ((s : Store) × (p ≡ paid s))
Paid-cases (unpaid f) = inl (f, refl)
Paid-cases (paid s) = inr (s, refl)

module _ (lib : Library) (mode : Mode) (now : ℕ) (seen s : Store) (input : Input) where
  -- a submission that commits has passed the gate, the cap and the check
  pub record Passed (r : Result) (after : Store) : Type 0 where
    pub challenge : Challenge
    pub match : Match
    pub is_admitted : admit lib mode seen input ≡ admitted challenge
    pub has_attempts : exhausted mode s challenge input.actor ≡ false
    pub checked : check lib seen challenge input.provided ≡ verdict match
    pub concluded : conclude mode now s challenge input match ≡ committed r after

  pub submit-Passed :
      {r : Result} {after : Store}
      → submit lib mode now seen s input ≡ committed r after
      → Passed r after
  unfolding submit
  submit-Passed h = elim (Admitted-cases (admit lib mode seen input)) [
    | inl (f, e) ↦ absurd (ground (arith, e, h))
    | inr (c, e) ↦ elim (Bool-cases (exhausted mode s c input.actor)) [
      | inl x ↦ absurd (ground (arith, e, x, h))
      | inr x ↦ elim (Check-cases (check lib seen c input.provided)) [
        | inl (f, k) ↦ absurd (ground (arith, e, x, k, h))
        | inr (m, k) ↦ record {
          challenge = c;
          match = m;
          is_admitted = e;
          has_attempts = x;
          checked = k;
          concluded = ground (arith, e, x, k, h);
        }
      ]
    ]
  ]

-- the tables that what follows a solve leaves alone
pub record Keeps (s t : Store) : Type 0 where
  pub solves : t.solves ≡ s.solves
  pub submissions : t.submissions ≡ s.submissions
  pub users : t.users ≡ s.users
  pub team_rows : t.team_rows ≡ s.team_rows
  pub hint_unlocks : t.hint_unlocks ≡ s.hint_unlocks
  pub solve_seq : t.solve_seq ≡ s.solve_seq

Keeps-refl : (s : Store) → Keeps s s
Keeps-refl s = record {
  solves = refl;
  submissions = refl;
  users = refl;
  team_rows = refl;
  hint_unlocks = refl;
  solve_seq = refl;
}

pub Keeps-trans : {s t u : Store} → Keeps s t → Keeps t u → Keeps s u
Keeps-trans h k = record {
  solves = k.solves ∙ h.solves;
  submissions = k.submissions ∙ h.submissions;
  users = k.users ∙ h.users;
  team_rows = k.team_rows ∙ h.team_rows;
  hint_unlocks = k.hint_unlocks ∙ h.hint_unlocks;
  solve_seq = k.solve_seq ∙ h.solve_seq;
}

paid-injective : {s t : Store} → paid s ≡ paid t → s ≡ t
paid-injective h = cc

some-injective :
    {id n : ℕ} {s t : Store} → ◌≡◌ {A = Option (ℕ × Store)} (some (id, s)) (some (n, t)) → s ≡ t
some-injective h = cc

pub insert_award-Keeps :
    (s : Store) (a : Actor) (kind : AwardKind) (challenge : Option ℕ) (value : ℤ) (id : ℕ)
    (t : Store)
    → insert_award s a kind challenge value ≡ some (id, t)
    → Keeps s t
unfolding insert_award
insert_award-Keeps s a kind challenge value id t h =
    elim (Bool-cases (exists (second_blood kind challenge) s.awards)) [
      | inl clash ↦ absurd (ground (arith, clash, h))
      | inr free ↦
          subst (Keeps s) {x = with_award s a kind challenge value}
            (some-injective {id = s.award_seq} (sym (rw (free, insert_award)) ∙ h))
            (record {
              solves = refl;
              submissions = refl;
              users = refl;
              team_rows = refl;
              hint_unlocks = refl;
              solve_seq = refl;
            })
    ]

pay_bonus-Keeps :
    (s : Store) (c : Challenge) (a : Actor) (t : Store) → pay_bonus s c a ≡ paid t → Keeps s t
unfolding pay_bonus
pay_bonus-Keeps s c a t h = elim (Bool-cases (is_bonus c.first_blood)) [
  | inl b ↦ elim (Option-cases c.first_blood_bonus) [
    | inl n ↦ absurd (ground (arith, b, n, h))
    | inr (amount, m) ↦ elim (Option-cases (insert_award s a first_blood_kind (some c.id) amount)) [
      | inl n ↦ absurd (ground (arith, b, m, n, h))
      | inr ((id, u), k) ↦
          insert_award-Keeps s a first_blood_kind (some c.id) amount id t
            (ground (arith, b, m, k, h))
    ]
  ]
  | inr b ↦ subst (Keeps s) (paid-injective (ground (arith, b, h))) (Keeps-refl s)
]

announce-Keeps : (s : Store) (c : Challenge) (a : Actor) (v : Solve) → Keeps s (announce s c a v)
announce-Keeps s c a v = record {
  solves = refl;
  submissions = refl;
  users = refl;
  team_rows = refl;
  hint_unlocks = refl;
  solve_seq = refl;
}

pub publish-Keeps : (s : Store) (c : Challenge) (v : Solve) (b : Bool) → Keeps s (publish s c v b)
publish-Keeps s c v b = record {
  solves = refl;
  submissions = refl;
  users = refl;
  team_rows = refl;
  hint_unlocks = refl;
  solve_seq = refl;
}

pub celebrate-Keeps :
    (b : Bool) (s : Store) (c : Challenge) (a : Actor) (v : Solve) (t : Store)
    → celebrate b s c a v ≡ paid t
    → Keeps s t
unfolding celebrate
celebrate-Keeps false s c a v t h = subst (Keeps s) (paid-injective h) (Keeps-refl s)
celebrate-Keeps true s c a v t h = elim (Paid-cases (pay_bonus s c a)) [
  | inl (f, e) ↦ absurd (ground (arith, e, h))
  | inr (u, e) ↦
      subst (Keeps s) (paid-injective (sym (rw (e, celebrate)) ∙ h))
        (Keeps-trans (pay_bonus-Keeps s c a u e) (announce-Keeps u c a v))
]

-- the row is repriced or not; the other tables stay
pub reprice-Keeps :
    (mode : Mode) (s : Store) (c : Challenge) (t : Store) → reprice mode s c ≡ paid t → Keeps s t
unfolding reprice recalc_challenge_value
reprice-Keeps mode s c t h = elim (Bool-cases (is_static c.curve.function)) [
  | inl fixed ↦ subst (Keeps s) (paid-injective (sym (rw (fixed, reprice)) ∙ h)) (Keeps-refl s)
  | inr decaying ↦ elim (Value-cases (recalc c.curve (pos (counted_solves mode s c.id)))) [
    | inl bad ↦ absurd (ground (arith, decaying, bad, h))
    | inr (v, e) ↦
        subst (Keeps s) {x = with_price s c.id v}
          (paid-injective (sym (rw (decaying) (rw (e))) ∙ h))
          (record {
            solves = refl;
            submissions = refl;
            users = refl;
            team_rows = refl;
            hint_unlocks = refl;
            solve_seq = refl;
          })
  ]
]
