-- ===== src/Gameplay/Submit/Blood.antt =====
-- First blood: however submissions interleave, a challenge yields at most one.
use mathlib.Core.Path.{subst}
use flagfish.Prelude.{
  ℕ, ◌+◌, ◌≤◌, ◌<◌, ◌≡◌, refl, sym, ap, ◌∙◌, ◌⊎◌, inl, inr, Bool, true, false, not, ◌&&◌, ◌||◌,
  Option, List, [], ◌∷◌, ◌==◌, All, arith, Bool-cases, Option-cases,
}
use flagfish.Account
use flagfish.Account.{Mode, teams, users, unknown, Resolved, account, failed}
use flagfish.Prereq.Requirements.{parse}
use flagfish.Gameplay.Store.{
  Challenge, Solve, Store, Actor, with_solve, exists, find_challenge, account_id_of, count,
  count_solves_excluding, eligible, visible_solve,
}
use flagfish.Gameplay.Check.{Library, challenge_prereqs_met}
use flagfish.Gameplay.Submit.{Input, Result, admitted, admit, gate, draws_blood}
use flagfish.Gameplay.Submit.Keeps.{Keeps}
use flagfish.Gameplay.Submit.Effects.{find_challenge_lem}

-- the challenge has a solve by an account that is neither hidden nor banned
abbrev pub drawn : Mode → Store → ℕ → Bool
drawn mode s c = exists (visible_solve mode s c) s.solves

-- the ids of the solves are below the next one of the sequence
abbrev pub FreshIds : Store → Type 0
FreshIds s = All (λ v. v.id < s.solve_seq) s.solves

pub eligible_same :
    (mode : Mode) (s t : Store) (user : ℕ) (team : Option ℕ)
    → t.users ≡ s.users
    → t.team_rows ≡ s.team_rows
    → eligible mode t user team ≡ eligible mode s user team
unfolding eligible
eligible_same users s t user team u w = rw (u)
eligible_same teams s t user team u w = rw (w)
eligible_same unknown s t user team u w = rw (u)

exists_same :
    (p q : Solve → Bool) → ((v : Solve) → p v ≡ q v) → (vs : List Solve) → exists p vs ≡ exists q vs
unfolding exists
exists_same p q h [] = refl
exists_same p q h (v ∷ vs) = rw (h v, exists_same p q h vs)

-- the solves of t seen from s, where the accounts are the same
drawn_same :
    (mode : Mode) (s t : Store) (c : ℕ)
    → t.users ≡ s.users
    → t.team_rows ≡ s.team_rows
    → drawn mode t c ≡ exists (visible_solve mode s c) t.solves
drawn_same mode s t c u w =
    exists_same (visible_solve mode t c) (visible_solve mode s c)
      (λ v. rw (eligible_same mode s t v.user_id v.team_id u w)) t.solves

exists_cons :
    (p : Solve → Bool) (v : Solve) (vs : List Solve) → exists p (v ∷ vs) ≡ (p v || exists p vs)
unfolding exists
exists_cons p v vs = refl

count_others :
    (p : Solve → Bool) (n : ℕ) (vs : List Solve)
    → exists p vs ≡ true
    → All (λ v. v.id < n) vs
    → 1 ≤ count (λ v. p v && not (v.id == n)) vs
unfolding exists count
count_others p n [] h fresh = cc
count_others p n (v ∷ vs) h fresh = ground (arith, fresh.0, count_others p n vs, fresh.1)

All-below_suc : (n : ℕ) (vs : List Solve) → All (λ v. v.id < n) vs → All (λ v. v.id < n + 1) vs
All-below_suc n [] h = tt
All-below_suc n (v ∷ vs) h = (omega (arith, h.0), All-below_suc n vs h.1)

gate_same :
    (lib : Library) (mode : Mode) (seen : Store) (c d : Challenge) (a : Actor)
    → gate lib mode seen c a ≡ admitted d
    → c ≡ d
unfolding gate
gate_same lib mode seen c d a h = elim (Option-cases (parse lib.json c.requirements)) [
  | inl e ↦ absurd (ground (arith, e, h))
  | inr (r, e) ↦ elim (Bool-cases (challenge_prereqs_met mode seen a r)) [
    | inl yes' ↦ ground (arith, e, yes', h)
    | inr no' ↦ absurd (ground (arith, e, no', h))
  ]
]

pub Resolved-cases :
    (r : Resolved) → ((n : ℕ) × (r ≡ account n)) ⊎ ((e : Account.Error) × (r ≡ failed e))
Resolved-cases (account n) = inl (n, refl)
Resolved-cases (failed e) = inr (e, refl)

pub admit-id :
    (lib : Library) (mode : Mode) (seen : Store) (input : Input) (c : Challenge)
    → admit lib mode seen input ≡ admitted c
    → c.id ≡ input.challenge_id
unfolding admit
admit-id lib mode seen input c h = elim (Resolved-cases (account_id_of mode input.actor)) [
  | inr (e, k) ↦ absurd (ground (arith, k, h))
  | inl (n, k) ↦ elim (Option-cases (find_challenge input.challenge_id seen.challenges)) [
    | inl x ↦ absurd (ground (arith, k, x, h))
    | inr (d, x) ↦
        let same = gate_same lib mode seen d c input.actor (sym (rw (k, x, admit)) ∙ h) in
        subst (λ y. y.id ≡ input.challenge_id) same
          (find_challenge_lem input.challenge_id seen.challenges d x).0
  ]
]

count_tail : (p : Solve → Bool) (v : Solve) (vs : List Solve) → count p vs ≤ count p (v ∷ vs)
unfolding count
count_tail p v vs = ground arith

-- with a visible solve already in the ledger, another one is counted
counts_prior :
    (mode : Mode) (s : Store) (c : ℕ) (v : Solve)
    → FreshIds s
    → v.id ≡ s.solve_seq
    → drawn mode s c ≡ true
    → 1 ≤ count_solves_excluding mode (with_solve s v) c v.id
unfolding count_solves_excluding
counts_prior mode s c v fresh e d =
    let t = with_solve s v in
    let vis : exists (visible_solve mode t c) s.solves ≡ true =
      exists_same (visible_solve mode t c) (visible_solve mode s c)
        (λ w. rw (eligible_same mode s t w.user_id w.team_id refl refl)) s.solves
      ∙ d in
    let below = subst (λ n. All (λ w. w.id < n) s.solves) (sym e) fresh in
    omega (
      arith,
      count_others (visible_solve mode t c) v.id s.solves vis below,
      count_tail (λ w. visible_solve mode t c w && not (w.id == v.id)) v s.solves,
    )

-- what the first-blood test says of the solve just inserted
draws_blood-fresh :
    (mode : Mode) (s : Store) (c : Challenge) (v : Solve) (a : Actor)
    → FreshIds s
    → v.id ≡ s.solve_seq
    → draws_blood mode (with_solve s v) c v a ≡ true
    → (drawn mode s c.id ≡ false) × (eligible mode (with_solve s v) a.user_id a.team_id ≡ true)
unfolding draws_blood
draws_blood-fresh mode s c v a fresh e h = elim (Bool-cases (drawn mode s c.id)) [
  | inl d ↦ absurd (ground (arith, counts_prior mode s c.id v fresh e d, h))
  | inr d ↦ (d, ground (arith, h))
]

-- what one committed submission does to first blood
pub record Bled (mode : Mode) (s : Store) (c : ℕ) (r : Result) (after : Store) : Type 0 where
  pub fresh : FreshIds after
  pub stays : (d : ℕ) → drawn mode s d ≡ true → drawn mode after d ≡ true
  pub was_dry : r.first_blood ≡ true → drawn mode s c ≡ false
  pub is_drawn : r.first_blood ≡ true → drawn mode after c ≡ true

FreshIds_same :
    {vs ws : List Solve} {m n : ℕ}
    → ws ≡ vs
    → m ≡ n
    → All (λ v. v.id < n) vs
    → All (λ v. v.id < m) ws
FreshIds_same {vs} {ws} {m} {n} e f h =
    subst (λ l. All (λ v. v.id < m) l) (sym e) (subst (λ k. All (λ v. v.id < k) vs) (sym f) h)

-- a submission that only adds to the log
pub Bled-logged :
    (mode : Mode) (s t : Store) (c : ℕ) (r : Result)
    → FreshIds s
    → t.solves ≡ s.solves
    → t.solve_seq ≡ s.solve_seq
    → t.users ≡ s.users
    → t.team_rows ≡ s.team_rows
    → r.first_blood ≡ false
    → Bled mode s c r t
Bled-logged mode s t c r fresh v n u w dry = record {
  fresh = FreshIds_same v n fresh;
  stays = λ d h. drawn_same mode s t d u w ∙ (ap (exists (visible_solve mode s d)) v ∙ h);
  was_dry = λ h. absurd (ground (arith, dry, h));
  is_drawn = λ h. absurd (ground (arith, dry, h));
}

-- a submission that adds a solve
pub Bled-solved :
    (mode : Mode) (s t : Store) (c : Challenge) (a : Actor) (v : Solve) (r : Result)
    → FreshIds s
    → v.id ≡ s.solve_seq
    → v.challenge_id ≡ c.id
    → v.user_id ≡ a.user_id
    → v.team_id ≡ a.team_id
    → r.first_blood ≡ draws_blood mode (with_solve s v) c v a
    → Keeps (with_solve s v) t
    → Bled mode s c.id r t
Bled-solved mode s t c a v r fresh e ch user team b kept =
    let more : (d : ℕ) → drawn mode t d ≡ (visible_solve mode s d v || drawn mode s d) = λ d.
      drawn_same mode s t d kept.users kept.team_rows
      ∙ (ap (exists (visible_solve mode s d)) kept.solves
          ∙ exists_cons (visible_solve mode s d) v s.solves) in
    record {
      fresh =
          FreshIds_same kept.solves kept.solve_seq
            (omega (arith, e), All-below_suc s.solve_seq s.solves fresh);
      stays = λ d h. more d ∙ ground (arith, h);
      was_dry = λ h. (draws_blood-fresh mode s c v a fresh e (sym b ∙ h)).0;
      is_drawn = λ h.
          let ok = (draws_blood-fresh mode s c v a fresh e (sym b ∙ h)).1 in
          let same = eligible_same mode s (with_solve s v) a.user_id a.team_id refl refl in
          more c.id ∙ ground (arith, ok, same, ch, user, team);
    }

-- the log is no part of it
pub Bled-before :
    {mode : Mode} {t after : Store} {c : ℕ} {r : Result} (s : Store)
    → t.solves ≡ s.solves
    → t.users ≡ s.users
    → t.team_rows ≡ s.team_rows
    → Bled mode t c r after
    → Bled mode s c r after
Bled-before {mode} {t} {after} {c} {r} s v u w h =
    let same : (d : ℕ) → drawn mode t d ≡ drawn mode s d =
      λ d. drawn_same mode s t d u w ∙ ap (exists (visible_solve mode s d)) v in
    record {
      fresh = h.fresh;
      stays = λ d k. h.stays d (same d ∙ k);
      was_dry = λ k. sym (same c) ∙ h.was_dry k;
      is_drawn = h.is_drawn;
    }
