-- ===== src/Gameplay/Submit/Price.antt =====
-- The price that a solve leaves: the statement of the transaction against the curve of the domain.
use mathlib.Core.Path.{subst}
use flagfish.Prelude.{
  ℕ, ◌≤◌, ◌≡◌, ◌≢◌, refl, sym, ap, ◌∙◌, ◌⊎◌, inl, inr, Bool, true, false, not, ◌&&◌, none, some,
  List, [], ◌∷◌, All, ◌==◌, arith, Bool-cases,
}
use flagfish.Prelude.Int.{ℤ, pos}
use flagfish.Account.{Mode}
use flagfish.Scoring.Decay.{validate, value_at, is_static}
use flagfish.Scoring.Decay.Exact.{InColumns}
use flagfish.Scoring.Decay.Sql.{recalc-value_at}
use flagfish.Gameplay.Store.{
  Challenge, Solve, Store, find_challenge, count, counted_solves, visible_solve, set_value,
  with_price, recalc_challenge_value,
}
use flagfish.Gameplay.Check.{Library}
use flagfish.Gameplay.Submit.{Input, Result, correct, committed, submit, paid, reprice}
use flagfish.Gameplay.Submit.Keeps.{submit-Passed, Keeps, reprice-Keeps}
use flagfish.Gameplay.Submit.Effects.{solve_locked-cases, conclude-cases}
use flagfish.Gameplay.Submit.Blood.{eligible_same, admit-id}

-- the row is of another challenge, or has a fixed price, or has this one
abbrev pub PricedAt : ℕ → ℤ → Challenge → Type 0
PricedAt id x row = (row.id ≢ id) ⊎ ((is_static row.curve.function ≡ true) ⊎ (row.value ≡ x))

set_value-PricedAt :
    (id : ℕ) (x : ℤ) (cs : List Challenge) → All (PricedAt id x) (set_value id x cs)
unfolding set_value
set_value-PricedAt id x [] = tt
set_value-PricedAt id x (c ∷ cs) =
    elim (Bool-cases (c.id == id && not (is_static c.curve.function))) [
      | inl hit ↦ (rw (hit) (inr (inr refl)), set_value-PricedAt id x cs)
      | inr miss ↦ (rw (miss) (ground (arith, miss)), set_value-PricedAt id x cs)
    ]

count_same :
    (p q : Solve → Bool) → ((v : Solve) → p v ≡ q v) → (vs : List Solve) → count p vs ≡ count q vs
unfolding count
count_same p q h [] = refl
count_same p q h (v ∷ vs) = rw (h v, count_same p q h vs)

counted_solves-Keeps :
    (mode : Mode) {s t : Store} (c : ℕ)
    → Keeps s t
    → counted_solves mode t c ≡ counted_solves mode s c
unfolding counted_solves
counted_solves-Keeps mode {s} {t} c kept =
    count_same (visible_solve mode t c) (visible_solve mode s c)
      (λ v. rw (eligible_same mode s t v.user_id v.team_id kept.users kept.team_rows)) t.solves
    ∙ ap (count (visible_solve mode s c)) kept.solves

paid-injective : {s t : Store} → paid s ≡ paid t → s ≡ t
paid-injective h = cc

some-injective : {c d : Challenge} → some c ≡ some d → c ≡ d
some-injective h = cc

-- the price that repricing leaves
abbrev pub Repriced : Mode → Challenge → Store → Type 0
Repriced mode c after =
    (x : ℤ) × (value_at c.curve (pos (counted_solves mode after c.id)) ≡ some x)
    × All (PricedAt c.id x) after.challenges

reprice-Repriced :
    (mode : Mode) (s : Store) (c : Challenge) (after : Store)
    → reprice mode s c ≡ paid after
    → is_static c.curve.function ≡ false
    → validate c.curve ≡ none
    → InColumns c.curve
    → counted_solves mode after c.id ≤ 65536
    → Repriced mode c after
unfolding reprice recalc_challenge_value
reprice-Repriced mode s c after h decaying valid fits few =
    let same = counted_solves-Keeps mode c.id (reprice-Keeps mode s c after h) in
    let (x, r, v) =
      recalc-value_at c.curve (counted_solves mode s c.id) valid decaying fits
        (subst (λ n. n ≤ 65536) same few) in
    let e : with_price s c.id x ≡ after = paid-injective (sym (rw (decaying) (rw (r))) ∙ h) in
    (
      x,
      ap (λ n. value_at c.curve (pos n)) same ∙ v,
      subst (λ t. All (PricedAt c.id x) t.challenges) e (set_value-PricedAt c.id x s.challenges),
    )

-- After a correct submission to a challenge whose curve decays and is valid in 32-bit columns, with
-- at most 65536 visible solves, the store prices the challenge at exactly what `ValueAt` of the curve
-- gives for its number of visible solves, the new one included.
pub submit-Repriced :
    (lib : Library) (mode : Mode) (now : ℕ) (seen s : Store) (input : Input) (locked : Challenge)
    (r : Result) (after : Store)
    → find_challenge input.challenge_id s.challenges ≡ some locked
    → is_static locked.curve.function ≡ false
    → validate locked.curve ≡ none
    → InColumns locked.curve
    → submit lib mode now seen s input ≡ committed r after
    → r.status ≡ correct
    → counted_solves mode after locked.id ≤ 65536
    → Repriced mode locked after
submit-Repriced lib mode now seen s input locked r after found decaying valid fits h status few =
    let p = submit-Passed lib mode now seen s input h in
    let id = admit-id lib mode seen input p.challenge p.is_admitted in
    elim (conclude-cases mode now s p.challenge input p.match r after p.concluded) [
      | inl (e, k) ↦ absurd (ground (arith, e, status))
      | inr (row, f, path) ↦
          elim (solve_locked-cases mode now row input p.match.attributed_account_id s r after
            path) [
              | inl (t, e, k) ↦ absurd (ground (arith, e, status))
              | inr (free, settled) ↦
                  let same : row ≡ locked =
                    some-injective (sym f ∙ (ap (λ n. find_challenge n s.challenges) id ∙ found)) in
                  reprice-Repriced mode settled.priced locked after
                    (subst (λ c. reprice mode settled.priced c ≡ paid after) same settled.repriced)
                    decaying valid fits few
            ]
    ]
