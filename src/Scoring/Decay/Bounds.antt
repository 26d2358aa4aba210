-- ===== src/Scoring/Decay/Bounds.antt =====
-- What the curve promises: it stays between its floor and its initial value, the first solver pays
-- the initial value, it never rises, and a logarithmic curve reaches its floor after exactly
-- `Decay` solves beyond the first.
use native.Mathlib.Nat.{
  mul-le-mul, le_refl, le_trans, le-div_iff_mul-le, div-lt_iff_lt-mul, div-mul-le_self,
  mul-lt-mul_of_pos_left, lt_of_le_of_lt, le_of_lt,
}
use flagfish.Prelude.{ℕ, ◌-◌, ◌*◌, ◌/◌, ◌≤◌, ◌<◌, ◌≡◌, refl, ap, ◌∙◌, ◌↔◌, false, none, some, arith}
use flagfish.Prelude.Int.{ℤ, pos, pos_part, neg_part, ◌≤ℤ◌, eq_of_parts}
use flagfish.Scoring.Decay.{Function, linear, logarithmic, Curve, validate, value_at, is_static}
use flagfish.Scoring.Decay.Exact.{
  price, InColumns, IsSane, validate-IsSane, value_at-price, drop_le, pos_square,
}

div_mono : (a b c : ℕ) → 0 < c → a ≤ b → a / c ≤ b / c
div_mono a b c h le = (le-div_iff_mul-le h).1 (le_trans (div-mul-le_self a c) le)

abbrev drop : ℕ → ℕ → ℕ → ℕ → ℕ
drop i m d n = (i - m) * n * n / (d * d)

drop_mono : (i m d n k : ℕ) → 0 < d → n ≤ k → drop i m d n ≤ drop i m d k
drop_mono i m d n k hd le = div_mono ((i - m) * n * n) ((i - m) * k * k) (d * d) (pos_square d hd) (
    mul-le-mul {n₁ = (i - m) * n} {n₂ = (i - m) * k} (mul-le-mul {n₁ = i - m} (le_refl (i - m)) le)
      le)

square_lt : (s n d : ℕ) → 0 < s → n < d → s * n * n < s * (d * d)
square_lt s n d hs h = omega (
  arith,
  mul-lt-mul_of_pos_left
      (lt_of_le_of_lt (mul-le-mul (le_of_lt h) (le_refl n))
        (mul-lt-mul_of_pos_left h (omega arith)))
      hs,
)

drop_lt : (i m d n : ℕ) → m < i → n < d → drop i m d n < i - m
drop_lt i m d n lt h =
    (div-lt_iff_lt-mul (pos_square d (omega arith))).1 (square_lt (i - m) n d (omega arith) h)

module _ (i m d : ℕ) (im : m ≤ i) (hd : 0 < d) where
  price_bounds : (f : Function) (n : ℕ) → (m ≤ price f i m d n) × (price f i m d n ≤ i)
  price_bounds logarithmic n = ground (arith, drop_le i m d n)
  price_bounds _ n = ground arith

  price-zero : (f : Function) → price f i m d 0 ≡ i
  price-zero logarithmic = ground arith
  price-zero _ = ground arith

  price_antitone : (f : Function) (n k : ℕ) → n ≤ k → price f i m d k ≤ price f i m d n
  price_antitone linear n k le = ground (arith, mul-le-mul (le_refl d) le)
  price_antitone logarithmic n k le = ground (arith, drop_mono i m d n k hd le, drop_le i m d n)
  price_antitone _ n k le = omega arith

  price_floor : (n : ℕ) → m < i → (price logarithmic i m d n ≡ m) ↔ (d ≤ n)
  price_floor n lt = ground (arith, drop_lt i m d n lt)

-- The columns of a validated curve that decays, as natural numbers.
record Parts (c : Curve) : Type 0 where
  initial : neg_part c.initial ≡ 0
  minimum : neg_part c.minimum ≡ 0
  ordered : pos_part c.minimum ≤ pos_part c.initial
  positive : 0 < pos_part c.decay

sane-Parts : {c : Curve} → IsSane c.initial c.minimum c.decay → Parts c
sane-Parts h = ground arith

-- The value of a validated curve that decays, when at most 65536 accounts have solved.
module _ (c : Curve) (v : validate c ≡ none) (decaying : is_static c.function ≡ false)
    (fits : InColumns c) where
  abbrev worth : ℕ → ℕ
  worth n = price c.function (pos_part c.initial) (pos_part c.minimum) (pos_part c.decay) n

  sane : Parts c
  sane = sane-Parts (validate-IsSane c v decaying)

  -- A validated decaying curve in 32-bit columns, after at most 65536 solves: `ValueAt` returns a
  -- value, and it lies between the minimum and the initial value.
  pub value_at_bounds :
      (s : ℕ)
      → s ≤ 65536
      → (x : ℤ) × (value_at c (pos s) ≡ some x) × (c.minimum ≤ℤ x) × (x ≤ℤ c.initial)
  value_at_bounds s few =
      let b =
        price_bounds (pos_part c.initial) (pos_part c.minimum) (pos_part c.decay) sane.ordered
          sane.positive c.function (s - 1) in
      (pos (worth (s - 1)), value_at-price c s v fits few, omega (arith, b), omega (arith, b, sane))

  -- On such a curve the first solver is paid the whole initial value, as is shown before any solve.
  pub value_at_first : (value_at c (pos 0) ≡ some c.initial) × (value_at c (pos 1) ≡ some c.initial)
  value_at_first =
      let z =
        price-zero (pos_part c.initial) (pos_part c.minimum) (pos_part c.decay) sane.ordered
          sane.positive c.function in
      (
        value_at-price c 0 v fits (omega arith)
            ∙ ap some (eq_of_parts _ _ (omega (arith, z, sane))),
        value_at-price c 1 v fits (omega arith)
            ∙ ap some (eq_of_parts _ _ (omega (arith, z, sane))),
      )

  -- On such a curve another solve never raises the value: for s ≤ t ≤ 65536 both values exist, and
  -- the value after t solves is at most the value after s.
  pub value_at_antitone :
      (s t : ℕ)
      → s ≤ t
      → t ≤ 65536
      → (x y : ℤ) × (value_at c (pos s) ≡ some x) × (value_at c (pos t) ≡ some y) × (y ≤ℤ x)
  value_at_antitone s t le few = (
    pos (worth (s - 1)),
    pos (worth (t - 1)),
    value_at-price c s v fits (omega arith),
    value_at-price c t v fits few,
    omega (
      arith,
      price_antitone (pos_part c.initial) (pos_part c.minimum) (pos_part c.decay) sane.ordered
          sane.positive c.function (s - 1) (t - 1) (omega arith),
    ),
  )

-- A validated logarithmic curve in 32-bit columns whose minimum is below its initial value: after
-- at most 65536 solves the value is the minimum exactly when more than `Decay` accounts have
-- solved, that is from `Decay` solves beyond the first on.
value_at_floor :
    (c : Curve) (s : ℕ)
    → validate c ≡ none
    → InColumns c
    → c.function ≡ logarithmic
    → ¬ (c.initial ≤ℤ c.minimum)
    → s ≤ 65536
    → (value_at c (pos s) ≡ some c.minimum) ↔ (pos_part c.decay < s)
value_at_floor c s v fits log lt few =
    let sane = sane-Parts {c = c} (validate-IsSane c v (rw log refl)) in
    let e : value_at c (pos s)
        ≡ some (
            pos (
              price logarithmic (pos_part c.initial) (pos_part c.minimum) (pos_part c.decay)
                (s - 1))) =
      value_at-price c s v fits few
      ∙ ap
          (λ f.
            some
              (pos (price f (pos_part c.initial) (pos_part c.minimum) (pos_part c.decay) (s - 1))))
          log in
    let k =
      price_floor (pos_part c.initial) (pos_part c.minimum) (pos_part c.decay) sane.ordered
        sane.positive (s - 1) (omega (arith, sane)) in
    let m : c.minimum ≡ pos (pos_part c.minimum) = eq_of_parts _ _ (omega (arith, sane)) in
    ground (arith, e, k, m)
