-- ===== src/Scoring/Decay/Exact.antt =====
-- On a curve that `Validate` admits, whose columns are 32-bit values, and for at most 65536
-- accounts that have solved, no product in `ValueAt` wraps: it is the curve over ℕ.
use native.Mathlib.Nat.{mul-le-mul, le_refl, div-le_of_le-mul}
use flagfish.Prelude.{
  ℕ, zero, suc, ◌-◌, ◌*◌, ◌/◌, ◌^◌, ◌≤◌, ◌<◌, ◌≡◌, refl, ◌≢◌, false, Bool-cases, ltb→lt, inl, inr,
  ltb, none, some, arith, if◌then◌else◌,
}
use flagfish.Prelude.Int.{ℤ, pos, negsuc, sub64, mul64-pos, quot64-pos, sub64-pos, pos_part, ◌≤ℤ◌}
use flagfish.Scoring.Decay.{
  Function, static, linear, logarithmic, other, Curve, validate, adjusted, decayed, value_at,
  log_drop, is_static,
}

-- The curve over the natural numbers, where `n` is the number of solves beyond the first and `-`
-- stops at 0.
abbrev pub price : Function → ℕ → ℕ → ℕ → ℕ → ℕ
price static i m d n = i
price other i m d n = i
price linear i m d n = if ltb (i - d * n) m then m else i - d * n
price logarithmic i m d n = if ltb n d then i - (i - m) * n * n / (d * d) else m

-- The columns hold 32-bit integers.
pub record InColumns (c : Curve) : Type 0 where
  pub initial_fits : pos_part c.initial < 2 ^ 31
  pub decay_fits : pos_part c.decay < 2 ^ 31

abbrev pub curve : Function → ℕ → ℕ → ℕ → Curve
curve f i m d = record { function = f; initial = pos i; minimum = pos m; decay = pos d }

adjusted-pos : (s : ℕ) → s < 2 ^ 63 → adjusted (pos s) ≡ pos (s - 1)
unfolding adjusted sub64
adjusted-pos s h = ground arith

pub mul_fits : (a b x y : ℕ) → a ≤ x → b ≤ y → x * y < 2 ^ 63 → a * b < 2 ^ 63
mul_fits a b x y p q h = omega (arith, mul-le-mul p q)

pub pos_square : (d : ℕ) → 0 < d → 0 < d * d
pos_square zero h = elim h [ ]
pos_square (suc d) h = omega arith

pub drop_bound : (s n d : ℕ) → n ≤ d → s * n * n ≤ d * d * s
drop_bound s n d h = omega (arith, mul-le-mul {n₁ = s * n} (mul-le-mul {n₁ = s} (le_refl s) h) h)

-- below the knee the drop is at most the whole span
pub drop_le : (i m d n : ℕ) → n < d → (i - m) * n * n / (d * d) ≤ i - m
drop_le i m d n h = div-le_of_le-mul (d * d) (drop_bound (i - m) n d (omega arith))

module _ (i m d n : ℕ) (im : m ≤ i) (fi : i < 2 ^ 31) (fd : d < 2 ^ 31) (fn : n < 2 ^ 16) where
  linear_exact : decayed linear (curve linear i m d) (pos n) ≡ some (pos (price linear i m d n))
  unfolding decayed sub64
  linear_exact =
      let p = mul_fits d n (2 ^ 31) (2 ^ 16) (omega arith) (omega arith) (omega arith) in
      rw (mul64-pos d n p) (ground arith)

  pub square_le : (i - m) * n ≤ (2 ^ 31 - 1) * (2 ^ 16 - 1)
  square_le = mul-le-mul {n₂ = 2 ^ 31 - 1} {m₂ = 2 ^ 16 - 1} (omega arith) (omega arith)

  pub cube_fits : (i - m) * n * n < 2 ^ 63
  cube_fits =
      mul_fits ((i - m) * n) n ((2 ^ 31 - 1) * (2 ^ 16 - 1)) (2 ^ 16 - 1) square_le (omega arith)
        (omega arith)

  drop_exact :
      0 < d → log_drop (curve logarithmic i m d) (pos n) ≡ some (pos ((i - m) * n * n / (d * d)))
  unfolding log_drop
  drop_exact hd = rw (sub64-pos i m im (omega arith)) (
      rw (mul64-pos (i - m) n (omega (arith, square_le))) (
        rw (mul64-pos ((i - m) * n) n cube_fits) (
          rw
            (mul64-pos d d
              (mul_fits d d (2 ^ 31) (2 ^ 31) (omega arith) (omega arith) (omega arith)))
            (quot64-pos ((i - m) * n * n) (d * d) (pos_square d hd) cube_fits))))

  log_exact :
      0 < d
      → decayed logarithmic (curve logarithmic i m d) (pos n)
        ≡ some (pos (price logarithmic i m d n))
  unfolding decayed
  log_exact hd = elim (Bool-cases (ltb n d)) [
    | inl lt ↦
        let q = drop_le i m d n (ltb→lt n d lt) in
        rw (drop_exact hd) (
          rw (sub64-pos i ((i - m) * n * n / (d * d)) (omega (arith, q)) (omega arith))
            (ground (arith, q)))
    | inr ge ↦ ground arith
  ]

pub value_at-decayed :
    (c : Curve) (s : ℤ)
    → is_static c.function ≡ false
    → value_at c s ≡ decayed c.function c (adjusted s)
unfolding value_at
value_at-decayed c s h = ground arith

-- What `Validate` has checked of a curve that decays.
pub record IsSane (i m d : ℤ) : Type 0 where
  pub initial_nonneg : pos 0 ≤ℤ i
  pub minimum_nonneg : pos 0 ≤ℤ m
  pub ordered : m ≤ℤ i
  pub decay_pos : pos 1 ≤ℤ d

pub validate-IsSane :
    (c : Curve)
    → validate c ≡ none
    → is_static c.function ≡ false
    → IsSane c.initial c.minimum c.decay
unfolding validate
validate-IsSane c v h = ground arith

pub validate_named : (c : Curve) → validate c ≡ none → c.function ≢ other
unfolding validate
validate_named c v h = ground arith

validate_nonneg : (c : Curve) → validate c ≡ none → pos 0 ≤ℤ c.initial
unfolding validate
validate_nonneg c v = ground arith

-- A validated curve that decays has non-negative columns.
pub IsSane_elim {ℓ} :
    (P : ℤ → ℤ → ℤ → Type ℓ)
    → ((i m d : ℕ) → m ≤ i → 0 < d → P (pos i) (pos m) (pos d))
    → (i m d : ℤ) → IsSane i m d
    → P i m d
IsSane_elim P f (pos i) (pos m) (pos d) h = f i m d (omega arith) (omega arith)
IsSane_elim P f (negsuc i) m d h = absurd (omega arith)
IsSane_elim P f (pos i) (negsuc m) d h = absurd (omega arith)
IsSane_elim P f (pos i) (pos m) (negsuc d) h = absurd (omega arith)

abbrev Agrees : Function → ℕ → ℤ → ℤ → ℤ → Type 0
Agrees f s i m d =
    let c : Curve = record { function = f; initial = i; minimum = m; decay = d } in
    InColumns c
    → value_at c (pos s) ≡ some (pos (price f (pos_part i) (pos_part m) (pos_part d) (s - 1)))

module _ (s : ℕ) (few : s ≤ 65536) (i m d : ℕ) (im : m ≤ i) (hd : 0 < d) where
  linear-Agrees : Agrees linear s (pos i) (pos m) (pos d)
  linear-Agrees fits = rw (value_at-decayed (curve linear i m d) (pos s) refl) (
      rw (adjusted-pos s (omega arith))
        (linear_exact i m d (s - 1) im (omega arith) (omega arith) (omega arith)))

  log-Agrees : Agrees logarithmic s (pos i) (pos m) (pos d)
  log-Agrees fits = rw (value_at-decayed (curve logarithmic i m d) (pos s) refl) (
      rw (adjusted-pos s (omega arith))
        (log_exact i m d (s - 1) im (omega arith) (omega arith) (omega arith) hd))

static_agrees :
    (c : Curve) (s : ℤ)
    → c.function ≡ static
    → pos 0 ≤ℤ c.initial
    → value_at c s ≡ some (pos (pos_part c.initial))
unfolding value_at
static_agrees c s e h = ground arith

value_at_fields :
    (f : Function) (i m d : ℤ) (s : ℕ)
    → validate (record { function = f; initial = i; minimum = m; decay = d }) ≡ none
    → s ≤ 65536
    → Agrees f s i m d
value_at_fields static i m d s v few fits = static_agrees _ (pos s) refl (validate_nonneg _ v)
value_at_fields other i m d s v few fits = absurd (validate_named _ v refl)
value_at_fields linear i m d s v few fits =
    IsSane_elim (Agrees linear s) (linear-Agrees s few) i m d (validate-IsSane _ v refl) fits
value_at_fields logarithmic i m d s v few fits =
    IsSane_elim (Agrees logarithmic s) (log-Agrees s few) i m d (validate-IsSane _ v refl) fits

-- For a validated curve in 32-bit columns and at most 65536 solves, `ValueAt` does not panic and
-- computes the curve over the natural numbers.
pub value_at-price :
    (c : Curve) (solves : ℕ)
    → validate c ≡ none
    → InColumns c
    → solves ≤ 65536
    → value_at c (pos solves)
      ≡ some (
          pos (
            price c.function
              (pos_part c.initial)
              (pos_part c.minimum)
              (pos_part c.decay)
              (solves - 1)))
value_at-price c solves v fits few =
    value_at_fields c.function c.initial c.minimum c.decay solves v few fits
