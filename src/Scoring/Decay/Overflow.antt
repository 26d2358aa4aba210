-- ===== src/Scoring/Decay/Overflow.antt =====
-- Past 65536 solves `ValueAt` leaves its range on a curve that `Validate` admits: the 64-bit
-- product wraps to a negative number, and the price rises above the initial value.
use native.Mathlib.Nat.{mul-le-mul, le-div_iff_mul-le, div-lt_iff_lt-mul}
use flagfish.Prelude.{ℕ, ◌+◌, ◌-◌, ◌*◌, ◌/◌, ◌^◌, ◌≤◌, ◌<◌, ◌≡◌, refl, ap, ◌∙◌, none, some, arith}
use flagfish.Prelude.Int.{pos, negsuc, sub64, mul64, quot64, mul64-pos}
use flagfish.Scoring.Decay.{Curve, logarithmic, validate, value_at, decayed, adjusted, log_drop}
use flagfish.Scoring.Decay.Exact.{curve, value_at-decayed}

abbrev steep : ℕ → Curve
steep d = curve logarithmic (2 ^ 31 - 1) 0 d

-- 2^64 less the product (2^31 - 1) * 65537 * 65537
abbrev excess : ℕ
excess = 2 ^ 64 - (2 ^ 31 - 1) * 65537 * 65537

wrapped_product :
    mul64 (mul64 (sub64 (pos (2 ^ 31 - 1)) (pos 0)) (pos 65537)) (pos 65537) ≡ negsuc (excess - 1)
unfolding mul64 sub64
wrapped_product = refl

negative_quotient :
    (b q : ℕ)
    → 0 < b
    → excess / b ≡ q
    → 0 < q
    → q < 2 ^ 62
    → quot64 (negsuc (excess - 1)) (pos b) ≡ some (negsuc (q - 1))
unfolding quot64
negative_quotient b q h e lo hi = ground arith

raised :
    (q : ℕ) → 0 < q → q < 2 ^ 62 → sub64 (pos (2 ^ 31 - 1)) (negsuc (q - 1)) ≡ pos (2 ^ 31 - 1 + q)
unfolding sub64
raised q lo hi = ground arith

steep_valid : (d : ℕ) → 65537 < d → validate (steep d) ≡ none
unfolding validate
steep_valid d lo = ground arith

adjusted_run : adjusted (pos 65538) ≡ pos 65537
unfolding adjusted sub64
adjusted_run = refl

module _ (d : ℕ) (lo : 65537 < d) (hi : d < 2 ^ 31) where
  square_lo : 65538 * 65538 ≤ d * d
  square_lo = mul-le-mul {n₁ = 65538} lo lo

  square_hi : d * d ≤ (2 ^ 31 - 1) * (2 ^ 31 - 1)
  square_hi = mul-le-mul {n₂ = 2 ^ 31 - 1} {m₂ = 2 ^ 31 - 1} (omega arith) (omega arith)

  abbrev overshoot : ℕ
  overshoot = excess / (d * d)

  overshoot_pos : 0 < overshoot
  overshoot_pos = (le-div_iff_mul-le (omega (arith, square_lo))).1 (omega (arith, square_hi))

  overshoot_fits : overshoot < 2 ^ 62
  overshoot_fits = (div-lt_iff_lt-mul (omega (arith, square_lo))).1 (omega (arith, square_lo))

  drop_wraps : log_drop (steep d) (pos 65537) ≡ some (negsuc (overshoot - 1))
  unfolding log_drop
  drop_wraps = rw wrapped_product (
      rw (mul64-pos d d (omega (arith, square_hi))) (
        negative_quotient (d * d) overshoot (omega (arith, square_lo)) refl overshoot_pos
          overshoot_fits))

  price_raised : decayed logarithmic (steep d) (pos 65537) ≡ some (pos (2 ^ 31 - 1 + overshoot))
  unfolding decayed
  price_raised = rw drop_wraps (rw (raised overshoot overshoot_pos overshoot_fits) (ground arith))

-- For every decay between 65538 and 2^31 - 1, the logarithmic curve from 2147483647 down to 0 is
-- admitted by `Validate`, and yet after 65538 solves `ValueAt` returns a value above 2147483647.
pub value_at_overflows :
    (d : ℕ)
    → 65537 < d
    → d < 2 ^ 31
    → (validate (steep d) ≡ none)
      × ((x : ℕ) × (value_at (steep d) (pos 65538) ≡ some (pos x)) × (2 ^ 31 - 1 < x))
value_at_overflows d lo hi = (
  steep_valid d lo,
  (
    2 ^ 31 - 1 + overshoot d lo hi,
    value_at-decayed (steep d) (pos 65538) refl
        ∙ ap (decayed logarithmic (steep d)) adjusted_run
        ∙ price_raised d lo hi,
    omega (arith, overshoot_pos d lo hi),
  ),
)
