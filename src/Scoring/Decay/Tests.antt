-- ===== src/Scoring/Decay/Tests.antt =====
-- The curve on concrete inputs.
use flagfish.Prelude.{ℕ, ◌<◌, ◌≡◌, refl, none, some, arith}
use flagfish.Prelude.Int.{ℤ, pos, ◌≤ℤ◌, sub64, mul64, quot64}
use flagfish.Scoring.Decay.{Curve, logarithmic, validate, value_at}
use flagfish.Scoring.Decay.Exact.{curve, InColumns}
use flagfish.Scoring.Decay.Bounds.{value_at_bounds, value_at_antitone}
use flagfish.Scoring.Decay.Overflow.{value_at_overflows}
use flagfish.Scoring.Decay.Sql.{int, recalc, recalc-value_at}

-- the curve of the comment in decay.go
abbrev parabola : Curve
parabola = curve logarithmic 3901 205 142

parabola_valid : validate parabola ≡ none
unfolding validate
parabola_valid = refl

parabola_fits : InColumns parabola
parabola_fits = omega arith

parabola_floor : value_at parabola (pos 143) ≡ some (pos 205)
unfolding value_at sub64
parabola_floor = refl

value_at_bounds_example :
    (x : ℤ) × (value_at parabola (pos 50) ≡ some x) × (pos 205 ≤ℤ x) × (x ≤ℤ pos 3901)
value_at_bounds_example =
    value_at_bounds parabola parabola_valid refl parabola_fits 50 (omega arith)

value_at_antitone_example :
    (x y : ℤ) × (value_at parabola (pos 3) ≡ some x)
    × (value_at parabola (pos 9) ≡ some y)
    × (y ≤ℤ x)
value_at_antitone_example =
    value_at_antitone parabola parabola_valid refl parabola_fits 3 9 (omega arith) (omega arith)

recalc-value_at_example :
    (x : ℤ) × (recalc parabola (pos 143) ≡ int x) × (value_at parabola (pos 143) ≡ some x)
recalc-value_at_example =
    recalc-value_at parabola 143 parabola_valid refl parabola_fits (omega arith)

-- the same overflow, run
overflowing_run :
    value_at (curve logarithmic 2147483647 0 100000) (pos 65538) ≡ some (pos 3069792703)
unfolding value_at sub64 mul64 quot64
overflowing_run = refl

value_at_overflows_example :
    (validate (curve logarithmic 2147483647 0 100000) ≡ none)
    × ((x : ℕ) × (value_at (curve logarithmic 2147483647 0 100000) (pos 65538) ≡ some (pos x))
        × (2147483647 < x))
value_at_overflows_example = value_at_overflows 100000 (omega arith) (omega arith)
