-- ===== src/Scoring/Decay.antt =====
-- internal/domain/scoring/decay.go: the curve that prices a challenge, over Go's 64-bit `int`; and
-- the statement RecalcChallengeValue of internal/db/gameplay.sql.gen.go, which runs the same curve
-- in Postgres.
pub mod Exact
pub mod Bounds
pub mod Overflow
pub mod Sql
mod Tests
use Prim.Native.String.{String}
use text.Mathlib.Text.{◌==◌ as str_eq}
use flagfish.Prelude.{◌≡◌, Bool, true, false, not, ◌&&◌, Option, none, some, if◌then◌else◌}
use flagfish.Prelude.Int.{ℤ, pos, negsuc, ltb_ℤ, eqb_ℤ, sub64, mul64, quot64}

-- `Function` is a uint8: `other` stands for the values past the three named ones.
pub data Function : Type 0 where
  static linear logarithmic other : Function

-- `functionNames[f]`, with `none` for a missing key.
unfoldable pub function_name : Function → Option String
function_name static = some "static"
function_name linear = some "linear"
function_name logarithmic = some "logarithmic"
function_name other = none

-- The names are pairwise different, so the order in which Go ranges over the map does not matter.
unfoldable pub parse_function : String → Option Function
parse_function s =
    if str_eq s "static"
    then some static
    else if str_eq s "linear"
    then some linear
    else if str_eq s "logarithmic"
    then some logarithmic
    else none

abbrev pub is_static : Function → Bool
is_static static = true
is_static _ = false

unfoldable pub decays : Function → Bool
decays f = not (is_static f)

pub record Curve : Type 0 where
  pub function : Function
  pub initial : ℤ
  pub minimum : ℤ
  pub decay : ℤ

-- The ways in which `Validate` refuses a curve, in the order of its tests.
pub data Fault : Type 0 where
  unknown_function negative_initial negative_minimum minimum_above_initial short_decay : Fault

abbrev is_named : Function → Bool
is_named other = false
is_named _ = true

-- `none` is the nil error.
unfoldable pub validate : Curve → Option Fault
unfolding decays
validate c =
    if not (is_named c.function)
    then some unknown_function
    else if ltb_ℤ c.initial (pos 0)
    then some negative_initial
    else if not (decays c.function)
    then none
    else if ltb_ℤ c.minimum (pos 0)
    then some negative_minimum
    else if ltb_ℤ c.initial c.minimum
    then some minimum_above_initial
    else if ltb_ℤ c.decay (pos 1)
    then some short_decay
    else none

-- `n := solves - 1; if n < 0 { n = 0 }`
unfoldable pub adjusted : ℤ → ℤ
adjusted solves = let n = sub64 solves (pos 1) in if ltb_ℤ n (pos 0) then pos 0 else n

-- The last three lines of `ValueAt`: the floor.
unfoldable pub floored : Curve → ℤ → ℤ
floored c v = if ltb_ℤ v c.minimum then c.minimum else v

-- `(int64(c.Initial-c.Minimum) * int64(n) * int64(n)) / (d * d)`
unfoldable pub log_drop : Curve → ℤ → Option ℤ
log_drop c n = quot64 (mul64 (mul64 (sub64 c.initial c.minimum) n) n) (mul64 c.decay c.decay)

-- The logarithmic arm; `none` is the panic of a division by a product d * d that wrapped to 0.
unfoldable pub log_value : Curve → ℤ → Option ℤ
unfolding log_drop floored
log_value c n =
    if ltb_ℤ c.decay (pos 1)
    then some c.minimum
    else if not (ltb_ℤ n c.decay)
    then some c.minimum
    else elim (log_drop c n) [ none ↦ none | some drop ↦ some (floored c (sub64 c.initial drop)) ]

-- `switch c.Function`; a curve that does not decay returned above it.
unfoldable pub decayed : Function → Curve → ℤ → Option ℤ
unfolding log_value floored
decayed linear c n = some (floored c (sub64 c.initial (mul64 c.decay n)))
decayed logarithmic c n = log_value c n
decayed static c n = some c.initial
decayed other c n = some c.initial

-- `Curve.ValueAt`.
unfoldable pub value_at : Curve → ℤ → Option ℤ
unfolding decays adjusted decayed
value_at c solves =
    if not (decays c.function) then some c.initial else decayed c.function c (adjusted solves)
