-- ===== src/Scoring/Decay/Sql.antt =====
-- RecalcChallengeValue (internal/db/gameplay.sql.gen.go): the statement that reprices a challenge
-- in Postgres, where an integer operation that leaves its type is an error and not a wrap, `NULLIF`
-- gives NULL, arithmetic on NULL is NULL, and GREATEST passes over NULL.
use native.Mathlib.Nat.{mul_assoc, mul-zero, mul-div_cancel, div-le_of_le-mul}
use flagfish.Prelude.{
  ℕ, ◌+◌, ◌-◌, ◌*◌, ◌/◌, ◌^◌, ◌≤◌, ◌<◌, ◌≡◌, refl, ap, false, Bool-cases, inl, inr, ltb, none, some,
  arith, if◌then◌else◌,
}
use flagfish.Prelude.Int.{ℤ, pos, negsuc, pos_part, neg_part, sub_ℕ, ltb_ℤ, eqb_ℤ, ◌-ℤ◌, ◌*ℤ◌}
use flagfish.Scoring.Decay.{
  Function, static, linear, logarithmic, other, Curve, validate, value_at, is_static,
}
use flagfish.Scoring.Decay.Exact.{
  price, curve, InColumns, IsSane_elim, validate-IsSane, value_at-price, drop_le, drop_bound,
  pos_square, mul_fits, square_le, cube_fits, validate_named,
}

-- The value of an SQL expression of an integer type.
pub data Value : Type 0 where
  error : Value
  null : Value
  int : ℤ → Value

-- A strict operator: its operands are evaluated first, and NULL gives NULL.
abbrev strict : (ℤ → ℤ → Value) → Value → Value → Value
strict f error b = error
strict f null error = error
strict f null b = null
strict f (int a) error = error
strict f (int a) null = null
strict f (int a) (int b) = f a b

-- A result that must lie in -half .. half - 1.
unfoldable pub checked : ℕ → ℤ → Value
checked half (pos n) = if ltb n half then int (pos n) else error
checked half (negsuc n) = if ltb n half then int (negsuc n) else error

unfoldable pub sub4 : ℤ → ℤ → Value
sub4 a b = checked (2 ^ 31) (a -ℤ b)

unfoldable pub sub8 : ℤ → ℤ → Value
sub8 a b = checked (2 ^ 63) (a -ℤ b)

unfoldable pub mul8 : ℤ → ℤ → Value
mul8 a b = checked (2 ^ 63) (a *ℤ b)

unfoldable pub div8 : ℤ → ℤ → Value
div8 a b =
    if eqb_ℤ b (pos 0)
    then error
    else checked (2 ^ 63) (
        sub_ℕ (pos_part a / pos_part b + neg_part a / neg_part b)
          (pos_part a / neg_part b + neg_part a / pos_part b))

abbrev greatest_ℤ : ℤ → ℤ → ℤ
greatest_ℤ a b = if ltb_ℤ a b then b else a

abbrev least_ℤ : ℤ → ℤ → ℤ
least_ℤ a b = if ltb_ℤ b a then b else a

unfoldable pub greatest : Value → Value → Value
greatest error b = error
greatest null b = b
greatest (int a) error = error
greatest (int a) null = int a
greatest (int a) (int b) = int (greatest_ℤ a b)

unfoldable pub nullif_zero : ℤ → Value
nullif_zero d = if eqb_ℤ d (pos 0) then null else int d

unfoldable pub to_int4 : Value → Value
to_int4 v = strict (λ a _. checked (2 ^ 31) a) v (int (pos 0))

-- GREATEST(cnt.n - 1, 0)
unfoldable pub beyond : ℤ → Value
beyond n = greatest (sub8 n (pos 1)) (int (pos 0))

-- LEAST(GREATEST(cnt.n - 1, 0), c.decay)
unfoldable pub clamped : ℤ → ℤ → Value
clamped d n = strict (λ a b. int (least_ℤ a b)) (beyond n) (int d)

unfoldable pub linear_case : Curve → ℤ → Value
linear_case c n = strict sub8 (int c.initial) (strict mul8 (int c.decay) (beyond n))

unfoldable pub else_case : Curve → ℤ → Value
else_case c n = strict sub8 (int c.initial) (
    strict div8
      (strict mul8 (strict mul8 (sub4 c.initial c.minimum) (clamped c.decay n)) (clamped c.decay n))
      (strict mul8 (nullif_zero c.decay) (nullif_zero c.decay)))

unfoldable pub case_function : Function → Curve → ℤ → Value
case_function linear c n = linear_case c n
case_function _ c n = else_case c n

-- The expression assigned to `value`, for a row whose function is not 'static'; `n` is cnt.n.
unfoldable pub recalc : Curve → ℤ → Value
recalc c n = to_int4 (greatest (int c.minimum) (case_function c.function c n))

checked-pos : (half n : ℕ) → n < half → checked half (pos n) ≡ int (pos n)
unfolding checked
checked-pos half n h = ground arith

sub8-pos : (a b : ℕ) → b ≤ a → a < 2 ^ 63 → sub8 (pos a) (pos b) ≡ int (pos (a - b))
unfolding sub8 checked ◌-ℤ◌
sub8-pos a b h k = ground arith

sub4-pos : (a b : ℕ) → b ≤ a → a < 2 ^ 31 → sub4 (pos a) (pos b) ≡ int (pos (a - b))
unfolding sub4 checked ◌-ℤ◌
sub4-pos a b h k = ground arith

mul8-pos : (a b : ℕ) → a * b < 2 ^ 63 → mul8 (pos a) (pos b) ≡ int (pos (a * b))
unfolding mul8 checked ◌*ℤ◌
mul8-pos a b h = ground arith

div8-pos : (a b : ℕ) → 0 < b → a < 2 ^ 63 → div8 (pos a) (pos b) ≡ int (pos (a / b))
unfolding div8 checked
div8-pos a b h k = ground arith

beyond-pos : (n : ℕ) → n < 2 ^ 63 → beyond (pos n) ≡ int (pos (n - 1))
unfolding beyond sub8 checked ◌-ℤ◌ greatest
beyond-pos n h = ground arith

clamped-pos :
    (d n : ℕ)
    → n < 2 ^ 63
    → clamped (pos d) (pos n) ≡ int (pos (if ltb d (n - 1) then d else n - 1))
unfolding clamped
clamped-pos d n h = rw (beyond-pos n h) (ground arith)

nullif_zero-pos : (d : ℕ) → 0 < d → nullif_zero (pos d) ≡ int (pos d)
unfolding nullif_zero
nullif_zero-pos d h = ground arith

-- the outer GREATEST and the cast, over a difference that fits
floor_row :
    (i m p : ℕ)
    → m ≤ i
    → i < 2 ^ 31
    → p < 2 ^ 63
    → to_int4 (greatest (int (pos m)) (sub8 (pos i) (pos p)))
      ≡ int (pos (if ltb (i - p) m then m else i - p))
unfolding to_int4 greatest sub8 checked ◌-ℤ◌
floor_row i m p im fi fp = ground arith

abbrev least : ℕ → ℕ → ℕ
least d n = if ltb d n then d else n

least_le : (d n : ℕ) → least d n ≤ d
least_le d n = ground arith

least_lt : (d n : ℕ) {b : ℕ} → n < b → least d n < b
least_lt d n h = ground arith

drop_le' : (i m d k : ℕ) → k ≤ d → (i - m) * k * k / (d * d) ≤ i - m
drop_le' i m d k h = div-le_of_le-mul (d * d) (drop_bound (i - m) k d h)

drop_whole : (s d : ℕ) → 0 < d → s * d * d / (d * d) ≡ s
drop_whole s d h = rw (mul_assoc s d d) (mul-div_cancel s (pos_square d h))

-- clamping the count at `Decay` changes no result
knee :
    (i m d n : ℕ)
    → m ≤ i
    → 0 < d
    → let p = (i - m) * least d n * least d n / (d * d) in
      (if ltb (i - p) m then m else i - p) ≡ price logarithmic i m d n
knee i m d n im hd = elim (Bool-cases (ltb d n)) [
  | inl gt ↦ rw (gt) (rw (drop_whole (i - m) d hd) (ground arith))
  | inr le ↦ rw (le) (ground (arith, drop_le i m d n, drop_whole (i - m) d hd))
]

module _ (i m d n : ℕ) (im : m ≤ i) (hd : 0 < d) (fi : i < 2 ^ 31) (fd : d < 2 ^ 31)
    (few : n ≤ 65536) where
  linear_row : recalc (curve linear i m d) (pos n) ≡ int (pos (price linear i m d (n - 1)))
  unfolding recalc case_function linear_case
  linear_row =
      let p = mul_fits d (n - 1) (2 ^ 31) (2 ^ 16) (omega arith) (omega arith) (omega arith) in
      rw (beyond-pos n (omega arith))
        (rw (mul8-pos d (n - 1) p) (floor_row i m (d * (n - 1)) im fi p))

  -- the expression of the ELSE branch, where `k` stands for the clamped count
  quotient_row :
      (k : ℕ)
      → k < 2 ^ 16
      → strict div8
          (strict mul8 (strict mul8 (sub4 (pos i) (pos m)) (int (pos k))) (int (pos k)))
          (strict mul8 (nullif_zero (pos d)) (nullif_zero (pos d)))
        ≡ int (pos ((i - m) * k * k / (d * d)))
  quotient_row k fk =
      rw (nullif_zero-pos d hd, sub4-pos i m im fi)
        (rw (mul8-pos (i - m) k (omega (arith, square_le i m d k im fi fd fk))) (
          rw (mul8-pos ((i - m) * k) k (cube_fits i m d k im fi fd fk)) (
            rw
              (mul8-pos d d
                (mul_fits d d (2 ^ 31) (2 ^ 31) (omega arith) (omega arith) (omega arith)))
              (div8-pos ((i - m) * k * k) (d * d) (pos_square d hd)
                (cube_fits i m d k im fi fd fk)))))

  log_row : recalc (curve logarithmic i m d) (pos n) ≡ int (pos (price logarithmic i m d (n - 1)))
  unfolding recalc case_function else_case
  log_row =
      let k = least d (n - 1) in
      rw (clamped-pos d n (omega arith)) (
        rw (quotient_row k (least_lt d (n - 1) (omega arith))) (
          rw
            (floor_row i m ((i - m) * k * k / (d * d)) im fi
              (omega (arith, drop_le' i m d k (least_le d (n - 1)))))
            (ap (λ x. int (pos x)) (knee i m d (n - 1) im hd))))

abbrev Stores : Function → ℕ → ℤ → ℤ → ℤ → Type 0
Stores f n i m d =
    let c : Curve = record { function = f; initial = i; minimum = m; decay = d } in
    InColumns c
    → recalc c (pos n) ≡ int (pos (price f (pos_part i) (pos_part m) (pos_part d) (n - 1)))

recalc_fields :
    (f : Function) (i m d : ℤ) (n : ℕ)
    → validate (record { function = f; initial = i; minimum = m; decay = d }) ≡ none
    → is_static f ≡ false
    → n ≤ 65536
    → Stores f n i m d
recalc_fields static i m d n v h few fits = cc
recalc_fields other i m d n v h few fits = absurd (validate_named _ v refl)
recalc_fields linear i m d n v h few fits =
    IsSane_elim (Stores linear n)
      (λ i m d im hd fits. linear_row i m d n im hd fits.initial_fits fits.decay_fits few) i m d
      (validate-IsSane _ v refl) fits
recalc_fields logarithmic i m d n v h few fits =
    IsSane_elim (Stores logarithmic n)
      (λ i m d im hd fits. log_row i m d n im hd fits.initial_fits fits.decay_fits few) i m d
      (validate-IsSane _ v refl) fits

-- Both engines agree: for a validated decaying curve in 32-bit columns and at most 65536 counted
-- solves, the SQL statement stores exactly the value that `ValueAt` returns, with no error and no
-- NULL.
pub recalc-value_at :
    (c : Curve) (n : ℕ)
    → validate c ≡ none
    → is_static c.function ≡ false
    → InColumns c
    → n ≤ 65536
    → (x : ℤ) × (recalc c (pos n) ≡ int x) × (value_at c (pos n) ≡ some x)
recalc-value_at c n v decaying fits few = (
  pos (price c.function (pos_part c.initial) (pos_part c.minimum) (pos_part c.decay) (n - 1)),
  recalc_fields c.function c.initial c.minimum c.decay n v decaying few fits,
  value_at-price c n v fits few,
)

least-zero : (n : ℕ) → least 0 n ≡ 0
least-zero n = ground arith

-- A logarithmic curve with decay 0, which `Validate` refuses and an import may carry: both engines
-- give the minimum, for every count of solves up to 65536.
zero_decay :
    (i m n : ℕ)
    → m ≤ i
    → i < 2 ^ 31
    → n ≤ 65536
    → (recalc (curve logarithmic i m 0) (pos n) ≡ int (pos m))
      × (value_at (curve logarithmic i m 0) (pos n) ≡ some (pos m))
unfolding recalc case_function else_case nullif_zero greatest to_int4 checked value_at
zero_decay i m n im fi few = (
  rw (clamped-pos 0 n (omega arith)) (
      rw (least-zero (n - 1), sub4-pos i m im fi)
        (rw (mul8-pos (i - m) 0 (omega arith))
          (rw mul-zero (rw (mul8-pos 0 0 (omega arith)) (ground arith))))),
  ground arith,
)
