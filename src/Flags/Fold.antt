-- ===== src/Flags/Fold.antt =====
-- The static comparison against a description that does not fold: byte by byte, the two strings
-- are equal or differ in the case of an ASCII letter.
use flagfish.Prelude.{ℕ, ◌+◌, ◌≤◌, ◌≡◌, ◌↔◌, ◌⊎◌, true, false, [], ◌∷◌, arith}
use flagfish.Flags.Space.{Bytes}
use flagfish.Flags.{fold_byte, fold_ascii, equal_bytes, match_static}

-- a is an upper-case ASCII letter and b the same letter in lower case
abbrev Lowers : ℕ → ℕ → Type 0
Lowers a b = (65 ≤ a) × (a ≤ 90) × (b ≡ a + 32)

abbrev pub SameByte : ℕ → ℕ → Type 0
SameByte a b = (a ≡ b) ⊎ (Lowers a b ⊎ Lowers b a)

abbrev pub Alike : Bytes → Bytes → Type 0
Alike [] [] = Unit
Alike [] (y ∷ ys) = ⊥
Alike (x ∷ xs) [] = ⊥
Alike (x ∷ xs) (y ∷ ys) = SameByte x y × Alike xs ys

fold_byte_iff : (a b : ℕ) → (fold_byte a ≡ fold_byte b) ↔ SameByte a b
unfolding fold_byte
fold_byte_iff a b = ground arith

equal_bytes_iff : (xs ys : Bytes) → (equal_bytes xs ys ≡ true) ↔ (xs ≡ ys)
unfolding equal_bytes
equal_bytes_iff [] [] = ground arith
equal_bytes_iff [] (y ∷ ys) = ground arith
equal_bytes_iff (x ∷ xs) [] = ground arith
equal_bytes_iff (x ∷ xs) (y ∷ ys) = ground (arith, equal_bytes_iff xs ys)

folded_iff : (xs ys : Bytes) → (equal_bytes (fold_ascii xs) (fold_ascii ys) ≡ true) ↔ Alike xs ys
unfolding fold_ascii equal_bytes
folded_iff [] [] = ground arith
folded_iff [] (y ∷ ys) = ground arith
folded_iff (x ∷ xs) [] = ground arith
folded_iff (x ∷ xs) (y ∷ ys) = ground (arith, fold_byte_iff x y, folded_iff xs ys)

-- A static flag matches exactly the equal bytes; marked case-insensitive it matches exactly the
-- strings of the same length whose bytes are equal or differ in the case of an ASCII letter.
pub match_static_iff :
    (saved provided : Bytes)
    → ((match_static saved provided false ≡ true) ↔ (saved ≡ provided))
      × ((match_static saved provided true ≡ true) ↔ Alike saved provided)
unfolding match_static
match_static_iff saved provided = (equal_bytes_iff saved provided, folded_iff saved provided)
