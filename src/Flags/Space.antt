-- ===== src/Flags/Space.antt =====
-- `strings.TrimSpace` on UTF-8 bytes: the white space of Unicode, whose encodings have one, two or
-- three bytes, is taken off both ends. Beside it the equality, the emptiness and the count of runes.
use mathlib.Core.List.{reverse}
use flagfish.Prelude.{
  ℕ, suc, ltb, Bool, true, false, ◌&&◌, ◌||◌, List, [], ◌∷◌, leb, ◌==◌, if◌then◌else◌,
}

abbrev pub Bytes : Type 0
Bytes = List ℕ

-- tab, newline, vertical tab, form feed, carriage return and the space
unfoldable pub space1 : ℕ → Bool
space1 a = leb 9 a && leb a 13 || a == 32

-- U+0085 and U+00A0
unfoldable pub space2 : ℕ → ℕ → Bool
space2 a b = a == 194 && (b == 133 || b == 160)

-- U+1680, U+2000 to U+200A, U+2028, U+2029, U+202F, U+205F and U+3000
unfoldable pub space3 : ℕ → ℕ → ℕ → Bool
space3 a b c =
    a == 225 && (b == 154 && c == 128)
    || a == 226 && (b == 128 && (leb 128 c && leb c 138 || c == 168 || c == 169 || c == 175))
    || a == 226 && (b == 129 && c == 159)
    || a == 227 && (b == 128 && c == 128)

-- takes the leading white space off; the three tests are on an encoding that stands at the front
unfoldable pub trim_front : (ℕ → ℕ → Bool) → (ℕ → ℕ → ℕ → Bool) → Bytes → Bytes
unfolding space1
trim_front two three [] = []
trim_front two three (a ∷ []) = if space1 a then [] else a ∷ []
trim_front two three (a ∷ b ∷ []) = elim (space1 a) [
  | true ↦ trim_front two three (b ∷ [])
  | false ↦ if two a b then [] else a ∷ b ∷ []
]
trim_front two three (a ∷ b ∷ c ∷ bs) = elim (space1 a) [
  | true ↦ trim_front two three (b ∷ c ∷ bs)
  | false ↦ elim (two a b) [
    | true ↦ trim_front two three (c ∷ bs)
    | false ↦ elim (three a b c) [ true ↦ trim_front two three bs | false ↦ a ∷ b ∷ c ∷ bs ]
  ]
]

-- the bytes of an encoding come last first at the end of the string
unfoldable pub trim_space : Bytes → Bytes
unfolding trim_front space2 space3
trim_space s =
    reverse (
      trim_front (λ b a. space2 a b) (λ c b a. space3 a b c) (reverse (trim_front space2 space3 s)))

abbrev pub is_empty : Bytes → Bool
is_empty [] = true
is_empty (_ ∷ _) = false

-- the bytes that do not start a rune of a valid UTF-8 string
abbrev pub continues : ℕ → Bool
continues b = leb 128 b && ltb b 192

-- `utf8.RuneCountInString` on valid UTF-8
unfoldable pub rune_count : Bytes → ℕ
rune_count [] = 0
rune_count (b ∷ bs) = let rest = rune_count bs in if continues b then rest else suc rest

-- equality of two strings
unfoldable pub same_bytes : Bytes → Bytes → Bool
same_bytes [] [] = true
same_bytes (x ∷ xs) (y ∷ ys) = (x == y) && same_bytes xs ys
same_bytes [] (_ ∷ _) = false
same_bytes (_ ∷ _) [] = false
