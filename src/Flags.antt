-- ===== src/Flags.antt =====
-- internal/domain/flags/flags.go: how a submitted flag is compared. A Go string is the list of its
-- bytes. The regexp and sha256 packages are parameters: `compile` gives the matcher of a pattern,
-- or `none` where it does not compile.
pub mod Space
pub mod Fold
pub mod Match
pub mod Tests
use Prim.Native.String.{String}
use text.Mathlib.Text.{◌==◌ as str_eq}
use flagfish.Prelude.{
  ℕ, ◌+◌, Bool, true, false, ◌&&◌, ◌||◌, Option, none, some, List, [], ◌∷◌, ◌++◌, leb, ◌==◌,
  if◌then◌else◌,
}
use flagfish.Flags.Space.{Bytes, trim_space}

-- The three enumerations are uint8: the last constructor stands for the values past the named ones.
pub data Mode : Type 0 where
  static_mode unique_mode other_mode : Mode

pub data Kind : Type 0 where
  static regex other : Kind

pub data Logic : Type 0 where
  any_of all_of other_logic : Logic

-- `ParseMode`, `ParseType` and `ParseLogic`
unfoldable pub parse_mode : String → Option Mode
parse_mode s =
    if str_eq s "static"
    then some static_mode
    else if str_eq s "unique"
    then some unique_mode
    else none

unfoldable pub parse_type : String → Option Kind
parse_type s =
    if str_eq s "static" then some static else if str_eq s "regex" then some regex else none

unfoldable pub parse_logic : String → Option Logic
parse_logic s = if str_eq s "any" then some any_of else if str_eq s "all" then some all_of else none

pub record Flag : Type 0 where
  pub kind : Kind
  pub content : Bytes
  pub case_insensitive : Bool

pub data Fault : Type 0 where
  empty_content bad_pattern unknown_type : Fault

-- a Boolean answer or an error
pub data Answer : Type 0 where
  answer : Bool → Answer
  refused : Fault → Answer

-- `Normalize`
unfoldable pub normalize : Bytes → Bytes
normalize provided = trim_space provided

-- the body of the loop of `foldASCII`
unfoldable pub fold_byte : ℕ → ℕ
fold_byte b = if leb 65 b && leb b 90 then b + 32 else b

-- `foldASCII`
unfoldable pub fold_ascii : Bytes → Bytes
unfolding fold_byte
fold_ascii [] = []
fold_ascii (b ∷ bs) = fold_byte b ∷ fold_ascii bs

-- `subtle.ConstantTimeCompare(x, y) == 1`: the two byte strings are equal
unfoldable pub equal_bytes : Bytes → Bytes → Bool
equal_bytes [] [] = true
equal_bytes [] (y ∷ ys) = false
equal_bytes (x ∷ xs) [] = false
equal_bytes (x ∷ xs) (y ∷ ys) = x == y && equal_bytes xs ys

-- `matchStatic`
unfoldable pub match_static : Bytes → Bytes → Bool → Bool
unfolding fold_ascii equal_bytes
match_static saved provided case_insensitive =
    if case_insensitive
    then equal_bytes (fold_ascii saved) (fold_ascii provided)
    else equal_bytes saved provided

-- `\A(?:` and `)\z`, and the flag `(?i)`
abbrev pub pattern_of : Flag → Bytes
pattern_of f =
    let anchored = (92 ∷ 65 ∷ 40 ∷ 63 ∷ 58 ∷ []) ++ f.content ++ (41 ∷ 92 ∷ 122 ∷ []) in
    if f.case_insensitive then (40 ∷ 63 ∷ 105 ∷ 41 ∷ []) ++ anchored else anchored

abbrev is_empty : Bytes → Bool
is_empty [] = true
is_empty (b ∷ bs) = false

module _ (compile : Bytes → Option (Bytes → Bool)) where
  -- `Flag.Validate`; `none` is the nil error.
  unfoldable pub validate : Flag → Option Fault
  validate f = if is_empty f.content then some empty_content else elim f.kind [
    | regex ↦ elim (compile (pattern_of f)) [ none ↦ some bad_pattern | some re ↦ none ]
    | static ↦ none
    | other ↦ none
  ]

  -- the `switch f.Type` of `Match`, on the normalized submission
  unfoldable pub match_kind : Kind → Flag → Bytes → Answer
  match_kind static f p = answer (match_static f.content p f.case_insensitive)
  match_kind regex f p = elim (compile (pattern_of f)) [
    | none ↦ refused bad_pattern
    | some re ↦ answer (re p)
  ]
  match_kind other f p = refused unknown_type

  -- `Flag.Match`
  unfoldable pub match_flag : Flag → Bytes → Answer
  unfolding match_kind normalize
  match_flag f provided = match_kind f.kind f (normalize provided)

  abbrev both : (Bool → Bool → Bool) → Bool → Answer → (Bool → Answer) → Answer
  both op matched (refused e) continue = refused e
  both op matched (answer ok) continue = continue (op matched ok)

  -- the loop of `MatchAny`, which evaluates every flag
  unfoldable pub any_loop : List Flag → Bytes → Bool → Answer
  any_loop [] provided matched = answer matched
  any_loop (f ∷ fs) provided matched =
      both (λ m ok. m || ok) matched (match_flag f provided) (any_loop fs provided)

  -- `MatchAny`
  unfoldable pub match_any : List Flag → Bytes → Answer
  unfolding any_loop
  match_any fs provided = any_loop fs provided false

  -- the loop of `MatchAll`
  unfoldable pub all_loop : List Flag → Bytes → Bool → Answer
  all_loop [] provided matched = answer matched
  all_loop (f ∷ fs) provided matched =
      both (λ m ok. m && ok) matched (match_flag f provided) (all_loop fs provided)

  -- `MatchAll`
  unfoldable pub match_all : List Flag → Bytes → Answer
  unfolding all_loop
  match_all [] provided = answer false
  match_all (f ∷ fs) provided = all_loop (f ∷ fs) provided true

-- `Hash`
unfoldable pub hash : (Bytes → Bytes) → Bytes → Bytes
unfolding normalize
hash sha256 provided = sha256 (normalize provided)
