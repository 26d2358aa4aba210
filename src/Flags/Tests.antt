-- ===== src/Flags/Tests.antt =====
-- A case-insensitive flag with white space around the submission.
use flagfish.Prelude.{◌≡◌, refl, ◌↔◌, Bool, true, false, Option, none, List, [], ◌∷◌, arith}
use flagfish.Flags.Space.{Bytes, trim_space}
use flagfish.Flags.{Flag, static, answer, validate, match_static, match_flag, match_any, match_all}
use flagfish.Flags.Fold.{Alike, match_static_iff}
use flagfish.Flags.Match.{validated-answers}

-- "Flag" and "\n flag\u00a0"
abbrev saved : Bytes
saved = 70 ∷ 108 ∷ 97 ∷ 103 ∷ []

abbrev guess : Bytes
guess = 10 ∷ 32 ∷ 102 ∷ 108 ∷ 97 ∷ 103 ∷ 194 ∷ 160 ∷ []

abbrev folding : Flag
folding = record { kind = static; content = saved; case_insensitive = true }

abbrev exact : Flag
exact = record { kind = static; content = saved; case_insensitive = false }

-- a regexp package in which no pattern compiles
abbrev broken : Bytes → Option (Bytes → Bool)
broken pattern = none

trimmed : trim_space guess ≡ 102 ∷ 108 ∷ 97 ∷ 103 ∷ []
unfolding trim_space
trimmed = refl

either_matches : match_any broken (exact ∷ folding ∷ []) guess ≡ answer true
unfolding match_any match_flag match_static trim_space
either_matches = refl

not_both : match_all broken (exact ∷ folding ∷ []) guess ≡ answer false
unfolding match_all match_flag match_static trim_space
not_both = refl

match_static_iff_example :
    ((match_static saved guess false ≡ true) ↔ (saved ≡ guess))
    × ((match_static saved guess true ≡ true) ↔ Alike saved guess)
match_static_iff_example = match_static_iff saved guess

abbrev both_flags : List Flag
both_flags = exact ∷ folding ∷ []

static_flags_pass : (validate broken exact ≡ none) × (validate broken folding ≡ none)
unfolding validate
static_flags_pass = (refl, refl)

validated-answers_example :
    (a b : Bool) × (match_any broken both_flags guess ≡ answer a)
    × (match_all broken both_flags guess ≡ answer b)
validated-answers_example =
    validated-answers broken guess both_flags
      ((static_flags_pass.0, (λ h. ground arith)), ((static_flags_pass.1, (λ h. ground arith)), tt))
