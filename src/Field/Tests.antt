-- ===== src/Field/Tests.antt =====
-- Runs of the validation of a field and of an answer.
use flagfish.Prelude.{◌≡◌, refl, true, false, some, [], ◌∷◌, ◌++◌}
use flagfish.Flags.Space.{Bytes}
use flagfish.Field.{Library, answer, refused, unknown_type, is_answered, normalize}
use flagfish.Field.Present.{Quotes, normalize-is_answered}

-- a library that takes the quotes off and puts them on, on strings without escapes
abbrev lib : Library
lib = record {
  read_string = λ raw. some (98 ∷ 111 ∷ 98 ∷ []);
  read_bool = λ raw. some true;
  write_string = λ s. 34 ∷ (s ++ (34 ∷ []));
}

abbrev quotes : Quotes lib
quotes = record { inner = λ s. s; written = λ s. refl; kept = λ s e. e }

-- "bob" between quotes
abbrev bob : Bytes
bob = 34 ∷ 98 ∷ 111 ∷ 98 ∷ 34 ∷ []

unknown_refused : normalize lib "date" bob ≡ refused unknown_type
unfolding normalize
unknown_refused = refl

blank_absent :
    normalize lib "text" (32 ∷ 110 ∷ 117 ∷ 108 ∷ 108 ∷ [])
    ≡ answer (110 ∷ 117 ∷ 108 ∷ 108 ∷ []) false
unfolding normalize
blank_absent = refl

normalize-is_answered_example : is_answered bob ≡ true
unfolding normalize
normalize-is_answered_example =
    normalize-is_answered lib "text" bob (record { value = bob; present = true }) quotes refl
