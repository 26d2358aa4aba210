-- ===== src/Field.antt =====
-- internal/domain/field/field.go: the definition of a registration field and the canonical form of an
-- answer. Strings and JSON texts are their UTF-8 bytes; encoding/json is a parameter.
pub mod Present
pub mod Tests
use Prim.Native.String.{String}
use text.Mathlib.Text.{◌==◌ as str_eq}
use flagfish.Prelude.{
  ℕ, Bool, true, false, ◌||◌, Option, none, some, List, [], ◌∷◌, ltb, if◌then◌else◌,
}
use flagfish.Flags.Space.{Bytes, trim_space, is_empty, rune_count, same_bytes}

pub record Library : Type 0 where
  -- json.Unmarshal into a string and into a bool
  pub read_string : Bytes → Option Bytes
  pub read_bool : Bytes → Option Bool
  -- json.Marshal of a string, which does not fail
  pub write_string : Bytes → Bytes

abbrev pub max_name_len : ℕ
max_name_len = 128

abbrev pub max_description_len : ℕ
max_description_len = 500

abbrev pub max_text_answer_len : ℕ
max_text_answer_len = 500

pub data Error : Type 0 where
  empty_name name_too_long description_too_long unknown_type type_mismatch text_too_long : Error

-- `ValidType`
unfoldable pub valid_type : String → Bool
valid_type t = str_eq t "text" || str_eq t "boolean"

-- `ValidAppliesTo`
unfoldable pub valid_applies_to : String → Bool
valid_applies_to a = str_eq a "user" || str_eq a "team"

-- a value and a nil error, or an error
pub data Cleaned {ℓ} (A : Type ℓ) : Type ℓ where
  clean : A → Cleaned A
  refused : Error → Cleaned A

-- `CleanName`
unfoldable pub clean_name : Bytes → Cleaned Bytes
unfolding trim_space rune_count
clean_name name =
    let cleaned = trim_space name in
    if is_empty cleaned
    then refused empty_name
    else if ltb max_name_len (rune_count cleaned)
    then refused name_too_long
    else clean cleaned

-- `CleanDescription`
unfoldable pub clean_description : Option Bytes → Cleaned (Option Bytes)
unfolding trim_space rune_count
clean_description none = clean none
clean_description (some desc) =
    let cleaned = trim_space desc in
    if is_empty cleaned
    then clean none
    else if ltb max_description_len (rune_count cleaned)
    then refused description_too_long
    else clean (some cleaned)

-- null, true, false, and the empty string
abbrev pub json_null : Bytes
json_null = 110 ∷ 117 ∷ 108 ∷ 108 ∷ []

abbrev pub json_true : Bytes
json_true = 116 ∷ 114 ∷ 117 ∷ 101 ∷ []

abbrev pub json_false : Bytes
json_false = 102 ∷ 97 ∷ 108 ∷ 115 ∷ 101 ∷ []

abbrev pub json_empty : Bytes
json_empty = 34 ∷ 34 ∷ []

-- `isJSONAbsent`
unfoldable pub is_json_absent : Bytes → Bool
unfolding trim_space same_bytes
is_json_absent raw =
    let trimmed = trim_space raw in is_empty trimmed || same_bytes trimmed json_null

-- `IsAnswered`
unfoldable pub is_answered : Bytes → Bool
unfolding trim_space same_bytes
is_answered value =
    let trimmed = trim_space value in
    if is_empty trimmed || (same_bytes trimmed json_null || same_bytes trimmed json_empty)
    then false
    else true

pub record Answer : Type 0 where
  pub value : Bytes
  pub present : Bool

abbrev pub answer : Bytes → Bool → Cleaned Answer
answer value present = clean (record { value = value; present = present })

-- the case TypeText of `Normalize` on the trimmed string
unfoldable pub text_answer : Library → Bytes → Cleaned Answer
unfolding rune_count
text_answer lib s =
    if is_empty s
    then answer json_null false
    else if ltb max_text_answer_len (rune_count s)
    then refused text_too_long
    else answer (lib.write_string s) true

abbrev pub boolean_answer : Bool → Cleaned Answer
boolean_answer true = answer json_true true
boolean_answer false = answer json_false true

-- the switch of `Normalize`
unfoldable pub typed_answer : Library → String → Bytes → Cleaned Answer
unfolding text_answer trim_space
typed_answer lib field_type raw =
    if str_eq field_type "text"
    then elim (lib.read_string raw) [
      | none ↦ refused type_mismatch
      | some s ↦ text_answer lib (trim_space s)
    ]
    else if str_eq field_type "boolean"
    then elim (lib.read_bool raw) [ none ↦ refused type_mismatch | some b ↦ boolean_answer b ]
    else refused unknown_type

-- `Normalize`
unfoldable pub normalize : Library → String → Bytes → Cleaned Answer
unfolding is_json_absent typed_answer
normalize lib field_type raw =
    if is_json_absent raw then answer json_null false else typed_answer lib field_type raw
