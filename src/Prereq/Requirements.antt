-- ===== src/Prereq/Requirements.antt =====
-- internal/domain/prereq/prereq.go and the spelling half of serialize.go: the `requirements` column
-- of a challenge or hint. The package encoding/json is a parameter: a record of the four calls that
-- the code makes. Ids are natural numbers.
pub mod Roundtrip
pub mod Tests
use Prim.Native.String.{String}
use text.Mathlib.Text.{◌==◌ as str_eq}
use flagfish.Prelude.{ℕ, Bool, true, false, not, Option, none, some, List, [], ◌∷◌, if◌then◌else◌}

-- `Visibility` is a uint8: `other` stands for the values past the named ones.
pub data Visibility : Type 0 where
  hidden masked preview other : Visibility

pub record Requirements : Type 0 where
  pub prerequisites : List ℕ
  pub visibility : Visibility

abbrev pub is_hidden : Visibility → Bool
is_hidden hidden = true
is_hidden _ = false

-- `Visibility.Visible`
unfoldable pub visible : Visibility → Bool
visible v = not (is_hidden v)

-- `Visibility.Name`
unfoldable pub visibility_name : Visibility → String
visibility_name masked = "masked"
visibility_name preview = "preview"
visibility_name _ = "hidden"

-- `VisibilityFromName`
unfoldable pub visibility_from_name : String → Option Visibility
visibility_from_name name =
    if str_eq name "hidden"
    then some hidden
    else if str_eq name "masked"
    then some masked
    else if str_eq name "preview"
    then some preview
    else none

abbrev pub Raw : Type 0
Raw = List ℕ

-- the struct that `Parse` decodes into; an absent `anonymize` is the empty raw message
pub record Document : Type 0 where
  pub prerequisites : List ℕ
  pub anonymize : Raw

-- the two values that `Encode` stores under `anonymize`
pub data Anonymize : Type 0 where
  flag_true text_preview : Anonymize

-- the map that `Encode` builds
pub record Outgoing : Type 0 where
  pub prerequisites : Option (List ℕ)
  pub anonymize : Option Anonymize

-- `json.Unmarshal` at the three types and `json.Marshal`; `none` is an error
pub record Json : Type 0 where
  pub document : Raw → Option Document
  pub bool : Raw → Option Bool
  pub string : Raw → Option String
  pub marshal : Outgoing → Option Raw

-- the second half of `parseVisibility`, once the value has not read as a bool
abbrev text_visibility : Option String → Option Visibility
text_visibility none = none
text_visibility (some s) = if str_eq s "preview" then some preview else none

abbrev read_visibility : Json → Raw → Option Bool → Option Visibility
read_visibility json raw none = text_visibility (json.string raw)
read_visibility json raw (some b) = some (if b then masked else hidden)

-- `parseVisibility`
unfoldable pub parse_visibility : Json → Raw → Option Visibility
parse_visibility json [] = some hidden
parse_visibility json (b ∷ bs) = read_visibility json (b ∷ bs) (json.bool (b ∷ bs))

abbrev pub with_visibility : List ℕ → Option Visibility → Option Requirements
with_visibility ids none = none
with_visibility ids (some v) = some (record { prerequisites = ids; visibility = v })

abbrev read_document : Json → Option Document → Option Requirements
read_document json none = none
read_document json (some doc) =
    with_visibility doc.prerequisites (parse_visibility json doc.anonymize)

-- `Parse`
unfoldable pub parse : Json → Raw → Option Requirements
unfolding parse_visibility
parse json [] = some (record { prerequisites = []; visibility = hidden })
parse json (b ∷ bs) = read_document json (json.document (b ∷ bs))

abbrev pub some_ids : List ℕ → Option (List ℕ)
some_ids [] = none
some_ids (id ∷ ids) = some (id ∷ ids)

abbrev pub anonymized : Visibility → Option Anonymize
anonymized masked = some flag_true
anonymized preview = some text_preview
anonymized _ = none

-- `Encode`
unfoldable pub encode : Json → Requirements → Option Raw
encode json r =
    json.marshal
      (record { prerequisites = some_ids r.prerequisites; anonymize = anonymized r.visibility })
