-- ===== src/Prereq/Requirements/Roundtrip.antt =====
-- Encoding and then decoding a requirements document.
use Prim.Native.String.{String}
use flagfish.Prelude.{◌≡◌, ◌≢◌, ◌↔◌, true, Option, none, some, List, [], ◌∷◌, arith, ℕ}
use text.Mathlib.TextEquality.{eq_iff}
use flagfish.Prereq.Requirements.{
  Visibility, other, Requirements, visibility_name, visibility_from_name, Raw, Anonymize, flag_true,
  text_preview, Outgoing, Json,
}

abbrev ids_of : Option (List ℕ) → List ℕ
ids_of none = []
ids_of (some ids) = ids

abbrev raw_of : (Anonymize → Raw) → Option Anonymize → Raw
raw_of spell none = []
raw_of spell (some a) = spell a

-- What is relied on in encoding/json: what it writes is not empty and reads back field by field, a
-- written `true` reads as the bool, and a written string reads as that string and not as a bool.
pub record IsFaithful (json : Json) : Type 0 where
  pub spell : Anonymize → Raw
  pub spelled : (a : Anonymize) → spell a ≢ []
  pub writes :
      (d : Outgoing)
      → (b : ℕ) × (bs : Raw) × (json.marshal d ≡ some (b ∷ bs))
        × (json.document (b ∷ bs)
            ≡ some (record {
              prerequisites = ids_of d.prerequisites;
              anonymize = raw_of spell d.anonymize;
            }))
  pub reads_true : json.bool (spell flag_true) ≡ some true
  pub not_a_bool : json.bool (spell text_preview) ≡ none
  pub reads_text : json.string (spell text_preview) ≡ some "preview"

masked≢hidden : ◌≢◌ {A = String} "masked" "hidden"
masked≢hidden = ground (arith, eq_iff "masked" "hidden")

preview≢hidden : ◌≢◌ {A = String} "preview" "hidden"
preview≢hidden = ground (arith, eq_iff "preview" "hidden")

preview≢masked : ◌≢◌ {A = String} "preview" "masked"
preview≢masked = ground (arith, eq_iff "preview" "masked")

-- The name of a named visibility reads back as that visibility and as no other.
visibility_from_name-visibility_name :
    (v w : Visibility) → v ≢ other → (visibility_from_name (visibility_name v) ≡ some w) ↔ (v ≡ w)
unfolding visibility_from_name visibility_name
visibility_from_name-visibility_name v w h = ground (
  arith,
  masked≢hidden,
  preview≢hidden,
  preview≢masked,
  eq_iff (visibility_name v) "hidden",
  eq_iff (visibility_name v) "masked",
  eq_iff (visibility_name v) "preview",
)
