-- ===== src/Prereq/Requirements/Tests.antt =====
-- A toy format: the ids after a tag and a code for the anonymize flag.
use Prim.Native.String.{String}
use flagfish.Prelude.{ℕ, ◌≡◌, Bool, true, Option, none, some, List, [], ◌∷◌, ◌==◌, if◌then◌else◌}
use flagfish.Prereq.Requirements.{
  preview, Requirements, Raw, Document, Anonymize, flag_true, text_preview, Outgoing, Json,
}

-- `t` and `"`
abbrev spell_toy : Anonymize → Raw
spell_toy flag_true = 116 ∷ []
spell_toy text_preview = 34 ∷ []

abbrev ids_toy : Option (List ℕ) → List ℕ
ids_toy none = []
ids_toy (some ids) = ids

abbrev marshal_toy : Outgoing → Option Anonymize → Option Raw
marshal_toy d none = some (0 ∷ ids_toy d.prerequisites)
marshal_toy d (some flag_true) = some (116 ∷ ids_toy d.prerequisites)
marshal_toy d (some text_preview) = some (34 ∷ ids_toy d.prerequisites)

abbrev document_toy : Raw → Option Document
document_toy [] = none
document_toy (tag ∷ ids) =
    some (record { prerequisites = ids; anonymize = if tag == 0 then [] else tag ∷ [] })

abbrev bool_toy : Raw → Option Bool
bool_toy [] = none
bool_toy (tag ∷ rest) = if tag == 116 then some true else none

abbrev string_toy : Raw → Option String
string_toy [] = none
string_toy (tag ∷ rest) = if tag == 34 then some "preview" else none

abbrev toy : Json
toy = record {
  document = document_toy;
  bool = bool_toy;
  string = string_toy;
  marshal = λ d. marshal_toy d d.anonymize;
}

abbrev Written : Option (List ℕ) → Option Anonymize → Type 0
Written ids a =
    let d : Outgoing = record { prerequisites = ids; anonymize = a } in
    (b : ℕ) × (bs : Raw) × (toy.marshal d ≡ some (b ∷ bs))
    × (toy.document (b ∷ bs)
        ≡ some (record {
          prerequisites = ids_toy ids;
          anonymize = elim a [ none ↦ [] | some x ↦ spell_toy x ];
        }))

abbrev locked : Requirements
locked = record { prerequisites = 3 ∷ 5 ∷ []; visibility = preview }
