-- ===== src/Field/Present.antt =====
-- What Normalize calls a present answer is what the gate of the profile counts as answered.
use mathlib.Core.List.{reverse, reverse-append, reverse-reverse}
use mathlib.Core.Path.{subst}
use Prim.Native.String.{String}
use text.Mathlib.Text.{◌==◌ as str_eq}
use flagfish.Prelude.{
  ℕ, ◌≡◌, refl, sym, ap, ◌∙◌, arith, Bool, true, false, [], ◌∷◌, ◌++◌, Option-cases, Bool-cases,
  inl, inr, ltb,
}
use flagfish.Flags.Space.{
  Bytes, trim_space, trim_front, space2, space3, is_empty, same_bytes, rune_count,
}
use flagfish.Field.{
  Library, Cleaned, clean, refused, Answer, is_json_absent, is_answered, text_answer, typed_answer,
  boolean_answer, normalize, json_null, max_text_answer_len,
}

-- encoding/json writes a string between quotes, and a string that is not empty with something there
pub record Quotes (lib : Library) : Type 0 where
  pub inner : Bytes → Bytes
  pub written : (s : Bytes) → lib.write_string s ≡ 34 ∷ (inner s ++ (34 ∷ []))
  pub kept : (s : Bytes) → is_empty s ≡ false → is_empty (inner s) ≡ false

no_two : (b : ℕ) → space2 34 b ≡ false
unfolding space2
no_two b = refl

no_three : (b c : ℕ) → space3 34 b c ≡ false
unfolding space3
no_three b c = refl

no_two_back : (b : ℕ) → space2 b 34 ≡ false
unfolding space2
no_two_back b = ground arith

no_three_back : (b c : ℕ) → space3 c b 34 ≡ false
unfolding space3
no_three_back b c = ground arith

quote_stays :
    (two : ℕ → ℕ → Bool) (three : ℕ → ℕ → ℕ → Bool)
    → ((b : ℕ) → two 34 b ≡ false)
    → ((b c : ℕ) → three 34 b c ≡ false)
    → (xs : Bytes) → trim_front two three (34 ∷ xs) ≡ 34 ∷ xs
unfolding trim_front flagfish.Flags.Space.space1
quote_stays two three p q [] = refl
quote_stays two three p q (b ∷ []) = rw (p b) refl
quote_stays two three p q (b ∷ c ∷ xs) = rw (p b, q b c) refl

reverse_quoted : (m : Bytes) → reverse (34 ∷ (m ++ (34 ∷ []))) ≡ 34 ∷ reverse (34 ∷ m)
reverse_quoted m = reverse-append (34 ∷ m) (34 ∷ [])

trim_space-quoted : (m : Bytes) → trim_space (34 ∷ (m ++ (34 ∷ []))) ≡ 34 ∷ (m ++ (34 ∷ []))
unfolding trim_space
trim_space-quoted m =
    ap (λ (x : Bytes). reverse (trim_front (λ b a. space2 a b) (λ c b a. space3 a b c) (reverse x)))
      (quote_stays space2 space3 no_two no_three (m ++ (34 ∷ [])))
    ∙ (ap (λ (x : Bytes). reverse (trim_front (λ b a. space2 a b) (λ c b a. space3 a b c) x))
          (reverse_quoted m)
        ∙ (ap reverse (
              quote_stays (λ b a. space2 a b) (λ c b a. space3 a b c) no_two_back no_three_back
                (reverse (34 ∷ m)))
            ∙ (ap reverse (sym (reverse_quoted m)) ∙ reverse-reverse (34 ∷ (m ++ (34 ∷ []))))))

quoted-is_answered : (m : Bytes) → is_empty m ≡ false → is_answered (34 ∷ (m ++ (34 ∷ []))) ≡ true
unfolding is_answered same_bytes
quoted-is_answered [] e = absurd (ground (arith, e))
quoted-is_answered (x ∷ []) e = rw (trim_space-quoted (x ∷ [])) (ground arith)
quoted-is_answered (x ∷ y ∷ m) e = rw (trim_space-quoted (x ∷ y ∷ m)) (ground arith)

-- an answer that is given is present exactly when it counts as answered
abbrev Faithful : Cleaned Answer → Type 0
Faithful (refused e) = Unit
Faithful (clean a) = is_answered a.value ≡ a.present

null_absent : is_answered json_null ≡ false
unfolding is_answered
null_absent = refl

boolean_answer-Faithful : (b : Bool) → Faithful (boolean_answer b)
unfolding is_answered
boolean_answer-Faithful true = refl
boolean_answer-Faithful false = refl

text_answer-Faithful : (lib : Library) → Quotes lib → (s : Bytes) → Faithful (text_answer lib s)
unfolding text_answer
text_answer-Faithful lib quotes s = elim (Bool-cases (is_empty s)) [
  | inl e ↦ rw e null_absent
  | inr e ↦ elim (Bool-cases (ltb max_text_answer_len (rune_count s))) [
    | inl l ↦ rw (e, l) tt
    | inr l ↦
        let kept = quoted-is_answered (quotes.inner s) (quotes.kept s e) in
        rw (e, l, quotes.written s) kept
  ]
]

typed_answer-Faithful :
    (lib : Library) (field_type : String) (raw : Bytes)
    → Quotes lib
    → Faithful (typed_answer lib field_type raw)
unfolding typed_answer
typed_answer-Faithful lib field_type raw quotes = elim (Bool-cases (str_eq field_type "text")) [
  | inl e ↦ elim (Option-cases (lib.read_string raw)) [
    | inl bad ↦ rw (e, bad) tt
    | inr (s, good) ↦ rw (e, good) (text_answer-Faithful lib quotes (trim_space s))
  ]
  | inr e ↦ elim (Bool-cases (str_eq field_type "boolean")) [
    | inl f ↦ elim (Option-cases (lib.read_bool raw)) [
      | inl bad ↦ rw (e, f, bad) tt
      | inr (b, good) ↦ rw (e, f, good) (boolean_answer-Faithful b)
    ]
    | inr f ↦ rw (e, f) tt
  ]
]

normalize-Faithful :
    (lib : Library) (field_type : String) (raw : Bytes)
    → Quotes lib
    → Faithful (normalize lib field_type raw)
unfolding normalize
normalize-Faithful lib field_type raw quotes = elim (Bool-cases (is_json_absent raw)) [
  | inl e ↦ rw e null_absent
  | inr e ↦ rw e (typed_answer-Faithful lib field_type raw quotes)
]

-- Normalize reports an answer present exactly when the value that it returns counts as answered for
-- the gate, whatever the type of the field, where json.Marshal writes a string between quotes.
pub normalize-is_answered :
    (lib : Library) (field_type : String) (raw : Bytes) (a : Answer)
    → Quotes lib
    → normalize lib field_type raw ≡ clean a
    → is_answered a.value ≡ a.present
normalize-is_answered lib field_type raw a quotes h =
    subst Faithful h (normalize-Faithful lib field_type raw quotes)
