-- ===== src/Page/Tests.antt =====
-- Runs of the validation of a page.
use flagfish.Prelude.{◌≡◌, ◌≤◌, ◌↔◌, refl, [], ◌∷◌, length}
use flagfish.Flags.Space.{Bytes, trim_space}
use flagfish.Page.{
  valid, invalid, route_invalid, max_route_len, validate_route, validate, unknown_format,
  empty_title,
}
use flagfish.Page.Slug.{IsSlug, validate_route_iff}

-- " faq-2 "
abbrev padded : Bytes
padded = 32 ∷ 102 ∷ 97 ∷ 113 ∷ 45 ∷ 50 ∷ 32 ∷ []

-- "faq-2"
abbrev faq : Bytes
faq = 102 ∷ 97 ∷ 113 ∷ 45 ∷ 50 ∷ []

trimmed : validate_route padded ≡ valid faq
unfolding validate_route
trimmed = refl

doubled_refused : validate_route (97 ∷ 45 ∷ 45 ∷ 98 ∷ []) ≡ invalid route_invalid
unfolding validate_route
doubled_refused = refl

first_error : validate padded [] [] faq ≡ invalid empty_title
unfolding validate
first_error = refl

bad_format : validate padded faq [] faq ≡ invalid unknown_format
unfolding validate
bad_format = refl

validate_route_iff_example :
    validate_route padded ≡ valid faq
    ↔ ((faq ≡ trim_space padded) × (IsSlug faq × (length faq ≤ max_route_len)))
validate_route_iff_example = validate_route_iff padded faq
