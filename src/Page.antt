-- ===== src/Page.antt =====
-- internal/domain/page/page.go: the validation of a page that an organizer publishes. Strings are
-- their UTF-8 bytes; the loop of validRoute goes over runes, and a rune of several bytes fails its
-- test as its first byte does.
pub mod Slug
pub mod Tests
use flagfish.Prelude.{
  ℕ, suc, Bool, true, false, not, ◌&&◌, ◌||◌, List, [], ◌∷◌, leb, ltb, ◌==◌, if◌then◌else◌, length,
}
use flagfish.Flags.Space.{Bytes, trim_space, is_empty, rune_count, same_bytes}

abbrev pub max_route_len : ℕ
max_route_len = 64

abbrev pub max_title_len : ℕ
max_title_len = 200

abbrev pub max_content_bytes : ℕ
max_content_bytes = 262144

-- "markdown"
abbrev pub format_markdown : Bytes
format_markdown = 109 ∷ 97 ∷ 114 ∷ 107 ∷ 100 ∷ 111 ∷ 119 ∷ 110 ∷ []

pub data Error : Type 0 where
  empty_route route_too_long route_invalid empty_title title_too_long content_too_long
        unknown_format :
      Error

-- a value and a nil error, or an error
pub data Validated {ℓ} (A : Type ℓ) : Type ℓ where
  valid : A → Validated A
  invalid : Error → Validated A

abbrev pub and_then {ℓ κ} :
    {A : Type ℓ} {B : Type κ} → Validated A → (A → Validated B) → Validated B
and_then (valid a) next = next a
and_then (invalid e) next = invalid e

-- `Content`
pub record Content : Type 0 where
  pub route : Bytes
  pub title : Bytes
  pub body : Bytes
  pub format : Bytes

-- a-z and 0-9
abbrev pub is_alnum : ℕ → Bool
is_alnum c = leb 97 c && leb c 122 || leb 48 c && leb c 57

-- the loop of `validRoute`: `first` is whether i is 0
unfoldable pub route_loop : Bool → Bool → Bytes → Bool
route_loop first prev_hyphen [] = not prev_hyphen
route_loop first prev_hyphen (c ∷ cs) =
    let alnum = route_loop false false cs in
    let hyphen = route_loop false true cs in
    if is_alnum c
    then alnum
    else if c == 45
    then (if first || prev_hyphen then false else hyphen)
    else false

-- `validRoute`
unfoldable pub valid_route : Bytes → Bool
unfolding route_loop
valid_route s = route_loop true false s

-- the checks of `ValidateRoute` on the trimmed route
unfoldable pub check_route : Bytes → Validated Bytes
unfolding valid_route
check_route r =
    if is_empty r
    then invalid empty_route
    else if ltb max_route_len (length r)
    then invalid route_too_long
    else if valid_route r
    then valid r
    else invalid route_invalid

-- `ValidateRoute`
unfoldable pub validate_route : Bytes → Validated Bytes
unfolding trim_space check_route
validate_route route = check_route (trim_space route)

-- `ValidateTitle`
unfoldable pub validate_title : Bytes → Validated Bytes
unfolding trim_space rune_count
validate_title title =
    let t = trim_space title in
    if is_empty t
    then invalid empty_title
    else if ltb max_title_len (rune_count t)
    then invalid title_too_long
    else valid t

-- `ValidateBody`
unfoldable pub validate_body : Bytes → Validated Bytes
validate_body body =
    if ltb max_content_bytes (length body) then invalid content_too_long else valid body

-- `ValidateFormat`
unfoldable pub validate_format : Bytes → Validated Bytes
unfolding same_bytes
validate_format format =
    let f = if is_empty format then format_markdown else format in
    if same_bytes f format_markdown then valid f else invalid unknown_format

-- `Validate`
unfoldable pub validate : Bytes → Bytes → Bytes → Bytes → Validated Content
unfolding validate_route validate_title validate_body validate_format
validate route title body format = and_then (validate_route route) (λ r.
    and_then (validate_title title) (λ t. and_then (validate_body body) (λ b.
      and_then (validate_format format)
        (λ f. valid (record { route = r; title = t; body = b; format = f })))))
