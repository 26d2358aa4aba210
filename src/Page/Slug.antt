-- ===== src/Page/Slug.antt =====
-- The routes that are accepted are the words of the slug grammar.
use mathlib.Core.Path.{subst}
use flagfish.Prelude.{
  ℕ, ◌≡◌, ◌≤◌, ◌↔◌, refl, sym, ap, ◌∙◌, arith, not, ◌&&◌, ◌||◌, Bool, true, false, [], ◌∷◌, ◌==◌,
  Bool-cases, inl, inr, length,
}
use flagfish.Flags.Space.{Bytes, trim_space, is_empty}
use flagfish.Page.{
  valid, is_alnum, route_loop, valid_route, validate_route, check_route, max_route_len,
}

-- one or more segments of lowercase letters and digits, joined by single hyphens
pub data IsSlug : Bytes → Type 0 where
  last : (c : ℕ) → is_alnum c ≡ true → IsSlug (c ∷ [])
  next : (c : ℕ) (s : Bytes) → is_alnum c ≡ true → IsSlug s → IsSlug (c ∷ s)
  hyphen : (c : ℕ) (s : Bytes) → is_alnum c ≡ true → IsSlug s → IsSlug (c ∷ 45 ∷ s)

alnum-not_hyphen : (c : ℕ) → is_alnum c ≡ true → (c == 45) ≡ false
alnum-not_hyphen c e = ground (arith, e)

IsSlug-route_loop : (s : Bytes) (first prev : Bool) → IsSlug s → route_loop first prev s ≡ true
unfolding route_loop
IsSlug-route_loop s first prev (last c e) = ground (arith, e)
IsSlug-route_loop s first prev (next c t e h) = ground (arith, e, IsSlug-route_loop t false false h)
IsSlug-route_loop s first prev (hyphen c t e h) =
    ground (arith, e, IsSlug-route_loop t false true h)

-- what may stand after a letter or a digit
data Rest : Bytes → Type 0 where
  done : Rest []
  segment : (s : Bytes) → IsSlug s → Rest s
  gap : (s : Bytes) → IsSlug s → Rest (45 ∷ s)

extended : (c : ℕ) (s : Bytes) → is_alnum c ≡ true → Rest s → IsSlug (c ∷ s)
extended c s e done = last c e
extended c s e (segment t h) = next c t e h
extended c s e (gap t h) = hyphen c t e h

-- What the loop accepts; at the start and after a hyphen that is a slug.
route_loop-Rest :
    (s : Bytes) (first prev : Bool)
    → route_loop first prev s ≡ true
    → Rest s × ((first || prev) ≡ true → (is_empty s && not prev) ≡ false → IsSlug s)
unfolding route_loop
route_loop-Rest [] first prev h = (done, λ e n. absurd (ground (arith, h, n)))
route_loop-Rest (c ∷ cs) first prev h = elim (Bool-cases (is_alnum c)) [
  | inl e ↦
      let slug = extended c cs e (route_loop-Rest cs false false (ground (arith, h, e))).0 in
      (segment (c ∷ cs) slug, λ _ _. slug)
  | inr e ↦
      let after = (route_loop-Rest cs false true (ground (arith, h, e))).1 refl (ground arith) in
      let same : c ≡ 45 = ground (arith, h, e) in
      (
        subst (λ (d : ℕ). Rest (d ∷ cs)) (sym same) (gap cs after),
        λ strict _. absurd (ground (arith, h, e, strict)),
      )
]

-- A non-empty string passes validRoute exactly when it is a slug: segments of lowercase letters and
-- digits, joined by single hyphens.
pub valid_route_iff : (c : ℕ) (s : Bytes) → valid_route (c ∷ s) ≡ true ↔ IsSlug (c ∷ s)
unfolding valid_route
valid_route_iff c s = (
  (λ h. (route_loop-Rest (c ∷ s) true false h).1 refl refl),
  IsSlug-route_loop (c ∷ s) true false,
)

nonempty-IsSlug : (r : Bytes) → is_empty r ≡ false → valid_route r ≡ true → IsSlug r
nonempty-IsSlug [] n h = absurd (ground (arith, n))
nonempty-IsSlug (c ∷ s) n h = (valid_route_iff c s).0 h

check_route-valid :
    (t r : Bytes)
    → check_route t ≡ valid r
    → (r ≡ t) × ((is_empty t ≡ false) × ((valid_route t ≡ true) × (length t ≤ max_route_len)))
unfolding check_route
check_route-valid t r h = ground (arith, h)

slug_passes : (t : Bytes) → IsSlug t → (is_empty t ≡ false) × (valid_route t ≡ true)
slug_passes t (last c e) = (refl, (valid_route_iff c []).1 (last c e))
slug_passes t (next c s e h) = (refl, (valid_route_iff c s).1 (next c s e h))
slug_passes t (hyphen c s e h) = (refl, (valid_route_iff c (45 ∷ s)).1 (hyphen c s e h))

check_route-slug : (t : Bytes) → IsSlug t → length t ≤ max_route_len → check_route t ≡ valid t
unfolding check_route
check_route-slug t h short = let passes = slug_passes t h in ground (arith, passes, short)

-- ValidateRoute returns a route exactly when it is the input with the white space of both ends taken
-- off, is a slug, and has at most 64 bytes.
pub validate_route_iff :
    (input r : Bytes)
    → validate_route input ≡ valid r
      ↔ ((r ≡ trim_space input) × (IsSlug r × (length r ≤ max_route_len)))
unfolding validate_route
validate_route_iff input r = (
  (λ h.
      let out = check_route-valid (trim_space input) r h in
      let slug = nonempty-IsSlug (trim_space input) out.1.0 out.1.1.0 in
      (
        out.0,
        (
          subst IsSlug (sym out.0) slug,
          subst (λ (t : Bytes). length t ≤ max_route_len) (sym out.0) out.1.1.1,
        ),
      )),
  (λ p. ap check_route (sym p.0) ∙ check_route-slug r p.1.0 p.1.1),
)
