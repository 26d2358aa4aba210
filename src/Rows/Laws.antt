-- ===== src/Rows/Laws.antt =====
-- What the statements on rows do to counts and to EXISTS tests.
use flagfish.Prelude.{
  ◌+◌, ◌≤◌, ◌≡◌, refl, Bool, true, false, List, [], ◌∷◌, some, All, arith, Bool-cases, inl, inr,
}
use flagfish.Rows.{count, exists, first, update_where, delete_where}

module _ {ℓ} {A : Type ℓ} where
  pub exists-member :
      (p : A → Bool) (q : A → Type 0) (xs : List A)
      → exists p xs ≡ true
      → All q xs
      → (x : A) × ((p x ≡ true) × q x)
  unfolding exists
  exists-member p q [] e h = absurd (ground (arith, e))
  exists-member p q (x ∷ xs) e h = elim (Bool-cases (p x)) [
    | inl yes_here ↦ (x, (yes_here, h.0))
    | inr no_here ↦ exists-member p q xs (ground (arith, e, no_here)) h.1
  ]

  -- an EXISTS that no row of the update can lose
  pub exists-update :
      (p test : A → Bool) (set : A → A) (xs : List A)
      → ((x : A) → p x ≡ true → test x ≡ true → p (set x) ≡ true)
      → exists p xs ≡ true
      → exists p (update_where test set xs) ≡ true
  unfolding exists update_where
  exists-update p test set [] keep e = e
  exists-update p test set (x ∷ xs) keep e =
      ground (arith, keep x, e, exists-update p test set xs keep)

  pub exists-map :
      (p q : A → Bool) (xs : List A)
      → ((x : A) → p x ≡ true → q x ≡ true)
      → exists p xs ≡ true
      → exists q xs ≡ true
  unfolding exists
  exists-map p q [] h e = e
  exists-map p q (x ∷ xs) h e = ground (arith, h x, e, exists-map p q xs h)

  -- a matched row that the update sends to the test
  pub exists-updated :
      (p test : A → Bool) (set : A → A) (xs : List A)
      → ((x : A) → test x ≡ true → p (set x) ≡ true)
      → exists test xs ≡ true
      → exists p (update_where test set xs) ≡ true
  unfolding exists update_where
  exists-updated p test set [] send e = e
  exists-updated p test set (x ∷ xs) send e =
      ground (arith, send x, e, exists-updated p test set xs send)

  pub count-update_le :
      (p test : A → Bool) (set : A → A) (xs : List A)
      → count p (update_where test set xs) ≤ count p xs + count test xs
  unfolding count update_where
  count-update_le p test set [] = omega arith
  count-update_le p test set (x ∷ xs) = ground (arith, count-update_le p test set xs)

  -- a count that no row of the update enters
  pub count-update_shrinks :
      (p test : A → Bool) (set : A → A) (xs : List A)
      → ((x : A) → test x ≡ true → p (set x) ≡ true → p x ≡ true)
      → count p (update_where test set xs) ≤ count p xs
  unfolding count update_where
  count-update_shrinks p test set [] back = omega arith
  count-update_shrinks p test set (x ∷ xs) back =
      ground (arith, back x, count-update_shrinks p test set xs back)

  -- a count that every row of the update keeps
  pub count-update_keeps :
      (p test : A → Bool) (set : A → A) (xs : List A)
      → ((x : A) → test x ≡ true → p (set x) ≡ p x)
      → count p (update_where test set xs) ≡ count p xs
  unfolding count update_where
  count-update_keeps p test set [] same = refl
  count-update_keeps p test set (x ∷ xs) same =
      ground (arith, same x, count-update_keeps p test set xs same)

  pub count-delete_le :
      (p test : A → Bool) (xs : List A) → count p (delete_where test xs) ≤ count p xs
  unfolding count delete_where
  count-delete_le p test [] = omega arith
  count-delete_le p test (x ∷ xs) = ground (arith, count-delete_le p test xs)

  pub count-le :
      (p q : A → Bool) (xs : List A) → ((x : A) → p x ≡ true → q x ≡ true) → count p xs ≤ count q xs
  unfolding count
  count-le p q [] h = omega arith
  count-le p q (x ∷ xs) h = ground (arith, h x, count-le p q xs h)

  pub count-exists : (p : A → Bool) (xs : List A) → exists p xs ≡ true → 1 ≤ count p xs
  unfolding count exists
  count-exists p [] e = absurd (ground (arith, e))
  count-exists p (x ∷ xs) e = ground (arith, e, count-exists p xs)

  pub count_zero : (p : A → Bool) (xs : List A) → exists p xs ≡ false → count p xs ≡ 0
  unfolding count exists
  count_zero p [] e = refl
  count_zero p (x ∷ xs) e = ground (arith, e, count_zero p xs)

  pub first-exists :
      (p : A → Bool) (xs : List A) → exists p xs ≡ true → (x : A) × (first p xs ≡ some x)
  unfolding first exists
  first-exists p [] e = absurd (ground (arith, e))
  first-exists p (x ∷ xs) e = elim (Bool-cases (p x)) [
    | inl here ↦ (x, rw here)
    | inr absent ↦ rw absent (first-exists p xs (ground (arith, e, absent)))
  ]

  pub first-passes : (p : A → Bool) (xs : List A) (x : A) → first p xs ≡ some x → p x ≡ true
  unfolding first
  first-passes p [] x e = absurd (ground (arith, e))
  first-passes p (y ∷ ys) x e = ground (arith, e, first-passes p ys x)

  pub exists-update_same :
      (p test : A → Bool) (set : A → A) (xs : List A)
      → ((x : A) → p (set x) ≡ p x)
      → exists p (update_where test set xs) ≡ exists p xs
  unfolding exists update_where
  exists-update_same p test set [] same = refl
  exists-update_same p test set (x ∷ xs) same =
      ground (arith, same x, exists-update_same p test set xs same)
