-- ===== src/Rows/Kept.antt =====
-- The predicates, the keys and the tests that the statements on rows keep.
use flagfish.Prelude.{
  ◌≤◌, ◌≡◌, refl, Bool, true, false, not, ◌&&◌, List, [], ◌∷◌, some, All, arith, Bool-cases, inl,
  inr, some-injective, if◌then◌else◌, ◌==◌, ap,
}
use flagfish.Rows.{count, exists, first, update_where, delete_where}
use flagfish.Rows.Laws.{count-le, count-exists, count_zero}

module _ {ℓ} {A : Type ℓ} where
  pub All-weaken {κ μ} :
      {P : A → Type κ} {Q : A → Type μ} (xs : List A) → ((x : A) → P x → Q x) → All P xs → All Q xs
  All-weaken [] h all = tt
  All-weaken (x ∷ xs) h all = (h x all.0, All-weaken xs h all.1)

  pub All-update {κ μ} :
      {P : A → Type κ} {Q : A → Type μ} (test : A → Bool) (set : A → A) (xs : List A)
      → ((x : A) → P x → test x ≡ true → Q (set x))
      → ((x : A) → P x → test x ≡ false → Q x)
      → All P xs
      → All Q (update_where test set xs)
  unfolding update_where
  All-update test set [] hit miss all = tt
  All-update {Q} test set (x ∷ xs) hit miss all = (head, All-update test set xs hit miss all.1)
    where
      head : Q (if test x then set x else x)
      head = elim (Bool-cases (test x)) [
        | inl e ↦ rw e (hit x all.0 e)
        | inr e ↦ rw e (miss x all.0 e)
      ]

  pub All-delete {κ μ} :
      {P : A → Type κ} {Q : A → Type μ} (test : A → Bool) (xs : List A)
      → ((x : A) → P x → test x ≡ false → Q x)
      → All P xs
      → All Q (delete_where test xs)
  unfolding delete_where
  All-delete test [] miss all = tt
  All-delete test (x ∷ xs) miss all = elim (Bool-cases (test x)) [
    | inl e ↦ rw e (All-delete test xs miss all.1)
    | inr e ↦ rw e ((miss x all.0 e, All-delete test xs miss all.1))
  ]

  -- every row of a table, with the EXISTS tests that it witnesses
  pub All-rows {κ} :
      {P : A → Type κ} (xs : List A)
      → ((x : A) → ((p : A → Bool) → p x ≡ true → exists p xs ≡ true) → P x)
      → All P xs
  unfolding exists
  All-rows [] h = tt
  All-rows {P} (x ∷ xs) h =
      (h x (λ p e. ground (arith, e)), All-rows xs (λ y w. h y (λ p e. ground (arith, w p e))))

  pub count-update_none :
      (p test : A → Bool) (set : A → A) (xs : List A)
      → count test xs ≡ 0
      → count p (update_where test set xs) ≡ count p xs
  unfolding count update_where
  count-update_none p test set [] e = refl
  count-update_none p test set (x ∷ xs) e = ground (arith, e, count-update_none p test set xs)

  pub All-both {κ μ} :
      (P : A → Type κ) (Q : A → Type μ) (xs : List A)
      → All P xs
      → All Q xs
      → All (λ x. P x × Q x) xs
  All-both P Q [] p q = tt
  All-both P Q (x ∷ xs) p q = ((p.0, q.0), All-both P Q xs p.1 q.1)

  -- a key that two rows have, one that passes a test and one that does not, is counted twice
  pub count-split :
      (key test : A → Bool) (xs : List A)
      → exists (λ x. test x && key x) xs ≡ true
      → exists (λ x. not (test x) && key x) xs ≡ true
      → 2 ≤ count key xs
  unfolding exists count
  count-split key test [] e f = absurd (ground (arith, e))
  count-split key test (x ∷ xs) e f = ground (
    arith,
    e,
    f,
    count-split key test xs,
    count-exists (λ y. test y && key y) xs,
    count-exists (λ y. not (test y) && key y) xs,
    count-le (λ y. test y && key y) key xs,
    count-le (λ y. not (test y) && key y) key xs,
  )

  pub exists-delete :
      (p test : A → Bool) (xs : List A)
      → exists p xs ≡ true
      → exists (λ x. test x && p x) xs ≡ false
      → exists p (delete_where test xs) ≡ true
  unfolding exists delete_where
  exists-delete p test [] e f = e
  exists-delete p test (x ∷ xs) e f = ground (arith, e, f, exists-delete p test xs)

  pub exists-update_kept :
      (p test : A → Bool) (set : A → A) (xs : List A)
      → ((x : A) → test x ≡ true → p (set x) ≡ p x)
      → exists p (update_where test set xs) ≡ exists p xs
  unfolding exists update_where
  exists-update_kept p test set [] same = refl
  exists-update_kept p test set (x ∷ xs) same =
      ground (arith, same x, exists-update_kept p test set xs same)

  pub exists-of-count :
      (p : A → Bool) (xs : List A) → (count p xs == 0) ≡ false → exists p xs ≡ true
  exists-of-count p xs some_row = elim (Bool-cases (exists p xs)) [
    | inl there ↦ there
    | inr absent ↦ absurd (ground (arith, some_row, count_zero p xs absent))
  ]

  -- the one row of a key fails a test, so no row of the key passes it
  pub first_unique :
      (key test : A → Bool) (xs : List A) (x : A)
      → count key xs ≤ 1
      → first key xs ≡ some x
      → test x ≡ false
      → exists (λ y. key y && test y) xs ≡ false
  unfolding first exists count
  first_unique key test [] x small found fails = refl
  first_unique key test (y ∷ ys) x small found fails = elim (Bool-cases (key y)) [
    | inr other ↦ ground (
      arith,
      other,
      first_unique key test ys x (ground (arith, small, other)) (ground (arith, found, other))
          fails,
    )
    | inl own ↦ elim (Bool-cases (exists (λ z. key z && test z) ys)) [
      | inl again ↦ absurd (
          ground (
            arith,
            own,
            small,
            count-le (λ z. key z && test z) key ys (λ z e. ground (arith, e)),
            count-exists (λ z. key z && test z) ys again,
          ))
      | inr unique ↦
          let same : test y ≡ test x = ap test (some-injective (ground (arith, found, own))) in
          ground (arith, own, unique, same, fails)
    ]
  ]

  -- an update after which no updated row passes
  pub exists-update_false :
      (p test : A → Bool) (set : A → A) (xs : List A)
      → ((x : A) → test x ≡ true → p (set x) ≡ false)
      → exists p xs ≡ false
      → exists p (update_where test set xs) ≡ false
  unfolding exists update_where
  exists-update_false p test set [] fails e = e
  exists-update_false p test set (x ∷ xs) fails e =
      ground (arith, fails x, e, exists-update_false p test set xs fails)

  pub exists-delete_false :
      (p test : A → Bool) (xs : List A)
      → exists p xs ≡ false
      → exists p (delete_where test xs) ≡ false
  unfolding exists delete_where
  exists-delete_false p test [] e = e
  exists-delete_false p test (x ∷ xs) e = ground (arith, e, exists-delete_false p test xs)

  pub exists-of-first :
      (p : A → Bool) (xs : List A) (x : A)
      → first p xs ≡ some x
      → (q : A → Bool) → q x ≡ true
      → exists (λ y. p y && q y) xs ≡ true
  unfolding first exists
  exists-of-first p [] x found q e = absurd (ground (arith, found))
  exists-of-first p (y ∷ ys) x found q e = elim (Bool-cases (p y)) [
    | inr other ↦ ground (arith, other, exists-of-first p ys x (ground (arith, found, other)) q e)
    | inl own ↦
        let same : q y ≡ q x = ap q (some-injective (ground (arith, found, own))) in
        ground (arith, own, same, e)
  ]
