-- ===== src/Rows.antt =====
-- Tables as lists of rows: the counts, the EXISTS tests and the UPDATE and DELETE statements by which
-- the queries of internal/db read and change them.
pub mod Kept
pub mod Laws
use flagfish.Prelude.{
  ℕ, suc, Bool, true, false, not, ◌||◌, List, [], ◌∷◌, Option, none, some, if◌then◌else◌, ◌==◌,
}

-- the `=` of SQL on two ids: NULL equals nothing
abbrev pub same_id : Option ℕ → Option ℕ → Bool
same_id none b = false
same_id (some x) none = false
same_id (some x) (some y) = x == y

-- count(*) of the rows that pass a test
unfoldable pub count {ℓ} : {A : Type ℓ} → (A → Bool) → List A → ℕ
count test [] = 0
count test (x ∷ xs) = if test x then suc (count test xs) else count test xs

-- EXISTS
unfoldable pub exists {ℓ} : {A : Type ℓ} → (A → Bool) → List A → Bool
exists test [] = false
exists test (x ∷ xs) = test x || exists test xs

-- the row that a :one query scans
unfoldable pub first {ℓ} : {A : Type ℓ} → (A → Bool) → List A → Option A
first test [] = none
first test (x ∷ xs) = let rest = first test xs in if test x then some x else rest

-- UPDATE .. SET .. WHERE
unfoldable pub update_where {ℓ} : {A : Type ℓ} → (A → Bool) → (A → A) → List A → List A
update_where test set [] = []
update_where test set (x ∷ xs) = (if test x then set x else x) ∷ update_where test set xs

-- DELETE .. WHERE
unfoldable pub delete_where {ℓ} : {A : Type ℓ} → (A → Bool) → List A → List A
delete_where test [] = []
delete_where test (x ∷ xs) = let rest = delete_where test xs in if test x then rest else x ∷ rest

-- the rows that pass, in order
unfoldable pub select {ℓ} : {A : Type ℓ} → (A → Bool) → List A → List A
select test [] = []
select test (x ∷ xs) = let rest = select test xs in if test x then x ∷ rest else rest
