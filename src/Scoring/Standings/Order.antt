-- ===== src/Scoring/Standings/Order.antt =====
-- `Less` is a strict total order on entries of different accounts, and `Rank` sorts by it.
use mathlib.Core.Path.{ap₂, subst}
use mathlib.Core.List.{Permᴰ}
use mathlib.Core.List.Permᴰ
use flagfish.Prelude.{
  ◌≡◌, ◌≢◌, refl, inl, inr, Bool-cases, true, false, List, [], ◌∷◌, All, All-perm, arith, ap, sym,
  ◌∙◌,
}
use flagfish.Scoring.Standings.{Entry, less, insert, rank}

pub less_irrefl : (a : Entry) → less a a ≡ false
unfolding less
less_irrefl a = ground arith

pub less_trans : (a b c : Entry) → less a b ≡ true → less b c ≡ true → less a c ≡ true
unfolding less
less_trans a b c h k = ground arith

-- entries of different accounts are comparable
pub less-total : (a b : Entry) → a.account_id ≢ b.account_id → less a b ≡ false → less b a ≡ true
unfolding less
less-total a b h k = ground arith

pub less-asymm : (a b : Entry) → less a b ≡ true → less b a ≡ false
unfolding less
less-asymm a b h = ground arith

-- Every entry has an account of its own.
abbrev pub Apart : Entry → List Entry → Type 0
Apart x = All (λ y. x.account_id ≢ y.account_id)

abbrev pub IsDistinct : List Entry → Type 0
IsDistinct [] = Unit
IsDistinct (x ∷ xs) = Apart x xs × IsDistinct xs

-- Every entry is strictly before all that follow it.
abbrev pub IsOrdered : List Entry → Type 0
IsOrdered [] = Unit
IsOrdered (x ∷ xs) = All (λ y. less x y ≡ true) xs × IsOrdered xs

-- the order of two insertions does not matter
pub insert_comm :
    (x y : Entry) (l : List Entry)
    → x.account_id ≢ y.account_id
    → insert x (insert y l) ≡ insert y (insert x l)
unfolding insert
insert_comm x y [] h = ground (arith, less-total x y, less-asymm x y)
insert_comm x y (z ∷ l) h = ground (
  arith,
  less-total x y,
  less-asymm x y,
  less-total y x,
  less_trans z x y,
  less_trans z y x,
  insert_comm x y l,
)

pub Apart-perm : (x : Entry) {l₁ l₂ : List Entry} → Permᴰ l₁ l₂ → Apart x l₁ → Apart x l₂
Apart-perm x = All-perm (λ y. x.account_id ≢ y.account_id)

pub IsDistinct-perm : {l₁ l₂ : List Entry} → Permᴰ l₁ l₂ → IsDistinct l₁ → IsDistinct l₂
IsDistinct-perm Permᴰ.nil h = tt
IsDistinct-perm (Permᴰ.cons {a = a} {l₂ = l₂} e p) h =
    (subst (λ x. Apart x l₂) e (Apart-perm a p h.0), IsDistinct-perm p h.1)
IsDistinct-perm (Permᴰ.swap {a = a} {b = b} {l = l} e f) h = (
  (
    λ q. h.0.0 (ap Entry.account_id e ∙ sym q ∙ sym (ap Entry.account_id f)),
    subst (λ x. Apart x l) f h.1.0,
  ),
  (subst (λ x. Apart x l) e h.0.1, h.1.1),
)
IsDistinct-perm (Permᴰ.trans p q) h = IsDistinct-perm q (IsDistinct-perm p h)

-- Sorting entries of different accounts gives one list, whatever the order they come in.
pub rank-perm : {l₁ l₂ : List Entry} → Permᴰ l₁ l₂ → IsDistinct l₁ → rank l₁ ≡ rank l₂
unfolding rank
rank-perm Permᴰ.nil h = refl
rank-perm (Permᴰ.cons e p) h = ap₂ insert e (rank-perm p h.1)
rank-perm (Permᴰ.swap {a = a} {b = b} {l = l} e f) h =
    insert_comm a b (rank l) h.0.0 ∙ ap₂ insert f (ap (λ x. insert x (rank l)) e)
rank-perm (Permᴰ.trans p q) h = rank-perm p h ∙ rank-perm q (IsDistinct-perm p h)

insert-permᴰ : (x : Entry) (l : List Entry) → Permᴰ (insert x l) (x ∷ l)
unfolding insert
insert-permᴰ x [] = Permᴰ.refl (x ∷ [])
insert-permᴰ x (y ∷ l) = elim (Bool-cases (less y x)) [
  | inl before ↦ rw before (Permᴰ.trans (Permᴰ.cons refl (insert-permᴰ x l)) (Permᴰ.swap refl refl))
  | inr after ↦ rw after (Permᴰ.refl (x ∷ y ∷ l))
]

pub rank-permᴰ : (l : List Entry) → Permᴰ (rank l) l
unfolding rank
rank-permᴰ [] = Permᴰ.nil
rank-permᴰ (x ∷ l) = Permᴰ.trans (insert-permᴰ x (rank l)) (Permᴰ.cons refl (rank-permᴰ l))

Before-trans :
    (x y : Entry) (l : List Entry)
    → less x y ≡ true
    → All (λ z. less y z ≡ true) l
    → All (λ z. less x z ≡ true) l
Before-trans x y [] h all = tt
Before-trans x y (z ∷ l) h all = (less_trans x y z h all.0, Before-trans x y l h all.1)

insert-IsOrdered : (x : Entry) (l : List Entry) → Apart x l → IsOrdered l → IsOrdered (insert x l)
unfolding insert
insert-IsOrdered x [] a h = (tt, tt)
insert-IsOrdered x (y ∷ l) a h = elim (Bool-cases (less y x)) [
  | inl before ↦ rw before (
    All-perm (λ z. less y z ≡ true) (Permᴰ.symm (insert-permᴰ x l)) (before, h.0),
    insert-IsOrdered x l a.1 h.1,
  )
  | inr after ↦
      let xy = less-total y x (λ e. a.0 (sym e)) after in
      rw after ((xy, Before-trans x y l xy h.0), h)
]

pub rank-IsOrdered : (l : List Entry) → IsDistinct l → IsOrdered (rank l)
unfolding rank
rank-IsOrdered [] h = tt
rank-IsOrdered (x ∷ l) h =
    insert-IsOrdered x (rank l) (Apart-perm x (Permᴰ.symm (rank-permᴰ l)) h.0)
      (rank-IsOrdered l h.1)
