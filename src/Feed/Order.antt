-- ===== src/Feed/Order.antt =====
-- ORDER BY id with a LIMIT, on a table whose ids are unique.
use flagfish.Prelude.{
  ℕ, zero, suc, ◌≤◌, ◌<◌, ◌≡◌, ◌≢◌, ◌↔◌, ◌⊎◌, inl, inr, refl, sym, ap, List, [], ◌∷◌, ◌++◌, All,
  arith, leb, length, Bool-cases,
}
use mathlib.Core.Path.{subst}
use flagfish.Rows.{select}
use flagfish.Feed.Pump.{
  Notification, is_after, take_up_to, insert_by_id, order_by_id, after, catch_up_limit,
}

abbrev pub In : Notification → List Notification → Type 0
In n [] = ⊥
In n (x ∷ xs) = (n ≡ x) ⊎ In n xs

-- the primary key
abbrev pub Distinct : List Notification → Type 0
Distinct [] = Unit
Distinct (n ∷ ns) = All (λ x. x.id ≢ n.id) ns × Distinct ns

abbrev pub IsAscending : List Notification → Type 0
IsAscending [] = Unit
IsAscending (n ∷ ns) = All (λ x. n.id < x.id) ns × IsAscending ns

-- `news` and then `rest` are the rows above the mark, in the order of their ids, and `news` is all of
-- them or a hundred
pub record Replayed (rows : List Notification) (mark : ℕ) (news rest : List Notification)
    : Type 0 where
  pub ascending : IsAscending (news ++ rest)
  pub exact : (n : Notification) → In n (news ++ rest) ↔ (In n rows × (mark < n.id))
  pub capped : length news ≤ catch_up_limit
  pub whole : (rest ≡ []) ⊎ (length news ≡ catch_up_limit)

In-insert_by_id :
    (n x : Notification) (xs : List Notification) → In n (insert_by_id x xs) ↔ ((n ≡ x) ⊎ In n xs)
unfolding insert_by_id
In-insert_by_id n x [] = ground arith
In-insert_by_id n x (y ∷ ys) = ground (arith, In-insert_by_id n x ys)

In-order_by_id : (n : Notification) (xs : List Notification) → In n (order_by_id xs) ↔ In n xs
unfolding order_by_id
In-order_by_id n [] = ground arith
In-order_by_id n (x ∷ xs) =
    ground (arith, In-insert_by_id n x (order_by_id xs), In-order_by_id n xs)

All-insert_by_id :
    (P : Notification → Type 0) (x : Notification) (xs : List Notification)
    → P x
    → All P xs
    → All P (insert_by_id x xs)
unfolding insert_by_id
All-insert_by_id P x [] p ps = (p, tt)
All-insert_by_id P x (y ∷ ys) p ps = elim (Bool-cases (leb x.id y.id)) [
  | inl e ↦ rw e (p, ps)
  | inr e ↦ rw e (ps.0, All-insert_by_id P x ys p ps.1)
]

All-order_by_id :
    (P : Notification → Type 0) (xs : List Notification) → All P xs → All P (order_by_id xs)
unfolding order_by_id
All-order_by_id P [] ps = tt
All-order_by_id P (x ∷ xs) ps =
    All-insert_by_id P x (order_by_id xs) ps.0 (All-order_by_id P xs ps.1)

All-inserted :
    (P : Notification → Type 0) (x : Notification) (xs : List Notification)
    → All P (insert_by_id x xs)
    → P x × All P xs
unfolding insert_by_id
All-inserted P x [] ps = (ps.0, tt)
All-inserted P x (y ∷ ys) ps = elim (Bool-cases (leb x.id y.id)) [
  | inl e ↦
      let opened : insert_by_id x (y ∷ ys) ≡ x ∷ y ∷ ys = rw e refl in
      let all : All P (x ∷ y ∷ ys) = subst (All P) opened ps in all
  | inr e ↦
      let opened : insert_by_id x (y ∷ ys) ≡ y ∷ insert_by_id x ys = rw e refl in
      let all : All P (y ∷ insert_by_id x ys) = subst (All P) opened ps in
      let more = All-inserted P x ys all.1 in (more.0, (all.0, more.1))
]

pub All-ordered :
    (P : Notification → Type 0) (xs : List Notification) → All P (order_by_id xs) → All P xs
unfolding order_by_id
All-ordered P [] ps = tt
All-ordered P (x ∷ xs) ps =
    let parts = All-inserted P x (order_by_id xs) ps in (parts.0, All-ordered P xs parts.1)

All-weaken :
    (P Q : Notification → Type 0) (xs : List Notification)
    → ((x : Notification) → P x → Q x)
    → All P xs
    → All Q xs
All-weaken P Q [] f ps = tt
All-weaken P Q (x ∷ xs) f ps = (f x ps.0, All-weaken P Q xs f ps.1)

above :
    (n : ℕ) (x : Notification) (xs : List Notification)
    → n ≤ x.id
    → All (λ y. x.id < y.id) xs
    → All (λ y. n < y.id) xs
above n x [] h ps = tt
above n x (y ∷ ys) h ps = (omega (arith, h, ps.0), above n x ys h ps.1)

insert_by_id-IsAscending :
    (x : Notification) (xs : List Notification)
    → IsAscending xs
    → All (λ y. y.id ≢ x.id) xs
    → IsAscending (insert_by_id x xs)
unfolding insert_by_id
insert_by_id-IsAscending x [] up new = (tt, tt)
insert_by_id-IsAscending x (y ∷ ys) up new = elim (Bool-cases (leb x.id y.id)) [
  | inl e ↦
      let below : x.id < y.id = ground (arith, e, new.0) in
      rw e ((below, above x.id y ys (omega (arith, below)) up.0), up)
  | inr e ↦
      let over : y.id < x.id = ground (arith, e) in
      rw e (
        All-insert_by_id (λ z. y.id < z.id) x ys over up.0,
        insert_by_id-IsAscending x ys up.1 new.1,
      )
]

order_by_id-IsAscending : (xs : List Notification) → Distinct xs → IsAscending (order_by_id xs)
unfolding order_by_id
order_by_id-IsAscending [] d = tt
order_by_id-IsAscending (x ∷ xs) d =
    insert_by_id-IsAscending x (order_by_id xs) (order_by_id-IsAscending xs d.1)
      (All-order_by_id (λ y. y.id ≢ x.id) xs d.0)

All-select :
    (P : Notification → Type 0) (m : ℕ) (xs : List Notification)
    → All P xs
    → All P (select (is_after m) xs)
unfolding select
All-select P m [] ps = tt
All-select P m (x ∷ xs) ps = elim (Bool-cases (is_after m x)) [
  | inl e ↦ rw e (ps.0, All-select P m xs ps.1)
  | inr e ↦ rw e (All-select P m xs ps.1)
]

select-Distinct : (m : ℕ) (xs : List Notification) → Distinct xs → Distinct (select (is_after m) xs)
unfolding select
select-Distinct m [] d = tt
select-Distinct m (x ∷ xs) d = elim (Bool-cases (is_after m x)) [
  | inl e ↦ rw e (All-select (λ y. y.id ≢ x.id) m xs d.0, select-Distinct m xs d.1)
  | inr e ↦ rw e (select-Distinct m xs d.1)
]

In-select :
    (n : Notification) (m : ℕ) (xs : List Notification)
    → In n (select (is_after m) xs) ↔ (In n xs × (m < n.id))
unfolding select
In-select n m [] = ground arith
In-select n m (x ∷ xs) = elim (Bool-cases (is_after m x)) [
  | inl e ↦
      let over : m < x.id = ground (arith, e) in
      rw e (
        (λ i. elim i [
          | inl same ↦ (inl same, subst (λ y. m < y.id) (sym same) over)
          | inr there ↦ let (k, h) = (In-select n m xs).0 there in (inr k, h)
        ]),
        (λ i. elim i.0 [
          | inl same ↦ inl same
          | inr there ↦ inr ((In-select n m xs).1 (there, i.1))
        ]),
      )
  | inr e ↦
      let under : x.id ≤ m = ground (arith, e) in
      rw e (
        (λ i. let (k, h) = (In-select n m xs).0 i in (inr k, h)),
        (λ i. elim i.0 [
          | inl same ↦
              let bad : m < x.id = subst (λ y. m < y.id) same i.1 in
              absurd (omega (arith, under, bad))
          | inr there ↦ (In-select n m xs).1 (there, i.1)
        ]),
      )
]

both_ways : {A B C : Type 0} → A ↔ B → B ↔ C → A ↔ C
both_ways f g = ((λ a. g.0 (f.0 a)), (λ c. f.1 (g.1 c)))

abbrev skip : ℕ → List Notification → List Notification
skip zero xs = xs
skip (suc k) [] = []
skip (suc k) (x ∷ xs) = skip k xs

take-skip : (k : ℕ) (xs : List Notification) → take_up_to k xs ++ skip k xs ≡ xs
unfolding take_up_to
take-skip zero xs = refl
take-skip (suc k) [] = refl
take-skip (suc k) (x ∷ xs) = ap (λ ys. x ∷ ys) (take-skip k xs)

take_whole :
    (k : ℕ) (xs : List Notification)
    → (length (take_up_to k xs) ≤ k) × ((skip k xs ≡ []) ⊎ (length (take_up_to k xs) ≡ k))
unfolding take_up_to
take_whole zero xs = (omega arith, inr refl)
take_whole (suc k) [] = (omega arith, inl refl)
take_whole (suc k) (x ∷ xs) = ground (arith, take_whole k xs)

-- What After returns on a table whose ids are unique.
pub after-Replayed :
    (rows : List Notification) (mark : ℕ)
    → Distinct rows
    → (rest : List Notification) × Replayed rows mark (after rows mark catch_up_limit) rest
unfolding after
after-Replayed rows mark d =
    let picked : List Notification = select (is_after mark) rows in
    let parts = take-skip catch_up_limit (order_by_id picked) in
    let bounds = take_whole catch_up_limit (order_by_id picked) in
    (
      skip catch_up_limit (order_by_id picked),
      record {
        ascending =
            subst IsAscending (sym parts)
              (order_by_id-IsAscending picked (select-Distinct mark rows d));
        exact = λ n.
            subst (λ (xs : List Notification). In n xs ↔ (In n rows × (mark < n.id))) (sym parts)
              (both_ways (In-order_by_id n picked) (In-select n mark rows));
        capped = bounds.0;
        whole = bounds.1;
      },
    )
