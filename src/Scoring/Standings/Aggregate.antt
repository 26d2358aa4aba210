-- ===== src/Scoring/Standings/Aggregate.antt =====
-- The accumulation of `Aggregate`: entries keep distinct accounts, and two events may be taken in
-- either order.
use mathlib.Core.Path.{subst, subst₂}
use mathlib.Core.List.{Permᴰ}
use mathlib.Core.List.Permᴰ
use flagfish.Prelude.{
  ℕ, ◌≡◌, ◌≢◌, refl, ap, sym, ◌∙◌, inl, inr, Bool, Bool-cases, true, false, List, [], ◌∷◌, arith,
  ◌==◌, ==_iff, not, if◌then◌else◌,
}
use flagfish.Prelude.Int.{ℤ, add64, wrap, ◌+ℤ◌, wrap-add, +ℤ_right_comm}
use flagfish.Scoring.Standings.{
  Event, Entry, counts, credit, fresh, bump, aggregate_from, aggregate,
}
use flagfish.Scoring.Standings.Order.{Apart, IsDistinct, IsDistinct-perm}

add64_right_comm : (a b c : ℤ) → add64 (add64 a b) c ≡ add64 (add64 a c) b
unfolding add64
add64_right_comm a b c =
    wrap-add (a +ℤ b) c ∙ ap wrap (+ℤ_right_comm a b c) ∙ sym (wrap-add (a +ℤ c) b)

credit_comm : (e f : Event) (x : Entry) → credit e (credit f x) ≡ credit f (credit e x)
unfolding credit
credit_comm e f x = ground (arith, add64_right_comm x.score e.value f.value)

bump-Apart :
    (x : Entry) (ev : Event) (l : List Entry)
    → x.account_id ≢ ev.account_id
    → Apart x l
    → Apart x (bump ev l)
unfolding bump
bump-Apart x ev [] h a = (h, tt)
bump-Apart x ev (e ∷ l) h a = ground (arith, bump-Apart x ev l h)

credit-Apart : (ev : Event) (e : Entry) (l : List Entry) → Apart e l → Apart (credit ev e) l
unfolding credit
credit-Apart ev e [] a = tt
credit-Apart ev e (x ∷ l) a = (a.0, credit-Apart ev e l a.1)

bump-IsDistinct : (ev : Event) (l : List Entry) → IsDistinct l → IsDistinct (bump ev l)
unfolding bump
bump-IsDistinct ev [] d = (tt, tt)
bump-IsDistinct ev (e ∷ l) d = elim (Bool-cases (e.account_id == ev.account_id)) [
  | inl same ↦ rw same (credit-Apart ev e l d.0, d.1)
  | inr apart ↦ rw apart (bump-Apart e ev l (ground arith) d.0, bump-IsDistinct ev l d.1)
]

module _ (ev : Event) (x : Entry) (l : List Entry) where
  bump-hit : (x.account_id == ev.account_id) ≡ true → bump ev (x ∷ l) ≡ credit ev x ∷ l
  unfolding bump
  bump-hit h = rw h

  bump-miss : (x.account_id == ev.account_id) ≡ false → bump ev (x ∷ l) ≡ x ∷ bump ev l
  unfolding bump
  bump-miss h = rw h

bump-nil : (ev : Event) → bump ev [] ≡ credit ev (fresh ev.account_id) ∷ []
unfolding bump
bump-nil ev = refl

==_sym : (a b : ℕ) {r : Bool} → (a == b) ≡ r → (b == a) ≡ r
==_sym a b h = ground arith

bump_comm_nil : (e f : Event) → Permᴰ (bump e (bump f [])) (bump f (bump e []))
unfolding credit
bump_comm_nil e f =
    let x = fresh f.account_id in
    let y = fresh e.account_id in
    rw (bump-nil f, bump-nil e)
      (elim (Bool-cases (f.account_id == e.account_id)) [
        | inl same ↦
            rw (bump-hit e (credit f x) [] same, bump-hit f (credit e y) [] (==_sym _ _ same))
              (Permᴰ.cons
                (credit_comm e f x ∙ ap (λ n. credit f (credit e (fresh n))) ((==_iff _ _).0 same))
                Permᴰ.nil)
        | inr apart ↦
            rw (bump-miss e (credit f x) [] apart, bump-miss f (credit e y) [] (==_sym _ _ apart))
              (rw (bump-nil f, bump-nil e) (Permᴰ.swap refl refl))
      ])

bump_comm : (e f : Event) (l : List Entry) → Permᴰ (bump e (bump f l)) (bump f (bump e l))
unfolding credit
bump_comm e f [] = bump_comm_nil e f
bump_comm e f (x ∷ l) =
    let again = bump_comm e f l in
    elim (Bool-cases (x.account_id == f.account_id)) [
      | inl hf ↦ elim (Bool-cases (x.account_id == e.account_id)) [
        | inl he ↦
            rw (bump-hit f x l hf, bump-hit e x l he)
              (rw (bump-hit e (credit f x) l he, bump-hit f (credit e x) l hf)
                (Permᴰ.cons (credit_comm e f x) (Permᴰ.refl l)))
        | inr me ↦
            rw (bump-hit f x l hf, bump-miss e x l me)
              (rw (bump-miss e (credit f x) l me, bump-hit f x (bump e l) hf) (Permᴰ.refl _))
      ]
      | inr mf ↦ elim (Bool-cases (x.account_id == e.account_id)) [
        | inl he ↦
            rw (bump-miss f x l mf, bump-hit e x l he)
              (rw (bump-hit e x (bump f l) he, bump-miss f (credit e x) l mf) (Permᴰ.refl _))
        | inr me ↦
            rw (bump-miss f x l mf, bump-miss e x l me)
              (rw (bump-miss e x (bump f l) me, bump-miss f x (bump e l) mf)
                (Permᴰ.cons refl again))
      ]
    ]

bump-cons :
    (ev : Event) (x : Entry) {l₁ l₂ : List Entry}
    → Permᴰ l₁ l₂
    → Permᴰ (bump ev l₁) (bump ev l₂)
    → Permᴰ (bump ev (x ∷ l₁)) (bump ev (x ∷ l₂))
bump-cons ev x {l₁} {l₂} p q = elim (Bool-cases (x.account_id == ev.account_id)) [
  | inl hit ↦ rw (bump-hit ev x l₁ hit, bump-hit ev x l₂ hit) (Permᴰ.cons refl p)
  | inr miss ↦ rw (bump-miss ev x l₁ miss, bump-miss ev x l₂ miss) (Permᴰ.cons refl q)
]

bump-swap :
    (ev : Event) (x y : Entry) (l : List Entry)
    → x.account_id ≢ y.account_id
    → Permᴰ (bump ev (x ∷ y ∷ l)) (bump ev (y ∷ x ∷ l))
bump-swap ev x y l h = elim (Bool-cases (x.account_id == ev.account_id)) [
  | inl hx ↦
      rw (bump-hit ev x (y ∷ l) hx, bump-miss ev y (x ∷ l) (ground arith))
        (rw (bump-hit ev x l hx) (Permᴰ.swap refl refl))
  | inr mx ↦ elim (Bool-cases (y.account_id == ev.account_id)) [
    | inl hy ↦
        rw (bump-miss ev x (y ∷ l) mx, bump-hit ev y (x ∷ l) hy)
          (rw (bump-hit ev y l hy) (Permᴰ.swap refl refl))
    | inr my ↦
        rw (bump-miss ev x (y ∷ l) mx, bump-miss ev y (x ∷ l) my)
          (rw (bump-miss ev y l my, bump-miss ev x l mx) (Permᴰ.swap refl refl))
  ]
]

bump-perm :
    (ev : Event) {l₁ l₂ : List Entry}
    → Permᴰ l₁ l₂
    → IsDistinct l₁
    → Permᴰ (bump ev l₁) (bump ev l₂)
bump-perm ev Permᴰ.nil d = Permᴰ.refl (bump ev [])
bump-perm ev (Permᴰ.cons {a = a} {l₁ = l₁} {l₂ = l₂} e p) d =
    subst (λ b. Permᴰ (bump ev (a ∷ l₁)) (bump ev (b ∷ l₂))) e
      (bump-cons ev a p (bump-perm ev p d.1))
bump-perm ev (Permᴰ.swap {a = a} {b = b} {l = l} e f) d =
    subst₂ (λ x y. Permᴰ (bump ev (a ∷ b ∷ l)) (bump ev (y ∷ x ∷ l))) e f (bump-swap ev a b l d.0.0)
bump-perm ev (Permᴰ.trans p q) d =
    Permᴰ.trans (bump-perm ev p d) (bump-perm ev q (IsDistinct-perm p d))

-- one event, counted or not
absorb : Event → List Entry → List Entry
absorb ev l = if not (counts ev) then l else bump ev l

absorb-IsDistinct : (ev : Event) (l : List Entry) → IsDistinct l → IsDistinct (absorb ev l)
unfolding absorb
absorb-IsDistinct ev l d = ground (arith, bump-IsDistinct ev l d)

absorb-perm :
    (ev : Event) {l₁ l₂ : List Entry}
    → Permᴰ l₁ l₂
    → IsDistinct l₁
    → Permᴰ (absorb ev l₁) (absorb ev l₂)
unfolding absorb
absorb-perm ev {l₁} {l₂} p d =
    elim (counts ev)
      as (λ b. Permᴰ (if not b then l₁ else bump ev l₁) (if not b then l₂ else bump ev l₂)) [
        | true ↦ bump-perm ev p d
        | false ↦ p
      ]

absorb_comm : (e f : Event) (l : List Entry) → Permᴰ (absorb e (absorb f l)) (absorb f (absorb e l))
unfolding absorb
absorb_comm e f l = elim (Bool-cases (counts e)) [
  | inl ce ↦ elim (Bool-cases (counts f)) [
    | inl cf ↦ rw (ce, cf) (bump_comm e f l)
    | inr nf ↦ rw (ce, nf) (Permᴰ.refl (bump e l))
  ]
  | inr ne ↦ rw ne (Permᴰ.refl _)
]

aggregate_from-absorb :
    (l : List Entry) (ev : Event) (evs : List Event)
    → aggregate_from l (ev ∷ evs) ≡ aggregate_from (absorb ev l) evs
unfolding aggregate_from absorb
aggregate_from-absorb l ev evs = refl

aggregate_from-IsDistinct :
    (l : List Entry) (evs : List Event) → IsDistinct l → IsDistinct (aggregate_from l evs)
unfolding aggregate_from
aggregate_from-IsDistinct l [] d = d
aggregate_from-IsDistinct l (ev ∷ evs) d =
    rw (aggregate_from-absorb l ev evs)
      (aggregate_from-IsDistinct (absorb ev l) evs (absorb-IsDistinct ev l d))

-- the order of the entries so far does not matter
aggregate_from-perm :
    (evs : List Event) {l₁ l₂ : List Entry}
    → Permᴰ l₁ l₂
    → IsDistinct l₁
    → Permᴰ (aggregate_from l₁ evs) (aggregate_from l₂ evs)
unfolding aggregate_from
aggregate_from-perm [] p d = p
aggregate_from-perm (ev ∷ evs) {l₁} {l₂} p d =
    rw (aggregate_from-absorb l₁ ev evs, aggregate_from-absorb l₂ ev evs)
      (aggregate_from-perm evs (absorb-perm ev p d) (absorb-IsDistinct ev l₁ d))

-- nor does the order of the events
events-perm :
    {e₁ e₂ : List Event}
    → Permᴰ e₁ e₂
    → (l : List Entry) → IsDistinct l
    → Permᴰ (aggregate_from l e₁) (aggregate_from l e₂)
events-perm Permᴰ.nil l d = Permᴰ.refl (aggregate_from l [])
events-perm (Permᴰ.cons {a = a} {l₁ = l₁} {l₂ = l₂} e p) l d =
    subst (λ b. Permᴰ (aggregate_from l (a ∷ l₁)) (aggregate_from l (b ∷ l₂))) e
      (rw (aggregate_from-absorb l a l₁, aggregate_from-absorb l a l₂)
        (events-perm p (absorb a l) (absorb-IsDistinct a l d)))
events-perm (Permᴰ.swap {a = a} {b = b} {l = r} e f) l d =
    subst₂ (λ x y. Permᴰ (aggregate_from l (a ∷ b ∷ r)) (aggregate_from l (y ∷ x ∷ r))) e f
      (rw (aggregate_from-absorb l a (b ∷ r), aggregate_from-absorb l b (a ∷ r))
        (rw (aggregate_from-absorb (absorb a l) b r, aggregate_from-absorb (absorb b l) a r)
          (aggregate_from-perm r (absorb_comm b a l)
            (absorb-IsDistinct b (absorb a l) (absorb-IsDistinct a l d)))))
events-perm (Permᴰ.trans p q) l d = Permᴰ.trans (events-perm p l d) (events-perm q l d)

pub aggregate-IsDistinct : (evs : List Event) → IsDistinct (aggregate evs)
unfolding aggregate
aggregate-IsDistinct evs = aggregate_from-IsDistinct [] evs tt

pub aggregate-perm : {e₁ e₂ : List Event} → Permᴰ e₁ e₂ → Permᴰ (aggregate e₁) (aggregate e₂)
unfolding aggregate
aggregate-perm p = events-perm p [] tt
