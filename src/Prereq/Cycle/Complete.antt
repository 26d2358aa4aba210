-- ===== src/Prereq/Cycle/Complete.antt =====
-- When `FindCycle` returns nil there is no cycle through the start: the set that the search leaves
-- is closed under edges and does not lead back.
use mathlib.Core.Path.{subst}
use flagfish.Prelude.{
  ℕ, zero, suc, ◌≡◌, ◌≢◌, refl, sym, ◌∙◌, ◌⊎◌, inl, inr, Bool-cases, true, false, List, [], ◌∷◌,
  ◌++◌, length, ◌==◌, arith,
}
use flagfish.Prereq.Cycle.{
  Edges, targets, member, Search, found, exhausted, out_of_fuel, after, scan, walk, all_targets,
  find_cycle,
}
use flagfish.Prereq.Cycle.Walks.{Edge, Leads, IsCycle, scan-hit, scan-seen, scan-new, member-head}

exhausted-injective : {v w : List ℕ} → exhausted v ≡ exhausted w → v ≡ w
exhausted-injective h = cc

found≢exhausted : {p w : List ℕ} → found p ≢ exhausted w
found≢exhausted h = cc

scan-nil :
    (f : ℕ → List ℕ → Search) (start : ℕ) (path v : List ℕ) → scan f start path [] v ≡ exhausted v
unfolding scan
scan-nil f start path v = refl

pub member-cons :
    (x y : ℕ) (ys : List ℕ) → member x (y ∷ ys) ≡ true → (x ≡ y) ⊎ (member x ys ≡ true)
unfolding member
member-cons x y ys h = ground arith

pub member-tail : (x y : ℕ) (ys : List ℕ) → member x ys ≡ true → member x (y ∷ ys) ≡ true
unfolding member
member-tail x y ys h = ground arith

member-nil : (x : ℕ) → member x [] ≢ true
unfolding member
member-nil x h = cc

module _ (edges : Edges) (start : ℕ) where
  -- every edge out of x ends in the set and not at the start
  abbrev pub IsClosed : List ℕ → ℕ → Type 0
  IsClosed v x = (y : ℕ) → Edge edges x y → (y ≢ start) × (member y v ≡ true)

  abbrev pub Grows : List ℕ → List ℕ → Type 0
  Grows v w = (x : ℕ) → member x v ≡ true → member x w ≡ true

  -- the set has grown from v to w, and what is new in it is closed
  pub record Explored (v w : List ℕ) : Type 0 where
    pub grows : Grows v w
    pub closed : (x : ℕ) → member x w ≡ true → (member x v ≡ true) ⊎ IsClosed w x

  IsClosed-grow : (v w : List ℕ) (x : ℕ) → Grows v w → IsClosed v x → IsClosed w x
  IsClosed-grow v w x g c y e = ((c y e).0, g y (c y e).1)

  abbrev pub IsFaithful : (ℕ → List ℕ → Search) → Type 0
  IsFaithful f = (next : ℕ) (v w : List ℕ) → f next v ≡ exhausted w → Explored v w × IsClosed w next

  Explored-new :
      (next : ℕ) (v u w : List ℕ)
      → Explored (next ∷ v) u × IsClosed u next
      → Explored u w
      → Explored v w
  Explored-new next v u w first then' = record {
    grows = λ x m. then'.grows x (first.0.grows x (member-tail x next v m));
    closed = λ x m. elim (then'.closed x m) [
      | inr c ↦ inr c
      | inl old ↦ elim (first.0.closed x old) [
        | inr c ↦ inr (IsClosed-grow u w x then'.grows c)
        | inl older ↦ elim (member-cons x next v older) [
          | inl e ↦ inr (subst (IsClosed w) (sym e) (IsClosed-grow u w next then'.grows first.1))
          | inr oldest ↦ inl oldest
        ]
      ]
    ];
  }

  -- what an exhausted loop says of the nodes that it went through
  abbrev pub Covers : List ℕ → List ℕ → Type 0
  Covers ns w = (y : ℕ) → member y ns ≡ true → (y ≢ start) × (member y w ≡ true)

  Covers-cons :
      (next : ℕ) (rest w : List ℕ)
      → (next == start) ≡ false
      → member next w ≡ true
      → Covers rest w
      → Covers (next ∷ rest) w
  Covers-cons next rest w miss m c y h = elim (member-cons y next rest h) [
    | inl e ↦ (λ s. ground arith, subst (λ z. member z w ≡ true) (sym e) m)
    | inr older ↦ c y older
  ]

  after-exhausted :
      (r : Search) (k : List ℕ → Search) {w : List ℕ}
      → after r k ≡ exhausted w
      → (u : List ℕ) × (r ≡ exhausted u) × (k u ≡ exhausted w)
  after-exhausted (found q) k h = cc
  after-exhausted (exhausted u) k h = (u, refl, h)
  after-exhausted out_of_fuel k h = cc

  pub scan_faithful :
      (f : ℕ → List ℕ → Search) (path : List ℕ)
      → IsFaithful f
      → (ns v w : List ℕ) → scan f start path ns v ≡ exhausted w
      → Explored v w × Covers ns w
  scan_faithful f path ih [] v w h =
      let e = exhausted-injective (sym (scan-nil f start path v) ∙ h) in
      subst (λ u. Explored v u × Covers [] u) e
        (record { grows = λ x m. m; closed = λ x m. inl m }, λ y m. absurd (member-nil y m))
  scan_faithful f path ih (next ∷ rest) v w h = elim (Bool-cases (next == start)) [
    | inl hit ↦ absurd (found≢exhausted (sym (scan-hit f start path next rest v hit) ∙ h))
    | inr miss ↦ elim (Bool-cases (member next v)) [
      | inl seen ↦
          let (explored, covers) =
            scan_faithful f path ih rest v w
              (sym (scan-seen f start path next rest v miss seen) ∙ h) in
          (explored, Covers-cons next rest w miss (explored.grows next seen) covers)
      | inr new ↦
          let (u, e, k) =
            after-exhausted (f next (next ∷ v)) (scan f start path rest)
              (sym (scan-new f start path next rest v miss new) ∙ h) in
          let first = ih next (next ∷ v) u e in
          let (explored, covers) = scan_faithful f path ih rest u w k in
          (
            Explored-new next v u w first explored,
            Covers-cons next rest w miss
                (explored.grows next (first.0.grows next (member-head next v))) covers,
          )
    ]
  ]

  pub walk_faithful :
      (fuel : ℕ) (path : List ℕ) (from : ℕ) (v w : List ℕ)
      → walk edges start fuel path from v ≡ exhausted w
      → Explored v w × IsClosed w from
  unfolding walk
  walk_faithful zero path from v w h = cc
  walk_faithful (suc fuel) path from v w h =
      scan_faithful (walk edges start fuel (path ++ from ∷ [])) (path ++ from ∷ [])
        (λ next a b k. walk_faithful fuel (path ++ from ∷ []) next a b k) (targets edges from) v w h

  no_way_back :
      (w : List ℕ) (x b : ℕ) (rest : List ℕ) (y : ℕ)
      → ((z : ℕ) → member z w ≡ true → IsClosed w z)
      → IsClosed w x
      → Leads edges x (x ∷ y ∷ rest) b
      → b ≢ start
  no_way_back w x b [] y all c lead e = (c y lead.1).0 (lead.2.1 ∙ e)
  no_way_back w x b (z ∷ rest) y all c lead e =
      no_way_back w y b rest z all (all y (c y lead.1).1) lead.2 e

  -- When the search returns nil, no walk along edges leads from the start back to it.
  pub find_cycle_complete :
      (w : List ℕ) → find_cycle edges start ≡ exhausted w → (p : List ℕ) → ¬ IsCycle edges start p
  unfolding find_cycle
  find_cycle_complete w h [] c = c.0
  find_cycle_complete w h (x ∷ []) c = absurd (omega (arith, c.1))
  find_cycle_complete w h (x ∷ y ∷ rest) c =
      let (explored, closed) = walk_faithful (suc (length (all_targets edges))) [] start [] w h in
      no_way_back w x start rest y
        (λ z m. elim (explored.closed z m) [ inl old ↦ absurd (member-nil z old) | inr new ↦ new ])
        (subst (IsClosed w) (sym c.0.0) closed) (refl, c.0.1, c.0.2) refl
