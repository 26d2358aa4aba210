-- ===== src/Prereq/Cycle/Walks.antt =====
-- What `FindCycle` returns is a cycle through the start.
use mathlib.Core.Path.{subst}
use flagfish.Prelude.{
  ℕ, zero, suc, ◌≤◌, ◌≡◌, ◌≢◌, refl, sym, ◌∙◌, ◌⊎◌, inl, inr, Bool-cases, true, false, List, [],
  ◌∷◌, ◌++◌, All, length, length-append, ◌==◌, ==_iff, arith,
}
use flagfish.Prereq.Cycle.{
  Edges, targets, member, Search, found, exhausted, out_of_fuel, after, scan, walk, all_targets,
  find_cycle,
}

-- an edge of the graph
abbrev pub Edge : Edges → ℕ → ℕ → Type 0
Edge edges x y = member y (targets edges x) ≡ true

-- the list is a walk from a to b along edges, both ends included
abbrev pub Leads : Edges → ℕ → List ℕ → ℕ → Type 0
Leads edges a [] b = ⊥
Leads edges a (x ∷ []) b = (x ≡ a) × (x ≡ b)
Leads edges a (x ∷ y ∷ rest) b = (x ≡ a) × Edge edges x y × Leads edges y (y ∷ rest) b

pub Leads-snoc :
    (edges : Edges) (a b c : ℕ) (xs : List ℕ)
    → Leads edges a xs b
    → Edge edges b c
    → Leads edges a (xs ++ c ∷ []) c
Leads-snoc edges a b c [] h e = absurd h
Leads-snoc edges a b c (x ∷ []) h e = (h.0, subst (λ z. Edge edges z c) (sym h.1) e, (refl, refl))
Leads-snoc edges a b c (x ∷ y ∷ rest) h e = (h.0, h.1, Leads-snoc edges y b c (y ∷ rest) h.2 e)

-- the result of each case of the loop
module _ (w : ℕ → List ℕ → Search) (start : ℕ) (path : List ℕ) (next : ℕ)
    (rest visited : List ℕ) where
  pub scan-hit :
      (next == start) ≡ true → scan w start path (next ∷ rest) visited ≡ found (path ++ start ∷ [])
  unfolding scan
  scan-hit h = rw (h, scan)

  pub scan-seen :
      (next == start) ≡ false
      → member next visited ≡ true
      → scan w start path (next ∷ rest) visited ≡ scan w start path rest visited
  unfolding scan
  scan-seen h m = rw (h, m, scan)

  pub scan-new :
      (next == start) ≡ false
      → member next visited ≡ false
      → scan w start path (next ∷ rest) visited
        ≡ after (w next (next ∷ visited)) (scan w start path rest)
  unfolding scan
  scan-new h m = rw (h, m, scan)

pub member-head : (x : ℕ) (xs : List ℕ) → member x (x ∷ xs) ≡ true
unfolding member
member-head x xs = ground arith

found-injective : {p q : List ℕ} → found p ≡ found q → p ≡ q
found-injective h = cc

out_of_fuel≢found : (p : List ℕ) → out_of_fuel ≢ found p
out_of_fuel≢found p h = cc

scan-nil :
    (w : ℕ → List ℕ → Search) (start : ℕ) (path visited p : List ℕ)
    → scan w start path [] visited ≢ found p
unfolding scan
scan-nil w start path visited p h = cc

All-weaken :
    (x : ℕ) (ts us : List ℕ)
    → All (λ t. member t ts ≡ true) us
    → All (λ t. member t (x ∷ ts) ≡ true) us
unfolding member
All-weaken x ts [] h = tt
All-weaken x ts (u ∷ us) h = (ground arith, All-weaken x ts us h.1)

pub member-All : (ts : List ℕ) → All (λ t. member t ts ≡ true) ts
member-All [] = tt
member-All (t ∷ ts) = (member-head t ts, All-weaken t ts ts (member-All ts))

module _ (edges : Edges) (start : ℕ) where
  -- a walk from the start back to it, along at least one edge
  abbrev pub IsCycle : List ℕ → Type 0
  IsCycle p = Leads edges start p start × (2 ≤ length p)

  -- what is asked of the recursive call made from the end of a walk
  abbrev IsSound : (ℕ → List ℕ → Search) → ℕ → Type 0
  IsSound w from =
      (next : ℕ) (visited p : List ℕ) → Edge edges from next → w next visited ≡ found p → IsCycle p

  Leads-pos : (a b : ℕ) (xs : List ℕ) → Leads edges a xs b → 1 ≤ length xs
  Leads-pos a b [] h = absurd h
  Leads-pos a b (x ∷ xs) h = omega arith

  after-found :
      (r : Search) (k : List ℕ → Search) {p : List ℕ}
      → after r k ≡ found p
      → (r ≡ found p) ⊎ ((v : List ℕ) × (r ≡ exhausted v) × (k v ≡ found p))
  after-found (found q) k h = inl h
  after-found (exhausted v) k h = inr (v, refl, h)
  after-found out_of_fuel k h = cc

  scan_sound :
      (w : ℕ → List ℕ → Search) (from : ℕ) (path : List ℕ)
      → Leads edges start path from
      → IsSound w from
      → (ns visited p : List ℕ) → All (Edge edges from) ns
      → scan w start path ns visited ≡ found p
      → IsCycle p
  scan_sound w from path lead sound [] visited p es h = absurd (scan-nil w start path visited p h)
  scan_sound w from path lead sound (next ∷ rest) visited p es h =
      elim (Bool-cases (next == start)) [
        | inl hit ↦
            let e : path ++ start ∷ [] ≡ p =
              found-injective (sym (scan-hit w start path next rest visited hit) ∙ h) in
            subst IsCycle e (
              Leads-snoc edges start from start path lead
                  (subst (Edge edges from) ((==_iff next start).0 hit) es.0),
              omega (arith, length-append path (start ∷ []), Leads-pos start from path lead),
            )
        | inr miss ↦ elim (Bool-cases (member next visited)) [
          | inl seen ↦
              scan_sound w from path lead sound rest visited p es.1
                (sym (scan-seen w start path next rest visited miss seen) ∙ h)
          | inr new ↦
              elim (after-found (w next (next ∷ visited)) (scan w start path rest)
                (sym (scan-new w start path next rest visited miss new) ∙ h)) [
                  | inl deep ↦ sound next (next ∷ visited) p es.0 deep
                  | inr (v, e, k) ↦ scan_sound w from path lead sound rest v p es.1 k
                ]
        ]
      ]

  walk_sound :
      (fuel : ℕ) (path : List ℕ) (from : ℕ) (visited p : List ℕ)
      → Leads edges start (path ++ from ∷ []) from
      → walk edges start fuel path from visited ≡ found p
      → IsCycle p
  unfolding walk
  walk_sound zero path from visited p lead h = absurd (out_of_fuel≢found p h)
  walk_sound (suc fuel) path from visited p lead h =
      scan_sound (walk edges start fuel (path ++ from ∷ [])) from (path ++ from ∷ []) lead
        (λ next v q e k.
          walk_sound fuel (path ++ from ∷ []) next v q
            (Leads-snoc edges start from next (path ++ from ∷ []) lead e) k)
        (targets edges from) visited p (member-All (targets edges from)) h

-- A path that `FindCycle` returns leads from the start back to it along edges of the graph, over at
-- least one edge.
pub find_cycle_sound :
    (edges : Edges) (start : ℕ) (p : List ℕ)
    → find_cycle edges start ≡ found p
    → Leads edges start p start × (2 ≤ length p)
unfolding find_cycle
find_cycle_sound edges start p h =
    walk_sound edges start (suc (length (all_targets edges))) [] start [] p (refl, refl) h
