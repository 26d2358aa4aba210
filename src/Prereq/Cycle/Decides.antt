-- ===== src/Prereq/Cycle/Decides.antt =====
-- The fuel suffices, so the search decides whether a cycle goes through the start.
use flagfish.Prelude.{
  ℕ, zero, suc, ◌≤◌, ◌<◌, ◌≡◌, ◌≢◌, refl, sym, ◌∙◌, ◌⊎◌, inl, inr, Bool-cases, true, false, List,
  [], ◌∷◌, ◌++◌, All, length, ◌==◌, arith, if◌then◌else◌,
}
use flagfish.Prereq.Cycle.{
  Edges, targets, member, Search, found, exhausted, out_of_fuel, after, scan, walk, all_targets,
  find_cycle,
}
use flagfish.Prereq.Cycle.Walks.{
  IsCycle, scan-hit, scan-seen, scan-new, find_cycle_sound, member-head,
}
use flagfish.Prereq.Cycle.Complete.{IsFaithful, walk_faithful, find_cycle_complete, member-tail}

-- the nodes of a list that are not in the set
unmarked : List ℕ → List ℕ → ℕ
unmarked v [] = 0
unmarked v (x ∷ xs) = if member x v then unmarked v xs else suc (unmarked v xs)

unmarked-grow :
    (v w us : List ℕ)
    → ((x : ℕ) → member x v ≡ true → member x w ≡ true)
    → unmarked w us ≤ unmarked v us
unfolding unmarked
unmarked-grow v w [] g = omega arith
unmarked-grow v w (u ∷ us) g = ground (arith, g u, unmarked-grow v w us g)

unmarked-nil : (us : List ℕ) → unmarked [] us ≡ length us
unfolding unmarked member
unmarked-nil [] = refl
unmarked-nil (u ∷ us) = ground (arith, unmarked-nil us)

-- marking a node of the list leaves fewer
unmarked-mark :
    (n : ℕ) (v us : List ℕ)
    → member n us ≡ true
    → member n v ≡ false
    → unmarked (n ∷ v) us < unmarked v us
unfolding unmarked member
unmarked-mark n v [] m new = cc
unmarked-mark n v (u ∷ us) m new = elim (Bool-cases (u == n)) [
  | inl same ↦ ground (arith, new, unmarked-grow v (n ∷ v) us (λ x h. member-tail x n v h))
  | inr apart ↦ ground (arith, unmarked-mark n v us)
]

exhausted≢out_of_fuel : {v : List ℕ} → exhausted v ≢ out_of_fuel
exhausted≢out_of_fuel h = cc

found≢out_of_fuel : {p : List ℕ} → found p ≢ out_of_fuel
found≢out_of_fuel h = cc

Search-cases :
    (r : Search)
    → ((p : List ℕ) × (r ≡ found p)) ⊎ (((v : List ℕ) × (r ≡ exhausted v)) ⊎ (r ≡ out_of_fuel))
Search-cases (found p) = inl (p, refl)
Search-cases (exhausted v) = inr (inl (v, refl))
Search-cases out_of_fuel = inr (inr refl)

after-out_of_fuel :
    (r : Search) (k : List ℕ → Search)
    → after r k ≡ out_of_fuel
    → (r ≡ out_of_fuel) ⊎ ((u : List ℕ) × (r ≡ exhausted u) × (k u ≡ out_of_fuel))
after-out_of_fuel (found p) k h = cc
after-out_of_fuel (exhausted u) k h = inr (u, refl, h)
after-out_of_fuel out_of_fuel k h = inl refl

scan-nil-total :
    (f : ℕ → List ℕ → Search) (start : ℕ) (path v : List ℕ) → scan f start path [] v ≢ out_of_fuel
unfolding scan
scan-nil-total f start path v h = cc

member-left : (x : ℕ) (xs ys : List ℕ) → member x xs ≡ true → member x (xs ++ ys) ≡ true
unfolding member
member-left x [] ys h = cc
member-left x (z ∷ xs) ys h = ground (arith, member-left x xs ys)

member-right : (x : ℕ) (xs ys : List ℕ) → member x ys ≡ true → member x (xs ++ ys) ≡ true
unfolding member
member-right x [] ys h = h
member-right x (z ∷ xs) ys h = ground (arith, member-right x xs ys h)

targets_inside :
    (edges : Edges) (from x : ℕ)
    → member x (targets edges from) ≡ true
    → member x (all_targets edges) ≡ true
unfolding targets all_targets
targets_inside [] from x h = h
targets_inside ((k, ts) ∷ rows) from x h = elim (Bool-cases (k == from)) [
  | inl here ↦ member-left x ts (all_targets rows) (ground (arith, here, h))
  | inr there ↦
      member-right x ts (all_targets rows) (targets_inside rows from x (ground (arith, there, h)))
]

All-member :
    (ts us : List ℕ)
    → ((x : ℕ) → member x ts ≡ true → member x us ≡ true)
    → All (λ n. member n us ≡ true) ts
All-member [] us g = tt
All-member (t ∷ ts) us g =
    (g t (member-head t ts), All-member ts us (λ x m. g x (member-tail x t ts m)))

module _ (edges : Edges) (start : ℕ) where
  abbrev universe : List ℕ
  universe = all_targets edges

  abbrev Total : (ℕ → List ℕ → Search) → ℕ → Type 0
  Total f fuel = (next : ℕ) (v : List ℕ) → unmarked v universe < fuel → f next v ≢ out_of_fuel

  scan-Total :
      (f : ℕ → List ℕ → Search) (fuel : ℕ) (path : List ℕ)
      → Total f fuel
      → IsFaithful edges start f
      → (ns v : List ℕ) → All (λ n. member n universe ≡ true) ns
      → unmarked v universe ≤ fuel
      → scan f start path ns v ≢ out_of_fuel
  scan-Total f fuel path total faithful [] v inside room h = scan-nil-total f start path v h
  scan-Total f fuel path total faithful (next ∷ rest) v inside room h =
      elim (Bool-cases (next == start)) [
        | inl hit ↦ found≢out_of_fuel (sym (scan-hit f start path next rest v hit) ∙ h)
        | inr miss ↦ elim (Bool-cases (member next v)) [
          | inl seen ↦
              scan-Total f fuel path total faithful rest v inside.1 room
                (sym (scan-seen f start path next rest v miss seen) ∙ h)
          | inr new ↦
              let fewer = unmarked-mark next v universe inside.0 new in
              elim (after-out_of_fuel (f next (next ∷ v)) (scan f start path rest)
                (sym (scan-new f start path next rest v miss new) ∙ h)) [
                  | inl stop ↦ total next (next ∷ v) (omega (arith, fewer, room)) stop
                  | inr (u, e, k) ↦
                      let grown =
                        unmarked-grow (next ∷ v) u universe
                          (faithful next (next ∷ v) u e).0.grows in
                      scan-Total f fuel path total faithful rest u inside.1
                        (omega (arith, fewer, room, grown)) k
                ]
        ]
      ]

  walk_total :
      (fuel : ℕ) (path : List ℕ) (from : ℕ) (v : List ℕ)
      → unmarked v universe < fuel
      → walk edges start fuel path from v ≢ out_of_fuel
  unfolding walk
  walk_total zero path from v room h = absurd (omega (arith, room))
  walk_total (suc fuel) path from v room h =
      scan-Total (walk edges start fuel (path ++ from ∷ [])) fuel (path ++ from ∷ [])
        (λ next u r. walk_total fuel (path ++ from ∷ []) next u r)
        (λ next u w e. walk_faithful edges start fuel (path ++ from ∷ []) next u w e)
        (targets edges from) v
        (All-member (targets edges from) universe (targets_inside edges from)) (omega (arith, room))
        h

  find_cycle_total : find_cycle edges start ≢ out_of_fuel
  unfolding find_cycle
  find_cycle_total h =
      walk_total (suc (length universe)) [] start [] (omega (arith, unmarked-nil universe)) h

  -- The search always ends. It returns either a path, which then leads from the start back to it
  -- along edges of the graph, or nil, and then no walk along edges leads from the start back to it.
  pub find_cycle_decides :
      ((p : List ℕ) × (find_cycle edges start ≡ found p) × IsCycle edges start p)
      ⊎ ((w : List ℕ) × (find_cycle edges start ≡ exhausted w)
          × ((p : List ℕ) → ¬ IsCycle edges start p))
  find_cycle_decides = elim (Search-cases (find_cycle edges start)) [
    | inl (p, e) ↦ inl (p, e, find_cycle_sound edges start p e)
    | inr (inl (w, e)) ↦ inr (w, e, find_cycle_complete edges start w e)
    | inr (inr e) ↦ absurd (find_cycle_total e)
  ]
