-- ===== src/Gameplay/Check/Prereqs.antt =====
-- The prerequisite gate compares two counts; this shows that the counts agree exactly when every
-- listed challenge is solved.
use mathlib.Core.Path.{subst}
use flagfish.Prelude.{
  ℕ, ◌≤◌, ◌<◌, ◌≡◌, ◌↔◌, refl, sym, ap, inl, inr, Bool, true, false, ◌&&◌, List, [], ◌∷◌, All,
  length, ◌==◌, ==_iff, arith, Bool-cases,
}
use flagfish.Account.{Mode}
use flagfish.Prereq.Cycle.{member}
use flagfish.Prereq.Requirements.{Requirements}
use flagfish.Gameplay.Store.{Solve, Store, Actor, owned, count, exists}
use flagfish.Gameplay.Check.{
  dedupe_from, dedupe, solved_among, count_solved_prerequisites, met, challenge_prereqs_met,
}

abbrev Distinct : List ℕ → Type 0
Distinct [] = Unit
Distinct (x ∷ xs) = (member x xs ≡ false) × Distinct xs

abbrev Within : List ℕ → List ℕ → Type 0
Within xs ys = (x : ℕ) → member x xs ≡ true → member x ys ≡ true

member-dedupe_from :
    (x : ℕ) (seen ids : List ℕ)
    → (member x (dedupe_from seen ids) ≡ true) ↔ ((member x ids ≡ true) × (member x seen ≡ false))
unfolding dedupe_from member
member-dedupe_from x seen [] = ground arith
member-dedupe_from x seen (id ∷ ids) = elim (Bool-cases (member id seen)) [
  | inl old ↦ ground (arith, old, member-dedupe_from x seen ids)
  | inr new ↦ ground (arith, new, member-dedupe_from x (id ∷ seen) ids)
]

dedupe_from-Distinct : (seen ids : List ℕ) → Distinct (dedupe_from seen ids)
unfolding dedupe_from member
dedupe_from-Distinct seen [] = tt
dedupe_from-Distinct seen (id ∷ ids) = elim (Bool-cases (member id seen)) [
  | inl old ↦
      let e : dedupe_from seen (id ∷ ids) ≡ dedupe_from seen ids = rw (old, dedupe_from) in
      subst Distinct (sym e) (dedupe_from-Distinct seen ids)
  | inr new ↦
      let e : dedupe_from seen (id ∷ ids) ≡ id ∷ dedupe_from (id ∷ seen) ids =
        rw (new, dedupe_from) in
      subst Distinct (sym e) (
        ground (arith, member-dedupe_from id (id ∷ seen) ids),
        dedupe_from-Distinct (id ∷ seen) ids,
      )
]

count_le : (p : ℕ → Bool) (xs : List ℕ) → count p xs ≤ length xs
unfolding count
count_le p [] = omega arith
count_le p (x ∷ xs) = ground (arith, count_le p xs)

count_mono :
    (p q : ℕ → Bool) → ((x : ℕ) → p x ≡ true → q x ≡ true) → (xs : List ℕ) → count p xs ≤ count q xs
unfolding count
count_mono p q h [] = omega arith
count_mono p q h (x ∷ xs) = ground (arith, h x, count_mono p q h xs)

-- one more element of the list passes
count_more :
    (p q : ℕ → Bool)
    → ((x : ℕ) → p x ≡ true → q x ≡ true)
    → (n : ℕ) → p n ≡ false
    → q n ≡ true
    → (xs : List ℕ) → member n xs ≡ true
    → count p xs < count q xs
unfolding count member
count_more p q h n pn qn [] m = cc
count_more p q h n pn qn (x ∷ xs) m = elim (Bool-cases (x == n)) [
  | inl same ↦
      let e = (==_iff x n).0 same in
      let px = subst (λ y. p y ≡ false) (sym e) pn in
      let qx = subst (λ y. q y ≡ true) (sym e) qn in ground (arith, px, qx, count_mono p q h xs)
  | inr apart ↦ ground (arith, apart, h x, count_more p q h n pn qn xs)
]

member_later : (x y : ℕ) (ys : List ℕ) → member x ys ≡ true → member x (y ∷ ys) ≡ true
unfolding member
member_later x y ys h = ground arith

member_first : (x : ℕ) (xs : List ℕ) → member x (x ∷ xs) ≡ true
unfolding member
member_first x xs = ground arith

-- every element of a list without repetitions is counted in a list that has them all
length_le_count :
    (xs ys : List ℕ) → Distinct xs → Within xs ys → length xs ≤ count (λ y. member y xs) ys
length_le_count [] ys d w = omega arith
length_le_count (x ∷ xs) ys d w =
    let rest = length_le_count xs ys d.1 (λ z m. w z (member_later z x xs m)) in
    let more =
      count_more (λ y. member y xs) (λ y. member y (x ∷ xs)) (λ y m. member_later y x xs m) x d.0
        (member_first x xs) ys (w x (member_first x xs)) in
    omega (arith, rest, more)

full_count :
    (p : ℕ → Bool) (xs : List ℕ)
    → length xs ≤ count p xs
    → (x : ℕ) → member x xs ≡ true
    → p x ≡ true
unfolding count member
full_count p [] h x m = cc
full_count p (y ∷ ys) h x m = elim (Bool-cases (y == x)) [
  | inl same ↦ subst (λ z. p z ≡ true) ((==_iff y x).0 same) (ground (arith, h, count_le p ys))
  | inr apart ↦ full_count p ys (ground (arith, h, count_le p ys)) x (ground (arith, apart, m))
]

-- the actor has a solve of the challenge
abbrev pub has_solved : Mode → Actor → List Solve → ℕ → Bool
has_solved mode a vs id = exists (λ v. v.challenge_id == id && owned mode a v.user_id v.team_id) vs

member-solved_among :
    (mode : Mode) (a : Actor) (ids : List ℕ) (x : ℕ) (vs : List Solve)
    → (member x (solved_among mode a ids vs) ≡ true)
      ↔ ((member x ids ≡ true) × (has_solved mode a vs x ≡ true))
unfolding solved_among exists member
member-solved_among mode a ids x [] = ground arith
member-solved_among mode a ids x (v ∷ vs) = elim (Bool-cases (v.challenge_id == x)) [
  | inl same ↦
      let e = (==_iff v.challenge_id x).0 same in
      let m : member v.challenge_id ids ≡ member x ids = ap (λ z. member z ids) e in
      ground (arith, same, m, member-solved_among mode a ids x vs)
  | inr apart ↦ ground (arith, apart, member-solved_among mode a ids x vs)
]

-- a list without repetitions has the length of its part exactly when the part is all of it
same_length_iff :
    (xs ys : List ℕ)
    → Distinct xs
    → Distinct ys
    → Within xs ys
    → (length xs ≡ length ys) ↔ Within ys xs
same_length_iff xs ys dx dy w = (
  λ e. full_count (λ y. member y xs) ys (omega (arith, e, length_le_count xs ys dx w)),
  λ back. omega (
    arith,
    length_le_count xs ys dx w,
    count_le (λ y. member y xs) ys,
    length_le_count ys xs dy back,
    count_le (λ x. member x ys) xs,
  ),
)

met_iff :
    (ids : List ℕ) (have : ℕ) → (ids ≡ [] → have ≡ 0) → (met ids have ≡ true) ↔ (have ≡ length ids)
met_iff [] have h = (λ _. h refl, λ _. refl)
met_iff (id ∷ ids) have h = ==_iff have (length (id ∷ ids))

member_none : (x : ℕ) → member x [] ≡ false
unfolding member
member_none x = refl

member-dedupe : (x : ℕ) (ids : List ℕ) → (member x (dedupe ids) ≡ true) ↔ (member x ids ≡ true)
unfolding dedupe
member-dedupe x ids = (
  λ h. ((member-dedupe_from x [] ids).0 h).0,
  λ h. (member-dedupe_from x [] ids).1 (h, member_none x),
)

dedupe-Distinct : (ids : List ℕ) → Distinct (dedupe ids)
unfolding dedupe
dedupe-Distinct ids = dedupe_from-Distinct [] ids

All-of :
    (p : ℕ → Bool) (xs : List ℕ)
    → ((x : ℕ) → member x xs ≡ true → p x ≡ true)
    → All (λ x. p x ≡ true) xs
All-of p [] h = tt
All-of p (x ∷ xs) h = (h x (member_first x xs), All-of p xs (λ y m. h y (member_later y x xs m)))

of_All :
    (p : ℕ → Bool) (xs : List ℕ)
    → All (λ x. p x ≡ true) xs
    → (x : ℕ) → member x xs ≡ true
    → p x ≡ true
unfolding member
of_All p [] h x m = cc
of_All p (y ∷ ys) h x m = elim (Bool-cases (y == x)) [
  | inl same ↦ subst (λ z. p z ≡ true) ((==_iff y x).0 same) h.0
  | inr apart ↦ of_All p ys h.1 x (ground (arith, apart, m))
]

empty_length : (xs ys : List ℕ) → Distinct xs → Within xs ys → ys ≡ [] → length xs ≡ 0
empty_length xs ys d w e =
    let none_left : length ys ≡ 0 = ap length e in
    omega (arith, length_le_count xs ys d w, count_le (λ y. member y xs) ys, none_left)

module _ (mode : Mode) (s : Store) (a : Actor) (r : Requirements) where
  abbrev wanted : List ℕ
  wanted = dedupe r.prerequisites

  abbrev had : List ℕ
  had = dedupe (solved_among mode a wanted s.solves)

  had_iff :
      (x : ℕ)
      → (member x had ≡ true) ↔ ((member x wanted ≡ true) × (has_solved mode a s.solves x ≡ true))
  had_iff x = (
    λ h.
        (member-solved_among mode a wanted x s.solves).0
          ((member-dedupe x (solved_among mode a wanted s.solves)).0 h),
    λ h.
        (member-dedupe x (solved_among mode a wanted s.solves)).1
          ((member-solved_among mode a wanted x s.solves).1 h),
  )

  complete_iff :
      Within wanted had ↔ All (λ id. has_solved mode a s.solves id ≡ true) r.prerequisites
  complete_iff = (
    λ w.
        All-of (has_solved mode a s.solves) r.prerequisites
          (λ x m. ((had_iff x).0 (w x ((member-dedupe x r.prerequisites).1 m))).1),
    λ h x m. (had_iff x).1 (
      m,
      of_All (has_solved mode a s.solves) r.prerequisites h x
          ((member-dedupe x r.prerequisites).0 m),
    ),
  )

  -- The prerequisite gate of a challenge opens exactly when the account of the actor has a solve of
  -- every listed challenge, whatever repetitions the list has.
  pub challenge_prereqs_met_iff :
      (challenge_prereqs_met mode s a r ≡ true)
      ↔ All (λ id. has_solved mode a s.solves id ≡ true) r.prerequisites
  unfolding challenge_prereqs_met count_solved_prerequisites
  challenge_prereqs_met_iff =
      let inside : Within had wanted = λ x m. ((had_iff x).0 m).0 in
      let dh = dedupe-Distinct (solved_among mode a wanted s.solves) in
      let dw = dedupe-Distinct r.prerequisites in
      let counts = met_iff wanted (length had) (empty_length had wanted dh inside) in
      let lengths = same_length_iff had wanted dh dw inside in
      (λ h. complete_iff.0 (lengths.0 (counts.0 h)), λ h. counts.1 (lengths.1 (complete_iff.1 h)))
