-- ===== src/Gameplay/Issue/Once.antt =====
-- An instance is issued once, and an account holds one instance of a challenge.
use mathlib.Core.Path.{subst}
use flagfish.Prelude.{
  ℕ, ◌≡◌, sym, ap, ◌∙◌, ◌⊎◌, inl, inr, false, some, List, [], ◌∷◌, arith, Bool-cases, Option-cases,
}
use flagfish.Gameplay.Store.{Instance, Issue, Store, exists}
use flagfish.Gameplay.Check.{pool_exhausted}
use flagfish.Gameplay.Submit.{Reply, rolled_back, committed, after_reply}
use flagfish.Gameplay.Issue.{
  get_issued, issues_instance, pick, holds_issue, with_issue, assign_instance, issue_instance,
}

committed-injective :
    {i j : Instance} {s t : Store}
    → ◌≡◌ {A = Reply Instance} (committed i s) (committed j t)
    → (i ≡ j) × (s ≡ t)
committed-injective h = (cc, cc)

-- what is picked has no issue
pick-free :
    (challenge : ℕ) (issues : List Issue) (is : List Instance) (i : Instance)
    → pick challenge issues is ≡ some i
    → exists (issues_instance i.id) issues ≡ false
unfolding pick
pick-free challenge issues [] i h = cc
pick-free challenge issues (j ∷ is) i h = elim (Option-cases (pick challenge issues is)) [
  | inl e ↦ ground (arith, e, h)
  | inr (k, e) ↦ ground (arith, e, h, pick-free challenge issues is k e)
]

-- no instance has two issues, and no account two issues of one challenge
abbrev pub IssuedOnce : List Issue → Type 0
IssuedOnce [] = Unit
IssuedOnce (i ∷ is) =
    (exists (issues_instance i.instance_id) is ≡ false)
    × (exists (holds_issue i.challenge_id i.account_id) is ≡ false)
    × IssuedOnce is

assign_instance-IssuedOnce :
    (s : Store) (challenge account : ℕ)
    → IssuedOnce s.issues
    → IssuedOnce (assign_instance s challenge account).issues
unfolding assign_instance
assign_instance-IssuedOnce s challenge account once =
    elim (Option-cases (pick challenge s.issues s.instances)) [
      | inl e ↦
          let same : assign_instance s challenge account ≡ s = rw (e, assign_instance) in
          subst (λ t. IssuedOnce t.issues) (sym same) once
      | inr (i, e) ↦ elim (Bool-cases (exists (holds_issue challenge account) s.issues)) [
        | inl held ↦
            let same : assign_instance s challenge account ≡ s = rw (e, held, assign_instance) in
            subst (λ t. IssuedOnce t.issues) (sym same) once
        | inr free ↦
            let more : assign_instance s challenge account ≡ with_issue s challenge account i.id =
              rw (e, free, assign_instance) in
            subst (λ t. IssuedOnce t.issues) (sym more)
              (pick-free challenge s.issues s.instances i e, free, once)
      ]
    ]

-- If no instance has two issues and no account two issues of one challenge, the same holds after
-- any request for an instance, whatever its first read saw.
pub issue_instance-IssuedOnce :
    (seen s : Store) (challenge account : ℕ)
    → IssuedOnce s.issues
    → IssuedOnce (after_reply s (issue_instance seen s challenge account)).issues
unfolding issue_instance
issue_instance-IssuedOnce seen s challenge account once =
    let assigned = assign_instance-IssuedOnce s challenge account once in
    let after = assign_instance s challenge account in
    elim (Option-cases (get_issued seen challenge account)) [
      | inr (i, e) ↦
          let reply : issue_instance seen s challenge account ≡ committed i s =
            rw (e, issue_instance) in
          subst (λ r. IssuedOnce (after_reply s r).issues) (sym reply) once
      | inl e ↦ elim (Option-cases (get_issued after challenge account)) [
        | inl dry ↦
            let reply : issue_instance seen s challenge account ≡ rolled_back pool_exhausted =
              rw (e, dry, issue_instance) in
            subst (λ r. IssuedOnce (after_reply s r).issues) (sym reply) once
        | inr (i, got) ↦
            let reply : issue_instance seen s challenge account ≡ committed i after =
              rw (e, got, issue_instance) in
            subst (λ r. IssuedOnce (after_reply s r).issues) (sym reply) assigned
      ]
    ]

-- A request for an instance that commits returns the instance that the store left by it holds for
-- the account, or that the earlier store held for it.
pub issue_instance-issued :
    (seen s : Store) (challenge account : ℕ) (i : Instance) (after : Store)
    → issue_instance seen s challenge account ≡ committed i after
    → (get_issued after challenge account ≡ some i) ⊎ (get_issued seen challenge account ≡ some i)
unfolding issue_instance
issue_instance-issued seen s challenge account i after h =
    elim (Option-cases (get_issued seen challenge account)) [
      | inr (j, e) ↦ let same : j ≡ i = ground (arith, e, h) in inr (e ∙ ap some same)
      | inl e ↦
          elim (Option-cases (get_issued (assign_instance s challenge account) challenge account)) [
            | inl dry ↦ absurd (ground (arith, e, dry, h))
            | inr (j, got) ↦
                let parts =
                  committed-injective {i = j} {s = assign_instance s challenge account}
                    (sym (rw (e, got, issue_instance)) ∙ h) in
                inl (
                  subst (λ t. get_issued t challenge account ≡ some i) parts.1
                    (got ∙ ap some parts.0))
          ]
    ]
