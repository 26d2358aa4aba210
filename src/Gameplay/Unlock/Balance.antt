-- ===== src/Gameplay/Unlock/Balance.antt =====
-- A hint unlock charges exactly its cost, never below zero, and at most once.
use mathlib.Core.Path.{subst}
use flagfish.Prelude.{
  ℕ, ◌≡◌, refl, sym, ◌∙◌, ◌⊎◌, inl, inr, true, false, Option, some, List, [], ◌∷◌, arith,
  Bool-cases, Option-cases,
}
use flagfish.Prelude.Int.{ℤ, sub64, pos, negsuc, ltb_ℤ, ◌≤ℤ◌, ◌+ℤ◌, ◌-ℤ◌}
use flagfish.Account
use flagfish.Account.{Mode, users, teams, unknown, Resolved, account, failed, Membership, resolve}
use flagfish.Gameplay.Store.{
  Hint, Award, HintUnlock, Store, Actor, account_id_of, owned, exists, insert_award, with_award,
  hint_unlock_kind, second_blood,
}
use flagfish.Gameplay.Check.{Library}
use flagfish.Gameplay.Submit.{Reply, rolled_back, committed, after_reply}
use flagfish.Gameplay.Unlock.{
  Receipt, account_total, account_score, to_bigint, sum_awards, sum_solves, lock_account,
  own_unlock, unlock_clash, new_unlock, with_unlock, insert_hint_unlock, negated, pay, charge,
  spend, unlock_gate, get_hint, unlock_hint,
}

Resolved-cases :
    (r : Resolved) → ((n : ℕ) × (r ≡ account n)) ⊎ ((e : Account.Error) × (r ≡ failed e))
Resolved-cases (account n) = inl (n, refl)
Resolved-cases (failed e) = inr (e, refl)

-- who has an account owns the rows that carry both of the ids
owned_self :
    (mode : Mode) (a : Actor) {id : ℕ}
    → account_id_of mode a ≡ account id
    → owned mode a a.user_id a.team_id ≡ true
unfolding account_id_of resolve
owned_self users a h = ground arith
owned_self teams a h = elim (Option-cases a.team_id) [
  | inl e ↦ absurd (ground (arith, e, h))
  | inr (t, e) ↦ rw (e) (ground arith)
]
owned_self unknown a h = cc

charged_sum : (x y c : ℤ) → x +ℤ ((pos 0 -ℤ c) +ℤ y) ≡ (x +ℤ y) -ℤ c
unfolding ◌+ℤ◌ ◌-ℤ◌
charged_sum x y c = ground arith

covered : (x c : ℤ) → ltb_ℤ x c ≡ false → pos 0 ≤ℤ (x -ℤ c)
unfolding ◌-ℤ◌
covered x c h = ground arith

sum_awards-with_award :
    (mode : Mode) (s : Store) (a : Actor) (challenge : Option ℕ) (v : ℤ)
    → owned mode a a.user_id a.team_id ≡ true
    → sum_awards mode a (with_award s a hint_unlock_kind challenge v).awards
      ≡ v +ℤ sum_awards mode a s.awards
unfolding sum_awards
sum_awards-with_award mode s a challenge v h = rw (h)

-- the balance after the charge
score_after :
    (mode : Mode) (s : Store) (a : Actor) (challenge : Option ℕ) (c : ℤ)
    → owned mode a a.user_id a.team_id ≡ true
    → account_total mode (with_award s a hint_unlock_kind challenge (negated c)) a
      ≡ account_total mode s a -ℤ c
unfolding account_total
score_after mode s a challenge c h =
    rw (sum_awards-with_award mode s a challenge (negated c) h)
      (charged_sum (sum_solves mode a s.solves) (sum_awards mode a s.awards) c)

to_bigint-same : (x y : ℤ) → to_bigint x ≡ some y → y ≡ x
unfolding to_bigint
to_bigint-same (pos n) y h = ground (arith, h)
to_bigint-same (negsuc n) y h = ground (arith, h)

account_score-total :
    (mode : Mode) (s : Store) (a : Actor) (x : ℤ)
    → account_score mode s a ≡ some x
    → x ≡ account_total mode s a
unfolding account_score
account_score-total mode s a x h = to_bigint-same (account_total mode s a) x h

-- the unique index on first bloods does not see a hint's charge
none_second :
    (challenge : Option ℕ) (ws : List Award)
    → exists (second_blood hint_unlock_kind challenge) ws ≡ false
unfolding exists
none_second challenge [] = refl
none_second challenge (w ∷ ws) = none_second challenge ws

committed-injective :
    {r q : Receipt} {s t : Store}
    → ◌≡◌ {A = Reply Receipt} (committed r s) (committed q t)
    → (r ≡ q) × (s ≡ t)
committed-injective h = (cc, cc)

-- what a committed unlock has done
pub record Charged (mode : Mode) (s : Store) (a : Actor) (r : Receipt) (after : Store)
    : Type 0 where
  pub row : HintUnlock
  pub in_range : account_score mode s a ≡ some (account_total mode s a)
  pub balance : account_total mode after a ≡ account_total mode s a -ℤ r.charged
  pub not_negative : pos 0 ≤ℤ account_total mode after a
  pub same_solves : after.solves ≡ s.solves
  pub unlocked : after.hint_unlocks ≡ row ∷ s.hint_unlocks
  pub for_hint : row.hint_id ≡ r.hint_id
  pub by_user : row.user_id ≡ a.user_id
  pub by_team : row.team_id ≡ a.team_id
  pub no_clash : exists (unlock_clash r.hint_id a) s.hint_unlocks ≡ false

module _ (mode : Mode) (s : Store) (h : Hint) (a : Actor)
    (mine : owned mode a a.user_id a.team_id ≡ true) where
  abbrev paid_store : Store
  paid_store = with_award s a hint_unlock_kind (some h.challenge_id) (negated h.cost)

  abbrev this_row : HintUnlock
  this_row = new_unlock paid_store h.id a s.award_seq

  abbrev final_store : Store
  final_store = with_unlock paid_store this_row

  abbrev receipt : Receipt
  receipt = record {
    hint_id = h.id;
    charged = h.cost;
    score = sub64 (account_total mode s a) h.cost;
  }

  final_score : account_total mode final_store a ≡ account_total mode s a -ℤ h.cost
  unfolding account_total ◌-ℤ◌
  final_score = score_after mode s a (some h.challenge_id) h.cost mine

  final-Charged :
      account_score mode s a ≡ some (account_total mode s a)
      → ltb_ℤ (account_total mode s a) h.cost ≡ false
      → exists (unlock_clash h.id a) s.hint_unlocks ≡ false
      → Charged mode s a receipt final_store
  final-Charged in_range enough free = record {
    row = this_row;
    in_range = in_range;
    balance = final_score;
    not_negative =
        subst (λ x. pos 0 ≤ℤ x) (sym final_score) (covered (account_total mode s a) h.cost enough);
    same_solves = refl;
    unlocked = refl;
    for_hint = refl;
    by_user = refl;
    by_team = refl;
    no_clash = free;
  }

  pay-Charged :
      (r : Receipt) (after : Store)
      → account_score mode s a ≡ some (account_total mode s a)
      → pay s h a (account_total mode s a) ≡ committed r after
      → Charged mode s a r after
  unfolding pay insert_hint_unlock insert_award
  pay-Charged r after in_range e = elim (Bool-cases (ltb_ℤ (account_total mode s a) h.cost)) [
    | inl short ↦ absurd (ground (arith, short, e))
    | inr enough ↦ elim (Bool-cases (exists (unlock_clash h.id a) s.hint_unlocks)) [
      | inl taken ↦
          absurd (ground (arith, enough, none_second (some h.challenge_id) s.awards, taken, e))
      | inr free ↦
          let parts =
            committed-injective {r = receipt} {s = final_store}
              (sym (rw (enough, none_second (some h.challenge_id) s.awards, free, pay)) ∙ e) in
          subst (λ q. Charged mode s a q after) parts.0
            (subst (Charged mode s a receipt) parts.1 (final-Charged in_range enough free))
    ]
  ]

  charge-Charged :
      (r : Receipt) (after : Store)
      → charge mode s h a ≡ committed r after
      → Charged mode s a r after
  unfolding charge
  charge-Charged r after e = elim (Option-cases (account_score mode s a)) [
    | inl over ↦ absurd (ground (arith, over, e))
    | inr (score, read) ↦
        let same : score ≡ account_total mode s a = account_score-total mode s a score read in
        pay-Charged r after (subst (λ x. account_score mode s a ≡ some x) same read)
          (subst (λ x. pay s h a x ≡ committed r after) same (sym (rw (read, charge)) ∙ e))
  ]

spend-Charged :
    (mode : Mode) (s : Store) (h : Hint) (a : Actor) (id : ℕ)
    → owned mode a a.user_id a.team_id ≡ true
    → (r : Receipt) (after : Store) → spend mode s h a id ≡ committed r after
    → Charged mode s a r after
unfolding spend
spend-Charged mode s h a id mine r after e = elim (Option-cases (lock_account mode s a id)) [
  | inr (f, l) ↦ absurd (ground (arith, l, e))
  | inl l ↦ elim (Bool-cases (exists (own_unlock mode a h.id) s.hint_unlocks)) [
    | inl o ↦ absurd (ground (arith, l, o, e))
    | inr o ↦ charge-Charged mode s h a mine r after (sym (rw (l, o, spend)) ∙ e)
  ]
]

module _ (lib : Library) (mode : Mode) (seen s : Store) (challenge hint : ℕ) (a : Actor) where
  -- A hint unlock that commits lowers the actor's balance, the sum of the ledger, by exactly the cost of its receipt, leaves
  -- it at zero or more, changes no solve, and adds one unlock row, the actor's, of a hint that no row
  -- of the actor's user or team had unlocked before; however old the store of the unlocked reads is.
  pub unlock_hint-Charged :
      (r : Receipt) (after : Store)
      → unlock_hint lib mode seen s challenge hint a ≡ committed r after
      → Charged mode s a r after
  unfolding unlock_hint
  unlock_hint-Charged r after e = elim (Resolved-cases (account_id_of mode a)) [
    | inr (f, k) ↦ absurd (ground (arith, k, e))
    | inl (id, k) ↦ elim (Option-cases (get_hint seen challenge hint)) [
      | inl g ↦ absurd (ground (arith, k, g, e))
      | inr ((c, h), g) ↦ elim (Option-cases (unlock_gate lib mode seen c h a)) [
        | inr (f, x) ↦ absurd (ground (arith, k, g, x, e))
        | inl x ↦
            spend-Charged mode s h a id (owned_self mode a k) r after
              (sym (rw (k, g, x, unlock_hint)) ∙ e)
      ]
    ]
  ]

-- no two unlocks of one hint share their user or their team
abbrev pub OncePerHint : List HintUnlock → Type 0
OncePerHint [] = Unit
OncePerHint (u ∷ us) =
    (exists (unlock_clash u.hint_id (record { user_id = u.user_id; team_id = u.team_id })) us
      ≡ false)
    × OncePerHint us

Charged-OncePerHint :
    {mode : Mode} {s : Store} {a : Actor} {r : Receipt} {after : Store}
    → Charged mode s a r after
    → OncePerHint s.hint_unlocks
    → OncePerHint after.hint_unlocks
Charged-OncePerHint {mode} {s} {a} {r} {after} c once =
    let row : exists
          (unlock_clash c.row.hint_id (record { user_id = c.row.user_id; team_id = c.row.team_id }))
          s.hint_unlocks
        ≡ false =
      rw (c.for_hint, c.by_user, c.by_team) c.no_clash in
    subst OncePerHint (sym c.unlocked) (row, once)

unlocked-OncePerHint :
    (lib : Library) (mode : Mode) (seen s : Store) (challenge hint : ℕ) (a : Actor)
    (reply : Reply Receipt)
    → unlock_hint lib mode seen s challenge hint a ≡ reply
    → OncePerHint s.hint_unlocks
    → OncePerHint (after_reply s reply).hint_unlocks
unlocked-OncePerHint lib mode seen s challenge hint a (rolled_back f) e once = once
unlocked-OncePerHint lib mode seen s challenge hint a (committed r after) e once =
    Charged-OncePerHint (unlock_hint-Charged lib mode seen s challenge hint a r after e) once

-- If no two unlocks of one hint share their user or their team, the same holds after any attempt to
-- unlock a hint.
pub unlock_hint-OncePerHint :
    (lib : Library) (mode : Mode) (seen s : Store) (challenge hint : ℕ) (a : Actor)
    → OncePerHint s.hint_unlocks
    → OncePerHint (after_reply s (unlock_hint lib mode seen s challenge hint a)).hint_unlocks
unlock_hint-OncePerHint lib mode seen s challenge hint a once =
    unlocked-OncePerHint lib mode seen s challenge hint a
      (unlock_hint lib mode seen s challenge hint a) refl once
