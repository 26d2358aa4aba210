-- ===== src/Gameplay/Unlock.antt =====
-- `Service.UnlockHint` of internal/gameplay/unlock.go. As in a submission, `seen` is the store of
-- the reads without a lock; the spend lock of the account is held on `s`.
pub mod Balance
pub mod Tests
use flagfish.Prelude.{
  ℕ, ◌+◌, ◌^◌, ltb, Bool, true, false, not, ◌&&◌, ◌||◌, Option, none, some, List, [], ◌∷◌, ◌==◌,
  if◌then◌else◌,
}
use flagfish.Prelude.Int.{ℤ, pos, negsuc, ltb_ℤ, sub64, ◌+ℤ◌, ◌-ℤ◌}
use flagfish.Account.{Mode, users, teams, unknown, account, failed}
use flagfish.Prereq.Requirements.{parse}
use flagfish.Gameplay.Store.{
  Challenge, AccountRow, Hint, Solve, Award, HintUnlock, Store, Actor, account_id_of, owned,
  same_id, exists, find_challenge, insert_award, hint_unlock_kind,
}
use flagfish.Gameplay.Check.{
  Library, challenge_prereqs_met, hint_prereqs_met, Failure, no_account, hint_not_found,
  hint_locked, insufficient_score, already_unlocked, bad_requirements, account_not_found,
  unknown_mode, second_bonus, bad_score,
}
use flagfish.Gameplay.Submit.{Reply, rolled_back, committed}

-- `Unlock`, without the text of the hint
pub record Receipt : Type 0 where
  pub hint_id : ℕ
  pub charged : ℤ
  pub score : ℤ

-- the hint rows of `GetHint` before the join
unfoldable pub find_hint : ℕ → ℕ → List Hint → Option Hint
find_hint id challenge [] = none
find_hint id challenge (h ∷ hs) =
    let rest = find_hint id challenge hs in
    if h.id == id && h.challenge_id == challenge then some h else rest

-- `sum(value)` of the solves and of the awards of the account
unfoldable pub sum_solves : Mode → Actor → List Solve → ℤ
sum_solves mode a [] = pos 0
sum_solves mode a (v ∷ vs) =
    let rest = sum_solves mode a vs in
    if owned mode a v.user_id v.team_id then v.value +ℤ rest else rest

unfoldable pub sum_awards : Mode → Actor → List Award → ℤ
sum_awards mode a [] = pos 0
sum_awards mode a (w ∷ ws) =
    let rest = sum_awards mode a ws in
    if owned mode a w.user_id w.team_id then w.value +ℤ rest else rest

-- the exact sum of the ledger
unfoldable pub account_total : Mode → Store → Actor → ℤ
unfolding sum_solves sum_awards
account_total mode s a = sum_solves mode a s.solves +ℤ sum_awards mode a s.awards

-- a sum of two bigints: `none` is the error of an overflow
unfoldable pub to_bigint : ℤ → Option ℤ
to_bigint (pos n) = if ltb n (2 ^ 63) then some (pos n) else none
to_bigint (negsuc n) = if ltb n (2 ^ 63) then some (negsuc n) else none

-- `GetAccountScore`
unfoldable pub account_score : Mode → Store → Actor → Option ℤ
unfolding account_total to_bigint
account_score mode s a = to_bigint (account_total mode s a)

unfoldable pub has_row : ℕ → List AccountRow → Bool
has_row id [] = false
has_row id (row ∷ rows) = row.id == id || has_row id rows

-- `lockAccount`: `none` is the nil error
unfoldable pub lock_account : Mode → Store → Actor → ℕ → Option Failure
unfolding has_row
lock_account teams s a id = if has_row id s.team_rows then none else some account_not_found
lock_account users s a id = if has_row a.user_id s.users then none else some account_not_found
lock_account unknown s a id = some unknown_mode

-- `GetHintUnlock`
abbrev pub own_unlock : Mode → Actor → ℕ → HintUnlock → Bool
own_unlock mode a hint u = u.hint_id == hint && owned mode a u.user_id u.team_id

-- `UNIQUE (hint_id, user_id)` and `UNIQUE (hint_id, team_id)`
abbrev pub unlock_clash : ℕ → Actor → HintUnlock → Bool
unlock_clash hint a u = u.hint_id == hint && (u.user_id == a.user_id || same_id u.team_id a.team_id)

abbrev pub new_unlock : Store → ℕ → Actor → ℕ → HintUnlock
new_unlock s hint a award = record {
  id = s.hint_unlock_seq;
  hint_id = hint;
  user_id = a.user_id;
  team_id = a.team_id;
  award_id = award;
}

abbrev pub with_unlock : Store → HintUnlock → Store
with_unlock s u = record s {
  hint_unlocks = u ∷ s.hint_unlocks;
  hint_unlock_seq = s.hint_unlock_seq + 1;
}

-- `InsertHintUnlock`: `none` is zero rows out of ON CONFLICT DO NOTHING
unfoldable pub insert_hint_unlock : Store → ℕ → Actor → ℕ → Option Store
unfolding exists
insert_hint_unlock s hint a award =
    if exists (unlock_clash hint a) s.hint_unlocks
    then none
    else some (with_unlock s (new_unlock s hint a award))

-- `-hint.Cost` on a 32-bit column that is not the least one
abbrev pub negated : ℤ → ℤ
negated v = pos 0 -ℤ v

-- from the balance on: the charge, the unlock
unfoldable pub pay : Store → Hint → Actor → ℤ → Reply Receipt
unfolding insert_hint_unlock insert_award
pay s h a score = elim (ltb_ℤ score h.cost) [
  | true ↦ rolled_back insufficient_score
  | false ↦ elim (insert_award s a hint_unlock_kind (some h.challenge_id) (negated h.cost)) [
    | none ↦ rolled_back second_bonus
    | some (award, charged) ↦ elim (insert_hint_unlock charged h.id a award) [
      | none ↦ rolled_back already_unlocked
      | some after ↦
          committed (record { hint_id = h.id; charged = h.cost; score = sub64 score h.cost }) after
    ]
  ]
]

-- the balance, which is read under the lock
unfoldable pub charge : Mode → Store → Hint → Actor → Reply Receipt
unfolding account_score pay
charge mode s h a = elim (account_score mode s a) [
  | none ↦ rolled_back bad_score
  | some score ↦ pay s h a score
]

-- under the lock of the account
unfoldable pub spend : Mode → Store → Hint → Actor → ℕ → Reply Receipt
unfolding lock_account charge exists
spend mode s h a id = elim (lock_account mode s a id) [
  | some f ↦ rolled_back f
  | none ↦ elim (exists (own_unlock mode a h.id) s.hint_unlocks) [
    | true ↦ rolled_back already_unlocked
    | false ↦ charge mode s h a
  ]
]

-- the two prerequisite gates, the challenge's before the hint's; `none` falls through
unfoldable pub unlock_gate : Library → Mode → Store → Challenge → Hint → Actor → Option Failure
unlock_gate lib mode seen c h a = elim (parse lib.json c.requirements) [
  | none ↦ some bad_requirements
  | some r ↦ elim (challenge_prereqs_met mode seen a r) [
    | false ↦ some hint_not_found
    | true ↦ elim (parse lib.json h.requirements) [
      | none ↦ some bad_requirements
      | some q ↦ if hint_prereqs_met mode seen a q then none else some hint_locked
    ]
  ]
]

-- `GetHint`: the hint with its visible challenge
unfoldable pub get_hint : Store → ℕ → ℕ → Option (Challenge × Hint)
unfolding find_hint
get_hint s challenge hint = elim (find_challenge challenge s.challenges) [
  | none ↦ none
  | some c ↦ elim (find_hint hint challenge s.hints) [ none ↦ none | some h ↦ some (c, h) ]
]

-- `Service.UnlockHint`
unfoldable pub unlock_hint : Library → Mode → Store → Store → ℕ → ℕ → Actor → Reply Receipt
unfolding get_hint unlock_gate spend
unlock_hint lib mode seen s challenge hint a = elim (account_id_of mode a) [
  | failed e ↦ rolled_back (no_account e)
  | account id ↦ elim (get_hint seen challenge hint) [
    | none ↦ rolled_back hint_not_found
    | some (c, h) ↦ elim (unlock_gate lib mode seen c h a) [
      | some f ↦ rolled_back f
      | none ↦ spend mode s h a id
    ]
  ]
]
