-- ===== src/Gameplay/Submit.antt =====
-- `Service.Submit` of internal/gameplay/submit.go. Under READ COMMITTED what the transaction reads
-- before it writes may be older than what it writes to: `seen` is the store of the reads without a
-- lock, `s` the store from the first lock on. The attempt counter is read under its advisory lock,
-- so it belongs to `s`. A failure rolls back: the store is `s` again.
pub mod Keeps
pub mod Effects
pub mod Ledger
pub mod Blood
pub mod Run
pub mod Price
pub mod Tests
use flagfish.Prelude.{
  ℕ, zero, suc, Bool, true, false, not, ◌&&◌, ◌||◌, Option, none, some, List, [], ◌∷◌, ◌==◌,
  if◌then◌else◌,
}
use flagfish.Prelude.Int.{ℤ, pos, ltb_ℤ}
use flagfish.Account.{Mode, account, failed, Resolved}
use flagfish.Flags.Space.{Bytes}
use flagfish.Scoring.Decay.{is_static}
use flagfish.Prereq.Requirements.{Requirements, parse, visible}
use flagfish.Gameplay.Store.{
  BloodMode, no_blood, announced, bonus, Challenge, Solve, Store, Actor, account_id_of, eligible,
  find_challenge, count_incorrect, insert_submission, correct_kind, incorrect_kind, insert_solve,
  count_solves_excluding, insert_award, first_blood_kind, recalc_challenge_value,
}
use flagfish.Gameplay.Check.{
  Library, challenge_prereqs_met, Failure, no_account, challenge_not_found, challenge_locked,
  no_attempts_remaining, bad_requirements, no_bonus, second_bonus, bad_price, Match, Check, fault,
  verdict, check,
}

-- `SubmitInput`
pub record Input : Type 0 where
  pub challenge_id : ℕ
  pub actor : Actor
  pub provided : Bytes

pub data Status : Type 0 where
  incorrect correct already_solved : Status

pub record Result : Type 0 where
  pub status : Status
  pub first_blood : Bool
  pub value : ℤ
  pub next_id : Option ℕ

-- the result with the zero values of Go in the other fields
abbrev pub bare : Status → Result
bare status = record { status = status; first_blood = false; value = pos 0; next_id = none }

-- What a transaction returns, with the store that it leaves.
pub data Reply (A : Type 0) : Type 0 where
  rolled_back : Failure → Reply A
  committed : A → Store → Reply A

pub data Admitted : Type 0 where
  refused : Failure → Admitted
  admitted : Challenge → Admitted

-- the prerequisite gate
unfoldable pub gate : Library → Mode → Store → Challenge → Actor → Admitted
gate lib mode seen c a = elim (parse lib.json c.requirements) [
  | none ↦ refused bad_requirements
  | some r ↦
      if challenge_prereqs_met mode seen a r
      then admitted c
      else refused (if visible r.visibility then challenge_locked else challenge_not_found)
]

-- up to the gate, which is passed before a lock is taken
unfoldable pub admit : Library → Mode → Store → Input → Admitted
unfolding gate
admit lib mode seen input = elim (account_id_of mode input.actor) [
  | failed e ↦ refused (no_account e)
  | account id ↦ elim (find_challenge input.challenge_id seen.challenges) [
    | none ↦ refused challenge_not_found
    | some c ↦ gate lib mode seen c input.actor
  ]
]

-- `ch.MaxAttempts > 0` and `wrong >= int64(ch.MaxAttempts)`
unfoldable pub exhausted : Mode → Store → Challenge → Actor → Bool
exhausted mode s c a =
    ltb_ℤ (pos 0) c.max_attempts && not (ltb_ℤ (pos (count_incorrect mode s c.id a)) c.max_attempts)

abbrev pub is_bonus : BloodMode → Bool
is_bonus bonus = true
is_bonus _ = false

abbrev pub is_no_blood : BloodMode → Bool
is_no_blood no_blood = true
is_no_blood _ = false

-- `firstBlood`, for the solve just inserted
unfoldable pub draws_blood : Mode → Store → Challenge → Solve → Actor → Bool
draws_blood mode s c solve a =
    not (is_no_blood c.first_blood)
    && (count_solves_excluding mode s c.id solve.id == 0 && eligible mode s a.user_id a.team_id)

-- the bonus award, where the challenge pays one; the result is the error or the store
pub data Paid : Type 0 where
  unpaid : Failure → Paid
  paid : Store → Paid

abbrev award_bonus : Store → Challenge → Actor → ℤ → Paid
award_bonus s c a amount = elim (insert_award s a first_blood_kind (some c.id) amount) [
  | none ↦ unpaid second_bonus
  | some (id, after) ↦ paid after
]

unfoldable pub pay_bonus : Store → Challenge → Actor → Paid
pay_bonus s c a =
    if is_bonus c.first_blood
    then elim c.first_blood_bonus [
      | none ↦ unpaid no_bonus
      | some amount ↦ award_bonus s c a amount
    ]
    else paid s

abbrev pub announce : Store → Challenge → Actor → Solve → Store
announce s c a solve = record s {
  announcements =
      record {
        challenge_id = c.id;
        user_id = a.user_id;
        team_id = a.team_id;
        solve_id = solve.id;
        solved_at = solve.date;
      }
      ∷ s.announcements;
}

-- the block `if firstBlood`
unfoldable pub celebrate : Bool → Store → Challenge → Actor → Solve → Paid
unfolding pay_bonus
celebrate false s c a solve = paid s
celebrate true s c a solve = elim (pay_bonus s c a) [
  | unpaid f ↦ unpaid f
  | paid after ↦ paid (announce after c a solve)
]

-- `solvefeed.Publish`
abbrev pub publish : Store → Challenge → Solve → Bool → Store
publish s c solve first_blood = record s {
  pulses =
      record {
        solve_id = solve.id;
        challenge_id = c.id;
        first_blood = first_blood;
        solved_at = solve.date;
      }
      ∷ s.pulses;
}

-- `if locked.Function != "static"`
unfoldable pub reprice : Mode → Store → Challenge → Paid
reprice mode s c =
    if is_static c.curve.function then paid s else elim (recalc_challenge_value mode s c) [
      | none ↦ unpaid bad_price
      | some after ↦ paid after
    ]

-- from the solve on: the bonus, the announcement, the pulse, the price
unfoldable pub settle : Mode → Challenge → Actor → Solve → Bool → Store → Reply Result
unfolding celebrate reprice
settle mode c a solve first_blood s = elim (celebrate first_blood s c a solve) [
  | unpaid f ↦ rolled_back f
  | paid after ↦ elim (reprice mode (publish after c solve first_blood) c) [
    | unpaid f ↦ rolled_back f
    | paid final ↦
        committed
          (record {
            status = correct;
            first_blood = first_blood;
            value = solve.value;
            next_id = c.next_id;
          })
          final
  ]
]

-- the correct path, under the lock of the challenge row `c`
unfoldable pub solve_locked : Mode → ℕ → Challenge → Input → Option ℕ → Store → Reply Result
unfolding insert_submission insert_solve draws_blood settle
solve_locked mode now c input attributed s =
    let submitted = insert_submission s c.id input.actor correct_kind input.provided attributed in
    elim (insert_solve submitted s.submission_seq c.id input.actor c.value now) [
      | none ↦ committed (bare already_solved) submitted
      | some (solve, after) ↦
          settle mode c input.actor solve (draws_blood mode after c solve input.actor) after
    ]

-- what is done with the verdict
unfoldable pub conclude : Mode → ℕ → Store → Challenge → Input → Match → Reply Result
unfolding insert_submission solve_locked
conclude mode now s c input m = elim m.correct [
  | false ↦
      committed (bare incorrect)
        (insert_submission s c.id input.actor incorrect_kind input.provided none)
  | true ↦ elim (find_challenge c.id s.challenges) [
    | none ↦ rolled_back challenge_not_found
    | some locked ↦ solve_locked mode now locked input m.attributed_account_id s
  ]
]

-- `Service.Submit`
unfoldable pub submit : Library → Mode → ℕ → Store → Store → Input → Reply Result
unfolding admit exhausted check conclude
submit lib mode now seen s input = elim (admit lib mode seen input) [
  | refused f ↦ rolled_back f
  | admitted c ↦ elim (exhausted mode s c input.actor) [
    | true ↦ rolled_back no_attempts_remaining
    | false ↦ elim (check lib seen c input.provided) [
      | fault f ↦ rolled_back f
      | verdict m ↦ conclude mode now s c input m
    ]
  ]
]

-- the store that a transaction leaves
abbrev pub after_reply : {A : Type 0} → Store → Reply A → Store
after_reply s (rolled_back f) = s
after_reply s (committed r after) = after
