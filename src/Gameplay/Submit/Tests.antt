-- ===== src/Gameplay/Submit/Tests.antt =====
-- One player, one challenge of three attempts: a wrong answer, then the flag.
use flagfish.Prelude.{◌≡◌, ◌≢◌, ◌≤◌, ◌<◌, refl, ◌⊎◌, true, false, none, some, [], ◌∷◌, arith}
use flagfish.Prelude.Int.{pos}
use flagfish.Account.{Mode, users}
use flagfish.Flags.Space.{Bytes}
use flagfish.Scoring.Decay.{static, linear, validate}
use flagfish.Prereq.Requirements.{Json}
use flagfish.Gameplay.Store.{
  announced, Challenge, FlagRow, Solve, Store, Actor, count_incorrect, counted_solves,
  find_challenge,
}
use flagfish.Gameplay.Check.{Library, no_attempts_remaining}
use flagfish.Gameplay.Submit.{
  Input, Result, Status, correct, incorrect, Reply, rolled_back, committed, admitted, admit, submit,
  after_reply,
}
use flagfish.Gameplay.Submit.Ledger.{
  Entered, submit_ledger, OncePerAccount, submit-OncePerAccount, submit_cap,
}
use flagfish.Scoring.Decay.Exact.{InColumns}
use flagfish.Gameplay.Submit.Price.{Repriced, submit-Repriced}
use flagfish.Gameplay.Submit.Run.{done, step, bloods, one_first_blood}

abbrev no_json : Json
no_json = record { document = λ r. none; bool = λ r. none; string = λ r. none; marshal = λ d. none }

abbrev lib : Library
lib = record { compile = λ p. none; sha256 = λ b. b; json = no_json }

abbrev warmup : Challenge
warmup = record {
  id = 7;
  is_visible = true;
  value = pos 100;
  curve = record { function = static; initial = pos 100; minimum = pos 50; decay = pos 10 };
  max_attempts = pos 3;
  logic = "any";
  next_id = none;
  requirements = [];
  flag_mode = "static";
  first_blood = announced;
  first_blood_bonus = none;
}

abbrev start : Store
start = record {
  challenges = warmup ∷ [];
  flags =
      record {
        challenge_id = 7;
        type_name = "static";
        content = 102 ∷ 49 ∷ [];
        case_insensitive = true;
      }
      ∷ [];
  instances = [];
  issues = [];
  users = record { id = 4; hidden = false; banned = false } ∷ [];
  team_rows = [];
  hints = [];
  submissions = [];
  solves = [];
  awards = [];
  hint_unlocks = [];
  announcements = [];
  pulses = [];
  submission_seq = 1;
  solve_seq = 1;
  award_seq = 1;
  hint_unlock_seq = 1;
}

abbrev answer : Bytes → Input
answer provided = record {
  challenge_id = 7;
  actor = record { user_id = 4; team_id = none };
  provided = provided;
}

abbrev right : Input
right = answer (70 ∷ 49 ∷ 10 ∷ [])

abbrev solved_reply : Result
solved_reply = record { status = correct; first_blood = true; value = pos 100; next_id = none }

abbrev solved : Store
solved = after_reply start (submit lib users 20 start start right)

right_commits : submit lib users 20 start start right ≡ committed solved_reply solved
unfolding submit flagfish.Gameplay.Store.account_id_of flagfish.Account.resolve
    flagfish.Gameplay.Store.find_challenge flagfish.Prereq.Requirements.parse
    flagfish.Gameplay.Check.challenge_prereqs_met count_incorrect flagfish.Gameplay.Store.count
    flagfish.Flags.parse_mode flagfish.Flags.parse_type flagfish.Flags.parse_logic
    flagfish.Flags.match_any flagfish.Flags.match_flag flagfish.Flags.match_static
    flagfish.Flags.Space.trim_space flagfish.Gameplay.Store.count_solves_excluding
    flagfish.Gameplay.Store.eligible flagfish.Gameplay.Store.in_good_standing
    flagfish.Gameplay.Check.check flagfish.Gameplay.Store.insert_solve admit
    flagfish.Gameplay.Submit.exhausted flagfish.Gameplay.Submit.conclude
    flagfish.Gameplay.Submit.solve_locked flagfish.Gameplay.Submit.settle
    flagfish.Gameplay.Submit.draws_blood flagfish.Gameplay.Submit.celebrate
    flagfish.Gameplay.Submit.reprice flagfish.Gameplay.Store.insert_submission
right_commits = refl

admitted_warmup : admit lib users start right ≡ admitted warmup
unfolding submit flagfish.Gameplay.Store.account_id_of flagfish.Account.resolve
    flagfish.Gameplay.Store.find_challenge flagfish.Prereq.Requirements.parse
    flagfish.Gameplay.Check.challenge_prereqs_met count_incorrect flagfish.Gameplay.Store.count
    flagfish.Flags.parse_mode flagfish.Flags.parse_type flagfish.Flags.parse_logic
    flagfish.Flags.match_any flagfish.Flags.match_flag flagfish.Flags.match_static
    flagfish.Flags.Space.trim_space flagfish.Gameplay.Store.count_solves_excluding
    flagfish.Gameplay.Store.eligible flagfish.Gameplay.Store.in_good_standing
    flagfish.Gameplay.Check.check flagfish.Gameplay.Store.insert_solve admit
    flagfish.Gameplay.Submit.exhausted flagfish.Gameplay.Submit.conclude
    flagfish.Gameplay.Submit.solve_locked flagfish.Gameplay.Submit.settle
    flagfish.Gameplay.Submit.draws_blood flagfish.Gameplay.Submit.celebrate
    flagfish.Gameplay.Submit.reprice flagfish.Gameplay.Store.insert_submission
admitted_warmup = refl

submit_ledger_example :
    ((solved_reply.status ≢ correct) × (solved.solves ≡ start.solves))
    ⊎ ((v : Solve) × (solved_reply.status ≡ correct)
        × (solved.solves ≡ v ∷ start.solves)
        × Entered start right solved_reply v)
submit_ledger_example =
    submit_ledger lib users 20 start start right solved_reply solved right_commits

submit-OncePerAccount_example :
    OncePerAccount (after_reply start (submit lib users 20 start start right)).solves
submit-OncePerAccount_example = submit-OncePerAccount lib users 20 start start right tt

submit_cap_example :
    ((3 ≤ count_incorrect users start 7 right.actor)
      × (submit lib users 20 start start right ≡ rolled_back no_attempts_remaining))
    ⊎ ((count_incorrect users start 7 right.actor < 3)
        × (count_incorrect users
              (after_reply start (submit lib users 20 start start right))
              7
              right.actor
            ≤ 3))
submit_cap_example =
    submit_cap lib users 20 start start right warmup 3 admitted_warmup refl (omega arith)

one_first_blood_example : bloods lib users 7 ((right, solved_reply) ∷ []) ≤ 1
one_first_blood_example =
    one_first_blood lib users 7 {s = start} {after = solved} tt (step 20 start right_commits done)

-- the same challenge on a linear curve
abbrev decaying : Challenge
decaying = record warmup {
  curve = record { function = linear; initial = pos 100; minimum = pos 50; decay = pos 10 };
}

abbrev decaying_start : Store
decaying_start = record start { challenges = decaying ∷ [] }

abbrev decaying_solved : Store
decaying_solved = after_reply decaying_start (submit lib users 20 start decaying_start right)

decaying_commits :
    submit lib users 20 start decaying_start right ≡ committed solved_reply decaying_solved
unfolding submit flagfish.Gameplay.Store.account_id_of flagfish.Account.resolve
    flagfish.Gameplay.Store.find_challenge flagfish.Prereq.Requirements.parse
    flagfish.Gameplay.Check.challenge_prereqs_met count_incorrect flagfish.Gameplay.Store.count
    flagfish.Flags.parse_mode flagfish.Flags.parse_type flagfish.Flags.parse_logic
    flagfish.Flags.match_any flagfish.Flags.match_flag flagfish.Flags.match_static
    flagfish.Flags.Space.trim_space flagfish.Gameplay.Store.count_solves_excluding
    flagfish.Gameplay.Store.eligible flagfish.Gameplay.Store.in_good_standing
    flagfish.Gameplay.Check.check flagfish.Gameplay.Store.insert_solve admit
    flagfish.Gameplay.Submit.exhausted flagfish.Gameplay.Submit.conclude
    flagfish.Gameplay.Submit.solve_locked flagfish.Gameplay.Submit.settle
    flagfish.Gameplay.Submit.draws_blood flagfish.Gameplay.Submit.celebrate
    flagfish.Gameplay.Submit.reprice flagfish.Gameplay.Store.insert_submission
    flagfish.Gameplay.Store.recalc_challenge_value counted_solves flagfish.Gameplay.Store.set_value
    flagfish.Prelude.Int.◌-ℤ◌ flagfish.Prelude.Int.◌*ℤ◌ flagfish.Scoring.Decay.Sql.recalc
    flagfish.Scoring.Decay.Sql.checked flagfish.Scoring.Decay.Sql.sub8
    flagfish.Scoring.Decay.Sql.mul8 flagfish.Scoring.Decay.Sql.greatest
    flagfish.Scoring.Decay.Sql.to_int4 flagfish.Scoring.Decay.Sql.beyond
    flagfish.Scoring.Decay.Sql.linear_case flagfish.Scoring.Decay.Sql.case_function
decaying_commits = refl

one_visible_solve : counted_solves users decaying_solved 7 ≡ 1
unfolding submit flagfish.Gameplay.Store.account_id_of flagfish.Account.resolve
    flagfish.Gameplay.Store.find_challenge flagfish.Prereq.Requirements.parse
    flagfish.Gameplay.Check.challenge_prereqs_met count_incorrect flagfish.Gameplay.Store.count
    flagfish.Flags.parse_mode flagfish.Flags.parse_type flagfish.Flags.parse_logic
    flagfish.Flags.match_any flagfish.Flags.match_flag flagfish.Flags.match_static
    flagfish.Flags.Space.trim_space flagfish.Gameplay.Store.count_solves_excluding
    flagfish.Gameplay.Store.eligible flagfish.Gameplay.Store.in_good_standing
    flagfish.Gameplay.Check.check flagfish.Gameplay.Store.insert_solve admit
    flagfish.Gameplay.Submit.exhausted flagfish.Gameplay.Submit.conclude
    flagfish.Gameplay.Submit.solve_locked flagfish.Gameplay.Submit.settle
    flagfish.Gameplay.Submit.draws_blood flagfish.Gameplay.Submit.celebrate
    flagfish.Gameplay.Submit.reprice flagfish.Gameplay.Store.insert_submission
    flagfish.Gameplay.Store.recalc_challenge_value counted_solves flagfish.Gameplay.Store.set_value
    flagfish.Prelude.Int.◌-ℤ◌ flagfish.Prelude.Int.◌*ℤ◌ flagfish.Scoring.Decay.Sql.recalc
    flagfish.Scoring.Decay.Sql.checked flagfish.Scoring.Decay.Sql.sub8
    flagfish.Scoring.Decay.Sql.mul8 flagfish.Scoring.Decay.Sql.greatest
    flagfish.Scoring.Decay.Sql.to_int4 flagfish.Scoring.Decay.Sql.beyond
    flagfish.Scoring.Decay.Sql.linear_case flagfish.Scoring.Decay.Sql.case_function
one_visible_solve = refl

decaying_found : find_challenge 7 decaying_start.challenges ≡ some decaying
unfolding find_challenge
decaying_found = refl

decaying_valid : validate decaying.curve ≡ none
unfolding validate
decaying_valid = refl

decaying_fits : InColumns decaying.curve
decaying_fits = omega arith

submit-Repriced_example : Repriced users decaying decaying_solved
submit-Repriced_example =
    submit-Repriced lib users 20 start decaying_start right decaying solved_reply decaying_solved
      decaying_found refl decaying_valid decaying_fits decaying_commits refl
      (omega (arith, one_visible_solve))
