-- ===== src/Gameplay/Unlock/Tests.antt =====
-- A player with 45 points buys a hint for 30.
use flagfish.Prelude.{ℕ, ◌≡◌, refl, true, false, Option, none, some, List, [], ◌∷◌}
use flagfish.Prelude.Int.{pos}
use flagfish.Account.{users}
use flagfish.Scoring.Decay.{static}
use flagfish.Prereq.Requirements.{Json}
use flagfish.Gameplay.Store.{announced, standard, Challenge, Store, Actor}
use flagfish.Gameplay.Check.{Library}
use flagfish.Gameplay.Submit.{committed, after_reply}
use flagfish.Gameplay.Unlock.{Receipt, unlock_hint}
use flagfish.Gameplay.Unlock.Balance.{
  Charged, unlock_hint-Charged, OncePerHint, unlock_hint-OncePerHint,
}

abbrev no_json : Json
no_json = record { document = λ r. none; bool = λ r. none; string = λ r. none; marshal = λ d. none }

abbrev lib : Library
lib = record { compile = λ p. none; sha256 = λ b. b; json = no_json }

abbrev warmup : Challenge
warmup = record {
  id = 7;
  is_visible = true;
  value = pos 100;
  curve = record { function = static; initial = pos 100; minimum = pos 50; decay = pos 10 };
  max_attempts = pos 3;
  logic = "any";
  next_id = none;
  requirements = [];
  flag_mode = "static";
  first_blood = announced;
  first_blood_bonus = none;
}

abbrev start : Store
start = record {
  challenges = warmup ∷ [];
  flags =
      record {
        challenge_id = 7;
        type_name = "static";
        content = 102 ∷ 49 ∷ [];
        case_insensitive = true;
      }
      ∷ [];
  instances = [];
  issues = [];
  users = record { id = 4; hidden = false; banned = false } ∷ [];
  team_rows = [];
  hints = record { id = 11; challenge_id = 7; cost = pos 30; requirements = [] } ∷ [];
  submissions = [];
  solves = [];
  awards =
      record {
        id = 1;
        user_id = 4;
        team_id = none;
        kind = standard;
        challenge_id = none;
        value = pos 45;
      }
      ∷ [];
  hint_unlocks = [];
  announcements = [];
  pulses = [];
  submission_seq = 1;
  solve_seq = 1;
  award_seq = 2;
  hint_unlock_seq = 1;
}

abbrev player : Actor
player = record { user_id = 4; team_id = none }

abbrev receipt : Receipt
receipt = record { hint_id = 11; charged = pos 30; score = pos 15 }

abbrev bought : Store
bought = after_reply start (unlock_hint lib users start start 7 11 player)

buys : unlock_hint lib users start start 7 11 player ≡ committed receipt bought
unfolding unlock_hint flagfish.Gameplay.Store.account_id_of flagfish.Account.resolve
    flagfish.Gameplay.Store.find_challenge flagfish.Gameplay.Unlock.find_hint
    flagfish.Gameplay.Unlock.get_hint flagfish.Gameplay.Unlock.unlock_gate
    flagfish.Prereq.Requirements.parse flagfish.Gameplay.Check.challenge_prereqs_met
    flagfish.Gameplay.Check.hint_prereqs_met flagfish.Gameplay.Unlock.spend
    flagfish.Gameplay.Unlock.lock_account flagfish.Gameplay.Unlock.has_row
    flagfish.Gameplay.Unlock.charge flagfish.Gameplay.Unlock.pay
    flagfish.Gameplay.Unlock.account_score flagfish.Gameplay.Unlock.to_bigint
    flagfish.Gameplay.Unlock.insert_hint_unlock flagfish.Gameplay.Store.insert_award
    flagfish.Prelude.Int.sub64 flagfish.Prelude.Int.◌+ℤ◌ flagfish.Prelude.Int.◌-ℤ◌
buys = refl

unlock_hint-Charged_example : Charged users start player receipt bought
unlock_hint-Charged_example =
    unlock_hint-Charged lib users start start 7 11 player receipt bought buys

unlock_hint-OncePerHint_example :
    OncePerHint (after_reply start (unlock_hint lib users start start 7 11 player)).hint_unlocks
unlock_hint-OncePerHint_example = unlock_hint-OncePerHint lib users start start 7 11 player tt
