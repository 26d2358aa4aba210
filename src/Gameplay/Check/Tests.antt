-- ===== src/Gameplay/Check/Tests.antt =====
-- A challenge that lists challenge 3 twice.
use flagfish.Prelude.{◌≡◌, ◌↔◌, true, none, [], ◌∷◌, All}
use flagfish.Prelude.Int.{pos}
use flagfish.Account.{users}
use flagfish.Prereq.Requirements.{Requirements, masked}
use flagfish.Gameplay.Store.{Store, Actor}
use flagfish.Gameplay.Check.{challenge_prereqs_met}
use flagfish.Gameplay.Check.Prereqs.{has_solved, challenge_prereqs_met_iff}

abbrev store : Store
store = record {
  challenges = [];
  flags = [];
  instances = [];
  issues = [];
  users = [];
  team_rows = [];
  hints = [];
  submissions = [];
  solves =
      record {
        id = 1;
        submission_id = none;
        challenge_id = 3;
        user_id = 4;
        team_id = none;
        value = pos 10;
        date = 5;
      }
      ∷ [];
  awards = [];
  hint_unlocks = [];
  announcements = [];
  pulses = [];
  submission_seq = 1;
  solve_seq = 2;
  award_seq = 1;
  hint_unlock_seq = 1;
}

abbrev player : Actor
player = record { user_id = 4; team_id = none }

abbrev twice : Requirements
twice = record { prerequisites = 3 ∷ 3 ∷ []; visibility = masked }

challenge_prereqs_met_iff_example :
    (challenge_prereqs_met users store player twice ≡ true)
    ↔ All (λ id. has_solved users player store.solves id ≡ true) (3 ∷ 3 ∷ [])
challenge_prereqs_met_iff_example = challenge_prereqs_met_iff users store player twice
