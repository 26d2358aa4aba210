-- ===== src/Gameplay/Issue/Tests.antt =====
-- A pool of two instances, the second of a newer generation.
use flagfish.Prelude.{ℕ, ◌≡◌, ◌⊎◌, refl, false, some, [], ◌∷◌}
use flagfish.Gameplay.Store.{Instance, Store, exists}
use flagfish.Gameplay.Submit.{committed, after_reply}
use flagfish.Gameplay.Issue.{
  get_issued, issue_instance, find_issue, find_instance, pick, assign_instance,
}
use flagfish.Gameplay.Issue.Once.{IssuedOnce, issue_instance-IssuedOnce, issue_instance-issued}

abbrev instance' : ℕ → ℕ → Instance
instance' id generation = record {
  id = id;
  challenge_id = 7;
  generation = generation;
  value_hash = id ∷ [];
}

abbrev start : Store
start = record {
  challenges = [];
  flags = [];
  instances = instance' 1 1 ∷ instance' 2 2 ∷ [];
  issues = [];
  users = record { id = 4; hidden = false; banned = false } ∷ [];
  team_rows = [];
  hints = [];
  submissions = [];
  solves = [];
  awards = [];
  hint_unlocks = [];
  announcements = [];
  pulses = [];
  submission_seq = 1;
  solve_seq = 1;
  award_seq = 1;
  hint_unlock_seq = 1;
}

abbrev issued : Store
issued = after_reply start (issue_instance start start 7 4)

newest_first : issue_instance start start 7 4 ≡ committed (instance' 2 2) issued
unfolding issue_instance get_issued find_issue find_instance pick assign_instance exists
newest_first = refl

issue_instance-IssuedOnce_example :
    IssuedOnce (after_reply start (issue_instance start start 7 4)).issues
issue_instance-IssuedOnce_example = issue_instance-IssuedOnce start start 7 4 tt

issue_instance-issued_example :
    (get_issued issued 7 4 ≡ some (instance' 2 2)) ⊎ (get_issued start 7 4 ≡ some (instance' 2 2))
issue_instance-issued_example =
    issue_instance-issued start start 7 4 (instance' 2 2) issued newest_first
