-- ===== src/Gameplay/Store.antt =====
-- The tables that the transactions of internal/gameplay read and write, as lists (those that they
-- insert into with the newest row first), and the statements on them
-- (internal/db/gameplay.sql.gen.go). A NULL is `none`. Each table has its own sequence of ids. Columns that only carry text (names, titles, the client's
-- address) are left out, as are foreign keys.
use Prim.Native.String.{String}
use flagfish.Prelude.{
  ℕ, ◌+◌, Bool, true, false, not, ◌&&◌, ◌||◌, Option, none, some, List, [], ◌∷◌, ◌==◌,
  if◌then◌else◌,
}
use flagfish.Prelude.Int.{ℤ, pos}
use flagfish.Account.{Mode, teams, Resolved, resolve}
unfoldable pub use flagfish.Rows.{same_id, count, exists}
use flagfish.Flags.Space.{Bytes}
use flagfish.Scoring.Decay.{Curve, is_static}
use flagfish.Scoring.Decay.Sql.{recalc}
use flagfish.Scoring.Decay.Sql

-- challenges.first_blood
pub data BloodMode : Type 0 where
  no_blood announced bonus : BloodMode

pub record Challenge : Type 0 where
  pub id : ℕ
  pub is_visible : Bool
  pub value : ℤ
  pub curve : Curve
  pub max_attempts : ℤ
  pub logic : String
  pub next_id : Option ℕ
  pub requirements : Bytes
  pub flag_mode : String
  pub first_blood : BloodMode
  pub first_blood_bonus : Option ℤ

pub record FlagRow : Type 0 where
  pub challenge_id : ℕ
  pub type_name : String
  pub content : Bytes
  pub case_insensitive : Bool

pub record Instance : Type 0 where
  pub id : ℕ
  pub challenge_id : ℕ
  pub generation : ℕ
  pub value_hash : Bytes

-- flag_issues
pub record Issue : Type 0 where
  pub challenge_id : ℕ
  pub account_id : ℕ
  pub instance_id : ℕ

-- a row of users or teams
pub record AccountRow : Type 0 where
  pub id : ℕ
  pub hidden : Bool
  pub banned : Bool

pub record Hint : Type 0 where
  pub id : ℕ
  pub challenge_id : ℕ
  pub cost : ℤ
  pub requirements : Bytes

pub data SubmissionKind : Type 0 where
  correct_kind incorrect_kind partial_kind discarded ratelimited : SubmissionKind

pub record Submission : Type 0 where
  pub id : ℕ
  pub challenge_id : ℕ
  pub user_id : ℕ
  pub team_id : Option ℕ
  pub kind : SubmissionKind
  pub provided : Bytes
  pub attributed_account_id : Option ℕ

pub record Solve : Type 0 where
  pub id : ℕ
  pub submission_id : Option ℕ
  pub challenge_id : ℕ
  pub user_id : ℕ
  pub team_id : Option ℕ
  pub value : ℤ
  pub date : ℕ

pub data AwardKind : Type 0 where
  standard hint_unlock_kind first_blood_kind : AwardKind

pub record Award : Type 0 where
  pub id : ℕ
  pub user_id : ℕ
  pub team_id : Option ℕ
  pub kind : AwardKind
  pub challenge_id : Option ℕ
  pub value : ℤ

pub record HintUnlock : Type 0 where
  pub id : ℕ
  pub hint_id : ℕ
  pub user_id : ℕ
  pub team_id : Option ℕ
  pub award_id : ℕ

-- jobs.AnnounceFirstBlood
pub record Announcement : Type 0 where
  pub challenge_id : ℕ
  pub user_id : ℕ
  pub team_id : Option ℕ
  pub solve_id : ℕ
  pub solved_at : ℕ

-- solvefeed.Event
pub record Pulse : Type 0 where
  pub solve_id : ℕ
  pub challenge_id : ℕ
  pub first_blood : Bool
  pub solved_at : ℕ

pub record Store : Type 0 where
  pub challenges : List Challenge
  pub flags : List FlagRow
  pub instances : List Instance
  pub issues : List Issue
  pub users : List AccountRow
  pub team_rows : List AccountRow
  pub hints : List Hint
  pub submissions : List Submission
  pub solves : List Solve
  pub awards : List Award
  pub hint_unlocks : List HintUnlock
  pub announcements : List Announcement
  pub pulses : List Pulse
  pub submission_seq : ℕ
  pub solve_seq : ℕ
  pub award_seq : ℕ
  pub hint_unlock_seq : ℕ

-- `Actor`
pub record Actor : Type 0 where
  pub user_id : ℕ
  pub team_id : Option ℕ

-- `Actor.AccountID`
unfoldable pub account_id_of : Mode → Actor → Resolved
account_id_of mode a = resolve mode (record { user_id = a.user_id; team_id = a.team_id })

-- `CASE WHEN user_mode = 'teams' THEN team_id = .. ELSE user_id = .. END`
abbrev pub owned : Mode → Actor → ℕ → Option ℕ → Bool
owned teams a user team = same_id team a.team_id
owned _ a user team = user == a.user_id

-- `hidden = false AND banned = false` of the row with the id, false with no row
unfoldable pub in_good_standing : ℕ → List AccountRow → Bool
in_good_standing id [] = false
in_good_standing id (row ∷ rows) =
    if row.id == id then not row.hidden && not row.banned else in_good_standing id rows

abbrev standing_of_team : List AccountRow → Option ℕ → Bool
standing_of_team rows none = false
standing_of_team rows (some team) = in_good_standing team rows

-- whether the account of a row is neither hidden nor banned
unfoldable pub eligible : Mode → Store → ℕ → Option ℕ → Bool
eligible teams s user team = standing_of_team s.team_rows team
eligible _ s user team = in_good_standing user s.users

-- `GetChallenge` and `LockChallengeForSubmit`: the visible challenge with the id
unfoldable pub find_challenge : ℕ → List Challenge → Option Challenge
find_challenge id [] = none
find_challenge id (c ∷ cs) =
    let rest = find_challenge id cs in if c.id == id && c.is_visible then some c else rest

abbrev is_incorrect : SubmissionKind → Bool
is_incorrect incorrect_kind = true
is_incorrect _ = false

-- whether a submission counts against the attempts of the actor on the challenge
abbrev pub wrong_attempt : Mode → ℕ → Actor → Submission → Bool
wrong_attempt mode challenge a s =
    s.challenge_id == challenge && (is_incorrect s.kind && owned mode a s.user_id s.team_id)

-- `CountIncorrectSubmissions`
unfoldable pub count_incorrect : Mode → Store → ℕ → Actor → ℕ
count_incorrect mode s challenge a = count (wrong_attempt mode challenge a) s.submissions

-- `InsertSubmission`
unfoldable pub insert_submission : Store → ℕ → Actor → SubmissionKind → Bytes → Option ℕ → Store
insert_submission s challenge a kind provided attributed = record s {
  submissions =
      record {
        id = s.submission_seq;
        challenge_id = challenge;
        user_id = a.user_id;
        team_id = a.team_id;
        kind = kind;
        provided = provided;
        attributed_account_id = attributed;
      }
      ∷ s.submissions;
  submission_seq = s.submission_seq + 1;
}

-- `UNIQUE (challenge_id, user_id)` and `UNIQUE (challenge_id, team_id)`
abbrev pub clash : ℕ → ℕ → Option ℕ → Solve → Bool
clash challenge user team s =
    s.challenge_id == challenge && (s.user_id == user || same_id s.team_id team)

abbrev pub new_solve : Store → ℕ → ℕ → Actor → ℤ → ℕ → Solve
new_solve s submission challenge a value now = record {
  id = s.solve_seq;
  submission_id = some submission;
  challenge_id = challenge;
  user_id = a.user_id;
  team_id = a.team_id;
  value = value;
  date = now;
}

abbrev pub with_solve : Store → Solve → Store
with_solve s v = record s { solves = v ∷ s.solves; solve_seq = s.solve_seq + 1 }

-- `InsertSolve`: `none` is zero rows out of ON CONFLICT DO NOTHING
unfoldable pub insert_solve : Store → ℕ → ℕ → Actor → ℤ → ℕ → Option (Solve × Store)
unfolding exists
insert_solve s submission challenge a value now =
    if exists (clash challenge a.user_id a.team_id) s.solves
    then none
    else let solve = new_solve s submission challenge a value now in
      some (solve, with_solve s solve)

-- a solve of the challenge by an account in good standing
abbrev pub visible_solve : Mode → Store → ℕ → Solve → Bool
visible_solve mode s challenge v =
    v.challenge_id == challenge && eligible mode s v.user_id v.team_id

-- `CountSolvesExcluding`, prior_solves
unfoldable pub count_solves_excluding : Mode → Store → ℕ → ℕ → ℕ
count_solves_excluding mode s challenge excluded =
    count (λ v. visible_solve mode s challenge v && not (v.id == excluded)) s.solves

abbrev is_first_blood : AwardKind → Bool
is_first_blood first_blood_kind = true
is_first_blood _ = false

-- the unique index awards_one_first_blood_per_challenge
abbrev pub second_blood : AwardKind → Option ℕ → Award → Bool
second_blood kind challenge w =
    is_first_blood kind && (is_first_blood w.kind && same_id w.challenge_id challenge)

abbrev pub with_award : Store → Actor → AwardKind → Option ℕ → ℤ → Store
with_award s a kind challenge value = record s {
  awards =
      record {
        id = s.award_seq;
        user_id = a.user_id;
        team_id = a.team_id;
        kind = kind;
        challenge_id = challenge;
        value = value;
      }
      ∷ s.awards;
  award_seq = s.award_seq + 1;
}

-- `InsertAward`: the id of the row; `none` is the error of the unique index
unfoldable pub insert_award : Store → Actor → AwardKind → Option ℕ → ℤ → Option (ℕ × Store)
unfolding exists
insert_award s a kind challenge value =
    if exists (second_blood kind challenge) s.awards
    then none
    else some (s.award_seq, with_award s a kind challenge value)

-- the count of RecalcChallengeValue
unfoldable pub counted_solves : Mode → Store → ℕ → ℕ
counted_solves mode s challenge = count (visible_solve mode s challenge) s.solves

unfoldable pub set_value : ℕ → ℤ → List Challenge → List Challenge
set_value id v [] = []
set_value id v (c ∷ cs) =
    (if c.id == id && not (is_static c.curve.function) then record c { value = v } else c)
    ∷ set_value id v cs

abbrev pub with_price : Store → ℕ → ℤ → Store
with_price s id v = record s { challenges = set_value id v s.challenges }

-- the value that the statement computes for a row, which the column takes if it is an int
abbrev stored : Sql.Value → ℕ → Store → Option Store
stored Sql.error id s = none
stored Sql.null id s = none
stored (Sql.int v) id s = some (with_price s id v)

-- `RecalcChallengeValue` on the row of the challenge; `none` is an error of the statement
unfoldable pub recalc_challenge_value : Mode → Store → Challenge → Option Store
unfolding counted_solves set_value
recalc_challenge_value mode s c = stored (recalc c.curve (pos (counted_solves mode s c.id))) c.id s
