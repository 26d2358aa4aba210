-- ===== src/Gameplay/Check.antt =====
-- What internal/gameplay reads before it takes a lock: the prerequisite gate (prereq.go) and the
-- flag comparison (`check`, `checkStatic` and `checkUnique` of submit.go). The packages that the
-- code calls are parameters.

pub mod Prereqs
pub mod Tests
use flagfish.Prelude.{
  ℕ, Bool, true, false, not, ◌&&◌, ◌||◌, Option, none, some, List, [], ◌∷◌, length, ltb, ◌==◌,
  if◌then◌else◌, ◌>>=◌,
}
use flagfish.Account.{Mode, Error}
use flagfish.Flags.Space.{Bytes}
use flagfish.Flags
use flagfish.Flags.{
  Flag, Fault, Answer, answer, refused, Logic, any_of, all_of, other_logic, static_mode,
  unique_mode, other_mode, match_any, match_all, hash,
}
use flagfish.Prereq.Cycle.{member}
use flagfish.Prereq.Requirements.{Requirements, Json}
use flagfish.Gameplay.Store.{
  Challenge, FlagRow, Instance, Issue, Solve, HintUnlock, Store, Actor, owned,
}

-- regexp.Compile with the matcher that it gives, sha256.Sum256, and encoding/json
pub record Library : Type 0 where
  pub compile : Bytes → Option (Bytes → Bool)
  pub sha256 : Bytes → Bytes
  pub json : Json

-- the loop of `dedupe`, with the ids seen
unfoldable pub dedupe_from : List ℕ → List ℕ → List ℕ
unfolding member
dedupe_from seen [] = []
dedupe_from seen (id ∷ ids) = elim (member id seen) [
  | true ↦ dedupe_from seen ids
  | false ↦ id ∷ dedupe_from (id ∷ seen) ids
]

-- `dedupe`
unfoldable pub dedupe : List ℕ → List ℕ
unfolding dedupe_from
dedupe ids = dedupe_from [] ids

-- the ids of the listed challenges that the actor has solved, a row for each solve
unfoldable pub solved_among : Mode → Actor → List ℕ → List Solve → List ℕ
solved_among mode a ids [] = []
solved_among mode a ids (s ∷ ss) =
    let rest = solved_among mode a ids ss in
    if member s.challenge_id ids && owned mode a s.user_id s.team_id
    then s.challenge_id ∷ rest
    else rest

-- the listed hints that the actor has unlocked
unfoldable pub unlocked_among : Mode → Actor → List ℕ → List HintUnlock → List ℕ
unlocked_among mode a ids [] = []
unlocked_among mode a ids (u ∷ us) =
    let rest = unlocked_among mode a ids us in
    if member u.hint_id ids && owned mode a u.user_id u.team_id then u.hint_id ∷ rest else rest

-- `CountSolvedPrerequisites`: count(DISTINCT challenge_id)
unfoldable pub count_solved_prerequisites : Mode → Store → Actor → List ℕ → ℕ
unfolding dedupe solved_among
count_solved_prerequisites mode s a ids = length (dedupe (solved_among mode a ids s.solves))

-- `CountUnlockedHintPrerequisites`
unfoldable pub count_unlocked_prerequisites : Mode → Store → Actor → List ℕ → ℕ
unfolding dedupe unlocked_among
count_unlocked_prerequisites mode s a ids =
    length (dedupe (unlocked_among mode a ids s.hint_unlocks))

abbrev pub met : List ℕ → ℕ → Bool
met [] have = true
met (id ∷ ids) have = have == length (id ∷ ids)

-- `challengePrereqsMet`
unfoldable pub challenge_prereqs_met : Mode → Store → Actor → Requirements → Bool
unfolding dedupe count_solved_prerequisites
challenge_prereqs_met mode s a r =
    let ids = dedupe r.prerequisites in met ids (count_solved_prerequisites mode s a ids)

-- `hintPrereqsMet`
unfoldable pub hint_prereqs_met : Mode → Store → Actor → Requirements → Bool
unfolding dedupe count_unlocked_prerequisites
hint_prereqs_met mode s a r =
    let ids = dedupe r.prerequisites in met ids (count_unlocked_prerequisites mode s a ids)

-- The ways in which a transaction is rolled back.
pub data Failure : Type 0 where
  no_account : Error → Failure
  challenge_not_found challenge_locked no_attempts_remaining : Failure
  hint_not_found hint_locked insufficient_score already_unlocked pool_exhausted : Failure
  bad_requirements bad_flag_mode no_flags bad_flag_type bad_logic : Failure
  bad_flag : Fault → Failure
  no_bonus second_bonus bad_price bad_score : Failure
  account_not_found unknown_mode : Failure

-- `match`
pub record Match : Type 0 where
  pub correct : Bool
  pub attributed_account_id : Option ℕ

pub data Check : Type 0 where
  fault : Failure → Check
  verdict : Match → Check

-- `GetChallengeFlags`; the rows of the table stand in the order of their ids.
unfoldable pub challenge_flags : ℕ → List FlagRow → List FlagRow
challenge_flags id [] = []
challenge_flags id (f ∷ fs) =
    let rest = challenge_flags id fs in if f.challenge_id == id then f ∷ rest else rest

-- the loop of `checkStatic` that parses the types
unfoldable pub read_flags : List FlagRow → Option (List Flag)
read_flags [] = some []
read_flags (r ∷ rs) = do
  kind ← Flags.parse_type r.type_name
  rest ← read_flags rs
  some (record { kind = kind; content = r.content; case_insensitive = r.case_insensitive } ∷ rest)

abbrev verdict_of : Answer → Check
verdict_of (answer ok) = verdict (record { correct = ok; attributed_account_id = none })
verdict_of (refused e) = fault (bad_flag e)

abbrev matched : Library → Logic → List Flag → Bytes → Check
matched lib all_of fs provided = verdict_of (match_all lib.compile fs provided)
matched lib any_of fs provided = verdict_of (match_any lib.compile fs provided)
matched lib other_logic fs provided = verdict_of (match_any lib.compile fs provided)

-- `checkStatic`, on the rows loaded
unfoldable pub check_static : Library → Challenge → List FlagRow → Bytes → Check
unfolding read_flags
check_static lib c [] provided = fault no_flags
check_static lib c (r ∷ rs) provided = elim (read_flags (r ∷ rs)) [
  | none ↦ fault bad_flag_type
  | some fs ↦ elim (Flags.parse_logic c.logic) [
    | none ↦ fault bad_logic
    | some logic ↦ matched lib logic fs provided
  ]
]

-- the account of the issue of an instance, NULL where it was not issued
unfoldable pub issued_to : ℕ → List Issue → Option ℕ
issued_to id [] = none
issued_to id (i ∷ is) =
    let rest = issued_to id is in if i.instance_id == id then some i.account_id else rest

abbrev same_bytes : Bytes → Bytes → Bool
same_bytes = Flags.equal_bytes

-- a row of `LookupInstanceByHash`: the generation and the account
abbrev pub Hit : Type 0
Hit = ℕ × Option ℕ

abbrev is_null : Option ℕ → Bool
is_null none = true
is_null (some a) = false

-- `ORDER BY (account_id IS NULL), generation DESC`: x stands before y
abbrev pub before : Hit → Hit → Bool
before x y =
    (not (is_null x.1) && is_null y.1)
    || ((is_null x.1 && is_null y.1) || (not (is_null x.1) && not (is_null y.1))) && ltb y.0 x.0

abbrev first_of : Hit → Option Hit → Hit
first_of x none = x
first_of x (some y) = if before y x then y else x

-- `LookupInstanceByHash`
unfoldable pub lookup_instance : ℕ → Bytes → List Issue → List Instance → Option Hit
unfolding issued_to
lookup_instance challenge h issues [] = none
lookup_instance challenge h issues (i ∷ is) =
    let rest = lookup_instance challenge h issues is in
    if i.challenge_id == challenge && same_bytes i.value_hash h
    then some (first_of (i.generation, issued_to i.id issues) rest)
    else rest

abbrev attributed : Option Hit → Match
attributed none = record { correct = false; attributed_account_id = none }
attributed (some hit) = record { correct = true; attributed_account_id = hit.1 }

-- `checkUnique`
unfoldable pub check_unique : Library → Store → Challenge → Bytes → Check
unfolding lookup_instance
check_unique lib s c provided =
    verdict (attributed (lookup_instance c.id (hash lib.sha256 provided) s.issues s.instances))

-- `check`
unfoldable pub check : Library → Store → Challenge → Bytes → Check
unfolding check_static check_unique challenge_flags
check lib s c provided = elim (Flags.parse_mode c.flag_mode) [
  | none ↦ fault bad_flag_mode
  | some static_mode ↦ check_static lib c (challenge_flags c.id s.flags) provided
  | some unique_mode ↦ check_unique lib s c provided
  | some other_mode ↦ fault bad_flag_mode
]
