-- ===== src/Gameplay/Issue.antt =====
-- `Service.IssueInstance` of internal/gameplay/issuer.go with AssignInstance and GetIssuedInstance
-- (internal/db/flags.sql.gen.go). The pool lock is held from before the pick on, so the pick reads
-- the store that it writes to; the first read may be older, `seen`. The instances of a pool stand
-- in the order of their ids.
pub mod Once
pub mod Tests
use flagfish.Prelude.{
  ℕ, Bool, true, false, not, ◌&&◌, ◌||◌, Option, none, some, List, [], ◌∷◌, ltb, ◌==◌,
  if◌then◌else◌,
}
use flagfish.Gameplay.Store.{Instance, Issue, Store, exists}
use flagfish.Gameplay.Check.{Failure, pool_exhausted}
use flagfish.Gameplay.Submit.{Reply, rolled_back, committed}

-- the instance with the id
unfoldable pub find_instance : ℕ → List Instance → Option Instance
find_instance id [] = none
find_instance id (i ∷ is) = let rest = find_instance id is in if i.id == id then some i else rest

unfoldable pub find_issue : ℕ → ℕ → List Issue → Option Issue
find_issue challenge account [] = none
find_issue challenge account (i ∷ is) =
    let rest = find_issue challenge account is in
    if i.challenge_id == challenge && i.account_id == account then some i else rest

abbrev joined : List Instance → Option Issue → Option Instance
joined is none = none
joined is (some i) = find_instance i.instance_id is

-- `GetIssuedInstance`: the issue joined with its instance
unfoldable pub get_issued : Store → ℕ → ℕ → Option Instance
unfolding find_issue find_instance
get_issued s challenge account = joined s.instances (find_issue challenge account s.issues)

abbrev pub issues_instance : ℕ → Issue → Bool
issues_instance id i = i.instance_id == id

abbrev newer : Instance → Option Instance → Instance
newer i none = i
newer i (some j) = if ltb i.generation j.generation then j else i

-- the pick of `AssignInstance`: an instance of the pool with no issue, the newest generation first
unfoldable pub pick : ℕ → List Issue → List Instance → Option Instance
unfolding exists
pick challenge issues [] = none
pick challenge issues (i ∷ is) =
    let rest = pick challenge issues is in
    if i.challenge_id == challenge && not (exists (issues_instance i.id) issues)
    then some (newer i rest)
    else rest

abbrev pub holds_issue : ℕ → ℕ → Issue → Bool
holds_issue challenge account i = i.challenge_id == challenge && i.account_id == account

abbrev pub with_issue : Store → ℕ → ℕ → ℕ → Store
with_issue s challenge account id = record s {
  issues = record { challenge_id = challenge; account_id = account; instance_id = id } ∷ s.issues;
}

-- the insert of `AssignInstance`, with its ON CONFLICT (challenge_id, account_id) DO NOTHING
unfoldable pub assign_instance : Store → ℕ → ℕ → Store
unfolding pick exists
assign_instance s challenge account = elim (pick challenge s.issues s.instances) [
  | none ↦ s
  | some i ↦ elim (exists (holds_issue challenge account) s.issues) [
    | true ↦ s
    | false ↦ with_issue s challenge account i.id
  ]
]

-- `issueTx`, within the transaction of `IssueInstance`
unfoldable pub issue_instance : Store → Store → ℕ → ℕ → Reply Instance
unfolding get_issued assign_instance
issue_instance seen s challenge account = elim (get_issued seen challenge account) [
  | some i ↦ committed i s
  | none ↦
      let after = assign_instance s challenge account in
      elim (get_issued after challenge account) [
        | none ↦ rolled_back pool_exhausted
        | some i ↦ committed i after
      ]
]
