-- ===== src/Lib.antt =====
-- flagfish: a verification library for the capture-the-flag platform in this repository.
--
-- The platform serves challenges, compares submitted flags, keeps solves and awards in Postgres and
-- ranks accounts. The rules that decide live in internal/domain, free of I/O; the services compose
-- them with SQL statements. A request passes the route gate (internal/domain/policy/decide.go), is
-- attributed to an account (internal/domain/account), and its figures pass the freeze and the
-- redactor on the way out; a solve reprices its challenge (internal/domain/scoring/decay.go, and the
-- same curve in SQL), and the board is folded from the scoring events
-- (internal/domain/scoring/standings.go).
--
-- The files:
--   Prelude            numbers, Boolean tests, lists, and Go's 64-bit integers (Prelude/Int)
--   Account            internal/domain/account/account.go: Mode, Resolve, Teamless
--   Scoring/Decay      Curve.Validate, Curve.ValueAt; Decay/Sql is the statement
--                      RecalcChallengeValue of internal/db/gameplay.sql.gen.go
--   Scoring/Standings  Aggregate, Less, Rank, Board
--   Policy/Types       internal/domain/policy/policy.go: the event, the caller, the request, PhaseAt
--   Policy/RouteClass  routeclass.go: the decision table
--   Policy/Decide      decide.go, one function for each numbered step; Decide/Permitted is an
--                      independent description of what is let through
--   Policy/Freeze      freeze.go and the freeze predicate of the standings queries
--   Policy/Redact      redact.go, page.go, the caps rules of named_policies.go
--   Prereq/Cycle       FindCycle of internal/domain/prereq/serialize.go
--   Prereq/Requirements  Parse and parseVisibility of prereq.go, Encode and the names of serialize.go
--   Flags              internal/domain/flags/flags.go: Normalize, Match, MatchAny, MatchAll, Validate
--   Gameplay/Store     the tables and the statements of internal/db/gameplay.sql.gen.go
--   Gameplay/Check     internal/gameplay/prereq.go, and check, checkStatic, checkUnique of submit.go
--   Gameplay/Submit    Service.Submit of internal/gameplay/submit.go
--   Gameplay/Unlock    Service.UnlockHint of unlock.go, statements of internal/db/unlocks.sql.gen.go
--   Gameplay/Issue     issueTx of issuer.go, statements of internal/db/flags.sql.gen.go
--   Rows               UPDATE, DELETE, EXISTS and count over a table held as a list, and their laws
--   Roster             the users and teams tables, and the statements of internal/db/teams.sql.gen.go;
--                      those of a captain are in Roster/Command
--   Roster/Reads       the reads of internal/accounts/teams.go: OwnTeam, TeamProfile, the members
--   Roster/Player      CreateTeam, JoinTeam; Roster/Captain: LeaveTeam, UpdateOwnTeam, SetJoinSecret,
--                      KickMember, TransferCaptaincy, DisbandTeam
--   Roster/Admin       internal/adminops/team_roster.go: RemoveTeamMember, MoveTeamMember
--   Roster/Moderation  internal/adminops/users.go and teams.go: bans, roles, hiding, verification,
--                      forced password changes, teams that an organizer creates and edits
--   Roster/Request     one request of a player, a captain or an organizer, and a sequence of them
--   Roster/Move        the same as a step relation on the tables, on which the invariants are proved
--   Feed               internal/notify/broadcaster.go: subscribers, delivery, the close of a slow one
--   Feed/Order         what After returns; Feed/Replay and Feed/Delivery/Kept: who gets it
--   Feed/Pump          the watermark, catchUp and deliver, with the board of internal/notify/notify.go
--   Feed/Solves        what internal/solvefeed/broadcaster.go does differently
--   Page               internal/domain/page/page.go: Validate and its parts
--   Field              internal/domain/field/field.go: CleanName, CleanDescription, Normalize, IsAnswered
--   Config             internal/config/snapshot.go: the snapshot; Config/Registry its setters and keys
--   Config/Build       Build, buildParsed, the coherence rules
--   Config/Manager     internal/config/manager.go: New, Refresh, Set
--
-- How the code is represented. A pure function is a function by clauses with the source's tests in
-- the source's order. Go's int and int64 are integers that wrap at 64 bits (Prelude/Int); ids and
-- instants are natural numbers, an instant being nanoseconds since Go's zero time. A nil pointer is
-- `none`. A map is an association list. A uint8 enumeration has a last constructor for the values
-- past the named ones. A SQL expression has a value, NULL or an error, as in Postgres. A Go string
-- that is compared byte by byte is the list of its bytes.
--
-- A transaction of internal/gameplay runs on two stores: `seen` stands for what its reads without a
-- lock saw, `s` for the store from its first lock on. Nothing relates the two, so the theorems hold
-- for every interleaving that READ COMMITTED allows. A failure leaves `s` as it was. The packages
-- regexp, crypto/sha256 and encoding/json are parameters (Gameplay/Check, Library).
--
-- A request of Roster runs on one roster, and the theorems on sequences of requests are about
-- requests that run one after the other. The reads that can be older than what is written are rosters
-- of their own, `seen`: the read of a join or a leave before its transaction, and the users that the
-- statement of a transfer looks up without a lock, for which a sequence of requests takes the roster
-- at that moment. For the read of a join or a leave the theorems take any roster for it unless they
-- say otherwise. A statement that fails, and a transaction with it, leaves the tables as they were.
-- Password hashing and the database's `lower` are parameters (Roster/Player, Library). A channel of
-- Feed is its queue, its capacity and whether it is closed; the mutex of the broadcaster makes each
-- operation one step. Between the broadcasts of a catch-up the clients take turns, as they can while
-- the lock is free, and its two reads of the board are two tables. The parsers that the settings use
-- are parameters (Config, Library), as encoding/json is in Field. The table of settings is a list of
-- rows, in whose order the loop of buildParsed runs, and no call of its store fails.
--
-- Bounds and fuel. The theorems that compare the two engines of the curve ask for at most 65536
-- counted solves and 32-bit columns, as the table has; Overflow shows that the bound is sharp to two
-- solves. The recursion of FindCycle takes fuel, one unit for each edge target and one more, which
-- Prereq/Cycle/Decides shows to be enough.
--
-- Not modelled: annotations, manual awards, countries and languages; login, registration, tokens and
-- rate limits of internal/accounts; the organizers' edits of challenges, flags, hints and tags; the
-- environment and the store of the settings; the HTTP transport, the generated database access beyond
-- the named statements and its errors, the background jobs, the import of archives and the web
-- client. The audit trail and the texts of errors and log lines are left out throughout.
pub mod Prelude
pub mod Account
pub mod Config
pub mod Feed
pub mod Field
pub mod Flags
pub mod Gameplay
pub mod Page
pub mod Policy
pub mod Prereq
pub mod Roster
pub mod Rows
pub mod Scoring
