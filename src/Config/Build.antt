-- ===== src/Config/Build.antt =====
-- internal/config/snapshot.go, from `Build` on: the table parsed into a snapshot, and the rules that
-- read several keys at once. A table is a list of rows; a problem is named by its key, and a rule by
-- its index in `coherence_rules`.
use Prim.Native.String.{String}
use text.Mathlib.Text.{◌==◌ as str_eq}
use flagfish.Prelude.{
  ℕ, ◌+◌, Bool, true, false, not, ◌&&◌, ◌||◌, Option, none, some, List, [], ◌∷◌, ◌++◌,
  if◌then◌else◌,
}
use flagfish.Prelude.Int.{ℤ, pos, ltb_ℤ}
use flagfish.Account.{Mode, users, teams, unknown, parse_mode}
use flagfish.Config.{Library, Snapshot, defaults}
use flagfish.Config.Registry.{Setter, lookup_key}

pub record Row : Type 0 where
  pub key : String
  pub value : String

-- `m[key]`
unfoldable pub value_of : String → List Row → Option String
value_of key [] = none
value_of key (r ∷ rs) =
    let rest = value_of key rs in if str_eq r.key key then some r.value else rest

-- the snapshot so far and the keys of the problems
pub record Parsed : Type 0 where
  pub snap : Snapshot
  pub problems : List String

abbrev pub note_problem : String → Parsed → Parsed
note_problem key p = record p { problems = p.problems ++ (key ∷ []) }

abbrev pub assigned : String → Parsed → Option Snapshot → Parsed
assigned key p none = note_problem key p
assigned key p (some s) = record p { snap = s }

-- the body of the loop of `buildParsed` for a known key
unfoldable pub apply_setter : Library → Row → Option Setter → Parsed → Parsed
apply_setter lib row none p = p
apply_setter lib row (some set) p =
    if str_eq (lib.trim_space row.value) "" then p else assigned row.key p (set p.snap row.value)

unfoldable pub parse_row : Library → Row → Parsed → Parsed
unfolding lookup_key apply_setter
parse_row lib row p = elim (lookup_key lib row.key) [
  | none ↦ p
  | some def ↦ apply_setter lib row def.set p
]

-- the loop of `buildParsed`
unfoldable pub parse_rows : Library → List Row → Parsed → Parsed
unfolding parse_row
parse_rows lib [] p = p
parse_rows lib (row ∷ rows) p = parse_rows lib rows (parse_row lib row p)

abbrev pub same_mode : Mode → Mode → Bool
same_mode users users = true
same_mode teams teams = true
same_mode unknown unknown = true
same_mode _ _ = false

abbrev pub agrees : Mode → Option Mode → Bool
agrees m none = true
agrees m (some inst) = same_mode m inst

-- `checkModeAgreement`
unfoldable pub check_mode_agreement : Library → List Row → Option Mode → Bool
unfolding parse_mode value_of
check_mode_agreement lib rows inst = elim (value_of "user_mode" rows) [
  | none ↦ true
  | some v ↦
      if str_eq (lib.trim_space v) ""
      then true
      else elim (parse_mode v) [ none ↦ false | some m ↦ agrees m inst ]
]

abbrev pub initial : Option Mode → Parsed
initial none = record { snap = defaults; problems = [] }
initial (some mode) = record { snap = record defaults { mode = mode }; problems = [] }

pub data Built : Type 0 where
  built : Snapshot → Built
  unparsed : List String → Built

abbrev pub finish : Bool → Parsed → Built
finish true p = elim p.problems [ [] ↦ built p.snap | k ∷ ks ↦ unparsed (k ∷ ks) ]
finish false p = unparsed (p.problems ++ ("user_mode" ∷ []))

-- `buildParsed`
unfoldable pub build_parsed : Library → List Row → Option Mode → Built
unfolding parse_rows check_mode_agreement
build_parsed lib rows inst =
    finish (check_mode_agreement lib rows inst) (parse_rows lib rows (initial inst))

-- `coherenceRule`: `check` is true on the snapshots that break the rule
pub record Rule : Type 0 where
  pub keys : List String
  pub broken : Snapshot → Bool

-- both times are set and the test holds of them
abbrev pub both : (ℤ → ℤ → Bool) → Option ℤ → Option ℤ → Bool
both test (some a) (some b) = test a b
both test _ _ = false

abbrev pub is_set : String → Bool
is_set s = not (str_eq s "")

abbrev pub is_users : Mode → Bool
is_users users = true
is_users _ = false

abbrev pub rule : String → String → (Snapshot → Bool) → Rule
rule k l broken = record { keys = k ∷ l ∷ []; broken = broken }

-- `coherenceRules`
unfoldable pub coherence_rules : List Rule
coherence_rules =
    rule "start" "end" (λ s. both (λ a b. not (ltb_ℤ a b)) s.start s.end)
    ∷ rule "freeze" "start" (λ s. both (λ f a. ltb_ℤ f a) s.freeze s.start)
    ∷ rule "freeze" "end" (λ s. both (λ f b. ltb_ℤ b f) s.freeze s.end)
    ∷ rule "team_size" "user_mode" (λ s. is_users s.mode && ltb_ℤ (pos 0) s.team_size)
    ∷ rule "mail_server" "mail_port"
        (λ s. is_set s.mail_server && (ltb_ℤ s.mail_port (pos 1) || ltb_ℤ (pos 65535) s.mail_port))
    ∷ rule "mail_server" "mailfrom_addr" (λ s. is_set s.mail_server && not (is_set s.mail_from))
    ∷ rule "mail_password" "mail_username"
        (λ s. is_set s.mail_password && not (is_set s.mail_username))
    ∷ rule "verify_emails" "mail_server" (λ s. s.verify_emails && not (is_set s.mail_server))
    ∷ rule "webhook_enabled" "webhook_url" (λ s. s.webhook_enabled && not (is_set s.webhook_url))
    ∷ []

-- the rules of the list that a snapshot breaks, numbered from an index
unfoldable pub violations_from : ℕ → List Rule → Snapshot → List ℕ
violations_from i [] s = []
violations_from i (r ∷ rs) s =
    let rest = violations_from (i + 1) rs s in if r.broken s then i ∷ rest else rest

-- `Snapshot.violations`
unfoldable pub violations : List Rule → Snapshot → List ℕ
unfolding violations_from
violations rules s = violations_from 0 rules s

abbrev pub or_refused : List ℕ → Snapshot → Option Snapshot
or_refused [] s = some s
or_refused (_ ∷ _) s = none

unfoldable pub judged : List Rule → Built → Option Snapshot
unfolding violations
judged rules (unparsed _) = none
judged rules (built s) = or_refused (violations rules s) s

-- `Build`, `none` for its error
unfoldable pub build : Library → List Rule → List Row → Option Mode → Option Snapshot
unfolding build_parsed judged
build lib rules rows inst = judged rules (build_parsed lib rows inst)
