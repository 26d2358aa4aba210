-- ===== src/Config/Manager.antt =====
-- internal/config/manager.go: the manager that serves a snapshot and judges each write against the
-- table it would leave. The store is the table of one deployment; its calls do not fail.
use Prim.Native.String.{String}
use text.Mathlib.Text.{◌==◌ as str_eq}
use flagfish.Prelude.{
  ℕ, zero, suc, Bool, true, false, ◌&&◌, ◌||◌, Option, none, some, List, [], ◌∷◌, ◌==◌,
  if◌then◌else◌,
}
use flagfish.Account.{Mode}
use flagfish.Config.{Library, Snapshot}
use flagfish.Config.Registry.{KeyDef, lookup_key}
use flagfish.Config.Build.{Row, Rule, Built, built, unparsed, value_of, build_parsed, violations}

pub record Manager : Type 0 where
  pub rows : List Row
  pub instance_mode : Option Mode
  pub snap : Option Snapshot
  pub problems : List ℕ

unfoldable pub upsert : Row → List Row → List Row
upsert row [] = row ∷ []
upsert row (r ∷ rs) =
    let rest = upsert row rs in if str_eq r.key row.key then row ∷ rs else r ∷ rest

-- `maps.Copy(merged, kv)`, and what `Replace` stores
unfoldable pub copy_over : List Row → List Row → List Row
unfolding upsert
copy_over rows [] = rows
copy_over rows (kv ∷ kvs) = copy_over (upsert kv rows) kvs

-- the end of `Refresh` on what `buildParsed` returns
unfoldable pub load : List Rule → Manager → Built → Manager × Bool
unfolding violations
load rules m (unparsed _) = (m, false)
load rules m (built s) = (record m { snap = some s; problems = violations rules s }, true)

-- `Refresh`: the Boolean is false on its error
unfoldable pub refresh : Library → List Rule → Manager → Manager × Bool
unfolding build_parsed load
refresh lib rules m = load rules m (build_parsed lib m.rows m.instance_mode)

abbrev pub unless_problems : List ℕ → Manager → Option Manager
unless_problems [] m = some m
unless_problems (_ ∷ _) m = none

-- the end of `New`
unfoldable pub started : Manager × Bool → Option Manager
started loaded = if loaded.1 then unless_problems loaded.0.problems loaded.0 else none

abbrev pub unloaded : List Row → Option Mode → Manager
unloaded rows inst = record { rows = rows; instance_mode = inst; snap = none; problems = [] }

-- `New`, `none` for its error
unfoldable pub boot : Library → List Rule → List Row → Option Mode → Option Manager
unfolding refresh started
boot lib rules rows inst = started (refresh lib rules (unloaded rows inst))

-- `refuseMLC` on a key that refuses it
abbrev pub is_withdrawn : Library → Row → Option KeyDef → Bool
is_withdrawn lib row none = false
is_withdrawn lib row (some def) = def.refuses_mlc && str_eq (lib.trim_space row.value) "mlc"

-- `refuseWithdrawn`: true is the refusal
unfoldable pub refuse_withdrawn : Library → List Row → Bool
unfolding lookup_key
refuse_withdrawn lib [] = false
refuse_withdrawn lib (row ∷ rows) =
    is_withdrawn lib row (lookup_key lib row.key) || refuse_withdrawn lib rows

-- `touchesAny`
unfoldable pub touches_any : List String → List Row → Bool
unfolding value_of
touches_any [] kv = false
touches_any (k ∷ ks) kv =
    let rest = touches_any ks kv in elim (value_of k kv) [ none ↦ rest | some _ ↦ true ]

unfoldable pub has : ℕ → List ℕ → Bool
has i [] = false
has i (j ∷ js) = (i == j) || has i js

-- the keys of the rule at an index
unfoldable pub keys_of : ℕ → List Rule → List String
keys_of i [] = []
keys_of zero (r ∷ rs) = r.keys
keys_of (suc i) (r ∷ rs) = keys_of i rs

pub data Outcome : Type 0 where
  stored rejected under_declared unreadable : Outcome

-- the loop of `checkCoherence`, with whether a rule has refused the write
unfoldable pub judge : List Rule → List Row → List ℕ → List ℕ → Bool → Outcome
unfolding touches_any keys_of has
judge rules kv before [] refused = if refused then rejected else stored
judge rules kv before (i ∷ is) refused =
    let touched = judge rules kv before is true in
    let tolerated = judge rules kv before is refused in
    if touches_any (keys_of i rules) kv
    then touched
    else if has i before
    then tolerated
    else under_declared

unfoldable pub broken_in : List Rule → Built → List ℕ
unfolding violations
broken_in rules (unparsed _) = []
broken_in rules (built s) = violations rules s

-- the rules broken before the write: none when the table does not parse
unfoldable pub broken_before : Library → List Rule → Manager → List ℕ
unfolding build_parsed broken_in
broken_before lib rules m = broken_in rules (build_parsed lib m.rows m.instance_mode)

-- `checkCoherence`
unfoldable pub check_coherence : Library → List Rule → Snapshot → Manager → List Row → Outcome
unfolding judge broken_before violations
check_coherence lib rules merged m kv =
    judge rules kv (broken_before lib rules m) (violations rules merged) false

abbrev pub refreshed : Manager × Bool → Manager × Outcome
refreshed r = (r.0, (if r.1 then stored else unreadable))

-- the end of `Set`: the write and the refresh, when the write is coherent
unfoldable pub replace : Library → List Rule → Manager → List Row → Outcome → Manager × Outcome
unfolding refresh copy_over
replace lib rules m kv stored =
    refreshed (refresh lib rules (record m { rows = copy_over m.rows kv }))
replace lib rules m kv rejected = (m, rejected)
replace lib rules m kv under_declared = (m, under_declared)
replace lib rules m kv unreadable = (m, unreadable)

-- the half of `Set` after `buildParsed` on the merged table
unfoldable pub settle : Library → List Rule → List Row → Manager → Built → Manager × Outcome
unfolding check_coherence replace
settle lib rules kv m (unparsed _) = (m, rejected)
settle lib rules kv m (built merged) =
    replace lib rules m kv (check_coherence lib rules merged m kv)

-- `Set`
unfoldable pub set : Library → List Rule → List Row → Manager → Manager × Outcome
unfolding refuse_withdrawn build_parsed copy_over settle
set lib rules kv m =
    if refuse_withdrawn lib kv
    then (m, rejected)
    else settle lib rules kv m (build_parsed lib (copy_over m.rows kv) m.instance_mode)

-- a sequence of calls of `Set`
unfoldable pub writes : Library → List Rule → List (List Row) → Manager → Manager
unfolding set
writes lib rules [] m = m
writes lib rules (kv ∷ kvs) m = writes lib rules kvs (set lib rules kv m).0
