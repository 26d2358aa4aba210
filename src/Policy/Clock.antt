-- ===== src/Policy/Clock.antt =====
-- The phase of the event and the spelling of the visibility settings (policy.go).
use Prim.Native.String.{String}
use text.Mathlib.TextEquality.{eq_iff}
use flagfish.Prelude.{ℕ, ◌≤◌, ◌<◌, ◌≡◌, ◌≢◌, ◌↔◌, Option, none, some, arith}
use flagfish.Policy.Types.{
  before_start, running, Vis, public, private, admins, hidden, mlc, other, phase_at, vis_name,
  parse_vis,
}

-- the clock has passed the start, if one is set
abbrev pub Started : ℕ → Option ℕ → Type 0
Started now none = Unit
Started now (some s) = s < now

-- the clock has not passed the end, if one is set
abbrev pub NotOver : ℕ → Option ℕ → Type 0
NotOver now none = Unit
NotOver now (some e) = now ≤ e

-- The event runs exactly while the clock is strictly past the start and not past the end, where
-- they are set: the instant of the start itself is still before the event, that of the end is in it.
phase_at-running :
    (now : ℕ) (start end : Option ℕ)
    → (phase_at now start end ≡ running) ↔ (Started now start × NotOver now end)
unfolding phase_at
phase_at-running now start end = ground arith

-- Before the start the phase is `before_start` even where the end has passed already.
pub phase_at-before_start :
    (now : ℕ) (start end : Option ℕ) → (phase_at now start end ≡ before_start) ↔ ¬ Started now start
unfolding phase_at
phase_at-before_start now start end = ground arith

-- The five spellings differ pairwise.
record Distinct : Type 0 where
  private_public : ◌≢◌ {A = String} "private" "public"
  admins_public : ◌≢◌ {A = String} "admins" "public"
  admins_private : ◌≢◌ {A = String} "admins" "private"
  hidden_public : ◌≢◌ {A = String} "hidden" "public"
  hidden_private : ◌≢◌ {A = String} "hidden" "private"
  hidden_admins : ◌≢◌ {A = String} "hidden" "admins"
  mlc_public : ◌≢◌ {A = String} "mlc" "public"
  mlc_private : ◌≢◌ {A = String} "mlc" "private"
  mlc_admins : ◌≢◌ {A = String} "mlc" "admins"
  mlc_hidden : ◌≢◌ {A = String} "mlc" "hidden"

distinct : Distinct
distinct = record {
  private_public = ground (arith, eq_iff "private" "public");
  admins_public = ground (arith, eq_iff "admins" "public");
  admins_private = ground (arith, eq_iff "admins" "private");
  hidden_public = ground (arith, eq_iff "hidden" "public");
  hidden_private = ground (arith, eq_iff "hidden" "private");
  hidden_admins = ground (arith, eq_iff "hidden" "admins");
  mlc_public = ground (arith, eq_iff "mlc" "public");
  mlc_private = ground (arith, eq_iff "mlc" "private");
  mlc_admins = ground (arith, eq_iff "mlc" "admins");
  mlc_hidden = ground (arith, eq_iff "mlc" "hidden");
}

-- A visibility setting parses from exactly its own spelling.
parse_vis-vis_name : (v : Vis) (s : String) → (parse_vis s ≡ some v) ↔ (vis_name v ≡ some s)
unfolding parse_vis vis_name
parse_vis-vis_name public s = ground (
  arith,
  distinct,
  eq_iff s "public",
  eq_iff s "private",
  eq_iff s "admins",
  eq_iff s "hidden",
  eq_iff s "mlc",
)
parse_vis-vis_name private s = ground (
  arith,
  distinct,
  eq_iff s "public",
  eq_iff s "private",
  eq_iff s "admins",
  eq_iff s "hidden",
  eq_iff s "mlc",
)
parse_vis-vis_name admins s = ground (
  arith,
  distinct,
  eq_iff s "public",
  eq_iff s "private",
  eq_iff s "admins",
  eq_iff s "hidden",
  eq_iff s "mlc",
)
parse_vis-vis_name hidden s = ground (
  arith,
  distinct,
  eq_iff s "public",
  eq_iff s "private",
  eq_iff s "admins",
  eq_iff s "hidden",
  eq_iff s "mlc",
)
parse_vis-vis_name mlc s = ground (
  arith,
  distinct,
  eq_iff s "public",
  eq_iff s "private",
  eq_iff s "admins",
  eq_iff s "hidden",
  eq_iff s "mlc",
)
parse_vis-vis_name other s = ground (
  arith,
  distinct,
  eq_iff s "public",
  eq_iff s "private",
  eq_iff s "admins",
  eq_iff s "hidden",
  eq_iff s "mlc",
)
