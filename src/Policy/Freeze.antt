-- ===== src/Policy/Freeze.antt =====
-- internal/domain/policy/freeze.go, and the freeze predicate of the standings queries
-- (internal/db/scoreboard.sql.gen.go).
use flagfish.Prelude.{ℕ, ◌≡◌, Bool, true, false, not, ◌&&◌, ◌||◌, Option, none, some, ltb, arith}
use flagfish.Policy.Types.{
  Surface, public_surface, admin_surface, RouteClass, scoreboard, scoreboard_detail, account_list,
  account_detail, challenge_list, challenge_detail, challenge_solves, statistics, export,
  admin_scoreboard, Policy, Principal, Request,
}
use flagfish.Policy.RouteClass.{attrs}
use flagfish.Policy.Decide.{decide}
use flagfish.Policy.Decide.Correct.{decide_iff}

abbrev on_admin_surface : Surface → Bool
on_admin_surface admin_surface = true
on_admin_surface public_surface = false

-- the `switch r.Class` of `FreezeExempt`
unfoldable pub exempt_for : RouteClass → Principal → Request → Bool
exempt_for scoreboard pr r = on_admin_surface r.surface || (pr.is_admin && r.preview)
exempt_for scoreboard_detail pr r = on_admin_surface r.surface
exempt_for account_detail pr r = on_admin_surface r.surface
exempt_for account_list pr r = on_admin_surface r.surface
exempt_for challenge_list pr r = pr.is_admin && r.admin_view
exempt_for challenge_detail pr r = false
exempt_for challenge_solves pr r = pr.is_admin && not r.preview
exempt_for statistics pr r = true
exempt_for export pr r = true
exempt_for admin_scoreboard pr r = true
exempt_for _ pr r = false

-- `FreezeExempt`
unfoldable pub freeze_exempt : Policy → Bool
unfolding exempt_for
freeze_exempt p = exempt_for p.r.class p.p p.r

abbrev is_set : Option ℕ → Bool
is_set none = false
is_set (some t) = true

-- `Frozen`
unfoldable pub frozen : Policy → Bool
frozen p = is_set p.e.freeze_at && not (freeze_exempt p)

-- `SuppressedByFreeze`
unfoldable pub suppressed_by_freeze : Option ℕ → ℕ → Bool
suppressed_by_freeze none date = false
suppressed_by_freeze (some freeze) date = not (ltb date freeze)

-- `cutoff IS NULL OR date < cutoff`
unfoldable pub counted_before : Option ℕ → ℕ → Bool
counted_before none date = true
counted_before (some cutoff) date = ltb date cutoff

exempt_needs_admin :
    (c : RouteClass) (pr : Principal) (r : Request)
    → pr.is_admin ≡ false
    → r.surface ≡ public_surface
    → ((attrs c).admin_only ≡ true → pr.is_admin ≡ true)
    → exempt_for c pr r ≡ false
unfolding exempt_for attrs
exempt_needs_admin statistics pr r h s a = ground arith
exempt_needs_admin c pr r h s a = ground arith

-- A caller who is not an admin and whom `Decide` lets through on the public surface is never
-- exempt from the freeze: with a freeze configured, the request is frozen.
pub allowed_public_frozen :
    (p : Policy) {t : ℕ}
    → (decide p).allow ≡ true
    → p.p.is_admin ≡ false
    → p.r.surface ≡ public_surface
    → p.e.freeze_at ≡ some t
    → (freeze_exempt p ≡ false) × (frozen p ≡ true)
unfolding frozen freeze_exempt
allowed_public_frozen p allow h s f =
    let e = exempt_needs_admin p.r.class p.p p.r h s ((decide_iff p).0 allow).admin in
    (e, ground (arith, e))

-- An event is suppressed from announcement exactly when the standings query with the freeze
-- instant as its cutoff leaves it out.
suppressed_iff_uncounted :
    (freeze : Option ℕ) (date : ℕ)
    → suppressed_by_freeze freeze date ≡ not (counted_before freeze date)
unfolding suppressed_by_freeze counted_before
suppressed_iff_uncounted freeze date = ground arith
