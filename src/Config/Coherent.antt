-- ===== src/Config/Coherent.antt =====
-- internal/config/manager.go: what a write through `Set` can leave behind, and what boots.
use mathlib.Core.Path.{subst}
use flagfish.Prelude.{
  ◌≡◌, ◌≢◌, refl, arith, ap, if◌then◌else◌, ℕ, Bool, true, false, Option, none, some, List, [], ◌∷◌,
}
use flagfish.Account.{Mode}
use flagfish.Config.{Library, Snapshot}
use flagfish.Config.Build.{
  Row, Rule, Built, built, unparsed, build_parsed, violations, build, judged, or_refused,
}
use flagfish.Config.Manager.{
  Manager, Outcome, stored, rejected, under_declared, unreadable, refresh, boot, copy_over, has,
  keys_of, touches_any, judge, broken_before, refreshed, load, settle, started, unless_problems,
  unloaded, check_coherence, replace, set, refuse_withdrawn,
}

judge-refused :
    (rules : List Rule) (kv : List Row) (before is : List ℕ)
    → judge rules kv before is true ≢ stored
unfolding judge
judge-refused rules kv before [] = ground arith
judge-refused rules kv before (i ∷ is) = ground (arith, judge-refused rules kv before is)

-- A write that passes is disjoint from every rule the merged table breaks, and broke it before.
judge-stored :
    (rules : List Rule) (kv : List Row) (before is : List ℕ) (refused : Bool)
    → judge rules kv before is refused ≡ stored
    → (j : ℕ) → has j is ≡ true
    → (has j before ≡ true) × (touches_any (keys_of j rules) kv ≡ false)
unfolding judge has
judge-stored rules kv before [] refused h j m = ground arith
judge-stored rules kv before (i ∷ is) refused h j m = ground (
  arith,
  judge-refused rules kv before is,
  λ (p : judge rules kv before is refused ≡ stored) (q : has j is ≡ true).
      judge-stored rules kv before is refused p j q,
)

pub check-stored :
    (lib : Library) (rules : List Rule) (merged : Snapshot) (m : Manager) (kv : List Row)
    → check_coherence lib rules merged m kv ≡ stored
    → (j : ℕ) → has j (violations rules merged) ≡ true
    → (has j (broken_before lib rules m) ≡ true) × (touches_any (keys_of j rules) kv ≡ false)
unfolding check_coherence
check-stored lib rules merged m kv h j v =
    judge-stored rules kv (broken_before lib rules m) (violations rules merged) false h j v

replace-stored :
    (lib : Library) (rules : List Rule) (m : Manager) (kv : List Row) (o : Outcome)
    → (replace lib rules m kv o).1 ≡ stored
    → o ≡ stored
unfolding replace
replace-stored lib rules m kv stored h = refl
replace-stored lib rules m kv rejected h = h
replace-stored lib rules m kv under_declared h = h
replace-stored lib rules m kv unreadable h = h

-- The refresh after the write loads the merged table, whose parse is known.
pub replace-load :
    (lib : Library) (rules : List Rule) (m : Manager) (kv : List Row) (b : Built)
    → build_parsed lib (copy_over m.rows kv) m.instance_mode ≡ b
    → replace lib rules m kv stored
      ≡ refreshed (load rules (record m { rows = copy_over m.rows kv }) b)
unfolding replace refresh
replace-load lib rules m kv b h =
    ap (λ (x : Built). refreshed (load rules (record m { rows = copy_over m.rows kv }) x)) h

replace_unchanged :
    (lib : Library) (rules : List Rule) (m : Manager) (kv : List Row) (s : Snapshot) (o : Outcome)
    → build_parsed lib (copy_over m.rows kv) m.instance_mode ≡ built s
    → (replace lib rules m kv o).1 ≢ stored
    → (replace lib rules m kv o).0 ≡ m
unfolding replace
replace_unchanged lib rules m kv s stored h n =
    elim (n (ap (λ (r : Manager × Outcome). r.1) (replace-load lib rules m kv (built s) h))) [ ]
replace_unchanged lib rules m kv s rejected h n = refl
replace_unchanged lib rules m kv s under_declared h n = refl
replace_unchanged lib rules m kv s unreadable h n = refl

-- What `settle` stores comes from a merged table that parses and a check that passed.
settle-Ratchet :
    (lib : Library) (rules : List Rule) (kv : List Row) (m : Manager) (b : Built)
    → build_parsed lib (copy_over m.rows kv) m.instance_mode ≡ b
    → (settle lib rules kv m b).1 ≡ stored
    → (j : ℕ) → has j (settle lib rules kv m b).0.problems ≡ true
    → (has j (broken_before lib rules m) ≡ true) × (touches_any (keys_of j rules) kv ≡ false)
unfolding settle load
settle-Ratchet lib rules kv m (unparsed ks) h s j p = ground (arith, s)
settle-Ratchet lib rules kv m (built x) h s j p =
    let passed = replace-stored lib rules m kv (check_coherence lib rules x m kv) s in
    check-stored lib rules x m kv passed j (
      subst (λ (r : Manager × Outcome). has j r.0.problems ≡ true)
        (replace-load lib rules m kv (built x) h)
        (subst (λ (o : Outcome). has j (replace lib rules m kv o).0.problems ≡ true) passed p))

settle_unchanged :
    (lib : Library) (rules : List Rule) (kv : List Row) (m : Manager) (b : Built)
    → build_parsed lib (copy_over m.rows kv) m.instance_mode ≡ b
    → (settle lib rules kv m b).1 ≢ stored
    → (settle lib rules kv m b).0 ≡ m
unfolding settle
settle_unchanged lib rules kv m (unparsed ks) h n = refl
settle_unchanged lib rules kv m (built x) h n =
    replace_unchanged lib rules m kv x (check_coherence lib rules x m kv) h n

-- After a write that `Set` accepts, every coherence rule that the served snapshot breaks was broken
-- by the table before the write and reads no key of the write.
pub set-Ratchet :
    (lib : Library) (rules : List Rule) (kv : List Row) (m : Manager) (j : ℕ)
    → (set lib rules kv m).1 ≡ stored
    → has j (set lib rules kv m).0.problems ≡ true
    → (has j (broken_before lib rules m) ≡ true) × (touches_any (keys_of j rules) kv ≡ false)
unfolding set
set-Ratchet lib rules kv m j =
    let settled =
      settle-Ratchet lib rules kv m (build_parsed lib (copy_over m.rows kv) m.instance_mode) refl in
    elim (refuse_withdrawn lib kv)
      as (λ r.
        (if r
            then (m, rejected)
            else settle lib rules kv m (build_parsed lib (copy_over m.rows kv) m.instance_mode)).1
          ≡ stored
        → has j
            (if r
              then (m, rejected)
              else settle lib rules kv m
                  (build_parsed lib (copy_over m.rows kv) m.instance_mode)).0.problems
          ≡ true
        → (has j (broken_before lib rules m) ≡ true) × (touches_any (keys_of j rules) kv ≡ false)) [
          | true ↦ λ s p. ground (arith, s)
          | false ↦ λ s p. settled s j p
        ]

-- A write that `Set` does not report as stored leaves the manager as it was: the table, the served
-- snapshot and its problems. So the refresh after a write that is stored does not fail.
set_refused :
    (lib : Library) (rules : List Rule) (kv : List Row) (m : Manager)
    → (set lib rules kv m).1 ≢ stored
    → (set lib rules kv m).0 ≡ m
unfolding set
set_refused lib rules kv m =
    let b = build_parsed lib (copy_over m.rows kv) m.instance_mode in
    elim (refuse_withdrawn lib kv)
      as (λ r.
        (if r then (m, rejected) else settle lib rules kv m b).1 ≢ stored
        → (if r then (m, rejected) else settle lib rules kv m b).0 ≡ m) [
          | true ↦ λ n. refl
          | false ↦ settle_unchanged lib rules kv m b refl
        ]

-- the snapshot that a process serves
abbrev pub served : Option Manager → Option Snapshot
served none = none
served (some m) = m.snap

served-started :
    (rules : List Rule) (m : Manager) (b : Built)
    → served (started (load rules m b)) ≡ judged rules b
unfolding started load judged
served-started rules m (unparsed ks) = refl
served-started rules m (built s) =
    elim (violations rules s)
      as (λ vs.
        served (unless_problems vs (record m { snap = some s; problems = vs })) ≡ or_refused vs s) [
          | [] ↦ refl
          | v ∷ vs ↦ refl
        ]

-- `New` starts a process exactly when `Build` accepts the table, and the process serves the snapshot
-- that `Build` returns.
boot-build :
    (lib : Library) (rules : List Rule) (rows : List Row) (inst : Option Mode)
    → served (boot lib rules rows inst) ≡ build lib rules rows inst
unfolding boot build refresh
boot-build lib rules rows inst =
    served-started rules (unloaded rows inst) (build_parsed lib rows inst)
