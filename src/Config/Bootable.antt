-- ===== src/Config/Bootable.antt =====
-- internal/config/manager.go: what the writes of a running process leave for its next start.
use mathlib.Core.Path.{subst}
use flagfish.Prelude.{
  ◌≡◌, ◌∙◌, refl, arith, ap, sym, if◌then◌else◌, ℕ, true, false, Option, some, List, [], ◌∷◌,
}
use flagfish.Account.{Mode}
use flagfish.Config.{Library, Snapshot}
use flagfish.Config.Build.{Row, Rule, Built, built, unparsed, build_parsed, violations}
use flagfish.Config.Manager.{
  Manager, Outcome, stored, rejected, under_declared, unreadable, load, refresh, boot, started,
  unloaded, unless_problems, copy_over, has, broken_in, broken_before, check_coherence, replace,
  settle, set, refuse_withdrawn, writes,
}
use flagfish.Config.Coherent.{check-stored, replace-load}

abbrev Booted : Library → List Rule → Manager → Type 0
Booted lib rules m = boot lib rules m.rows m.instance_mode ≡ some m

started-broken :
    (rules : List Rule) (u m : Manager) (b : Built)
    → started (load rules u b) ≡ some m
    → broken_in rules b ≡ []
unfolding started load broken_in
started-broken rules u m (unparsed ks) h = ground (arith, h)
started-broken rules u m (built s) h =
    elim (violations rules s)
        as (λ vs.
          unless_problems vs (record u { snap = some s; problems = vs }) ≡ some m → vs ≡ []) [
            | [] ↦ λ _. refl
            | v ∷ vs ↦ λ e. ground (arith, e)
          ]
      h

Booted-broken :
    (lib : Library) (rules : List Rule) (m : Manager)
    → Booted lib rules m
    → broken_before lib rules m ≡ []
unfolding boot refresh broken_before
Booted-broken lib rules m h =
    started-broken rules (unloaded m.rows m.instance_mode) m
      (build_parsed lib m.rows m.instance_mode) h

has_none : (vs : List ℕ) → ((j : ℕ) → has j vs ≡ true → ⊥) → vs ≡ []
unfolding has
has_none [] n = refl
has_none (v ∷ vs) n = ground (arith, n v)

-- A write that passes over a table that breaks no rule leaves one that breaks none.
check-coherent :
    (lib : Library) (rules : List Rule) (merged : Snapshot) (m : Manager) (kv : List Row)
    → broken_before lib rules m ≡ []
    → check_coherence lib rules merged m kv ≡ stored
    → violations rules merged ≡ []
unfolding has
check-coherent lib rules merged m kv e h = has_none (violations rules merged) (λ j v.
    let old =
      subst (λ (vs : List ℕ). has j vs ≡ true) e (check-stored lib rules merged m kv h j v).0 in
    ground (arith, old))

started-loaded :
    (rules : List Rule) (u : Manager) (s : Snapshot)
    → violations rules s ≡ []
    → started (load rules u (built s))
      ≡ some (record u { snap = some s; problems = violations rules s })
unfolding started load
started-loaded rules u s e =
    subst
      (λ (vs : List ℕ).
        unless_problems vs (record u { snap = some s; problems = vs })
        ≡ some (record u { snap = some s; problems = vs }))
      (sym e) refl

boot-loaded :
    (lib : Library) (rules : List Rule) (rows : List Row) (inst : Option Mode) (s : Snapshot)
    → build_parsed lib rows inst ≡ built s
    → violations rules s ≡ []
    → boot lib rules rows inst
      ≡ some (record {
        rows = rows;
        instance_mode = inst;
        snap = some s;
        problems = violations rules s;
      })
unfolding boot refresh
boot-loaded lib rules rows inst s h v =
    ap (λ (b : Built). started (load rules (unloaded rows inst) b)) h
    ∙ started-loaded rules (unloaded rows inst) s v

replace-Booted :
    (lib : Library) (rules : List Rule) (m : Manager) (kv : List Row) (s : Snapshot) (o : Outcome)
    → build_parsed lib (copy_over m.rows kv) m.instance_mode ≡ built s
    → (o ≡ stored → violations rules s ≡ [])
    → Booted lib rules m
    → Booted lib rules (replace lib rules m kv o).0
unfolding replace load
replace-Booted lib rules m kv s stored h v b =
    subst (λ (r : Manager × Outcome). Booted lib rules r.0)
      (sym (replace-load lib rules m kv (built s) h))
      (boot-loaded lib rules (copy_over m.rows kv) m.instance_mode s h (v refl))
replace-Booted lib rules m kv s rejected h v b = b
replace-Booted lib rules m kv s under_declared h v b = b
replace-Booted lib rules m kv s unreadable h v b = b

settle-Booted :
    (lib : Library) (rules : List Rule) (kv : List Row) (m : Manager) (b : Built)
    → build_parsed lib (copy_over m.rows kv) m.instance_mode ≡ b
    → Booted lib rules m
    → Booted lib rules (settle lib rules kv m b).0
unfolding settle
settle-Booted lib rules kv m (unparsed ks) h i = i
settle-Booted lib rules kv m (built s) h i =
    replace-Booted lib rules m kv s (check_coherence lib rules s m kv) h
      (check-coherent lib rules s m kv (Booted-broken lib rules m i)) i

set-Booted :
    (lib : Library) (rules : List Rule) (kv : List Row) (m : Manager)
    → Booted lib rules m
    → Booted lib rules (set lib rules kv m).0
unfolding set
set-Booted lib rules kv m i =
    let b = build_parsed lib (copy_over m.rows kv) m.instance_mode in
    elim (refuse_withdrawn lib kv)
      as (λ r. Booted lib rules (if r then (m, rejected) else settle lib rules kv m b).0) [
        | true ↦ i
        | false ↦ settle-Booted lib rules kv m b refl i
      ]

-- From a process that booted, no sequence of writes, accepted or refused, leaves a table that the
-- next boot refuses: the next boot serves what the running process serves, without a problem.
pub writes-boot :
    (lib : Library) (rules : List Rule) (kvs : List (List Row)) (m : Manager)
    → boot lib rules m.rows m.instance_mode ≡ some m
    → boot lib rules (writes lib rules kvs m).rows (writes lib rules kvs m).instance_mode
      ≡ some (writes lib rules kvs m)
unfolding writes
writes-boot lib rules [] m i = i
writes-boot lib rules (kv ∷ kvs) m i =
    writes-boot lib rules kvs (set lib rules kv m).0 (set-Booted lib rules kv m i)
