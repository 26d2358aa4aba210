-- ===== src/Prereq/Cycle/Tests.antt =====
-- A graph with a dead end, a cycle through node 1 and a cycle that misses node 4.
use flagfish.Prelude.{ℕ, ◌≡◌, ◌⊎◌, List, [], ◌∷◌}
use flagfish.Prereq.Cycle.{Edges, find_cycle, found, exhausted}
use flagfish.Prereq.Cycle.Walks.{IsCycle}
use flagfish.Prereq.Cycle.Decides.{find_cycle_decides}

abbrev graph : Edges
graph = (1, 9 ∷ 2 ∷ []) ∷ (2, 3 ∷ []) ∷ (3, 1 ∷ []) ∷ (4, 2 ∷ []) ∷ []

find_cycle_decides_example :
    ((p : List ℕ) × (find_cycle graph 4 ≡ found p) × IsCycle graph 4 p)
    ⊎ ((w : List ℕ) × (find_cycle graph 4 ≡ exhausted w) × ((p : List ℕ) → ¬ IsCycle graph 4 p))
find_cycle_decides_example = find_cycle_decides graph 4
