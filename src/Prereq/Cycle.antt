-- ===== src/Prereq/Cycle.antt =====
-- `FindCycle` of internal/domain/prereq/serialize.go. Go's map of edges is an association list with
-- one row for each key, and the set `visited` a list. The recursion of `walk` takes fuel, one unit
-- for each depth; `out_of_fuel` is shown impossible.
pub mod Walks
pub mod Complete
pub mod Decides
pub mod Tests
use flagfish.Prelude.{
  ℕ, zero, suc, Bool, true, false, ◌||◌, List, [], ◌∷◌, ◌++◌, length, ◌==◌, if◌then◌else◌, ◌≡◌,
  refl, Option, none, some,
}

abbrev pub Edges : Type 0
Edges = List (ℕ × List ℕ)

-- `edges[from]`, nil for a missing key
unfoldable pub targets : Edges → ℕ → List ℕ
targets [] from = []
targets ((k, ts) ∷ rows) from = if k == from then ts else targets rows from

-- whether the set `visited` has the node
unfoldable pub member : ℕ → List ℕ → Bool
member x [] = false
member x (y ∷ ys) = y == x || member x ys

-- A call of `walk` returns a path, or nil with the set as it has left it.
pub data Search : Type 0 where
  found : List ℕ → Search
  exhausted : List ℕ → Search
  out_of_fuel : Search

-- What the loop does with the result of the recursive call.
abbrev pub after : Search → (List ℕ → Search) → Search
after (found path) continue = found path
after (exhausted visited) continue = continue visited
after out_of_fuel continue = out_of_fuel

-- The loop over `edges[from]`; `walk` is the recursive call, on the next node and the set.
unfoldable pub scan : (ℕ → List ℕ → Search) → ℕ → List ℕ → List ℕ → List ℕ → Search
unfolding member
scan walk start path [] visited = exhausted visited
scan walk start path (next ∷ rest) visited = elim (next == start) [
  | true ↦ found (path ++ start ∷ [])
  | false ↦ elim (member next visited) [
    | true ↦ scan walk start path rest visited
    | false ↦ after (walk next (next ∷ visited)) (scan walk start path rest)
  ]
]

unfoldable pub walk : Edges → ℕ → ℕ → List ℕ → ℕ → List ℕ → Search
unfolding targets scan
walk edges start zero path from visited = out_of_fuel
walk edges start (suc fuel) path from visited =
    let longer = path ++ from ∷ [] in
    scan (walk edges start fuel longer) start longer (targets edges from) visited

-- every node that an edge leads to
unfoldable pub all_targets : Edges → List ℕ
all_targets [] = []
all_targets ((k, ts) ∷ rows) = ts ++ all_targets rows

-- Each recursive call marks a node that an edge leads to, so the depth is at most their number.
unfoldable pub find_cycle : Edges → ℕ → Search
unfolding walk all_targets
find_cycle edges start = walk edges start (suc (length (all_targets edges))) [] start []

two_node_cycle : find_cycle ((1, 2 ∷ []) ∷ (2, 1 ∷ []) ∷ []) 1 ≡ found (1 ∷ 2 ∷ 1 ∷ [])
unfolding find_cycle
two_node_cycle = refl

behind_a_dead_end :
    find_cycle ((1, 9 ∷ 2 ∷ []) ∷ (2, 3 ∷ []) ∷ (3, 1 ∷ []) ∷ []) 1 ≡ found (1 ∷ 2 ∷ 3 ∷ 1 ∷ [])
unfolding find_cycle
behind_a_dead_end = refl

elsewhere : find_cycle ((1, 2 ∷ []) ∷ (2, 3 ∷ []) ∷ (3, 2 ∷ []) ∷ []) 1 ≡ exhausted (3 ∷ 2 ∷ [])
unfolding find_cycle
elsewhere = refl
