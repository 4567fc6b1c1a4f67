-- ===== src/Graph/Levels.antt =====
-- The loop of `topologicalSort` ends (src/workflow/execution-graph.resolver.ts): a node enters the
-- next level when its count of open dependencies falls from one to zero, which happens to a node
-- once at most, so there are no more levels than nodes, cycles or not, and one more.
use model_hub.Common.{
  ℕ, zero, suc, ◌+◌, ◌≤◌, ◌<◌, String, List, [], ◌∷◌, ◌++◌, false, not, ◌&&◌, some, ◌≡◌, refl,
  arith, length, length-append, if◌then◌else◌,
}
use model_hub.Common.Int.{ℤ, pos, ◌-ℤ◌, leb_ℤ}
use model_hub.Common.OrderedMap.{contains, add_once, get_key, set_key}
use model_hub.Graph.{
  GraphNode, ExecutionGraph, or_zero, is_zero, init_degrees, lower, visit_level, sort_levels,
  topological_sort, dependents_at, is_zero_length,
}

-- How many nodes have an open dependency.
waiting : List (String × ℤ) → ℕ
waiting [] = 0
waiting ((k, d) ∷ r) = (if leb_ℤ (pos 1) d then 1 else 0) + waiting r

waiting-set_key :
    (k : String) (d : ℤ) (r : List (String × ℤ)) → waiting (set_key k d r) ≤ suc (waiting r)
unfolding waiting
waiting-set_key k d [] = ground arith
waiting-set_key k d ((j, e) ∷ r) = ground (arith, waiting-set_key k d r)

-- Lowering one degree, which may free one node.
waiting-lower_one :
    (v : String) (r : List (String × ℤ))
    → waiting (set_key v (or_zero (get_key v r) -ℤ pos 1) r)
        + (if is_zero (or_zero (get_key v r) -ℤ pos 1) then 1 else 0)
      ≤ waiting r
unfolding waiting ◌-ℤ◌
waiting-lower_one v [] = ground arith
waiting-lower_one v ((j, e) ∷ r) = ground (arith, waiting-lower_one v r)

waiting-lower :
    (vs : List String) (degrees : List (String × ℤ)) (visited next : List String)
    → waiting (lower vs (degrees, visited, next)).0 + length (lower vs (degrees, visited, next)).2
      ≤ waiting degrees + length next
unfolding lower
waiting-lower [] degrees visited next = omega arith
waiting-lower (v ∷ vs) degrees visited next =
    let degree = or_zero (get_key v degrees) -ℤ pos 1 in
    let later =
      waiting-lower vs (set_key v degree degrees) visited
        (if is_zero degree && not (contains v visited) then next ++ (v ∷ []) else next) in
    ground (arith, waiting-lower_one v degrees, length-append next (v ∷ []))

nonempty_length : (xs : List String) → is_zero_length xs ≡ false → 0 < length xs
nonempty_length [] h = ground arith
nonempty_length (x ∷ xs) h = omega arith

module _ {D : Type 0} (m : List (String × GraphNode D)) where
  waiting-visit_level :
      (ks : List String) (degrees : List (String × ℤ)) (visited next : List String)
      → waiting (visit_level m ks (degrees, visited, next)).0
          + length (visit_level m ks (degrees, visited, next)).2
        ≤ waiting degrees + length next
  unfolding visit_level
  waiting-visit_level [] degrees visited next = omega arith
  waiting-visit_level (k ∷ ks) degrees visited next =
      let (d, v, n) = lower (dependents_at k m) (degrees, add_once k visited, next) in
      omega (
        arith,
        waiting-lower (dependents_at k m) degrees (add_once k visited) next,
        waiting-visit_level ks d v n,
      )

  waiting-init_degrees :
      (r : List (String × GraphNode D)) (d : List (String × ℤ))
      → waiting (init_degrees r d) ≤ length r + waiting d
  waiting-init_degrees [] d = omega arith
  waiting-init_degrees ((k, n) ∷ r) d = omega (
    arith,
    waiting-init_degrees r (set_key k (pos (length n.dependencies)) d),
    waiting-set_key k (pos (length n.dependencies)) d,
  )

  -- One turn of the loop, where the rest ends.
  sort_levels_turn :
      (fuel : ℕ) (k : String) (ks : List String) (degrees : List (String × ℤ))
      (visited : List String) (levels : List (List String))
      → sort_levels fuel m
          (visit_level m (k ∷ ks) (degrees, visited, [])).2
          (visit_level m (k ∷ ks) (degrees, visited, [])).0
          (visit_level m (k ∷ ks) (degrees, visited, [])).1
        ≡ some levels
      → sort_levels (suc fuel) m (k ∷ ks) degrees visited ≡ some ((k ∷ ks) ∷ levels)
  unfolding sort_levels
  sort_levels_turn fuel k ks degrees visited levels h = rw (h, sort_levels) refl

  sort_levels-ends :
      (fuel : ℕ) (ks : List String) (degrees : List (String × ℤ)) (visited : List String)
      → (is_zero_length ks ≡ false → waiting degrees < fuel)
      → (levels : List (List String)) × (sort_levels fuel m ks degrees visited ≡ some levels)
  unfolding sort_levels
  sort_levels-ends fuel [] degrees visited h = ([], refl)
  sort_levels-ends zero (k ∷ ks) degrees visited h = let low = h refl in absurd (omega arith)
  sort_levels-ends (suc fuel) (k ∷ ks) degrees visited h =
      let (d, v, next) = visit_level m (k ∷ ks) (degrees, visited, []) in
      let low = h refl in
      let fewer = waiting-visit_level (k ∷ ks) degrees visited [] in
      let (levels, run) =
        sort_levels-ends fuel next d v (λ more. ground (arith, nonempty_length next more)) in
      ((k ∷ ks) ∷ levels, sort_levels_turn fuel k ks degrees visited levels run)

-- The sort of any graph ends, cycles or not: one more step than the graph has nodes is enough.
pub topological_sort-ends :
    {D : Type 0} (g : ExecutionGraph D)
    → (levels : List (List String)) × (topological_sort (suc (length g.nodes)) g ≡ some levels)
unfolding topological_sort waiting
topological_sort-ends g =
    let few = waiting-init_degrees g.nodes g.nodes [] in
    sort_levels-ends g.nodes (suc (length g.nodes)) g.entry_nodes (init_degrees g.nodes []) []
      (λ more. omega arith)
