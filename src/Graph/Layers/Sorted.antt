-- ===== src/Graph/Layers/Sorted.antt =====
-- The levels of `topologicalSort` against `getParallelNodes`
-- (src/workflow/execution-graph.resolver.ts).
use model_hub.Common.{
  ℕ, zero, suc, String, List, [], ◌∷◌, ◌++◌, true, false, not, ◌&&◌, ◌||◌, Option, none, some, ◌≡◌,
  refl, sym, ◌∙◌, subst, arith, inl, inr, length, Bool-cases, Option-cases,
}
use model_hub.Common.Int.{ℤ, pos}
use model_hub.Common.OrderedMap.{
  contains, contains-keys, Distinct, has_key, has_of_get, get_key, keys,
}
use model_hub.Graph.{
  Workflow, ExecutionGraph, GraphNode, is_zero_length, entries_of, init_degrees, visit_level,
  sort_levels, topological_sort, resolve, get_parallel_nodes, dependencies_at, all_in,
}
use model_hub.Graph.Distinct.{resolve-AllDistinct}
use model_hub.Graph.Links.{resolve-links, has-resolve, resolve-Distinct}
use model_hub.Graph.Ready.{entries_of-keys, parallel_of-keys}
use model_hub.Graph.Lowering.{count_open, count_open-none, degree_at, degree-init_degrees}
use model_hub.Graph.Levels.{topological_sort-ends}
use model_hub.Graph.Layers.{IsLinked, IsMidway, IsClosed, Distinct→AllNew, visit_level-IsMidway}

-- Levels that follow each other: each holds, once, exactly the nodes that may run next after those
-- before it, and after the last one no node may run.
pub FollowsReady : {D : Type 0} → ExecutionGraph D → List String → List (List String) → Type 0
FollowsReady g done [] = (v : String) → contains v (get_parallel_nodes g done) ≡ false
FollowsReady g done (l ∷ ls) =
    Distinct l
    × ((v : String) → contains v l ≡ contains v (get_parallel_nodes g done))
    × FollowsReady g (done ++ l) ls

contains-append :
    (y : String) (xs ys : List String) → contains y (xs ++ ys) ≡ (contains y xs || contains y ys)
contains-append y [] ys = refl
contains-append y (x ∷ xs) ys = ground (arith, contains-append y xs ys)

all_in-append :
    (done more xs : List String) → all_in done xs ≡ true → all_in (done ++ more) xs ≡ true
all_in-append done more [] h = refl
all_in-append done more (x ∷ xs) h =
    ground (arith, all_in-append done more xs, contains-append x done more)

-- What a turn of the loop that ended must have been.
turn_of :
    (l : List String) (o : Option (List (List String))) (levels : List (List String))
    → (elim o as (λ _. Option (List (List String))) [ none ↦ none | some ls ↦ some (l ∷ ls) ])
      ≡ some levels
    → (ls : List (List String)) × (o ≡ some ls) × (levels ≡ l ∷ ls)
turn_of l none levels h = cc
turn_of l (some ls) levels h = (ls, refl, cc)

module _ {D : Type 0} (g : ExecutionGraph D) (graph : IsLinked g.nodes)
    (single : Distinct (keys g.nodes)) where
  abbrev m : List (String × GraphNode D)
  m = g.nodes

  -- At the start of a turn of the loop.
  record IsReadyFor (done ks : List String) (degrees : List (String × ℤ)) (visited : List String)
      : Type 0 where
    degree : (v : String) → degree_at v degrees ≡ pos (count_open done (dependencies_at v m))
    seen : (v : String) → contains v visited ≡ contains v done
    level :
        (v : String)
        → contains v ks
          ≡ (has_key v m && (not (contains v done) && all_in done (dependencies_at v m)))
    once : Distinct ks
    closed : IsClosed m done done

  level-IsMidway :
      (done ks : List String) (degrees : List (String × ℤ)) (visited : List String)
      → IsReadyFor done ks degrees visited
      → IsMidway m done (done ++ ks) (visit_level m ks (degrees, visited, []))
        × IsClosed m done (done ++ ks)
  level-IsMidway done ks degrees visited r =
      visit_level-IsMidway m graph done ks done degrees visited []
        (record { degree = r.degree; seen = r.seen; next = λ v. ground arith; once = refl })
        r.closed
        (Distinct→AllNew m graph done ks done r.once (λ k h. let l = r.level k in ground arith)
          (λ k h. let l = r.level k in (ground arith, ground arith)))

  turn-IsReadyFor :
      (done ks : List String) (degrees : List (String × ℤ)) (visited : List String)
      → IsReadyFor done ks degrees visited
      → IsReadyFor
          (done ++ ks)
          (visit_level m ks (degrees, visited, [])).2
          (visit_level m ks (degrees, visited, [])).0
          (visit_level m ks (degrees, visited, [])).1
  turn-IsReadyFor done ks degrees visited r =
      let (mid, c) = level-IsMidway done ks degrees visited r in
      record {
        degree = mid.degree;
        seen = mid.seen;
        level = λ v.
            mid.next v
            ∙ (let l = r.level v in
                let both = contains-append v done ks in
                let kept = all_in-append done ks (dependencies_at v m) in
                let was = r.closed.closed v in ground arith);
        once = mid.once;
        closed = record {
          closed = λ v h. all_in-append done ks (dependencies_at v m) (c.closed v h);
        };
      }

  ready-parallel :
      (done : List String) (v : String)
      → contains v (get_parallel_nodes g done)
        ≡ (has_key v m && (not (contains v done) && all_in done (dependencies_at v m)))
  unfolding get_parallel_nodes
  ready-parallel done v = parallel_of-keys done v m single

  sort_levels-FollowsReady :
      (fuel : ℕ) (done ks : List String) (degrees : List (String × ℤ)) (visited : List String)
      (levels : List (List String))
      → IsReadyFor done ks degrees visited
      → sort_levels fuel m ks degrees visited ≡ some levels
      → FollowsReady g done levels
  unfolding FollowsReady sort_levels
  sort_levels-FollowsReady fuel done [] degrees visited [] r h =
      λ v. ready-parallel done v ∙ sym (r.level v)
  sort_levels-FollowsReady fuel done [] degrees visited (l ∷ levels) r h = cc
  sort_levels-FollowsReady zero done (k ∷ ks) degrees visited levels r h = cc
  sort_levels-FollowsReady (suc fuel) done (k ∷ ks) degrees visited levels r h =
      let (d, v, next) = visit_level m (k ∷ ks) (degrees, visited, []) in
      let (ls, run, eq) = turn_of (k ∷ ks) (sort_levels fuel m next d v) levels h in
      subst (FollowsReady g done) (sym eq) (
        r.once,
        (λ j. r.level j ∙ sym (ready-parallel done j)),
        sort_levels-FollowsReady fuel (done ++ (k ∷ ks)) next d v ls
            (turn-IsReadyFor done (k ∷ ks) degrees visited r) run,
      )

all_in-empty : (xs : List String) → all_in [] xs ≡ is_zero_length xs
all_in-empty [] = refl
all_in-empty (x ∷ xs) = refl

module _ {D : Type 0} where
  entries_of-Distinct :
      (m : List (String × GraphNode D)) → Distinct (keys m) → Distinct (entries_of m)
  entries_of-Distinct [] d = refl
  entries_of-Distinct ((k, n) ∷ r) (fresh, d) = elim (Bool-cases (is_zero_length n.dependencies)) [
    | inl empty ↦
        rw (empty) (
          entries_of-keys k r d ∙ rw (sym (contains-keys k r), fresh) refl,
          entries_of-Distinct r d,
        )
    | inr full ↦ rw (full) (entries_of-Distinct r d)
  ]

  dependencies-missing :
      (v : String) (m : List (String × GraphNode D))
      → has_key v m ≡ false
      → dependencies_at v m ≡ []
  dependencies-missing v m h = elim (Option-cases (get_key v m)) [
    | inl e ↦ rw (e, dependencies_at) refl
    | inr (n, e) ↦ let there = has_of_get v m n e in cc
  ]

  resolve-IsLinked : (w : Workflow D) → IsLinked (resolve w).nodes
  resolve-IsLinked w = record {
    distinct = resolve-AllDistinct w;
    linked = λ u v. (resolve-links w u v).1;
    known = λ u v h.
        let (deps, outs) = resolve-links w u v in let there = has-resolve w v in ground arith;
  }

  start-degree :
      (w : Workflow D) (v : String)
      → degree_at v (init_degrees (resolve w).nodes [])
        ≡ pos (count_open [] (dependencies_at v (resolve w).nodes))
  start-degree w v =
      degree-init_degrees (resolve w).nodes [] v (resolve-Distinct w)
      ∙ rw (count_open-none (dependencies_at v (resolve w).nodes))
          (elim (Bool-cases (has_key v (resolve w).nodes)) [
            | inl here ↦ rw (here) refl
            | inr missing ↦ rw (missing, dependencies-missing v (resolve w).nodes missing) refl
          ])

  start-IsReadyFor :
      (w : Workflow D)
      → IsReadyFor
          (resolve w)
          (resolve-IsLinked w)
          (resolve-Distinct w)
          []
          (resolve w).entry_nodes
          (init_degrees (resolve w).nodes [])
          []
  unfolding resolve
  start-IsReadyFor w = record {
    degree = start-degree w;
    seen = λ v. refl;
    level = λ v.
        entries_of-keys v (resolve w).nodes (resolve-Distinct w)
        ∙ rw (all_in-empty (dependencies_at v (resolve w).nodes)) refl;
    once = entries_of-Distinct (resolve w).nodes (resolve-Distinct w);
    closed = record { closed = λ v h. cc };
  }

  -- The sort of a workflow's graph ends within one step more than there are nodes, and its levels
  -- follow each other: each holds, without repetition, exactly the nodes that `getParallelNodes`
  -- names once those before it have run, and after the last level it names none.
  pub topological_sort-FollowsReady :
      (w : Workflow D)
      → (levels : List (List String)) × (topological_sort
            (suc (length (resolve w).nodes))
            (resolve w)
          ≡ some levels)
        × FollowsReady (resolve w) [] levels
  unfolding topological_sort
  topological_sort-FollowsReady w =
      let (levels, run) = topological_sort-ends (resolve w) in
      (
        levels,
        run,
        sort_levels-FollowsReady (resolve w) (resolve-IsLinked w) (resolve-Distinct w)
            (suc (length (resolve w).nodes)) [] (resolve w).entry_nodes
            (init_degrees (resolve w).nodes []) [] levels (start-IsReadyFor w) run,
      )
