-- ===== src/Graph/Tests.antt =====
-- A workflow with a diamond, a cycle and an edge from a node that is missing.
use model_hub.Common.{
  ℕ, suc, String, List, [], ◌∷◌, false, ◌&&◌, not, none, some, ◌≡◌, refl, length, if◌then◌else◌,
}
use model_hub.Common.OrderedMap.{contains}
use model_hub.Graph.{
  WorkflowNode, WorkflowEdge, Workflow, resolve, dependencies_at, dependents_at, topological_sort,
  get_parallel_nodes, sort_levels, link, visit_level, lower,
}
use model_hub.Common.{Option, true, ◌≢◌, ◌↔◌}
use model_hub.Graph.Cycles.{
  Colours, Parents, found, done, out_of_fuel, climb, cycle_path, try_dependents, dfs, search_roots,
  detect_cycle,
}
use model_hub.Graph.Path.{EndsAt, IsWalk}
use model_hub.Graph.Decides.{Cycle, detect_cycle-decides}
use model_hub.Graph.Validate.{
  NodeData, ValidationResult, no_data, config_errors, check_nodes, check_edges, errors_of, validate,
}
use model_hub.Graph.Checks.{IsWellFormed}
use model_hub.Graph.Walks.{ComesBack}
use model_hub.Graph.Verdict.{validate-valid}
use model_hub.Common.Int.{◌-ℤ◌}
use model_hub.Common.OrderedMap.{get_key, has_key}
use model_hub.Graph.{resolve_node_input}
use model_hub.Graph.Input.{last_brought, get-resolve_node_input}
use model_hub.Graph.Links.{any_edge, is_declared, resolve-links}
use model_hub.Graph.Ready.{all_sources, get_parallel_nodes-all_sources, resolve-entries}
use model_hub.Graph.Levels.{topological_sort-ends}
use model_hub.Graph.Layers.Sorted.{FollowsReady, topological_sort-FollowsReady}

abbrev node : String → WorkflowNode ℕ
node k = record { id = k; type = "model"; node_data = 0 }

abbrev edge : String → String → WorkflowEdge
edge u v = record {
  id = u;
  source = record { node_id = u; port = "out" };
  target = record { node_id = v; port = "in" };
  branch_id = none;
}

abbrev flow : Workflow ℕ
flow = record {
  nodes = node "a" ∷ node "b" ∷ node "c" ∷ node "d" ∷ node "x" ∷ node "y" ∷ [];
  edges =
      edge "a" "b"
      ∷ edge "a" "c"
      ∷ edge "b" "d"
      ∷ edge "c" "d"
      ∷ edge "a" "b"
      ∷ edge "x" "y"
      ∷ edge "y" "x"
      ∷ edge "missing" "a"
      ∷ [];
}

flow_levels :
    topological_sort 7 (resolve flow) ≡ some (("a" ∷ []) ∷ ("b" ∷ "c" ∷ []) ∷ ("d" ∷ []) ∷ [])
unfolding topological_sort resolve sort_levels link visit_level lower ◌-ℤ◌
flow_levels = refl

resolve-links_example :
    (contains "a" (dependencies_at "b" (resolve flow).nodes) ≡ (
      any_edge "a" "b" (resolve flow).edges
      && is_declared "a" flow.nodes
      && is_declared "b" flow.nodes))
    × (contains "b" (dependents_at "a" (resolve flow).nodes)
        ≡ contains "a" (dependencies_at "b" (resolve flow).nodes))
resolve-links_example = resolve-links flow "a" "b"

get_parallel_nodes-all_sources_example :
    contains "d" (get_parallel_nodes (resolve flow) ("a" ∷ "b" ∷ [])) ≡ (
      is_declared "d" flow.nodes
      && (not (contains "d" ("a" ∷ "b" ∷ []))
          && all_sources (λ u. contains u ("a" ∷ "b" ∷ [])) flow.nodes "d" (resolve flow).edges))
get_parallel_nodes-all_sources_example = get_parallel_nodes-all_sources flow ("a" ∷ "b" ∷ []) "d"

resolve-entries_example :
    contains "a" (resolve flow).entry_nodes
    ≡ (is_declared "a" flow.nodes && all_sources (λ _. false) flow.nodes "a" (resolve flow).edges)
resolve-entries_example = resolve-entries flow "a"

topological_sort-ends_example :
    (levels : List (List String)) × (topological_sort
        (suc (length (resolve flow).nodes))
        (resolve flow)
      ≡ some levels)
topological_sort-ends_example = topological_sort-ends (resolve flow)

topological_sort-FollowsReady_example :
    (levels : List (List String)) × (topological_sort
        (suc (length (resolve flow).nodes))
        (resolve flow)
      ≡ some levels)
    × FollowsReady (resolve flow) [] levels
topological_sort-FollowsReady_example = topological_sort-FollowsReady flow

abbrev outputs : List (String × List (String × ℕ))
outputs = ("b", ("out", 7) ∷ []) ∷ ("c", ("out", 8) ∷ []) ∷ []

get-resolve_node_input_example : get_key "in" (resolve_node_input "d" (resolve flow) outputs) ≡ (
    if has_key "d" (resolve flow).nodes
    then last_brought outputs "d" "in" (resolve flow).edges
    else none)
get-resolve_node_input_example = get-resolve_node_input outputs "d" "in" (resolve flow)

-- The nodes x and y of the cycle, and the path that is reported.
flow_cycle : detect_cycle 6 (resolve flow) ≡ found ("x" ∷ "y" ∷ "x" ∷ [])
unfolding detect_cycle search_roots dfs try_dependents climb cycle_path resolve link
flow_cycle = refl

-- A node b behind a with an edge to itself: a, which is on no cycle, is reported as well.
abbrev self_loop : Workflow ℕ
self_loop = record { nodes = node "a" ∷ node "b" ∷ []; edges = edge "a" "b" ∷ edge "b" "b" ∷ [] }

self_loop_cycle : detect_cycle 2 (resolve self_loop) ≡ found ("a" ∷ "b" ∷ "b" ∷ [])
unfolding detect_cycle search_roots dfs try_dependents climb cycle_path resolve link
self_loop_cycle = refl

detect_cycle-decides_example :
    (detect_cycle (length (resolve flow).nodes) (resolve flow) ≢ out_of_fuel)
    × ((path : List String)
        → detect_cycle (length (resolve flow).nodes) (resolve flow) ≡ found path
        → IsWalk (resolve flow).nodes path
          × ((x : String) × EndsAt x path × Cycle (resolve flow).nodes x))
    × ((colours : Colours) (parents : Parents)
        → detect_cycle (length (resolve flow).nodes) (resolve flow) ≡ done colours parents
        → (x : String) → Cycle (resolve flow).nodes x
        → ⊥)
detect_cycle-decides_example = detect_cycle-decides (resolve flow)

abbrev model : String → WorkflowNode (Option NodeData)
model k = record {
  id = k;
  type = "model";
  node_data = some (record no_data { model_id = some "m1" });
}

abbrev draft : Workflow (Option NodeData)
draft = record { nodes = model "a" ∷ model "b" ∷ []; edges = edge "a" "b" ∷ [] }

draft_verdict :
    validate draft
    ≡ some (record {
      valid = true;
      execution_order = some (("a" ∷ []) ∷ ("b" ∷ []) ∷ []);
      errors = [];
      warnings = [];
    })
unfolding validate errors_of check_nodes config_errors check_edges detect_cycle search_roots dfs
    try_dependents topological_sort resolve sort_levels link visit_level lower ◌-ℤ◌
draft_verdict = refl

validate-valid_example :
    (r : ValidationResult) × (validate draft ≡ some r)
    × ((r.valid ≡ true) ↔ (IsWellFormed draft × ((x : String) → ComesBack draft.edges x → ⊥)))
validate-valid_example = validate-valid draft
