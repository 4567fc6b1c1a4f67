-- ===== src/Graph/Links.antt =====
-- What the graph of `resolve` knows of the edges (src/workflow/execution-graph.resolver.ts).
use model_hub.Common.{
  String, List, [], ◌∷◌, map, Bool, false, ◌&&◌, ◌||◌, ◌≡◌, refl, ◌∙◌, arith, inl, inr, str_eq,
  Bool-cases, Option-cases,
}
use model_hub.Common.OrderedMap.{
  contains, contains-add_once, Distinct, get_key, set_key, has_key, adjust_key, keys, get-set_key,
  get-adjust_key, has-set_key, has-adjust_key, keys-adjust_key, has_of_get, has_of_none, has_key-eq,
  set_key-Distinct,
}
use model_hub.Graph.{
  WorkflowNode, Workflow, GraphNode, GraphEdge, graph_node, graph_edge, add_dependency,
  add_dependent, put_nodes, link, link_all, resolve, dependents_at, dependencies_at,
}

-- Whether an edge goes from one node to the other.
unfoldable pub is_edge : String → String → GraphEdge → Bool
is_edge u v e = str_eq e.source_node_id u && str_eq e.target_node_id v

unfoldable pub any_edge : String → String → List GraphEdge → Bool
any_edge u v [] = false
any_edge u v (e ∷ es) = is_edge u v e || any_edge u v es

module _ {D : Type 0} where
  has-link :
      (k : String) (e : GraphEdge) (m : List (String × GraphNode D))
      → has_key k (link e m) ≡ has_key k m
  unfolding link
  has-link k e m = grind (arith, has-adjust_key)

  keys-link : (e : GraphEdge) (m : List (String × GraphNode D)) → keys (link e m) ≡ keys m
  unfolding link
  keys-link e m = grind (arith, keys-adjust_key)

  -- The mutation of one list of a node, as seen from any node.
  dependencies-add_dependency :
      (k x : String) (u v : String) (m : List (String × GraphNode D))
      → contains u (dependencies_at v (adjust_key k (add_dependency x) m))
        ≡ (contains u (dependencies_at v m) || (str_eq k v && str_eq x u && has_key v m))
  dependencies-add_dependency k x u v m =
      rw (get-adjust_key k v (add_dependency x) m, dependencies_at)
        (elim (Option-cases (get_key v m)) [
          | inl missing ↦ rw (missing, has_of_none v m missing) (ground arith)
          | inr (n, found) ↦
              rw (found, has_of_get v m n found)
                (ground (arith, contains-add_once u x n.dependencies))
        ])

  pub dependencies-add_dependent :
      (k x : String) (v : String) (m : List (String × GraphNode D))
      → dependencies_at v (adjust_key k (add_dependent x) m) ≡ dependencies_at v m
  dependencies-add_dependent k x v m =
      rw (get-adjust_key k v (add_dependent x) m, dependencies_at) (ground arith)

  dependents-add_dependent :
      (k x : String) (u v : String) (m : List (String × GraphNode D))
      → contains v (dependents_at u (adjust_key k (add_dependent x) m))
        ≡ (contains v (dependents_at u m) || (str_eq k u && str_eq x v && has_key u m))
  dependents-add_dependent k x u v m =
      rw (get-adjust_key k u (add_dependent x) m, dependents_at)
        (elim (Option-cases (get_key u m)) [
          | inl missing ↦ rw (missing, has_of_none u m missing) (ground arith)
          | inr (n, found) ↦
              rw (found, has_of_get u m n found)
                (ground (arith, contains-add_once v x n.dependents))
        ])

  pub dependents-add_dependency :
      (k x : String) (v : String) (m : List (String × GraphNode D))
      → dependents_at v (adjust_key k (add_dependency x) m) ≡ dependents_at v m
  dependents-add_dependency k x v m =
      rw (get-adjust_key k v (add_dependency x) m, dependents_at) (ground arith)

  -- One edge: the new dependency, and the new dependent.
  dependencies-link :
      (u v : String) (e : GraphEdge) (m : List (String × GraphNode D))
      → contains u (dependencies_at v (link e m))
        ≡ (contains u (dependencies_at v m) || (is_edge u v e && has_key u m && has_key v m))
  unfolding link is_edge
  dependencies-link u v e m =
      elim (Bool-cases (has_key e.source_node_id m && has_key e.target_node_id m)) [
        | inl both ↦
            rw (both, dependencies-add_dependent, dependencies-add_dependency)
              (ground (arith, has_key-eq e.source_node_id u m, has_key-eq e.target_node_id v m))
        | inr missing ↦
            rw (missing)
              (ground (arith, has_key-eq e.source_node_id u m, has_key-eq e.target_node_id v m))
      ]

  dependents-link :
      (u v : String) (e : GraphEdge) (m : List (String × GraphNode D))
      → contains v (dependents_at u (link e m))
        ≡ (contains v (dependents_at u m) || (is_edge u v e && has_key u m && has_key v m))
  unfolding link is_edge
  dependents-link u v e m =
      elim (Bool-cases (has_key e.source_node_id m && has_key e.target_node_id m)) [
        | inl both ↦
            rw (both, dependents-add_dependent, dependents-add_dependency)
              (ground (
                arith,
                has_key-eq e.source_node_id u m,
                has_key-eq e.target_node_id v m,
                has-adjust_key e.target_node_id u (add_dependency e.source_node_id) m,
              ))
        | inr missing ↦
            rw (missing)
              (ground (arith, has_key-eq e.source_node_id u m, has_key-eq e.target_node_id v m))
      ]

  -- All the edges.
  has-link_all :
      (k : String) (es : List GraphEdge) (m : List (String × GraphNode D))
      → has_key k (link_all es m) ≡ has_key k m
  has-link_all k [] m = refl
  has-link_all k (e ∷ es) m = has-link_all k es (link e m) ∙ has-link k e m

  keys-link_all :
      (es : List GraphEdge) (m : List (String × GraphNode D)) → keys (link_all es m) ≡ keys m
  keys-link_all [] m = refl
  keys-link_all (e ∷ es) m = keys-link_all es (link e m) ∙ keys-link e m

  dependencies-link_all :
      (u v : String) (es : List GraphEdge) (m : List (String × GraphNode D))
      → contains u (dependencies_at v (link_all es m))
        ≡ (contains u (dependencies_at v m) || (any_edge u v es && has_key u m && has_key v m))
  unfolding any_edge
  dependencies-link_all u v [] m = ground arith
  dependencies-link_all u v (e ∷ es) m = ground (
    arith,
    dependencies-link_all u v es (link e m),
    dependencies-link u v e m,
    has-link u e m,
    has-link v e m,
  )

  dependents-link_all :
      (u v : String) (es : List GraphEdge) (m : List (String × GraphNode D))
      → contains v (dependents_at u (link_all es m))
        ≡ (contains v (dependents_at u m) || (any_edge u v es && has_key u m && has_key v m))
  unfolding any_edge
  dependents-link_all u v [] m = ground arith
  dependents-link_all u v (e ∷ es) m = ground (
    arith,
    dependents-link_all u v es (link e m),
    dependents-link u v e m,
    has-link u e m,
    has-link v e m,
  )

  -- Whether a workflow has a node of a name.
  unfoldable pub is_declared : String → List (WorkflowNode D) → Bool
  is_declared k [] = false
  is_declared k (n ∷ ns) = str_eq n.id k || is_declared k ns

  has-put_nodes :
      (k : String) (ns : List (WorkflowNode D)) (m : List (String × GraphNode D))
      → has_key k (put_nodes ns m) ≡ (has_key k m || is_declared k ns)
  unfolding is_declared
  has-put_nodes k [] m = ground arith
  has-put_nodes k (n ∷ ns) m = ground (
    arith,
    has-put_nodes k ns (set_key n.id (graph_node n) m),
    has-set_key n.id k (graph_node n) m,
  )

  put_nodes-Distinct :
      (ns : List (WorkflowNode D)) (m : List (String × GraphNode D))
      → Distinct (keys m)
      → Distinct (keys (put_nodes ns m))
  put_nodes-Distinct [] m d = d
  put_nodes-Distinct (n ∷ ns) m d =
      put_nodes-Distinct ns (set_key n.id (graph_node n) m)
        (set_key-Distinct n.id (graph_node n) m d)

  -- Before the edges nothing is linked.
  pub dependencies-put_nodes :
      (v : String) (ns : List (WorkflowNode D)) (m : List (String × GraphNode D))
      → dependencies_at v m ≡ []
      → dependencies_at v (put_nodes ns m) ≡ []
  dependencies-put_nodes v [] m h = h
  dependencies-put_nodes v (n ∷ ns) m h =
      dependencies-put_nodes v ns (set_key n.id (graph_node n) m)
        (rw (get-set_key n.id v (graph_node n) m, dependencies_at) (ground arith))

  pub dependents-put_nodes :
      (v : String) (ns : List (WorkflowNode D)) (m : List (String × GraphNode D))
      → dependents_at v m ≡ []
      → dependents_at v (put_nodes ns m) ≡ []
  dependents-put_nodes v [] m h = h
  dependents-put_nodes v (n ∷ ns) m h =
      dependents-put_nodes v ns (set_key n.id (graph_node n) m)
        (rw (get-set_key n.id v (graph_node n) m, dependents_at) (ground arith))

  -- In the graph of a workflow, `u` is a dependency of `v` exactly if both are nodes of the workflow
  -- and an edge goes from `u` to `v`, and exactly then `v` is a dependent of `u`: the two lists that
  -- are built side by side always agree, also for an edge of a node to itself and for edges whose
  -- ends are missing.
  pub resolve-links :
      (w : Workflow D) (u v : String)
      → (contains u (dependencies_at v (resolve w).nodes)
          ≡ (any_edge u v (resolve w).edges && is_declared u w.nodes && is_declared v w.nodes))
        × (contains v (dependents_at u (resolve w).nodes)
            ≡ contains u (dependencies_at v (resolve w).nodes))
  unfolding resolve
  resolve-links w u v =
      let es = map graph_edge w.edges in
      let m = put_nodes w.nodes [] in
      let deps = dependencies-link_all u v es m in
      let outs = dependents-link_all u v es m in
      let no_deps = dependencies-put_nodes v w.nodes [] refl in
      let no_outs = dependents-put_nodes u w.nodes [] refl in
      let here = has-put_nodes u w.nodes [] in
      let there = has-put_nodes v w.nodes [] in
      (rw (deps, no_deps, here, there) refl, rw (deps, outs, no_deps, no_outs) refl)

  pub has-resolve :
      (w : Workflow D) (k : String) → has_key k (resolve w).nodes ≡ is_declared k w.nodes
  unfolding resolve
  has-resolve w k =
      has-link_all k (map graph_edge w.edges) (put_nodes w.nodes []) ∙ has-put_nodes k w.nodes []

  pub resolve-Distinct : (w : Workflow D) → Distinct (keys (resolve w).nodes)
  unfolding resolve
  resolve-Distinct w =
      rw (keys-link_all (map graph_edge w.edges) (put_nodes w.nodes []))
        (put_nodes-Distinct w.nodes [] refl)
