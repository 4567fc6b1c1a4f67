-- ===== src/Graph/Distinct.antt =====
-- No node lists a neighbour twice (src/workflow/execution-graph.resolver.ts).
use model_hub.Common.{
  String, List, [], ◌∷◌, map, Bool, true, false, ◌&&◌, ◌≡◌, refl, arith, inl, inr, str_eq,
  if◌then◌else◌, Bool-cases, Option-cases,
}
use model_hub.Common.OrderedMap.{
  Distinct, add_once, add_once-Distinct, get_key, has_key, adjust_key, get-adjust_key, has_of_none,
  has_of_get,
}
use model_hub.Graph.{
  Workflow, GraphNode, GraphEdge, graph_edge, add_dependency, add_dependent, put_nodes, link,
  link_all, resolve, dependents_at, dependencies_at,
}
use model_hub.Graph.Links.{
  dependencies-put_nodes, dependents-put_nodes, dependencies-add_dependent,
  dependents-add_dependency,
}

if-Distinct :
    (b : Bool) (x : String) (xs : List String)
    → Distinct xs
    → Distinct (if b then add_once x xs else xs)
if-Distinct true x xs d = add_once-Distinct x xs d
if-Distinct false x xs d = d

module _ {D : Type 0} where
  -- Both lists of every node.
  pub record AllDistinct (m : List (String × GraphNode D)) : Type 0 where
    pub dependencies : (v : String) → Distinct (dependencies_at v m)
    pub dependents : (v : String) → Distinct (dependents_at v m)

  -- The list that a mutation adds to.
  dependencies-added :
      (k x v : String) (m : List (String × GraphNode D))
      → dependencies_at v (adjust_key k (add_dependency x) m) ≡ (
          if str_eq k v && has_key v m
          then add_once x (dependencies_at v m)
          else dependencies_at v m)
  dependencies-added k x v m =
      rw (get-adjust_key k v (add_dependency x) m, dependencies_at)
        (elim (Option-cases (get_key v m)) [
          | inl missing ↦ rw (missing, has_of_none v m missing) (ground arith)
          | inr (n, found) ↦ rw (found, has_of_get v m n found) (ground arith)
        ])

  dependents-added :
      (k x v : String) (m : List (String × GraphNode D))
      → dependents_at v (adjust_key k (add_dependent x) m)
        ≡ (if str_eq k v && has_key v m then add_once x (dependents_at v m) else dependents_at v m)
  dependents-added k x v m =
      rw (get-adjust_key k v (add_dependent x) m, dependents_at)
        (elim (Option-cases (get_key v m)) [
          | inl missing ↦ rw (missing, has_of_none v m missing) (ground arith)
          | inr (n, found) ↦ rw (found, has_of_get v m n found) (ground arith)
        ])

  add_dependency-AllDistinct :
      (k x : String) (m : List (String × GraphNode D))
      → AllDistinct m
      → AllDistinct (adjust_key k (add_dependency x) m)
  add_dependency-AllDistinct k x m d = record {
    dependencies = λ v.
        rw (dependencies-added k x v m) (if-Distinct _ x (dependencies_at v m) (d.dependencies v));
    dependents = λ v. rw (dependents-add_dependency k x v m) (d.dependents v);
  }

  add_dependent-AllDistinct :
      (k x : String) (m : List (String × GraphNode D))
      → AllDistinct m
      → AllDistinct (adjust_key k (add_dependent x) m)
  add_dependent-AllDistinct k x m d = record {
    dependencies = λ v. rw (dependencies-add_dependent k x v m) (d.dependencies v);
    dependents =
        λ v. rw (dependents-added k x v m) (if-Distinct _ x (dependents_at v m) (d.dependents v));
  }

  link-AllDistinct :
      (e : GraphEdge) (m : List (String × GraphNode D)) → AllDistinct m → AllDistinct (link e m)
  unfolding link
  link-AllDistinct e m d =
      elim (Bool-cases (has_key e.source_node_id m && has_key e.target_node_id m)) [
        | inl both ↦ rw (both) (
            add_dependent-AllDistinct e.source_node_id e.target_node_id _
              (add_dependency-AllDistinct e.target_node_id e.source_node_id m d))
        | inr missing ↦ rw (missing) d
      ]

  link_all-AllDistinct :
      (es : List GraphEdge) (m : List (String × GraphNode D))
      → AllDistinct m
      → AllDistinct (link_all es m)
  link_all-AllDistinct [] m d = d
  link_all-AllDistinct (e ∷ es) m d = link_all-AllDistinct es (link e m) (link-AllDistinct e m d)

  pub resolve-AllDistinct : (w : Workflow D) → AllDistinct (resolve w).nodes
  unfolding resolve
  resolve-AllDistinct w =
      link_all-AllDistinct (map graph_edge w.edges) (put_nodes w.nodes []) (record {
        dependencies = λ v. rw (dependencies-put_nodes v w.nodes [] refl) refl;
        dependents = λ v. rw (dependents-put_nodes v w.nodes [] refl) refl;
      })
