-- ===== src/Graph/Checks.antt =====
-- What the checks of a workflow's nodes and edges accept (`validate` of
-- src/workflow/execution-graph.resolver.ts).
use model_hub.Common.{
  String, List, [], ◌∷◌, true, false, not, ◌||◌, Option, ◌≡◌, ◌↔◌, refl, sym, ap, ◌∙◌, arith,
}
use model_hub.Common.OrderedMap.{contains, add_once, Distinct, contains-add_once, str_eq_sym}
use model_hub.Graph.{WorkflowNode, WorkflowEdge, Workflow}
use model_hub.Graph.Validate.{
  NodeData, ValidationError, config_errors, when, check_nodes, all_ids, check_edges, errors_of,
}
use model_hub.Graph.Configured.{is_configured, not-not, nil_both, when-none, config_errors-none}

abbrev pub node_ids : List (WorkflowNode (Option NodeData)) → List String
node_ids [] = []
node_ids (n ∷ ns) = n.id ∷ node_ids ns

abbrev edge_ids : List WorkflowEdge → List String
edge_ids [] = []
edge_ids (e ∷ es) = e.id ∷ edge_ids es

abbrev AllConfigured : List (WorkflowNode (Option NodeData)) → Type 0
AllConfigured [] = true ≡ true
AllConfigured (n ∷ ns) = (is_configured n ≡ true) × AllConfigured ns

abbrev pub AllJoined : List String → List WorkflowEdge → Type 0
AllJoined ids [] = true ≡ true
AllJoined ids (e ∷ es) =
    (contains e.source.node_id ids ≡ true)
    × (contains e.target.node_id ids ≡ true)
    × AllJoined ids es

-- No id twice, every node configured, every edge between nodes that are there.
abbrev pub IsWellFormed : Workflow (Option NodeData) → Type 0
IsWellFormed w =
    Distinct (node_ids w.nodes)
    × AllConfigured w.nodes
    × Distinct (edge_ids w.edges)
    × AllJoined (node_ids w.nodes) w.edges

-- None of the ids is among those before.
abbrev Apart : List String → List String → Type 0
Apart seen [] = true ≡ true
Apart seen (x ∷ xs) = (contains x seen ≡ false) × Apart seen xs

Apart-add_once :
    (x : String) (seen xs : List String)
    → Apart (add_once x seen) xs ↔ (Apart seen xs × (contains x xs ≡ false))
Apart-add_once x seen [] = (λ h. (refl, refl), λ h. refl)
Apart-add_once x seen (y ∷ ys) = (
  λ h.
      let rest = (Apart-add_once x seen ys).0 h.1 in
      (
        (ground (arith, contains-add_once y x seen), rest.0),
        ground (arith, contains-add_once y x seen, str_eq_sym x y, rest.1),
      ),
  λ h. (
    ground (arith, contains-add_once y x seen, str_eq_sym x y),
    (Apart-add_once x seen ys).1 (h.0.1, ground arith),
  ),
)

check_nodes-none :
    (seen : List String) (ns : List (WorkflowNode (Option NodeData)))
    → (check_nodes seen ns ≡ [])
      ↔ (Apart seen (node_ids ns) × Distinct (node_ids ns) × AllConfigured ns)
unfolding check_nodes
check_nodes-none seen [] = (λ h. (refl, refl, refl), λ h. refl)
check_nodes-none seen (n ∷ ns) =
    let rest = check_nodes-none (add_once n.id seen) ns in
    let apart = Apart-add_once n.id seen (node_ids ns) in
    (
      λ h.
          let split =
            (nil_both (when (contains n.id seen) (ValidationError.duplicate_node n.id)) _).0 h in
          let split' = (nil_both (config_errors n) _).0 split.1 in
          let later = rest.0 split'.1 in
          let seen_apart = apart.0 later.0 in
          (
            ((when-none (contains n.id seen) _).0 split.0, seen_apart.0),
            (seen_apart.1, later.1),
            ((config_errors-none n).0 split'.0, later.2),
          ),
      λ h. (nil_both (when (contains n.id seen) (ValidationError.duplicate_node n.id)) _).1 (
        (when-none (contains n.id seen) _).1 h.0.0,
        (nil_both (config_errors n) _).1
            ((config_errors-none n).1 h.2.0, rest.1 (apart.1 (h.0.1, h.1.0), h.1.1, h.2.1)),
      ),
    )

check_edges-none :
    (ids seen : List String) (es : List WorkflowEdge)
    → (check_edges ids seen es ≡ [])
      ↔ (Apart seen (edge_ids es) × Distinct (edge_ids es) × AllJoined ids es)
unfolding check_edges
check_edges-none ids seen [] = (λ h. (refl, refl, refl), λ h. refl)
check_edges-none ids seen (e ∷ es) =
    let rest = check_edges-none ids (add_once e.id seen) es in
    let apart = Apart-add_once e.id seen (edge_ids es) in
    (
      λ h.
          let split =
            (nil_both (when (contains e.id seen) (ValidationError.duplicate_edge e.id)) _).0 h in
          let split' =
            (nil_both
                (when (not (contains e.source.node_id ids))
                  (ValidationError.no_source e.id e.source.node_id))
                _).0
              split.1 in
          let split'' =
            (nil_both
                (when (not (contains e.target.node_id ids))
                  (ValidationError.no_target e.id e.target.node_id))
                _).0
              split'.1 in
          let later = rest.0 split''.1 in
          let seen_apart = apart.0 later.0 in
          (
            ((when-none (contains e.id seen) _).0 split.0, seen_apart.0),
            (seen_apart.1, later.1),
            (
              not-not ((when-none (not (contains e.source.node_id ids)) _).0 split'.0),
              not-not ((when-none (not (contains e.target.node_id ids)) _).0 split''.0),
              later.2,
            ),
          ),
      λ h. (nil_both (when (contains e.id seen) (ValidationError.duplicate_edge e.id)) _).1 (
        (when-none (contains e.id seen) _).1 h.0.0,
        (nil_both
              (when (not (contains e.source.node_id ids))
                (ValidationError.no_source e.id e.source.node_id))
              _).1
            (
              (when-none (not (contains e.source.node_id ids)) _).1 (ap not h.2.0),
              (nil_both
                    (when (not (contains e.target.node_id ids))
                      (ValidationError.no_target e.id e.target.node_id))
                    _).1
                  (
                    (when-none (not (contains e.target.node_id ids)) _).1 (ap not h.2.1),
                    rest.1 (apart.1 (h.0.1, h.1.0), h.1.1, h.2.2),
                  ),
            ),
      ),
    )

contains-all_ids :
    (x : String) (seen : List String) (ns : List (WorkflowNode (Option NodeData)))
    → contains x (all_ids seen ns) ≡ (contains x seen || contains x (node_ids ns))
contains-all_ids x seen [] = ground arith
contains-all_ids x seen (n ∷ ns) =
    ground (arith, contains-all_ids x (add_once n.id seen) ns, contains-add_once x n.id seen)

AllJoined-same :
    (ids ids' : List String) (es : List WorkflowEdge)
    → ((x : String) → contains x ids ≡ contains x ids')
    → AllJoined ids es
    → AllJoined ids' es
AllJoined-same ids ids' [] same h = refl
AllJoined-same ids ids' (e ∷ es) same h = (
  sym (same e.source.node_id) ∙ h.0,
  sym (same e.target.node_id) ∙ h.1,
  AllJoined-same ids ids' es same h.2,
)

Apart-none : (xs : List String) → Apart [] xs
Apart-none [] = refl
Apart-none (x ∷ xs) = (refl, Apart-none xs)

pub errors_of-none : (w : Workflow (Option NodeData)) → (errors_of w ≡ []) ↔ IsWellFormed w
unfolding errors_of
errors_of-none w =
    let nodes = check_nodes-none [] w.nodes in
    let edges = check_edges-none (all_ids [] w.nodes) [] w.edges in
    let both = nil_both (check_nodes [] w.nodes) (check_edges (all_ids [] w.nodes) [] w.edges) in
    (
      λ h.
          let from_nodes = nodes.0 (both.0 h).0 in
          let from_edges = edges.0 (both.0 h).1 in
          (
            from_nodes.1,
            from_nodes.2,
            from_edges.1,
            AllJoined-same (all_ids [] w.nodes) (node_ids w.nodes) w.edges
                (λ x. contains-all_ids x [] w.nodes) from_edges.2,
          ),
      λ h. both.1 (
        nodes.1 (Apart-none (node_ids w.nodes), h.0, h.1),
        edges.1 (
          Apart-none (edge_ids w.edges),
          h.2,
          AllJoined-same (node_ids w.nodes) (all_ids [] w.nodes) w.edges
              (λ x. sym (contains-all_ids x [] w.nodes)) h.3,
        ),
      ),
    )
