-- ===== src/Graph/Walks.antt =====
-- Walks along the edges of a workflow, and those along the dependents of the graph that
-- src/workflow/execution-graph.resolver.ts makes of it.
use model_hub.Common.{
  String, List, [], ◌∷◌, map, Bool, true, false, ◌&&◌, ◌||◌, Option, ◌≡◌, refl, ap, ◌∙◌, arith,
  str_eq, str_eq_iff,
}
use model_hub.Common.OrderedMap.{contains}
use model_hub.Graph.{WorkflowNode, WorkflowEdge, Workflow, graph_edge, resolve, dependents_at}
use model_hub.Graph.Links.{any_edge, is_edge, is_declared, resolve-links}
use model_hub.Graph.Decides.{Reach, here, further, Cycle}
use model_hub.Graph.Validate.{NodeData}
use model_hub.Graph.Checks.{node_ids, AllJoined}

-- Whether an edge goes from `u` to `v`.
abbrev pub joins : String → String → List WorkflowEdge → Bool
joins u v [] = false
joins u v (e ∷ es) = (str_eq e.source.node_id u && str_eq e.target.node_id v) || joins u v es

pub data Walk (es : List WorkflowEdge) : String → String → Type 0 where
  stay : (a : String) → Walk es a a
  go : (a b c : String) → Walk es a b → joins b c es ≡ true → Walk es a c

-- A walk along the edges, of one edge at least, that comes back to where it started.
abbrev pub ComesBack : List WorkflowEdge → String → Type 0
ComesBack es x = (y : String) × Walk es x y × (joins y x es ≡ true)

any_edge-joins :
    (u v : String) (es : List WorkflowEdge) → any_edge u v (map graph_edge es) ≡ joins u v es
unfolding any_edge is_edge
any_edge-joins u v [] = refl
any_edge-joins u v (e ∷ es) =
    ap (λ b. (str_eq e.source.node_id u && str_eq e.target.node_id v) || b) (any_edge-joins u v es)

is_declared-node_ids :
    (k : String) (ns : List (WorkflowNode (Option NodeData)))
    → is_declared k ns ≡ contains k (node_ids ns)
unfolding is_declared
is_declared-node_ids k [] = refl
is_declared-node_ids k (n ∷ ns) =
    ground (arith, is_declared-node_ids k ns, str_eq_iff n.id k, str_eq_iff k n.id)

joined_ends :
    (ids : List String) (es : List WorkflowEdge) (u v : String)
    → AllJoined ids es
    → joins u v es ≡ true
    → (contains u ids ≡ true) × (contains v ids ≡ true)
joined_ends ids [] u v all h = ground arith
joined_ends ids (e ∷ es) u v all h = grind (
  arith,
  str_eq_iff e.source.node_id u,
  str_eq_iff e.target.node_id v,
  joined_ends ids es u v all.2,
  all.0,
  all.1,
)

module _ (w : Workflow (Option NodeData)) where
  dependents-joins :
      (u v : String)
      → contains v (dependents_at u (resolve w).nodes)
        ≡ (joins u v w.edges && is_declared u w.nodes && is_declared v w.nodes)
  unfolding resolve
  dependents-joins u v =
      (resolve-links w u v).1
      ∙ (resolve-links w u v).0
      ∙ ap (λ b. b && is_declared u w.nodes && is_declared v w.nodes) (any_edge-joins u v w.edges)

  step-joins :
      (u v : String)
      → contains v (dependents_at u (resolve w).nodes) ≡ true
      → joins u v w.edges ≡ true
  step-joins u v h = ground (arith, dependents-joins u v)

  joins-step :
      (u v : String)
      → AllJoined (node_ids w.nodes) w.edges
      → joins u v w.edges ≡ true
      → contains v (dependents_at u (resolve w).nodes) ≡ true
  joins-step u v all h =
      let ends = joined_ends (node_ids w.nodes) w.edges u v all h in
      ground (
        arith,
        dependents-joins u v,
        is_declared-node_ids u w.nodes,
        is_declared-node_ids v w.nodes,
        ends,
      )

  Reach-Walk : {x y : String} → Reach (resolve w).nodes x y → Walk w.edges x y
  Reach-Walk (here a) = stay a
  Reach-Walk (further a b c walk step) = go a b c (Reach-Walk walk) (step-joins b c step)

  Walk-Reach :
      {x y : String}
      → AllJoined (node_ids w.nodes) w.edges
      → Walk w.edges x y
      → Reach (resolve w).nodes x y
  Walk-Reach all (stay a) = here a
  Walk-Reach all (go a b c walk step) =
      further a b c (Walk-Reach all walk) (joins-step b c all step)

  pub Cycle-ComesBack : (x : String) → Cycle (resolve w).nodes x → ComesBack w.edges x
  Cycle-ComesBack x (y, walk, back) = (y, Reach-Walk walk, step-joins y x back)

  pub ComesBack-Cycle :
      (x : String)
      → AllJoined (node_ids w.nodes) w.edges
      → ComesBack w.edges x
      → Cycle (resolve w).nodes x
  ComesBack-Cycle x all (y, walk, back) = (y, Walk-Reach all walk, joins-step y x all back)
