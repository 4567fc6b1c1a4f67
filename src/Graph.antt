-- ===== src/Graph.antt =====
-- The execution graph of a workflow (src/workflow/execution-graph.resolver.ts and
-- src/workflow/interfaces/execution-graph.interface.ts): the graph that `resolve` builds from the
-- nodes and edges, Kahn's sort into levels, the nodes that may run next, and the input of a node.
-- The search for a cycle and the validation are in Graph/Cycles and Graph/Validate.
-- The Maps of the source are ordered maps, the mutations of the nodes in them `adjust_key`. The
-- data of a node and the values at the ports are not looked into: they are parameters. The port
-- lists of a node are empty in `resolve` and are left out.
pub mod Links
pub mod Levels
pub mod Distinct
pub mod Lowering
pub mod Layers
pub mod Ready
pub mod Input
pub mod Cycles
pub mod Colours
pub mod Acyclic
pub mod Ending
pub mod Path
pub mod Decides
pub mod Validate
pub mod Configured
pub mod Checks
pub mod Walks
pub mod Verdict
mod Tests
use model_hub.Common.{
  ℕ, zero, suc, ◌+◌, String, List, [], ◌∷◌, ◌++◌, map, Bool, true, false, not, ◌&&◌, ◌||◌, Option,
  none, some, length, str_eq, if◌then◌else◌,
}
use model_hub.Common.Int.{ℤ, pos, negsuc, ◌-ℤ◌, pos_part, neg_part}
use model_hub.Common.OrderedMap.{contains, add_once, get_key, set_key, has_key, adjust_key, keys}

pub record NodePort : Type 0 where
  pub node_id : String
  pub port : String

pub record WorkflowNode (D : Type 0) : Type 0 where
  pub id : String
  pub type : String
  pub node_data : D

pub record WorkflowEdge : Type 0 where
  pub id : String
  pub source : NodePort
  pub target : NodePort
  pub branch_id : Option String

pub record Workflow (D : Type 0) : Type 0 where
  pub nodes : List (WorkflowNode D)
  pub edges : List WorkflowEdge

pub record GraphNode (D : Type 0) : Type 0 where
  pub id : String
  pub type : String
  pub dependencies : List String
  pub dependents : List String
  pub node_data : D

pub record GraphEdge : Type 0 where
  pub id : String
  pub source_node_id : String
  pub source_port : String
  pub target_node_id : String
  pub target_port : String
  pub branch_id : Option String

pub record ExecutionGraph (D : Type 0) : Type 0 where
  pub nodes : List (String × GraphNode D)
  pub edges : List GraphEdge
  pub entry_nodes : List String
  pub exit_nodes : List String

abbrev pub is_zero_length : List String → Bool
is_zero_length [] = true
is_zero_length (x ∷ xs) = false

-- `currentLevel` is run while it has an element, on fuel; a count of degrees may go below zero.
abbrev pub or_zero : Option ℤ → ℤ
or_zero none = pos 0
or_zero (some d) = d

abbrev pub is_zero : ℤ → Bool
is_zero (pos zero) = true
is_zero (pos (suc n)) = false
is_zero (negsuc n) = false

abbrev pub graph_edge : WorkflowEdge → GraphEdge
graph_edge e = record {
  id = e.id;
  source_node_id = e.source.node_id;
  source_port = e.source.port;
  target_node_id = e.target.node_id;
  target_port = e.target.port;
  branch_id = e.branch_id;
}

abbrev pub all_in : List String → List String → Bool
all_in completed [] = true
all_in completed (x ∷ xs) = contains x completed && all_in completed xs

module _ {D : Type 0} where
  abbrev pub graph_node : WorkflowNode D → GraphNode D
  graph_node n = record {
    id = n.id;
    type = n.type;
    dependencies = [];
    dependents = [];
    node_data = n.node_data;
  }

  abbrev pub add_dependency : String → GraphNode D → GraphNode D
  add_dependency u n = record n { dependencies = add_once u n.dependencies }

  abbrev pub add_dependent : String → GraphNode D → GraphNode D
  add_dependent v n = record n { dependents = add_once v n.dependents }

  -- The first loop of `resolve`.
  abbrev pub put_nodes :
      List (WorkflowNode D) → List (String × GraphNode D) → List (String × GraphNode D)
  put_nodes [] m = m
  put_nodes (n ∷ ns) m = put_nodes ns (set_key n.id (graph_node n) m)

  -- The second loop, for one edge and for all.
  unfoldable pub link : GraphEdge → List (String × GraphNode D) → List (String × GraphNode D)
  link e m =
      if has_key e.source_node_id m && has_key e.target_node_id m
      then adjust_key e.source_node_id (add_dependent e.target_node_id)
          (adjust_key e.target_node_id (add_dependency e.source_node_id) m)
      else m

  abbrev pub link_all : List GraphEdge → List (String × GraphNode D) → List (String × GraphNode D)
  link_all [] m = m
  link_all (e ∷ es) m = link_all es (link e m)

  -- The third loop.
  abbrev pub entries_of : List (String × GraphNode D) → List String
  entries_of [] = []
  entries_of ((k, n) ∷ r) = if is_zero_length n.dependencies then k ∷ entries_of r else entries_of r

  abbrev pub exits_of : List (String × GraphNode D) → List String
  exits_of [] = []
  exits_of ((k, n) ∷ r) = if is_zero_length n.dependents then k ∷ exits_of r else exits_of r

  unfoldable pub resolve : Workflow D → ExecutionGraph D
  resolve w =
      let edges = map graph_edge w.edges in
      let nodes = link_all edges (put_nodes w.nodes []) in
      record {
        nodes = nodes;
        edges = edges;
        entry_nodes = entries_of nodes;
        exit_nodes = exits_of nodes;
      }

  abbrev pub dependents_at : String → List (String × GraphNode D) → List String
  dependents_at k m = elim (get_key k m) [ none ↦ [] | some n ↦ n.dependents ]

  abbrev pub dependencies_at : String → List (String × GraphNode D) → List String
  dependencies_at k m = elim (get_key k m) [ none ↦ [] | some n ↦ n.dependencies ]

  -- `topologicalSort`: the degrees, one dependent, one node, one level, and the loop on fuel.
  abbrev pub init_degrees : List (String × GraphNode D) → List (String × ℤ) → List (String × ℤ)
  init_degrees [] d = d
  init_degrees ((k, n) ∷ r) d = init_degrees r (set_key k (pos (length n.dependencies)) d)

abbrev pub Sort : Type 0
Sort = List (String × ℤ) × List String × List String

-- The degrees, the visited nodes and `nextLevel` after the dependents of a node.
pub lower : List String → Sort → Sort
lower [] s = s
lower (v ∷ vs) (degrees, visited, next) =
    let degree = or_zero (get_key v degrees) -ℤ pos 1 in
    lower vs (
      set_key v degree degrees,
      visited,
      if is_zero degree && not (contains v visited) then next ++ (v ∷ []) else next,
    )

module _ {D : Type 0} where
  pub visit_level : List (String × GraphNode D) → List String → Sort → Sort
  visit_level m [] s = s
  visit_level m (k ∷ ks) (degrees, visited, next) =
      visit_level m ks (lower (dependents_at k m) (degrees, add_once k visited, next))

  pub sort_levels :
      ℕ
      → List (String × GraphNode D)
      → List String
      → List (String × ℤ)
      → List String
      → Option (List (List String))
  sort_levels fuel m [] degrees visited = some []
  sort_levels zero m (k ∷ ks) degrees visited = none
  sort_levels (suc fuel) m (k ∷ ks) degrees visited =
      let (degrees_after, visited_after, next) = visit_level m (k ∷ ks) (degrees, visited, []) in
      elim (sort_levels fuel m next degrees_after visited_after) [
        | none ↦ none
        | some levels ↦ some ((k ∷ ks) ∷ levels)
      ]

  unfoldable pub topological_sort : ℕ → ExecutionGraph D → Option (List (List String))
  topological_sort fuel g = sort_levels fuel g.nodes g.entry_nodes (init_degrees g.nodes []) []

  -- `getParallelNodes`
  abbrev pub parallel_of : List String → List (String × GraphNode D) → List String
  parallel_of completed [] = []
  parallel_of completed ((k, n) ∷ r) =
      if not (contains k completed) && all_in completed n.dependencies
      then k ∷ parallel_of completed r
      else parallel_of completed r

  unfoldable pub get_parallel_nodes : ExecutionGraph D → List String → List String
  get_parallel_nodes g completed = parallel_of completed g.nodes

-- `resolveNodeInput`: a record is an ordered map, and a port that is missing reads as `none`.
abbrev pub incoming : String → List GraphEdge → List GraphEdge
incoming node [] = []
incoming node (e ∷ es) =
    if str_eq e.target_node_id node then e ∷ incoming node es else incoming node es

module _ {V : Type 0} where
  abbrev pub take_output :
      GraphEdge → Option (List (String × V)) → List (String × Option V) → List (String × Option V)
  take_output e none result = result
  take_output e (some output) result = set_key e.target_port (get_key e.source_port output) result

  abbrev pub take_outputs :
      List (String × List (String × V))
      → List GraphEdge
      → List (String × Option V)
      → List (String × Option V)
  take_outputs outputs [] result = result
  take_outputs outputs (e ∷ es) result =
      take_outputs outputs es (take_output e (get_key e.source_node_id outputs) result)

  unfoldable pub resolve_node_input :
      {D : Type 0}
      → String
      → ExecutionGraph D
      → List (String × List (String × V))
      → List (String × Option V)
  resolve_node_input node g outputs = elim (get_key node g.nodes) [
    | none ↦ []
    | some _ ↦ take_outputs outputs (incoming node g.edges) []
  ]
