-- ===== src/Graph/Validate.antt =====
-- The validation of a workflow (`validate` of src/workflow/execution-graph.resolver.ts). The messages
-- are told apart by constructors, the positions and labels of nodes are left out. A list of errors or
-- warnings that the source leaves undefined when there are none is the empty list.
use model_hub.Common.{
  ℕ, suc, String, List, [], ◌∷◌, ◌++◌, Bool, true, false, not, ◌&&◌, Option, none, some, length,
  str_eq, if◌then◌else◌,
}
use model_hub.Common.OrderedMap.{contains, add_once}
use model_hub.Graph.{
  WorkflowNode, WorkflowEdge, Workflow, GraphNode, ExecutionGraph, resolve, topological_sort,
  is_zero_length,
}
use model_hub.Graph.Cycles.{Search, found, done, out_of_fuel, detect_cycle}

pub record ConditionRule : Type 0 where
  pub expression : String
  pub branch_id : String

pub record LoopConfig : Type 0 where
  pub input_array : String
  pub output_mode : String
  pub parallelism : String
  pub max_concurrency : Option ℕ
  pub expression : Option String

pub record NodeData : Type 0 where
  pub model_id : Option String
  pub conditions : Option (List ConditionRule)
  pub loop_config : Option LoopConfig
  pub transform : Option String

pub data ValidationError : Type 0 where
  duplicate_node no_model no_conditions no_loop_config no_expression : String → ValidationError
  duplicate_edge : String → ValidationError
  no_source no_target : String → String → ValidationError
  has_cycle : List String → ValidationError

pub record ValidationResult : Type 0 where
  pub valid : Bool
  pub execution_order : Option (List (List String))
  pub errors : List ValidationError
  pub warnings : List String

-- Texts, lists and objects where they are looked at as conditions.
abbrev pub is_set : Option String → Bool
is_set none = false
is_set (some t) = not (str_eq t "")

abbrev pub has_rules : Option (List ConditionRule) → Bool
has_rules (some (c ∷ cs)) = true
has_rules _ = false

abbrev pub has_loop : Option LoopConfig → Bool
has_loop none = false
has_loop (some l) = true

abbrev pub no_data : NodeData
no_data = record { model_id = none; conditions = none; loop_config = none; transform = none }

abbrev pub data_of : WorkflowNode (Option NodeData) → NodeData
data_of n = elim n.node_data [ none ↦ no_data | some d ↦ d ]

abbrev pub is_model_backed : WorkflowNode (Option NodeData) → Bool
is_model_backed n =
    not (contains n.type ("condition" ∷ "loop" ∷ "input" ∷ "output" ∷ "transform" ∷ []))

unfoldable pub config_errors : WorkflowNode (Option NodeData) → List ValidationError
config_errors n =
    if is_model_backed n && not (is_set (data_of n).model_id)
    then ValidationError.no_model n.id ∷ []
    else if str_eq n.type "condition" && not (has_rules (data_of n).conditions)
    then ValidationError.no_conditions n.id ∷ []
    else if str_eq n.type "loop" && not (has_loop (data_of n).loop_config)
    then ValidationError.no_loop_config n.id ∷ []
    else if str_eq n.type "transform" && not (is_set (data_of n).transform)
    then ValidationError.no_expression n.id ∷ []
    else []

abbrev pub when : Bool → ValidationError → List ValidationError
when true e = e ∷ []
when false e = []

-- The loop over the nodes: the errors, with the ids before.
unfoldable pub check_nodes :
    List String → List (WorkflowNode (Option NodeData)) → List ValidationError
unfolding config_errors
check_nodes seen [] = []
check_nodes seen (n ∷ ns) =
    when (contains n.id seen) (ValidationError.duplicate_node n.id)
    ++ (config_errors n ++ check_nodes (add_once n.id seen) ns)

abbrev pub all_ids : List String → List (WorkflowNode (Option NodeData)) → List String
all_ids seen [] = seen
all_ids seen (n ∷ ns) = all_ids (add_once n.id seen) ns

unfoldable pub check_edges : List String → List String → List WorkflowEdge → List ValidationError
check_edges ids seen [] = []
check_edges ids seen (e ∷ es) =
    when (contains e.id seen) (ValidationError.duplicate_edge e.id)
    ++ (when (not (contains e.source.node_id ids)) (ValidationError.no_source e.id e.source.node_id)
        ++ (when (not (contains e.target.node_id ids))
              (ValidationError.no_target e.id e.target.node_id)
            ++ check_edges ids (add_once e.id seen) es))

abbrev pub warn : List String → List (String × GraphNode (Option NodeData)) → List String
warn entries [] = []
warn entries ((k, n) ∷ r) =
    if is_zero_length n.dependencies && not (contains k entries)
    then k ∷ warn entries r
    else warn entries r

abbrev pub is_empty : List ValidationError → Bool
is_empty [] = true
is_empty (e ∷ es) = false

unfoldable pub errors_of : Workflow (Option NodeData) → List ValidationError
unfolding check_nodes check_edges
errors_of w = check_nodes [] w.nodes ++ check_edges (all_ids [] w.nodes) [] w.edges

abbrev pub without_cycle :
    List ValidationError
    → ExecutionGraph (Option NodeData)
    → Option (List (List String))
    → Option ValidationResult
without_cycle errors g none = none
without_cycle errors g (some levels) = some (record {
  valid = is_empty errors;
  execution_order = some levels;
  errors = errors;
  warnings = warn g.entry_nodes g.nodes;
})

abbrev pub judge :
    List ValidationError → ExecutionGraph (Option NodeData) → Search → Option ValidationResult
judge errors g (found path) = some (record {
  valid = false;
  execution_order = none;
  errors = errors ++ (ValidationError.has_cycle path ∷ []);
  warnings = [];
})
judge errors g (done colours parents) =
    without_cycle errors g (topological_sort (suc (length g.nodes)) g)
judge errors g out_of_fuel = none

-- `none` would be a search or a sort that runs out of fuel.
unfoldable pub validate : Workflow (Option NodeData) → Option ValidationResult
unfolding errors_of
validate w = let g = resolve w in judge (errors_of w) g (detect_cycle (length g.nodes) g)
