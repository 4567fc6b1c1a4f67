-- ===== src/Graph/Input.antt =====
-- The input of a node (`resolveNodeInput` of src/workflow/execution-graph.resolver.ts).
use model_hub.Common.{
  String, List, [], ◌∷◌, true, false, ◌&&◌, Option, none, some, ◌≡◌, refl, ◌∙◌, arith, inl, inr,
  str_eq, if◌then◌else◌, Bool-cases, Option-cases,
}
use model_hub.Common.OrderedMap.{get_key, has_key, get-set_key, has_of_get, has_of_none}
use model_hub.Graph.{
  GraphEdge, ExecutionGraph, incoming, take_output, take_outputs, resolve_node_input,
}

module _ {V : Type 0} (outputs : List (String × List (String × V))) (node port : String) where
  -- What one edge brings to the port, if it leads there and its source has an output.
  pub brings : GraphEdge → Option (Option V)
  brings e =
      if str_eq e.target_node_id node && str_eq e.target_port port
      then elim (get_key e.source_node_id outputs) [
        | none ↦ none
        | some output ↦ some (get_key e.source_port output)
      ]
      else none

  abbrev pub later_or : Option (Option V) → Option (Option V) → Option (Option V)
  later_or a none = a
  later_or a (some b) = some b

  -- What the last edge brings that brings anything.
  pub last_brought : List GraphEdge → Option (Option V)
  last_brought [] = none
  last_brought (e ∷ es) = later_or (brings e) (last_brought es)

  later_or_assoc :
      (a b c : Option (Option V)) → later_or (later_or a b) c ≡ later_or a (later_or b c)
  later_or_assoc a b none = refl
  later_or_assoc a b (some c) = refl

  get-take_output :
      (e : GraphEdge) (result : List (String × Option V))
      → str_eq e.target_node_id node ≡ true
      → get_key port (take_output e (get_key e.source_node_id outputs) result)
        ≡ later_or (get_key port result) (brings e)
  unfolding brings
  get-take_output e result here = elim (Option-cases (get_key e.source_node_id outputs)) [
    | inl missing ↦ rw (here, missing) (ground arith)
    | inr (out, found) ↦
        rw (here, found, get-set_key e.target_port port (get_key e.source_port out) result)
          (ground arith)
  ]

  brings_other : (e : GraphEdge) → str_eq e.target_node_id node ≡ false → brings e ≡ none
  unfolding brings
  brings_other e other = rw (other) refl

  none-later_or : (a : Option (Option V)) → later_or none a ≡ a
  none-later_or none = refl
  none-later_or (some a) = refl

  get-take_outputs :
      (es : List GraphEdge) (result : List (String × Option V))
      → get_key port (take_outputs outputs (incoming node es) result)
        ≡ later_or (get_key port result) (last_brought es)
  unfolding last_brought
  get-take_outputs [] result = refl
  get-take_outputs (e ∷ es) result = elim (Bool-cases (str_eq e.target_node_id node)) [
    | inl here ↦ rw (here) (
        get-take_outputs es (take_output e (get_key e.source_node_id outputs) result)
        ∙ rw (get-take_output e result here)
            (later_or_assoc (get_key port result) (brings e) (last_brought es)))
    | inr other ↦ rw (other) (
        get-take_outputs es result
        ∙ rw (brings_other e other, none-later_or (last_brought es)) refl)
  ]

  -- The input of a node of the graph: a port has what the last edge to it brings whose source has an
  -- output, that is the value at the edge's source port, which may be missing; a port has no entry
  -- where no edge brings anything.
  pub get-resolve_node_input :
      {D : Type 0} (g : ExecutionGraph D)
      → get_key port (resolve_node_input node g outputs)
        ≡ (if has_key node g.nodes then last_brought g.edges else none)
  unfolding resolve_node_input
  get-resolve_node_input g = elim (Option-cases (get_key node g.nodes)) [
    | inl missing ↦ rw (missing, has_of_none node g.nodes missing, resolve_node_input) refl
    | inr (n, found) ↦
        rw (found, has_of_get node g.nodes n found, resolve_node_input)
          (get-take_outputs g.edges [] ∙ none-later_or (last_brought g.edges))
  ]
