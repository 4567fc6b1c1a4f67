-- ===== src/Graph/Verdict.antt =====
-- Which workflows are valid (`validate` of src/workflow/execution-graph.resolver.ts).
use model_hub.Common.{
  String, List, [], ◌∷◌, true, Option, some, ◌≡◌, ◌↔◌, refl, ap, length, arith, false-true,
}
use model_hub.Graph.{Workflow, resolve}
use model_hub.Graph.Cycles.{Search, found, done, out_of_fuel, detect_cycle}
use model_hub.Graph.Decides.{detect_cycle-decides}
use model_hub.Graph.Walks.{ComesBack, Cycle-ComesBack, ComesBack-Cycle}
use model_hub.Graph.Levels.{topological_sort-ends}
use model_hub.Graph.Validate.{
  NodeData, ValidationError, ValidationResult, is_empty, errors_of, without_cycle, judge, validate,
}
use model_hub.Graph.Checks.{IsWellFormed, errors_of-none}

is_empty-none : (es : List ValidationError) → (is_empty es ≡ true) ↔ (es ≡ [])
is_empty-none [] = (λ h. refl, λ h. refl)
is_empty-none (e ∷ es) = (λ h. ground arith, λ h. ground arith)

IsJudged : Workflow (Option NodeData) → Option ValidationResult → Type 0
IsJudged w o =
    (r : ValidationResult) × (o ≡ some r)
    × ((r.valid ≡ true) ↔ (IsWellFormed w × ((x : String) → ComesBack w.edges x → ⊥)))

judge-IsJudged :
    (w : Workflow (Option NodeData)) (found_out : Search)
    → detect_cycle (length (resolve w).nodes) (resolve w) ≡ found_out
    → IsJudged w (judge (errors_of w) (resolve w) found_out)
unfolding IsJudged
judge-IsJudged w (found path) e =
    let cycle = ((detect_cycle-decides (resolve w)).1 path e).1 in
    (
      _,
      refl,
      (λ h. absurd (false-true h), λ h. absurd (h.1 cycle.0 (Cycle-ComesBack w cycle.0 cycle.2))),
    )
judge-IsJudged w (done colours parents) e =
    let sorted = topological_sort-ends (resolve w) in
    let acyclic = (detect_cycle-decides (resolve w)).2 colours parents e in
    (
      _,
      ap (without_cycle (errors_of w) (resolve w)) sorted.1,
      (
        λ h.
            let formed = (errors_of-none w).0 ((is_empty-none (errors_of w)).0 h) in
            (formed, λ x back. acyclic x (ComesBack-Cycle w x formed.3 back)),
        λ h. (is_empty-none (errors_of w)).1 ((errors_of-none w).1 h.0),
      ),
    )
judge-IsJudged w out_of_fuel e = absurd ((detect_cycle-decides (resolve w)).0 e)

-- A workflow is always judged, and it is valid exactly if no id occurs twice among its nodes or among
-- its edges, every node has what its type asks for, every edge joins nodes that are there, and no
-- walk along its edges, of one edge at least, comes back to where it started.
pub validate-valid :
    (w : Workflow (Option NodeData))
    → (r : ValidationResult) × (validate w ≡ some r)
      × ((r.valid ≡ true) ↔ (IsWellFormed w × ((x : String) → ComesBack w.edges x → ⊥)))
unfolding validate IsJudged
validate-valid w = judge-IsJudged w (detect_cycle (length (resolve w).nodes) (resolve w)) refl
