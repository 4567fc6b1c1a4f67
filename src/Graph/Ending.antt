-- ===== src/Graph/Ending.antt =====
-- The whole search for a cycle (`detectCycle` of src/workflow/execution-graph.resolver.ts), where it
-- finds none.
use model_hub.Common.{
  String, List, [], false, ◌≡◌, ◌≢◌, subst, ◌∙◌, length, arith, Bool-cases, inl, inr,
}
use model_hub.Common.OrderedMap.{get_key, has_key}
use model_hub.Graph.{GraphNode, ExecutionGraph}
use model_hub.Graph.Cycles.{
  Colour, Colours, Parents, done, out_of_fuel, is_gray, search_roots, all_white, roots,
  detect_cycle,
}
use model_hub.Graph.Colours.{
  all_roots, all_white-has, no_gray_given, not_black, only_white, whites-all_white,
}
use model_hub.Graph.Acyclic.{WalksEnd, IsSettled, Ends, AllEnd, search_roots-Ends, walks-missing}

pub all_white-IsSettled :
    {D : Type 0} (m : List (String × GraphNode D)) → IsSettled m (all_white m [])
all_white-IsSettled m = record {
  settled = λ k h. absurd (not_black (only_white m k Colour.black h));
  coloured = λ k h. all_white-has m [] k ∙ h;
}

pub all_white-no_gray :
    {D : Type 0} (m : List (String × GraphNode D)) (j : String)
    → is_gray (get_key j (all_white m [])) ≡ false
all_white-no_gray m j = no_gray_given (get_key j (all_white m [])) (only_white m j)

searched-Ends :
    {D : Type 0} (m : List (String × GraphNode D)) (ks : List String)
    → Ends m (λ c. AllEnd m ks) (all_white m []) (search_roots (length m) m ks (all_white m []) [])
searched-Ends m ks =
    search_roots-Ends m (length m) ks (all_white m []) [] (all_white-IsSettled m)
      (omega (arith, whites-all_white m [])) (all_white-no_gray m)

-- The search with fuel for each node has an answer, and where that is that there is no cycle, no
-- walk along the dependents goes on for ever, from whatever node it starts.
pub detect_cycle-WalksEnd :
    {D : Type 0} (g : ExecutionGraph D)
    → (detect_cycle (length g.nodes) g ≢ out_of_fuel)
      × ((colours : Colours) (parents : Parents)
          → detect_cycle (length g.nodes) g ≡ done colours parents
          → (k : String) → WalksEnd g.nodes k)
unfolding detect_cycle
detect_cycle-WalksEnd g =
    let searched = searched-Ends g.nodes (roots g) in
    (
      λ e. subst (Ends g.nodes (λ c. AllEnd g.nodes (roots g)) (all_white g.nodes [])) e searched,
      λ colours parents e k. elim (Bool-cases (has_key k g.nodes)) [
        | inl there ↦
            (subst (Ends g.nodes (λ c. AllEnd g.nodes (roots g)) (all_white g.nodes [])) e
                searched).3
              k (all_roots g.nodes g.entry_nodes k there)
        | inr missing ↦ walks-missing g.nodes k missing
      ],
    )
