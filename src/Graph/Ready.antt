-- ===== src/Graph/Ready.antt =====
-- The entry nodes of a graph and the nodes that may run next
-- (src/workflow/execution-graph.resolver.ts), read off the edges of the workflow.
use model_hub.Common.{
  String, List, [], ◌∷◌, Bool, true, false, not, ◌&&◌, ◌||◌, ◌≡◌, ◌↔◌, refl, sym, ◌∙◌, ap, arith,
  inl, inr, str_eq, str_eq_iff, Bool-cases, str_eq_refl,
}
use model_hub.Common.OrderedMap.{contains, Distinct, has_key, keys, contains-keys, contains-eq}
use model_hub.Graph.{
  Workflow, WorkflowNode, GraphNode, GraphEdge, resolve, is_zero_length, entries_of, all_in,
  parallel_of, get_parallel_nodes, dependencies_at,
}
use model_hub.Graph.Links.{
  any_edge, is_edge, is_declared, resolve-links, has-resolve, resolve-Distinct,
}

-- A list that is not empty has a member.
member_of : (xs : List String) → is_zero_length xs ≡ false → (x : String) × (contains x xs ≡ true)
member_of [] h = cc
member_of (x ∷ xs) h = (x, rw (str_eq_refl x) refl)

not_empty : (x : String) (xs : List String) → contains x xs ≡ true → is_zero_length xs ≡ false
not_empty x [] h = ground arith
not_empty x (y ∷ ys) h = refl

pub all_in-contains :
    (completed xs : List String) (x : String)
    → all_in completed xs ≡ true
    → contains x xs ≡ true
    → contains x completed ≡ true
all_in-contains completed [] x all h = ground arith
all_in-contains completed (y ∷ ys) x all h =
    ground (arith, all_in-contains completed ys x, contains-eq y x completed)

missing_in :
    (completed xs : List String)
    → all_in completed xs ≡ false
    → (x : String) × (contains x xs ≡ true) × (contains x completed ≡ false)
missing_in completed [] h = cc
missing_in completed (y ∷ ys) h = elim (Bool-cases (contains y completed)) [
  | inl done ↦
      let (x, there, open_still) = missing_in completed ys (ground arith) in
      (x, ground arith, open_still)
  | inr fresh ↦ (y, rw (str_eq_refl y) refl, fresh)
]

-- Whether a test holds of the source of every edge to a node, as far as the source is a node of the
-- workflow.
pub all_sources :
    {D : Type 0} (p : String → Bool) → List (WorkflowNode D) → String → List GraphEdge → Bool
all_sources p ns v [] = true
all_sources p ns v (e ∷ es) =
    (not (str_eq e.target_node_id v && is_declared e.source_node_id ns) || p e.source_node_id)
    && all_sources p ns v es

bool_of_iff : (a b : Bool) → (a ≡ true → b ≡ true) → (b ≡ true → a ≡ true) → a ≡ b
bool_of_iff true b to from = sym (to refl)
bool_of_iff false true to from = from refl
bool_of_iff false false to from = refl

module _ {D : Type 0} (p : String → Bool) (ns : List (WorkflowNode D)) (v : String) where
  all_sources_use :
      (es : List GraphEdge) (u : String)
      → all_sources p ns v es ≡ true
      → is_declared u ns ≡ true
      → any_edge u v es ≡ true
      → p u ≡ true
  unfolding all_sources any_edge is_edge
  all_sources_use [] u all hu h = cc
  all_sources_use (e ∷ es) u all hu h = elim (Bool-cases (str_eq e.source_node_id u)) [
    | inl same ↦
        let eq : e.source_node_id ≡ u = (str_eq_iff e.source_node_id u).0 same in
        let declared : is_declared e.source_node_id ns ≡ true =
          ap (λ k. is_declared k ns) eq ∙ hu in
        let out : p e.source_node_id ≡ p u = ap p eq in ground (arith, all_sources_use es u)
    | inr other ↦ ground (arith, all_sources_use es u)
  ]

  all_sources_of :
      (es : List GraphEdge)
      → ((u : String) → is_declared u ns ≡ true → any_edge u v es ≡ true → p u ≡ true)
      → all_sources p ns v es ≡ true
  unfolding all_sources any_edge is_edge
  all_sources_of [] h = refl
  all_sources_of (e ∷ es) h =
      let later = all_sources_of es (λ u hu any. h u hu (ground arith)) in
      let here = h e.source_node_id in ground (arith, str_eq_refl e.source_node_id)

module _ {D : Type 0} where
  pub entries_of-keys :
      (v : String) (m : List (String × GraphNode D))
      → Distinct (keys m)
      → contains v (entries_of m) ≡ (has_key v m && is_zero_length (dependencies_at v m))
  entries_of-keys v [] d = refl
  entries_of-keys v ((k, n) ∷ r) (fresh, d) = ground (
    arith,
    entries_of-keys v r d,
    contains-keys v r,
    contains-keys k r,
    contains-eq k v (keys r),
    contains-eq k v (entries_of r),
  )

  pub parallel_of-keys :
      (completed : List String) (v : String) (m : List (String × GraphNode D))
      → Distinct (keys m)
      → contains v (parallel_of completed m)
        ≡ (has_key v m && (not (contains v completed) && all_in completed (dependencies_at v m)))
  parallel_of-keys completed v [] d = refl
  parallel_of-keys completed v ((k, n) ∷ r) (fresh, d) = ground (
    arith,
    parallel_of-keys completed v r d,
    contains-keys v r,
    contains-eq k v (keys r),
    contains-eq k v completed,
  )

  -- A dependency is the source of an edge between two nodes of the workflow.
  edge_of_dependency :
      (w : Workflow D) (u v : String)
      → contains u (dependencies_at v (resolve w).nodes) ≡ true
      → (is_declared u w.nodes ≡ true) × (any_edge u v (resolve w).edges ≡ true)
  edge_of_dependency w u v h = let links = (resolve-links w u v).0 in ground arith

  dependency_of_edge :
      (w : Workflow D) (u v : String)
      → is_declared v w.nodes ≡ true
      → is_declared u w.nodes ≡ true
      → any_edge u v (resolve w).edges ≡ true
      → contains u (dependencies_at v (resolve w).nodes) ≡ true
  dependency_of_edge w u v hv hu h = (resolve-links w u v).0 ∙ rw (h, hu, hv) refl

  get_parallel_nodes_iff :
      (w : Workflow D) (completed : List String) (v : String)
      → (contains v (get_parallel_nodes (resolve w) completed) ≡ true) ↔ (
          (is_declared v w.nodes ≡ true)
          × (contains v completed ≡ false)
          × ((u : String)
              → is_declared u w.nodes ≡ true
              → any_edge u v (resolve w).edges ≡ true
              → contains u completed ≡ true))
  unfolding get_parallel_nodes
  get_parallel_nodes_iff w completed v =
      let run = parallel_of-keys completed v (resolve w).nodes (resolve-Distinct w) in
      let known = has-resolve w v in
      let deps = dependencies_at v (resolve w).nodes in
      (
        (λ h.
            let declared : is_declared v w.nodes ≡ true = ground arith in
            let all : all_in completed deps ≡ true = ground arith in
            (
              declared,
              ground arith,
              λ u hu e.
                  all_in-contains completed deps u all (dependency_of_edge w u v declared hu e),
            )),
        (λ (declared, fresh, sources). elim (Bool-cases (all_in completed deps)) [
          | inl all ↦ run ∙ rw (known, declared, fresh, all) refl
          | inr open_still ↦
              let (u, dep, waits) = missing_in completed deps open_still in
              let (hu, e) = edge_of_dependency w u v dep in let ran = sources u hu e in cc
        ]),
      )

  resolve-entries_iff :
      (w : Workflow D) (v : String)
      → (contains v (resolve w).entry_nodes ≡ true) ↔ (
          (is_declared v w.nodes ≡ true)
          × ((u : String) → is_declared u w.nodes ≡ true → any_edge u v (resolve w).edges ≡ false))
  unfolding resolve
  resolve-entries_iff w v =
      let entries = entries_of-keys v (resolve w).nodes (resolve-Distinct w) in
      let known = has-resolve w v in
      let deps = dependencies_at v (resolve w).nodes in
      (
        (λ h.
            let declared : is_declared v w.nodes ≡ true = ground arith in
            (
              declared,
              λ u hu. elim (Bool-cases (any_edge u v (resolve w).edges)) [
                | inl e ↦
                    let full = not_empty u deps (dependency_of_edge w u v declared hu e) in
                    ground arith
                | inr e ↦ e
              ],
            )),
        (λ (declared, sources). elim (Bool-cases (is_zero_length deps)) [
          | inl empty ↦ entries ∙ rw (known, declared, empty) refl
          | inr full ↦
              let (u, dep) = member_of deps full in
              let (hu, e) = edge_of_dependency w u v dep in let no_edge = sources u hu in cc
        ]),
      )

  -- A node may run next exactly if it is a node of the workflow, has not run, and every node of the
  -- workflow from which an edge leads to it has run.
  pub get_parallel_nodes-all_sources :
      (w : Workflow D) (completed : List String) (v : String)
      → contains v (get_parallel_nodes (resolve w) completed) ≡ (
          is_declared v w.nodes
          && (not (contains v completed)
              && all_sources (λ u. contains u completed) w.nodes v (resolve w).edges))
  get_parallel_nodes-all_sources w completed v =
      let p : String → Bool = λ u. contains u completed in
      let es = (resolve w).edges in
      bool_of_iff _ _
        (λ h.
          let (declared, fresh, sources) = (get_parallel_nodes_iff w completed v).0 h in
          rw (declared, fresh, all_sources_of p w.nodes v es sources) refl)
        (λ h. (get_parallel_nodes_iff w completed v).1 (
          ground arith,
          ground arith,
          λ u hu e. all_sources_use p w.nodes v es u (ground arith) hu e,
        ))

  -- The entry nodes are the nodes of the workflow to which no edge leads from a node of the workflow.
  pub resolve-entries :
      (w : Workflow D) (v : String)
      → contains v (resolve w).entry_nodes
        ≡ (is_declared v w.nodes && all_sources (λ _. false) w.nodes v (resolve w).edges)
  resolve-entries w v =
      let p : String → Bool = λ _. false in
      let es = (resolve w).edges in
      bool_of_iff _ _
        (λ h.
          let (declared, sources) = (resolve-entries_iff w v).0 h in
          let none_there = all_sources_of p w.nodes v es (λ u hu e. sym (sources u hu) ∙ e) in
          rw (declared, none_there) refl)
        (λ h.
          let all : all_sources p w.nodes v es ≡ true = ground arith in
          (resolve-entries_iff w v).1 (
            ground arith,
            λ u hu. elim (Bool-cases (any_edge u v es)) [
              | inl e ↦ let no = all_sources_use p w.nodes v es u all hu e in cc
              | inr e ↦ e
            ],
          ))
