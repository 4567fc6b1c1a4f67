-- ===== src/Graph/Layers.antt =====
-- One level of `topologicalSort` (src/workflow/execution-graph.resolver.ts): what the counts and the
-- next level are after each of its nodes.
pub mod Sorted
use model_hub.Common.{
  ℕ, String, List, [], ◌∷◌, ◌++◌, Bool, true, false, not, ◌&&◌, ◌||◌, Option, none, some, ◌≡◌, refl,
  sym, ap, ◌∙◌, subst, arith, inl, inr, str_eq, str_eq_iff, str_eq_refl, if◌then◌else◌, Bool-cases,
}
use model_hub.Common.Int.{ℤ, pos, negsuc, ◌-ℤ◌}
use model_hub.Common.OrderedMap.{
  contains, add_once, contains-append_one, contains-add_once, contains-eq, Distinct, has_key,
}
use model_hub.Graph.{
  GraphNode, Sort, is_zero, lower, visit_level, dependencies_at, dependents_at, all_in,
}
use model_hub.Graph.Distinct.{AllDistinct}
use model_hub.Graph.Ready.{all_in-contains}
use model_hub.Graph.Lowering.{
  count_open, degree_at, count_open-all_in, count_open-append_one, degree-lower, visited-lower,
  next-lower, next-Distinct,
}

append_nil : (xs : List String) → xs ++ [] ≡ xs
append_nil [] = refl
append_nil (x ∷ xs) = ap (λ l. x ∷ l) (append_nil xs)

append_one-append :
    (done : List String) (k : String) (ks : List String)
    → (done ++ (k ∷ [])) ++ ks ≡ done ++ (k ∷ ks)
append_one-append [] k ks = refl
append_one-append (x ∷ xs) k ks = ap (λ l. x ∷ l) (append_one-append xs k ks)

pub all_in-waits :
    (done xs : List String) (k : String)
    → contains k xs ≡ true
    → contains k done ≡ false
    → all_in done xs ≡ false
all_in-waits done xs k h fresh = elim (Bool-cases (all_in done xs)) [
  | inl all ↦ let there = all_in-contains done xs k all h in cc
  | inr waits ↦ waits
]

all_in-append_one :
    (done : List String) (k : String) (xs : List String)
    → contains k done ≡ false
    → Distinct xs
    → all_in (done ++ (k ∷ [])) xs
      ≡ (if contains k xs then is_zero (pos (count_open done xs) -ℤ pos 1) else all_in done xs)
all_in-append_one done k xs fresh d =
    sym (count_open-all_in (done ++ (k ∷ [])) xs)
    ∙ rw (count_open-append_one done k xs fresh d) (elim (Bool-cases (contains k xs)) [
      | inl here ↦ rw (here) refl
      | inr other ↦ rw (other) (count_open-all_in done xs)
    ])

-- The links of a graph, as the sort relies on them.
pub record IsLinked {D : Type 0} (m : List (String × GraphNode D)) : Type 0 where
  pub distinct : AllDistinct m
  pub linked : (u v : String) → contains v (dependents_at u m) ≡ contains u (dependencies_at v m)
  pub known : (u v : String) → contains v (dependents_at u m) ≡ true → has_key v m ≡ true

-- In the middle of a level: `before` is what was done before the level, `done` what is done now.
pub record IsMidway {D : Type 0} (m : List (String × GraphNode D)) (before done : List String)
    (s : Sort) : Type 0 where
  pub degree : (v : String) → degree_at v s.0 ≡ pos (count_open done (dependencies_at v m))
  pub seen : (v : String) → contains v s.1 ≡ contains v done
  pub next :
      (v : String)
      → contains v s.2 ≡ (
          has_key v m
          && (all_in done (dependencies_at v m) && not (all_in before (dependencies_at v m))))
  pub once : Distinct s.2

-- What is done had no open dependency before the level.
pub record IsClosed {D : Type 0} (m : List (String × GraphNode D)) (before done : List String)
    : Type 0 where
  pub closed : (v : String) → contains v done ≡ true → all_in before (dependencies_at v m) ≡ true

module _ {D : Type 0} (m : List (String × GraphNode D)) (graph : IsLinked m)
    (before : List String) where
  abbrev after : String → Sort → Sort
  after k (degrees, visited, next) = lower (dependents_at k m) (degrees, add_once k visited, next)

  module _ (done : List String) (k : String) (degrees : List (String × ℤ))
      (visited nexts : List String) (mid : IsMidway m before done (degrees, visited, nexts))
      (fresh : contains k done ≡ false) (new : contains k before ≡ false) where
    degree-after :
        (v : String)
        → degree_at v (after k (degrees, visited, nexts)).0
          ≡ pos (count_open (done ++ (k ∷ [])) (dependencies_at v m))
    degree-after v =
        degree-lower (dependents_at k m) degrees (add_once k visited) nexts v
          (graph.distinct.dependents k)
        ∙ rw (graph.linked k v, mid.degree v)
            (sym (
              count_open-append_one done k (dependencies_at v m) fresh
                (graph.distinct.dependencies v)))

    seen-next : (v : String) → contains v (add_once k visited) ≡ contains v (done ++ (k ∷ []))
    seen-next v = rw (contains-add_once v k visited, mid.seen v, contains-append_one v k done) refl

    seen-after :
        (v : String)
        → contains v (after k (degrees, visited, nexts)).1 ≡ contains v (done ++ (k ∷ []))
    seen-after v =
        rw (visited-lower (dependents_at k m) degrees (add_once k visited) nexts) (seen-next v)

    apart : (v : String) → contains v (dependents_at k m) ≡ true → contains v nexts ≡ false
    apart v h =
        rw
          (mid.next v, all_in-waits done (dependencies_at v m) k (sym (graph.linked k v) ∙ h) fresh)
          (ground arith)

    next-after :
        IsClosed m before (done ++ (k ∷ []))
        → (v : String)
        → contains v (after k (degrees, visited, nexts)).2 ≡ (
            has_key v m
            && (all_in (done ++ (k ∷ [])) (dependencies_at v m)
                && not (all_in before (dependencies_at v m))))
    next-after closed v =
        next-lower (dependents_at k m) degrees (add_once k visited) nexts v
          (graph.distinct.dependents k)
        ∙ elim (Bool-cases (contains v (dependents_at k m))) [
          | inl below ↦
              let dep = sym (graph.linked k v) ∙ below in
              let old = apart v below in
              let waits = all_in-waits before (dependencies_at v m) k dep new in
              let there = graph.known k v below in
              let unseen : contains v (done ++ (k ∷ [])) ≡ false =
                elim (Bool-cases (contains v (done ++ (k ∷ [])))) [
                  | inl was ↦ let all = closed.closed v was in cc
                  | inr unmet ↦ unmet
                ] in
              rw
                (
                  old,
                  below,
                  mid.degree v,
                  seen-next v,
                  unseen,
                  waits,
                  there,
                  all_in-append_one done k (dependencies_at v m) fresh
                      (graph.distinct.dependencies v),
                  dep,
                )
                (ground arith)
          | inr other ↦
              let dep = sym (graph.linked k v) ∙ other in
              rw
                (
                  other,
                  mid.next v,
                  all_in-append_one done k (dependencies_at v m) fresh
                      (graph.distinct.dependencies v),
                  dep,
                )
                (ground arith)
        ]

    IsMidway-after :
        IsClosed m before (done ++ (k ∷ []))
        → IsMidway m before (done ++ (k ∷ [])) (after k (degrees, visited, nexts))
    IsMidway-after closed = record {
      degree = degree-after;
      seen = seen-after;
      next = next-after closed;
      once =
          next-Distinct (dependents_at k m) degrees (add_once k visited) nexts apart
            (graph.distinct.dependents k) mid.once;
    }

  -- All the nodes of a level, each of them new and ready before the level.
  abbrev pub AllNew : List String → List String → Type 0
  AllNew done [] = true ≡ true
  AllNew done (k ∷ ks) =
      (contains k done ≡ false)
      × (contains k before ≡ false)
      × (all_in before (dependencies_at k m) ≡ true)
      × AllNew (done ++ (k ∷ [])) ks

  IsClosed-append_one :
      (done : List String) (k : String)
      → IsClosed m before done
      → all_in before (dependencies_at k m) ≡ true
      → IsClosed m before (done ++ (k ∷ []))
  IsClosed-append_one done k c ready = record {
    closed = λ v h. elim (Bool-cases (str_eq k v)) [
      | inl same ↦
          subst (λ x. all_in before (dependencies_at x m) ≡ true) ((str_eq_iff k v).0 same) ready
      | inr other ↦ c.closed v (ground (arith, contains-append_one v k done))
    ];
  }

  pub visit_level-IsMidway :
      (ks done : List String) (degrees : List (String × ℤ)) (visited nexts : List String)
      → IsMidway m before done (degrees, visited, nexts)
      → IsClosed m before done
      → AllNew done ks
      → IsMidway m before (done ++ ks) (visit_level m ks (degrees, visited, nexts))
        × IsClosed m before (done ++ ks)
  unfolding visit_level
  visit_level-IsMidway [] done degrees visited nexts mid c new = rw (append_nil done) (mid, c)
  visit_level-IsMidway (k ∷ ks) done degrees visited nexts mid c (fresh, unseen, ready, new) =
      let (d, v, n) = after k (degrees, visited, nexts) in
      let closed = IsClosed-append_one done k c ready in
      rw (sym (append_one-append done k ks)) (
        visit_level-IsMidway ks (done ++ (k ∷ [])) d v n
          (IsMidway-after done k degrees visited nexts mid fresh unseen closed) closed new)

  pub Distinct→AllNew :
      (ks done : List String)
      → Distinct ks
      → ((k : String) → contains k ks ≡ true → contains k done ≡ false)
      → ((k : String)
          → contains k ks ≡ true
          → (contains k before ≡ false) × (all_in before (dependencies_at k m) ≡ true))
      → AllNew done ks
  Distinct→AllNew [] done d fresh ready = refl
  Distinct→AllNew (k ∷ ks) done (once, d) fresh ready =
      let here : contains k (k ∷ ks) ≡ true = rw (str_eq_refl k) refl in
      let (unseen, all) = ready k here in
      (
        fresh k here,
        unseen,
        all,
        Distinct→AllNew ks (done ++ (k ∷ [])) d
            (λ j h.
              let old = fresh j (rw (h) (ground arith)) in
              ground (arith, contains-append_one j k done, contains-eq k j ks))
            (λ j h. ready j (rw (h) (ground arith))),
      )
