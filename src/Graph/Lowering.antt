-- ===== src/Graph/Lowering.antt =====
-- What one node of a level does to the counts and to the next level, in `topologicalSort`
-- (src/workflow/execution-graph.resolver.ts), and how many dependencies of a node are open.
use model_hub.Common.{
  ℕ, ◌+◌, String, List, [], ◌∷◌, ◌++◌, Bool, true, false, not, ◌&&◌, ◌||◌, ◌≡◌, refl, sym, ap, ◌∙◌,
  arith, inl, inr, length, str_eq, str_eq_iff, str_eq_refl, if◌then◌else◌, Bool-cases,
}
use model_hub.Common.Int.{ℤ, pos, ◌-ℤ◌}
use model_hub.Common.OrderedMap.{
  contains, contains-append_one, contains-eq, Distinct, Distinct-append_one, has_key, get_key,
  set_key, get-set_key, keys, contains-keys, str_eq_sym,
}
use model_hub.Graph.{GraphNode, or_zero, is_zero, init_degrees, lower, dependencies_at, all_in}

-- How many of a list are not in a set.
pub count_open : List String → List String → ℕ
count_open done [] = 0
count_open done (x ∷ xs) = (if contains x done then 0 else 1) + count_open done xs

abbrev pub degree_at : String → List (String × ℤ) → ℤ
degree_at v degrees = or_zero (get_key v degrees)

pub count_open-none : (xs : List String) → count_open [] xs ≡ length xs
unfolding count_open
count_open-none [] = refl
count_open-none (x ∷ xs) = omega (arith, count_open-none xs)

-- None is open exactly if all are in the set.
pub count_open-all_in :
    (done xs : List String) → is_zero (pos (count_open done xs)) ≡ all_in done xs
unfolding count_open
count_open-all_in done [] = refl
count_open-all_in done (x ∷ xs) = ground (arith, count_open-all_in done xs)

-- One more member closes at most itself.
pub count_open-append_one :
    (done : List String) (k : String) (xs : List String)
    → contains k done ≡ false
    → Distinct xs
    → pos (count_open (done ++ (k ∷ [])) xs)
      ≡ (if contains k xs then pos (count_open done xs) -ℤ pos 1 else pos (count_open done xs))
unfolding count_open ◌-ℤ◌
count_open-append_one done k [] fresh d = refl
count_open-append_one done k (x ∷ xs) fresh (once, d) = ground (
  arith,
  count_open-append_one done k xs fresh d,
  contains-append_one x k done,
  contains-eq x k done,
  contains-eq x k xs,
  str_eq_sym x k,
)

degree_at-set_key :
    (x v : String) (d : ℤ) (r : List (String × ℤ))
    → degree_at v (set_key x d r) ≡ (if str_eq x v then d else degree_at v r)
degree_at-set_key x v d r = rw (get-set_key x v d r, or_zero) (ground arith)

degree_at-eq :
    (x v : String) (r : List (String × ℤ)) → str_eq x v ≡ true → degree_at x r ≡ degree_at v r
degree_at-eq x v r h = ap (λ k. degree_at k r) ((str_eq_iff x v).0 h)

-- The counts after a run of `lower`.
pub degree-lower :
    (vs : List String) (degrees : List (String × ℤ)) (visited next : List String) (v : String)
    → Distinct vs
    → degree_at v (lower vs (degrees, visited, next)).0
      ≡ (if contains v vs then degree_at v degrees -ℤ pos 1 else degree_at v degrees)
unfolding lower
degree-lower [] degrees visited next v d = refl
degree-lower (x ∷ xs) degrees visited next v (once, d) =
    let lowered = degree_at x degrees -ℤ pos 1 in
    let later =
      degree-lower xs (set_key x lowered degrees) visited
        (if is_zero lowered && not (contains x visited) then next ++ (x ∷ []) else next) v d in
    (later ∙ elim (Bool-cases (str_eq x v)) [
      | inl same ↦
          rw
            (
              degree_at-set_key x v lowered degrees,
              same,
              sym (contains-eq x v xs same),
              once,
              degree_at-eq x v degrees same,
            )
            refl
      | inr other ↦ rw (degree_at-set_key x v lowered degrees, other) refl
    ])

pub visited-lower :
    (vs : List String) (degrees : List (String × ℤ)) (visited next : List String)
    → (lower vs (degrees, visited, next)).1 ≡ visited
unfolding lower
visited-lower [] degrees visited next = refl
visited-lower (x ∷ xs) degrees visited next = visited-lower xs _ visited _

contains-if_append :
    (b : Bool) (v x : String) (next : List String)
    → contains v (if b then next ++ (x ∷ []) else next) ≡ (contains v next || (b && str_eq x v))
contains-if_append b v x next = ground (arith, contains-append_one v x next)

if_append-Distinct :
    (b : Bool) (x : String) (next : List String)
    → contains x next ≡ false
    → Distinct next
    → Distinct (if b then next ++ (x ∷ []) else next)
if_append-Distinct true x next h d = Distinct-append_one x next h d
if_append-Distinct false x next h d = d

-- The next level after it.
pub next-lower :
    (vs : List String) (degrees : List (String × ℤ)) (visited next : List String) (v : String)
    → Distinct vs
    → contains v (lower vs (degrees, visited, next)).2 ≡ (
        contains v next
        || (contains v vs && (is_zero (degree_at v degrees -ℤ pos 1) && not (contains v visited))))
unfolding lower
next-lower [] degrees visited next v d = ground arith
next-lower (x ∷ xs) degrees visited next v (once, d) =
    let lowered = degree_at x degrees -ℤ pos 1 in
    let more = (if is_zero lowered && not (contains x visited) then next ++ (x ∷ []) else next) in
    let later = next-lower xs (set_key x lowered degrees) visited more v d in
    (later ∙ elim (Bool-cases (str_eq x v)) [
      | inl same ↦
          rw
            (
              contains-if_append (is_zero lowered && not (contains x visited)) v x next,
              same,
              sym (contains-eq x v xs same),
              once,
              degree_at-eq x v degrees same,
              contains-eq x v visited same,
            )
            (ground arith)
      | inr other ↦
          rw
            (
              contains-if_append (is_zero lowered && not (contains x visited)) v x next,
              degree_at-set_key x v lowered degrees,
              other,
            )
            (ground arith)
    ])

-- The next level stays without repetitions, if none of the dependents is in it before.
pub next-Distinct :
    (vs : List String) (degrees : List (String × ℤ)) (visited next : List String)
    → ((v : String) → contains v vs ≡ true → contains v next ≡ false)
    → Distinct vs
    → Distinct next
    → Distinct (lower vs (degrees, visited, next)).2
unfolding lower
next-Distinct [] degrees visited next apart d n = n
next-Distinct (x ∷ xs) degrees visited next apart (once, d) n =
    let lowered = degree_at x degrees -ℤ pos 1 in
    let b = is_zero lowered && not (contains x visited) in
    next-Distinct xs (set_key x lowered degrees) visited (if b then next ++ (x ∷ []) else next)
      (λ v here.
        let old = apart v (rw (here) (ground arith)) in
        ground (arith, contains-if_append b v x next, contains-eq x v xs))
      d (if_append-Distinct b x next (apart x (rw (str_eq_refl x) refl)) n)

-- The counts at the start.
pub degree-init_degrees :
    {D : Type 0} (m : List (String × GraphNode D)) (r : List (String × ℤ)) (v : String)
    → Distinct (keys m)
    → degree_at v (init_degrees m r)
      ≡ (if has_key v m then pos (length (dependencies_at v m)) else degree_at v r)
degree-init_degrees [] r v d = refl
degree-init_degrees ((k, n) ∷ m) r v (fresh, d) =
    degree-init_degrees m (set_key k (pos (length n.dependencies)) r) v d
    ∙ elim (Bool-cases (str_eq k v)) [
      | inl same ↦
          rw
            (
              degree_at-set_key k v (pos (length n.dependencies)) r,
              same,
              sym (contains-keys v m),
              sym (contains-eq k v (keys m) same),
              fresh,
            )
            (ground (arith, same))
      | inr other ↦
          rw (degree_at-set_key k v (pos (length n.dependencies)) r, other) (ground (arith, other))
    ]
