-- ===== src/Graph/Path.antt =====
-- The path that the search for a cycle writes down (`detectCycle` of
-- src/workflow/execution-graph.resolver.ts): it goes along the dependents.
use model_hub.Common.{
  ℕ, zero, suc, String, List, [], ◌∷◌, ◌++◌, Bool, true, false, Option, none, some, ◌≡◌, refl, sym,
  subst, ◌∙◌, length, str_eq, str_eq_iff, if◌then◌else◌, arith, Bool-cases, inl, inr,
}
use model_hub.Common.OrderedMap.{contains, get_key, set_key, get-set_key}
use model_hub.Graph.{GraphNode, dependents_at}
use model_hub.Graph.Cycles.{Parents, truthy, parent_of, reverse, climb, cycle_path}

truthy-some : (o : Option (Option String)) (q : String) → truthy o ≡ some q → o ≡ some (some q)
truthy-some none q h = ground arith
truthy-some (some none) q h = ground arith
truthy-some (some (some p)) q h = ground arith

-- The list ends with the node.
abbrev pub EndsAt : String → List String → Type 0
EndsAt x path = (front : List String) × (path ≡ (front ++ (x ∷ [])))

pub cycle_path-EndsAt : (p : Parents) (d node : String) → EndsAt d (cycle_path p d node)
unfolding cycle_path
cycle_path-EndsAt p d node = (reverse (node ∷ climb (suc (length p)) p d node), refl)

module _ {D : Type 0} (m : List (String × GraphNode D)) where
  -- Each of the nodes depends on the one before it, the first of them on `x`.
  pub StepsFrom : String → List String → Type 0
  StepsFrom x [] = true ≡ true
  StepsFrom x (y ∷ ys) = (contains y (dependents_at x m) ≡ true) × StepsFrom y ys

  -- A list of nodes each of which depends on the one before it.
  abbrev pub IsWalk : List String → Type 0
  IsWalk [] = true ≡ true
  IsWalk (x ∷ xs) = StepsFrom x xs

  BackFrom : String → List String → Type 0
  BackFrom x [] = true ≡ true
  BackFrom x (y ∷ ys) = (contains x (dependents_at y m) ≡ true) × BackFrom y ys

  -- The parents are dependencies.
  abbrev pub IsLinked : Parents → Type 0
  IsLinked p = (x q : String) → get_key x p ≡ some (some q) → contains x (dependents_at q m) ≡ true

  StepsFrom-snoc :
      (w : String) (l : List String) (y x : String)
      → StepsFrom w (l ++ (y ∷ []))
      → contains x (dependents_at y m) ≡ true
      → StepsFrom w ((l ++ (y ∷ [])) ++ (x ∷ []))
  unfolding StepsFrom
  StepsFrom-snoc w [] y x h step = (h.0, (step, refl))
  StepsFrom-snoc w (z ∷ l) y x h step = (h.0, StepsFrom-snoc z l y x h.1 step)

  IsWalk-snoc :
      (l : List String) (y x : String)
      → IsWalk (l ++ (y ∷ []))
      → contains x (dependents_at y m) ≡ true
      → IsWalk ((l ++ (y ∷ [])) ++ (x ∷ []))
  unfolding StepsFrom
  IsWalk-snoc [] y x h step = (step, refl)
  IsWalk-snoc (z ∷ l) y x h step = StepsFrom-snoc z l y x h step

  reverse-IsWalk : (x : String) (ys : List String) → BackFrom x ys → IsWalk (reverse (x ∷ ys))
  unfolding BackFrom StepsFrom
  reverse-IsWalk x [] h = refl
  reverse-IsWalk x (y ∷ ys) h = IsWalk-snoc (reverse ys) y x (reverse-IsWalk y ys h.1) h.0

  if-BackFrom :
      (x : String) (b : Bool) (l r : List String)
      → BackFrom x l
      → BackFrom x r
      → BackFrom x (if b then l else r)
  if-BackFrom x true l r hl hr = hl
  if-BackFrom x false l r hl hr = hr

  step-BackFrom :
      (f : ℕ) (p : Parents) (d x : String) (o : Option String)
      → ((q : String) → o ≡ some q → contains x (dependents_at q m) ≡ true)
      → ((q : String) → BackFrom q (climb f p d q))
      → BackFrom x
          (elim o [ none ↦ [] | some q ↦ if str_eq q d then q ∷ [] else q ∷ climb f p d q ])
  unfolding BackFrom
  step-BackFrom f p d x none linked rest = refl
  step-BackFrom f p d x (some q) linked rest =
      if-BackFrom x (str_eq q d) _ _ (linked q refl, refl) (linked q refl, rest q)

  climb-BackFrom : (f : ℕ) (p : Parents) (d x : String) → IsLinked p → BackFrom x (climb f p d x)
  unfolding climb BackFrom
  climb-BackFrom zero p d x linked = refl
  climb-BackFrom (suc f) p d x linked =
      step-BackFrom f p d x (parent_of p x) (λ q h. linked x q (truthy-some (get_key x p) q h))
        λ q. climb-BackFrom f p d q linked

  pub cycle_path-IsWalk :
      (p : Parents) (d node : String)
      → IsLinked p
      → contains d (dependents_at node m) ≡ true
      → IsWalk (cycle_path p d node)
  unfolding cycle_path BackFrom
  cycle_path-IsWalk p d node linked step =
      reverse-IsWalk d (node ∷ climb (suc (length p)) p d node)
        (step, climb-BackFrom (suc (length p)) p d node linked)

  pub none-IsLinked : IsLinked []
  none-IsLinked x q h = ground arith

  pub set-IsLinked :
      (d : String) (v : Option String) (p : Parents)
      → ((q : String) → v ≡ some q → contains d (dependents_at q m) ≡ true)
      → IsLinked p
      → IsLinked (set_key d v p)
  set-IsLinked d v p step linked x q h = elim (Bool-cases (str_eq d x)) [
    | inl same ↦
        subst (λ k. contains k (dependents_at q m) ≡ true) ((str_eq_iff d x).0 same)
          (step q (found_there same))
    | inr apart ↦ linked x q (there apart)
  ]
    where
      looked_up : (if str_eq d x then some v else get_key x p) ≡ some (some q)
      looked_up = sym (get-set_key d x v p) ∙ h

      found_there : str_eq d x ≡ true → v ≡ some q
      found_there same = ground (arith, looked_up)

      there : str_eq d x ≡ false → get_key x p ≡ some (some q)
      there apart = ground (arith, looked_up)
