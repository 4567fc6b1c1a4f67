-- ===== src/Graph/Decides.antt =====
-- The search for a cycle finds one exactly where there is one (`detectCycle` of
-- src/workflow/execution-graph.resolver.ts).
use model_hub.Common.{
  ℕ, zero, suc, ◌≤◌, String, List, [], ◌∷◌, Bool, true, false, ◌||◌, ◌≡◌, ◌≢◌, refl, sym, ap, subst,
  ◌∙◌, length, ◌⊎◌, none, some, str_eq, str_eq_iff, str_eq_refl, if◌then◌else◌, arith, Bool-cases,
  inl, inr, false-true,
}
use model_hub.Common.OrderedMap.{contains, get_key, set_key, get-set_key}
use model_hub.Graph.{GraphNode, ExecutionGraph, dependents_at}
use model_hub.Graph.Cycles.{
  Colour, Colours, Parents, Search, found, done, out_of_fuel, is_gray, is_white, try_dependents,
  finish, dfs, search_roots, all_white, roots, detect_cycle, and_then,
}
use model_hub.Graph.Path.{
  EndsAt, cycle_path-EndsAt, IsWalk, IsLinked, cycle_path-IsWalk, none-IsLinked, set-IsLinked,
}
use model_hub.Graph.Acyclic.{WalksEnd, IsSettled, Ends, dfs-Ends, gray-IsSettled, walks_end}
use model_hub.Graph.Ending.{detect_cycle-WalksEnd, all_white-IsSettled, all_white-no_gray}
use model_hub.Graph.Colours.{whites, whites-gray, apart_from, whites-all_white, not_coloured}

or_left : {a : Bool} (b : Bool) → a ≡ true → (a || b) ≡ true
or_left b h = ground arith

or_right : {b : Bool} (a : Bool) → b ≡ true → (a || b) ≡ true
or_right a h = ground arith

some_same : {a b : String} → some a ≡ some b → a ≡ b
some_same h = ground arith

module _ {D : Type 0} (m : List (String × GraphNode D)) where
  -- A walk along the dependents.
  pub data Reach : String → String → Type 0 where
    here : (a : String) → Reach a a
    further : (a b c : String) → Reach a b → contains c (dependents_at b m) ≡ true → Reach a c

  -- A walk from a node to one that it depends on.
  abbrev pub Cycle : String → Type 0
  Cycle x = (y : String) × Reach x y × (contains x (dependents_at y m) ≡ true)

  first_step :
      (x y : String)
      → Reach x y
      → (x ≡ y) ⊎ ((z : String) × (contains z (dependents_at x m) ≡ true) × Reach z y)
  first_step x _ (here _) = inl refl
  first_step x _ (further _ b c walk step) = elim (first_step x b walk) [
    | inl same ↦ inr (c, subst (λ k. contains c (dependents_at k m) ≡ true) (sym same) step, here c)
    | inr (z, first, rest) ↦ inr (z, first, further z b c rest step)
  ]

  pub WalksEnd-acyclic : (x : String) → WalksEnd m x → Cycle x → ⊥
  WalksEnd-acyclic x (walks_end _ next) (y, walk, back) = elim (first_step x y walk) [
    | inl same ↦
        let self : contains x (dependents_at x m) ≡ true =
          subst (λ k. contains x (dependents_at k m) ≡ true) (sym same) back in
        WalksEnd-acyclic x (next x self) (x, here x, self)
    | inr (z, first, rest) ↦ WalksEnd-acyclic z (next z first) (x, further z y x rest back, first)
  ]

  abbrev IsSound : Search → Type 0
  IsSound (found path) = IsWalk m path × ((x : String) × EndsAt x path × Cycle x)
  IsSound (done c p) = IsLinked m p
  IsSound out_of_fuel = true ≡ true

  -- From every gray node there is a walk to the node.
  abbrev Leads : Colours → String → Type 0
  Leads c k = (j : String) → is_gray (get_key j c) ≡ true → Reach j k

  then-IsSound :
      (r : Search) (next : Colours → Parents → Search)
      → IsSound r
      → ((c : Colours) (p : Parents) → r ≡ done c p → IsLinked m p → IsSound (next c p))
      → IsSound (and_then r next)
  then-IsSound (found path) next h f = h
  then-IsSound (done c p) next h f = f c p refl h
  then-IsSound out_of_fuel next h f = refl

  if-IsSound :
      (b : Bool) (x y : Search)
      → (b ≡ true → IsSound x)
      → (b ≡ false → IsSound y)
      → IsSound (if b then x else y)
  if-IsSound true x y hx hy = hx refl
  if-IsSound false x y hx hy = hy refl

  finish-IsSound : (k : String) (r : Search) → IsSound r → IsSound (finish k r)
  finish-IsSound k (found path) h = h
  finish-IsSound k (done c p) h = h
  finish-IsSound k out_of_fuel h = refl

  abbrev AllSound : ℕ → Type 0
  AllSound f =
      (d : String) (c : Colours) (p : Parents)
      → is_white (get_key d c) ≡ true
      → IsSettled m c
      → whites c ≤ f
      → Leads c d
      → IsLinked m p
      → IsSound (dfs f m d c p)

  try_dependents-IsSound :
      (f : ℕ) (node : String) (ds : List String) (c : Colours) (p : Parents)
      → AllSound f
      → IsSettled m c
      → whites c ≤ f
      → Leads c node
      → ((d : String) → contains d ds ≡ true → contains d (dependents_at node m) ≡ true)
      → IsLinked m p
      → IsSound (try_dependents (dfs f m) node ds c p)
  unfolding try_dependents
  try_dependents-IsSound f node [] c p sound i w leads steps linked = linked
  try_dependents-IsSound f node (d ∷ ds) c p sound i w leads steps linked =
      let step : contains d (dependents_at node m) ≡ true =
        steps d (or_left (contains d ds) (str_eq_refl d)) in
      let later : (x : String) → contains x ds ≡ true → contains x (dependents_at node m) ≡ true =
        λ x h. steps x (or_right (str_eq d x) h) in
      if-IsSound (is_gray (get_key d c)) _ _
        (λ gray_one. (
          cycle_path-IsWalk m p d node linked step,
          (d, cycle_path-EndsAt p d node, (node, leads d gray_one, step)),
        ))
        λ _.
          if-IsSound (is_white (get_key d c)) _ _
            (λ white_one.
              then-IsSound (dfs f m d c _) (try_dependents (dfs f m) node ds)
                (sound d c _ white_one i w (λ j h. further j node d (leads j h) step)
                  (set-IsLinked m d (some node) p (λ q h. from_node d step q h) linked))
                λ c' p' e linked'.
                  let ended =
                    subst (Ends m (λ _. WalksEnd m d) c) e (dfs-Ends m f d c _ white_one i w) in
                  try_dependents-IsSound f node ds c' p' sound ended.0 (omega (arith, ended.1))
                    (λ j h. leads j (ended.2 j h)) later linked')
            λ _. try_dependents-IsSound f node ds c p sound i w leads later linked
    where
      from_node :
          (d : String)
          → contains d (dependents_at node m) ≡ true
          → (q : String) → some node ≡ some q
          → contains d (dependents_at q m) ≡ true
      from_node d step q h = subst (λ k. contains d (dependents_at k m) ≡ true) (some_same h) step

  gray-Leads : (k : String) (c : Colours) → Leads c k → Leads (set_key k Colour.gray c) k
  gray-Leads k c leads j h = elim (Bool-cases (str_eq k j)) [
    | inl same ↦ subst (λ x. Reach x k) ((str_eq_iff k j).0 same) (here k)
    | inr apart ↦
        leads j (ap is_gray (apart_from _ apart (sym (get-set_key k j Colour.gray c))) ∙ h)
  ]

  dfs-IsSound : (f : ℕ) → AllSound f
  unfolding dfs
  dfs-IsSound zero k c p white_one i w leads linked = refl
  dfs-IsSound (suc f) k c p white_one i w leads linked = finish-IsSound k _ (
      try_dependents-IsSound f k (dependents_at k m) (set_key k Colour.gray c) p (dfs-IsSound f)
        (gray-IsSettled m k c i) (omega (arith, whites-gray k c white_one)) (gray-Leads k c leads)
        (λ d h. h) linked)

  search_roots-IsSound :
      (f : ℕ) (ks : List String) (c : Colours) (p : Parents)
      → IsSettled m c
      → whites c ≤ f
      → ((j : String) → is_gray (get_key j c) ≡ false)
      → IsLinked m p
      → IsSound (search_roots f m ks c p)
  unfolding search_roots
  search_roots-IsSound f [] c p i w none_gray linked = linked
  search_roots-IsSound f (k ∷ ks) c p i w none_gray linked =
      if-IsSound (is_white (get_key k c)) _ _
        (λ white_one.
          then-IsSound (dfs f m k c _) (search_roots f m ks)
            (dfs-IsSound f k c _ white_one i w (λ j h. absurd (false-true (sym (none_gray j) ∙ h)))
              (set-IsLinked m k none p (λ q h. ground arith) linked))
            λ c' p' e linked'.
              let ended =
                subst (Ends m (λ _. WalksEnd m k) c) e (dfs-Ends m f k c _ white_one i w) in
              search_roots-IsSound f ks c' p' ended.0 (omega (arith, ended.1))
                (λ j. not_coloured (ended.2 j) (none_gray j)) linked')
        λ _. search_roots-IsSound f ks c p i w none_gray linked

-- The search with fuel for each node has an answer; where it reports a path, each node of the path
-- depends on the one before it and the last one is on a cycle, and where it reports none there is none.
pub detect_cycle-decides :
    {D : Type 0} (g : ExecutionGraph D)
    → (detect_cycle (length g.nodes) g ≢ out_of_fuel)
      × ((path : List String)
          → detect_cycle (length g.nodes) g ≡ found path
          → IsWalk g.nodes path × ((x : String) × EndsAt x path × Cycle g.nodes x))
      × ((colours : Colours) (parents : Parents)
          → detect_cycle (length g.nodes) g ≡ done colours parents
          → (x : String) → Cycle g.nodes x
          → ⊥)
unfolding detect_cycle
detect_cycle-decides g =
    let sound =
      search_roots-IsSound g.nodes (length g.nodes) (roots g) (all_white g.nodes []) []
        (all_white-IsSettled g.nodes) (omega (arith, whites-all_white g.nodes []))
        (all_white-no_gray g.nodes) (none-IsLinked g.nodes) in
    (
      (detect_cycle-WalksEnd g).0,
      λ path e. subst (IsSound g.nodes) e sound,
      λ colours parents e x cycle.
          WalksEnd-acyclic g.nodes x ((detect_cycle-WalksEnd g).1 colours parents e x) cycle,
    )
