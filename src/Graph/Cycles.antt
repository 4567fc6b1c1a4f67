-- ===== src/Graph/Cycles.antt =====
-- The search for a cycle (`detectCycle` of src/workflow/execution-graph.resolver.ts): depth first, with
-- colours and parents in Maps. The calls of `dfs` run on fuel, and so does the climb along the parents
-- that writes the cycle down.
use model_hub.Common.{
  ℕ, zero, suc, String, List, [], ◌∷◌, ◌++◌, Bool, true, false, Option, none, some, length, str_eq,
  if◌then◌else◌,
}
use model_hub.Common.OrderedMap.{contains, get_key, set_key, keys}
use model_hub.Graph.{GraphNode, ExecutionGraph, dependents_at}

pub data Colour : Type 0 where
  white gray black : Colour

abbrev pub Colours : Type 0
Colours = List (String × Colour)

abbrev pub Parents : Type 0
Parents = List (String × Option String)

pub data Search : Type 0 where
  found : List String → Search
  done : Colours → Parents → Search
  out_of_fuel : Search

abbrev pub is_gray : Option Colour → Bool
is_gray (some Colour.gray) = true
is_gray _ = false

abbrev pub is_white : Option Colour → Bool
is_white (some Colour.white) = true
is_white _ = false

-- A parent where it is truthy: neither missing, null nor the empty text.
abbrev pub truthy : Option (Option String) → Option String
truthy none = none
truthy (some none) = none
truthy (some (some p)) = if str_eq p "" then none else some p

abbrev pub parent_of : Parents → String → Option String
parent_of parents current = truthy (get_key current parents)

abbrev pub reverse : List String → List String
reverse [] = []
reverse (x ∷ xs) = reverse xs ++ (x ∷ [])

unfoldable pub climb : ℕ → Parents → String → String → List String
climb zero parents dependent current = []
climb (suc f) parents dependent current = elim (parent_of parents current) [
  | none ↦ []
  | some p ↦ if str_eq p dependent then p ∷ [] else p ∷ climb f parents dependent p
]

unfoldable pub cycle_path : Parents → String → String → List String
unfolding climb
cycle_path parents dependent node =
    reverse (dependent ∷ node ∷ climb (suc (length parents)) parents dependent node)

-- A call, and what goes on where it returns null.
abbrev pub and_then : Search → (Colours → Parents → Search) → Search
and_then (found path) next = found path
and_then (done colours parents) next = next colours parents
and_then out_of_fuel next = out_of_fuel

-- The loop over the dependents of a node, with `dfs` as a parameter.
unfoldable pub try_dependents :
    (String → Colours → Parents → Search) → String → List String → Colours → Parents → Search
try_dependents dfs node [] colours parents = done colours parents
try_dependents dfs node (d ∷ ds) colours parents =
    if is_gray (get_key d colours)
    then found (cycle_path parents d node)
    else if is_white (get_key d colours)
    then and_then (dfs d colours (set_key d (some node) parents)) (try_dependents dfs node ds)
    else try_dependents dfs node ds colours parents

abbrev pub finish : String → Search → Search
finish node (found path) = found path
finish node (done colours parents) = done (set_key node Colour.black colours) parents
finish node out_of_fuel = out_of_fuel

abbrev pub others : List String → List String → List String
others entries [] = []
others entries (k ∷ ks) = if contains k entries then others entries ks else k ∷ others entries ks

module _ {D : Type 0} where
  unfoldable pub dfs : ℕ → List (String × GraphNode D) → String → Colours → Parents → Search
  unfolding try_dependents
  dfs zero m node colours parents = out_of_fuel
  dfs (suc f) m node colours parents = finish node (
      try_dependents (dfs f m) node (dependents_at node m) (set_key node Colour.gray colours)
        parents)

  unfoldable pub search_roots :
      ℕ → List (String × GraphNode D) → List String → Colours → Parents → Search
  search_roots f m [] colours parents = done colours parents
  search_roots f m (k ∷ ks) colours parents =
      if is_white (get_key k colours)
      then and_then (dfs f m k colours (set_key k none parents)) (search_roots f m ks)
      else search_roots f m ks colours parents

  abbrev pub all_white : List (String × GraphNode D) → Colours → Colours
  all_white [] colours = colours
  all_white ((k, n) ∷ r) colours = all_white r (set_key k Colour.white colours)

  abbrev pub roots : ExecutionGraph D → List String
  roots g = g.entry_nodes ++ others g.entry_nodes (keys g.nodes)

  -- `detectCycle`: `found` with the cycle, or `done` where it gives null.
  unfoldable pub detect_cycle : ℕ → ExecutionGraph D → Search
  unfolding search_roots
  detect_cycle f g = search_roots f g.nodes (roots g) (all_white g.nodes []) []
