-- ===== src/Graph/Acyclic.antt =====
-- The depth first search of `detectCycle` (src/workflow/execution-graph.resolver.ts), call by call:
-- every walk from a black node along the dependents ends.
use model_hub.Common.{
  ℕ, zero, suc, ◌≤◌, String, List, [], ◌∷◌, Bool, true, false, Option, none, some, ◌≡◌, refl, sym,
  ap, subst, ◌∙◌, str_eq, str_eq_iff, if◌then◌else◌, arith, Bool-cases, Option-cases, inl, inr,
  false-true,
}
use model_hub.Common.OrderedMap.{
  contains, get_key, has_key, set_key, get-set_key, has-set_key, has_of_none,
}
use model_hub.Graph.{GraphNode, dependents_at}
use model_hub.Graph.Cycles.{
  Colour, Colours, Parents, Search, found, done, out_of_fuel, is_gray, is_white, try_dependents,
  finish, dfs, search_roots, and_then,
}
use model_hub.Graph.Colours.{
  apart_from, black_not_gray, get-missing, is_black, not_coloured, not_gray, or_second, or_true,
  whites, whites-black, whites-gray,
}

module _ {D : Type 0} (m : List (String × GraphNode D)) where
  -- Every walk along the dependents from the node ends.
  pub data WalksEnd : String → Type 0 where
    walks_end :
        (k : String)
        → ((d : String) → contains d (dependents_at k m) ≡ true → WalksEnd d)
        → WalksEnd k

  -- Between two calls: what is black is settled, every node has a colour.
  pub record IsSettled (colours : Colours) : Type 0 where
    pub settled : (k : String) → get_key k colours ≡ some Colour.black → WalksEnd k
    pub coloured : (k : String) → has_key k m ≡ true → has_key k colours ≡ true

  -- A run has an answer; behind it more holds, and no node has become white or stayed gray.
  abbrev pub Ends : (Colours → Type 0) → Colours → Search → Type 0
  Ends P before (found path) = true ≡ true
  Ends P before (done colours parents) =
      IsSettled colours
      × (whites colours ≤ whites before)
      × ((j : String) → is_gray (get_key j colours) ≡ true → is_gray (get_key j before) ≡ true)
      × P colours
  Ends P before out_of_fuel = ⊥

  abbrev dependents_in : Option (GraphNode D) → List String
  dependents_in none = []
  dependents_in (some n) = n.dependents

  pub walks-missing : (k : String) → has_key k m ≡ false → WalksEnd k
  walks-missing k h = walks_end k λ d h'.
      absurd (false-true (subst (λ o. contains d (dependents_in o) ≡ true) (get-missing k m h) h'))

  get-coloured :
      (k : String) (colours : Colours) → has_key k colours ≡ true → get_key k colours ≡ none → ⊥
  get-coloured k colours h n = false-true (sym (has_of_none k colours n) ∙ h)

  -- The state that `dfs` starts its loop with.
  pub gray-IsSettled :
      (k : String) (colours : Colours)
      → IsSettled colours
      → IsSettled (set_key k Colour.gray colours)
  gray-IsSettled k colours i = record {
    settled =
        λ j h. i.settled j (not_gray (str_eq k j) (sym (get-set_key k j Colour.gray colours) ∙ h));
    coloured = λ j h. has-set_key k j Colour.gray colours ∙ or_true (str_eq k j) (i.coloured j h);
  }

  black-IsSettled :
      (k : String) (colours : Colours)
      → IsSettled colours
      → WalksEnd k
      → IsSettled (set_key k Colour.black colours)
  black-IsSettled k colours i w = record {
    settled = λ j h. elim (Bool-cases (str_eq k j)) [
      | inl same ↦ subst WalksEnd ((str_eq_iff k j).0 same) w
      | inr apart ↦
          i.settled j (apart_from _ apart (sym (get-set_key k j Colour.black colours) ∙ h))
    ];
    coloured = λ j h. has-set_key k j Colour.black colours ∙ or_true (str_eq k j) (i.coloured j h);
  }

  Ends-if :
      (P : Colours → Type 0) (before : Colours) (b : Bool) (x y : Search)
      → (b ≡ true → Ends P before x)
      → (b ≡ false → Ends P before y)
      → Ends P before (if b then x else y)
  Ends-if P before true x y hx hy = hx refl
  Ends-if P before false x y hx hy = hy refl

  Ends-more :
      (P Q : Colours → Type 0) (before : Colours) (r : Search)
      → ((c : Colours) → P c → Q c)
      → Ends P before r
      → Ends Q before r
  Ends-more P Q before (found path) f e = refl
  Ends-more P Q before (done c p) f (i, fewer, grays, holds) = (i, fewer, grays, f c holds)
  Ends-more P Q before out_of_fuel f e = e

  Ends-then :
      (P Q : Colours → Type 0) (before : Colours) (r : Search) (next : Colours → Parents → Search)
      → Ends P before r
      → ((c : Colours) (p : Parents)
          → IsSettled c
          → whites c ≤ whites before
          → ((j : String) → is_gray (get_key j c) ≡ true → is_gray (get_key j before) ≡ true)
          → P c
          → Ends Q c (next c p))
      → Ends Q before (and_then r next)
  Ends-then P Q before (found path) next e f = refl
  Ends-then P Q before (done c p) next (i, fewer, grays, holds) f =
      widen (next c p) (f c p i fewer grays holds)
    where
      widen : (r : Search) → Ends Q c r → Ends Q before r
      widen (found path) h = refl
      widen (done c' p') (i', fewer', grays', holds') =
          (i', omega arith, λ j h. grays j (grays' j h), holds')
      widen out_of_fuel h = h
  Ends-then P Q before out_of_fuel next e f = e

  -- A colour that is neither gray nor white.
  other-WalksEnd :
      (d : String) (c : Colours)
      → IsSettled c
      → is_gray (get_key d c) ≡ false
      → is_white (get_key d c) ≡ false
      → WalksEnd d
  other-WalksEnd d c i g w = elim (Option-cases (get_key d c)) [
    | inl missing ↦ walks-missing d (not_coloured (i.coloured d) (has_of_none d c missing))
    | inr (colour, given) ↦
        i.settled d
          (given ∙ is_black colour (ap is_gray (sym given) ∙ g) (ap is_white (sym given) ∙ w))
  ]

  abbrev pub Works : ℕ → (String → Colours → Parents → Search) → Type 0
  Works f rec =
      (d : String) (c : Colours) (p : Parents)
      → is_white (get_key d c) ≡ true
      → IsSettled c
      → whites c ≤ f
      → Ends (λ c'. WalksEnd d) c (rec d c p)

  abbrev pub AllEnd : List String → Type 0
  AllEnd ds = (d : String) → contains d ds ≡ true → WalksEnd d

  AllEnd-first : (d : String) (ds : List String) → WalksEnd d → AllEnd ds → AllEnd (d ∷ ds)
  AllEnd-first d ds first rest x h = elim (Bool-cases (str_eq d x)) [
    | inl same ↦ subst WalksEnd ((str_eq_iff d x).0 same) first
    | inr apart ↦ rest x (or_second apart h)
  ]

  try_dependents-Ends :
      (f : ℕ) (rec : String → Colours → Parents → Search) (node : String) (ds : List String)
      (c : Colours) (p : Parents)
      → Works f rec
      → IsSettled c
      → whites c ≤ f
      → Ends (λ c'. AllEnd ds) c (try_dependents rec node ds c p)
  unfolding try_dependents
  try_dependents-Ends f rec node [] c p works i w =
      (i, omega arith, λ j h. h, λ d h. absurd (false-true h))
  try_dependents-Ends f rec node (d ∷ ds) c p works i w =
      let all : Colours → Type 0 = λ c'. AllEnd (d ∷ ds) in
      Ends-if all c (is_gray (get_key d c)) _ _ (λ _. refl)
        λ no_gray.
          Ends-if all c (is_white (get_key d c)) _ _
            (λ white_one.
              Ends-then (λ c'. WalksEnd d) all c (rec d c _) (try_dependents rec node ds)
                (works d c _ white_one i w)
                λ c' p' i' fewer grays first.
                  Ends-more (λ c''. AllEnd ds) all c' _ (λ c'' rest. AllEnd-first d ds first rest)
                    (try_dependents-Ends f rec node ds c' p' works i' (omega arith)))
            λ other.
              Ends-more (λ c''. AllEnd ds) all c _
                (λ c'' rest. AllEnd-first d ds (other-WalksEnd d c i no_gray other) rest)
                (try_dependents-Ends f rec node ds c p works i w)

  -- `dfs` from a white node.
  finish-Ends :
      (k : String) (c : Colours) (r : Search)
      → is_white (get_key k c) ≡ true
      → Ends (λ c'. AllEnd (dependents_at k m)) (set_key k Colour.gray c) r
      → Ends (λ c'. WalksEnd k) c (finish k r)
  finish-Ends k c (found path) white_one e = refl
  finish-Ends k c (done c' p') white_one (i, fewer, grays, all) =
      let ends : WalksEnd k = walks_end k all in
      (
        black-IsSettled k c' i ends,
        omega (arith, whites-black k c', whites-gray k c white_one),
        λ j h.
            let black_now =
              black_not_gray (str_eq k j) (get_key j c')
                (ap is_gray (sym (get-set_key k j Colour.black c')) ∙ h) in
            ap is_gray (apart_from _ black_now.0 (sym (get-set_key k j Colour.gray c)))
            ∙ grays j black_now.1,
        ends,
      )
  finish-Ends k c out_of_fuel white_one e = e

  pub dfs-Ends : (f : ℕ) → Works f (dfs f m)
  unfolding dfs
  dfs-Ends zero k c p white_one i w = absurd (omega (arith, whites-gray k c white_one))
  dfs-Ends (suc f) k c p white_one i w = finish-Ends k c _ white_one (
      try_dependents-Ends f (dfs f m) k (dependents_at k m) (set_key k Colour.gray c) p (dfs-Ends f)
        (gray-IsSettled k c i) (omega (arith, whites-gray k c white_one)))

  pub search_roots-Ends :
      (f : ℕ) (ks : List String) (c : Colours) (p : Parents)
      → IsSettled c
      → whites c ≤ f
      → ((j : String) → is_gray (get_key j c) ≡ false)
      → Ends (λ c'. AllEnd ks) c (search_roots f m ks c p)
  unfolding search_roots
  search_roots-Ends f [] c p i w none_gray =
      (i, omega arith, λ j h. h, λ d h. absurd (false-true h))
  search_roots-Ends f (k ∷ ks) c p i w none_gray =
      let all : Colours → Type 0 = λ c'. AllEnd (k ∷ ks) in
      Ends-if all c (is_white (get_key k c)) _ _
        (λ white_one.
          Ends-then (λ c'. WalksEnd k) all c (dfs f m k c _) (search_roots f m ks)
            (dfs-Ends f k c _ white_one i w)
            λ c' p' i' fewer grays first.
              Ends-more (λ c''. AllEnd ks) all c' _ (λ c'' rest. AllEnd-first k ks first rest)
                (search_roots-Ends f ks c' p' i' (omega arith)
                  (λ j. not_coloured (grays j) (none_gray j))))
        λ other.
          Ends-more (λ c''. AllEnd ks) all c _
            (λ c'' rest. AllEnd-first k ks (other-WalksEnd k c i (none_gray k) other) rest)
            (search_roots-Ends f ks c p i w none_gray)
