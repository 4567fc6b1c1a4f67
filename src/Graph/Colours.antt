-- ===== src/Graph/Colours.antt =====
-- The colours of the search for a cycle: how many nodes are white, and what setting one changes
-- (`detectCycle` of src/workflow/execution-graph.resolver.ts).
use model_hub.Common.{
  ℕ, suc, ◌+◌, ◌≤◌, ◌<◌, String, List, [], ◌∷◌, ◌++◌, Bool, true, false, ◌||◌, Option, none, some,
  ◌≡◌, refl, sym, ◌∙◌, length, str_eq, str_eq_iff, if◌then◌else◌, arith, false-true,
}
use model_hub.Common.OrderedMap.{
  contains, get_key, has_key, set_key, keys, get-set_key, has-set_key, contains-eq, contains-keys,
}
use model_hub.Graph.{GraphNode}
use model_hub.Graph.Cycles.{Colour, Colours, is_gray, is_white, all_white, others}

-- How many nodes are white.
abbrev pub whites : Colours → ℕ
whites [] = 0
whites ((k, Colour.white) ∷ r) = suc (whites r)
whites ((k, Colour.gray) ∷ r) = whites r
whites ((k, Colour.black) ∷ r) = whites r

pub whites-gray :
    (k : String) (colours : Colours)
    → is_white (get_key k colours) ≡ true
    → whites (set_key k Colour.gray colours) < whites colours
whites-gray k [] h = absurd (false-true h)
whites-gray k ((j, Colour.white) ∷ r) h = ground (arith, whites-gray k r)
whites-gray k ((j, Colour.gray) ∷ r) h = ground (arith, whites-gray k r)
whites-gray k ((j, Colour.black) ∷ r) h = ground (arith, whites-gray k r)

whites-white :
    (k : String) (colours : Colours)
    → whites (set_key k Colour.white colours) ≤ suc (whites colours)
whites-white k [] = omega arith
whites-white k ((j, Colour.white) ∷ r) = ground (arith, whites-white k r)
whites-white k ((j, Colour.gray) ∷ r) = ground (arith, whites-white k r)
whites-white k ((j, Colour.black) ∷ r) = ground (arith, whites-white k r)

set_white :
    {o : Option Colour} {colour : Colour} (b : Bool)
    → (o ≡ some colour → colour ≡ Colour.white)
    → (if b then some Colour.white else o) ≡ some colour
    → colour ≡ Colour.white
set_white true h given = ground arith
set_white false h given = h given

pub whites-black :
    (k : String) (colours : Colours) → whites (set_key k Colour.black colours) ≤ whites colours
whites-black k [] = omega arith
whites-black k ((j, Colour.white) ∷ r) = ground (arith, whites-black k r)
whites-black k ((j, Colour.gray) ∷ r) = ground (arith, whites-black k r)
whites-black k ((j, Colour.black) ∷ r) = ground (arith, whites-black k r)

pub not_gray :
    {o : Option Colour} (b : Bool)
    → (if b then some Colour.gray else o) ≡ some Colour.black
    → o ≡ some Colour.black
not_gray b h = ground arith

pub apart_from :
    {o p : Option Colour} {b : Bool} (q : Option Colour)
    → b ≡ false
    → (if b then q else o) ≡ p
    → o ≡ p
apart_from q h k = ground arith

pub or_true : {b : Bool} (a : Bool) → b ≡ true → (a || b) ≡ true
or_true a h = ground arith

pub get-missing :
    {V : Type 0} (k : String) (m : List (String × V)) → has_key k m ≡ false → get_key k m ≡ none
get-missing k [] h = refl
get-missing k ((j, v) ∷ r) h = ground (arith, get-missing k r)

pub black_not_gray :
    (b : Bool) (o : Option Colour)
    → is_gray (if b then some Colour.black else o) ≡ true
    → (b ≡ false) × (is_gray o ≡ true)
black_not_gray true o h = absurd (false-true h)
black_not_gray false o h = (refl, h)

pub not_coloured : {a b : Bool} → (a ≡ true → b ≡ true) → b ≡ false → a ≡ false
not_coloured f h = ground arith

pub or_second : {a b : Bool} → a ≡ false → (a || b) ≡ true → b ≡ true
or_second h k = ground arith

pub is_black :
    (c : Colour) → is_gray (some c) ≡ false → is_white (some c) ≡ false → some c ≡ some Colour.black
is_black Colour.white g w = cc
is_black Colour.gray g w = cc
is_black Colour.black g w = refl

pub whites-all_white :
    {D : Type 0} (m : List (String × GraphNode D)) (c : Colours)
    → whites (all_white m c) ≤ length m + whites c
whites-all_white [] c = omega arith
whites-all_white ((k, n) ∷ r) c =
    omega (arith, whites-all_white r (set_key k Colour.white c), whites-white k c)

all_white-get :
    {D : Type 0} (m : List (String × GraphNode D)) (c : Colours)
    → ((j : String) (colour : Colour) → get_key j c ≡ some colour → colour ≡ Colour.white)
    → (j : String) (colour : Colour) → get_key j (all_white m c) ≡ some colour
    → colour ≡ Colour.white
all_white-get [] c h = h
all_white-get ((k, n) ∷ r) c h = all_white-get r (set_key k Colour.white c) λ j colour given.
    set_white (str_eq k j) (h j colour) (sym (get-set_key k j Colour.white c) ∙ given)

pub all_white-has :
    {D : Type 0} (m : List (String × GraphNode D)) (c : Colours) (j : String)
    → has_key j (all_white m c) ≡ (has_key j c || has_key j m)
all_white-has [] c j = ground arith
all_white-has ((k, n) ∷ r) c j =
    ground (arith, all_white-has r (set_key k Colour.white c) j, has-set_key k j Colour.white c)

no_entry : {colour : Colour} → none ≡ some colour → ⊥
no_entry h = cc

pub not_black : Colour.black ≡ Colour.white → ⊥
not_black h = cc

pub no_gray_given :
    (o : Option Colour)
    → ((colour : Colour) → o ≡ some colour → colour ≡ Colour.white)
    → is_gray o ≡ false
no_gray_given none h = refl
no_gray_given (some colour) h = rw (h colour refl)

pub contains-append :
    (k : String) (xs ys : List String) → contains k (xs ++ ys) ≡ (contains k xs || contains k ys)
contains-append k [] ys = refl
contains-append k (x ∷ xs) ys = ground (arith, contains-append k xs ys)

contains-others :
    (k : String) (entries ks : List String)
    → contains k entries ≡ false
    → contains k ks ≡ true
    → contains k (others entries ks) ≡ true
contains-others k entries [] e h = h
contains-others k entries (x ∷ xs) e h =
    ground (arith, contains-others k entries xs e, str_eq_iff x k, contains-eq x k entries)

pub all_roots :
    {D : Type 0} (m : List (String × GraphNode D)) (entries : List String) (k : String)
    → has_key k m ≡ true
    → contains k (entries ++ others entries (keys m)) ≡ true
all_roots m entries k h = ground (
  arith,
  contains-append k entries (others entries (keys m)),
  contains-others k entries (keys m),
  contains-keys k m,
)

pub only_white :
    {D : Type 0} (m : List (String × GraphNode D)) (j : String) (colour : Colour)
    → get_key j (all_white m []) ≡ some colour
    → colour ≡ Colour.white
only_white m = all_white-get m [] (λ j colour h. absurd (no_entry h))
