-- ===== src/Common/OrderedMap.antt =====
-- A JavaScript Map from texts, as the list of its entries in the order of insertion, and lists of
-- texts used as sets. `set_key` overwrites in place or appends; `adjust_key` is a mutation of the
-- object that the map holds.
use model_hub.Common.{
  String, List, [], ◌∷◌, ◌++◌, Bool, true, false, ◌||◌, Option, none, some, ◌≡◌, refl, ap, arith,
  inl, inr, str_eq, str_eq_iff, if◌then◌else◌, Bool-cases,
}

abbrev pub contains : String → List String → Bool
contains x [] = false
contains x (y ∷ ys) = str_eq y x || contains x ys

-- `if (!xs.includes(x)) xs.push(x)`
abbrev pub add_once : String → List String → List String
add_once x xs = if contains x xs then xs else xs ++ (x ∷ [])

abbrev pub Distinct : List String → Type 0
Distinct [] = true ≡ true
Distinct (x ∷ xs) = (contains x xs ≡ false) × Distinct xs

pub contains-append_one :
    (y x : String) (xs : List String) → contains y (xs ++ (x ∷ [])) ≡ (contains y xs || str_eq x y)
contains-append_one y x [] = ground arith
contains-append_one y x (z ∷ zs) = ground (arith, contains-append_one y x zs)

pub str_eq_sym : (a b : String) → str_eq a b ≡ str_eq b a
str_eq_sym a b = ground (arith, str_eq_iff a b, str_eq_iff b a)

pub contains-eq :
    (x y : String) (xs : List String) → str_eq x y ≡ true → contains x xs ≡ contains y xs
contains-eq x y xs h = ap (λ z. contains z xs) ((str_eq_iff x y).0 h)

pub contains-add_once :
    (y x : String) (xs : List String) → contains y (add_once x xs) ≡ (contains y xs || str_eq x y)
contains-add_once y x xs = ground (arith, contains-append_one y x xs, contains-eq x y xs)

pub Distinct-append_one :
    (x : String) (xs : List String)
    → contains x xs ≡ false
    → Distinct xs
    → Distinct (xs ++ (x ∷ []))
Distinct-append_one x [] h d = (refl, refl)
Distinct-append_one x (y ∷ ys) h (fresh, d) = (
  ground (arith, contains-append_one y x ys, str_eq_sym x y),
  Distinct-append_one x ys (ground arith) d,
)

pub add_once-Distinct : (x : String) (xs : List String) → Distinct xs → Distinct (add_once x xs)
add_once-Distinct x xs d = elim (Bool-cases (contains x xs)) [
  | inl old ↦ rw (old) d
  | inr fresh ↦ rw (fresh) (Distinct-append_one x xs fresh d)
]

module _ {V : Type 0} where
  abbrev pub get_key : String → List (String × V) → Option V
  get_key k [] = none
  get_key k ((j, v) ∷ r) = if str_eq j k then some v else get_key k r

  abbrev pub has_key : String → List (String × V) → Bool
  has_key k [] = false
  has_key k ((j, v) ∷ r) = str_eq j k || has_key k r

  abbrev pub set_key : String → V → List (String × V) → List (String × V)
  set_key k v [] = (k, v) ∷ []
  set_key k v ((j, w) ∷ r) = if str_eq j k then (j, v) ∷ r else (j, w) ∷ set_key k v r

  abbrev pub adjust_key : String → (V → V) → List (String × V) → List (String × V)
  adjust_key k f [] = []
  adjust_key k f ((j, v) ∷ r) = if str_eq j k then (j, f v) ∷ r else (j, v) ∷ adjust_key k f r

  abbrev pub keys : List (String × V) → List String
  keys [] = []
  keys ((j, v) ∷ r) = j ∷ keys r

  abbrev pub adjusted : (V → V) → Option V → Option V
  adjusted f none = none
  adjusted f (some v) = some (f v)

  pub get-set_key :
      (k j : String) (v : V) (m : List (String × V))
      → get_key j (set_key k v m) ≡ (if str_eq k j then some v else get_key j m)
  get-set_key k j v [] = refl
  get-set_key k j v ((i, w) ∷ r) =
      ground (arith, str_eq_iff k j, str_eq_iff i k, str_eq_iff i j, get-set_key k j v r)

  pub get-adjust_key :
      (k j : String) (f : V → V) (m : List (String × V))
      → get_key j (adjust_key k f m)
        ≡ (if str_eq k j then adjusted f (get_key j m) else get_key j m)
  get-adjust_key k j f [] = ground arith
  get-adjust_key k j f ((i, w) ∷ r) =
      ground (arith, str_eq_iff k j, str_eq_iff i k, str_eq_iff i j, get-adjust_key k j f r)

  pub has-set_key :
      (k j : String) (v : V) (m : List (String × V))
      → has_key j (set_key k v m) ≡ (str_eq k j || has_key j m)
  has-set_key k j v [] = refl
  has-set_key k j v ((i, w) ∷ r) =
      ground (arith, str_eq_iff k j, str_eq_iff i k, str_eq_iff i j, has-set_key k j v r)

  pub keys-adjust_key :
      (k : String) (f : V → V) (m : List (String × V)) → keys (adjust_key k f m) ≡ keys m
  keys-adjust_key k f [] = refl
  keys-adjust_key k f ((i, w) ∷ r) = ground (arith, keys-adjust_key k f r)

  pub has-adjust_key :
      (k j : String) (f : V → V) (m : List (String × V))
      → has_key j (adjust_key k f m) ≡ has_key j m
  has-adjust_key k j f [] = refl
  has-adjust_key k j f ((i, w) ∷ r) = ground (arith, has-adjust_key k j f r)

  pub contains-keys : (k : String) (m : List (String × V)) → contains k (keys m) ≡ has_key k m
  contains-keys k [] = refl
  contains-keys k ((i, w) ∷ r) = rw (contains-keys k r)

  pub has_of_get :
      (k : String) (m : List (String × V)) (v : V) → get_key k m ≡ some v → has_key k m ≡ true
  has_of_get k [] v h = ground arith
  has_of_get k ((i, w) ∷ r) v h = ground (arith, has_of_get k r v)

  pub has_of_none : (k : String) (m : List (String × V)) → get_key k m ≡ none → has_key k m ≡ false
  has_of_none k [] h = refl
  has_of_none k ((i, w) ∷ r) h = ground (arith, has_of_none k r)

  pub has_key-eq :
      (x y : String) (m : List (String × V)) → str_eq x y ≡ true → has_key x m ≡ has_key y m
  has_key-eq x y m h = ap (λ z. has_key z m) ((str_eq_iff x y).0 h)

  pub set_key-Distinct :
      (k : String) (v : V) (m : List (String × V))
      → Distinct (keys m)
      → Distinct (keys (set_key k v m))
  set_key-Distinct k v [] d = (refl, refl)
  set_key-Distinct k v ((i, w) ∷ r) (fresh, d) = elim (Bool-cases (str_eq i k)) [
    | inl same ↦ rw (same) (fresh, d)
    | inr other ↦ rw (other) (
      ground (
        arith,
        contains-keys i (set_key k v r),
        contains-keys i r,
        has-set_key k i v r,
        str_eq_sym i k,
      ),
      set_key-Distinct k v r d,
    )
  ]
