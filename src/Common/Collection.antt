-- ===== src/Common/Collection.antt =====
-- A database collection under a unique key, as the services see it: a document is read by its
-- key, a conditional update of one document is one atomic step (`findOneAndUpdate`, `updateOne`),
-- and an upsert inserts a document only if the key is missing. The database is not part of the
-- repository: `Collection` is what the services rely on, and each of them takes one as a parameter.
use model_hub.Common.{
  String, List, [], ◌∷◌, Bool, false, Option, none, some, ◌≡◌, refl, arith, str_eq, str_eq_iff,
  str_eq_refl, if◌then◌else◌,
}

module _ {D : Type 0} where
  -- The document as a conditional update leaves it.
  abbrev pub updated : (D → Bool) → (D → D) → Option D → Option D
  updated p f none = none
  updated p f (some d) = some (if p d then f d else d)

  -- What a conditional update with `new: true` returns: the changed document, or null.
  abbrev pub matched : (D → Bool) → (D → D) → Option D → Option D
  matched p f none = none
  matched p f (some d) = if p d then some (f d) else none

  abbrev pub found_or : D → Option D → D
  found_or d none = d
  found_or d (some e) = e

pub record Collection (D : Type 0) : Type 1 where
  pub Db : Type 0
  pub find_one : String → Db → Option D
  pub update_one : String → (D → Bool) → (D → D) → Db → Db
  pub upsert : String → D → Db → Db
  pub find_one-update_one :
      (k j : String) (p : D → Bool) (f : D → D) (db : Db)
      → find_one j (update_one k p f db)
        ≡ (if str_eq k j then updated p f (find_one j db) else find_one j db)
  pub find_one-upsert :
      (k j : String) (d : D) (db : Db)
      → find_one j (upsert k d db)
        ≡ (if str_eq k j then some (found_or d (find_one j db)) else find_one j db)

module _ {D : Type 0} (c : Collection D) where
  open c use {Db, find_one, update_one, upsert, find_one-update_one, find_one-upsert}

  -- `findOneAndUpdate(filter, update, { new: true })`: the result and the collection after it.
  abbrev pub find_one_and_update : String → (D → Bool) → (D → D) → Db → Option D × Db
  find_one_and_update k p f db = (matched p f (find_one k db), update_one k p f db)

  pub find-update_self :
      (k : String) (p : D → Bool) (f : D → D) (db : Db)
      → find_one k (update_one k p f db) ≡ updated p f (find_one k db)
  find-update_self k p f db = simp (find_one-update_one, str_eq_refl)

  pub find-update_other :
      (k j : String) (p : D → Bool) (f : D → D) (db : Db)
      → str_eq k j ≡ false
      → find_one j (update_one k p f db) ≡ find_one j db
  find-update_other k j p f db h = simp (find_one-update_one, h)

  pub find-upsert_self :
      (k : String) (d : D) (db : Db)
      → find_one k (upsert k d db) ≡ some (found_or d (find_one k db))
  find-upsert_self k d db = simp (find_one-upsert, str_eq_refl)

  pub find-upsert_other :
      (k j : String) (d : D) (db : Db)
      → str_eq k j ≡ false
      → find_one j (upsert k d db) ≡ find_one j db
  find-upsert_other k j d db h = simp (find_one-upsert, h)

-- An association list shows that the laws can be met; the tests run on it.
module _ {D : Type 0} where
  abbrev pub find_assoc : String → List (String × D) → Option D
  find_assoc k [] = none
  find_assoc k ((j, d) ∷ r) = if str_eq j k then some d else find_assoc k r

  abbrev pub update_assoc : String → (D → Bool) → (D → D) → List (String × D) → List (String × D)
  update_assoc k p f [] = []
  update_assoc k p f ((j, d) ∷ r) =
      if str_eq j k then (j, if p d then f d else d) ∷ r else (j, d) ∷ update_assoc k p f r

  abbrev pub upsert_assoc : String → D → List (String × D) → List (String × D)
  upsert_assoc k d [] = (k, d) ∷ []
  upsert_assoc k d ((j, e) ∷ r) = if str_eq j k then (j, e) ∷ r else (j, e) ∷ upsert_assoc k d r

  pub find-update_assoc :
      (k j : String) (p : D → Bool) (f : D → D) (db : List (String × D))
      → find_assoc j (update_assoc k p f db)
        ≡ (if str_eq k j then updated p f (find_assoc j db) else find_assoc j db)
  find-update_assoc k j p f [] = ground arith
  find-update_assoc k j p f ((i, d) ∷ r) =
      ground (arith, str_eq_iff k j, str_eq_iff i k, str_eq_iff i j, find-update_assoc k j p f r)

  pub find-upsert_assoc :
      (k j : String) (d : D) (db : List (String × D))
      → find_assoc j (upsert_assoc k d db)
        ≡ (if str_eq k j then some (found_or d (find_assoc j db)) else find_assoc j db)
  find-upsert_assoc k j d [] = refl
  find-upsert_assoc k j d ((i, e) ∷ r) =
      ground (arith, str_eq_iff k j, str_eq_iff i k, str_eq_iff i j, find-upsert_assoc k j d r)

  abbrev pub assoc : Collection D
  assoc = record {
    Db = List (String × D);
    find_one = find_assoc;
    update_one = update_assoc;
    upsert = upsert_assoc;
    find_one-update_one = find-update_assoc;
    find_one-upsert = find-upsert_assoc;
  }
