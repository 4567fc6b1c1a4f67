-- ===== src/Common/Expiring.antt =====
-- A store of values with a time to live, as the services see Redis: `GET`, and `SET … PX ttl`.
-- Redis is not part of the repository, so `Expiring` is what the services rely on. Times are
-- milliseconds and are handed in: a value written at `now` is there until `now + ttl`.
use model_hub.Common.{
  ℕ, ◌+◌, String, List, [], ◌∷◌, Option, none, some, ◌≡◌, refl, str_eq, ltb, if◌then◌else◌,
}

pub record Expiring (V : Type 0) : Type 1 where
  pub Db : Type 0
  pub get : String → ℕ → Db → Option V
  pub set_px : String → V → ℕ → ℕ → Db → Db
  pub get-set_px :
      (k j : String) (v : V) (ttl now t : ℕ) (db : Db)
      → get j t (set_px k v ttl now db)
        ≡ (if str_eq k j then (if ltb t (now + ttl) then some v else none) else get j t db)

-- A list of entries with their deadlines shows that the law can be met; the tests run on it.
module _ {V : Type 0} where
  abbrev pub get_entry : String → ℕ → List (String × V × ℕ) → Option V
  get_entry k t [] = none
  get_entry k t ((j, v, deadline) ∷ r) =
      if str_eq j k then (if ltb t deadline then some v else none) else get_entry k t r

  pub get-set_entry :
      (k j : String) (v : V) (ttl now t : ℕ) (db : List (String × V × ℕ))
      → get_entry j t ((k, v, now + ttl) ∷ db)
        ≡ (if str_eq k j then (if ltb t (now + ttl) then some v else none) else get_entry j t db)
  get-set_entry k j v ttl now t db = refl

  abbrev pub entries : Expiring V
  entries = record {
    Db = List (String × V × ℕ);
    get = get_entry;
    set_px = λ k v ttl now db. (k, v, now + ttl) ∷ db;
    get-set_px = get-set_entry;
  }
