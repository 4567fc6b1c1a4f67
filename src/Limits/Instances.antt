-- ===== src/Limits/Instances.antt =====
-- Stores that meet the laws of `Locks` and `Counters`, as functions from keys to an entry with its
-- deadline; the tests run on them.
use model_hub.Common.{
  ℕ, suc, ◌+◌, ◌*◌, ◌≤◌, String, Bool, true, false, Option, none, some, ◌≡◌, refl, ◌∙◌, ap, str_eq,
  str_eq_refl, ltb, ◌==◌, if◌then◌else◌, arith,
}
use model_hub.Limits.Lock.{Locks}
use model_hub.Limits.Throttle.{Counters}

module _ {V : Type 0} where
  abbrev pub update : String → V → (String → V) → String → V
  update k v db = λ j. if str_eq k j then v else db j

  pub update-same : (k : String) (v : V) (db : String → V) → update k v db k ≡ v
  update-same k v db = rw (str_eq_refl k)

  pub update_elsewhere :
      (k j : String) (v : V) (db : String → V) → str_eq k j ≡ false → update k v db j ≡ db j
  update_elsewhere k j v db h = rw (h)

abbrev pub held : ℕ → Option (String × ℕ) → Option String
held t none = none
held t (some (v, deadline)) = if ltb t deadline then some v else none

abbrev pub set_if :
    Option String
    → String
    → String
    → ℕ
    → (String → Option (String × ℕ))
    → Bool × (String → Option (String × ℕ))
set_if none k v deadline db = (true, update k (some (v, deadline)) db)
set_if (some w) k v deadline db = (false, db)

pub set_if-free :
    (o : Option String) (k v : String) (deadline : ℕ) (db : String → Option (String × ℕ))
    → o ≡ none
    → (set_if o k v deadline db).0 ≡ true
set_if-free none k v deadline db h = refl
set_if-free (some w) k v deadline db h = cc

pub held-set_if :
    (o : Option String) (k v : String) (t deadline : ℕ) (db : String → Option (String × ℕ))
    → o ≡ none
    → held t ((set_if o k v deadline db).1 k) ≡ (if ltb t deadline then some v else none)
held-set_if none k v t deadline db h = ap (held t) (update-same k (some (v, deadline)) db)
held-set_if (some w) k v t deadline db h = cc

pub set_if-held :
    (o : Option String) (k v w : String) (deadline : ℕ) (db : String → Option (String × ℕ))
    → o ≡ some w
    → set_if o k v deadline db ≡ (false, db)
set_if-held none k v w deadline db h = cc
set_if-held (some x) k v w deadline db h = refl

pub set_if_elsewhere :
    (o : Option String) (k j v : String) (t deadline : ℕ) (db : String → Option (String × ℕ))
    → str_eq k j ≡ false
    → held t ((set_if o k v deadline db).1 j) ≡ held t (db j)
set_if_elsewhere none k j v t deadline db h =
    ap (held t) (update_elsewhere k j (some (v, deadline)) db h)
set_if_elsewhere (some w) k j v t deadline db h = refl

abbrev pub lock_table : Locks
lock_table = record {
  Db = String → Option (String × ℕ);
  get = λ k t db. held t (db k);
  set_nx = λ k v ttl now db. set_if (held now (db k)) k v (now + ttl) db;
  del = λ k db. update k none db;
  set_nx_free = λ k v ttl now db h. set_if-free (held now (db k)) k v (now + ttl) db h;
  get-set_nx = λ k v ttl now t db h le. held-set_if (held now (db k)) k v t (now + ttl) db h;
  set_nx_held = λ k v w ttl now db h. set_if-held (held now (db k)) k v w (now + ttl) db h;
  set_nx_elsewhere =
      λ k j v ttl now t db h. set_if_elsewhere (held now (db k)) k j v t (now + ttl) db h;
  get-del = λ k t db. ap (held t) (update-same k none db);
  del_elsewhere = λ k j t db h. ap (held t) (update_elsewhere k j none db h);
}

-- A count, and its deadline.
abbrev pub standing : ℕ → ℕ × Option ℕ → ℕ
standing t (n, none) = n
standing t (n, some deadline) = if ltb t deadline then n else 0

abbrev pub raised : ℕ → ℕ × Option ℕ → ℕ × Option ℕ
raised now e = if standing now e == 0 then (1, none) else (suc (standing now e), e.1)

pub standing-raised :
    (now t : ℕ) (e : ℕ × Option ℕ)
    → now ≤ t
    → standing t (raised now e)
      ≡ (if standing now e == 0 then 1 else if standing t e == 0 then 0 else suc (standing now e))
standing-raised now t (n, none) le = ground arith
standing-raised now t (n, some deadline) le = ground arith

abbrev pub counter_table : Counters
counter_table = record {
  Db = String → ℕ × Option ℕ;
  value = λ k t db. standing t (db k);
  incr = λ k now db. (suc (standing now (db k)), update k (raised now (db k)) db);
  expire = λ k seconds now db. update k (standing now (db k), some (now + seconds * 1000)) db;
  del = λ k db. update k (0, none) db;
  incr-value = λ k now db. refl;
  value-incr = λ k now t db le.
      ap (standing t) (update-same k (raised now (db k)) db) ∙ standing-raised now t (db k) le;
  value-expire = λ k seconds now t db le.
      ap (standing t) (update-same k (standing now (db k), some (now + seconds * 1000)) db);
  value-del = λ k t db. ap (standing t) (update-same k (0, none) db);
  incr_elsewhere =
      λ k j now t db h. ap (standing t) (update_elsewhere k j (raised now (db k)) db h);
  expire_elsewhere = λ k j seconds now t db h.
      ap (standing t)
        (update_elsewhere k j (standing now (db k), some (now + seconds * 1000)) db h);
  del_elsewhere = λ k j t db h. ap (standing t) (update_elsewhere k j (0, none) db h);
}
