-- ===== src/Limits/SortedSets.antt =====
-- The sorted sets of Redis, with keys that expire, as the rate limiter sees them. Redis is not part of
-- the repository, so `SortedSets` is what the service relies on: the documented effect of each command
-- on the members and scores that a key has at a time. Times are milliseconds and are handed in.
use model_hub.Common.{
  ℕ, ◌+◌, ◌≤◌, String, List, [], ◌∷◌, false, ◌&&◌, Option, none, some, ◌≡◌, refl, ◌∙◌, str_eq, ltb,
  if◌then◌else◌, length, Bool-cases, inl, inr, str_eq_refl,
}
use model_hub.Common.Int.{ℤ, pos, leb_ℤ}
use model_hub.Common.OrderedMap.{contains}

abbrev pub Members : Type 0
Members = List (String × ℕ)

abbrev pub names : Members → List String
names [] = []
names ((m, s) ∷ r) = m ∷ names r

-- Without the scores from `lo` to `hi`, and without a member.
abbrev pub outside : ℤ → ℤ → Members → Members
outside lo hi [] = []
outside lo hi ((m, s) ∷ r) =
    if leb_ℤ lo (pos s) && leb_ℤ (pos s) hi then outside lo hi r else (m, s) ∷ outside lo hi r

abbrev pub without : String → Members → Members
without x [] = []
without x ((m, s) ∷ r) = if str_eq m x then without x r else (m, s) ∷ without x r

pub record SortedSets : Type 1 where
  pub Db : Type 0
  pub members : String → ℕ → Db → Members
  pub zremrangebyscore : String → ℤ → ℤ → ℕ → Db → Db
  pub zadd : String → ℕ → String → ℕ → Db → Db
  pub zcard : String → ℕ → Db → ℕ
  pub pexpire : String → ℕ → ℕ → Db → Db
  pub zrem : String → String → ℕ → Db → Db
  pub members-zremrangebyscore :
      (k : String) (lo hi : ℤ) (now : ℕ) (db : Db)
      → members k now (zremrangebyscore k lo hi now db) ≡ outside lo hi (members k now db)
  pub members-zadd :
      (k : String) (s : ℕ) (m : String) (now : ℕ) (db : Db)
      → contains m (names (members k now db)) ≡ false
      → members k now (zadd k s m now db) ≡ (m, s) ∷ members k now db
  pub zcard-members : (k : String) (now : ℕ) (db : Db) → zcard k now db ≡ length (members k now db)
  pub members-pexpire :
      (k : String) (ms now t : ℕ) (db : Db)
      → now ≤ t
      → members k t (pexpire k ms now db) ≡ (if ltb t (now + ms) then members k now db else [])
  pub members-zrem :
      (k m : String) (now : ℕ) (db : Db)
      → members k now (zrem k m now db) ≡ without m (members k now db)
  pub zremrangebyscore_elsewhere :
      (k j : String) (lo hi : ℤ) (now t : ℕ) (db : Db)
      → str_eq k j ≡ false
      → members j t (zremrangebyscore k lo hi now db) ≡ members j t db
  pub zadd_elsewhere :
      (k j : String) (s : ℕ) (m : String) (now t : ℕ) (db : Db)
      → str_eq k j ≡ false
      → members j t (zadd k s m now db) ≡ members j t db
  pub pexpire_elsewhere :
      (k j : String) (ms now t : ℕ) (db : Db)
      → str_eq k j ≡ false
      → members j t (pexpire k ms now db) ≡ members j t db

-- A function from keys to members with a deadline shows that the laws can be met; the tests run on it.
abbrev Keyed : Type 0
Keyed = String → Members × Option ℕ

abbrev alive : ℕ → Members × Option ℕ → Members
alive t (ms, none) = ms
alive t (ms, some deadline) = if ltb t deadline then ms else []

abbrev update : String → (Members × Option ℕ) → Keyed → Keyed
update k v db = λ j. if str_eq k j then v else db j

abbrev lasting : ℕ → Members × Option ℕ → Option ℕ
lasting t (ms, none) = none
lasting t (ms, some deadline) = if ltb t deadline then some deadline else none

abbrev change : (Members → Members) → ℕ → Members × Option ℕ → Members × Option ℕ
change f t e = (f (alive t e), lasting t e)

abbrev put : String → ℕ → Members → Members
put m s ms = (m, s) ∷ (if contains m (names ms) then without m ms else ms)

alive-change :
    (f : Members → Members) (t : ℕ) (e : Members × Option ℕ)
    → alive t (change f t e) ≡ f (alive t e)
alive-change f t (ms, none) = refl
alive-change f t (ms, some deadline) = elim (Bool-cases (ltb t deadline)) [
  | inl later ↦ rw (later) (rw (later) refl)
  | inr over ↦ rw (over) refl
]

pub alive-update :
    (k : String) (t : ℕ) (v : Members × Option ℕ) (db : Keyed)
    → alive t (update k v db k) ≡ alive t v
alive-update k t v db = rw (str_eq_refl k)

pub alive_elsewhere :
    (k j : String) (t : ℕ) (v : Members × Option ℕ) (db : Keyed)
    → str_eq k j ≡ false
    → alive t (update k v db j) ≡ alive t (db j)
alive_elsewhere k j t v db h = rw (h)

pub change-at :
    (k : String) (f : Members → Members) (t : ℕ) (db : Keyed)
    → alive t (update k (change f t (db k)) db k) ≡ f (alive t (db k))
change-at k f t db = alive-update k t (change f t (db k)) db ∙ alive-change f t (db k)

pub put_fresh :
    (m : String) (s : ℕ) (ms : Members) → contains m (names ms) ≡ false → put m s ms ≡ (m, s) ∷ ms
put_fresh m s ms h = rw (h)

abbrev pub keyed : SortedSets
keyed = record {
  Db = Keyed;
  members = λ k t db. alive t (db k);
  zremrangebyscore = λ k lo hi now db. update k (change (outside lo hi) now (db k)) db;
  zadd = λ k s m now db. update k (change (put m s) now (db k)) db;
  zcard = λ k now db. length (alive now (db k));
  pexpire = λ k ms now db. update k (alive now (db k), some (now + ms)) db;
  zrem = λ k m now db. update k (change (without m) now (db k)) db;
  members-zremrangebyscore = λ k lo hi now db. change-at k (outside lo hi) now db;
  members-zadd =
      λ k s m now db h. change-at k (put m s) now db ∙ put_fresh m s (alive now (db k)) h;
  zcard-members = λ k now db. refl;
  members-pexpire = λ k ms now t db h. alive-update k t (alive now (db k), some (now + ms)) db;
  members-zrem = λ k m now db. change-at k (without m) now db;
  zremrangebyscore_elsewhere =
      λ k j lo hi now t db h. alive_elsewhere k j t (change (outside lo hi) now (db k)) db h;
  zadd_elsewhere = λ k j s m now t db h. alive_elsewhere k j t (change (put m s) now (db k)) db h;
  pexpire_elsewhere =
      λ k j ms now t db h. alive_elsewhere k j t (alive now (db k), some (now + ms)) db h;
}
