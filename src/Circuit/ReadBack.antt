-- ===== src/Circuit/ReadBack.antt =====
-- What a process reads after its own write
-- (src/provider-health/circuit-breaker-store.service.ts).
use model_hub.Common.{
  ℕ, List, [], ◌∷◌, map, ap, ◌+◌, ◌<◌, String, some, Bool, true, false, ◌≡◌, refl, ◌∙◌, str_eq,
  arith, inl, inr, ◌⊎◌, str_eq_refl, lt→ltb, Bool-cases,
}
use model_hub.Common.Expiring.{Expiring}
use model_hub.Circuit.Types.{CircuitState, CircuitBreakerState, same_state}
use model_hub.Circuit.Text.{
  StoredText, state_text, serialize, deserialize-serialize, matched_state-serialize,
}
use model_hub.Circuit.Store.{
  CircuitStore, get_state, set_state, compare_and_set_state, cas_matches, Cache,
}

str_eq-state_text : (a b : CircuitState) → str_eq (state_text a) (state_text b) ≡ same_state a b
str_eq-state_text CircuitState.closed CircuitState.closed = refl
str_eq-state_text CircuitState.closed CircuitState.opened = refl
str_eq-state_text CircuitState.closed CircuitState.half_open = refl
str_eq-state_text CircuitState.opened CircuitState.closed = refl
str_eq-state_text CircuitState.opened CircuitState.opened = refl
str_eq-state_text CircuitState.opened CircuitState.half_open = refl
str_eq-state_text CircuitState.half_open CircuitState.closed = refl
str_eq-state_text CircuitState.half_open CircuitState.opened = refl
str_eq-state_text CircuitState.half_open CircuitState.half_open = refl

refused :
    (v : CircuitBreakerState) (expected : CircuitState)
    → same_state v.state expected ≡ false
    → cas_matches expected (some (serialize v)) ≡ false
unfolding cas_matches
refused v expected moved =
    rw (matched_state-serialize v) (str_eq-state_text v.state expected ∙ moved)

module _ (r : Expiring StoredText) (up : ℕ → Bool) (p : String) (v : CircuitBreakerState)
    (ttl now later : ℕ) (reachable : up now ≡ true) (alive : later < now + ttl)
    (visible : (up later ≡ true) ⊎ (later < now + 1000)) where
  redis-kept :
      (db : r.Db) → r.get p later (r.set_px p (serialize v) ttl now db) ≡ some (serialize v)
  redis-kept db = rw (r.get-set_px, str_eq_refl, lt→ltb later (now + ttl) alive) refl

  -- A process that has written a value, where Redis could be reached, reads it back from its text in
  -- Redis or from its cache until the entry expires, if nothing is written for the provider in
  -- between, and if Redis can still be reached or less than a second has passed.
  pub get_state-set_state :
      (s : CircuitStore r) → (get_state r up p later (set_state r up p v ttl now s)).0 ≡ some v
  unfolding get_state set_state
  get_state-set_state s =
      ground (arith, reachable, str_eq_refl p, redis-kept s.redis, deserialize-serialize v, visible)

-- A compare-and-set of some process: how it reaches Redis, the value and its time to live, the time
-- and the cache of the process.
pub record Try : Type 0 where
  pub reach : ℕ → Bool
  pub value : CircuitBreakerState
  pub ttl : ℕ
  pub at : ℕ
  pub cache : Cache

abbrev pub AllBefore : ℕ → List Try → Type 0
AllBefore deadline [] = true ≡ true
AllBefore deadline (t ∷ ts) = (t.at < deadline) × AllBefore deadline ts

module _ (r : Expiring StoredText) (p : String) (expected : CircuitState) where
  -- The compare-and-sets of other calls from the same expected state, one after the other: their
  -- answers.
  abbrev pub answers : List (Try) → r.Db → List Bool
  answers [] db = []
  answers (t ∷ ts) db =
      let (ok, after) =
        compare_and_set_state r t.reach p expected t.value t.ttl t.at
          (record { redis = db; cache = t.cache }) in
      ok ∷ answers ts after.redis

module _ (r : Expiring StoredText) (up : ℕ → Bool) (p : String) (expected : CircuitState)
    (v : CircuitBreakerState) (ttl now : ℕ) (s : CircuitStore r)
    (won : (compare_and_set_state r up p expected v ttl now s).0 ≡ true) where
  won-redis :
      (compare_and_set_state r up p expected v ttl now s).1.redis
      ≡ r.set_px p (serialize v) ttl now s.redis
  unfolding compare_and_set_state
  won-redis = elim (Bool-cases (up now)) [
    | inl reachable ↦ elim (Bool-cases (cas_matches expected (r.get p now s.redis))) [
      | inl matches ↦ rw (reachable, matches) refl
      | inr other ↦ cc (rw (reachable, other, compare_and_set_state) at won)
    ]
    | inr down ↦ cc (rw (down, compare_and_set_state) at won)
  ]

  lost_try :
      (t : Try) (db : r.Db)
      → cas_matches expected (r.get p t.at db) ≡ false
      → let (ok, after) =
          compare_and_set_state r t.reach p expected t.value t.ttl t.at
            (record { redis = db; cache = t.cache }) in
        (ok ≡ false) × (after.redis ≡ db)
  unfolding compare_and_set_state
  lost_try t db lost = ground (arith, lost)

  kept_out :
      (ts : List Try)
      → same_state v.state expected ≡ false
      → AllBefore (now + ttl) ts
      → answers r p expected ts (r.set_px p (serialize v) ttl now s.redis) ≡ map (λ _. false) ts
  kept_out [] moved alive = refl
  kept_out (t ∷ ts) moved alive =
      let db : r.Db = r.set_px p (serialize v) ttl now s.redis in
      let held : cas_matches expected (r.get p t.at db) ≡ false =
        rw (r.get-set_px, str_eq_refl, lt→ltb t.at (now + ttl) alive.0)
          (refused v expected moved) in
      let lost = lost_try t db held in
      rw (lost.0, lost.1) (ap (λ bs. false ∷ bs) (kept_out ts moved alive.1))

  -- Of compare-and-sets from one expected state, whatever processes make them, none succeeds after one
  -- that has succeeded with a value in another state, until that value expires, if nothing but these
  -- compare-and-sets writes for the provider in between.
  pub compare_and_set_state-once :
      (ts : List Try)
      → same_state v.state expected ≡ false
      → AllBefore (now + ttl) ts
      → answers r p expected ts (compare_and_set_state r up p expected v ttl now s).1.redis
        ≡ map (λ _. false) ts
  compare_and_set_state-once ts moved alive = rw won-redis (kept_out ts moved alive)
