-- ===== src/Circuit/Store.antt =====
-- The store of the circuit breaker (src/provider-health/circuit-breaker-store.service.ts): Redis
-- behind a cache of one second in the process. Redis holds texts, the cache holds values. `up now` says whether Redis answers at that time: every fault is caught.
use model_hub.Common.{
  ℕ, ◌+◌, String, Option, none, some, Bool, true, false, str_eq, ltb, if◌then◌else◌,
}
use model_hub.Common.Expiring.{Expiring}
use model_hub.Circuit.Types.{CircuitState, CircuitBreakerState}
use model_hub.Circuit.Text.{StoredText, state_text, serialize, deserialize, matched_state}

pub record CacheEntry : Type 0 where
  pub state : CircuitBreakerState
  pub cached_at : ℕ

abbrev pub Cache : Type 0
Cache = String → Option CacheEntry

abbrev pub cache_ttl_ms : ℕ
cache_ttl_ms = 1000

-- `cache.set` and `cache.delete`.
abbrev pub cache_set : String → Option CacheEntry → Cache → Cache
cache_set k e cache j = if str_eq k j then e else cache j

-- `Date.now() - cached.cachedAt < this.cacheTtlMs`
abbrev pub is_fresh : ℕ → CacheEntry → Bool
is_fresh now e = ltb now (e.cached_at + cache_ttl_ms)

module _ (r : Expiring StoredText) where
  pub record CircuitStore : Type 0 where
    pub redis : r.Db
    pub cache : Cache

-- `CAS_LUA_SCRIPT`: an absent key counts as CLOSED.
abbrev pub is_text : String → Option String → Bool
is_text t none = false
is_text t (some u) = str_eq u t

unfoldable pub cas_matches : CircuitState → Option StoredText → Bool
cas_matches expected none = str_eq (state_text expected) "CLOSED"
cas_matches expected (some current) = is_text (state_text expected) (matched_state current)

-- The value of a text, if there is one and it is accepted.
abbrev pub parsed : Option StoredText → Option CircuitBreakerState
parsed none = none
parsed (some raw) = deserialize raw

module _ (r : Expiring StoredText) (up : ℕ → Bool) where
  -- The cache after a read from Redis.
  abbrev keep_read :
      String
      → ℕ
      → Option CircuitBreakerState
      → CircuitStore r
      → Option CircuitBreakerState × CircuitStore r
  keep_read provider now none s = (none, record s { cache = cache_set provider none s.cache })
  keep_read provider now (some v) s = (
    some v,
    record s { cache = cache_set provider (some (record { state = v; cached_at = now })) s.cache },
  )

  read_redis : String → ℕ → CircuitStore r → Option CircuitBreakerState × CircuitStore r
  read_redis provider now s = keep_read provider now (parsed (r.get provider now s.redis)) s

  read_through : String → ℕ → CircuitStore r → Option CircuitBreakerState × CircuitStore r
  read_through provider now s = if up now then read_redis provider now s else (none, s)

  unfoldable pub get_state :
      String → ℕ → CircuitStore r → Option CircuitBreakerState × CircuitStore r
  unfolding read_through read_redis
  get_state provider now s = elim (s.cache provider) [
    | none ↦ read_through provider now s
    | some e ↦ if is_fresh now e then (some e.state, s) else read_through provider now s
  ]

  abbrev pub invalidate_cache : String → CircuitStore r → CircuitStore r
  invalidate_cache provider s = record s { cache = cache_set provider none s.cache }

  abbrev write : String → CircuitBreakerState → ℕ → ℕ → CircuitStore r → CircuitStore r
  write provider v ttl now s = record {
    redis = r.set_px provider (serialize v) ttl now s.redis;
    cache = cache_set provider (some (record { state = v; cached_at = now })) s.cache;
  }

  unfoldable pub set_state : String → CircuitBreakerState → ℕ → ℕ → CircuitStore r → CircuitStore r
  set_state provider v ttl now s = if up now then write provider v ttl now s else s

  unfoldable pub compare_and_set_state :
      String → CircuitState → CircuitBreakerState → ℕ → ℕ → CircuitStore r → Bool × CircuitStore r
  compare_and_set_state provider expected v ttl now s =
      if up now
      then (if cas_matches expected (r.get provider now s.redis)
          then (true, write provider v ttl now s)
          else (false, invalidate_cache provider s))
      else (false, s)
