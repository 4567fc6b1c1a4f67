-- ===== src/Circuit/Machine.antt =====
-- The circuit breaker as a state machine: the value that an uncontended call leaves, the states that
-- sequences of calls can reach, and what holds in all of them.
use model_hub.Common.{
  ℕ, ◌≤◌, ◌<◌, String, Option, none, some, Bool, false, ◌≡◌, ◌≢◌, ◌↔◌, refl, arith,
}
use model_hub.Circuit.Types.{
  CircuitState, ManualOverride, CircuitBreakerState, CircuitBreakerConfig, HealthMetrics,
}
use model_hub.Circuit.{
  Plan, keep, cas, default_closed, evaluate_plan, record_plan, overridden, allows,
}

-- The value after a plan that nothing comes between.
abbrev pub written : Plan → CircuitBreakerState → CircuitBreakerState
written keep v = v
written (cas expected w effects) v = w

abbrev pub written_or : Option CircuitBreakerState → CircuitBreakerState → CircuitBreakerState
written_or none v = v
written_or (some w) v = w

-- One call, each whole: a read, a decision and the write. Each call finds a configuration of its own,
-- with `limit` probes at most; `updateConfig` may come between two calls.
pub data Change (provider : String) (limit : ℕ)
    : CircuitBreakerState → CircuitBreakerState → Type 0 where
  evaluated :
      {v : CircuitBreakerState} (cfg : CircuitBreakerConfig) (m : HealthMetrics) (now : ℕ)
      → cfg.probe_request_count ≤ limit
      → Change provider limit v (written (evaluate_plan provider cfg m now v) v)
  recorded :
      {v : CircuitBreakerState} (cfg : CircuitBreakerConfig) (success : Bool) (now : ℕ)
      → cfg.probe_request_count ≤ limit
      → Change provider limit v (written (record_plan provider cfg success now v) v)
  set_override :
      {v : CircuitBreakerState} (target : CircuitState) (operator : String) (now : ℕ)
      → Change provider limit v (written_or (overridden target operator now v) v)
  cleared :
      {v : CircuitBreakerState} → Change provider limit v (record v { manual_override = none })
  expired : {v : CircuitBreakerState} (now : ℕ) → Change provider limit v (default_closed now)

pub data Reach (provider : String) (limit : ℕ) : CircuitBreakerState → Type 0 where
  start : (now : ℕ) → Reach provider limit (default_closed now)
  next :
      {v w : CircuitBreakerState}
      → Reach provider limit v
      → Change provider limit v w
      → Reach provider limit w

abbrev pub AgreesWith : CircuitState → Option ManualOverride → Type 0
AgreesWith st none = Unit
AgreesWith st (some o) = o.state ≡ st

-- What holds of a value by its state.
abbrev pub IsValidAt : ℕ → CircuitState → CircuitBreakerState → Type 0
IsValidAt limit CircuitState.closed v =
    (v.opened_at ≡ none)
    × (v.probe_successes ≡ 0)
    × AgreesWith CircuitState.closed v.manual_override
IsValidAt limit CircuitState.opened v =
    (v.opened_at ≢ none)
    × (v.probe_successes ≡ 0)
    × AgreesWith CircuitState.opened v.manual_override
IsValidAt limit CircuitState.half_open v =
    (v.opened_at ≢ none) × (v.probe_successes < limit) × (v.manual_override ≡ none)

abbrev pub IsValid : ℕ → CircuitBreakerState → Type 0
IsValid limit v = IsValidAt limit v.state v

module _ (provider : String) (limit : ℕ) (probes : 1 ≤ limit) where
  evaluated-IsValid :
      (cfg : CircuitBreakerConfig) (m : HealthMetrics) (now : ℕ) (v : CircuitBreakerState)
      → IsValid limit v
      → IsValid limit (written (evaluate_plan provider cfg m now v) v)
  unfolding evaluate_plan
  evaluated-IsValid cfg m now v h = ground arith

  recorded-IsValid :
      (cfg : CircuitBreakerConfig) (success : Bool) (now : ℕ) (v : CircuitBreakerState)
      → cfg.probe_request_count ≤ limit
      → IsValid limit v
      → IsValid limit (written (record_plan provider cfg success now v) v)
  unfolding record_plan
  recorded-IsValid cfg success now v few h = ground arith

  overridden-IsValid :
      (target : CircuitState) (operator : String) (now : ℕ) (v : CircuitBreakerState)
      → IsValid limit v
      → IsValid limit (written_or (overridden target operator now v) v)
  unfolding overridden
  overridden-IsValid CircuitState.closed operator now v h = (refl, refl, refl)
  overridden-IsValid CircuitState.opened operator now v h = ground arith
  overridden-IsValid CircuitState.half_open operator now v h = h

  cleared-IsValid :
      (v : CircuitBreakerState)
      → IsValid limit v
      → IsValid limit (record v { manual_override = none })
  cleared-IsValid v h = ground arith

  Change-IsValid :
      {v w : CircuitBreakerState} → Change provider limit v w → IsValid limit v → IsValid limit w
  Change-IsValid {v} (evaluated cfg m now few) h = evaluated-IsValid cfg m now v h
  Change-IsValid {v} (recorded cfg success now few) h = recorded-IsValid cfg success now v few h
  Change-IsValid {v} (set_override target operator now) h =
      overridden-IsValid target operator now v h
  Change-IsValid {v} cleared h = cleared-IsValid v h
  Change-IsValid (expired now) h = (refl, refl, tt)

  -- In every state that calls reach which do not overlap, with updates of the configuration between
  -- them, where no call finds more than `limit` probes configured, and `limit` is at least one: only
  -- OPEN and HALF_OPEN have an opening time; an override agrees with the state and is never on
  -- HALF_OPEN; and only HALF_OPEN counts probes, fewer than `limit`.
  pub Reach-IsValid : {v : CircuitBreakerState} → Reach provider limit v → IsValid limit v
  Reach-IsValid (start now) = (refl, refl, tt)
  Reach-IsValid (next r c) = Change-IsValid c (Reach-IsValid r)

  -- In every state that calls reach which do not overlap, as long as no call has found more probes
  -- configured than there are now, and there is at least one, the decision of `allowRequest` is a
  -- refusal exactly if the state is OPEN; so HALF_OPEN lets every request through.
  pub allows_iff_not_opened :
      (cfg : CircuitBreakerConfig) {v : CircuitBreakerState}
      → limit ≤ cfg.probe_request_count
      → Reach provider limit v
      → (allows cfg v.state v ≡ false) ↔ (v.state ≡ CircuitState.opened)
  allows_iff_not_opened cfg {v} enough r = go v (Reach-IsValid r)
    where
      go :
          (v : CircuitBreakerState)
          → IsValid limit v
          → (allows cfg v.state v ≡ false) ↔ (v.state ≡ CircuitState.opened)
      go v h = ground arith
