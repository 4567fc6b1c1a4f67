-- ===== src/Circuit.antt =====
-- The circuit breaker of a provider (src/provider-health/circuit-breaker.service.ts), for calls
-- that read, decide and write. What a call decides from the value that it has read is a `Plan`; a
-- compare-and-set carries it out. `now` is the clock of the call.
pub mod Types
pub mod Text
pub mod Store
pub mod Machine
pub mod Recovery
pub mod Commit
pub mod ReadBack
pub mod Config
mod Tests
use model_hub.Common.{
  ℕ, ◌+◌, ◌*◌, String, Option, none, some, List, [], ◌∷◌, ◌++◌, Bool, true, false, ◌&&◌, ◌||◌, ltb,
  leb, if◌then◌else◌,
}
use model_hub.Common.Double.{zero_double, percent_exceeds}
use model_hub.Common.Expiring.{Expiring}
use Types.{
  CircuitState, ManualOverride, CircuitBreakerState, CircuitBreakerConfig, HealthMetrics, Effect,
  set_gauge, inc_transitions, clean_window, emit_open, emit_half_open, emit_closed,
}
use Text.{StoredText}
use Store.{CircuitStore, get_state, set_state, compare_and_set_state}

-- `buildDefaultClosedState`
abbrev pub default_closed : ℕ → CircuitBreakerState
default_closed now = record {
  state = CircuitState.closed;
  opened_at = none;
  last_transition_at = now;
  consecutive_failures = 0;
  probe_successes = 0;
  manual_override = none;
}

abbrev pub or_default : ℕ → Option CircuitBreakerState → CircuitBreakerState
or_default now none = default_closed now
or_default now (some v) = v

-- `config.cooldownDurationMs + 60000`
abbrev pub ttl_of : CircuitBreakerConfig → ℕ
ttl_of cfg = cfg.cooldown_duration_ms + 60000

-- What a call does after its read: nothing, or a compare-and-set from an expected state, with the
-- effects of a success.
pub data Plan : Type 0 where
  keep : Plan
  cas : CircuitState → CircuitBreakerState → List Effect → Plan

-- `metrics.errorRate * 100 > config.errorRateThreshold` with enough samples, or too many failures
-- in a row.
unfoldable pub trips : CircuitBreakerConfig → HealthMetrics → CircuitBreakerState → Bool
trips cfg m v =
    (leb cfg.min_sample_count m.sample_count
      && percent_exceeds m.error_rate cfg.error_rate_threshold)
    || ltb cfg.consecutive_failure_threshold v.consecutive_failures

abbrev pub to_open : ℕ → ℕ → CircuitBreakerState
to_open now failures = record {
  state = CircuitState.opened;
  opened_at = some now;
  last_transition_at = now;
  consecutive_failures = failures;
  probe_successes = 0;
  manual_override = none;
}

abbrev pub to_half_open : ℕ → ℕ → CircuitBreakerState → CircuitBreakerState
to_half_open at now v = record {
  state = CircuitState.half_open;
  opened_at = some at;
  last_transition_at = now;
  consecutive_failures = v.consecutive_failures;
  probe_successes = 0;
  manual_override = none;
}

-- `evaluate` from an OPEN state; `elapsed` is `now - openedAt`.
abbrev cool_down : String → CircuitBreakerConfig → ℕ → Option ℕ → CircuitBreakerState → Plan
cool_down provider cfg now none v = keep
cool_down provider cfg now (some at) v =
    if leb (at + cfg.cooldown_duration_ms) now
    then cas CircuitState.opened (to_half_open at now v) (
        set_gauge provider 1
        ∷ inc_transitions provider CircuitState.opened CircuitState.half_open
        ∷ emit_half_open provider
        ∷ [])
    else keep

-- The switch of `evaluate`.
abbrev switch_evaluate :
    CircuitState → String → CircuitBreakerConfig → HealthMetrics → ℕ → CircuitBreakerState → Plan
switch_evaluate CircuitState.closed provider cfg m now v =
    if trips cfg m v
    then cas CircuitState.closed (to_open now v.consecutive_failures) (
        set_gauge provider 2
        ∷ inc_transitions provider CircuitState.closed CircuitState.opened
        ∷ emit_open provider m v.consecutive_failures now
        ∷ [])
    else keep
switch_evaluate CircuitState.opened provider cfg m now v = cool_down provider cfg now v.opened_at v
switch_evaluate CircuitState.half_open provider cfg m now v = keep

unfoldable pub evaluate_plan :
    String → CircuitBreakerConfig → HealthMetrics → ℕ → CircuitBreakerState → Plan
evaluate_plan provider cfg m now v = elim v.manual_override [
  | some _ ↦ keep
  | none ↦ switch_evaluate v.state provider cfg m now v
]

abbrev pub no_errors : HealthMetrics
no_errors = record { sample_count = 0; error_rate = zero_double }

-- A probe that succeeded.
abbrev probe_success : String → CircuitBreakerConfig → ℕ → CircuitBreakerState → Plan
probe_success provider cfg now v =
    if leb cfg.probe_request_count (v.probe_successes + 1)
    then cas CircuitState.half_open (default_closed now) (
        clean_window provider
        ∷ set_gauge provider 0
        ∷ inc_transitions provider CircuitState.half_open CircuitState.closed
        ∷ emit_closed provider now
        ∷ [])
    else cas CircuitState.half_open
        (record v { consecutive_failures = 0; probe_successes = v.probe_successes + 1 }) []

-- A probe that failed.
abbrev probe_failure : String → ℕ → CircuitBreakerState → Plan
probe_failure provider now v =
    cas CircuitState.half_open (to_open now (v.consecutive_failures + 1)) (
      set_gauge provider 2
      ∷ inc_transitions provider CircuitState.half_open CircuitState.opened
      ∷ emit_open provider no_errors (v.consecutive_failures + 1) now
      ∷ [])

-- `consecutiveFailures` after a result.
abbrev pub count_failures : Bool → CircuitBreakerState → ℕ
count_failures true v = 0
count_failures false v = v.consecutive_failures + 1

-- The switch of `recordResult`.
abbrev switch_record :
    CircuitState → String → CircuitBreakerConfig → Bool → ℕ → CircuitBreakerState → Plan
switch_record CircuitState.half_open provider cfg true now v = probe_success provider cfg now v
switch_record CircuitState.half_open provider cfg false now v = probe_failure provider now v
switch_record st provider cfg success now v =
    cas st (record v { consecutive_failures = count_failures success v }) []

unfoldable pub record_plan : String → CircuitBreakerConfig → Bool → ℕ → CircuitBreakerState → Plan
record_plan provider cfg success now v = switch_record v.state provider cfg success now v

-- `manualOverride` of the value that was read; it throws unless the target is OPEN or CLOSED.
unfoldable pub overridden :
    CircuitState → String → ℕ → CircuitBreakerState → Option CircuitBreakerState
overridden CircuitState.half_open operator now v = none
overridden CircuitState.closed operator now v = some (record v {
  state = CircuitState.closed;
  last_transition_at = now;
  opened_at = none;
  consecutive_failures = 0;
  probe_successes = 0;
  manual_override =
      some (record { state = CircuitState.closed; operator = operator; timestamp = now });
})
overridden CircuitState.opened operator now v = some (record v {
  state = CircuitState.opened;
  last_transition_at = now;
  opened_at = some now;
  probe_successes = 0;
  manual_override =
      some (record { state = CircuitState.opened; operator = operator; timestamp = now });
})

-- The switch of `allowRequest`.
abbrev pub allows : CircuitBreakerConfig → CircuitState → CircuitBreakerState → Bool
allows cfg CircuitState.closed v = true
allows cfg CircuitState.opened v = false
allows cfg CircuitState.half_open v = ltb v.probe_successes cfg.probe_request_count

module _ (r : Expiring StoredText) (up : ℕ → Bool) (config : String → CircuitBreakerConfig) where
  pub record Breaker : Type 0 where
    pub store : CircuitStore r
    pub log : List Effect

  -- Carries out a plan.
  unfoldable pub commit : String → ℕ → Plan → Breaker → Breaker
  commit provider now keep s = s
  commit provider now (cas expected v effects) s =
      let (ok, store) =
        compare_and_set_state r up provider expected v (ttl_of (config provider)) now s.store in
      record { store = store; log = if ok then effects ++ s.log else s.log }

  unfoldable pub evaluate : String → HealthMetrics → ℕ → Breaker → Breaker
  evaluate provider m now s =
      let (found, store) = get_state r up provider now s.store in
      commit provider now (evaluate_plan provider (config provider) m now (or_default now found))
        (record s { store = store })

  unfoldable pub record_result : String → Bool → ℕ → Breaker → Breaker
  record_result provider success now s =
      let (found, store) = get_state r up provider now s.store in
      commit provider now
        (record_plan provider (config provider) success now (or_default now found))
        (record s { store = store })

  -- `none` is the error that refuses HALF_OPEN.
  unfoldable pub manual_override : String → CircuitState → String → ℕ → Breaker → Option Breaker
  unfolding overridden
  manual_override provider state operator now s =
      let (found, store) = get_state r up provider now s.store in
      elim (overridden state operator now (or_default now found)) [
        | none ↦ none
        | some v ↦
            some
              (record s { store = set_state r up provider v (ttl_of (config provider)) now store })
      ]

  unfoldable pub clear_override : String → ℕ → Breaker → Breaker
  clear_override provider now s =
      let (found, store) = get_state r up provider now s.store in
      elim found [
        | none ↦ record s { store = store }
        | some v ↦ record s {
          store =
              set_state r up provider (record v { manual_override = none })
                (ttl_of (config provider)) now store;
        }
      ]

  unfoldable pub allow_request : String → ℕ → Breaker → Bool × Breaker
  allow_request provider now s =
      let (found, store) = get_state r up provider now s.store in
      (
        elim found [ none ↦ true | some v ↦ allows (config provider) v.state v ],
        record s { store = store },
      )
