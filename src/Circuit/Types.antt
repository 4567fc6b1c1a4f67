-- ===== src/Circuit/Types.antt =====
-- The data of the provider circuit breaker: provider-health/interfaces/. Times are milliseconds.
-- `OPEN` is spelled `opened`.
use model_hub.Common.Double.{Double}
use model_hub.Common.{String, Option, ℕ, Bool, true, false}

pub data CircuitState : Type 0 where
  closed opened half_open : CircuitState

abbrev pub same_state : CircuitState → CircuitState → Bool
same_state CircuitState.closed CircuitState.closed = true
same_state CircuitState.opened CircuitState.opened = true
same_state CircuitState.half_open CircuitState.half_open = true
same_state _ _ = false

pub record ManualOverride : Type 0 where
  pub state : CircuitState
  pub operator : String
  pub timestamp : ℕ

pub record CircuitBreakerState : Type 0 where
  pub state : CircuitState
  pub opened_at : Option ℕ
  pub last_transition_at : ℕ
  pub consecutive_failures : ℕ
  pub probe_successes : ℕ
  pub manual_override : Option ManualOverride

pub record CircuitBreakerConfig : Type 0 where
  pub error_rate_threshold : ℕ
  pub consecutive_failure_threshold : ℕ
  pub cooldown_duration_ms : ℕ
  pub probe_request_count : ℕ
  pub sliding_window_duration_ms : ℕ
  pub min_sample_count : ℕ

-- The part of `HealthMetrics` that `evaluate` reads.
pub record HealthMetrics : Type 0 where
  pub sample_count : ℕ
  pub error_rate : Double

-- What a transition does besides the write: the gauge, the counter, the cleaning of the window and
-- the events.
pub data Effect : Type 0 where
  set_gauge : String → ℕ → Effect
  inc_transitions : String → CircuitState → CircuitState → Effect
  clean_window : String → Effect
  emit_open : String → HealthMetrics → ℕ → ℕ → Effect
  emit_half_open : String → Effect
  emit_closed : String → ℕ → Effect
