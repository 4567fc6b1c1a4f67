-- ===== src/Circuit/Recovery.antt =====
-- How a provider is cut off and comes back: counting failures, tripping, cooling down, probing.
use model_hub.Common.{
  ℕ, ◌+◌, ◌≤◌, ◌<◌, String, none, List, [], ◌∷◌, ◌++◌, Bool, true, false, ◌≡◌, ◌↔◌, ◌∙◌, refl, ltb,
  arith, length,
}
use model_hub.Circuit.Types.{CircuitState, CircuitBreakerState, CircuitBreakerConfig, HealthMetrics}
use model_hub.Common.Double.{zero_double, percent_exceeds}
use model_hub.Circuit.{trips, default_closed, evaluate_plan, record_plan}
use model_hub.Circuit.Machine.{written}

-- Every result in the list is this one.
abbrev pub AllAre : Bool → List (Bool × ℕ) → Type 0
AllAre b [] = Unit
AllAre b ((success, now) ∷ rest) = (success ≡ b) × AllAre b rest

module _ (provider : String) (cfg : CircuitBreakerConfig) where
  -- Results of calls, each with its time, recorded one after the other.
  unfoldable pub record_all : List (Bool × ℕ) → CircuitBreakerState → CircuitBreakerState
  record_all [] v = v
  record_all ((success, now) ∷ rest) v =
      record_all rest (written (record_plan provider cfg success now v) v)

  -- Where the metrics show no errors, only the failures in a row count.
  trips_without_errors :
      (samples : ℕ) (v : CircuitBreakerState)
      → trips cfg (record { sample_count = samples; error_rate = zero_double }) v
        ≡ ltb cfg.consecutive_failure_threshold v.consecutive_failures
  unfolding trips percent_exceeds
  trips_without_errors samples v = ground arith

  evaluate_plan-trips :
      (m : HealthMetrics) (now : ℕ) (v : CircuitBreakerState)
      → v.state ≡ CircuitState.closed
      → v.manual_override ≡ none
      → ((written (evaluate_plan provider cfg m now v) v).state ≡ CircuitState.opened)
        ↔ (trips cfg m v ≡ true)
  unfolding evaluate_plan
  evaluate_plan-trips m now v st mo = ground arith

  failure_in_closed :
      (now : ℕ) (v : CircuitBreakerState)
      → v.state ≡ CircuitState.closed
      → let w = written (record_plan provider cfg false now v) v in
        (w.state ≡ CircuitState.closed)
        × (w.manual_override ≡ v.manual_override)
        × (w.consecutive_failures ≡ v.consecutive_failures + 1)
  unfolding record_plan
  failure_in_closed now v st = ground arith

  failures_in_closed :
      (results : List (Bool × ℕ)) (v : CircuitBreakerState)
      → AllAre false results
      → v.state ≡ CircuitState.closed
      → let w = record_all results v in
        (w.state ≡ CircuitState.closed)
        × (w.manual_override ≡ v.manual_override)
        × (w.consecutive_failures ≡ v.consecutive_failures + length results)
  unfolding record_all
  failures_in_closed [] v a st = (st, refl, omega arith)
  failures_in_closed ((false, now) ∷ rest) v (_, a) st =
      let w : CircuitBreakerState = written (record_plan provider cfg false now v) v in
      let (closed, same, one) = failure_in_closed now v st in
      let (closed', same', more) = failures_in_closed rest w a closed in
      (closed', same' ∙ same, omega arith)
  failures_in_closed ((true, now) ∷ rest) v (e, a) st = cc

  -- After failures only, recorded from a CLOSED value without an override, the next evaluation, on
  -- metrics that show no errors, leads to OPEN exactly if the failures that were counted before
  -- and the recorded ones together exceed the threshold.
  pub record_all-trips_iff :
      (results : List (Bool × ℕ)) (v : CircuitBreakerState) (samples now : ℕ)
      → AllAre false results
      → v.state ≡ CircuitState.closed
      → v.manual_override ≡ none
      → let w = record_all results v in
        let m : HealthMetrics = record { sample_count = samples; error_rate = zero_double } in
        ((written (evaluate_plan provider cfg m now w) w).state ≡ CircuitState.opened)
        ↔ (cfg.consecutive_failure_threshold < v.consecutive_failures + length results)
  record_all-trips_iff results v samples now a st mo =
      let m : HealthMetrics = record { sample_count = samples; error_rate = zero_double } in
      let w : CircuitBreakerState = record_all results v in
      let (closed, same, count) = failures_in_closed results v a st in
      let iff = evaluate_plan-trips m now w closed (same ∙ mo) in
      let only_failures = trips_without_errors samples w in
      (λ e. grind (arith, iff.0 e, only_failures), λ h. iff.1 (grind (arith, only_failures)))

  probe_in_half_open :
      (now : ℕ) (v : CircuitBreakerState)
      → v.state ≡ CircuitState.half_open
      → let w = written (record_plan provider cfg true now v) v in
        (v.probe_successes + 1 < cfg.probe_request_count
          → (w.state ≡ CircuitState.half_open) × (w.probe_successes ≡ v.probe_successes + 1))
        × (cfg.probe_request_count ≤ v.probe_successes + 1 → w ≡ default_closed now)
  unfolding record_plan
  probe_in_half_open now v st = (λ h. ground arith, λ h. ground arith)

  -- A HALF_OPEN circuit that gets only successes stays HALF_OPEN and counts them, until one short of
  -- the configured number of probes.
  probes_short :
      (results : List (Bool × ℕ)) (v : CircuitBreakerState)
      → AllAre true results
      → v.state ≡ CircuitState.half_open
      → v.probe_successes + length results < cfg.probe_request_count
      → let w = record_all results v in
        (w.state ≡ CircuitState.half_open)
        × (w.probe_successes ≡ v.probe_successes + length results)
  unfolding record_all
  probes_short [] v a st h = (st, omega arith)
  probes_short ((true, now) ∷ rest) v (_, a) st h =
      let w : CircuitBreakerState = written (record_plan provider cfg true now v) v in
      let (half, one) = (probe_in_half_open now v st).0 (omega arith) in
      let (half', more) = probes_short rest w a half (omega arith) in (half', omega arith)
  probes_short ((false, now) ∷ rest) v (e, a) st h = cc

  record_all-append :
      (xs ys : List (Bool × ℕ)) (v : CircuitBreakerState)
      → record_all (xs ++ ys) v ≡ record_all ys (record_all xs v)
  unfolding record_all
  record_all-append [] ys v = refl
  record_all-append ((b, now) ∷ xs) ys v =
      record_all-append xs ys (written (record_plan provider cfg b now v) v)

  -- From HALF_OPEN with no probes counted, successes of which there are one fewer than the
  -- configured number of probes leave the state HALF_OPEN, and one more success gives the default
  -- CLOSED value at its time.
  pub record_all-recovers :
      (results : List (Bool × ℕ)) (last : ℕ) (v : CircuitBreakerState)
      → AllAre true results
      → v.state ≡ CircuitState.half_open
      → v.probe_successes ≡ 0
      → length results + 1 ≡ cfg.probe_request_count
      → ((record_all results v).state ≡ CircuitState.half_open)
        × (record_all (results ++ (true, last) ∷ []) v ≡ default_closed last)
  unfolding record_all
  record_all-recovers results last v a st zero_probes n =
      let (half, count) = probes_short results v a st (omega arith) in
      (
        half,
        record_all-append results ((true, last) ∷ []) v
            ∙ (probe_in_half_open last (record_all results v) half).1 (omega arith),
      )
