-- ===== src/Circuit/Tests.antt =====
-- The circuit breaker at concrete inputs.
use model_hub.Common.{
  ℕ, ◌+◌, ◌<◌, ◌*◌, ◌/◌, ◌%◌, ◌^◌, ltb, leb, ◌||◌, ◌&&◌, not, if◌then◌else◌, none, some, List, [],
  ◌∷◌, ◌++◌, Bool, true, false, ◌≡◌, ◌↔◌, refl, arith,
}
use model_hub.Common.Expiring.{entries}
use model_hub.Circuit.Types.{CircuitState, CircuitBreakerState, CircuitBreakerConfig, HealthMetrics}
use model_hub.Circuit.Store.{get_state, set_state}
use model_hub.Common.Double.{Double, zero_double, percent_exceeds}
use model_hub.Circuit.Text.{serialize, deserialize, matched_state}
use model_hub.Circuit.Store.{cas_matches}
use model_hub.Circuit.{
  trips, Breaker, commit, evaluate, record_result, evaluate_plan, record_plan, default_closed,
  manual_override, overridden, allow_request, allows, to_half_open,
}
use model_hub.Circuit.Machine.{
  Reach, start, next, evaluated, written, IsValid, Reach-IsValid, allows_iff_not_opened,
}
use model_hub.Circuit.Recovery.{record_all, record_all-trips_iff, record_all-recovers}
use model_hub.Circuit.Commit.{
  stored_after, text_of, logged, evaluate-stored, record_result-stored,
  record_result_loses_override, manual_override_expires,
}
use model_hub.Circuit.Store.{compare_and_set_state}
use model_hub.Circuit.ReadBack.{get_state-set_state, compare_and_set_state-once, Try, answers}
use model_hub.Common.{inl}

abbrev config : CircuitBreakerConfig
config = record {
  error_rate_threshold = 50;
  consecutive_failure_threshold = 2;
  cooldown_duration_ms = 30000;
  probe_request_count = 3;
  sliding_window_duration_ms = 300000;
  min_sample_count = 10;
}

-- `a / b` for `a <= b`, where `scale` is such that the quotient has 53 bits.
abbrev quotient : ℕ → ℕ → ℕ → Double
quotient scale a b =
    let q = a * 2 ^ scale / b in
    let rest = a * 2 ^ scale % b in
    record {
      mantissa =
          if ltb b (2 * rest) || (not (ltb (2 * rest) b) && not (leb (q % 2) 0)) then q + 1 else q;
      scale = scale;
    }

abbrev bad : HealthMetrics
bad = record { sample_count = 10; error_rate = quotient 53 8 10 }

-- 11 errors of 20 are more than 55 percent, by the rounding of the product; 1 of 2 is not more than 50.
eleven_of_twenty : percent_exceeds (quotient 53 11 20) 55 ≡ true
unfolding percent_exceeds
eleven_of_twenty = refl

one_of_two : percent_exceeds (quotient 53 1 2) 50 ≡ false
unfolding percent_exceeds
one_of_two = refl

abbrev opened_now : CircuitBreakerState
opened_now = written (evaluate_plan "p" config bad 1000 (default_closed 0)) (default_closed 0)

opened_now-Reach : Reach "p" 3 opened_now
opened_now-Reach = next (start 0) (evaluated config bad 1000 (omega arith))

Reach-IsValid_example : IsValid 3 opened_now
Reach-IsValid_example = Reach-IsValid "p" 3 (omega arith) opened_now-Reach

allows_iff_not_opened_example :
    (allows config opened_now.state opened_now ≡ false) ↔ (opened_now.state ≡ CircuitState.opened)
allows_iff_not_opened_example =
    allows_iff_not_opened "p" 3 (omega arith) config (omega arith) opened_now-Reach

abbrev failures : List (Bool × ℕ)
failures = (false, 1) ∷ (false, 2) ∷ (false, 3) ∷ []

record_all-trips_iff_example :
    let w = record_all "p" config failures (default_closed 0) in
    let m : HealthMetrics = record { sample_count = 3; error_rate = zero_double } in
    ((written (evaluate_plan "p" config m 9 w) w).state ≡ CircuitState.opened) ↔ (2 < 3)
record_all-trips_iff_example =
    record_all-trips_iff "p" config failures (default_closed 0) 3 9 (refl, (refl, (refl, tt))) refl
      refl

abbrev probing : CircuitBreakerState
probing = to_half_open 1000 31000 (default_closed 0)

record_all-recovers_example :
    let probes : List (Bool × ℕ) = (true, 31001) ∷ (true, 31002) ∷ [] in
    ((record_all "p" config probes probing).state ≡ CircuitState.half_open)
    × (record_all "p" config (probes ++ (true, 31003) ∷ []) probing ≡ default_closed 31003)
record_all-recovers_example =
    record_all-recovers "p" config ((true, 31001) ∷ (true, 31002) ∷ []) 31003 probing
      (refl, (refl, tt)) refl refl refl

abbrev breaker : Breaker entries (λ _. true) (λ _. config)
breaker = record {
  store = record { redis = ("p", serialize (default_closed 0), 90000) ∷ []; cache = λ _. none };
  log = [];
}

evaluate-stored_example :
    let plan = evaluate_plan "p" config bad 5000 (default_closed 0) in
    let s = evaluate entries (λ _. true) (λ _. config) "p" bad 5000 breaker in
    (entries.get "p" 5000 s.store.redis ≡ text_of (stored_after plan (some (default_closed 0))))
    × (s.log ≡ logged plan [])
unfolding get_state serialize deserialize
evaluate-stored_example =
    evaluate-stored entries (λ _. true) (λ _. config) "p" 5000 refl bad (some (default_closed 0))
      breaker (refl, refl)

record_result-stored_example :
    let plan = record_plan "p" config false 5000 (default_closed 0) in
    let s = record_result entries (λ _. true) (λ _. config) "p" false 5000 breaker in
    (entries.get "p" 5000 s.store.redis ≡ text_of (stored_after plan (some (default_closed 0))))
    × (s.log ≡ logged plan [])
unfolding get_state serialize deserialize
record_result-stored_example =
    record_result-stored entries (λ _. true) (λ _. config) "p" 5000 refl false
      (some (default_closed 0)) breaker (refl, refl)

-- The breaker after an administrator has forced a state.
abbrev forced : CircuitState → Breaker entries (λ _. true) (λ _. config)
unfolding manual_override
forced st = elim (manual_override entries (λ _. true) (λ _. config) "p" st "root" 5000 breaker) [
  | none ↦ breaker
  | some s ↦ s
]

record_result_loses_override_example :
    let s'' =
      commit entries
        (λ _. true)
        (λ _. config)
        "p"
        5000
        (record_plan "p" config true 5000 (default_closed 0))
        (forced CircuitState.closed) in
    (w : CircuitBreakerState) × (entries.get "p" 5000 s''.store.redis ≡ some (serialize w))
    × (w.manual_override ≡ none)
unfolding manual_override get_state overridden set_state serialize deserialize
record_result_loses_override_example =
    record_result_loses_override entries (λ _. true) (λ _. config) "p" 5000 refl true "root"
      (default_closed 0) breaker (forced CircuitState.closed) (refl, refl) refl refl refl

manual_override_expires_example :
    (allow_request entries (λ _. true) (λ _. config) "p" 95000 (forced CircuitState.opened)).0
    ≡ true
unfolding manual_override get_state overridden set_state serialize deserialize
manual_override_expires_example =
    manual_override_expires entries (λ _. true) (λ _. config) "p" 5000 refl "root" 95000 breaker
      (forced CircuitState.opened) refl (omega arith) refl

-- A process opens the circuit; it reads its value back, and a second process comes too late.
get_state-set_state_example :
    (get_state entries
      (λ _. true)
      "p"
      9000
      (set_state entries (λ _. true) "p" opened_now 90000 1000 breaker.store)).0
    ≡ some opened_now
get_state-set_state_example =
    get_state-set_state entries (λ _. true) "p" opened_now 90000 1000 9000 refl (omega arith)
      (inl refl) breaker.store

abbrev late : Try
late = record {
  reach = λ _. true;
  value = default_closed 0;
  ttl = 90000;
  at = 1001;
  cache = λ _. none;
}

compare_and_set_state-once_example :
    let s =
      (compare_and_set_state entries
        (λ _. true)
        "p"
        CircuitState.closed
        opened_now
        90000
        1000
        breaker.store).1 in
    answers entries "p" CircuitState.closed (late ∷ late ∷ []) s.redis ≡ false ∷ false ∷ []
unfolding compare_and_set_state evaluate_plan trips percent_exceeds cas_matches matched_state
    serialize
compare_and_set_state-once_example =
    compare_and_set_state-once entries (λ _. true) "p" CircuitState.closed opened_now 90000 1000
      breaker.store refl (late ∷ late ∷ []) refl (omega arith, (omega arith, refl))
