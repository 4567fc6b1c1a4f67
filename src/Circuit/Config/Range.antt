-- ===== src/Circuit/Config/Range.antt =====
-- Whatever updates are tried, the configuration that is read stays in its ranges.
use model_hub.Common.{ℕ, ◌≤◌, Option, none, some, List, [], ◌∷◌, Bool, true, ◌≡◌, refl, arith}
use model_hub.Common.Int.{pos, negsuc}
use model_hub.Circuit.Types.{CircuitBreakerConfig}
use model_hub.Circuit.Config.{
  Number, whole, other, ConfigError, Fields, Partial, num, or_number, get_config, default_config,
  is_between, is_at_least, validate_config, set_field, set_fields, no_fields, document, Update,
  rejected, stored, update_config,
}

-- The configuration of a breaker, read as numbers.
abbrev pub as_numbers : CircuitBreakerConfig → Fields Number
as_numbers c = record {
  error_rate_threshold = num c.error_rate_threshold;
  consecutive_failure_threshold = num c.consecutive_failure_threshold;
  cooldown_duration_ms = num c.cooldown_duration_ms;
  probe_request_count = num c.probe_request_count;
  sliding_window_duration_ms = num c.sliding_window_duration_ms;
  min_sample_count = num c.min_sample_count;
}

pub record InRange (c : CircuitBreakerConfig) : Type 0 where
  pub rate_low : 1 ≤ c.error_rate_threshold
  pub rate_high : c.error_rate_threshold ≤ 100
  pub failures : 1 ≤ c.consecutive_failure_threshold
  pub cooldown_low : 5000 ≤ c.cooldown_duration_ms
  pub cooldown_high : c.cooldown_duration_ms ≤ 300000
  pub probes : 1 ≤ c.probe_request_count
  pub window : 1 ≤ c.sliding_window_duration_ms
  pub samples : 1 ≤ c.min_sample_count

-- Every field of a document that is given passes the validation.
record IsChecked (d : Partial) : Type 0 where
  rate : is_between 1 100 d.error_rate_threshold ≡ true
  failures : is_at_least 1 d.consecutive_failure_threshold ≡ true
  cooldown : is_between 5000 300000 d.cooldown_duration_ms ≡ true
  probes : is_at_least 1 d.probe_request_count ≡ true
  window : is_at_least 1 d.sliding_window_duration_ms ≡ true
  samples : is_at_least 1 d.min_sample_count ≡ true

validate-IsChecked : (c : Partial) → validate_config c ≡ [] → IsChecked c
unfolding validate_config
validate-IsChecked c h = ground arith

no_fields-IsChecked : IsChecked no_fields
no_fields-IsChecked = record {
  rate = refl;
  failures = refl;
  cooldown = refl;
  probes = refl;
  window = refl;
  samples = refl;
}

-- A field that is set keeps a test that both values pass.
set_field-keeps :
    (test : Option Number → Bool) (n d : Option Number)
    → test n ≡ true
    → test d ≡ true
    → test (set_field n d) ≡ true
set_field-keeps test none d hn hd = hd
set_field-keeps test (some n) d hn hd = hn

set_fields-IsChecked : (c d : Partial) → IsChecked c → IsChecked d → IsChecked (set_fields c d)
unfolding set_fields
set_fields-IsChecked c d hc hd = record {
  rate =
      set_field-keeps (is_between 1 100) c.error_rate_threshold d.error_rate_threshold hc.rate
        hd.rate;
  failures =
      set_field-keeps (is_at_least 1) c.consecutive_failure_threshold
        d.consecutive_failure_threshold hc.failures hd.failures;
  cooldown =
      set_field-keeps (is_between 5000 300000) c.cooldown_duration_ms d.cooldown_duration_ms
        hc.cooldown hd.cooldown;
  probes =
      set_field-keeps (is_at_least 1) c.probe_request_count d.probe_request_count hc.probes
        hd.probes;
  window =
      set_field-keeps (is_at_least 1) c.sliding_window_duration_ms d.sliding_window_duration_ms
        hc.window hd.window;
  samples =
      set_field-keeps (is_at_least 1) c.min_sample_count d.min_sample_count hc.samples hd.samples;
}

-- One update after another; what is refused leaves the document.
pub after_update : Option Partial → Update → Option Partial
after_update d (rejected es) = d
after_update d (stored new) = some new

pub run_updates : List Partial → Option Partial → Option Partial
unfolding update_config after_update
run_updates [] d = d
run_updates (c ∷ cs) d = run_updates cs (after_update d (update_config c d))

-- With the errors that the validation gives put for `v`.
document-switch :
    (c : Partial) (d : Option Partial) (v : List ConfigError)
    → validate_config c ≡ v
    → IsChecked (document d)
    → IsChecked (
        document (
          after_update d
            (elim v [ [] ↦ stored (set_fields c (document d)) | x ∷ xs ↦ rejected (x ∷ xs) ])))
unfolding after_update
document-switch c d [] e h = set_fields-IsChecked c (document d) (validate-IsChecked c e) h
document-switch c d (x ∷ xs) e h = h

document-after_update :
    (c : Partial) (d : Option Partial)
    → IsChecked (document d)
    → IsChecked (document (after_update d (update_config c d)))
unfolding update_config
document-after_update c d h = document-switch c d (validate_config c) refl h

run_updates-IsChecked :
    (cs : List Partial) (d : Option Partial)
    → IsChecked (document d)
    → IsChecked (document (run_updates cs d))
unfolding run_updates
run_updates-IsChecked [] d h = h
run_updates-IsChecked (c ∷ cs) d h =
    run_updates-IsChecked cs (after_update d (update_config c d)) (document-after_update c d h)

-- The natural number that a field is read as, where it passes its test.
nat_or : Option Number → ℕ → ℕ
nat_or (some (whole (pos m))) k = m
nat_or (some (whole (negsuc m))) k = k
nat_or (some other) k = k
nat_or none k = k

between_num :
    (lo hi k : ℕ) (n : Option Number)
    → is_between lo hi n ≡ true
    → lo ≤ k
    → k ≤ hi
    → (or_number n (num k) ≡ num (nat_or n k)) × (lo ≤ nat_or n k) × (nat_or n k ≤ hi)
unfolding nat_or
between_num lo hi k n h low high = ground arith

at_least_num :
    (lo k : ℕ) (n : Option Number)
    → is_at_least lo n ≡ true
    → lo ≤ k
    → (or_number n (num k) ≡ num (nat_or n k)) × (lo ≤ nat_or n k)
unfolding nat_or
at_least_num lo k n h low = ground arith

config_of : Partial → CircuitBreakerConfig
config_of d = record {
  error_rate_threshold = nat_or d.error_rate_threshold 50;
  consecutive_failure_threshold = nat_or d.consecutive_failure_threshold 5;
  cooldown_duration_ms = nat_or d.cooldown_duration_ms 30000;
  probe_request_count = nat_or d.probe_request_count 3;
  sliding_window_duration_ms = nat_or d.sliding_window_duration_ms 300000;
  min_sample_count = nat_or d.min_sample_count 10;
}

get_config_num :
    (d : Partial)
    → IsChecked d
    → (get_config (some d) ≡ as_numbers (config_of d)) × InRange (config_of d)
unfolding get_config default_config config_of
get_config_num d h =
    let (rate, rate_low, rate_high) =
      between_num 1 100 50 d.error_rate_threshold h.rate (omega arith) (omega arith) in
    let (failures, failures_low) =
      at_least_num 1 5 d.consecutive_failure_threshold h.failures (omega arith) in
    let (cooldown, cooldown_low, cooldown_high) =
      between_num 5000 300000 30000 d.cooldown_duration_ms h.cooldown (omega arith) (omega arith) in
    let (probes, probes_low) = at_least_num 1 3 d.probe_request_count h.probes (omega arith) in
    let (window, window_low) =
      at_least_num 1 300000 d.sliding_window_duration_ms h.window (omega arith) in
    let (samples, samples_low) = at_least_num 1 10 d.min_sample_count h.samples (omega arith) in
    (
      rw (rate, failures, cooldown, probes, window, samples),
      record {
        rate_low = rate_low;
        rate_high = rate_high;
        failures = failures_low;
        cooldown_low = cooldown_low;
        cooldown_high = cooldown_high;
        probes = probes_low;
        window = window_low;
        samples = samples_low;
      },
    )

get_config_read :
    (d : Option Partial)
    → IsChecked (document d)
    → (get_config d ≡ as_numbers (config_of (document d))) × InRange (config_of (document d))
unfolding get_config
get_config_read none h = get_config_num no_fields h
get_config_read (some d) h = get_config_num d h

-- Whatever updates are tried on a provider with no stored configuration, the configuration that is
-- read after them has natural numbers in all fields, each in the range that its message states.
pub get_config-run_updates :
    (cs : List Partial)
    → (c : CircuitBreakerConfig) × (get_config (run_updates cs none) ≡ as_numbers c) × InRange c
get_config-run_updates cs =
    let (eq, range) =
      get_config_read (run_updates cs none) (run_updates-IsChecked cs none no_fields-IsChecked) in
    (config_of (document (run_updates cs none)), eq, range)
