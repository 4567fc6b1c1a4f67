-- ===== src/Circuit/Config.antt =====
-- The configuration of the circuit breakers
-- (src/provider-health/circuit-breaker-config.service.ts): defaults, validation, and the updates of
-- the stored fields. A number is a whole number or another value of the type (`other`), which
-- `Number.isInteger` refuses. The document of a provider is the value of its `circuit_breaker`.
pub mod Range
mod Tests
use model_hub.Common.{
  ℕ, Option, none, some, List, [], ◌∷◌, ◌++◌, Bool, true, false, ◌&&◌, if◌then◌else◌,
}
use model_hub.Common.Int.{ℤ, pos, leb_ℤ}

pub data Number : Type 0 where
  whole : ℤ → Number
  other : Number

-- The six fields, of one type.
pub record Fields (A : Type 0) : Type 0 where
  pub error_rate_threshold : A
  pub consecutive_failure_threshold : A
  pub cooldown_duration_ms : A
  pub probe_request_count : A
  pub sliding_window_duration_ms : A
  pub min_sample_count : A

-- `Partial<CircuitBreakerConfig>`, and the stored document.
abbrev pub Partial : Type 0
Partial = Fields (Option Number)

abbrev pub num : ℕ → Number
num n = whole (pos n)

unfoldable pub default_config : Fields Number
default_config = record {
  error_rate_threshold = num 50;
  consecutive_failure_threshold = num 5;
  cooldown_duration_ms = num 30000;
  probe_request_count = num 3;
  sliding_window_duration_ms = num 300000;
  min_sample_count = num 10;
}

-- `a ?? b`
abbrev pub or_number : Option Number → Number → Number
or_number none d = d
or_number (some n) d = n

-- `getConfig`: what the read gives, `none` where it fails or finds no `circuit_breaker`.
unfoldable pub get_config : Option Partial → Fields Number
unfolding default_config
get_config none = default_config
get_config (some cb) = record {
  error_rate_threshold = or_number cb.error_rate_threshold default_config.error_rate_threshold;
  consecutive_failure_threshold =
      or_number cb.consecutive_failure_threshold default_config.consecutive_failure_threshold;
  cooldown_duration_ms = or_number cb.cooldown_duration_ms default_config.cooldown_duration_ms;
  probe_request_count = or_number cb.probe_request_count default_config.probe_request_count;
  sliding_window_duration_ms =
      or_number cb.sliding_window_duration_ms default_config.sliding_window_duration_ms;
  min_sample_count = or_number cb.min_sample_count default_config.min_sample_count;
}

-- The messages of `validateConfig`.
pub data ConfigError : Type 0 where
  bad_error_rate_threshold bad_consecutive_failure_threshold bad_cooldown_duration_ms : ConfigError
  bad_probe_request_count bad_sliding_window_duration_ms bad_min_sample_count : ConfigError

-- Whether a field that is given is an integer between two bounds, or at least a bound.
abbrev pub is_between : ℕ → ℕ → Option Number → Bool
is_between lo hi none = true
is_between lo hi (some other) = false
is_between lo hi (some (whole z)) = leb_ℤ (pos lo) z && leb_ℤ z (pos hi)

abbrev pub is_at_least : ℕ → Option Number → Bool
is_at_least lo none = true
is_at_least lo (some other) = false
is_at_least lo (some (whole z)) = leb_ℤ (pos lo) z

abbrev check : Bool → ConfigError → List ConfigError
check b e = if b then [] else e ∷ []

unfoldable pub validate_config : Partial → List ConfigError
validate_config c =
    check (is_between 1 100 c.error_rate_threshold) bad_error_rate_threshold
    ++ (check (is_at_least 1 c.consecutive_failure_threshold) bad_consecutive_failure_threshold
        ++ (check (is_between 5000 300000 c.cooldown_duration_ms) bad_cooldown_duration_ms
            ++ (check (is_at_least 1 c.probe_request_count) bad_probe_request_count
                ++ (check (is_at_least 1 c.sliding_window_duration_ms)
                      bad_sliding_window_duration_ms
                    ++ check (is_at_least 1 c.min_sample_count) bad_min_sample_count))))

-- `$set` of the fields that are given.
abbrev pub set_field : Option Number → Option Number → Option Number
set_field none old = old
set_field (some n) old = some n

abbrev pub no_fields : Partial
no_fields = record {
  error_rate_threshold = none;
  consecutive_failure_threshold = none;
  cooldown_duration_ms = none;
  probe_request_count = none;
  sliding_window_duration_ms = none;
  min_sample_count = none;
}

abbrev pub document : Option Partial → Partial
document none = no_fields
document (some d) = d

pub set_fields : Partial → Partial → Partial
set_fields c d = record {
  error_rate_threshold = set_field c.error_rate_threshold d.error_rate_threshold;
  consecutive_failure_threshold =
      set_field c.consecutive_failure_threshold d.consecutive_failure_threshold;
  cooldown_duration_ms = set_field c.cooldown_duration_ms d.cooldown_duration_ms;
  probe_request_count = set_field c.probe_request_count d.probe_request_count;
  sliding_window_duration_ms = set_field c.sliding_window_duration_ms d.sliding_window_duration_ms;
  min_sample_count = set_field c.min_sample_count d.min_sample_count;
}

-- `updateConfig`: the errors that it throws, or the document after the upsert.
pub data Update : Type 0 where
  rejected : List ConfigError → Update
  stored : Partial → Update

unfoldable pub update_config : Partial → Option Partial → Update
unfolding validate_config set_fields
update_config c d = elim (validate_config c) [
  | [] ↦ stored (set_fields c (document d))
  | e ∷ es ↦ rejected (e ∷ es)
]
