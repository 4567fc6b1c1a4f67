-- ===== src/Circuit/Config/Tests.antt =====
-- Updates of a configuration, one of which is refused.
use model_hub.Common.{List, [], ◌∷◌, none, some, ◌≡◌}
use model_hub.Circuit.Types.{CircuitBreakerConfig}
use model_hub.Circuit.Config.{other, Partial, num, no_fields, get_config}
use model_hub.Circuit.Config.Range.{as_numbers, InRange, run_updates, get_config-run_updates}

abbrev updates : List Partial
updates =
    record no_fields { cooldown_duration_ms = some (num 60000) }
    ∷ record no_fields { error_rate_threshold = some (num 0); min_sample_count = some other }
    ∷ []

get_config-run_updates_example :
    (c : CircuitBreakerConfig) × (get_config (run_updates updates none) ≡ as_numbers c) × InRange c
get_config-run_updates_example = get_config-run_updates updates
