-- ===== src/Circuit/Text.antt =====
-- The text of a circuit breaker's value in Redis: `serialize`, `deserialize`, and what the pattern
-- of the compare-and-set script finds in a text (src/provider-health/circuit-breaker-store.service.ts).
-- A JSON text is given by what `JSON.parse` makes of it, field by field. A field that is absent or of
-- another type is `none`, a number is an integer, and a text in the place of a time is the ISO text of
-- a time, which is given in milliseconds.
use model_hub.Common.{ℕ, String, Option, none, some, ◌≡◌, refl, str_eq, if◌then◌else◌}
use model_hub.Common.Int.{ℤ, pos, negsuc}
use model_hub.Circuit.Types.{CircuitState, ManualOverride, CircuitBreakerState}

-- An object under `manual_override`.
pub record OverrideFields : Type 0 where
  pub state : Option String
  pub operator : Option String
  pub timestamp : Option ℕ

pub data OverrideField : Type 0 where
  null_override : OverrideField
  override_object : OverrideFields → OverrideField
  not_an_object : OverrideField

pub record Fields : Type 0 where
  pub state : Option String
  pub opened_at : Option ℕ
  pub last_transition_at : Option ℕ
  pub consecutive_failures : Option ℤ
  pub probe_successes : Option ℤ
  pub manual_override : OverrideField

-- `malformed` is a text that is not the JSON of an object, with what the pattern finds in it.
pub data StoredText : Type 0 where
  json_object : Fields → StoredText
  malformed : Option String → StoredText

-- The values of the enum `CircuitState`.
abbrev pub state_text : CircuitState → String
state_text CircuitState.closed = "CLOSED"
state_text CircuitState.opened = "OPEN"
state_text CircuitState.half_open = "HALF_OPEN"

infixl 5 ◌>>=◌
abbrev ◌>>=◌ {ℓ κ} : {A : Type ℓ} {B : Type κ} → Option A → (A → Option B) → Option B
none >>= f = none
some a >>= f = f a

abbrev pub state_of : String → Option CircuitState
state_of t =
    if str_eq t "CLOSED"
    then some CircuitState.closed
    else if str_eq t "OPEN"
    then some CircuitState.opened
    else if str_eq t "HALF_OPEN"
    then some CircuitState.half_open
    else none

abbrev pub not_negative : ℤ → Option ℕ
not_negative (pos n) = some n
not_negative (negsuc n) = none

abbrev pub serialize_override : Option ManualOverride → OverrideField
serialize_override none = OverrideField.null_override
serialize_override (some o) = OverrideField.override_object (record {
  state = some (state_text o.state);
  operator = some o.operator;
  timestamp = some o.timestamp;
})

unfoldable pub serialize : CircuitBreakerState → StoredText
serialize v = StoredText.json_object (record {
  state = some (state_text v.state);
  opened_at = v.opened_at;
  last_transition_at = some v.last_transition_at;
  consecutive_failures = some (pos v.consecutive_failures);
  probe_successes = some (pos v.probe_successes);
  manual_override = serialize_override v.manual_override;
})

abbrev pub read_override : OverrideField → Option (Option ManualOverride)
read_override OverrideField.null_override = some none
read_override OverrideField.not_an_object = none
read_override (OverrideField.override_object f) = do
  text ← f.state
  state ← state_of text
  operator ← f.operator
  timestamp ← f.timestamp
  some (some (record { state = state; operator = operator; timestamp = timestamp }))

abbrev pub read_fields : Fields → Option CircuitBreakerState
read_fields f = do
  text ← f.state
  state ← state_of text
  last ← f.last_transition_at
  failures ← f.consecutive_failures
  consecutive_failures ← not_negative failures
  probes ← f.probe_successes
  probe_successes ← not_negative probes
  override ← read_override f.manual_override
  some (record {
    state = state;
    opened_at = f.opened_at;
    last_transition_at = last;
    consecutive_failures = consecutive_failures;
    probe_successes = probe_successes;
    manual_override = override;
  })

unfoldable pub deserialize : StoredText → Option CircuitBreakerState
deserialize (StoredText.malformed found) = none
deserialize (StoredText.json_object f) = read_fields f

-- A text that the pattern takes, which asks for one character at least.
abbrev pub or_else : Option String → Option String → Option String
or_else none b = b
or_else (some t) b = if str_eq t "" then b else some t

abbrev pub override_state : OverrideField → Option String
override_state (OverrideField.override_object f) = or_else f.state none
override_state _ = none

-- `string.match(current, '"state":"([^"]+)"')`: the first text under a key `state`, where the
-- state of the value stands before that of its override.
unfoldable pub matched_state : StoredText → Option String
matched_state (StoredText.malformed found) = found
matched_state (StoredText.json_object f) = or_else f.state (override_state f.manual_override)

state_of-state_text : (st : CircuitState) → state_of (state_text st) ≡ some st
state_of-state_text CircuitState.closed = refl
state_of-state_text CircuitState.opened = refl
state_of-state_text CircuitState.half_open = refl

read-serialize_override :
    (o : Option ManualOverride) → read_override (serialize_override o) ≡ some o
read-serialize_override none = refl
read-serialize_override (some o) = rw (state_of-state_text o.state) refl

pub deserialize-serialize : (v : CircuitBreakerState) → deserialize (serialize v) ≡ some v
unfolding deserialize serialize
deserialize-serialize v =
    rw (state_of-state_text v.state, read-serialize_override v.manual_override) refl

pub matched_state-serialize :
    (v : CircuitBreakerState) → matched_state (serialize v) ≡ some (state_text v.state)
unfolding matched_state serialize
matched_state-serialize v = by_state v.state
  where
    by_state :
        (st : CircuitState)
        → or_else (some (state_text st)) (override_state (serialize_override v.manual_override))
          ≡ some (state_text st)
    by_state CircuitState.closed = refl
    by_state CircuitState.opened = refl
    by_state CircuitState.half_open = refl
