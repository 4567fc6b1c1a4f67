-- ===== src/Circuit/Commit.antt =====
-- What the calls of the circuit breaker leave in Redis. A call of one process that reads what is
-- stored acts as the state machine says; a write that comes between its read and its
-- compare-and-set can be lost; and what nobody writes again is forgotten.
use model_hub.Common.{
  ℕ, ◌+◌, ◌≤◌, String, Option, none, some, List, [], ◌++◌, Bool, true, ◌≡◌, refl, ap, ◌∙◌, arith,
  str_eq_refl, lt→ltb, Option-cases, inl, inr,
}
use model_hub.Common.Expiring.{Expiring}
use model_hub.Circuit.Types.{
  CircuitState, CircuitBreakerState, CircuitBreakerConfig, HealthMetrics, Effect,
}
use model_hub.Circuit.Text.{StoredText, state_text, serialize, matched_state-serialize}
use model_hub.Circuit.Store.{CircuitStore, get_state, compare_and_set_state, cas_matches, set_state}
use model_hub.Circuit.{
  Plan, keep, cas, Breaker, commit, evaluate, record_result, evaluate_plan, record_plan, or_default,
  ttl_of, manual_override, allow_request, overridden, count_failures,
}

-- What a plan leaves under the key that it was made for, and in the log.
abbrev pub stored_after : Plan → Option CircuitBreakerState → Option CircuitBreakerState
stored_after keep o = o
stored_after (cas expected v effects) o = some v

abbrev pub logged : Plan → List Effect → List Effect
logged keep l = l
logged (cas expected v effects) l = effects ++ l

-- A plan expects the state that it was made from.
abbrev Expects : CircuitBreakerState → Plan → Type 0
Expects v keep = Unit
Expects v (cas expected w effects) = v.state ≡ expected

evaluate_plan-Expects :
    (p : String) (cfg : CircuitBreakerConfig) (m : HealthMetrics) (now : ℕ)
    (v : CircuitBreakerState)
    → Expects v (evaluate_plan p cfg m now v)
unfolding evaluate_plan
evaluate_plan-Expects p cfg m now v = ground arith

record_plan-Expects :
    (p : String) (cfg : CircuitBreakerConfig) (ok : Bool) (now : ℕ) (v : CircuitBreakerState)
    → Expects v (record_plan p cfg ok now v)
unfolding record_plan
record_plan-Expects p cfg ok now v = ground arith

-- The text of a value, where there is one.
abbrev pub text_of : Option CircuitBreakerState → Option StoredText
text_of none = none
text_of (some v) = some (serialize v)

cas_matches_of_read :
    (now : ℕ) (o : Option CircuitBreakerState) (expected : CircuitState)
    → (or_default now o).state ≡ expected
    → cas_matches expected (text_of o) ≡ true
unfolding cas_matches
cas_matches_of_read now none expected e = rw (← e) refl
cas_matches_of_read now (some v) expected e =
    rw (matched_state-serialize v, e) (str_eq_refl (state_text expected))

record_plan_closed :
    (p : String) (cfg : CircuitBreakerConfig) (success : Bool) (now : ℕ) (v : CircuitBreakerState)
    → v.state ≡ CircuitState.closed
    → record_plan p cfg success now v
      ≡ cas CircuitState.closed (record v { consecutive_failures = count_failures success v }) []
unfolding record_plan
record_plan_closed p cfg success now v st = ground arith

overridden_closed :
    (operator : String) (now : ℕ) (v w : CircuitBreakerState)
    → overridden CircuitState.closed operator now v ≡ some w
    → w.state ≡ CircuitState.closed
unfolding overridden
overridden_closed operator now v w e = ground arith

module _ (r : Expiring StoredText) (up : ℕ → Bool) (config : String → CircuitBreakerConfig)
    (p : String) (now : ℕ) (reachable : up now ≡ true) where
  -- What Redis holds for the provider.
  abbrev pub stored : Breaker r up config → Option StoredText
  stored s = r.get p now s.store.redis

  -- Redis holds the text of this value, or nothing, and the read of the store gives what Redis holds:
  -- no stale cache entry is in the way.
  abbrev pub ReadsStored : Option CircuitBreakerState → Breaker r up config → Type 0
  ReadsStored o s = ((get_state r up p now s.store).0 ≡ o) × (stored s ≡ text_of o)

  get_state-redis :
      (s : Breaker r up config) → (get_state r up p now s.store).1.redis ≡ s.store.redis
  unfolding get_state
  get_state-redis s = ground arith

  -- A write is there at once: the time to live is at least a minute.
  get_written :
      (v : CircuitBreakerState) (db : r.Db)
      → r.get p now (r.set_px p (serialize v) (ttl_of (config p)) now db) ≡ some (serialize v)
  get_written v db =
      rw (r.get-set_px, str_eq_refl, lt→ltb now (now + ttl_of (config p)) (omega arith)) refl

  cas_stored :
      (expected : CircuitState) (v : CircuitBreakerState) (o : Option CircuitBreakerState)
      (s : Breaker r up config)
      → stored s ≡ text_of o
      → (or_default now o).state ≡ expected
      → let (ok, store) = compare_and_set_state r up p expected v (ttl_of (config p)) now s.store in
        (ok ≡ true) × (r.get p now store.redis ≡ some (serialize v))
  unfolding compare_and_set_state
  cas_stored expected v o s held e =
      rw (reachable, held, cas_matches_of_read now o expected e) (refl, get_written v s.store.redis)

  commit-stored :
      (plan : Plan) (o : Option CircuitBreakerState) (s : Breaker r up config)
      → stored s ≡ text_of o
      → Expects (or_default now o) plan
      → (stored (commit r up config p now plan s) ≡ text_of (stored_after plan o))
        × ((commit r up config p now plan s).log ≡ logged plan s.log)
  unfolding commit
  commit-stored keep o s held e = (held, refl)
  commit-stored (cas expected v effects) o s held e =
      let (done, kept) = cas_stored expected v o s held e in (kept, rw done refl)

  commit_after_read :
      (s : Breaker r up config) (o : Option CircuitBreakerState) (plan : Plan)
      → stored s ≡ text_of o
      → Expects (or_default now o) plan
      → let s' : Breaker r up config = record s { store = (get_state r up p now s.store).1 } in
        (stored (commit r up config p now plan s') ≡ text_of (stored_after plan o))
        × ((commit r up config p now plan s').log ≡ logged plan s.log)
  commit_after_read s o plan held e =
      commit-stored plan o (record s { store = (get_state r up p now s.store).1 })
        (ap (r.get p now) (get_state-redis s) ∙ held) e

  -- Where Redis can be reached and holds the text of a value or nothing, and the read gives that,
  -- `evaluate` carries out the plan for that value (the default value where Redis holds none):
  -- afterwards Redis holds the text of the value that the plan writes and the effects of the plan
  -- are logged, or, with nothing planned, both are as before.
  pub evaluate-stored :
      (m : HealthMetrics) (o : Option CircuitBreakerState) (s : Breaker r up config)
      → ReadsStored o s
      → let plan = evaluate_plan p (config p) m now (or_default now o) in
        (stored (evaluate r up config p m now s) ≡ text_of (stored_after plan o))
        × ((evaluate r up config p m now s).log ≡ logged plan s.log)
  unfolding evaluate
  evaluate-stored m o s h = rw h.0 (
      commit_after_read s o (evaluate_plan p (config p) m now (or_default now o)) h.1
        (evaluate_plan-Expects p (config p) m now (or_default now o)))

  -- Where Redis can be reached and holds the text of a value or nothing, and the read gives that,
  -- `recordResult` carries out the plan for that value (the default value where Redis holds none):
  -- afterwards Redis holds the text of the value that the plan writes and the effects of the plan
  -- are logged, or, with nothing planned, both are as before.
  pub record_result-stored :
      (success : Bool) (o : Option CircuitBreakerState) (s : Breaker r up config)
      → ReadsStored o s
      → let plan = record_plan p (config p) success now (or_default now o) in
        (stored (record_result r up config p success now s) ≡ text_of (stored_after plan o))
        × ((record_result r up config p success now s).log ≡ logged plan s.log)
  unfolding record_result
  record_result-stored success o s h = rw h.0 (
      commit_after_read s o (record_plan p (config p) success now (or_default now o)) h.1
        (record_plan-Expects p (config p) success now (or_default now o)))

  -- What a manual override leaves: the overridden value, in Redis and in the cache.
  override_run :
      (target : CircuitState) (operator : String) (s s' : Breaker r up config)
      → manual_override r up config p target operator now s ≡ some s'
      → (w : CircuitBreakerState) × (overridden target operator now
            (or_default now (get_state r up p now s.store).0)
          ≡ some w)
        × (s'.store ≡ set_state r up p w (ttl_of (config p)) now (get_state r up p now s.store).1)
  unfolding manual_override
  override_run target operator s s' forced =
      elim (Option-cases
        (overridden target operator now (or_default now (get_state r up p now s.store).0))) [
          | inl refused ↦ cc (rw (refused, manual_override) at forced)
          | inr (w, e) ↦ (w, e, ground arith)
        ]

  override-stored :
      (w : CircuitBreakerState) (store : CircuitStore r)
      → r.get p now (set_state r up p w (ttl_of (config p)) now store).redis ≡ some (serialize w)
  unfolding set_state
  override-stored w store = rw reachable (get_written w store.redis)

  read_expired :
      (w : CircuitBreakerState) (later : ℕ) (store : CircuitStore r)
      → up later ≡ true
      → now + ttl_of (config p) ≤ later
      → (get_state r up p later (set_state r up p w (ttl_of (config p)) now store)).0 ≡ none
  unfolding get_state set_state
  read_expired w later store up_later past = ground (
    arith,
    reachable,
    str_eq_refl p,
    r.get-set_px p p (serialize w) (ttl_of (config p)) now later store.redis,
  )

  -- Two calls that interleave, where Redis can be reached: `recordResult` has read the stored
  -- CLOSED value without an override and has planned its write; an administrator forces CLOSED;
  -- then the planned write is carried out. Afterwards Redis holds the text of a value without an
  -- override.
  pub record_result_loses_override :
      (success : Bool) (operator : String) (v : CircuitBreakerState) (s s' : Breaker r up config)
      → ReadsStored (some v) s
      → v.state ≡ CircuitState.closed
      → v.manual_override ≡ none
      → manual_override r up config p CircuitState.closed operator now s ≡ some s'
      → let s'' = commit r up config p now (record_plan p (config p) success now v) s' in
        (w : CircuitBreakerState) × (stored s'' ≡ some (serialize w)) × (w.manual_override ≡ none)
  record_result_loses_override success operator v s s' h st mo forced =
      let (w, to_w, store) = override_run CircuitState.closed operator s s' forced in
      let held : stored s' ≡ some (serialize w) =
        rw store (override-stored w (get_state r up p now s.store).1) in
      let w_closed : w.state ≡ CircuitState.closed = overridden_closed operator now _ w to_w in
      let plan = record_plan_closed p (config p) success now v st in
      (
        record v { consecutive_failures = count_failures success v },
        rw plan (commit-stored (cas CircuitState.closed _ []) (some w) s' held w_closed).0,
        mo,
      )

  -- An override to OPEN, written where Redis can be reached, is forgotten after the cooldown and
  -- one minute: from then on, with nothing written or read in between and Redis in reach,
  -- `allowRequest` lets requests pass although the override was not cleared.
  pub manual_override_expires :
      (operator : String) (later : ℕ) (s s' : Breaker r up config)
      → up later ≡ true
      → now + ttl_of (config p) ≤ later
      → manual_override r up config p CircuitState.opened operator now s ≡ some s'
      → (allow_request r up config p later s').0 ≡ true
  unfolding allow_request
  manual_override_expires operator later s s' up_later past forced =
      let (w, to_w, store) = override_run CircuitState.opened operator s s' forced in
      let gone : (get_state r up p later s'.store).0 ≡ none =
        rw store (read_expired w later (get_state r up p now s.store).1 up_later past) in
      rw (gone, allow_request)
