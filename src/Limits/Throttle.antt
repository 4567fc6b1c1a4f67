-- ===== src/Limits/Throttle.antt =====
-- The throttle of logins to the portal (src/portal-auth/portal-login-throttle.service.ts): counters in
-- Redis, one for the email and one for the address, each over a window that starts with its first
-- attempt. Redis is not part of the repository: `Counters` is what the script and the service rely on.
-- The two increments of a call touch different keys, and are made one after the other here; the hashes
-- that make the keys are parameters.
use model_hub.Common.{
  ℕ, suc, ◌+◌, ◌*◌, ◌≤◌, ◌<◌, String, List, [], ◌∷◌, Bool, true, false, not, ◌&&◌, ◌||◌, ◌≡◌, ◌∙◌,
  str_eq, ltb, ◌==◌, if◌then◌else◌, arith, Bool-cases, inl, inr,
}

pub record Counters : Type 1 where
  pub Db : Type 0
  pub value : String → ℕ → Db → ℕ
  pub incr : String → ℕ → Db → ℕ × Db
  pub expire : String → ℕ → ℕ → Db → Db
  pub del : String → Db → Db
  pub incr-value : (k : String) (now : ℕ) (db : Db) → (incr k now db).0 ≡ suc (value k now db)
  pub value-incr :
      (k : String) (now t : ℕ) (db : Db)
      → now ≤ t
      → value k t (incr k now db).1
        ≡ (if value k now db == 0 then 1 else if value k t db == 0 then 0 else suc (value k now db))
  pub value-expire :
      (k : String) (seconds now t : ℕ) (db : Db)
      → now ≤ t
      → value k t (expire k seconds now db)
        ≡ (if ltb t (now + seconds * 1000) then value k now db else 0)
  pub value-del : (k : String) (t : ℕ) (db : Db) → value k t (del k db) ≡ 0
  pub incr_elsewhere :
      (k j : String) (now t : ℕ) (db : Db)
      → str_eq k j ≡ false
      → value j t (incr k now db).1 ≡ value j t db
  pub expire_elsewhere :
      (k j : String) (seconds now t : ℕ) (db : Db)
      → str_eq k j ≡ false
      → value j t (expire k seconds now db) ≡ value j t db
  pub del_elsewhere :
      (k j : String) (t : ℕ) (db : Db) → str_eq k j ≡ false → value j t (del k db) ≡ value j t db

abbrev pub window_seconds : ℕ
window_seconds = 15 * 60

abbrev pub email_attempt_limit : ℕ
email_attempt_limit = 10

abbrev pub ip_attempt_limit : ℕ
ip_attempt_limit = 50

module _ (redis : Counters) (email_key ip_key : String → String) where
  open redis use {Db, value, incr, expire, del}

  -- `INCREMENT_SCRIPT`
  unfoldable pub increment : String → ℕ → Db → ℕ × Db
  increment key now db =
      let counted = incr key now db in
      (counted.0, if counted.0 == 1 then expire key window_seconds now counted.1 else counted.1)

  -- `consume`, with false where it throws. When Redis is down it lets the attempt through.
  unfoldable pub consume : Bool → String → String → ℕ → Db → Bool × Db
  unfolding increment
  consume up ip email now db =
      let by_email = increment (email_key email) now db in
      let by_ip = increment (ip_key ip) now by_email.1 in
      if up
      then (not (ltb email_attempt_limit by_email.0 || ltb ip_attempt_limit by_ip.0), by_ip.1)
      else (true, db)

  unfoldable pub reset : Bool → String → String → Db → Db
  reset up ip email db = if up then del (ip_key ip) (del (email_key email) db) else db

  pub record Attempt : Type 0 where
    pub ip : String
    pub email : String
    pub now : ℕ

  -- How many attempts for an email a run lets through.
  abbrev pub let_in : String → List Attempt → Db → ℕ
  let_in email [] db = 0
  let_in email (a ∷ more) db =
      let answered = consume true a.ip a.email a.now db in
      let rest = let_in email more answered.1 in
      if str_eq (email_key a.email) (email_key email) && answered.0 then suc rest else rest

  -- Until the deadline, the counter of the email is at least so high.
  abbrev pub IsCounted : String → ℕ → ℕ → ℕ → Db → Type 0
  IsCounted email last deadline n db =
      (t : ℕ) → last ≤ t → t < deadline → n ≤ value (email_key email) t db

  abbrev pub Within : ℕ → ℕ → List Attempt → Type 0
  Within last deadline [] = true ≡ true
  Within last deadline (a ∷ more) = (last ≤ a.now) × (a.now < deadline) × Within a.now deadline more

  pub increment_elsewhere :
      (k j : String) (now t : ℕ) (db : Db)
      → str_eq k j ≡ false
      → value j t (increment k now db).1 ≡ value j t db
  unfolding increment
  increment_elsewhere k j now t db apart = elim (Bool-cases ((incr k now db).0 == 1)) [
    | inl first ↦ rw (first) (
        redis.expire_elsewhere k j window_seconds now t _ apart
        ∙ redis.incr_elsewhere k j now t db apart)
    | inr later ↦ rw (later) (redis.incr_elsewhere k j now t db apart)
  ]

  -- A counter that is not new goes up by one.
  pub increment_counts :
      (k : String) (now t : ℕ) (db : Db)
      → now ≤ t
      → 0 < value k now db
      → 0 < value k t db
      → value k t (increment k now db).1 ≡ suc (value k now db)
  unfolding increment
  increment_counts k now t db le some_now some_then =
      ground (arith, redis.incr-value k now db, redis.value-incr k now t db)

  -- A new one stands at one for the window.
  pub increment_starts :
      (k : String) (now t : ℕ) (db : Db)
      → now ≤ t
      → t < now + window_seconds * 1000
      → value k now db ≡ 0
      → value k t (increment k now db).1 ≡ 1
  unfolding increment
  increment_starts k now t db le lt none_yet = ground (
    arith,
    redis.incr-value k now db,
    redis.value-incr k now now db,
    redis.value-expire k window_seconds now t (incr k now db).1,
  )
