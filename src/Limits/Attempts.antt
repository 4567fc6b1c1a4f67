-- ===== src/Limits/Attempts.antt =====
-- How many logins for an email the throttle lets through (`consume` of
-- src/portal-auth/portal-login-throttle.service.ts).
use model_hub.Common.{
  ℕ, suc, ◌+◌, ◌*◌, ◌≤◌, ◌<◌, String, List, [], ◌∷◌, Bool, true, false, ◌≡◌, sym, ◌∙◌, subst,
  str_eq, str_eq_refl, str_eq_iff, arith, Bool-cases, inl, inr,
}
use model_hub.Limits.Throttle.{
  Counters, window_seconds, email_attempt_limit, increment, consume, Attempt, let_in, IsCounted,
  Within, increment_elsewhere, increment_counts, increment_starts,
}

module _ (redis : Counters) (email_key ip_key : String → String)
    (apart : (i e : String) → str_eq (ip_key i) (email_key e) ≡ false) where
  open redis use {Db, value}

  abbrev Counted : String → ℕ → ℕ → ℕ → Db → Type 0
  Counted = IsCounted redis email_key ip_key

  abbrev Try : Type 0
  Try = Attempt redis email_key ip_key

  abbrev behind : Try → Db → Db
  behind a db = (consume redis email_key ip_key true a.ip a.email a.now db).1

  abbrev passes : Try → Db → Bool
  passes a db = (consume redis email_key ip_key true a.ip a.email a.now db).0

  -- The counter of the email behind an attempt.
  value-behind :
      (a : Try) (email : String) (t : ℕ) (db : Db)
      → value (email_key email) t (behind a db)
        ≡ value
            (email_key email)
            t
            (increment redis email_key ip_key (email_key a.email) a.now db).1
  unfolding consume
  value-behind a email t db =
      increment_elsewhere redis email_key ip_key (ip_key a.ip) (email_key email) a.now t _
        (apart a.ip email)

  passes-low :
      (a : Try) (db : Db)
      → passes a db ≡ true
      → suc (value (email_key a.email) a.now db) ≤ email_attempt_limit
  unfolding consume increment
  passes-low a db h = ground (arith, redis.incr-value (email_key a.email) a.now db)

  own-Counted :
      (a : Try) (last deadline n : ℕ) (db : Db)
      → Counted a.email last deadline n db
      → Counted a.email last deadline 1 db
      → last ≤ a.now
      → a.now < deadline
      → Counted a.email a.now deadline (suc n) (behind a db)
  own-Counted a last deadline n db counted some l m t lt le =
      subst (λ v. suc n ≤ v)
        (sym (
          value-behind a a.email t db
          ∙ increment_counts redis email_key ip_key (email_key a.email) a.now t db lt
              (some a.now l m) (some t (omega arith) le)))
        (omega (arith, counted a.now l m))

  other-Counted :
      (a : Try) (email : String) (last deadline n : ℕ) (db : Db)
      → str_eq (email_key a.email) (email_key email) ≡ false
      → Counted email last deadline n db
      → last ≤ a.now
      → Counted email a.now deadline n (behind a db)
  other-Counted a email last deadline n db other counted l t lt le =
      subst (λ v. n ≤ v)
        (sym (
          value-behind a email t db
          ∙ increment_elsewhere redis email_key ip_key (email_key a.email) (email_key email) a.now t
              db other))
        (counted t (omega arith) le)

  fewer-Counted :
      (email : String) (last deadline m n : ℕ) (db : Db)
      → m ≤ n
      → Counted email last deadline n db
      → Counted email last deadline m db
  fewer-Counted email last deadline m n db less counted t lt le = omega (arith, counted t lt le)

  moved :
      (e e' : String) (n last deadline : ℕ) (db : Db)
      → email_key e ≡ email_key e'
      → Counted e last deadline n db
      → Counted e' last deadline n db
  moved e e' n last deadline db same counted =
      subst (λ k. (t : ℕ) → last ≤ t → t < deadline → n ≤ value k t db) same counted

  let_in-Counted :
      (email : String) (more : List Try) (last deadline n : ℕ) (db : Db)
      → Counted email last deadline n db
      → Counted email last deadline 1 db
      → n ≤ email_attempt_limit
      → Within redis email_key ip_key last deadline more
      → let_in redis email_key ip_key email more db + n ≤ email_attempt_limit
  let_in-Counted email [] last deadline n db counted some h w = omega arith
  let_in-Counted email (a ∷ more) last deadline n db counted some h w =
      elim (Bool-cases (str_eq (email_key a.email) (email_key email))) [
        | inl same ↦
            let key : email_key a.email ≡ email_key email =
              (str_eq_iff (email_key a.email) (email_key email)).0 same in
            let counted' : Counted a.email last deadline n db =
              moved email a.email n last deadline db (sym key) counted in
            let some' : Counted a.email last deadline 1 db =
              moved email a.email 1 last deadline db (sym key) some in
            let higher : Counted email a.now deadline (suc n) (behind a db) =
              moved a.email email (suc n) a.now deadline (behind a db) key
                (own-Counted a last deadline n db counted' some' w.0 w.1) in
            elim (Bool-cases (passes a db)) [
              | inl passed ↦
                  rw (same, passed)
                    (omega (
                      arith,
                      let_in-Counted email more a.now deadline (suc n) (behind a db) higher
                          (fewer-Counted email a.now deadline 1 (suc n) (behind a db) (omega arith)
                            higher)
                          (omega (arith, passes-low a db passed, counted' a.now w.0 w.1)) w.2,
                    ))
              | inr stopped ↦
                  rw (same, stopped)
                    (let_in-Counted email more a.now deadline n (behind a db)
                      (fewer-Counted email a.now deadline n (suc n) (behind a db) (omega arith)
                        higher)
                      (fewer-Counted email a.now deadline 1 (suc n) (behind a db) (omega arith)
                        higher)
                      h w.2)
            ]
        | inr other ↦ rw (other) (
            let_in-Counted email more a.now deadline n (behind a db)
              (other-Counted a email last deadline n db other counted w.0)
              (other-Counted a email last deadline 1 db other some w.0) h w.2)
      ]

  -- From the first attempt for an email on, at most ten attempts for it are let through in a quarter of
  -- an hour, from whatever addresses they come, if Redis is up and nothing is reset.
  pub let_in-bounded :
      (a : Try) (more : List Try) (db : Db)
      → value (email_key a.email) a.now db ≡ 0
      → Within redis email_key ip_key a.now (a.now + window_seconds * 1000) more
      → let_in redis email_key ip_key a.email (a ∷ more) db ≤ 10
  let_in-bounded a more db fresh w =
      let deadline : ℕ = a.now + window_seconds * 1000 in
      let started : Counted a.email a.now deadline 1 (behind a db) = λ t lt le.
        subst (λ v. 1 ≤ v)
          (sym (
            value-behind a a.email t db
            ∙ increment_starts redis email_key ip_key (email_key a.email) a.now t db lt le fresh))
          (omega arith) in
      elim (Bool-cases (passes a db)) [
        | inl passed ↦
            rw (str_eq_refl (email_key a.email), passed)
              (omega (
                arith,
                let_in-Counted a.email more a.now deadline 1 (behind a db) started started
                    (omega arith) w,
              ))
        | inr stopped ↦
            rw (str_eq_refl (email_key a.email), stopped)
              (omega (
                arith,
                let_in-Counted a.email more a.now deadline 1 (behind a db) started started
                    (omega arith) w,
              ))
      ]
