-- ===== src/Limits/Tests.antt =====
-- A limiter of two requests in a second, a lock, and logins from several addresses.
use model_hub.Common.{
  ℕ, ◌≤◌, String, List, [], ◌∷◌, true, false, none, some, ◌≡◌, refl, ltb, if◌then◌else◌, arith,
}
use model_hub.Common.Int.{◌-ℤ◌}
use model_hub.Limits.SortedSets.{keyed}
use model_hub.Limits.Rate.{acquire, has_room, enter, acquire_concurrent}
use model_hub.Limits.Window.{Request, let_through}
use model_hub.Limits.Serving.{serve, serve-let_through}
use model_hub.Limits.Slots.{in_use, acquire_concurrent-bounded, enter_past_limit}
use model_hub.Limits.Lock.{acquire_lock, Call, tokens, acquire_lock-tokens}
use model_hub.Limits.Throttle.{Attempt, let_in}
use model_hub.Limits.Attempts.{let_in-bounded}
use model_hub.Limits.Instances.{lock_table, counter_table}

abbrev empty : keyed.Db
empty = λ k. ([], none)

abbrev request : String → ℕ → String → Request
request k t m = record { key = k; now = t; member = m }

abbrev requests : List Request
requests =
    request "a" 5000 "r1"
    ∷ request "a" 5100 "r2"
    ∷ request "b" 5150 "r3"
    ∷ request "a" 5200 "r4"
    ∷ request "a" 6150 "r5"
    ∷ []

served :
    serve keyed 2 1000 "a" requests empty []
    ≡ (6150, true) ∷ (5200, false) ∷ (5100, true) ∷ (5000, true) ∷ []
unfolding acquire ◌-ℤ◌
served = refl

serve-let_through_example : let_through 1000 5300 (serve keyed 2 1000 "a" requests empty []) ≤ 2
serve-let_through_example =
    serve-let_through keyed 2 1000 "a" requests 5000 empty 5300 (λ t. refl)
      (omega arith, (omega arith, (omega arith, (omega arith, (omega arith, refl)))))
      (refl, (refl, (refl, (refl, (refl, refl)))))

-- One slot of two is taken.
abbrev one_taken : keyed.Db
one_taken = (acquire_concurrent keyed "a" 2 60000 4000 "t0" empty).1

acquire_concurrent-bounded_example :
    ((acquire_concurrent keyed "a" 2 60000 5000 "t1" one_taken).0
      ≡ (if ltb (in_use keyed "a" 2 60000 5000 one_taken) 2 then some "t1" else none))
    × (keyed.zcard "a" 5000 (acquire_concurrent keyed "a" 2 60000 5000 "t1" one_taken).1 ≤ 2)
unfolding acquire_concurrent has_room enter ◌-ℤ◌
acquire_concurrent-bounded_example =
    acquire_concurrent-bounded keyed "a" 2 60000 5000 "t1" one_taken (omega arith) refl
      (omega arith)

enter_past_limit_example :
    ((has_room keyed "a" 2 60000 5000 one_taken).0 ≡ true)
    × ((has_room keyed "a" 2 60000 5000 (has_room keyed "a" 2 60000 5000 one_taken).1).0 ≡ true)
    × (keyed.zcard "a" 5000 (
          enter keyed "a" 60000 5000 "t2" (
            enter keyed "a" 60000 5000 "t1"
              (has_room keyed "a" 2 60000 5000 (has_room keyed "a" 2 60000 5000 one_taken).1).1))
        ≡ 3)
unfolding acquire_concurrent has_room enter ◌-ℤ◌
enter_past_limit_example =
    enter_past_limit keyed "a" 2 60000 5000 "t1" "t2" one_taken (omega arith) refl refl refl

abbrev calls : List (Call lock_table)
calls =
    Call.acquires "job" 1000 100 "t2"
    ∷ Call.releases "job" 200 "t2"
    ∷ Call.releases "other" 250 "t1"
    ∷ Call.acquires "job" 1000 300 "t3"
    ∷ []

acquire_lock-tokens_example :
    tokens lock_table "job" calls (acquire_lock lock_table "job" 1000 0 "t1" (λ k. none)).1 ≡ []
unfolding acquire_lock
acquire_lock-tokens_example =
    acquire_lock-tokens lock_table "job" "t1" 1000 0 calls (λ k. none) refl
      (
        omega arith,
        omega arith,
        refl,
        (
          omega arith,
          omega arith,
          refl,
          (omega arith, omega arith, refl, (omega arith, omega arith, refl, refl)),
        ),
      )

abbrev by_email : String → String
by_email e = "email"

abbrev by_ip : String → String
by_ip i = "ip"

abbrev login : ℕ → Attempt counter_table by_email by_ip
login t = record { ip = "10.0.0.1"; email = "mail"; now = t }

let_in-bounded_example :
    let_in counter_table by_email by_ip "mail" (login 0 ∷ login 10 ∷ login 20 ∷ []) (λ k. (0, none))
    ≤ 10
let_in-bounded_example =
    let_in-bounded counter_table by_email by_ip (λ i e. refl) (login 0) (login 10 ∷ login 20 ∷ [])
      (λ k. (0, none)) refl (omega arith, omega arith, (omega arith, omega arith, refl))
