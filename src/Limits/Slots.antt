-- ===== src/Limits/Slots.antt =====
-- Slots for calls at the same time (`acquireConcurrent` and `releaseConcurrent` of
-- src/redis/rate-limiter.service.ts), alone and with two callers between each other.
use model_hub.Common.{
  ℕ, suc, ◌+◌, ◌≤◌, ◌<◌, String, ◌∷◌, Bool, true, false, none, some, ◌≡◌, refl, ap, ◌∙◌, ltb,
  if◌then◌else◌, length, arith, Bool-cases, inl, inr, str_eq, ltb→lt, or_false_first,
  or_false_second, ◌||◌,
}
use model_hub.Common.Int.{pos, ◌-ℤ◌}
use model_hub.Common.OrderedMap.{contains}
use model_hub.Limits.SortedSets.{SortedSets, names, outside}
use model_hub.Limits.Rate.{has_room, enter, acquire_concurrent}
use model_hub.Limits.Window.{kept, kept-outside, length-outside, names-outside}

soon : (now ttl : ℕ) → 0 < ttl → ltb now (now + ttl) ≡ true
soon now ttl h = ground arith

less_by_one : {m n : ℕ} → suc m ≡ n → ltb m n ≡ true
less_by_one h = ground arith

both_false : {a b : Bool} → a ≡ false → b ≡ false → (a || b) ≡ false
both_false h k = ground arith

not_there : {a b : Bool} → (a ≡ true → b ≡ true) → b ≡ false → a ≡ false
not_there f h = ground arith

module _ (redis : SortedSets) (key : String) (max_concurrent ttl now : ℕ) where
  open redis use {Db, members, zcard}

  -- The slots in use whose time is not over.
  abbrev pub in_use : Db → ℕ
  in_use db = kept ttl now (members key now db)

  members-cleaned :
      (db : Db)
      → members key now (has_room redis key max_concurrent ttl now db).1
        ≡ outside (pos 0) (pos now -ℤ pos ttl) (members key now db)
  unfolding has_room
  members-cleaned db = redis.members-zremrangebyscore key (pos 0) (pos now -ℤ pos ttl) now db

  length-cleaned :
      (db : Db)
      → length (members key now (has_room redis key max_concurrent ttl now db).1) ≡ in_use db
  length-cleaned db = ap length (members-cleaned db) ∙ length-outside now ttl (members key now db)

  in_use-cleaned : (db : Db) → in_use (has_room redis key max_concurrent ttl now db).1 ≡ in_use db
  in_use-cleaned db =
      ap (kept ttl now) (members-cleaned db)
      ∙ kept-outside now ttl now (members key now db) (omega arith)

  cleaned-count :
      (db : Db) → zcard key now (has_room redis key max_concurrent ttl now db).1 ≡ in_use db
  cleaned-count db = redis.zcard-members key now _ ∙ length-cleaned db

  has_room-in_use :
      (db : Db) → (has_room redis key max_concurrent ttl now db).0 ≡ ltb (in_use db) max_concurrent
  unfolding has_room
  has_room-in_use db = ground (arith, cleaned-count db)

  members-enter :
      (token : String) (db : Db)
      → 0 < ttl
      → contains token (names (members key now db)) ≡ false
      → members key now (enter redis key ttl now token db) ≡ (token, now) ∷ members key now db
  unfolding enter
  members-enter token db live fresh =
      redis.members-pexpire key ttl now now _ (omega arith)
      ∙ rw (soon now ttl live) (redis.members-zadd key now token now db fresh)

  names-cleaned :
      (token : String) (db : Db)
      → contains token (names (members key now db)) ≡ false
      → contains token (names (members key now (has_room redis key max_concurrent ttl now db).1))
        ≡ false
  names-cleaned token db fresh =
      ap (λ ms. contains token (names ms)) (members-cleaned db)
      ∙ not_there (names-outside (pos 0) (pos now -ℤ pos ttl) token (members key now db)) fresh

  -- After a cleaning and an entry.
  enter-count :
      (token : String) (db : Db)
      → 0 < ttl
      → contains token (names (members key now db)) ≡ false
      → zcard key now
          (enter redis key ttl now token (has_room redis key max_concurrent ttl now db).1)
        ≡ suc (in_use db)
  enter-count token db live fresh =
      redis.zcard-members key now _
      ∙ ap length (members-enter token _ live (names-cleaned token db fresh))
      ∙ ap suc (length-cleaned db)

  -- A caller that finds nobody between its commands gets a slot exactly when fewer than
  -- `max_concurrent` are in use, and never are more than that in use behind it, if the time to live
  -- is not zero, the token is new, and no more were in use before.
  pub acquire_concurrent-bounded :
      (token : String) (db : Db)
      → 0 < ttl
      → contains token (names (members key now db)) ≡ false
      → in_use db ≤ max_concurrent
      → ((acquire_concurrent redis key max_concurrent ttl now token db).0
          ≡ (if ltb (in_use db) max_concurrent then some token else none))
        × (zcard key now (acquire_concurrent redis key max_concurrent ttl now token db).1
            ≤ max_concurrent)
  unfolding acquire_concurrent
  acquire_concurrent-bounded token db live fresh le =
      elim (Bool-cases (ltb (in_use db) max_concurrent)) [
        | inl room ↦
            rw (has_room-in_use db, room)
              (
                refl,
                omega (
                  arith,
                  enter-count token db live fresh,
                  ltb→lt (in_use db) max_concurrent room,
                ),
              )
        | inr full ↦ rw (has_room-in_use db, full) (refl, omega (arith, cleaned-count db))
      ]

  -- Where one slot is left, two callers that both test before either enters both find room, and one
  -- more than `max_concurrent` slots are in use behind them.
  pub enter_past_limit :
      (first second : String) (db : Db)
      → 0 < ttl
      → contains first (names (members key now db)) ≡ false
      → contains second (first ∷ names (members key now db)) ≡ false
      → suc (in_use db) ≡ max_concurrent
      → let tested : Db = (has_room redis key max_concurrent ttl now db).1 in
        let tested_again : Db = (has_room redis key max_concurrent ttl now tested).1 in
        ((has_room redis key max_concurrent ttl now db).0 ≡ true)
        × ((has_room redis key max_concurrent ttl now tested).0 ≡ true)
        × (zcard key now
              (enter redis key ttl now second (enter redis key ttl now first tested_again))
            ≡ suc max_concurrent)
  enter_past_limit first second db live new newer one_left =
      let tested : Db = (has_room redis key max_concurrent ttl now db).1 in
      let tested_again : Db = (has_room redis key max_concurrent ttl now tested).1 in
      let first_new = names-cleaned first tested (names-cleaned first db new) in
      let entered = members-enter first tested_again live first_new in
      let second_new =
        names-cleaned second tested
          (names-cleaned second db (or_false_second (str_eq first second) _ newer)) in
      let second_newer : contains second
            (names (members key now (enter redis key ttl now first tested_again)))
          ≡ false =
        ap (λ ms. contains second (names ms)) entered
        ∙ both_false (or_false_first (str_eq first second) _ newer) second_new in
      (
        has_room-in_use db ∙ less_by_one one_left,
        has_room-in_use tested
            ∙ ap (λ n. ltb n max_concurrent) (in_use-cleaned db)
            ∙ less_by_one one_left,
        redis.zcard-members key now _
            ∙ ap length (members-enter second _ live second_newer)
            ∙ ap (λ ms. suc (length ms)) entered
            ∙ ap (λ n. suc (suc n)) (length-cleaned tested ∙ in_use-cleaned db)
            ∙ ap suc one_left,
      )
