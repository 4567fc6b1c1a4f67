-- ===== src/Limits/Rate.antt =====
-- The rate limiter (src/redis/rate-limiter.service.ts): a sliding window in a sorted set, and slots for
-- calls that run at the same time. The prefixes of the keys are left out, each method has a store of
-- its own; the random part of a token is handed in with it.
use model_hub.Common.{ℕ, String, Bool, true, not, Option, none, some, leb, if◌then◌else◌}
use model_hub.Common.Int.{pos, ◌-ℤ◌}
use model_hub.Limits.SortedSets.{SortedSets}

module _ (redis : SortedSets) where
  open redis use {Db, zremrangebyscore, zadd, zcard, pexpire, zrem}

  -- `acquire`: the answer, and the store. A pipeline that gives no results lets the request through.
  unfoldable pub acquire : Bool → String → ℕ → ℕ → ℕ → String → Db → Bool × Db
  acquire replied key max_requests window now member db =
      let cleaned = zremrangebyscore key (pos 0) (pos now -ℤ pos window) now db in
      let added = zadd key now member now cleaned in
      let count = zcard key now added in
      if replied then (leb count max_requests, pexpire key window now added) else (true, db)

  -- `acquireConcurrent` up to its test: whether there is room, and the store.
  unfoldable pub has_room : String → ℕ → ℕ → ℕ → Db → Bool × Db
  has_room key max_concurrent ttl now db =
      let cleaned = zremrangebyscore key (pos 0) (pos now -ℤ pos ttl) now db in
      (not (leb max_concurrent (zcard key now cleaned)), cleaned)

  -- And what it does with a token when there is.
  unfoldable pub enter : String → ℕ → ℕ → String → Db → Db
  enter key ttl now token db = pexpire key ttl now (zadd key now token now db)

  -- The commands of a call are sent one after the other; here nothing comes between them.
  unfoldable pub acquire_concurrent : String → ℕ → ℕ → ℕ → String → Db → Option String × Db
  unfolding has_room enter
  acquire_concurrent key max_concurrent ttl now token db =
      let checked = has_room key max_concurrent ttl now db in
      if checked.0 then (some token, enter key ttl now token checked.1) else (none, checked.1)

  unfoldable pub release_concurrent : String → String → ℕ → Db → Db
  release_concurrent key token now db = zrem key token now db
