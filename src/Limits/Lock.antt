-- ===== src/Limits/Lock.antt =====
-- Locks on Redis (src/redis/redis-lock.service.ts). Redis is not part of the repository, so `Locks` is
-- what the service relies on: `SET … PX ttl NX`, and `GET` and `DEL` in one script. The prefix of the
-- keys is left out, and the random part of a token is handed in with it.
use model_hub.Common.{
  ℕ, ◌+◌, ◌≤◌, ◌<◌, String, List, [], ◌∷◌, ◌++◌, Bool, true, false, ◌&&◌, Option, none, some, ◌≡◌,
  refl, ap, ◌∙◌, str_eq, str_eq_iff, ltb, if◌then◌else◌, arith, Bool-cases, Option-cases, inl, inr,
}

pub record Locks : Type 1 where
  pub Db : Type 0
  pub get : String → ℕ → Db → Option String
  pub set_nx : String → String → ℕ → ℕ → Db → Bool × Db
  pub del : String → Db → Db
  pub set_nx_free :
      (k v : String) (ttl now : ℕ) (db : Db)
      → get k now db ≡ none
      → (set_nx k v ttl now db).0 ≡ true
  pub get-set_nx :
      (k v : String) (ttl now t : ℕ) (db : Db)
      → get k now db ≡ none
      → now ≤ t
      → get k t (set_nx k v ttl now db).1 ≡ (if ltb t (now + ttl) then some v else none)
  pub set_nx_held :
      (k v w : String) (ttl now : ℕ) (db : Db)
      → get k now db ≡ some w
      → set_nx k v ttl now db ≡ (false, db)
  pub set_nx_elsewhere :
      (k j v : String) (ttl now t : ℕ) (db : Db)
      → str_eq k j ≡ false
      → get j t (set_nx k v ttl now db).1 ≡ get j t db
  pub get-del : (k : String) (t : ℕ) (db : Db) → get k t (del k db) ≡ none
  pub del_elsewhere :
      (k j : String) (t : ℕ) (db : Db) → str_eq k j ≡ false → get j t (del k db) ≡ get j t db

abbrev same_token : Option String → String → Bool
same_token none token = false
same_token (some t) token = str_eq t token

before : {m n : ℕ} → m < n → ltb m n ≡ true
before h = ground arith

other_token : {a b : Bool} → a ≡ true → (a && b) ≡ false → b ≡ false
other_token h k = ground arith

none_given : {b : Bool} {t : String} → b ≡ false → (if b then some t else none) ≡ some t → ⊥
none_given h k = ground arith

module _ (redis : Locks) where
  open redis use {Db, get, set_nx, del}

  -- `acquire` and `release`, with the store behind them.
  unfoldable pub acquire_lock : String → ℕ → ℕ → String → Db → Option String × Db
  acquire_lock key ttl now token db =
      let result = set_nx key token ttl now db in (if result.0 then some token else none, result.1)

  abbrev pub released : String → Db → Bool → Bool × Db
  released key db matches = if matches then (true, del key db) else (false, db)

  unfoldable pub release_lock : String → ℕ → String → Db → Bool × Db
  release_lock key now token db = released key db (same_token (get key now db) token)

  -- What callers do, each at its time.
  pub data Call : Type 0 where
    acquires : String → ℕ → ℕ → String → Call
    releases : String → ℕ → String → Call

  abbrev pub time_of : Call → ℕ
  time_of (acquires key ttl now token) = now
  time_of (releases key now token) = now

  abbrev pub stored : Call → Db → Db
  stored (acquires key ttl now token) db = (acquire_lock key ttl now token db).1
  stored (releases key now token) db = (release_lock key now token db).1

  abbrev pub token_list : Option String → List String
  token_list none = []
  token_list (some t) = t ∷ []

  -- The tokens a call hands out for a key, and those a run of calls does.
  abbrev pub handed_out : String → Call → Db → List String
  handed_out key (acquires k ttl now token) db =
      if str_eq k key then token_list (acquire_lock k ttl now token db).0 else []
  handed_out key (releases k now token) db = []

  abbrev pub tokens : String → List Call → Db → List String
  tokens key [] db = []
  tokens key (c ∷ cs) db = handed_out key c db ++ tokens key cs (stored c db)

  abbrev pub gives_up : String → String → Call → Bool
  gives_up key token (acquires k ttl now other) = false
  gives_up key token (releases k now other) = str_eq k key && str_eq token other

  -- The calls come in the order of their times, before a deadline, and none gives the lock up.
  abbrev pub Meanwhile : String → String → ℕ → ℕ → List Call → Type 0
  Meanwhile key token last deadline [] = true ≡ true
  Meanwhile key token last deadline (c ∷ cs) =
      (last ≤ time_of c)
      × (time_of c < deadline)
      × (gives_up key token c ≡ false)
      × Meanwhile key token (time_of c) deadline cs

  IsHeld : String → String → ℕ → ℕ → Db → Type 0
  IsHeld key token last deadline db = (t : ℕ) → last ≤ t → t < deadline → get key t db ≡ some token

  there :
      (k key token : String) {now : ℕ} (db : Db)
      → str_eq k key ≡ true
      → get key now db ≡ some token
      → get k now db ≡ some token
  there k key token {now} db same h = ap (λ j. get j now db) ((str_eq_iff k key).0 same) ∙ h

  stored-IsHeld :
      (key token : String) (last deadline : ℕ) (c : Call) (db : Db)
      → IsHeld key token last deadline db
      → last ≤ time_of c
      → time_of c < deadline
      → gives_up key token c ≡ false
      → IsHeld key token (time_of c) deadline (stored c db)
  unfolding IsHeld acquire_lock release_lock
  stored-IsHeld key token last deadline (acquires k ttl now other) db held l m g t lt le =
      elim (Bool-cases (str_eq k key)) [
        | inl same ↦
            ap (λ r. get key t r.1)
              (redis.set_nx_held k other token ttl now db
                (there k key token db same (held now l m)))
            ∙ held t (omega arith) le
        | inr apart ↦
            redis.set_nx_elsewhere k key other ttl now t db apart ∙ held t (omega arith) le
      ]
  stored-IsHeld key token last deadline (releases k now other) db held l m g t lt le =
      elim (Bool-cases (str_eq k key)) [
        | inl same ↦
            ap (λ o. get key t (released k db (same_token o other)).1)
              (there k key token db same (held now l m))
            ∙ ap (λ b. get key t (released k db b).1) (other_token same g)
            ∙ held t (omega arith) le
        | inr apart ↦ elim (Bool-cases (same_token (get k now db) other)) [
          | inl match ↦
              ap (λ b. get key t (released k db b).1) match
              ∙ (redis.del_elsewhere k key t db apart ∙ held t (omega arith) le)
          | inr other_one ↦
              ap (λ b. get key t (released k db b).1) other_one ∙ held t (omega arith) le
        ]
      ]

  handed_out-IsHeld :
      (key token : String) (last deadline : ℕ) (c : Call) (db : Db)
      → IsHeld key token last deadline db
      → last ≤ time_of c
      → time_of c < deadline
      → handed_out key c db ≡ []
  unfolding IsHeld acquire_lock
  handed_out-IsHeld key token last deadline (acquires k ttl now other) db held l m =
      elim (Bool-cases (str_eq k key)) [
        | inl same ↦ rw (same) (
            ap (λ r. token_list (if r.0 then some other else none))
              (redis.set_nx_held k other token ttl now db
                (there k key token db same (held now l m))))
        | inr apart ↦ rw (apart)
      ]
  handed_out-IsHeld key token last deadline (releases k now other) db held l m = refl

  tokens-IsHeld :
      (key token : String) (last deadline : ℕ) (cs : List Call) (db : Db)
      → IsHeld key token last deadline db
      → Meanwhile key token last deadline cs
      → tokens key cs db ≡ []
  tokens-IsHeld key token last deadline [] db held m = refl
  tokens-IsHeld key token last deadline (c ∷ cs) db held m =
      ap (λ ts. ts ++ tokens key cs (stored c db))
        (handed_out-IsHeld key token last deadline c db held m.0 m.1)
      ∙ tokens-IsHeld key token (time_of c) deadline cs (stored c db)
          (stored-IsHeld key token last deadline c db held m.0 m.1 m.2) m.3

  -- When a lock is acquired, no other call gets a token for its key until the time to live is over or
  -- the lock is released with its own token.
  pub acquire_lock-tokens :
      (key token : String) (ttl now : ℕ) (cs : List Call) (db : Db)
      → (acquire_lock key ttl now token db).0 ≡ some token
      → Meanwhile key token now (now + ttl) cs
      → tokens key cs (acquire_lock key ttl now token db).1 ≡ []
  unfolding acquire_lock IsHeld
  acquire_lock-tokens key token ttl now cs db got m = elim (Option-cases (get key now db)) [
    | inl free ↦
        tokens-IsHeld key token now (now + ttl) cs _
          (λ t lt le. redis.get-set_nx key token ttl now t db free lt ∙ rw (before le)) m
    | inr (w, taken) ↦
        absurd (none_given (ap (λ r. r.0) (redis.set_nx_held key token w ttl now db taken)) got)
  ]
