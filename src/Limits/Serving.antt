-- ===== src/Limits/Serving.antt =====
-- A run of requests through the rate limiter (`acquire` of src/redis/rate-limiter.service.ts).
use model_hub.Common.{
  ℕ, suc, ◌+◌, ◌≤◌, String, List, [], ◌∷◌, Bool, true, false, ◌||◌, ◌≡◌, refl, sym, ap, subst, ◌∙◌,
  str_eq, ltb, leb, if◌then◌else◌, length, arith, Bool-cases, inl, inr, str_eq_iff, str_eq_refl,
}
use model_hub.Common.Int.{pos, ◌-ℤ◌}
use model_hub.Common.OrderedMap.{contains}
use model_hub.Limits.SortedSets.{SortedSets, Members, names, outside}
use model_hub.Limits.Rate.{acquire}
use model_hub.Limits.Window.{
  Request, Answers, let_through, recent, kept, AllBy, InOrder, AllNew, AllBy-later, recent-none,
  let_through-recent, recent_later, length-outside, kept-outside, names-outside,
}

not_there : {a b : Bool} → (a ≡ true → b ≡ true) → b ≡ false → a ≡ false
not_there f h = ground arith

over_by : {t end at : ℕ} → ltb t end ≡ false → t ≤ at → end ≤ at
over_by h l = ground arith

known_or : {b : Bool} (a : Bool) → b ≡ true → (a || b) ≡ true
known_or a h = ground arith

module _ (redis : SortedSets) (max_requests window : ℕ) where
  open redis use {Db, members}

  abbrev pub answer : Request → Db → Bool × Db
  answer r db = acquire redis true r.key max_requests window r.now r.member db

  abbrev pub note : String → Request → Bool → Answers → Answers
  note key r b h = if str_eq r.key key then (r.now, b) ∷ h else h

  -- The requests one after the other; kept are the answers to one key.
  abbrev pub serve : String → List Request → Db → Answers → Answers
  serve key [] db h = h
  serve key (r ∷ rs) db h = serve key rs (answer r db).1 (note key r (answer r db).0 h)

  record IsTracked (key : String) (last : ℕ) (used : List String) (db : Db) (h : Answers)
      : Type 0 where
    counted :
        (t at : ℕ) → last ≤ t → t ≤ at → recent window at h ≤ kept window at (members key t db)
    known :
        (t : ℕ) (m : String)
        → last ≤ t
        → contains m (names (members key t db)) ≡ true
        → contains m used ≡ true
    past : AllBy last h
    bounded : (at : ℕ) → let_through window at h ≤ max_requests

  -- What is stored for the key of a request after it.
  abbrev after : Request → Db → Members
  after r db =
      (r.member, r.now) ∷ outside (pos 0) (pos r.now -ℤ pos window) (members r.key r.now db)

  -- The store when the token is in.
  abbrev added : Request → Db → Db
  added r db =
      redis.zadd r.key r.now r.member r.now
        (redis.zremrangebyscore r.key (pos 0) (pos r.now -ℤ pos window) r.now db)

  members-added :
      (r : Request) (db : Db)
      → contains r.member (names (members r.key r.now db)) ≡ false
      → members r.key r.now (added r db) ≡ after r db
  members-added r db fresh =
      let cleaned =
        redis.members-zremrangebyscore r.key (pos 0) (pos r.now -ℤ pos window) r.now db in
      let still : contains r.member
            (names (outside (pos 0) (pos r.now -ℤ pos window) (members r.key r.now db)))
          ≡ false =
        not_there
          (names-outside (pos 0) (pos r.now -ℤ pos window) r.member (members r.key r.now db))
          fresh in
      redis.members-zadd r.key r.now r.member r.now _
        (ap (λ ms. contains r.member (names ms)) cleaned ∙ still)
      ∙ ap (λ ms. (r.member, r.now) ∷ ms) cleaned

  members-answer :
      (r : Request) (t : ℕ) (db : Db)
      → contains r.member (names (members r.key r.now db)) ≡ false
      → r.now ≤ t
      → members r.key t (answer r db).1 ≡ (if ltb t (r.now + window) then after r db else [])
  unfolding acquire
  members-answer r t db fresh l =
      redis.members-pexpire r.key window r.now t (added r db) l
      ∙ ap (λ ms. if ltb t (r.now + window) then ms else []) (members-added r db fresh)

  answer-count :
      (r : Request) (db : Db)
      → contains r.member (names (members r.key r.now db)) ≡ false
      → (answer r db).0 ≡ leb (suc (kept window r.now (members r.key r.now db))) max_requests
  unfolding acquire
  answer-count r db fresh =
      ap (λ n. leb n max_requests)
        (redis.zcard-members r.key r.now (added r db)
          ∙ ap length (members-added r db fresh)
          ∙ ap suc (length-outside r.now window (members r.key r.now db)))

  members_elsewhere :
      (r : Request) (j : String) (t : ℕ) (db : Db)
      → str_eq r.key j ≡ false
      → members j t (answer r db).1 ≡ members j t db
  unfolding acquire
  members_elsewhere r j t db h =
      redis.pexpire_elsewhere r.key j window r.now t (added r db) h
      ∙ redis.zadd_elsewhere r.key j r.now r.member r.now t _ h
      ∙ redis.zremrangebyscore_elsewhere r.key j (pos 0) (pos r.now -ℤ pos window) r.now t db h

  own_counted :
      (r : Request) (last : ℕ) (used : List String) (db : Db) (h : Answers) (b : Bool) (t at : ℕ)
      → IsTracked r.key last used db h
      → last ≤ r.now
      → r.now ≤ t
      → t ≤ at
      → recent window at ((r.now, b) ∷ h)
        ≤ kept window at (if ltb t (r.now + window) then after r db else [])
  own_counted r last used db h b t at i l lt le = elim (Bool-cases (ltb t (r.now + window))) [
    | inl still ↦ rw (still) (
        ground (
          arith,
          kept-outside r.now window at (members r.key r.now db) (omega arith),
          i.counted r.now at l (omega arith),
        ))
    | inr over ↦ rw (over) (
        omega (
          arith,
          recent-none window r.now at ((r.now, b) ∷ h)
              (omega arith, AllBy-later last r.now h l i.past) (over_by over le),
        ))
  ]

  own_known :
      (r : Request) (last : ℕ) (used : List String) (db : Db) (h : Answers) (t : ℕ) (m : String)
      → IsTracked r.key last used db h
      → last ≤ r.now
      → contains m (names (if ltb t (r.now + window) then after r db else [])) ≡ true
      → contains m (r.member ∷ used) ≡ true
  own_known r last used db h t m i l there = ground (
    arith,
    names-outside (pos 0) (pos r.now -ℤ pos window) m (members r.key r.now db),
    i.known r.now m l,
  )

  own_bounded :
      (r : Request) (last : ℕ) (used : List String) (db : Db) (h : Answers) (at : ℕ)
      → IsTracked r.key last used db h
      → last ≤ r.now
      → contains r.member (names (members r.key r.now db)) ≡ false
      → let_through window at ((r.now, (answer r db).0) ∷ h) ≤ max_requests
  own_bounded r last used db h at i l new = ground (
    arith,
    answer-count r db new,
    i.bounded at,
    let_through-recent window at h,
    recent_later window r.now at h,
    i.counted r.now r.now l,
  )

  -- A request to the key.
  own-IsTracked :
      (r : Request) (last : ℕ) (used : List String) (db : Db) (h : Answers)
      → IsTracked r.key last used db h
      → last ≤ r.now
      → contains r.member used ≡ false
      → IsTracked r.key r.now (r.member ∷ used) (answer r db).1 ((r.now, (answer r db).0) ∷ h)
  own-IsTracked r last used db h i l fresh =
      let new = not_there (i.known r.now r.member l) fresh in
      record {
        counted = λ t at lt le.
            subst (λ ms. recent window at ((r.now, (answer r db).0) ∷ h) ≤ kept window at ms)
              (sym (members-answer r t db new lt))
              (own_counted r last used db h (answer r db).0 t at i l lt le);
        known = λ t m lt there.
            own_known r last used db h t m i l
              (subst (λ ms. contains m (names ms) ≡ true) (members-answer r t db new lt) there);
        past = (omega arith, AllBy-later last r.now h l i.past);
        bounded = λ at. own_bounded r last used db h at i l new;
      }

  -- A request to another key.
  other-IsTracked :
      (key : String) (r : Request) (last : ℕ) (used : List String) (db : Db) (h : Answers)
      → str_eq r.key key ≡ false
      → IsTracked key last used db h
      → last ≤ r.now
      → IsTracked key r.now (r.member ∷ used) (answer r db).1 h
  other-IsTracked key r last used db h apart i l = record {
    counted =
        λ t at lt le. rw (members_elsewhere r key t db apart) (i.counted t at (omega arith) le);
    known = λ t m lt there. known_or (str_eq r.member m) (
        i.known t m (omega arith)
          (subst (λ ms. contains m (names ms) ≡ true) (members_elsewhere r key t db apart) there));
    past = AllBy-later last r.now h l i.past;
    bounded = i.bounded;
  }

  step-IsTracked :
      (key : String) (r : Request) (last : ℕ) (used : List String) (db : Db) (h : Answers)
      → IsTracked key last used db h
      → last ≤ r.now
      → contains r.member used ≡ false
      → IsTracked key r.now (r.member ∷ used) (answer r db).1 (note key r (answer r db).0 h)
  step-IsTracked key r last used db h i l fresh = elim (Bool-cases (str_eq r.key key)) [
    | inl same ↦
        subst
          (λ k.
            IsTracked k last used db h
            → IsTracked k r.now (r.member ∷ used) (answer r db).1 (note k r (answer r db).0 h))
          ((str_eq_iff r.key key).0 same)
          (λ own. rw (str_eq_refl r.key) (own-IsTracked r last used db h own l fresh)) i
    | inr apart ↦ rw (apart) (other-IsTracked key r last used db h apart i l)
  ]

  serve-bounded :
      (key : String) (rs : List Request) (last : ℕ) (used : List String) (db : Db) (h : Answers)
      (at : ℕ)
      → IsTracked key last used db h
      → InOrder last rs
      → AllNew used rs
      → let_through window at (serve key rs db h) ≤ max_requests
  serve-bounded key [] last used db h at i o n = i.bounded at
  serve-bounded key (r ∷ rs) last used db h at i o n =
      serve-bounded key rs r.now (r.member ∷ used) (answer r db).1 (note key r (answer r db).0 h) at
        (step-IsTracked key r last used db h i o.0 n.0) o.1 n.1

  -- Where Redis answers every request (a request without an answer is let through), nothing is stored
  -- for the key at first, the requests come in the order of their times and no token comes twice, at
  -- most `max_requests` requests to the key are let through in any window of
  -- time, whatever is asked for other keys.
  pub serve-let_through :
      (key : String) (rs : List Request) (start : ℕ) (db : Db) (at : ℕ)
      → ((t : ℕ) → members key t db ≡ [])
      → InOrder start rs
      → AllNew [] rs
      → let_through window at (serve key rs db []) ≤ max_requests
  serve-let_through key rs start db at empty o n =
      serve-bounded key rs start [] db [] at
        (record {
          counted = λ t at lt le. omega arith;
          known = λ t m lt there. subst (λ ms. contains m (names ms) ≡ true) (empty t) there;
          past = refl;
          bounded = λ at. omega arith;
        })
        o n
