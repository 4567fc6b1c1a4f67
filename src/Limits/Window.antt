-- ===== src/Limits/Window.antt =====
-- How many requests the rate limiter lets through in a window of time (`acquire` of
-- src/redis/rate-limiter.service.ts).
use model_hub.Common.{
  ℕ, suc, ◌+◌, ◌≤◌, String, List, [], ◌∷◌, Bool, true, false, not, ◌&&◌, ◌≡◌, refl, ltb, leb,
  if◌then◌else◌, length, arith,
}
use model_hub.Common.Int.{ℤ, pos, ◌-ℤ◌, leb_ℤ, int_laws}
use model_hub.Common.OrderedMap.{contains}
use model_hub.Limits.SortedSets.{Members, names, outside}

pub record Request : Type 0 where
  pub key : String
  pub now : ℕ
  pub member : String

-- The answers so far, the newest first, each with its time.
abbrev pub Answers : Type 0
Answers = List (ℕ × Bool)

-- How many were let through in the window that ends at a time.
abbrev pub let_through : ℕ → ℕ → Answers → ℕ
let_through window at [] = 0
let_through window at ((s, b) ∷ h) =
    if b && (leb s at && ltb at (s + window))
    then suc (let_through window at h)
    else let_through window at h

abbrev pub recent : ℕ → ℕ → Answers → ℕ
recent window at [] = 0
recent window at ((s, b) ∷ h) =
    if ltb at (s + window) then suc (recent window at h) else recent window at h

abbrev pub kept : ℕ → ℕ → Members → ℕ
kept window at [] = 0
kept window at ((m, s) ∷ r) =
    if ltb at (s + window) then suc (kept window at r) else kept window at r

abbrev pub AllBy : ℕ → Answers → Type 0
AllBy last [] = true ≡ true
AllBy last ((s, b) ∷ h) = (s ≤ last) × AllBy last h

-- The requests come in the order of their times, and no token comes twice.
abbrev pub InOrder : ℕ → List Request → Type 0
InOrder last [] = true ≡ true
InOrder last (r ∷ rs) = (last ≤ r.now) × InOrder r.now rs

abbrev pub AllNew : List String → List Request → Type 0
AllNew used [] = true ≡ true
AllNew used (r ∷ rs) = (contains r.member used ≡ false) × AllNew (r.member ∷ used) rs

pub AllBy-later : (m n : ℕ) (h : Answers) → m ≤ n → AllBy m h → AllBy n h
AllBy-later m n [] l a = refl
AllBy-later m n ((s, b) ∷ h) l (first, rest) = (omega arith, AllBy-later m n h l rest)

pub recent-none :
    (window last at : ℕ) (h : Answers) → AllBy last h → last + window ≤ at → recent window at h ≡ 0
recent-none window last at [] a l = refl
recent-none window last at ((s, b) ∷ h) (first, rest) l =
    ground (arith, recent-none window last at h rest l)

pub let_through-recent :
    (window at : ℕ) (h : Answers) → let_through window at h ≤ recent window at h
let_through-recent window at [] = omega arith
let_through-recent window at ((s, b) ∷ h) = ground (arith, let_through-recent window at h)

pub recent_later :
    (window at later : ℕ) (h : Answers) → at ≤ later → recent window later h ≤ recent window at h
recent_later window at later [] l = omega arith
recent_later window at later ((s, b) ∷ h) l = ground (arith, recent_later window at later h l)

older :
    (s now window : ℕ)
    → (leb_ℤ (pos 0) (pos s) && leb_ℤ (pos s) (pos now -ℤ pos window)) ≡ not (ltb now (s + window))
older s now window = grind int_laws

pub length-outside :
    (now window : ℕ) (ms : Members)
    → length (outside (pos 0) (pos now -ℤ pos window) ms) ≡ kept window now ms
length-outside now window [] = refl
length-outside now window ((m, s) ∷ r) =
    ground (arith, older s now window, length-outside now window r)

pub kept-outside :
    (now window at : ℕ) (ms : Members)
    → now ≤ at
    → kept window at (outside (pos 0) (pos now -ℤ pos window) ms) ≡ kept window at ms
kept-outside now window at [] l = refl
kept-outside now window at ((m, s) ∷ r) l =
    ground (arith, older s now window, kept-outside now window at r l)

pub names-outside :
    (lo hi : ℤ) (x : String) (ms : Members)
    → contains x (names (outside lo hi ms)) ≡ true
    → contains x (names ms) ≡ true
names-outside lo hi x [] h = h
names-outside lo hi x ((m, s) ∷ r) h = ground (arith, names-outside lo hi x r)
