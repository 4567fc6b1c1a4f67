-- ===== src/Pool/Fairness.antt =====
-- How often an account is selected in a run of selections
-- (src/provider/account-pool/strategies/weighted-round-robin.strategy.ts).
use model_hub.Common.{
  ℕ, zero, suc, String, List, [], ◌∷◌, true, false, Option, none, some, ◌≡◌, refl, sym, ap, ◌∙◌,
  subst, arith, inl, inr, length, str_eq, str_eq_iff, if◌then◌else◌, Bool-cases,
}
use model_hub.Common.Int.{ℤ, pos, ◌+ℤ◌, ◌≤ℤ◌, ◌<ℤ◌, leb_ℤ, leb_ℤ→lt, leb_ℤ→≤ℤ, ≤ℤ→leb_ℤ}
use model_hub.Common.OrderedMap.{contains, Distinct}
use model_hub.Pool.{AccountEntry, weight_of, Weights, current, total_weight, select}
use model_hub.Pool.Sums.{
  sum_over, sum_over-eq, sum_over-add, total_weight-share, sum_over-paid, sum_over-positive,
  zero_add, cancel, low_paid, low_kept, sum_over-zero, owed_paid, owed_kept, owed_bound, times,
  sum_over-const, sum_over-member, owed_lower,
}
use model_hub.Pool.Weights.{ids, share, IsSelection, select-IsSelection}

-- The ids that a number of selections give, and the weights after them.
abbrev noted : Option AccountEntry → List String → List String
noted none more = more
noted (some a) more = a.id ∷ more

unfoldable pub serve : ℕ → List AccountEntry → Weights → List String × Weights
serve zero rest ws = ([], ws)
serve (suc n) rest ws =
    let (picked, after) = select rest ws in
    let (more, final) = serve n rest after in (noted picked more, final)

unfoldable pub count : String → List String → ℕ
count i [] = 0
count i (x ∷ xs) = if str_eq x i then suc (count i xs) else count i xs

abbrev pub NonNegative : List AccountEntry → Type 0
NonNegative [] = true ≡ true
NonNegative (a ∷ rest) = (pos 0 ≤ℤ weight_of a) × NonNegative rest

-- Between selections: nothing is owed in total, and no weight is down by the total or more.
record IsBalanced (rest : List AccountEntry) (ws : Weights) : Type 0 where
  balanced : sum_over (λ i. current i ws) rest ≡ pos 0
  low : (i : String) → contains i (ids rest) ≡ true → pos 0 <ℤ (current i ws +ℤ total_weight rest)

share-NonNegative :
    (rest : List AccountEntry) (i : String) → NonNegative rest → pos 0 ≤ℤ share i rest
share-NonNegative [] i h = omega arith
share-NonNegative (a ∷ rest) i (here, later) = elim (Bool-cases (str_eq a.id i)) [
  | inl same ↦ rw (same) here
  | inr other ↦ rw (other) (share-NonNegative rest i later)
]

-- What is owed to one account, at most.
IsBalanced-owed :
    (rest : List AccountEntry) (ws : Weights) (i : String)
    → IsBalanced rest ws
    → contains i (ids rest) ≡ true
    → (current i ws +ℤ total_weight rest) ≤ℤ times (length rest) (total_weight rest)
IsBalanced-owed rest ws i h e =
    let w = total_weight rest in
    let sum : sum_over (λ j. current j ws +ℤ w) rest ≡ times (length rest) w =
      sum_over-add (λ j. current j ws) (λ _. w) rest
      ∙ rw (h.balanced, sum_over-const w rest) (zero_add (times (length rest) w)) in
    subst (λ z. (current i ws +ℤ w) ≤ℤ z) sum
      (sum_over-member (λ j. current j ws +ℤ w) rest i (λ j k. let low = h.low j k in omega arith)
        e)

module _ (a b : AccountEntry) (others : List AccountEntry) (d : Distinct (ids (a ∷ b ∷ others)))
    (positive : leb_ℤ (total_weight (a ∷ b ∷ others)) (pos 0) ≡ false) where
  abbrev accounts : List AccountEntry
  accounts = a ∷ b ∷ others

  abbrev total : ℤ
  total = total_weight accounts

  top-positive :
      (ws : Weights) (c : AccountEntry)
      → IsSelection accounts ws c
      → IsBalanced accounts ws
      → pos 0 <ℤ (current c.id ws +ℤ share c.id accounts)
  top-positive ws c s h =
      let top = current c.id ws +ℤ share c.id accounts in
      let spread = sum_over-add (λ i. current i ws) (λ i. share i accounts) accounts in
      let shares = total_weight-share accounts d in
      let sum : sum_over (λ i. current i ws +ℤ share i accounts) accounts ≡ total =
        spread ∙ rw (shares, h.balanced) (zero_add total) in
      elim (Bool-cases (leb_ℤ top (pos 0))) [
        | inr above ↦ leb_ℤ→lt top (pos 0) above
        | inl below ↦
            let small =
              sum_over-positive (λ i. current i ws +ℤ share i accounts) top accounts s.highest
                (leb_ℤ→≤ℤ top (pos 0) below) in
            let nothing = subst (λ z. z ≤ℤ pos 0) sum small in
            let contra = ≤ℤ→leb_ℤ total (pos 0) nothing in cc
      ]

  select-IsBalanced :
      (ws : Weights) (c : AccountEntry)
      → NonNegative accounts
      → IsSelection accounts ws c
      → IsBalanced accounts ws
      → IsBalanced accounts (select accounts ws).1
  select-IsBalanced ws c weights s h =
      let spread = sum_over-add (λ i. current i ws) (λ i. share i accounts) accounts in
      let shares = total_weight-share accounts d in
      record {
        balanced =
            sum_over-eq (λ i. current i (select accounts ws).1) _ accounts (λ i e. s.weights i)
            ∙ sum_over-paid (λ i. current i ws +ℤ share i accounts) c.id total accounts d
            ∙ rw (s.member, spread, shares, h.balanced) (cancel total);
        low = λ i e.
            subst (λ z. pos 0 <ℤ (z +ℤ total)) (sym (s.weights i))
              (elim (Bool-cases (str_eq c.id i)) [
                | inl same ↦ rw (same) (
                    low_paid (current i ws +ℤ share i accounts) total (
                      subst (λ j. pos 0 <ℤ (current j ws +ℤ share j accounts))
                        ((str_eq_iff c.id i).0 same) (top-positive ws c s h)))
                | inr other ↦ rw (other) (
                    low_kept (current i ws) (share i accounts) total (h.low i e)
                      (share-NonNegative accounts i weights))
              ]);
      }

  -- One selection, as the first of a run.
  serve_turn :
      (n : ℕ) (ws : Weights) (c : AccountEntry)
      → (select accounts ws).0 ≡ some c
      → serve (suc n) accounts ws ≡ (
        c.id ∷ (serve n accounts (select accounts ws).1).0,
        (serve n accounts (select accounts ws).1).1,
      )
  unfolding serve
  serve_turn n ws c h = rw (h, serve) refl

  -- What an account has been served and what it is still owed is what it earned.
  abbrev Served : ℕ → Weights → String → List String × Weights → Type 0
  Served n ws i r =
      (length r.0 ≡ n)
      × (current i r.1 +ℤ times (count i r.0) total ≡ current i ws +ℤ times n (share i accounts))
      × IsBalanced accounts r.1

  owed-turn :
      (n : ℕ) (ws : Weights) (i : String) (c : AccountEntry) (r : List String × Weights)
      → IsSelection accounts ws c
      → current i r.1 +ℤ times (count i r.0) total
        ≡ current i (select accounts ws).1 +ℤ times n (share i accounts)
      → current i r.1 +ℤ times (count i (c.id ∷ r.0)) total
        ≡ current i ws +ℤ times (suc n) (share i accounts)
  unfolding times count
  owed-turn n ws i c r s owed = elim (Bool-cases (str_eq c.id i)) [
    | inl same ↦ rw (same) (
        owed_paid (current i r.1) (times (count i r.0) total) total (current i ws)
          (share i accounts) (times n (share i accounts)) (owed ∙ rw (s.weights i, same) refl))
    | inr other ↦ rw (other) (
        owed_kept (current i r.1) (times (count i r.0) total) (current i ws) (share i accounts)
          (times n (share i accounts)) (owed ∙ rw (s.weights i, other) refl))
  ]

  serve-Served :
      (n : ℕ) (ws : Weights) (i : String)
      → NonNegative accounts
      → IsBalanced accounts ws
      → Served n ws i (serve n accounts ws)
  unfolding serve times count
  serve-Served zero ws i weights h = (refl, refl, h)
  serve-Served (suc n) ws i weights h =
      let (c, s) = select-IsSelection a b others ws d positive in
      let after = (select accounts ws).1 in
      let (len, owed, kept) = serve-Served n after i weights (select-IsBalanced ws c weights s h) in
      subst (Served (suc n) ws i) (sym (serve_turn n ws c s.selected))
        (ap suc len, owed-turn n ws i c (serve n accounts after) s owed, kept)

  start-IsBalanced : IsBalanced accounts []
  start-IsBalanced = record {
    balanced = sum_over-zero accounts;
    low = λ i e. subst (λ z. pos 0 <ℤ z) (sym (zero_add total)) (leb_ℤ→lt total (pos 0) positive);
  }

  -- Of a run of selections among two accounts or more, with different ids, weights that are not
  -- negative and a positive total, from the start: each selection names an account, and every account
  -- gets its part of the total up to one selection more, or up to as many fewer as there are other
  -- accounts. Both bounds are multiplied by the total.
  pub serve-share :
      (n : ℕ) (i : String)
      → NonNegative accounts
      → contains i (ids accounts) ≡ true
      → let served = times (count i (serve n accounts []).0) total in
        (length (serve n accounts []).0 ≡ n)
        × (served <ℤ (times n (share i accounts) +ℤ total))
        × ((times n (share i accounts) +ℤ total) ≤ℤ (served +ℤ times (length accounts) total))
  serve-share n i weights member =
      let f = current i (serve n accounts []).1 in
      let t = times (count i (serve n accounts []).0) total in
      let (len, owed, kept) = serve-Served n [] i weights start-IsBalanced in
      (
        len,
        owed_bound f t (times n (share i accounts)) total owed (kept.low i member),
        owed_lower f t (times n (share i accounts)) total (times (length accounts) total) owed
            (IsBalanced-owed accounts (serve n accounts []).1 i kept member),
      )
