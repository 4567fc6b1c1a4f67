-- ===== src/Pool/Sums.antt =====
-- Sums of running weights over the accounts, and the arithmetic of a payment.
use model_hub.Common.{
  ℕ, zero, suc, length, subst, str_eq_iff, String, List, [], ◌∷◌, true, ◌≡◌, refl, sym, ap, ◌∙◌,
  arith, inl, inr, str_eq, str_eq_refl, if◌then◌else◌, Bool-cases,
}
use model_hub.Common.Int.{ℤ, pos, ◌+ℤ◌, ◌-ℤ◌, ◌≤ℤ◌, ◌<ℤ◌, int_laws, pos_part, neg_part, +ℤ_parts}
use model_hub.Common.OrderedMap.{contains, contains-eq, Distinct, str_eq_sym}
use model_hub.Pool.{AccountEntry, weight_of, current, total_weight}
use model_hub.Pool.Weights.{ids, share}

pub sum_over : (String → ℤ) → List AccountEntry → ℤ
sum_over f [] = pos 0
sum_over f (a ∷ rest) = f a.id +ℤ sum_over f rest

pub sum_over-eq :
    (f g : String → ℤ) (l : List AccountEntry)
    → ((i : String) → contains i (ids l) ≡ true → f i ≡ g i)
    → sum_over f l ≡ sum_over g l
unfolding sum_over
sum_over-eq f g [] h = refl
sum_over-eq f g (a ∷ rest) h =
    rw
      (
        h a.id (rw (str_eq_refl a.id) refl),
        sum_over-eq f g rest (λ i e. h i (rw (e) (ground arith))),
      )
      refl

pub sum_over-add :
    (f g : String → ℤ) (l : List AccountEntry)
    → sum_over (λ i. f i +ℤ g i) l ≡ sum_over f l +ℤ sum_over g l
unfolding sum_over
sum_over-add f g [] = grind int_laws
sum_over-add f g (a ∷ rest) = let h = sum_over-add f g rest in grind int_laws

pub total_weight-share :
    (l : List AccountEntry) → Distinct (ids l) → sum_over (λ i. share i l) l ≡ total_weight l
unfolding sum_over
total_weight-share [] d = refl
total_weight-share (a ∷ rest) (once, d) = rw (str_eq_refl a.id) (
    ap (λ z. weight_of a +ℤ z)
      (sum_over-eq (λ i. share i (a ∷ rest)) (λ i. share i rest) rest
          (λ i h. ground (arith, contains-eq a.id i (ids rest)))
        ∙ total_weight-share rest d))

-- The total is paid once, by the winner.
pub sum_over-paid :
    (f : String → ℤ) (k : String) (w : ℤ) (l : List AccountEntry)
    → Distinct (ids l)
    → sum_over (λ i. f i -ℤ (if str_eq k i then w else pos 0)) l
      ≡ (sum_over f l -ℤ (if contains k (ids l) then w else pos 0))
unfolding sum_over
sum_over-paid f k w [] d = grind int_laws
sum_over-paid f k w (a ∷ rest) (once, d) =
    let later = sum_over-paid f k w rest d in
    elim (Bool-cases (str_eq a.id k)) [
      | inl same ↦
          rw (later, same, str_eq_sym k a.id, same, sym (contains-eq a.id k (ids rest) same), once)
            (grind int_laws)
      | inr other ↦
          rw (later, other, str_eq_sym k a.id, other)
            (elim (Bool-cases (contains k (ids rest))) [
              | inl there ↦ rw (there) (grind int_laws)
              | inr missing ↦ rw (missing) (grind int_laws)
            ])
    ]

pub sum_over-positive :
    (f : String → ℤ) (top : ℤ) (l : List AccountEntry)
    → ((i : String) → contains i (ids l) ≡ true → f i ≤ℤ top)
    → top ≤ℤ pos 0
    → sum_over f l ≤ℤ pos 0
unfolding sum_over
sum_over-positive f top [] h low = omega arith
sum_over-positive f top (a ∷ rest) h low =
    let here = h a.id (rw (str_eq_refl a.id) refl) in
    let later = sum_over-positive f top rest (λ i e. h i (rw (e) (ground arith))) low in
    omega int_laws

pub zero_add : (w : ℤ) → pos 0 +ℤ w ≡ w
zero_add w = grind int_laws

pub cancel : (w : ℤ) → (pos 0 +ℤ w) -ℤ w ≡ pos 0
cancel w = grind int_laws

pub low_paid : (t w : ℤ) → pos 0 <ℤ t → pos 0 <ℤ ((t -ℤ w) +ℤ w)
low_paid t w h = omega int_laws

pub low_kept : (x s w : ℤ) → pos 0 <ℤ (x +ℤ w) → pos 0 ≤ℤ s → pos 0 <ℤ (((x +ℤ s) -ℤ pos 0) +ℤ w)
low_kept x s w h k = omega int_laws

pub sum_over-zero : (l : List AccountEntry) → sum_over (λ i. current i []) l ≡ pos 0
unfolding sum_over
sum_over-zero [] = refl
sum_over-zero (a ∷ rest) = zero_add (sum_over (λ i. current i []) rest) ∙ sum_over-zero rest

pub owed_paid : (f t w x s n : ℤ) → f +ℤ t ≡ ((x +ℤ s) -ℤ w) +ℤ n → f +ℤ (t +ℤ w) ≡ x +ℤ (n +ℤ s)
owed_paid f t w x s n h = grind int_laws

pub owed_kept : (f t x s n : ℤ) → f +ℤ t ≡ ((x +ℤ s) -ℤ pos 0) +ℤ n → f +ℤ t ≡ x +ℤ (n +ℤ s)
owed_kept f t x s n h = grind int_laws

pub owed_bound : (f t n w : ℤ) → f +ℤ t ≡ pos 0 +ℤ n → pos 0 <ℤ (f +ℤ w) → t <ℤ (n +ℤ w)
owed_bound f t n w h low = omega (
  arith,
  ap pos_part h,
  ap neg_part h,
  +ℤ_parts f t,
  +ℤ_parts (pos 0) n,
  +ℤ_parts f w,
  +ℤ_parts n w,
)

-- A weight, so many times.
unfoldable pub times : ℕ → ℤ → ℤ
times zero z = pos 0
times (suc n) z = times n z +ℤ z

add_comm : (a b : ℤ) → a +ℤ b ≡ b +ℤ a
add_comm a b = grind int_laws

pub sum_over-const : (w : ℤ) (l : List AccountEntry) → sum_over (λ _. w) l ≡ times (length l) w
unfolding sum_over times
sum_over-const w [] = refl
sum_over-const w (a ∷ rest) = rw (sum_over-const w rest) (add_comm w (times (length rest) w))

sum_over-NonNegative :
    (f : String → ℤ) (l : List AccountEntry)
    → ((i : String) → contains i (ids l) ≡ true → pos 0 ≤ℤ f i)
    → pos 0 ≤ℤ sum_over f l
unfolding sum_over
sum_over-NonNegative f [] h = omega arith
sum_over-NonNegative f (a ∷ rest) h =
    let here = h a.id (rw (str_eq_refl a.id) refl) in
    let later = sum_over-NonNegative f rest (λ i e. h i (rw (e) (ground arith))) in omega int_laws

pub sum_over-member :
    (f : String → ℤ) (l : List AccountEntry) (i : String)
    → ((j : String) → contains j (ids l) ≡ true → pos 0 ≤ℤ f j)
    → contains i (ids l) ≡ true
    → f i ≤ℤ sum_over f l
unfolding sum_over
sum_over-member f [] i h e = cc
sum_over-member f (a ∷ rest) i h e = elim (Bool-cases (str_eq a.id i)) [
  | inl same ↦
      let later = sum_over-NonNegative f rest (λ j k. h j (rw (k) (ground arith))) in
      subst (λ j. f j ≤ℤ (f a.id +ℤ sum_over f rest)) ((str_eq_iff a.id i).0 same) (omega int_laws)
  | inr other ↦
      let here = h a.id (rw (str_eq_refl a.id) refl) in
      let inside = sum_over-member f rest i (λ j k. h j (rw (k) (ground arith))) (ground arith) in
      omega int_laws
]

pub owed_lower : (f t n w k : ℤ) → f +ℤ t ≡ pos 0 +ℤ n → (f +ℤ w) ≤ℤ k → (n +ℤ w) ≤ℤ (t +ℤ k)
owed_lower f t n w k h low = omega (
  arith,
  ap pos_part h,
  ap neg_part h,
  +ℤ_parts f t,
  +ℤ_parts (pos 0) n,
  +ℤ_parts f w,
  +ℤ_parts n w,
  +ℤ_parts t k,
)
