-- ===== src/Expression/Levels.antt =====
-- The six levels of binary operators as one function of the level, 0 for `parseUnary` and 6 for
-- `parseOr` (src/workflow/safe-expression.service.ts); which fuel is left does not matter.
use model_hub.Common.{
  ℕ, zero, suc, ◌≤◌, ◌<◌, List, [], ◌∷◌, ◌≡◌, refl, arith, length, Bool-cases, inl, inr,
}
use model_hub.Expression.Types.{Text, Result, ok, failed, out_of_fuel, ◌>>=◌, Value, Language}
use model_hub.Expression.Parser.{
  Tokens, current, rest_of, is_operator, Parser, loop, level, parse_unary, parse_or, or_operators,
  and_operators, equality_operators, comparison_operators, additive_operators,
  multiplicative_operators,
}
use model_hub.Expression.Operators.{
  combine_or, combine_and, combine_equality, combine_comparison, combine_additive,
  combine_multiplicative,
}
use model_hub.Expression.Fuel.{Shorter, IsGood, level-IsGood, parse_unary-IsGood}
use model_hub.Expression.Answering.{
  AlwaysAnswers, combine_or-AlwaysAnswers, combine_and-AlwaysAnswers,
  combine_equality-AlwaysAnswers, combine_comparison-AlwaysAnswers, combine_additive-AlwaysAnswers,
  combine_multiplicative-AlwaysAnswers,
}
use model_hub.Expression.Ends.{Ends, is_operator-lt}

module _ {ℓ κ} {A : Type ℓ} {B : Type κ} where
  -- Two continuations that agree on what a run gives.
  pub Ends-cong :
      (P : A → Type 0) (r : Result A) (k m : A → Result B)
      → Ends P r
      → ((a : A) → P a → k a ≡ m a)
      → r >>= k ≡ r >>= m
  Ends-cong P (ok a) k m h e = e a h
  Ends-cong P (failed x) k m h e = refl
  Ends-cong P out_of_fuel k m h e = refl

  pub bind_cong : (r : Result A) (k m : A → Result B) → ((a : A) → k a ≡ m a) → r >>= k ≡ r >>= m
  bind_cong (ok a) k m e = e a
  bind_cong (failed x) k m e = refl
  bind_cong out_of_fuel k m e = refl

pub bind_ok {ℓ} : {A : Type ℓ} (r : Result A) → (r >>= λ a. ok a) ≡ r
bind_ok (ok a) = refl
bind_ok (failed x) = refl
bind_ok out_of_fuel = refl

pub bind_assoc {ℓ κ λ'} :
    {A : Type ℓ} {B : Type κ} {C : Type λ'} (r : Result A) (k : A → Result B) (m : B → Result C)
    → r >>= k >>= m ≡ r >>= λ a. k a >>= m
bind_assoc (ok a) k m = refl
bind_assoc (failed x) k m = refl
bind_assoc out_of_fuel k m = refl

abbrev pub operators_of : ℕ → List Text
operators_of zero = multiplicative_operators
operators_of (suc zero) = additive_operators
operators_of (suc (suc zero)) = comparison_operators
operators_of (suc (suc (suc zero))) = equality_operators
operators_of (suc (suc (suc (suc zero)))) = and_operators
operators_of _ = or_operators

module _ (js : Language) where
  open js use {N}

  abbrev pub combine_of : ℕ → Text → Value N → Value N → Result (Value N)
  combine_of zero = combine_multiplicative js
  combine_of (suc zero) = combine_additive js
  combine_of (suc (suc zero)) = combine_comparison js
  combine_of (suc (suc (suc zero))) = combine_equality js
  combine_of (suc (suc (suc (suc zero)))) = combine_and js
  combine_of _ = combine_or js

  unfoldable pub parse_from : ℕ → Parser js → ℕ → Parser js
  parse_from f primary zero = parse_unary js f primary
  parse_from f primary (suc n) = level js f (operators_of n) (combine_of n) (parse_from f primary n)

  pub parse_or-parse_from :
      (f : ℕ) (primary : Parser js) → parse_or js f primary ≡ parse_from f primary 6
  unfolding parse_from
  parse_or-parse_from f primary = refl

  combine_of-AlwaysAnswers : (n : ℕ) → AlwaysAnswers js (combine_of n)
  combine_of-AlwaysAnswers zero = combine_multiplicative-AlwaysAnswers js
  combine_of-AlwaysAnswers (suc zero) = combine_additive-AlwaysAnswers js
  combine_of-AlwaysAnswers (suc (suc zero)) = combine_comparison-AlwaysAnswers js
  combine_of-AlwaysAnswers (suc (suc (suc zero))) = combine_equality-AlwaysAnswers js
  combine_of-AlwaysAnswers (suc (suc (suc (suc zero)))) = combine_and-AlwaysAnswers js
  combine_of-AlwaysAnswers (suc (suc (suc (suc (suc n))))) = combine_or-AlwaysAnswers js

  pub parse_from-IsGood :
      (f : ℕ) (primary : Parser js)
      → IsGood js f primary
      → (n : ℕ) → IsGood js f (parse_from f primary n)
  unfolding parse_from
  parse_from-IsGood f primary p zero =
      λ ts h. parse_unary-IsGood js f primary p f ts h (omega arith)
  parse_from-IsGood f primary p (suc n) =
      level-IsGood js f (operators_of n) (combine_of n) _ (combine_of-AlwaysAnswers n)
        (parse_from-IsGood f primary p n)

  pub loop-fuel :
      (f g h : ℕ) (operators : List Text) (combine : Text → Value N → Value N → Result (Value N))
      (next : Parser js) (value : Value N) (ts : Tokens)
      → IsGood js h next
      → length ts < h
      → length ts ≤ f
      → length ts ≤ g
      → loop js f operators combine next value ts ≡ loop js g operators combine next value ts
  unfolding loop
  loop-fuel zero zero h operators combine next value ts n l lf lg = refl
  loop-fuel zero (suc g) h operators combine next value [] n l lf lg = refl
  loop-fuel zero (suc g) h operators combine next value (t ∷ ts) n l lf lg = absurd (omega arith)
  loop-fuel (suc f) zero h operators combine next value [] n l lf lg = refl
  loop-fuel (suc f) zero h operators combine next value (t ∷ ts) n l lf lg = absurd (omega arith)
  loop-fuel (suc f) (suc g) h operators combine next value ts n l lf lg =
      elim (Bool-cases (is_operator operators ts)) [
        | inr off ↦ rw (off)
        | inl here ↦ rw (here) (
            Ends-cong (Shorter js (length (rest_of ts))) (next (rest_of ts)) _ _
              (n (rest_of ts) (omega (arith, is_operator-lt operators ts here)))
              λ (right, ts') less.
                bind_cong (combine (current ts).value value right) _ _ λ combined.
                  let fewer = is_operator-lt operators ts here in
                  loop-fuel f g h operators combine next combined ts' n (omega arith) (omega arith)
                    (omega arith))
      ]

  pub parse_unary-fuel :
      (f g : ℕ) (primary : Parser js) (ts : Tokens)
      → length ts ≤ f
      → length ts ≤ g
      → parse_unary js f primary ts ≡ parse_unary js g primary ts
  unfolding parse_unary
  parse_unary-fuel zero zero primary ts lf lg = refl
  parse_unary-fuel zero (suc g) primary [] lf lg = refl
  parse_unary-fuel zero (suc g) primary (t ∷ ts) lf lg = absurd (omega arith)
  parse_unary-fuel (suc f) zero primary [] lf lg = refl
  parse_unary-fuel (suc f) zero primary (t ∷ ts) lf lg = absurd (omega arith)
  parse_unary-fuel (suc f) (suc g) primary [] lf lg = refl
  parse_unary-fuel (suc f) (suc g) primary (t ∷ ts) lf lg =
      rw (parse_unary-fuel f g primary ts (omega arith) (omega arith))

  -- What is left to do at a level when its first operand has been read.
  abbrev pub after : ℕ → Parser js → ℕ → Value N → Parser js
  after f primary zero v ts = ok (v, ts)
  after f primary (suc n) v ts =
      loop js f (operators_of n) (combine_of n) (parse_from f primary n) v ts
