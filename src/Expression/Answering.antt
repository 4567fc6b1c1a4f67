-- ===== src/Expression/Answering.antt =====
-- What an operator does to two values, and reading a property, is a value or an error
-- (src/workflow/safe-expression.service.ts).
use model_hub.Common.{true, ◌||◌, Option, none, some, ◌≡◌, refl, arith}
use model_hub.Expression.Types.{
  Text, codes, equal, among, Error, Result, ok, ◌>>=◌, Value, num, boolean, not_primitive, Language,
  or_failed,
}
use model_hub.Expression.Parser.{Context, variable}
use model_hub.Expression.Operators.{
  as_number, read_property, combine_or, combine_and, combine_equality, combine_comparison,
  combine_additive, combine_multiplicative, multiply, relation, is_string, forbidden_properties,
}
use model_hub.Expression.Ends.{Answers, Answers-bind, Ends-if}

module _ (js : Language) where
  open js use {N}

  abbrev pub AlwaysAnswers : (Text → Value N → Value N → Result (Value N)) → Type 0
  AlwaysAnswers combine = (t : Text) (v w : Value N) → Answers (combine t v w)

  pub as_number-Answers : (v : Value N) → Answers (as_number js v)
  unfolding as_number
  as_number-Answers v = ground arith

  pub numbers_Answers :
      (v w : Value N) (f : N → N → Value N)
      → Answers (as_number js v >>= λ a. as_number js w >>= λ b. ok (f a b))
  numbers_Answers v w f =
      Answers-bind (as_number js v) _ (as_number-Answers v)
        λ a. Answers-bind (as_number js w) (λ b. ok (f a b)) (as_number-Answers w) λ b. refl

  pub multiply-Answers : (t : Text) (a b : N) → Answers (multiply js t a b)
  multiply-Answers t a b = ground arith

  pub combine_or-AlwaysAnswers : AlwaysAnswers (combine_or js)
  unfolding combine_or
  combine_or-AlwaysAnswers t v w = refl

  pub combine_and-AlwaysAnswers : AlwaysAnswers (combine_and js)
  unfolding combine_and
  combine_and-AlwaysAnswers t v w = refl

  pub combine_equality-AlwaysAnswers : AlwaysAnswers (combine_equality js)
  unfolding combine_equality
  combine_equality-AlwaysAnswers t v w = refl

  pub or_failed-Answers {ℓ} : {A : Type ℓ} (e : Error) (o : Option A) → Answers (or_failed e o)
  or_failed-Answers e none = refl
  or_failed-Answers e (some a) = refl

  pub combine_comparison-AlwaysAnswers : AlwaysAnswers (combine_comparison js)
  unfolding combine_comparison
  combine_comparison-AlwaysAnswers t v w =
      Answers-bind (or_failed not_primitive (js.relate (relation js t) v w)) (λ b. ok (boolean b))
        (or_failed-Answers not_primitive (js.relate (relation js t) v w)) λ b. refl

  pub combine_additive-AlwaysAnswers : AlwaysAnswers (combine_additive js)
  unfolding combine_additive as_number
  combine_additive-AlwaysAnswers t v w =
      Ends-if (λ _. true ≡ true) (equal t (codes "+")) _ _
        (λ _.
          Ends-if (λ _. true ≡ true) (is_string js v || is_string js w) _ _
            (λ _.
              Answers-bind (or_failed not_primitive (js.to_text v)) _
                (or_failed-Answers not_primitive (js.to_text v))
                λ a.
                  Answers-bind (or_failed not_primitive (js.to_text w)) _
                    (or_failed-Answers not_primitive (js.to_text w)) λ b. refl)
            (λ _. numbers_Answers v w λ a b. num (js.add a b)))
        (λ _. numbers_Answers v w λ a b. num (js.sub a b))

  pub combine_multiplicative-AlwaysAnswers : AlwaysAnswers (combine_multiplicative js)
  unfolding combine_multiplicative as_number
  combine_multiplicative-AlwaysAnswers t v w =
      Answers-bind (as_number js w) _ (as_number-Answers w)
        λ b. Answers-bind (as_number js v) _ (as_number-Answers v) λ a. multiply-Answers t a b

  pub read_property-Answers : (v : Value N) (name : Text) → Answers (read_property js v name)
  unfolding read_property
  read_property-Answers v name =
      Ends-if (λ _. true ≡ true) (among name forbidden_properties) _ _ (λ _. refl) (λ _. refl)

  pub variable-Answers : (c : Context js) (name : Text) → Answers (variable js c name)
  unfolding variable
  variable-Answers c name = ground arith
