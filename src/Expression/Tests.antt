-- ===== src/Expression/Tests.antt =====
-- Expressions over integers, evaluated from their text.
use model_hub.Common.{
  ℕ, ◌+◌, ◌-◌, ◌*◌, ◌/◌, ◌%◌, ◌&&◌, ◌≤◌, List, [], ◌∷◌, ◌++◌, Bool, true, false, Option, none, some,
  ◌≡◌, ◌≢◌, refl, ◌==◌, arith, length, String,
}
use model_hub.Common.Int.{ℤ, pos, ◌+ℤ◌, ◌-ℤ◌, ◌*ℤ◌, ltb_ℤ, leb_ℤ, pos_part, neg_part}
use model_hub.Expression.Types.{
  Text, codes, equal, among, TokenType, Token, ok, out_of_fuel, Value, no_fields, field, null,
  undefined, boolean, num, str, object, Relation, Language,
}
use model_hub.Expression.Parser.{Context, eof_token, parse}
use model_hub.Expression.Operators.{as_number, read_property}
use model_hub.Expression.Syntax.{
  Expr, Operator, Prefix, Variable, Step, show, body, inner_depth, eval, apply, apply_prefix,
  follow,
}
use model_hub.Expression.RoundTrip.{parse-show}
use model_hub.Expression.Lexer.{
  is_space, is_digit, span, fraction, exponent, mantissa, match_number, match_identifier,
  read_string, word_token, next_token, lex, tokenize, evaluate,
}
use model_hub.Expression.Writing.{IsProper, render, escape}
use model_hub.Expression.Progress.{tokenize-bounded, evaluate-answers}
use model_hub.Expression.Evaluation.{evaluate-render}
use model_hub.Expression.Sandbox.{names_forbidden, evaluate-forbidden}

abbrev decimal : ℕ → Text → ℕ
decimal n [] = n
decimal n (c ∷ cs) = decimal (n * 10 + (c - 48)) cs

abbrev same_integer : ℤ → ℤ → Bool
same_integer a b = pos_part a == pos_part b && neg_part a == neg_part b

abbrev relate_integers : Relation → ℤ → ℤ → Bool
relate_integers Relation.gt a b = ltb_ℤ b a
relate_integers Relation.ge a b = leb_ℤ b a
relate_integers Relation.lt a b = ltb_ℤ a b
relate_integers Relation.le a b = leb_ℤ a b

abbrev relate_values : Relation → Value ℤ → Value ℤ → Option Bool
relate_values r (num a) (num b) = some (relate_integers r a b)
relate_values r v w = some false

abbrev text_of : Value ℤ → Option Text
text_of (str t) = some t
text_of v = none

abbrev integers : Language
integers = record {
  N = ℤ;
  of_text = λ t. pos (decimal 0 t);
  is_finite = λ n. true;
  is_nan = λ n. false;
  is_zero = same_integer (pos 0);
  same = same_integer;
  add = λ a b. a +ℤ b;
  sub = λ a b. a -ℤ b;
  mul = λ a b. a *ℤ b;
  div = λ a b. pos (pos_part a / pos_part b);
  rem = λ a b. pos (pos_part a % pos_part b);
  neg = λ a. pos 0 -ℤ a;
  relate = relate_values;
  to_text = text_of;
  own_of_text = λ t property. none;
}

abbrev context : Context integers
context = record {
  input =
      object 0
        (field (codes "size") (num (pos 4)) (field (codes "name") (str (codes "cat")) no_fields));
  workflow = undefined;
  nodes = undefined;
  item = null;
  index = num (pos 2);
}

abbrev literal : String → Expr
literal s = Expr.number_literal (codes s)

-- 1 - 2 * (3 - $input.size) - $index > -5 && $input["name"] + "s" == "cats"
abbrev sum : Expr
sum =
    Expr.binary Operator.minus
      (Expr.binary Operator.minus (literal "1") (
        Expr.binary Operator.times (literal "2") (
          Expr.binary Operator.minus (literal "3")
            (Expr.path Variable.input (Step.dot (codes "size") ∷ [])))))
      (Expr.path Variable.index [])

abbrev condition : Expr
condition =
    Expr.binary Operator.and
      (Expr.binary (Operator.relates Relation.gt) sum
        (Expr.prefixed Prefix.minus_sign (literal "5")))
      (Expr.binary Operator.equal_to
        (Expr.binary Operator.plus (Expr.path Variable.input (Step.at_string (codes "name") ∷ []))
          (Expr.string_literal (codes "s")))
        (Expr.string_literal (codes "cats")))

condition_holds : eval integers context condition ≡ ok (boolean true)
unfolding eval apply apply_prefix follow read_property as_number among equal ◌+ℤ◌ ◌-ℤ◌ ◌*ℤ◌
condition_holds = refl

condition-IsProper : IsProper condition
unfolding IsProper match_number match_identifier
condition-IsProper = (
  ((((refl, refl), ((refl, refl), ((refl, refl), (refl, refl)))), refl), (refl, refl)),
  (((refl, refl), refl), refl),
)

parse-show_example :
    parse integers 60 context (show 6 condition ++ eof_token ∷ []) ≡ eval integers context condition
unfolding body inner_depth
parse-show_example = parse-show integers context condition 60 (omega arith) (omega arith)

evaluate-render_example :
    evaluate integers context (render (show 6 condition)) ≡ eval integers context condition
unfolding body inner_depth escape
evaluate-render_example =
    evaluate-render integers context condition condition-IsProper (omega arith) (omega arith)
      (omega arith)

-- true || $input.constructor
abbrev hidden : Expr
hidden =
    Expr.binary Operator.or (Expr.boolean_literal true)
      (Expr.path Variable.input (Step.dot (codes "constructor") ∷ []))

hidden-names_forbidden : names_forbidden hidden ≡ true
unfolding names_forbidden among equal
hidden-names_forbidden = refl

hidden-IsProper : IsProper hidden
unfolding IsProper match_identifier
hidden-IsProper = (refl, (refl, refl))

evaluate-forbidden_example : evaluate integers context (render (show 6 hidden)) ≢ ok (boolean true)
unfolding body inner_depth
evaluate-forbidden_example =
    evaluate-forbidden integers context hidden hidden-names_forbidden hidden-IsProper (omega arith)
      (omega arith) (omega arith) (boolean true)

abbrev short_text : Text
short_text = codes "7 %('a'"

abbrev short_tokens : List Token
short_tokens =
    record { type = TokenType.number; value = codes "7" }
    ∷ record { type = TokenType.operator; value = codes "%" }
    ∷ record { type = TokenType.punctuation; value = codes "(" }
    ∷ record { type = TokenType.string; value = codes "a" }
    ∷ eof_token
    ∷ []

short_text_tokens : tokenize short_text ≡ ok short_tokens
unfolding lex next_token word_token match_number mantissa fraction exponent span is_digit is_space
    read_string among equal
short_text_tokens = refl

tokenize-bounded_example : length short_tokens ≤ 513
tokenize-bounded_example = tokenize-bounded short_text short_tokens short_text_tokens

evaluate-answers_example : evaluate integers context short_text ≢ out_of_fuel
evaluate-answers_example = evaluate-answers integers context short_text
