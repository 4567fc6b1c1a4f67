-- ===== src/Expression/Syntax.antt =====
-- The expressions that src/workflow/safe-expression.service.ts is to evaluate, as trees: what each one
-- means, how deep it nests, and the tokens it is written with, in as few parentheses as the
-- precedence of the operators allows.
use model_hub.Common.{
  ℕ, suc, List, [], ◌∷◌, ◌++◌, Bool, true, false, not, ◌&&◌, ◌||◌, leb, if◌then◌else◌,
}
use model_hub.Expression.Types.{
  Text, codes, TokenType, Token, Result, ok, failed, ◌>>=◌, or_failed, Value, null, boolean, num,
  str, Relation, Language, not_primitive, division_by_zero,
}
use model_hub.Expression.Parser.{Tokens, Context}
use model_hub.Expression.Operators.{truthy, strict_equal, is_string, as_number, read_property}

pub data Variable : Type 0 where
  input workflow nodes item index : Variable

pub data Step : Type 0 where
  dot at_string at_number : Text → Step

pub data Prefix : Type 0 where
  negation minus_sign plus_sign : Prefix

pub data Operator : Type 0 where
  or and : Operator
  equal_to unequal_to strictly_equal_to strictly_unequal_to : Operator
  relates : Relation → Operator
  plus minus times over modulo : Operator

pub data Expr : Type 0 where
  number_literal string_literal : Text → Expr
  boolean_literal : Bool → Expr
  null_literal : Expr
  path : Variable → List Step → Expr
  prefixed : Prefix → Expr → Expr
  binary : Operator → Expr → Expr → Expr

-- The binding of an operator: 0 binds most tightly.
abbrev pub rank : Operator → ℕ
rank Operator.or = 5
rank Operator.and = 4
rank Operator.equal_to = 3
rank Operator.unequal_to = 3
rank Operator.strictly_equal_to = 3
rank Operator.strictly_unequal_to = 3
rank (Operator.relates r) = 2
rank Operator.plus = 1
rank Operator.minus = 1
rank Operator.times = 0
rank Operator.over = 0
rank Operator.modulo = 0

abbrev pub symbol : Operator → Text
symbol Operator.or = codes "||"
symbol Operator.and = codes "&&"
symbol Operator.equal_to = codes "=="
symbol Operator.unequal_to = codes "!="
symbol Operator.strictly_equal_to = codes "==="
symbol Operator.strictly_unequal_to = codes "!=="
symbol (Operator.relates Relation.gt) = codes ">"
symbol (Operator.relates Relation.ge) = codes ">="
symbol (Operator.relates Relation.lt) = codes "<"
symbol (Operator.relates Relation.le) = codes "<="
symbol Operator.plus = codes "+"
symbol Operator.minus = codes "-"
symbol Operator.times = codes "*"
symbol Operator.over = codes "/"
symbol Operator.modulo = codes "%"

abbrev pub prefix_symbol : Prefix → Text
prefix_symbol Prefix.negation = codes "!"
prefix_symbol Prefix.minus_sign = codes "-"
prefix_symbol Prefix.plus_sign = codes "+"

abbrev pub variable_name : Variable → Text
variable_name Variable.input = codes "$input"
variable_name Variable.workflow = codes "$workflow"
variable_name Variable.nodes = codes "$nodes"
variable_name Variable.item = codes "$item"
variable_name Variable.index = codes "$index"

-- How it is written.
abbrev pub operator_token : Text → Token
operator_token t = record { type = TokenType.operator; value = t }

abbrev pub punctuation_token : Text → Token
punctuation_token t = record { type = TokenType.punctuation; value = t }

abbrev pub identifier_token : Text → Token
identifier_token t = record { type = TokenType.identifier; value = t }

abbrev pub string_token : Text → Token
string_token t = record { type = TokenType.string; value = t }

abbrev pub number_token : Text → Token
number_token t = record { type = TokenType.number; value = t }

abbrev pub show_steps : List Step → Tokens
show_steps [] = []
show_steps (Step.dot t ∷ steps) =
    punctuation_token (codes ".") ∷ identifier_token t ∷ show_steps steps
show_steps (Step.at_string t ∷ steps) =
    punctuation_token (codes "[")
    ∷ string_token t
    ∷ punctuation_token (codes "]")
    ∷ show_steps steps
show_steps (Step.at_number t ∷ steps) =
    punctuation_token (codes "[")
    ∷ number_token t
    ∷ punctuation_token (codes "]")
    ∷ show_steps steps

abbrev pub height : Expr → ℕ
height (Expr.binary o a b) = suc (rank o)
height _ = 0

abbrev pub wrap : Bool → Tokens → Tokens
wrap true ts = ts
wrap false ts = punctuation_token (codes "(") ∷ ts ++ punctuation_token (codes ")") ∷ []

unfoldable pub body : Expr → Tokens
body (Expr.number_literal t) = number_token t ∷ []
body (Expr.string_literal t) = string_token t ∷ []
body (Expr.boolean_literal true) = identifier_token (codes "true") ∷ []
body (Expr.boolean_literal false) = identifier_token (codes "false") ∷ []
body Expr.null_literal = identifier_token (codes "null") ∷ []
body (Expr.path x steps) = identifier_token (variable_name x) ∷ show_steps steps
body (Expr.prefixed p a) = operator_token (prefix_symbol p) ∷ wrap (leb (height a) 0) (body a)
body (Expr.binary o a b) =
    wrap (leb (height a) (suc (rank o))) (body a)
    ++ operator_token (symbol o) ∷ wrap (leb (height b) (rank o)) (body b)

-- The tokens of an expression where operators up to a height may stand bare; 6 is the whole language.
abbrev pub show : ℕ → Expr → Tokens
show n e = wrap (leb (height e) n) (body e)

-- How deep the calls for operands nest, one for each pair of parentheses.
abbrev pub deeper : Bool → ℕ → ℕ
deeper true d = d
deeper false d = suc d

abbrev pub larger : ℕ → ℕ → ℕ
larger m n = if leb m n then n else m

unfoldable pub inner_depth : Expr → ℕ
inner_depth (Expr.prefixed p a) = deeper (leb (height a) 0) (inner_depth a)
inner_depth (Expr.binary o a b) =
    larger (deeper (leb (height a) (suc (rank o))) (inner_depth a))
      (deeper (leb (height b) (rank o)) (inner_depth b))
inner_depth _ = 1

abbrev pub depth : ℕ → Expr → ℕ
depth n e = deeper (leb (height e) n) (inner_depth e)

-- What it means.
abbrev pub key : Step → Text
key (Step.dot t) = t
key (Step.at_string t) = t
key (Step.at_number t) = t

module _ (js : Language) where
  open js use {N, of_text, is_zero, add, sub, mul, div, rem, neg, relate, to_text}

  abbrev pub fetch : Context js → Variable → Value N
  fetch c Variable.input = c.input
  fetch c Variable.workflow = c.workflow
  fetch c Variable.nodes = c.nodes
  fetch c Variable.item = c.item
  fetch c Variable.index = c.index

  unfoldable pub follow : List Step → Value N → Result (Value N)
  follow [] v = ok v
  follow (s ∷ steps) v = do w ← read_property js v (key s); follow steps w

  abbrev pub calculate : (N → N → N) → Value N → Value N → Result (Value N)
  calculate f v w = do a ← as_number js v; b ← as_number js w; ok (num (f a b))

  abbrev pub join : Value N → Value N → Result (Value N)
  join v w = do
    a ← or_failed not_primitive (to_text v)
    b ← or_failed not_primitive (to_text w)
    ok (str (a ++ b))

  abbrev pub divide : (N → N → N) → Value N → Value N → Result (Value N)
  divide f v w = do
    b ← as_number js w
    a ← as_number js v
    if is_zero b then failed division_by_zero else ok (num (f a b))

  abbrev pub product : Value N → Value N → Result (Value N)
  product v w = do b ← as_number js w; a ← as_number js v; ok (num (mul a b))

  unfoldable pub apply : Operator → Value N → Value N → Result (Value N)
  apply Operator.or v w = ok (boolean (truthy js v || truthy js w))
  apply Operator.and v w = ok (boolean (truthy js v && truthy js w))
  apply Operator.equal_to v w = ok (boolean (strict_equal js v w))
  apply Operator.unequal_to v w = ok (boolean (not (strict_equal js v w)))
  apply Operator.strictly_equal_to v w = ok (boolean (strict_equal js v w))
  apply Operator.strictly_unequal_to v w = ok (boolean (not (strict_equal js v w)))
  apply (Operator.relates r) v w = do b ← or_failed not_primitive (relate r v w); ok (boolean b)
  apply Operator.plus v w = if is_string js v || is_string js w then join v w else calculate add v w
  apply Operator.minus v w = calculate sub v w
  apply Operator.times v w = product v w
  apply Operator.over v w = divide div v w
  apply Operator.modulo v w = divide rem v w

  unfoldable pub apply_prefix : Prefix → Value N → Result (Value N)
  apply_prefix Prefix.negation v = ok (boolean (not (truthy js v)))
  apply_prefix Prefix.minus_sign v = do a ← as_number js v; ok (num (neg a))
  apply_prefix Prefix.plus_sign v = do a ← as_number js v; ok (num a)

  unfoldable pub eval : Context js → Expr → Result (Value N)
  eval c (Expr.number_literal t) = ok (num (of_text t))
  eval c (Expr.string_literal t) = ok (str t)
  eval c (Expr.boolean_literal b) = ok (boolean b)
  eval c Expr.null_literal = ok null
  eval c (Expr.path x steps) = follow steps (fetch c x)
  eval c (Expr.prefixed p a) = do v ← eval c a; apply_prefix p v
  eval c (Expr.binary o a b) = do v ← eval c a; w ← eval c b; apply o v w
