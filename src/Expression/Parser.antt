-- ===== src/Expression/Parser.antt =====
-- The parser, which evaluates while it reads (`SafeExpressionParser` of
-- src/workflow/safe-expression.service.ts). The place in the list of tokens is the rest of the list;
-- `depth` is handed down. A loop over operators runs on fuel, and so do the calls of `parsePrimary`
-- by itself.
use model_hub.Common.{
  ℕ, zero, suc, List, [], ◌∷◌, Bool, true, false, not, ◌&&◌, ◌||◌, ltb, if◌then◌else◌,
}
use model_hub.Expression.Types.{
  Text, codes, equal, among, TokenType, Token, same_type, expected, too_deep, unknown_identifier,
  not_literal_access, function_call, unexpected_token, Result, ok, failed, out_of_fuel, ◌>>=◌,
  Value, null, boolean, num, str, Language,
}
use model_hub.Expression.Operators.{
  as_number, combine_additive, combine_and, combine_comparison, combine_equality,
  combine_multiplicative, combine_or, read_property, truthy,
}

abbrev pub Tokens : Type 0
Tokens = List Token

abbrev pub eof_token : Token
eof_token = record { type = TokenType.eof; value = [] }

-- `current()`: the list of tokens ends with an eof, behind which nothing is read.
abbrev pub current : Tokens → Token
current [] = eof_token
current (t ∷ ts) = t

abbrev pub rest_of : Tokens → Tokens
rest_of [] = []
rest_of (t ∷ ts) = ts

-- `isOperator(...values)`, `isPunctuation(value)`
abbrev pub is_operator : List Text → Tokens → Bool
is_operator values ts =
    same_type (current ts).type TokenType.operator && among (current ts).value values

abbrev pub is_punctuation : Text → Tokens → Bool
is_punctuation value ts =
    same_type (current ts).type TokenType.punctuation && equal (current ts).value value

-- `expect`, of a type, and of a punctuation.
abbrev pub expect_type : TokenType → Tokens → Result (Token × Tokens)
expect_type type ts =
    if same_type (current ts).type type then ok (current ts, rest_of ts) else failed expected

abbrev pub expect_punctuation : Text → Tokens → Result Tokens
expect_punctuation value ts = if is_punctuation value ts then ok (rest_of ts) else failed expected

abbrev pub or_operators : List Text
or_operators = codes "||" ∷ []

abbrev pub and_operators : List Text
and_operators = codes "&&" ∷ []

abbrev pub equality_operators : List Text
equality_operators = codes "==" ∷ codes "!=" ∷ codes "===" ∷ codes "!==" ∷ []

abbrev pub comparison_operators : List Text
comparison_operators = codes ">" ∷ codes ">=" ∷ codes "<" ∷ codes "<=" ∷ []

abbrev pub additive_operators : List Text
additive_operators = codes "+" ∷ codes "-" ∷ []

abbrev pub multiplicative_operators : List Text
multiplicative_operators = codes "*" ∷ codes "/" ∷ codes "%" ∷ []

abbrev pub max_depth : ℕ
max_depth = 32

abbrev pub is_literal : TokenType → Bool
is_literal TokenType.string = true
is_literal TokenType.number = true
is_literal _ = false

module _ (js : Language) where
  open js use {N, of_text, neg}

  abbrev pub Parser : Type 0
  Parser = Tokens → Result (Value N × Tokens)

  -- `ExpressionContext`, with `undefined` for what is missing.
  pub record Context : Type 0 where
    pub input : Value N
    pub workflow : Value N
    pub nodes : Value N
    pub item : Value N
    pub index : Value N

  -- The loop that the six binary levels share: while an operator of the level stands here, read the
  -- next operand and combine.
  unfoldable pub loop :
      ℕ → List Text → (Text → Value N → Value N → Result (Value N)) → Parser → Value N → Parser
  loop zero operators combine next value ts =
      if is_operator operators ts then out_of_fuel else ok (value, ts)
  loop (suc f) operators combine next value ts =
      let more = (do
        (right, ts') ← next (rest_of ts)
        combined ← combine (current ts).value value right
        loop f operators combine next combined ts') in
      if is_operator operators ts then more else ok (value, ts)

  unfoldable pub level :
      ℕ → List Text → (Text → Value N → Value N → Result (Value N)) → Parser → Parser
  level f operators combine next ts = do
    (value, ts') ← next ts
    loop f operators combine next value ts'

  -- `parseUnary`, with `parsePrimary` as a parameter, and the six levels above it.
  unfoldable pub parse_unary : ℕ → Parser → Parser
  unfolding as_number
  parse_unary zero primary ts =
      if is_operator (codes "!" ∷ codes "-" ∷ codes "+" ∷ []) ts then out_of_fuel else primary ts
  parse_unary (suc f) primary ts =
      let inner = parse_unary f primary (rest_of ts) in
      if is_operator (codes "!" ∷ []) ts
      then (do (value, ts') ← inner; ok (boolean (not (truthy js value)), ts'))
      else if is_operator (codes "-" ∷ []) ts
      then (do (value, ts') ← inner; a ← as_number js value; ok (num (neg a), ts'))
      else if is_operator (codes "+" ∷ []) ts
      then (do (value, ts') ← inner; a ← as_number js value; ok (num a, ts'))
      else primary ts

  module _ (f : ℕ) (primary : Parser) where
    abbrev pub parse_multiplicative : Parser
    parse_multiplicative =
        level f multiplicative_operators (combine_multiplicative js) (parse_unary f primary)

    abbrev pub parse_additive : Parser
    parse_additive = level f additive_operators (combine_additive js) parse_multiplicative

    abbrev pub parse_comparison : Parser
    parse_comparison = level f comparison_operators (combine_comparison js) parse_additive

    abbrev pub parse_equality : Parser
    parse_equality = level f equality_operators (combine_equality js) parse_comparison

    abbrev pub parse_and : Parser
    parse_and = level f and_operators (combine_and js) parse_equality

    abbrev pub parse_or : Parser
    parse_or = level f or_operators (combine_or js) parse_and

  -- `this.context[token.value]`
  unfoldable pub variable : Context → Text → Result (Value N)
  variable c name =
      if equal name (codes "$input")
      then ok c.input
      else if equal name (codes "$workflow")
      then ok c.workflow
      else if equal name (codes "$nodes")
      then ok c.nodes
      else if equal name (codes "$item")
      then ok c.item
      else if equal name (codes "$index")
      then ok c.index
      else failed unknown_identifier

  -- One step of the loop over `.name` and `[literal]`.
  unfoldable pub read_dot : Value N → Parser
  unfolding read_property
  read_dot value ts = do
    (name, ts') ← expect_type TokenType.identifier ts
    v ← read_property js value name.value
    ok (v, ts')

  unfoldable pub read_bracket : Value N → Parser
  unfolding read_property
  read_bracket value ts =
      if is_literal (current ts).type
      then (do
        ts' ← expect_punctuation (codes "]") (rest_of ts)
        v ← read_property js value (current ts).value
        ok (v, ts'))
      else failed not_literal_access

  unfoldable pub read_path : ℕ → Value N → Parser
  read_path zero value ts =
      if is_punctuation (codes ".") ts
        || (is_punctuation (codes "[") ts || is_punctuation (codes "(") ts)
      then out_of_fuel
      else ok (value, ts)
  read_path (suc f) value ts =
      let dotted = (do (v, ts') ← read_dot value (rest_of ts); read_path f v ts') in
      let bracketed = (do (v, ts') ← read_bracket value (rest_of ts); read_path f v ts') in
      if is_punctuation (codes ".") ts
      then dotted
      else if is_punctuation (codes "[") ts
      then bracketed
      else if is_punctuation (codes "(") ts
      then failed function_call
      else ok (value, ts)

  unfoldable pub read_identifier : ℕ → Context → Text → Parser
  unfolding variable
  read_identifier f c name ts =
      if equal name (codes "true")
      then ok (boolean true, ts)
      else if equal name (codes "false")
      then ok (boolean false, ts)
      else if equal name (codes "null")
      then ok (null, ts)
      else (do value ← variable c name; read_path f value ts)

  -- What `parsePrimary` does at a token; `inside` is `parseOr` one deeper.
  unfoldable pub read_primary : ℕ → Context → Parser → TokenType → Parser
  unfolding read_identifier
  read_primary f c inside TokenType.number ts = ok (num (of_text (current ts).value), rest_of ts)
  read_primary f c inside TokenType.string ts = ok (str (current ts).value, rest_of ts)
  read_primary f c inside TokenType.identifier ts =
      read_identifier f c (current ts).value (rest_of ts)
  read_primary f c inside TokenType.punctuation ts =
      if is_punctuation (codes "(") ts
      then (do
        (value, ts') ← inside (rest_of ts)
        ts'' ← expect_punctuation (codes ")") ts'
        ok (value, ts''))
      else failed unexpected_token
  read_primary f c inside TokenType.operator ts = failed unexpected_token
  read_primary f c inside TokenType.eof ts = failed unexpected_token

  unfoldable pub parse_primary : ℕ → Context → ℕ → Parser
  parse_primary zero c depth ts = if ltb max_depth (suc depth) then failed too_deep else out_of_fuel
  parse_primary (suc f) c depth ts =
      let read =
        read_primary f c (parse_or f (parse_primary f c (suc depth))) (current ts).type ts in
      if ltb max_depth (suc depth) then failed too_deep else read

  -- `parse`
  unfoldable pub parse : ℕ → Context → Tokens → Result (Value N)
  parse f c ts = do
    (value, ts') ← parse_or f (parse_primary f c 0) ts
    (_, ts'') ← expect_type TokenType.eof ts'
    ok value
