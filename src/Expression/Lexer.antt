-- ===== src/Expression/Lexer.antt =====
-- The tokens of an expression, and the evaluation of a text (`tokenize` and `evaluate` of
-- src/workflow/safe-expression.service.ts). The loop over the text runs on fuel.
use model_hub.Common.{
  ℕ, zero, suc, List, [], ◌∷◌, ◌++◌, Bool, true, false, not, ◌&&◌, ◌||◌, Option, none, some, ltb,
  leb, ◌==◌, if◌then◌else◌, length, take, drop,
}
use model_hub.Expression.Types.{
  Text, codes, equal, among, TokenType, Token, empty_expression, expression_too_long,
  too_many_tokens, unsupported_escape, unterminated_string, unsupported_token, Result, ok, failed,
  out_of_fuel, ◌>>=◌, Value, Language,
}
use model_hub.Expression.Parser.{Tokens, Context, eof_token, parse}

abbrev pub max_expression_length : ℕ
max_expression_length = 1000

abbrev pub max_tokens : ℕ
max_tokens = 512

abbrev within : ℕ → ℕ → ℕ → Bool
within first last c = leb first c && leb c last

-- `\s`, which is also what `trim` removes; `\d`; the first and the other characters of an identifier.
unfoldable pub is_space : ℕ → Bool
is_space c =
    within 9 13 c
    || c == 32
    || c == 160
    || c == 5760
    || within 8192 8202 c
    || c == 8232
    || c == 8233
    || c == 8239
    || c == 8287
    || c == 12288
    || c == 65279

unfoldable pub is_digit : ℕ → Bool
is_digit c = within 48 57 c

unfoldable pub is_identifier_start : ℕ → Bool
is_identifier_start c = c == 36 || within 65 90 c || within 97 122 c || c == 95

unfoldable pub is_identifier_part : ℕ → Bool
unfolding is_identifier_start is_digit
is_identifier_part c = is_identifier_start c || is_digit c

-- The longest prefix of characters of a class, and the rest.
unfoldable pub span : (ℕ → Bool) → Text → Text × Text
span p [] = ([], [])
span p (c ∷ cs) = let rest = span p cs in if p c then (c ∷ rest.0, rest.1) else ([], c ∷ cs)

-- The expression for numbers, in its parts: `\.?\d*`, `[+-]?`, `(?:[eE][+-]?\d+)?`, `\d+\.?\d*|\.\d+`.
unfoldable pub fraction : Text → Text × Text
fraction [] = ([], [])
fraction (c ∷ cs) =
    let digits = span is_digit cs in if c == 46 then (c ∷ digits.0, digits.1) else ([], c ∷ cs)

unfoldable pub sign : Text → Text × Text
sign [] = ([], [])
sign (c ∷ cs) = if c == 43 || c == 45 then (c ∷ [], cs) else ([], c ∷ cs)

abbrev pub is_empty : Text → Bool
is_empty [] = true
is_empty (c ∷ cs) = false

unfoldable pub exponent : Text → Text × Text
unfolding sign span
exponent [] = ([], [])
exponent (c ∷ cs) =
    let signed = sign cs in
    let digits = span is_digit signed.1 in
    if (c == 101 || c == 69) && not (is_empty digits.0)
    then (c ∷ signed.0 ++ digits.0, digits.1)
    else ([], c ∷ cs)

unfoldable pub mantissa : Text → Option (Text × Text)
unfolding span fraction is_digit
mantissa [] = none
mantissa (c ∷ cs) =
    let whole = span is_digit cs in
    let rest = fraction whole.1 in
    if is_digit c
    then some (c ∷ whole.0 ++ rest.0, rest.1)
    else if c == 46 && not (is_empty whole.0)
    then some (c ∷ whole.0, whole.1)
    else none

abbrev pub with_exponent : Option (Text × Text) → Option (Text × Text)
with_exponent none = none
with_exponent (some (matched, rest)) = some (matched ++ (exponent rest).0, (exponent rest).1)

unfoldable pub match_number : Text → Option (Text × Text)
unfolding mantissa exponent
match_number text = with_exponent (mantissa text)

unfoldable pub match_identifier : Text → Option (Text × Text)
unfolding span is_identifier_start is_identifier_part
match_identifier [] = none
match_identifier (c ∷ cs) =
    let more = span is_identifier_part cs in
    if is_identifier_start c then some (c ∷ more.0, more.1) else none

-- `escapeMap`
unfoldable pub escape_map : ℕ → Option ℕ
escape_map c =
    if c == 110
    then some 10
    else if c == 114
    then some 13
    else if c == 116
    then some 9
    else if c == 92 || c == 34 || c == 39
    then some c
    else none

abbrev pub pushed : ℕ → Result (Text × Text) → Result (Text × Text)
pushed c r = do (value, rest) ← r; ok (c ∷ value, rest)

abbrev pub unescaped : Option ℕ → Result (Text × Text) → Result (Text × Text)
unescaped none r = failed unsupported_escape
unescaped (some x) r = pushed x r

-- The loop inside a string; `escaping` is behind a backslash.
unfoldable pub read_string : ℕ → Bool → Text → Result (Text × Text)
unfolding escape_map
read_string quote true [] = failed unsupported_escape
read_string quote false [] = failed unterminated_string
read_string quote true (c ∷ cs) =
    let rest = read_string quote false cs in unescaped (escape_map c) rest
read_string quote false (c ∷ cs) =
    let rest = read_string quote (c == 92) cs in
    if c == quote then ok ([], cs) else if c == 92 then rest else pushed c rest

abbrev pub triple_operators : List Text
triple_operators = codes "===" ∷ codes "!==" ∷ []

abbrev pub double_operators : List Text
double_operators = codes "&&" ∷ codes "||" ∷ codes "==" ∷ codes "!=" ∷ codes ">=" ∷ codes "<=" ∷ []

abbrev pub includes : Text → ℕ → Bool
includes [] c = false
includes (x ∷ xs) c = x == c || includes xs c

abbrev pub token : TokenType → Text × Text → Token × Text
token type (value, rest) = (record { type = type; value = value }, rest)

abbrev pub word : Option (Text × Text) → Option (Text × Text) → Result (Token × Text)
word (some m) identifier_match = ok (token TokenType.number m)
word none (some m) = ok (token TokenType.identifier m)
word none none = failed unsupported_token

unfoldable pub word_token : Text → Result (Token × Text)
unfolding match_number match_identifier
word_token text = word (match_number text) (match_identifier text)

-- One turn of the loop at a character that is no space: the token that is pushed, and the rest.
unfoldable pub next_token : ℕ → Text → Result (Token × Text)
unfolding read_string word_token among equal
next_token char cs =
    let text : Text = char ∷ cs in
    if among (take 3 text) triple_operators
    then ok (token TokenType.operator (take 3 text, drop 3 text))
    else if among (take 2 text) double_operators
    then ok (token TokenType.operator (take 2 text, drop 2 text))
    else if includes (codes "+-*/%><!") char
    then ok (token TokenType.operator (char ∷ [], cs))
    else if includes (codes "().[]") char
    then ok (token TokenType.punctuation (char ∷ [], cs))
    else if char == 34 || char == 39
    then (do read ← read_string char false cs; ok (token TokenType.string read))
    else word_token text

-- `tokenize`, with the number of tokens pushed so far.
unfoldable pub lex : ℕ → ℕ → Text → Result Tokens
unfolding next_token is_space
lex f count [] = ok (eof_token ∷ [])
lex zero count (c ∷ cs) = out_of_fuel
lex (suc f) count (c ∷ cs) = elim (is_space c) [
  | true ↦ lex f count cs
  | false ↦ do
    (t, rest) ← next_token c cs
    more ← if ltb max_tokens (suc count) then failed too_many_tokens else lex f (suc count) rest
    ok (t ∷ more)
]

abbrev pub tokenize : Text → Result Tokens
tokenize expression = lex (length expression) 0 expression

abbrev pub is_blank : Text → Bool
is_blank [] = true
is_blank (c ∷ cs) = is_space c && is_blank cs

-- `evaluate`; a token more than the text has is fuel for the parser.
unfoldable pub evaluate : (js : Language) → Context js → Text → Result (Value js.N)
evaluate js c expression =
    if is_blank expression
    then failed empty_expression
    else if ltb max_expression_length (length expression)
    then failed expression_too_long
    else (do tokens ← tokenize expression; parse js (suc (length tokens)) c tokens)
