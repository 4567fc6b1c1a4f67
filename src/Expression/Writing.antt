-- ===== src/Expression/Writing.antt =====
-- Tokens as text, each with a space behind it, and when a token can be written
-- (src/workflow/safe-expression.service.ts).
use model_hub.Common.{
  ℕ, suc, ◌≤◌, ◌<◌, List, [], ◌∷◌, ◌++◌, Bool, true, false, ◌||◌, some, ◌≡◌, refl, ◌==◌,
  if◌then◌else◌, arith, length, length-append, leb,
}
use model_hub.Expression.Types.{Text, codes, TokenType, Token}
use model_hub.Expression.Parser.{Tokens}
use model_hub.Expression.Syntax.{
  Expr, Operator, Prefix, Variable, Step, variable_name, symbol, rank, prefix_symbol,
  operator_token, punctuation_token, identifier_token, string_token, number_token, show_steps,
  height, wrap, body, show,
}
use model_hub.Expression.Lexer.{is_digit, match_number, match_identifier}

pub data Punctuation : Type 0 where
  open_parenthesis close_parenthesis full_stop open_bracket close_bracket : Punctuation

abbrev pub mark : Punctuation → Text
mark Punctuation.open_parenthesis = codes "("
mark Punctuation.close_parenthesis = codes ")"
mark Punctuation.full_stop = codes "."
mark Punctuation.open_bracket = codes "["
mark Punctuation.close_bracket = codes "]"

abbrev pub IsName : Text → Type 0
IsName t = match_identifier t ≡ some (t, [])

abbrev pub IsNumeral : Text → Type 0
IsNumeral [] = ⊥
IsNumeral (d ∷ t) = (is_digit d ≡ true) × (match_number (d ∷ t) ≡ some (d ∷ t, []))

pub data IsWritable : Token → Type 0 where
  operator : (o : Operator) → IsWritable (operator_token (symbol o))
  prefix : (p : Prefix) → IsWritable (operator_token (prefix_symbol p))
  punctuation : (p : Punctuation) → IsWritable (punctuation_token (mark p))
  name : (t : Text) → IsName t → IsWritable (identifier_token t)
  numeral : (t : Text) → IsNumeral t → IsWritable (number_token t)
  quoted : (t : Text) → IsWritable (string_token t)

abbrev pub AllWritable : Tokens → Type 0
AllWritable [] = true ≡ true
AllWritable (t ∷ ts) = IsWritable t × AllWritable ts

-- Between double quotes.
unfoldable pub escape : Text → Text
escape [] = []
escape (c ∷ cs) = if c == 34 || c == 92 then 92 ∷ c ∷ escape cs else c ∷ escape cs

abbrev pub write_as : TokenType → Text → Text
write_as TokenType.string t = 34 ∷ escape t ++ 34 ∷ []
write_as _ t = t

abbrev pub render : Tokens → Text
render [] = []
render (t ∷ ts) = write_as t.type t.value ++ 32 ∷ render ts

-- The numbers and names of an expression are ones the language can write.
abbrev pub StepIsProper : Step → Type 0
StepIsProper (Step.dot t) = IsName t
StepIsProper (Step.at_string t) = true ≡ true
StepIsProper (Step.at_number t) = IsNumeral t

abbrev pub StepsAreProper : List Step → Type 0
StepsAreProper [] = true ≡ true
StepsAreProper (s ∷ steps) = StepIsProper s × StepsAreProper steps

unfoldable pub IsProper : Expr → Type 0
IsProper (Expr.number_literal t) = IsNumeral t
IsProper (Expr.string_literal t) = true ≡ true
IsProper (Expr.boolean_literal b) = true ≡ true
IsProper Expr.null_literal = true ≡ true
IsProper (Expr.path x steps) = StepsAreProper steps
IsProper (Expr.prefixed p a) = IsProper a
IsProper (Expr.binary o a b) = IsProper a × IsProper b

append-AllWritable : (xs ys : Tokens) → AllWritable xs → AllWritable ys → AllWritable (xs ++ ys)
append-AllWritable [] ys h k = k
append-AllWritable (x ∷ xs) ys h k = (h.0, append-AllWritable xs ys h.1 k)

wrap-AllWritable : (b : Bool) (ts : Tokens) → AllWritable ts → AllWritable (wrap b ts)
wrap-AllWritable true ts h = h
wrap-AllWritable false ts h = (
  IsWritable.punctuation Punctuation.open_parenthesis,
  append-AllWritable ts _ h (IsWritable.punctuation Punctuation.close_parenthesis, refl),
)

show_steps-AllWritable : (steps : List Step) → StepsAreProper steps → AllWritable (show_steps steps)
show_steps-AllWritable [] h = refl
show_steps-AllWritable (Step.dot t ∷ steps) h = (
  IsWritable.punctuation Punctuation.full_stop,
  (IsWritable.name t h.0, show_steps-AllWritable steps h.1),
)
show_steps-AllWritable (Step.at_string t ∷ steps) h = (
  IsWritable.punctuation Punctuation.open_bracket,
  (
    IsWritable.quoted t,
    (IsWritable.punctuation Punctuation.close_bracket, show_steps-AllWritable steps h.1),
  ),
)
show_steps-AllWritable (Step.at_number t ∷ steps) h = (
  IsWritable.punctuation Punctuation.open_bracket,
  (
    IsWritable.numeral t h.0,
    (IsWritable.punctuation Punctuation.close_bracket, show_steps-AllWritable steps h.1),
  ),
)

variable_name-IsName : (x : Variable) → IsName (variable_name x)
unfolding match_identifier
variable_name-IsName Variable.input = refl
variable_name-IsName Variable.workflow = refl
variable_name-IsName Variable.nodes = refl
variable_name-IsName Variable.item = refl
variable_name-IsName Variable.index = refl

body-AllWritable : (e : Expr) → IsProper e → AllWritable (body e)
unfolding body IsProper match_identifier
body-AllWritable (Expr.number_literal t) h = (IsWritable.numeral t h, refl)
body-AllWritable (Expr.string_literal t) h = (IsWritable.quoted t, refl)
body-AllWritable (Expr.boolean_literal true) h = (IsWritable.name (codes "true") refl, refl)
body-AllWritable (Expr.boolean_literal false) h = (IsWritable.name (codes "false") refl, refl)
body-AllWritable Expr.null_literal h = (IsWritable.name (codes "null") refl, refl)
body-AllWritable (Expr.path x steps) h =
    (IsWritable.name (variable_name x) (variable_name-IsName x), show_steps-AllWritable steps h)
body-AllWritable (Expr.prefixed p a) h =
    (IsWritable.prefix p, wrap-AllWritable (leb (height a) 0) (body a) (body-AllWritable a h))
body-AllWritable (Expr.binary o a b) h =
    append-AllWritable _ _
      (wrap-AllWritable (leb (height a) (suc (rank o))) (body a) (body-AllWritable a h.0))
      (
        IsWritable.operator o,
        wrap-AllWritable (leb (height b) (rank o)) (body b) (body-AllWritable b h.1),
      )

pub show-AllWritable : (e : Expr) (n : ℕ) → IsProper e → AllWritable (show n e)
show-AllWritable e n h = wrap-AllWritable (leb (height e) n) (body e) (body-AllWritable e h)

length-wrap : (b : Bool) (ts : Tokens) → length ts ≤ length (wrap b ts)
length-wrap true ts = omega arith
length-wrap false ts = omega (arith, length-append ts (punctuation_token (codes ")") ∷ []))

body-nonempty : (e : Expr) → 0 < length (body e)
unfolding body
body-nonempty (Expr.number_literal t) = omega arith
body-nonempty (Expr.string_literal t) = omega arith
body-nonempty (Expr.boolean_literal true) = omega arith
body-nonempty (Expr.boolean_literal false) = omega arith
body-nonempty Expr.null_literal = omega arith
body-nonempty (Expr.path x steps) = omega arith
body-nonempty (Expr.prefixed p a) = omega arith
body-nonempty (Expr.binary o a b) =
    let first = wrap (leb (height a) (suc (rank o))) (body a) in
    let second = operator_token (symbol o) ∷ wrap (leb (height b) (rank o)) (body b) in
    omega (arith, length-append first second)

pub show-nonempty : (e : Expr) (n : ℕ) → 0 < length (show n e)
show-nonempty e n = omega (arith, length-wrap (leb (height e) n) (body e), body-nonempty e)
