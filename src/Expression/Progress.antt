-- ===== src/Expression/Progress.antt =====
-- The evaluation of a text ends, and within the limit on tokens (`tokenize` and `evaluate` of
-- src/workflow/safe-expression.service.ts).
use model_hub.Common.{
  ℕ, zero, suc, ◌+◌, ◌≤◌, [], ◌∷◌, Bool, true, false, not, ◌&&◌, ◌||◌, Option, none, some, ◌≡◌, ◌≢◌,
  refl, subst, ltb, ◌==◌, if◌then◌else◌, arith, length, length-drop, take, Bool-cases, inl, inr,
}
use model_hub.Expression.Types.{
  Text, codes, among, Token, Result, ok, failed, out_of_fuel, Language,
}
use model_hub.Expression.Parser.{Tokens, Context, parse}
use model_hub.Expression.Fuel.{parse-answers}
use model_hub.Expression.Ends.{Ends, Ends-bind, Ends-weaken, Ends-if, Ends→answers}
use model_hub.Expression.Lexer.{
  max_tokens, max_expression_length, is_space, is_digit, is_identifier_start, is_identifier_part,
  span, fraction, sign, exponent, mantissa, match_number, match_identifier, escape_map, read_string,
  word_token, next_token, lex, tokenize, is_blank, evaluate, includes, triple_operators,
  double_operators, is_empty, with_exponent, word, pushed, unescaped,
}

length-span : (p : ℕ → Bool) (t : Text) → length (span p t).1 ≤ length t
unfolding span
length-span p [] = omega arith
length-span p (c ∷ cs) = ground (arith, length-span p cs)

length-fraction : (t : Text) → length (fraction t).1 ≤ length t
unfolding fraction
length-fraction [] = omega arith
length-fraction (c ∷ cs) = ground (arith, length-span is_digit cs)

length-sign : (t : Text) → length (sign t).1 ≤ length t
unfolding sign
length-sign [] = omega arith
length-sign (c ∷ cs) = ground arith

length-exponent : (t : Text) → length (exponent t).1 ≤ length t
unfolding exponent
length-exponent [] = omega arith
length-exponent (c ∷ cs) = ground (arith, length-span is_digit (sign cs).1, length-sign cs)

abbrev Within : ℕ → Option (Text × Text) → Type 0
Within n none = true ≡ true
Within n (some m) = length m.1 ≤ n

Within-if :
    (n : ℕ) (b : Bool) (x y : Option (Text × Text))
    → Within n x
    → Within n y
    → Within n (if b then x else y)
Within-if n true x y hx hy = hx
Within-if n false x y hx hy = hy

mantissa-Within : (c : ℕ) (cs : Text) → Within (length cs) (mantissa (c ∷ cs))
unfolding mantissa
mantissa-Within c cs =
    Within-if (length cs) (is_digit c) _ _
      (omega (arith, length-span is_digit cs, length-fraction (span is_digit cs).1))
      (Within-if (length cs) (c == 46 && not (is_empty (span is_digit cs).0)) _ _
        (length-span is_digit cs) refl)

with_exponent-Within : (n : ℕ) (m : Option (Text × Text)) → Within n m → Within n (with_exponent m)
with_exponent-Within n none h = refl
with_exponent-Within n (some (matched, rest)) h = omega (arith, length-exponent rest)

match_number-Within : (c : ℕ) (cs : Text) → Within (length cs) (match_number (c ∷ cs))
unfolding match_number
match_number-Within c cs =
    with_exponent-Within (length cs) (mantissa (c ∷ cs)) (mantissa-Within c cs)

match_identifier-Within : (c : ℕ) (cs : Text) → Within (length cs) (match_identifier (c ∷ cs))
unfolding match_identifier
match_identifier-Within c cs =
    Within-if (length cs) (is_identifier_start c) _ _ (length-span is_identifier_part cs) refl

abbrev Fits : ℕ → Token × Text → Type 0
Fits n (t, rest) = length rest ≤ n

word-Fits :
    (n : ℕ) (x y : Option (Text × Text)) → Within n x → Within n y → Ends (Fits n) (word x y)
word-Fits n (some m) y hx hy = hx
word-Fits n none (some m) hx hy = hy
word-Fits n none none hx hy = refl

word_token-Fits : (c : ℕ) (cs : Text) → Ends (Fits (length cs)) (word_token (c ∷ cs))
unfolding word_token
word_token-Fits c cs =
    word-Fits (length cs) (match_number (c ∷ cs)) (match_identifier (c ∷ cs))
      (match_number-Within c cs) (match_identifier-Within c cs)

pushed-Fits :
    (n x : ℕ) (r : Result (Text × Text))
    → Ends (λ r. length r.1 ≤ n) r
    → Ends (λ r. length r.1 ≤ suc n) (pushed x r)
pushed-Fits n x (ok (value, rest)) h = omega arith
pushed-Fits n x (failed e) h = refl
pushed-Fits n x out_of_fuel h = absurd h

unescaped-Fits :
    (n : ℕ) (o : Option ℕ) (r : Result (Text × Text))
    → Ends (λ r. length r.1 ≤ n) r
    → Ends (λ r. length r.1 ≤ suc n) (unescaped o r)
unescaped-Fits n none r h = refl
unescaped-Fits n (some x) r h = pushed-Fits n x r h

read_string-Fits :
    (quote : ℕ) (escaping : Bool) (cs : Text)
    → Ends (λ r. length r.1 ≤ length cs) (read_string quote escaping cs)
unfolding read_string
read_string-Fits quote true [] = refl
read_string-Fits quote false [] = refl
read_string-Fits quote true (c ∷ cs) =
    unescaped-Fits (length cs) (escape_map c) (read_string quote false cs)
      (read_string-Fits quote false cs)
read_string-Fits quote false (c ∷ cs) =
    Ends-if (λ r. length r.1 ≤ suc (length cs)) (c == quote) _ _ (λ _. omega arith)
      λ _.
        Ends-if (λ r. length r.1 ≤ suc (length cs)) (c == 92) _ _
          (λ _.
            Ends-weaken (λ r. length r.1 ≤ length cs) _ _ (λ r h. omega arith)
              (read_string-Fits quote (c == 92) cs))
          λ _. pushed-Fits (length cs) c _ (read_string-Fits quote (c == 92) cs)

next_token-Fits : (c : ℕ) (cs : Text) → Ends (Fits (length cs)) (next_token c cs)
unfolding next_token
next_token-Fits c cs =
    Ends-if (Fits (length cs)) (among (take 3 (c ∷ cs)) triple_operators) _ _
      (λ _. omega (arith, length-drop 2 cs))
      λ _.
        Ends-if (Fits (length cs)) (among (take 2 (c ∷ cs)) double_operators) _ _
          (λ _. omega (arith, length-drop 1 cs))
          λ _.
            Ends-if (Fits (length cs)) (includes (codes "+-*/%><!") c) _ _ (λ _. omega arith)
              λ _.
                Ends-if (Fits (length cs)) (includes (codes "().[]") c) _ _ (λ _. omega arith)
                  λ _.
                    Ends-if (Fits (length cs)) (c == 34 || c == 39) _ _
                      (λ _.
                        Ends-bind (λ r. length r.1 ≤ length cs) _ (read_string c false cs) _
                          (read_string-Fits c false cs) λ r h. h)
                      λ _. word_token-Fits c cs

not_past : (count : ℕ) → ltb max_tokens (suc count) ≡ false → suc count ≤ max_tokens
not_past count h = ground arith

lex-Ends :
    (f count : ℕ) (text : Text)
    → length text ≤ f
    → count ≤ max_tokens
    → Ends (λ ts. count + length ts ≤ suc max_tokens) (lex f count text)
unfolding lex
lex-Ends zero count [] h l = omega arith
lex-Ends (suc f) count [] h l = omega arith
lex-Ends zero count (c ∷ cs) h l = absurd (omega arith)
lex-Ends (suc f) count (c ∷ cs) h l = elim (Bool-cases (is_space c)) [
  | inl space ↦ rw (space, Ends) (lex-Ends f count cs (omega arith) l)
  | inr word ↦
      rw (word, Ends)
        (Ends-bind (Fits (length cs)) _ (next_token c cs) _ (next_token-Fits c cs) λ (t, rest) fits.
          Ends-bind (λ more. suc count + length more ≤ suc max_tokens) _ _ _
            (Ends-if (λ more. suc count + length more ≤ suc max_tokens) (ltb max_tokens (suc count))
              _ _ (λ _. refl)
              (λ room. lex-Ends f (suc count) rest (omega arith) (not_past count room)))
            λ more bound. omega arith)
]

tokenize-Ends : (text : Text) → Ends (λ ts. length ts ≤ 513) (tokenize text)
tokenize-Ends text =
    Ends-weaken (λ ts. 0 + length ts ≤ 513) _ (tokenize text) (λ ts h. omega arith)
      (lex-Ends (length text) 0 text (omega arith) (omega arith))

answers→Ends {ℓ} : {A : Type ℓ} (r : Result A) → r ≢ out_of_fuel → Ends (λ a. true ≡ true) r
answers→Ends (ok a) h = refl
answers→Ends (failed e) h = refl
answers→Ends out_of_fuel h = h refl

-- A text is cut into at most 512 tokens and the end, or refused.
pub tokenize-bounded : (text : Text) (ts : Tokens) → tokenize text ≡ ok ts → length ts ≤ 513
tokenize-bounded text ts h = subst (Ends (λ ts. length ts ≤ 513)) h (tokenize-Ends text)

-- The evaluation of any text gives a value or an error: neither the tokenizer nor the parser runs on.
pub evaluate-answers :
    (js : Language) (c : Context js) (text : Text) → evaluate js c text ≢ out_of_fuel
unfolding evaluate
evaluate-answers js c text = Ends→answers (evaluate js c text) (
    Ends-if (λ _. true ≡ true) (is_blank text) _ _ (λ _. refl)
      λ _.
        Ends-if (λ _. true ≡ true) (ltb max_expression_length (length text)) _ _ (λ _. refl)
          λ _.
            Ends-bind (λ ts. length ts ≤ 513) (λ _. true ≡ true) (tokenize text) _
              (tokenize-Ends text)
              λ ts _.
                answers→Ends (parse js (suc (length ts)) c ts)
                  (parse-answers js (suc (length ts)) c ts (omega arith)))
