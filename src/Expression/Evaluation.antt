-- ===== src/Expression/Evaluation.antt =====
-- `tokenize` reads the tokens that are written, and `evaluate` gives what an expression means
-- (src/workflow/safe-expression.service.ts).
use model_hub.Common.{
  not-true, false-true, ℕ, zero, suc, ◌+◌, ◌≤◌, ◌<◌, [], ◌∷◌, ◌++◌, true, false, ◌≡◌, refl, ap, ◌∙◌,
  if◌then◌else◌, arith, length, length-append, ltb,
}
use model_hub.Expression.Types.{Text, Token, ok, failed, ◌>>=◌, Language, too_many_tokens}
use model_hub.Expression.Parser.{Tokens, Context, eof_token, parse, max_depth}
use model_hub.Expression.Syntax.{Expr, show, depth, eval}
use model_hub.Expression.Lexer.{
  max_tokens, max_expression_length, is_space, next_token, lex, is_blank, evaluate,
}
use model_hub.Expression.Writing.{
  AllWritable, write_as, render, IsProper, show-AllWritable, show-nonempty,
}
use model_hub.Expression.Matching.{space}
use model_hub.Expression.Reading.{next_of, starts_word, write-reads, write-starts}
use model_hub.Expression.RoundTrip.{parse-show}

lex_word :
    (f count c : ℕ) (cs : Text)
    → is_space c ≡ false
    → lex (suc f) count (c ∷ cs) ≡ (
        next_token c cs >>= λ (t, rest).
        (if ltb max_tokens (suc count) then failed too_many_tokens else lex f (suc count) rest)
        >>= λ more. ok (t ∷ more))
unfolding lex
lex_word f count c cs h = rw (h, lex)

room : (count : ℕ) → suc count ≤ max_tokens → ltb max_tokens (suc count) ≡ false
room count h = ground arith

-- One token, and the space behind it.
lex-token :
    (f count : ℕ) (text : Text) (t : Token) (r : Text)
    → next_of text ≡ ok (t, space r)
    → starts_word text ≡ true
    → suc count ≤ max_tokens
    → lex (suc (suc f)) count text ≡ (lex f (suc count) r >>= λ more. ok (t ∷ more))
unfolding lex
lex-token f count [] t r h s l = absurd (false-true s)
lex-token f count (c ∷ cs) t r h s l =
    lex_word (suc f) count c cs (not-true s)
    ∙ ap
        (λ x. x >>= λ (u, rest).
          (if ltb max_tokens (suc count)
            then failed too_many_tokens
            else lex (suc f) (suc count) rest)
          >>= λ more. ok (u ∷ more))
        h
    ∙ ap
        (λ b. (if b then failed too_many_tokens else lex f (suc count) r) >>= λ more. ok (t ∷ more))
        (room count l)

short : (n : ℕ) → n ≤ max_expression_length → ltb max_expression_length n ≡ false
short n h = ground arith

word_length :
    (w r : Text) → starts_word (w ++ space r) ≡ true → suc (suc (length r)) ≤ length (w ++ space r)
unfolding is_space
word_length [] r h = absurd (false-true h)
word_length (c ∷ w) r h = omega (arith, length-append w (space r))

word_not_blank : (text : Text) → starts_word text ≡ true → is_blank text ≡ false
word_not_blank [] h = absurd (false-true h)
word_not_blank (c ∷ cs) h = rw (not-true h)

lex-render :
    (ts : Tokens) (f count : ℕ)
    → AllWritable ts
    → length (render ts) ≤ f
    → count + length ts ≤ max_tokens
    → lex f count (render ts) ≡ ok (ts ++ eof_token ∷ [])
unfolding lex
lex-render [] zero count w h l = refl
lex-render [] (suc f) count w h l = refl
lex-render (t ∷ ts) zero count w h l = absurd (
    omega
      (arith, word_length (write_as t.type t.value) (render ts) (write-starts t w.0 (render ts))))
lex-render (t ∷ ts) (suc zero) count w h l = absurd (
    omega
      (arith, word_length (write_as t.type t.value) (render ts) (write-starts t w.0 (render ts))))
lex-render (t ∷ ts) (suc (suc f)) count w h l =
    let size = word_length (write_as t.type t.value) (render ts) (write-starts t w.0 (render ts)) in
    lex-token f count (write_as t.type t.value ++ space (render ts)) t (render ts)
      (write-reads t w.0 (render ts)) (write-starts t w.0 (render ts)) (omega arith)
    ∙ ap (λ x. x >>= λ more. ok (t ∷ more))
        (lex-render ts f (suc count) w.1 (omega arith) (omega arith))

evaluate-tokens :
    (js : Language) (c : Context js) (ts : Tokens)
    → 0 < length ts
    → AllWritable ts
    → length (render ts) ≤ max_expression_length
    → length ts ≤ max_tokens
    → evaluate js c (render ts)
      ≡ parse js (suc (length (ts ++ eof_token ∷ []))) c (ts ++ eof_token ∷ [])
unfolding evaluate
evaluate-tokens js c [] n w h k = absurd (omega arith)
evaluate-tokens js c (t ∷ ts) n w h k =
    rw
      (
        word_not_blank (render (t ∷ ts)) (write-starts t w.0 (render ts)),
        short (length (render (t ∷ ts))) h,
      )
      (ap (λ x. x >>= λ tokens. parse js (suc (length tokens)) c tokens)
        (lex-render (t ∷ ts) (length (render (t ∷ ts))) 0 w (omega arith) (omega arith)))

-- The text of an expression, a space behind each token, is evaluated to what its tree means, with the
-- same error where that has one, if its numbers and names are ones the language has, and length,
-- tokens and nesting are within the limits.
pub evaluate-render :
    (js : Language) (c : Context js) (e : Expr)
    → IsProper e
    → length (render (show 6 e)) ≤ max_expression_length
    → length (show 6 e) ≤ max_tokens
    → depth 6 e ≤ max_depth
    → evaluate js c (render (show 6 e)) ≡ eval js c e
evaluate-render js c e p h k d =
    evaluate-tokens js c (show 6 e) (show-nonempty e 6) (show-AllWritable e 6 p) h k
    ∙ parse-show js c e (suc (length (show 6 e ++ eof_token ∷ []))) d (omega arith)
