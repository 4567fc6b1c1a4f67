-- ===== src/Expression/Fuel.antt =====
-- The parser ends (`SafeExpressionParser` of src/workflow/safe-expression.service.ts): every call
-- takes a token or gives up, so the length of the list is fuel enough.
use model_hub.Common.{
  ℕ, zero, suc, ◌≤◌, ◌<◌, List, [], ◌∷◌, true, ◌≡◌, refl, ap, ltb, arith, length, ◌≢◌,
}
use model_hub.Expression.Types.{
  Text, codes, equal, TokenType, same_type, Result, out_of_fuel, Value, Language,
}
use model_hub.Expression.Parser.{
  Tokens, current, rest_of, is_operator, is_punctuation, expect_type, expect_punctuation, Parser,
  Context, loop, level, parse_unary, parse_or, variable, read_dot, read_bracket, read_path,
  read_identifier, read_primary, parse_primary, parse, max_depth, is_literal,
}
use model_hub.Expression.Operators.{
  as_number, read_property, combine_or, combine_and, combine_equality, combine_comparison,
  combine_additive, combine_multiplicative,
}
use model_hub.Expression.Ends.{
  Ends, Ends-bind, Ends-if, Ends-weaken, Ends→answers, is_operator-lt, is_punctuation-lt,
  length-rest_of, rest_of-lt,
}
use model_hub.Expression.Answering.{
  AlwaysAnswers, as_number-Answers, combine_additive-AlwaysAnswers, combine_and-AlwaysAnswers,
  combine_comparison-AlwaysAnswers, combine_equality-AlwaysAnswers,
  combine_multiplicative-AlwaysAnswers, combine_or-AlwaysAnswers, read_property-Answers,
  variable-Answers,
}

module _ (js : Language) where
  open js use {N}

  abbrev pub Shorter : ℕ → Value N × Tokens → Type 0
  Shorter n (v, ts) = length ts < n

  -- A parser that takes a token of any list of a bounded length, or gives up.
  abbrev pub IsGood : ℕ → Parser js → Type 0
  IsGood f p = (ts : Tokens) → length ts < f → Ends (Shorter (length ts)) (p ts)

  loop-Shorter :
      (f g : ℕ) (operators : List Text) (combine : Text → Value N → Value N → Result (Value N))
      (next : Parser js) (value : Value N) (ts : Tokens)
      → AlwaysAnswers js combine
      → IsGood g next
      → length ts ≤ f
      → length ts < g
      → Ends (Shorter (suc (length ts))) (loop js f operators combine next value ts)
  unfolding loop
  loop-Shorter zero g operators combine next value [] a n hf hg = omega arith
  loop-Shorter zero g operators combine next value (t ∷ ts) a n hf hg = absurd (omega arith)
  loop-Shorter (suc f) g operators combine next value ts a n hf hg =
      Ends-if (Shorter (suc (length ts))) (is_operator operators ts) _ _
        (λ here.
          let less = is_operator-lt operators ts here in
          Ends-bind (Shorter (length (rest_of ts))) _ (next (rest_of ts)) _
            (n (rest_of ts) (omega arith))
            λ (right, ts') short.
              Ends-bind (λ _. true ≡ true) _ (combine (current ts).value value right) _
                (a (current ts).value value right)
                λ combined _.
                  Ends-weaken (Shorter (suc (length ts'))) _ _ (λ (v, ts'') h. omega arith)
                    (loop-Shorter f g operators combine next combined ts' a n (omega arith)
                      (omega arith)))
        (λ _. omega arith)

  pub level-IsGood :
      (f : ℕ) (operators : List Text) (combine : Text → Value N → Value N → Result (Value N))
      (next : Parser js)
      → AlwaysAnswers js combine
      → IsGood f next
      → IsGood f (level js f operators combine next)
  unfolding level
  level-IsGood f operators combine next a n ts h =
      Ends-bind (Shorter (length ts)) (Shorter (length ts)) (next ts) _ (n ts h) λ (v, ts') short.
        Ends-weaken (Shorter (suc (length ts'))) _ _ (λ (w, ts'') less. omega arith)
          (loop-Shorter f f operators combine next v ts' a n (omega arith) (omega arith))

  pub parse_unary-IsGood :
      (f : ℕ) (primary : Parser js)
      → IsGood f primary
      → (g : ℕ) → (ts : Tokens) → length ts < f
      → length ts ≤ g
      → Ends (Shorter (length ts)) (parse_unary js g primary ts)
  unfolding parse_unary as_number
  parse_unary-IsGood f primary p zero [] h hg = p [] h
  parse_unary-IsGood f primary p zero (t ∷ ts) h hg = absurd (omega arith)
  parse_unary-IsGood f primary p (suc g) ts h hg =
      let inner = parse_unary-IsGood f primary p g (rest_of ts) in
      Ends-if (Shorter (length ts)) (is_operator (codes "!" ∷ []) ts) _ _
        (λ here.
          let less = is_operator-lt (codes "!" ∷ []) ts here in
          Ends-bind (Shorter (length (rest_of ts))) _ _ _ (inner (omega arith) (omega arith))
            λ (v, ts') short. omega arith)
        λ _.
          Ends-if (Shorter (length ts)) (is_operator (codes "-" ∷ []) ts) _ _
            (λ here.
              let less = is_operator-lt (codes "-" ∷ []) ts here in
              Ends-bind (Shorter (length (rest_of ts))) _ _ _ (inner (omega arith) (omega arith))
                λ (v, ts') short.
                  Ends-bind (λ _. true ≡ true) _ (as_number js v) _ (as_number-Answers js v)
                    λ a _. omega arith)
            λ _.
              Ends-if (Shorter (length ts)) (is_operator (codes "+" ∷ []) ts) _ _
                (λ here.
                  let less = is_operator-lt (codes "+" ∷ []) ts here in
                  Ends-bind (Shorter (length (rest_of ts))) _ _ _
                    (inner (omega arith) (omega arith))
                    λ (v, ts') short.
                      Ends-bind (λ _. true ≡ true) _ (as_number js v) _ (as_number-Answers js v)
                        λ a _. omega arith)
                λ _. p ts h

  read_dot-Shorter :
      (v : Value N) (ts : Tokens) → Ends (Shorter (suc (length ts))) (read_dot js v ts)
  unfolding read_dot
  read_dot-Shorter v ts =
      Ends-bind (λ (t, ts'). length ts' ≤ length ts) _ (expect_type TokenType.identifier ts) _
        (Ends-if (λ (t, ts'). length ts' ≤ length ts)
          (same_type (current ts).type TokenType.identifier) _ _ (λ _. length-rest_of ts)
          (λ _. refl))
        λ (t, ts') less.
          Ends-bind (λ _. true ≡ true) _ (read_property js v t.value) _
            (read_property-Answers js v t.value) λ w _. omega arith

  expect_punctuation-Shorter :
      (value : Text) (ts : Tokens)
      → Ends (λ ts'. length ts' ≤ length ts) (expect_punctuation value ts)
  expect_punctuation-Shorter value ts =
      Ends-if (λ ts'. length ts' ≤ length ts) (is_punctuation value ts) _ _ (λ _. length-rest_of ts)
        (λ _. refl)

  read_bracket-Shorter :
      (v : Value N) (ts : Tokens) → Ends (Shorter (suc (length ts))) (read_bracket js v ts)
  unfolding read_bracket
  read_bracket-Shorter v ts =
      let step = length-rest_of ts in
      Ends-if (Shorter (suc (length ts))) (is_literal (current ts).type) _ _
        (λ _.
          Ends-bind (λ ts'. length ts' ≤ length (rest_of ts)) _
            (expect_punctuation (codes "]") (rest_of ts)) _
            (expect_punctuation-Shorter (codes "]") (rest_of ts))
            λ ts' less.
              Ends-bind (λ _. true ≡ true) _ (read_property js v (current ts).value) _
                (read_property-Answers js v (current ts).value) λ w _. omega arith)
        (λ _. refl)

  read_path-Shorter :
      (f : ℕ) (value : Value N) (ts : Tokens)
      → length ts ≤ f
      → Ends (Shorter (suc (length ts))) (read_path js f value ts)
  unfolding read_path
  read_path-Shorter zero value [] h = omega arith
  read_path-Shorter zero value (t ∷ ts) h = absurd (omega arith)
  read_path-Shorter (suc f) value ts h =
      let onward =
        (λ (r : Result (Value N × Tokens)) (less : length (rest_of ts) < length ts)
            (e : Ends (Shorter (suc (length (rest_of ts)))) r).
          Ends-bind (Shorter (suc (length (rest_of ts)))) (Shorter (suc (length ts))) r
            (λ (v, ts'). read_path js f v ts') e
            λ (v, ts') short.
              Ends-weaken (Shorter (suc (length ts'))) (Shorter (suc (length ts))) _
                (λ (w, ts'') m. omega arith) (read_path-Shorter f v ts' (omega arith))) in
      Ends-if (Shorter (suc (length ts))) (is_punctuation (codes ".") ts) _ _
        (λ here.
          onward _ (is_punctuation-lt (codes ".") ts here) (read_dot-Shorter value (rest_of ts)))
        λ _.
          Ends-if (Shorter (suc (length ts))) (is_punctuation (codes "[") ts) _ _
            (λ here.
              onward _ (is_punctuation-lt (codes "[") ts here)
                (read_bracket-Shorter value (rest_of ts)))
            λ _.
              Ends-if (Shorter (suc (length ts))) (is_punctuation (codes "(") ts) _ _ (λ _. refl)
                (λ _. omega arith)

  read_identifier-Shorter :
      (f : ℕ) (c : Context js) (name : Text) (ts : Tokens)
      → length ts ≤ f
      → Ends (Shorter (suc (length ts))) (read_identifier js f c name ts)
  unfolding read_identifier
  read_identifier-Shorter f c name ts h =
      let P = Shorter (suc (length ts)) in
      Ends-if P (equal name (codes "true")) _ _ (λ _. omega arith)
        λ _.
          Ends-if P (equal name (codes "false")) _ _ (λ _. omega arith)
            λ _.
              Ends-if P (equal name (codes "null")) _ _ (λ _. omega arith)
                λ _.
                  Ends-bind (λ _. true ≡ true) P (variable js c name) _ (variable-Answers js c name)
                    λ v _. read_path-Shorter f v ts h

  parse_or-IsGood :
      (f : ℕ) (primary : Parser js) → IsGood f primary → IsGood f (parse_or js f primary)
  parse_or-IsGood f primary p = level-IsGood f _ (combine_or js) _ (combine_or-AlwaysAnswers js) (
      level-IsGood f _ (combine_and js) _ (combine_and-AlwaysAnswers js) (
        level-IsGood f _ (combine_equality js) _ (combine_equality-AlwaysAnswers js) (
          level-IsGood f _ (combine_comparison js) _ (combine_comparison-AlwaysAnswers js) (
            level-IsGood f _ (combine_additive js) _ (combine_additive-AlwaysAnswers js) (
              level-IsGood f _ (combine_multiplicative js) _
                (combine_multiplicative-AlwaysAnswers js)
                λ ts h. parse_unary-IsGood f primary p f ts h (omega arith))))))

  read_primary-Shorter :
      (f : ℕ) (c : Context js) (inside : Parser js) (type : TokenType) (ts : Tokens)
      → IsGood f inside
      → (current ts).type ≡ type
      → length ts ≤ f
      → Ends (Shorter (length ts)) (read_primary js f c inside type ts)
  unfolding read_primary
  read_primary-Shorter f c inside TokenType.number ts p e h =
      rest_of-lt ts (ap (λ k. same_type k TokenType.eof) e)
  read_primary-Shorter f c inside TokenType.string ts p e h =
      rest_of-lt ts (ap (λ k. same_type k TokenType.eof) e)
  read_primary-Shorter f c inside TokenType.identifier ts p e h =
      let less = rest_of-lt ts (ap (λ k. same_type k TokenType.eof) e) in
      Ends-weaken (Shorter (suc (length (rest_of ts)))) (Shorter (length ts)) _
        (λ (v, ts') m. omega arith)
        (read_identifier-Shorter f c (current ts).value (rest_of ts) (omega arith))
  read_primary-Shorter f c inside TokenType.punctuation ts p e h =
      let less = rest_of-lt ts (ap (λ k. same_type k TokenType.eof) e) in
      Ends-if (Shorter (length ts)) (is_punctuation (codes "(") ts) _ _
        (λ _.
          Ends-bind (Shorter (length (rest_of ts))) _ (inside (rest_of ts)) _
            (p (rest_of ts) (omega arith))
            λ (v, ts') m.
              Ends-bind (λ ts''. length ts'' ≤ length ts') _ (expect_punctuation (codes ")") ts') _
                (expect_punctuation-Shorter (codes ")") ts') λ ts'' m'. omega arith)
        (λ _. refl)
  read_primary-Shorter f c inside TokenType.operator ts p e h = refl
  read_primary-Shorter f c inside TokenType.eof ts p e h = refl

  pub parse_primary-IsGood :
      (f : ℕ) (c : Context js) (depth : ℕ) → IsGood f (parse_primary js f c depth)
  unfolding parse_primary
  parse_primary-IsGood zero c depth ts h = absurd (omega arith)
  parse_primary-IsGood (suc f) c depth ts h =
      Ends-if (Shorter (length ts)) (ltb max_depth (suc depth)) _ _ (λ _. refl)
        λ _.
          read_primary-Shorter f c (parse_or js f (parse_primary js f c (suc depth)))
            (current ts).type ts (parse_or-IsGood f _ (parse_primary-IsGood f c (suc depth))) refl
            (omega arith)

  pub parse-answers :
      (f : ℕ) (c : Context js) (ts : Tokens) → length ts < f → parse js f c ts ≢ out_of_fuel
  unfolding parse
  parse-answers f c ts h = Ends→answers (parse js f c ts) (
      Ends-bind (Shorter (length ts)) _ (parse_or js f (parse_primary js f c 0) ts) _
        (parse_or-IsGood f _ (parse_primary-IsGood f c 0) ts h)
        λ (v, ts') m.
          Ends-bind (λ _. true ≡ true) (λ _. true ≡ true) (expect_type TokenType.eof ts') _
            (Ends-if (λ _. true ≡ true) (same_type (current ts').type TokenType.eof) _ _ (λ _. refl)
              (λ _. refl))
            λ _ _. refl)
