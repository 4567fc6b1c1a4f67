-- ===== src/Expression/RoundTrip.antt =====
-- Evaluating what is shown (`evaluate` by `SafeExpressionParser`,
-- src/workflow/safe-expression.service.ts): precedence, associativity and parentheses.
use mathlib.Core.List.{append_assoc}
use model_hub.Common.{
  ℕ, zero, suc, ◌+◌, ◌≤◌, ◌<◌, [], ◌∷◌, ◌++◌, true, false, ◌≡◌, refl, sym, ap, ◌∙◌, subst, inl, inr,
  ◌⊎◌, arith, length, length-append, leb, leb→le,
}
use model_hub.Expression.Types.{
  equal, among, TokenType, Result, ok, ◌>>=◌, Value, Relation, Language,
}
use model_hub.Expression.Parser.{
  Tokens, Parser, Context, loop, parse_primary, parse, max_depth, eof_token, expect_type,
}
use model_hub.Expression.Operators.{
  combine_or, combine_and, combine_equality, combine_comparison, combine_additive,
  combine_multiplicative,
}
use model_hub.Expression.Fuel.{IsGood, parse_primary-IsGood}
use model_hub.Expression.Levels.{
  bind_cong, bind_ok, bind_assoc, operators_of, combine_of, parse_from, parse_from-IsGood,
  loop-fuel, after, parse_or-parse_from,
}
use model_hub.Expression.Syntax.{
  Expr, Operator, rank, symbol, operator_token, height, wrap, body, show, deeper, inner_depth,
  depth, larger, apply, eval,
}
use model_hub.Expression.Climb.{
  IsQuiet, operator-IsQuiet, operator-here, Reads, Reads-through, Reads-climb, Reads-parenthesised,
  height-low,
}
use model_hub.Expression.Operands.{
  number_literal-Reads, string_literal-Reads, null_literal-Reads, boolean_literal-Reads, path-Reads,
  prefixed-Reads,
}

leb-above : (m n : ℕ) → m ≤ n → leb m n ≡ true
leb-above m n h = ground arith

leb-under : (m n : ℕ) → n < m → leb m n ≡ false
leb-under m n h = ground arith

le_or_lt : (m n : ℕ) → (m ≤ n) ⊎ (n < m)
le_or_lt m n = ground arith

zero_only : (m : ℕ) → m ≤ 0 → m ≡ 0
zero_only m h = omega arith

between : (m n : ℕ) → m ≤ suc n → n < m → m ≡ suc n
between m n h k = omega arith

larger_first : (m n d k : ℕ) → larger m n + d ≤ k → m + d ≤ k
larger_first m n d k h = ground arith

larger_second : (m n d k : ℕ) → larger m n + d ≤ k → n + d ≤ k
larger_second m n d k h = ground arith

module _ (js : Language) (c : Context js) where
  open js use {N}

  -- The text of an operator is told apart as the operator is.
  combine-apply :
      (o : Operator) (v w : Value N) → combine_of js (rank o) (symbol o) v w ≡ apply js o v w
  unfolding combine_or combine_and combine_equality combine_comparison combine_additive
      combine_multiplicative apply among equal
  combine-apply Operator.or v w = refl
  combine-apply Operator.and v w = refl
  combine-apply Operator.equal_to v w = refl
  combine-apply Operator.unequal_to v w = refl
  combine-apply Operator.strictly_equal_to v w = refl
  combine-apply Operator.strictly_unequal_to v w = refl
  combine-apply (Operator.relates Relation.gt) v w = refl
  combine-apply (Operator.relates Relation.ge) v w = refl
  combine-apply (Operator.relates Relation.lt) v w = refl
  combine-apply (Operator.relates Relation.le) v w = refl
  combine-apply Operator.plus v w = refl
  combine-apply Operator.minus v w = refl
  combine-apply Operator.times v w = refl
  combine-apply Operator.over v w = refl
  combine-apply Operator.modulo v w = refl

  loop-operator :
      (f : ℕ) (o : Operator) (next : Parser js) (v : Value N) (ts : Tokens)
      → loop js
          (suc f)
          (operators_of (rank o))
          (combine_of js (rank o))
          next
          v
          (operator_token (symbol o) ∷ ts)
        ≡ (next ts >>= λ (w, ts'). combine_of js (rank o) (symbol o) v w >>= λ x.
            loop js f (operators_of (rank o)) (combine_of js (rank o)) next x ts')
  unfolding loop
  loop-operator f o next v ts = rw (operator-here o ts)

  -- Behind its first operand.
  after-operator :
      (f d : ℕ) (o : Operator) (b : Expr) (v : Value N) (ts : Tokens)
      → Reads js c b (rank o)
      → length (show (rank o) b ++ ts) < f
      → depth (rank o) b + d ≤ max_depth
      → IsQuiet (rank o) ts
      → after js
          (suc f)
          (parse_primary js (suc f) c d)
          (suc (rank o))
          v
          (operator_token (symbol o) ∷ (show (rank o) b ++ ts))
        ≡ (eval js c b >>= λ w. apply js o v w >>= λ x.
            after js (suc f) (parse_primary js (suc f) c d) (suc (rank o)) x ts)
  after-operator f d o b v ts r l h q =
      let room : length ts < suc f = omega (arith, length-append (show (rank o) b) ts) in
      let next : Parser js = parse_from js (suc f) (parse_primary js (suc f) c d) (rank o) in
      let good : IsGood js (suc f) next =
        parse_from-IsGood js (suc f) _ (parse_primary-IsGood js (suc f) c d) (rank o) in
      let k : Value N × Tokens → Result (Value N × Tokens) = λ (w, ts').
        combine_of js (rank o) (symbol o) v w >>= λ x.
        loop js f (operators_of (rank o)) (combine_of js (rank o)) next x ts' in
      loop-operator f o next v (show (rank o) b ++ ts)
      ∙ ap (λ x. x >>= k) (Reads-through js c b (rank o) r (suc f) d ts (omega arith) h q)
      ∙ bind_assoc (eval js c b) (λ w. ok (w, ts)) k
      ∙ bind_cong (eval js c b) _ _ λ w.
        ap (λ x. x >>= λ y. loop js f (operators_of (rank o)) (combine_of js (rank o)) next y ts)
          (combine-apply o v w)
        ∙ bind_cong (apply js o v w) _ _ λ x.
          loop-fuel js f (suc f) (suc f) (operators_of (rank o)) (combine_of js (rank o)) next x ts
            good room (omega arith) (omega arith)

  binary-Reads :
      (o : Operator) (a b : Expr)
      → Reads js c a (suc (rank o))
      → Reads js c b (rank o)
      → Reads js c (Expr.binary o a b) (suc (rank o))
  unfolding body eval inner_depth
  binary-Reads o a b ra rb zero d ts l h q = absurd (omega arith)
  binary-Reads o a b ra rb (suc f) d ts l h q =
      let first : Tokens = show (suc (rank o)) a in
      let second : Tokens = show (rank o) b in
      let whole : Tokens = first ++ operator_token (symbol o) ∷ second in
      let rest : Tokens = operator_token (symbol o) ∷ (second ++ ts) in
      let primary : Parser js = parse_primary js (suc f) c d in
      let bare = leb-above (suc (rank o)) (suc (rank o)) (omega arith) in
      let room : length (whole ++ ts) < suc f =
        subst (λ g. length (wrap g whole ++ ts) < suc f) bare l in
      let deep : larger (depth (suc (rank o)) a) (depth (rank o) b) + d ≤ max_depth =
        subst (λ g. deeper g (larger (depth (suc (rank o)) a) (depth (rank o) b)) + d ≤ max_depth)
          bare h in
      let split : whole ++ ts ≡ first ++ rest =
        append_assoc first (operator_token (symbol o) ∷ second) ts in
      let room' : length (first ++ rest) < suc f = subst (λ xs. length xs < suc f) split room in
      ap (λ g. parse_from js (suc f) primary (suc (rank o)) (wrap g whole ++ ts)) bare
      ∙ ap (parse_from js (suc f) primary (suc (rank o))) split
      ∙ ra (suc f) d rest room' (larger_first _ _ d max_depth deep)
          (operator-IsQuiet o (second ++ ts))
      ∙ bind_cong (eval js c a) _ _ (λ v.
        after-operator f d o b v ts rb (omega (arith, room', length-append first rest))
          (larger_second _ _ d max_depth deep) q
        ∙ sym (
            bind_assoc (eval js c b) (apply js o v)
              (λ x. after js (suc f) primary (suc (rank o)) x ts)))
      ∙ sym (
          bind_assoc (eval js c a) (λ v. eval js c b >>= apply js o v)
            (λ x. after js (suc f) primary (suc (rank o)) x ts))

  -- Up from the expression's own level.
  Reads-up : (e : Expr) → Reads js c e (height e) → (n : ℕ) → height e ≤ n → Reads js c e n
  Reads-up e r zero h = subst (Reads js c e) (zero_only (height e) h) r
  Reads-up e r (suc n) h = elim (le_or_lt (height e) n) [
    | inl low ↦
        Reads-climb js c e n
          (leb-above (height e) (suc n) (omega arith) ∙ sym (leb-above (height e) n low))
          (Reads-up e r n low)
    | inr high ↦ subst (Reads js c e) (between (height e) n h high) r
  ]

  Reads-low : (e : Expr) → Reads js c e 6 → (n : ℕ) → n < height e → Reads js c e n
  Reads-low e r zero h = Reads-parenthesised js c e (leb-under (height e) 0 h) r
  Reads-low e r (suc n) h =
      Reads-climb js c e n
        (leb-under (height e) (suc n) h ∙ sym (leb-under (height e) n (omega arith)))
        (Reads-low e r n (omega arith))

  Reads-level : (e : Expr) → Reads js c e (height e) → (n : ℕ) → Reads js c e n
  Reads-level e r n = elim (le_or_lt (height e) n) [
    | inl low ↦ Reads-up e r n low
    | inr high ↦ Reads-low e (Reads-up e r 6 (leb→le (height e) 6 (height-low e))) n high
  ]

  pub show-Reads : (e : Expr) (n : ℕ) → Reads js c e n
  show-Reads (Expr.number_literal t) =
      Reads-level (Expr.number_literal t) (number_literal-Reads js c t)
  show-Reads (Expr.string_literal t) =
      Reads-level (Expr.string_literal t) (string_literal-Reads js c t)
  show-Reads (Expr.boolean_literal b) =
      Reads-level (Expr.boolean_literal b) (boolean_literal-Reads js c b)
  show-Reads Expr.null_literal = Reads-level Expr.null_literal (null_literal-Reads js c)
  show-Reads (Expr.path x steps) = Reads-level (Expr.path x steps) (path-Reads js c x steps)
  show-Reads (Expr.prefixed p a) =
      Reads-level (Expr.prefixed p a) (prefixed-Reads js c p a (show-Reads a 0))
  show-Reads (Expr.binary o a b) =
      Reads-level (Expr.binary o a b)
        (binary-Reads o a b (show-Reads a (suc (rank o))) (show-Reads b (rank o)))

  -- An expression as the language writes it, parentheses only where precedence and association to the
  -- left ask for them, is evaluated to what its tree means, with the same error where that has one,
  -- if parentheses nest less than 32 deep and there is fuel for each token.
  pub parse-show :
      (e : Expr) (f : ℕ)
      → depth 6 e ≤ max_depth
      → length (show 6 e ++ eof_token ∷ []) < f
      → parse js f c (show 6 e ++ eof_token ∷ []) ≡ eval js c e
  unfolding parse
  parse-show e f h l =
      let k : Value N × Tokens → Result (Value N) =
        λ (v, ts'). expect_type TokenType.eof ts' >>= λ _. ok v in
      ap (λ p. p (show 6 e ++ eof_token ∷ []) >>= k)
        (parse_or-parse_from js f (parse_primary js f c 0))
      ∙ ap (λ x. x >>= k)
          (Reads-through js c e 6 (show-Reads e 6) f 0 (eof_token ∷ []) l (omega arith)
            (refl, λ m _. refl))
      ∙ bind_assoc (eval js c e) (λ v. ok (v, eof_token ∷ [])) k
      ∙ bind_ok (eval js c e)
