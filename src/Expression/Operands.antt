-- ===== src/Expression/Operands.antt =====
-- Reading the operands: literals, variables with their paths, and prefixed operands (`parsePrimary`
-- and `parseUnary` of src/workflow/safe-expression.service.ts).
use model_hub.Common.{
  or_false_second, or_false_first, ℕ, zero, suc, ◌≤◌, ◌<◌, List, [], ◌∷◌, ◌++◌, Bool, true, false,
  ◌≡◌, refl, sym, ap, ◌∙◌, arith, length,
}
use model_hub.Expression.Types.{
  Text, codes, equal, among, TokenType, Token, same_type, Result, ok, ◌>>=◌, Value, Language,
}
use model_hub.Expression.Parser.{
  Tokens, is_punctuation, Parser, Context, parse_unary, parse_primary, read_primary, parse_or,
  read_identifier, read_path, read_dot, read_bracket, variable, max_depth,
}
use model_hub.Expression.Operators.{as_number, read_property}
use model_hub.Expression.Levels.{bind_cong, bind_assoc, parse_from, parse_unary-fuel}
use model_hub.Expression.Syntax.{
  Expr, Variable, Step, Prefix, prefix_symbol, variable_name, operator_token, identifier_token,
  string_token, number_token, show_steps, body, show, inner_depth, fetch, follow, apply_prefix,
  eval,
}
use model_hub.Expression.Climb.{path_goes_on, Reads, Reads-through, not_deep}

module _ (js : Language) (c : Context js) where
  open js use {N}

  onward :
      (p : Result (Value N)) (f : ℕ) (steps : List Step) (ts : Tokens)
      → ((w : Value N)
          → read_path js f w (show_steps steps ++ ts) ≡ (follow js steps w >>= λ x. ok (x, ts)))
      → (p >>= λ w. ok (w, show_steps steps ++ ts)) >>= (λ (w, ts'). read_path js f w ts')
        ≡ ((p >>= λ w. follow js steps w) >>= λ x. ok (x, ts))
  onward p f steps ts e =
      bind_assoc p (λ w. ok (w, show_steps steps ++ ts)) (λ (w, ts'). read_path js f w ts')
      ∙ bind_cong p _ _ e
      ∙ sym (bind_assoc p (λ w. follow js steps w) (λ x. ok (x, ts)))

  -- The steps of a path.
  read_path-show_steps :
      (steps : List Step) (f : ℕ) (v : Value N) (ts : Tokens)
      → length (show_steps steps ++ ts) ≤ f
      → path_goes_on ts ≡ false
      → read_path js f v (show_steps steps ++ ts) ≡ (follow js steps v >>= λ w. ok (w, ts))
  unfolding read_path follow read_dot read_bracket equal
  read_path-show_steps [] zero v ts h q = rw (q)
  read_path-show_steps [] (suc f) v ts h q = rw (
    or_false_first (is_punctuation (codes ".") ts) _ q,
    or_false_first (is_punctuation (codes "[") ts) _
        (or_false_second (is_punctuation (codes ".") ts) _ q),
    or_false_second (is_punctuation (codes "[") ts) _
        (or_false_second (is_punctuation (codes ".") ts) _ q),
  )
  read_path-show_steps (Step.dot t ∷ steps) zero v ts h q = absurd (omega arith)
  read_path-show_steps (Step.dot t ∷ steps) (suc f) v ts h q =
      onward (read_property js v t) f steps ts
        λ w. read_path-show_steps steps f w ts (omega arith) q
  read_path-show_steps (Step.at_string t ∷ steps) zero v ts h q = absurd (omega arith)
  read_path-show_steps (Step.at_string t ∷ steps) (suc f) v ts h q =
      onward (read_property js v t) f steps ts
        λ w. read_path-show_steps steps f w ts (omega arith) q
  read_path-show_steps (Step.at_number t ∷ steps) zero v ts h q = absurd (omega arith)
  read_path-show_steps (Step.at_number t ∷ steps) (suc f) v ts h q =
      onward (read_property js v t) f steps ts
        λ w. read_path-show_steps steps f w ts (omega arith) q

  variable-fetch : (x : Variable) → variable js c (variable_name x) ≡ ok (fetch js c x)
  unfolding variable equal
  variable-fetch Variable.input = refl
  variable-fetch Variable.workflow = refl
  variable-fetch Variable.nodes = refl
  variable-fetch Variable.item = refl
  variable-fetch Variable.index = refl

  read_identifier-path :
      (f : ℕ) (x : Variable) (ts : Tokens)
      → read_identifier js f c (variable_name x) ts ≡ read_path js f (fetch js c x) ts
  unfolding read_identifier equal
  read_identifier-path f Variable.input ts =
      ap (λ r. r >>= λ v. read_path js f v ts) (variable-fetch Variable.input)
  read_identifier-path f Variable.workflow ts =
      ap (λ r. r >>= λ v. read_path js f v ts) (variable-fetch Variable.workflow)
  read_identifier-path f Variable.nodes ts =
      ap (λ r. r >>= λ v. read_path js f v ts) (variable-fetch Variable.nodes)
  read_identifier-path f Variable.item ts =
      ap (λ r. r >>= λ v. read_path js f v ts) (variable-fetch Variable.item)
  read_identifier-path f Variable.index ts =
      ap (λ r. r >>= λ v. read_path js f v ts) (variable-fetch Variable.index)

  -- A token that is no operator starts a primary.
  unary-operand :
      (f : ℕ) (primary : Parser js) (t : Token) (ts : Tokens)
      → same_type t.type TokenType.operator ≡ false
      → parse_unary js f primary (t ∷ ts) ≡ primary (t ∷ ts)
  unfolding parse_unary
  unary-operand zero primary t ts h = rw (h)
  unary-operand (suc f) primary t ts h = rw (h)

  primary-token :
      (f d : ℕ) (t : Token) (ts : Tokens) (r : Result (Value N × Tokens))
      → same_type t.type TokenType.operator ≡ false
      → suc d ≤ max_depth
      → read_primary js f c (parse_or js f (parse_primary js f c (suc d))) t.type (t ∷ ts) ≡ r
      → parse_from js (suc f) (parse_primary js (suc f) c d) 0 (t ∷ ts) ≡ r
  unfolding parse_from parse_primary
  primary-token f d t ts r h room e =
      unary-operand (suc f) (parse_primary js (suc f) c d) t ts h ∙ rw (not_deep d room) e

  pub number_literal-Reads : (t : Text) → Reads js c (Expr.number_literal t) 0
  unfolding body eval read_primary inner_depth
  number_literal-Reads t zero d ts l h q = absurd (omega arith)
  number_literal-Reads t (suc f) d ts l h q =
      primary-token f d (number_token t) ts _ refl (omega arith) refl

  pub string_literal-Reads : (t : Text) → Reads js c (Expr.string_literal t) 0
  unfolding body eval read_primary inner_depth
  string_literal-Reads t zero d ts l h q = absurd (omega arith)
  string_literal-Reads t (suc f) d ts l h q =
      primary-token f d (string_token t) ts _ refl (omega arith) refl

  pub null_literal-Reads : Reads js c Expr.null_literal 0
  unfolding body eval read_primary inner_depth read_identifier equal
  null_literal-Reads zero d ts l h q = absurd (omega arith)
  null_literal-Reads (suc f) d ts l h q =
      primary-token f d (identifier_token (codes "null")) ts _ refl (omega arith) refl

  pub boolean_literal-Reads : (b : Bool) → Reads js c (Expr.boolean_literal b) 0
  unfolding body eval read_primary inner_depth read_identifier equal
  boolean_literal-Reads true zero d ts l h q = absurd (omega arith)
  boolean_literal-Reads true (suc f) d ts l h q =
      primary-token f d (identifier_token (codes "true")) ts _ refl (omega arith) refl
  boolean_literal-Reads false zero d ts l h q = absurd (omega arith)
  boolean_literal-Reads false (suc f) d ts l h q =
      primary-token f d (identifier_token (codes "false")) ts _ refl (omega arith) refl

  pub path-Reads : (x : Variable) (steps : List Step) → Reads js c (Expr.path x steps) 0
  unfolding body eval read_primary inner_depth
  path-Reads x steps zero d ts l h q = absurd (omega arith)
  path-Reads x steps (suc f) d ts l h q =
      primary-token f d (identifier_token (variable_name x)) (show_steps steps ++ ts) _ refl
        (omega arith)
        (read_identifier-path f x (show_steps steps ++ ts)
          ∙ read_path-show_steps steps f (fetch js c x) ts (omega arith) q.0)

  unary-prefix :
      (f : ℕ) (primary : Parser js) (p : Prefix) (ts : Tokens)
      → parse_unary js (suc f) primary (operator_token (prefix_symbol p) ∷ ts)
        ≡ (parse_unary js f primary ts >>= λ (v, ts'). apply_prefix js p v >>= λ w. ok (w, ts'))
  unfolding parse_unary apply_prefix equal among
  unary-prefix f primary Prefix.negation ts = refl
  unary-prefix f primary Prefix.minus_sign ts =
      bind_cong (parse_unary js f primary ts) _ _ λ (v, ts'). sym (bind_assoc (as_number js v) _ _)
  unary-prefix f primary Prefix.plus_sign ts =
      bind_cong (parse_unary js f primary ts) _ _ λ (v, ts'). sym (bind_assoc (as_number js v) _ _)

  pub prefixed-Reads : (p : Prefix) (a : Expr) → Reads js c a 0 → Reads js c (Expr.prefixed p a) 0
  unfolding body eval inner_depth parse_from
  prefixed-Reads p a r zero d ts l h q = absurd (omega arith)
  prefixed-Reads p a r (suc f) d ts l h q =
      let rest = show 0 a ++ ts in
      let room : length rest < suc f = omega (arith, l) in
      unary-prefix f (parse_primary js (suc f) c d) p rest
      ∙ ap (λ x. x >>= λ (v, ts'). apply_prefix js p v >>= λ w. ok (w, ts'))
          (parse_unary-fuel js f (suc f) (parse_primary js (suc f) c d) rest (omega arith)
              (omega arith)
            ∙ Reads-through js c a 0 r (suc f) d ts room h q)
      ∙ bind_assoc (eval js c a) (λ v. ok (v, ts))
          (λ (v, ts'). apply_prefix js p v >>= λ w. ok (w, ts'))
      ∙ sym (bind_assoc (eval js c a) (apply_prefix js p) (λ w. ok (w, ts)))
