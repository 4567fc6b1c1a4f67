-- ===== src/Expression/Sandbox.antt =====
-- The properties that an expression may not name (`FORBIDDEN_PROPERTIES` of
-- src/workflow/safe-expression.service.ts).
use model_hub.Common.{
  or_cases, false-true, List, [], ◌∷◌, Bool, true, false, ◌||◌, ◌≡◌, ◌≢◌, refl, sym, ◌∙◌, ◌≤◌,
  length, inl, inr,
}
use model_hub.Expression.Types.{
  Text, among, Error, Result, ok, failed, out_of_fuel, ◌>>=◌, Value, Language,
}
use model_hub.Expression.Parser.{Context, max_depth}
use model_hub.Expression.Operators.{forbidden_properties, read_property}
use model_hub.Expression.Syntax.{
  Expr, Step, key, follow, fetch, apply, apply_prefix, eval, show, depth,
}
use model_hub.Expression.Lexer.{evaluate, max_tokens, max_expression_length}
use model_hub.Expression.Writing.{render, IsProper}
use model_hub.Expression.Evaluation.{evaluate-render}

abbrev pub steps_forbidden : List Step → Bool
steps_forbidden [] = false
steps_forbidden (s ∷ steps) = among (key s) forbidden_properties || steps_forbidden steps

-- A forbidden property is named anywhere in the expression.
unfoldable pub names_forbidden : Expr → Bool
names_forbidden (Expr.path x steps) = steps_forbidden steps
names_forbidden (Expr.prefixed p a) = names_forbidden a
names_forbidden (Expr.binary o a b) = names_forbidden a || names_forbidden b
names_forbidden _ = false

module _ {ℓ κ} {A : Type ℓ} {B : Type κ} where
  -- Where the first part gives nothing, or what follows gives nothing, neither does the whole.
  bind_first : (r : Result A) (k : A → Result B) → ((a : A) → r ≢ ok a) → (b : B) → (r >>= k) ≢ ok b
  bind_first (ok a) k h b e = h a refl
  bind_first (failed x) k h b e = cc
  bind_first out_of_fuel k h b e = cc

  bind_second :
      (r : Result A) (k : A → Result B)
      → ((a : A) (b : B) → k a ≢ ok b)
      → (b : B) → (r >>= k) ≢ ok b
  bind_second (ok a) k h b e = h a b e
  bind_second (failed x) k h b e = cc
  bind_second out_of_fuel k h b e = cc

failed_ok {ℓ} : {A : Type ℓ} {x : Error} {a : A} → failed x ≡ ok a → ⊥
failed_ok e = cc

module _ (js : Language) (c : Context js) where
  open js use {N}

  read_property-forbidden :
      (v : Value N) (t : Text)
      → among t forbidden_properties ≡ true
      → (w : Value N) → read_property js v t ≢ ok w
  unfolding read_property
  read_property-forbidden v t h w = rw (h) (λ e. failed_ok e)

  follow-forbidden :
      (steps : List Step)
      → steps_forbidden steps ≡ true
      → (v w : Value N) → follow js steps v ≢ ok w
  unfolding follow
  follow-forbidden [] h v w = absurd (false-true h)
  follow-forbidden (s ∷ steps) h v w =
      elim (or_cases (among (key s) forbidden_properties) (steps_forbidden steps) h) [
        | inl here ↦
            bind_first (read_property js v (key s)) (follow js steps)
              (read_property-forbidden v (key s) here) w
        | inr later ↦
            bind_second (read_property js v (key s)) (follow js steps)
              (follow-forbidden steps later) w
      ]

  eval-forbidden : (e : Expr) → names_forbidden e ≡ true → (v : Value N) → eval js c e ≢ ok v
  unfolding eval names_forbidden
  eval-forbidden (Expr.number_literal t) h v = absurd (false-true h)
  eval-forbidden (Expr.string_literal t) h v = absurd (false-true h)
  eval-forbidden (Expr.boolean_literal b) h v = absurd (false-true h)
  eval-forbidden Expr.null_literal h v = absurd (false-true h)
  eval-forbidden (Expr.path x steps) h v = follow-forbidden steps h (fetch js c x) v
  eval-forbidden (Expr.prefixed p a) h v =
      bind_first (eval js c a) (apply_prefix js p) (eval-forbidden a h) v
  eval-forbidden (Expr.binary o a b) h v =
      elim (or_cases (names_forbidden a) (names_forbidden b) h) [
        | inl first ↦ bind_first (eval js c a) _ (eval-forbidden a first) v
        | inr second ↦
            bind_second (eval js c a) _
              (λ x. bind_first (eval js c b) (apply js o x) (eval-forbidden b second)) v
      ]

-- The text of an expression that names a forbidden property anywhere, behind `||` and `&&` as well,
-- has no value, whatever the context holds, if it is one that the language can write and length,
-- tokens and nesting are within the limits.
pub evaluate-forbidden :
    (js : Language) (c : Context js) (e : Expr)
    → names_forbidden e ≡ true
    → IsProper e
    → length (render (show 6 e)) ≤ max_expression_length
    → length (show 6 e) ≤ max_tokens
    → depth 6 e ≤ max_depth
    → (v : Value js.N) → evaluate js c (render (show 6 e)) ≢ ok v
evaluate-forbidden js c e f p h k d v given =
    eval-forbidden js c e f v (sym (evaluate-render js c e p h k d) ∙ given)
