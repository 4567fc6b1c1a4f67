-- ===== src/Expression/Climb.antt =====
-- Reading what is shown, one level at a time: from a level to the next, through parentheses, and at
-- an operator (src/workflow/safe-expression.service.ts).
use model_hub.Common.{
  and_true_second, and_true_first, not-true, ℕ, zero, suc, ◌+◌, ◌≤◌, ◌<◌, [], ◌∷◌, ◌++◌, Bool, true,
  false, not, ◌||◌, ◌&&◌, ◌≡◌, refl, sym, ap, ◌∙◌, subst, ◌⊎◌, arith, length, length-append, inl,
  inr, leb, ltb,
}
use mathlib.Core.List.{append_assoc}
use model_hub.Expression.Types.{codes, equal, among, Result, ok, ◌>>=◌, Value, Relation, Language}
use model_hub.Expression.Parser.{
  Tokens, is_operator, is_punctuation, Parser, Context, loop, level, parse_unary, parse_or,
  parse_primary, read_primary, max_depth,
}
use model_hub.Expression.Levels.{
  bind_cong, bind_assoc, operators_of, combine_of, parse_from, after, parse_or-parse_from,
}
use model_hub.Expression.Syntax.{
  Expr, Operator, rank, symbol, operator_token, punctuation_token, height, wrap, body, show, deeper,
  inner_depth, depth, eval,
}

pub not_deep : (d : ℕ) → suc d ≤ max_depth → ltb max_depth (suc d) ≡ false
not_deep d h = ground arith

rank-low : (o : Operator) → leb (suc (rank o)) 6 ≡ true
rank-low o = ground arith

pub height-low : (e : Expr) → leb (height e) 6 ≡ true
height-low (Expr.binary o a b) = rank-low o
height-low _ = refl

closed_room :
    (xs ts : Tokens) (f : ℕ)
    → length (wrap false xs ++ ts) < suc f
    → length (xs ++ punctuation_token (codes ")") ∷ ts) < f
closed_room xs ts f h = omega (
  arith,
  length-append (xs ++ punctuation_token (codes ")") ∷ []) ts,
  length-append xs (punctuation_token (codes ")") ∷ []),
  length-append xs (punctuation_token (codes ")") ∷ ts),
)

-- What may stand behind an operand of a level: nothing that goes on with it.
abbrev pub path_goes_on : Tokens → Bool
path_goes_on ts =
    is_punctuation (codes ".") ts
    || (is_punctuation (codes "[") ts || is_punctuation (codes "(") ts)

abbrev pub IsQuiet : ℕ → Tokens → Type 0
IsQuiet n ts =
    (path_goes_on ts ≡ false) × ((m : ℕ) → m < n → is_operator (operators_of m) ts ≡ false)

abbrev pub below : ℕ → ℕ
below zero = zero
below (suc n) = n

IsQuiet-below : (n : ℕ) (ts : Tokens) → IsQuiet n ts → IsQuiet (below n) ts
IsQuiet-below zero ts q = q
IsQuiet-below (suc n) ts q = (q.0, λ m h. q.1 m (omega arith))

pub le_cases : (m n : ℕ) → m < suc n → (m ≡ n) ⊎ (m < n)
le_cases m n h = ground arith

abbrev holds_below : ℕ → (ℕ → Bool) → Bool
holds_below zero p = true
holds_below (suc n) p = p n && holds_below n p

holds_below-true : (n : ℕ) (p : ℕ → Bool) → holds_below n p ≡ true → (m : ℕ) → m < n → p m ≡ true
holds_below-true zero p h m l = absurd (omega arith)
holds_below-true (suc n) p h m l = elim (le_cases m n l) [
  | inl same ↦ rw (same) (and_true_first (p n) (holds_below n p) h)
  | inr less ↦ holds_below-true n p (and_true_second (p n) (holds_below n p) h) m less
]

-- No operator is of a tighter level than its own, and it is of its own.
own_level_first :
    (o : Operator)
    → among (symbol o) (operators_of (rank o))
        && holds_below (rank o) (λ m. not (among (symbol o) (operators_of m)))
      ≡ true
unfolding among equal
own_level_first Operator.or = refl
own_level_first Operator.and = refl
own_level_first Operator.equal_to = refl
own_level_first Operator.unequal_to = refl
own_level_first Operator.strictly_equal_to = refl
own_level_first Operator.strictly_unequal_to = refl
own_level_first (Operator.relates Relation.gt) = refl
own_level_first (Operator.relates Relation.ge) = refl
own_level_first (Operator.relates Relation.lt) = refl
own_level_first (Operator.relates Relation.le) = refl
own_level_first Operator.plus = refl
own_level_first Operator.minus = refl
own_level_first Operator.times = refl
own_level_first Operator.over = refl
own_level_first Operator.modulo = refl

pub operator-IsQuiet :
    (o : Operator) (ts : Tokens) → IsQuiet (rank o) (operator_token (symbol o) ∷ ts)
operator-IsQuiet o ts = (
  refl,
  λ m h. not-true (
      holds_below-true (rank o) (λ k. not (among (symbol o) (operators_of k)))
        (and_true_second (among (symbol o) (operators_of (rank o))) _ (own_level_first o)) m h),
)

pub operator-here :
    (o : Operator) (ts : Tokens)
    → is_operator (operators_of (rank o)) (operator_token (symbol o) ∷ ts) ≡ true
operator-here o ts = and_true_first (among (symbol o) (operators_of (rank o))) _ (own_level_first o)

pub closing-IsQuiet : (n : ℕ) (ts : Tokens) → IsQuiet n (punctuation_token (codes ")") ∷ ts)
unfolding equal
closing-IsQuiet n ts = (refl, λ m h. refl)

module _ (js : Language) (c : Context js) where
  open js use {N}

  -- The expression is read from its tokens at a level, whatever stands behind it there.
  abbrev pub Reads : Expr → ℕ → Type 0
  Reads e n =
      (f d : ℕ) (ts : Tokens)
      → length (show n e ++ ts) < f
      → depth n e + d ≤ max_depth
      → IsQuiet (below n) ts
      → parse_from js f (parse_primary js f c d) n (show n e ++ ts)
        ≡ eval js c e >>= λ v. after js f (parse_primary js f c d) n v ts

  after-IsQuiet :
      (f : ℕ) (primary : Parser js) (n : ℕ) (v : Value N) (ts : Tokens)
      → IsQuiet n ts
      → after js f primary n v ts ≡ ok (v, ts)
  unfolding loop
  after-IsQuiet f primary zero v ts q = refl
  after-IsQuiet zero primary (suc n) v ts q = rw (q.1 n (omega arith))
  after-IsQuiet (suc f) primary (suc n) v ts q = rw (q.1 n (omega arith))

  -- At a level that goes no further.
  pub Reads-through :
      (e : Expr) (n : ℕ)
      → Reads e n
      → (f d : ℕ) (ts : Tokens) → length (show n e ++ ts) < f
      → depth n e + d ≤ max_depth
      → IsQuiet n ts
      → parse_from js f (parse_primary js f c d) n (show n e ++ ts)
        ≡ eval js c e >>= λ v. ok (v, ts)
  Reads-through e n r f d ts l h q =
      r f d ts l h (IsQuiet-below n ts q)
      ∙ bind_cong (eval js c e) _ _ λ v. after-IsQuiet f (parse_primary js f c d) n v ts q

  -- Up a level that has no operator of the expression.
  pub Reads-climb :
      (e : Expr) (n : ℕ) → leb (height e) (suc n) ≡ leb (height e) n → Reads e n → Reads e (suc n)
  unfolding parse_from level
  Reads-climb e n same r f d ts l h q =
      let bare : Result (Value N × Tokens) =
        parse_from js f (parse_primary js f c d) n (show n e ++ ts) in
      let k : Value N × Tokens → Result (Value N × Tokens) = λ (v, ts').
        loop js f (operators_of n) (combine_of js n) (parse_from js f (parse_primary js f c d) n) v
          ts' in
      let through =
        Reads-through e n r f d ts (subst (λ b. length (wrap b (body e) ++ ts) < f) same l)
          (subst (λ b. deeper b (inner_depth e) + d ≤ max_depth) same h) q in
      ap (λ b. parse_from js f (parse_primary js f c d) n (wrap b (body e) ++ ts) >>= k) same
      ∙ ap (λ x. x >>= k) through
      ∙ bind_assoc (eval js c e) (λ v. ok (v, ts)) k

  -- In parentheses.
  primary-parenthesised :
      (f d : ℕ) (inside ts : Tokens) (r : Result (Value N))
      → suc d ≤ max_depth
      → parse_or js f (parse_primary js f c (suc d)) inside
        ≡ (r >>= λ v. ok (v, punctuation_token (codes ")") ∷ ts))
      → parse_primary js (suc f) c d (punctuation_token (codes "(") ∷ inside)
        ≡ r >>= λ v. ok (v, ts)
  unfolding parse_primary read_primary equal
  primary-parenthesised f d inside ts r h e = rw (not_deep d h, e) (bind_assoc r _ _)

  unary-parenthesis :
      (f : ℕ) (primary : Parser js) (ts : Tokens)
      → parse_unary js f primary (punctuation_token (codes "(") ∷ ts)
        ≡ primary (punctuation_token (codes "(") ∷ ts)
  unfolding parse_unary
  unary-parenthesis zero primary ts = refl
  unary-parenthesis (suc f) primary ts = refl

  pub Reads-parenthesised : (e : Expr) → leb (height e) 0 ≡ false → Reads e 6 → Reads e 0
  unfolding parse_from
  Reads-parenthesised e high r zero d ts l h q = absurd (omega arith)
  Reads-parenthesised e high r (suc f) d ts l h q =
      let closed : Tokens = punctuation_token (codes ")") ∷ ts in
      let whole =
        append_assoc (punctuation_token (codes "(") ∷ body e) (punctuation_token (codes ")") ∷ [])
          ts in
      let shown = ap (λ b. wrap b (body e)) (height-low e) in
      let room = subst (λ b. length (wrap b (body e) ++ ts) < suc f) high l in
      let depth_room = subst (λ b. deeper b (inner_depth e) + d ≤ max_depth) high h in
      let room' : length (show 6 e ++ closed) < f =
        subst (λ xs. length (xs ++ closed) < f) (sym shown) (closed_room (body e) ts f room) in
      let depth_room' : depth 6 e + suc d ≤ max_depth =
        subst (λ b. deeper b (inner_depth e) + suc d ≤ max_depth) (sym (height-low e))
          (omega arith) in
      let inner = Reads-through e 6 r f (suc d) closed room' depth_room' (closing-IsQuiet 6 ts) in
      let bare =
        sym (ap (λ xs. parse_from js f (parse_primary js f c (suc d)) 6 (xs ++ closed)) shown)
        ∙ inner in
      ap (λ b. parse_unary js (suc f) (parse_primary js (suc f) c d) (wrap b (body e) ++ ts)) high
      ∙ ap (parse_unary js (suc f) (parse_primary js (suc f) c d)) whole
      ∙ unary-parenthesis (suc f) (parse_primary js (suc f) c d) (body e ++ closed)
      ∙ primary-parenthesised f d (body e ++ closed) ts (eval js c e) (omega arith) (
          ap (λ p. p (body e ++ closed)) (parse_or-parse_from js f (parse_primary js f c (suc d)))
          ∙ bare)
