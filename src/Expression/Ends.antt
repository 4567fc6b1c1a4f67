-- ===== src/Expression/Ends.antt =====
-- Runs that keep within their fuel, with a property of what they give (the parser of
-- src/workflow/safe-expression.service.ts).
use model_hub.Common.{
  ◌≤◌, ◌<◌, List, [], ◌∷◌, Bool, true, false, ◌≡◌, refl, if◌then◌else◌, arith, length, ◌≢◌,
}
use model_hub.Expression.Types.{Text, TokenType, same_type, Result, ok, failed, out_of_fuel, ◌>>=◌}
use model_hub.Expression.Parser.{Tokens, current, rest_of, is_operator, is_punctuation}

-- The run kept within its fuel, and what it gives has a property.
abbrev pub Ends {ℓ} : {A : Type ℓ} → (A → Type 0) → Result A → Type 0
Ends P (ok a) = P a
Ends P (failed e) = true ≡ true
Ends P out_of_fuel = ⊥

pub Ends-bind {ℓ κ} :
    {A : Type ℓ} {B : Type κ} (P : A → Type 0) (Q : B → Type 0) (r : Result A) (k : A → Result B)
    → Ends P r
    → ((a : A) → P a → Ends Q (k a))
    → Ends Q (r >>= k)
Ends-bind P Q (ok a) k h f = f a h
Ends-bind P Q (failed e) k h f = refl
Ends-bind P Q out_of_fuel k h f = absurd h

pub Ends-if {ℓ} :
    {A : Type ℓ} (P : A → Type 0) (b : Bool) (x y : Result A)
    → (b ≡ true → Ends P x)
    → (b ≡ false → Ends P y)
    → Ends P (if b then x else y)
Ends-if P true x y hx hy = hx refl
Ends-if P false x y hx hy = hy refl

pub Ends-weaken {ℓ} :
    {A : Type ℓ} (P Q : A → Type 0) (r : Result A) → ((a : A) → P a → Q a) → Ends P r → Ends Q r
Ends-weaken P Q (ok a) f h = f a h
Ends-weaken P Q (failed e) f h = refl
Ends-weaken P Q out_of_fuel f h = absurd h

pub length-rest_of : (ts : Tokens) → length (rest_of ts) ≤ length ts
length-rest_of [] = omega arith
length-rest_of (t ∷ ts) = omega arith

-- A token that is no eof is there.
pub rest_of-lt :
    (ts : Tokens)
    → same_type (current ts).type TokenType.eof ≡ false
    → length (rest_of ts) < length ts
rest_of-lt [] h = cc
rest_of-lt (t ∷ ts) h = omega arith

pub not_eof :
    (type k : TokenType)
    → same_type type k ≡ true
    → same_type k TokenType.eof ≡ false
    → same_type type TokenType.eof ≡ false
not_eof type k h e = ground arith

pub is_operator-lt :
    (values : List Text) (ts : Tokens)
    → is_operator values ts ≡ true
    → length (rest_of ts) < length ts
is_operator-lt values [] h = cc
is_operator-lt values (t ∷ ts) h = omega arith

pub is_punctuation-lt :
    (value : Text) (ts : Tokens) → is_punctuation value ts ≡ true → length (rest_of ts) < length ts
is_punctuation-lt value [] h = cc
is_punctuation-lt value (t ∷ ts) h = omega arith

abbrev pub Answers {ℓ} : {A : Type ℓ} → Result A → Type 0
Answers r = Ends (λ a. true ≡ true) r

pub Answers-bind {ℓ κ} :
    {A : Type ℓ} {B : Type κ} (r : Result A) (k : A → Result B)
    → Answers r
    → ((a : A) → Answers (k a))
    → Answers (r >>= k)
Answers-bind r k h f = Ends-bind (λ _. true ≡ true) (λ _. true ≡ true) r k h λ a _. f a

pub Ends→answers {ℓ} : {A : Type ℓ} (r : Result A) → Answers r → r ≢ out_of_fuel
Ends→answers (ok a) h = cc
Ends→answers (failed e) h = cc
Ends→answers out_of_fuel h = absurd h
