-- ===== src/Expression/Types.antt =====
-- Tokens, values and outcomes of the expression language
-- (src/workflow/safe-expression.service.ts). A text is the list of its code units. The positions of
-- the tokens, which only the messages show, are left out.
use Prim.Native.Char.{code}
use model_hub.Common.{
  ℕ, String, List, [], ◌∷◌, Bool, true, false, ◌&&◌, ◌||◌, Option, none, some, ◌≡◌, ◌↔◌, arith,
  ◌==◌,
}

abbrev pub Text : Type 0
Text = List ℕ

abbrev pub codes : String → Text
codes String.[] = []
codes (String.◌∷◌ c s) = code c ∷ codes s

unfoldable pub equal : Text → Text → Bool
equal [] [] = true
equal (x ∷ xs) (y ∷ ys) = x == y && equal xs ys
equal _ _ = false

pub equal_iff : (a b : Text) → (equal a b ≡ true) ↔ (a ≡ b)
unfolding equal
equal_iff (x ∷ a) (y ∷ b) = ground (arith, equal_iff a b)
equal_iff _ _ = ground arith

-- `includes`
unfoldable pub among : Text → List Text → Bool
unfolding equal
among t [] = false
among t (x ∷ xs) = equal x t || among t xs

pub data TokenType : Type 0 where
  number string identifier operator punctuation eof : TokenType

pub record Token : Type 0 where
  pub type : TokenType
  pub value : Text

abbrev pub same_type : TokenType → TokenType → Bool
same_type TokenType.number TokenType.number = true
same_type TokenType.string TokenType.string = true
same_type TokenType.identifier TokenType.identifier = true
same_type TokenType.operator TokenType.operator = true
same_type TokenType.punctuation TokenType.punctuation = true
same_type TokenType.eof TokenType.eof = true
same_type _ _ = false

-- The errors that are thrown.
pub data Error : Type 0 where
  empty_expression expression_too_long too_many_tokens : Error
  unsupported_escape unterminated_string unsupported_token : Error
  expected not_numeric not_primitive division_by_zero too_deep : Error
  unknown_identifier forbidden_property not_literal_access function_call unexpected_token : Error

-- `failed` is what is thrown; `out_of_fuel` has no counterpart in the program.
pub data Result {ℓ} (A : Type ℓ) : Type ℓ where
  ok : A → Result A
  failed : Error → Result A
  out_of_fuel : Result A

module _ {ℓ κ} {A : Type ℓ} {B : Type κ} where
  infixl 5 ◌>>=◌
  abbrev pub ◌>>=◌ : Result A → (A → Result B) → Result B
  ok a >>= f = f a
  failed e >>= f = failed e
  out_of_fuel >>= f = out_of_fuel

abbrev pub or_failed {ℓ} : {A : Type ℓ} → Error → Option A → Result A
or_failed e none = failed e
or_failed e (some a) = ok a

-- A value of JavaScript; an object is its identity and its own properties, an array too.
mutual
  pub data Value (N : Type 0) : Type 0 where
    undefined null : Value N
    boolean : Bool → Value N
    num : N → Value N
    str : Text → Value N
    object : ℕ → Fields N → Value N

  pub data Fields (N : Type 0) : Type 0 where
    no_fields : Fields N
    field : Text → Value N → Fields N → Fields N

pub data Relation : Type 0 where
  gt ge lt le : Relation

-- What the language itself does: its numbers, comparison of any two values and `String(value)`, with
-- none for an object that has no primitive value, and the own properties of a text.
pub record Language : Type 1 where
  pub N : Type 0
  pub of_text : Text → N
  pub is_finite : N → Bool
  pub is_nan : N → Bool
  pub is_zero : N → Bool
  pub same : N → N → Bool
  pub add : N → N → N
  pub sub : N → N → N
  pub mul : N → N → N
  pub div : N → N → N
  pub rem : N → N → N
  pub neg : N → N
  pub relate : Relation → Value N → Value N → Option Bool
  pub to_text : Value N → Option Text
  pub own_of_text : Text → Text → Option (Value N)
