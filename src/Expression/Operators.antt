-- ===== src/Expression/Operators.antt =====
-- Values and operators of the expression language: truth, equality, numbers, properties, and what each
-- binary operator does to two values (`SafeExpressionParser` of
-- src/workflow/safe-expression.service.ts).
use model_hub.Common.{
  List, [], ◌∷◌, ◌++◌, Bool, true, false, not, ◌&&◌, ◌||◌, Option, none, some, if◌then◌else◌,
}
use model_hub.Expression.Types.{
  Text, codes, equal, among, not_numeric, not_primitive, or_failed, division_by_zero,
  forbidden_property, Result, ok, failed, ◌>>=◌, Value, undefined, null, boolean, num, str, object,
  Fields, no_fields, field, Relation, Language,
}

-- The keys that `FORBIDDEN_PROPERTIES[property]` finds: its own, and those that every object inherits.
abbrev pub forbidden_properties : List Text
forbidden_properties =
    codes "__proto__"
    ∷ codes "prototype"
    ∷ codes "constructor"
    ∷ codes "hasOwnProperty"
    ∷ codes "isPrototypeOf"
    ∷ codes "propertyIsEnumerable"
    ∷ codes "toLocaleString"
    ∷ codes "toString"
    ∷ codes "valueOf"
    ∷ codes "__defineGetter__"
    ∷ codes "__defineSetter__"
    ∷ codes "__lookupGetter__"
    ∷ codes "__lookupSetter__"
    ∷ []

module _ (js : Language) where
  open js use {
    N, of_text, is_finite, is_nan, is_zero, same, add, sub, mul, div, rem, neg, relate, to_text,
    own_of_text,
  }

  -- `Boolean(value)`
  abbrev pub truthy : Value N → Bool
  truthy undefined = false
  truthy null = false
  truthy (boolean b) = b
  truthy (num n) = not (is_zero n || is_nan n)
  truthy (str []) = false
  truthy (str (c ∷ cs)) = true
  truthy (object i fs) = true

  -- `===`
  abbrev pub strict_equal : Value N → Value N → Bool
  strict_equal undefined undefined = true
  strict_equal null null = true
  strict_equal (boolean true) (boolean b) = b
  strict_equal (boolean false) (boolean b) = not b
  strict_equal (num m) (num n) = same m n
  strict_equal (str s) (str t) = equal s t
  strict_equal (object i fs) (object j gs) = equal (i ∷ []) (j ∷ [])
  strict_equal _ _ = false

  abbrev pub is_string : Value N → Bool
  is_string (str s) = true
  is_string _ = false

  unfoldable pub as_number : Value N → Result N
  as_number (num n) = if is_finite n then ok n else failed not_numeric
  as_number _ = failed not_numeric

  abbrev pub own_field : Fields N → Text → Value N
  own_field no_fields property = undefined
  own_field (field k v fs) property = if equal k property then v else own_field fs property

  abbrev pub or_undefined : Option (Value N) → Value N
  or_undefined none = undefined
  or_undefined (some v) = v

  abbrev pub own_property : Value N → Text → Value N
  own_property (object i fs) property = own_field fs property
  own_property (str s) property = or_undefined (own_of_text s property)
  own_property _ property = undefined

  unfoldable pub read_property : Value N → Text → Result (Value N)
  read_property value property =
      if among property forbidden_properties
      then failed forbidden_property
      else ok (own_property value property)

  -- What the loops do with the two values at an operator.
  unfoldable pub combine_or : Text → Value N → Value N → Result (Value N)
  combine_or operator value right = ok (boolean (truthy value || truthy right))

  unfoldable pub combine_and : Text → Value N → Value N → Result (Value N)
  combine_and operator value right = ok (boolean (truthy value && truthy right))

  unfoldable pub combine_equality : Text → Value N → Value N → Result (Value N)
  combine_equality operator value right = ok (
      boolean (
        if among operator (codes "==" ∷ codes "===" ∷ [])
        then strict_equal value right
        else not (strict_equal value right)))

  abbrev pub relation : Text → Relation
  relation operator =
      if equal operator (codes ">")
      then Relation.gt
      else if equal operator (codes ">=")
      then Relation.ge
      else if equal operator (codes "<")
      then Relation.lt
      else Relation.le

  unfoldable pub combine_comparison : Text → Value N → Value N → Result (Value N)
  combine_comparison operator value right = do
    b ← or_failed not_primitive (relate (relation operator) value right)
    ok (boolean b)

  unfoldable pub combine_additive : Text → Value N → Value N → Result (Value N)
  unfolding as_number
  combine_additive operator value right =
      if equal operator (codes "+")
      then if is_string value || is_string right
        then (do
          a ← or_failed not_primitive (to_text value)
          b ← or_failed not_primitive (to_text right)
          ok (str (a ++ b)))
        else (do a ← as_number value; b ← as_number right; ok (num (add a b)))
      else (do a ← as_number value; b ← as_number right; ok (num (sub a b)))

  abbrev pub multiply : Text → N → N → Result (Value N)
  multiply operator a b =
      if (equal operator (codes "/") || equal operator (codes "%")) && is_zero b
      then failed division_by_zero
      else if equal operator (codes "*")
      then ok (num (mul a b))
      else if equal operator (codes "/")
      then ok (num (div a b))
      else ok (num (rem a b))

  unfoldable pub combine_multiplicative : Text → Value N → Value N → Result (Value N)
  unfolding as_number
  combine_multiplicative operator value right = do
    b ← as_number right
    a ← as_number value
    multiply operator a b
