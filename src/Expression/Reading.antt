-- ===== src/Expression/Reading.antt =====
-- The tokenizer reads a token that is written with a space behind it (`tokenize` of
-- src/workflow/safe-expression.service.ts).
use mathlib.Core.List.{append_assoc}
use model_hub.Common.{
  false-true, same_code, ℕ, [], ◌∷◌, ◌++◌, Bool, true, false, not, none, some, ◌≡◌, refl, sym, ap,
  subst, ◌∙◌, ◌==◌, arith, Bool-cases, inl, inr,
}
use model_hub.Expression.Types.{
  Text, equal, among, TokenType, Token, Result, ok, failed, ◌>>=◌, Relation, unsupported_token,
}
use model_hub.Expression.Syntax.{
  Operator, Prefix, symbol, prefix_symbol, operator_token, punctuation_token, identifier_token,
  string_token, number_token,
}
use model_hub.Expression.Lexer.{
  is_space, is_digit, is_identifier_start, is_identifier_part, mantissa, match_number,
  match_identifier, read_string, word, word_token, next_token, token,
}
use model_hub.Expression.Writing.{
  Punctuation, mark, IsName, IsNumeral, IsWritable, escape, write_as,
}
use model_hub.Expression.Matching.{
  space, behind_match, match_number-behind, match_identifier-behind, read_string-escape,
}

abbrev pub next_of : Text → Result (Token × Text)
next_of [] = failed unsupported_token
next_of (c ∷ cs) = next_token c cs

abbrev pub starts_word : Text → Bool
starts_word [] = false
starts_word (c ∷ cs) = not (is_space c)

-- A character of an identifier is no other.
flip : (c d : ℕ) → (d == c) ≡ false → (c == d) ≡ false
flip c d h = ground arith

apart : (x c : ℕ) → is_identifier_part x ≡ false → is_identifier_part c ≡ true → (x == c) ≡ false
apart x c h k = elim (Bool-cases (x == c)) [
  | inl same ↦
      absurd
        (false-true (sym h ∙ subst (λ y. is_identifier_part y ≡ true) (sym (same_code x c same)) k))
  | inr other ↦ other
]

apart_from :
    (c x : ℕ) → is_identifier_part x ≡ false → is_identifier_part c ≡ true → (c == x) ≡ false
apart_from c x h k = flip c x (apart x c h k)

next_token-word :
    (c : ℕ) (cs : Text) → is_identifier_part c ≡ true → next_token c cs ≡ word_token (c ∷ cs)
unfolding next_token among equal is_identifier_part is_identifier_start is_digit
next_token-word c cs h = rw (
  apart 61 c refl h,
  apart 33 c refl h,
  apart 38 c refl h,
  apart 124 c refl h,
  apart 62 c refl h,
  apart 60 c refl h,
  apart 43 c refl h,
  apart 45 c refl h,
  apart 42 c refl h,
  apart 47 c refl h,
  apart 37 c refl h,
  apart 40 c refl h,
  apart 41 c refl h,
  apart 46 c refl h,
  apart 91 c refl h,
  apart 93 c refl h,
  apart_from c 34 refl h,
  apart_from c 39 refl h,
)

part-start : (c : ℕ) → is_identifier_part c ≡ true → starts_word (c ∷ []) ≡ true
unfolding is_space is_identifier_part is_identifier_start is_digit
part-start c h = ground arith

full_stop_no_part : is_identifier_part 46 ≡ false
unfolding is_identifier_part is_identifier_start is_digit
full_stop_no_part = refl

start→part : (c : ℕ) → is_identifier_start c ≡ true → is_identifier_part c ≡ true
unfolding is_identifier_part
start→part c h = rw (h)

digit→part : (c : ℕ) → is_digit c ≡ true → is_identifier_part c ≡ true
unfolding is_identifier_part
digit→part c h = ground arith

start-no_digit : (c : ℕ) → is_identifier_start c ≡ true → is_digit c ≡ false
unfolding is_identifier_start is_digit
start-no_digit c h = ground arith

match_number-start :
    (c : ℕ) (cs : Text) → is_identifier_start c ≡ true → match_number (c ∷ cs) ≡ none
unfolding match_number mantissa
match_number-start c cs h =
    rw (start-no_digit c h, apart_from c 46 full_stop_no_part (start→part c h))

match_identifier-none :
    (c : ℕ) (cs : Text) → is_identifier_start c ≡ false → match_identifier (c ∷ cs) ≡ none
unfolding match_identifier
match_identifier-none c cs h = rw (h)

none-some : {A : Type 0} (a : A) → none ≡ some a → ⊥
none-some a h = cc

name-start : (c : ℕ) (cs : Text) → IsName (c ∷ cs) → is_identifier_start c ≡ true
name-start c cs h = elim (Bool-cases (is_identifier_start c)) [
  | inl start ↦ start
  | inr other ↦ absurd (none-some _ (sym (match_identifier-none c cs other) ∙ h))
]

no_name : IsName [] → ⊥
unfolding match_identifier
no_name h = cc

name-reads : (t r : Text) → IsName t → next_of (t ++ space r) ≡ ok (identifier_token t, space r)
unfolding word_token
name-reads [] r h = absurd (no_name h)
name-reads (c ∷ cs) r h =
    let start = name-start c cs h in
    let rest = cs ++ space r in
    next_token-word c rest (start→part c start)
    ∙ ap (λ m. word m (match_identifier (c ∷ rest))) (match_number-start c rest start)
    ∙ ap (word none) (match_identifier-behind (c ∷ cs) r ∙ ap (behind_match r) h)

numeral-reads : (t r : Text) → IsNumeral t → next_of (t ++ space r) ≡ ok (number_token t, space r)
unfolding word_token
numeral-reads [] r h = absurd h
numeral-reads (c ∷ cs) r h =
    let rest = cs ++ space r in
    next_token-word c rest (digit→part c h.0)
    ∙ ap (λ m. word m (match_identifier (c ∷ rest)))
        (match_number-behind c cs r ∙ ap (behind_match r) h.1)

quoted-reads :
    (t r : Text) → next_of (write_as TokenType.string t ++ space r) ≡ ok (string_token t, space r)
unfolding next_token among equal
quoted-reads t r =
    ap (λ x. read_string 34 false x >>= λ read. ok (token TokenType.string read))
      (append_assoc (escape t) (34 ∷ []) (space r))
    ∙ ap (λ x. x >>= λ read. ok (token TokenType.string read)) (read_string-escape t (space r))

operator-reads :
    (o : Operator) (r : Text)
    → next_of (symbol o ++ space r) ≡ ok (operator_token (symbol o), space r)
unfolding next_token among equal
operator-reads Operator.or r = refl
operator-reads Operator.and r = refl
operator-reads Operator.equal_to r = refl
operator-reads Operator.unequal_to r = refl
operator-reads Operator.strictly_equal_to r = refl
operator-reads Operator.strictly_unequal_to r = refl
operator-reads (Operator.relates Relation.gt) r = refl
operator-reads (Operator.relates Relation.ge) r = refl
operator-reads (Operator.relates Relation.lt) r = refl
operator-reads (Operator.relates Relation.le) r = refl
operator-reads Operator.plus r = refl
operator-reads Operator.minus r = refl
operator-reads Operator.times r = refl
operator-reads Operator.over r = refl
operator-reads Operator.modulo r = refl

prefix-reads :
    (p : Prefix) (r : Text)
    → next_of (prefix_symbol p ++ space r) ≡ ok (operator_token (prefix_symbol p), space r)
unfolding next_token among equal
prefix-reads Prefix.negation r = refl
prefix-reads Prefix.minus_sign r = refl
prefix-reads Prefix.plus_sign r = refl

mark-reads :
    (p : Punctuation) (r : Text)
    → next_of (mark p ++ space r) ≡ ok (punctuation_token (mark p), space r)
unfolding next_token among equal
mark-reads Punctuation.open_parenthesis r = refl
mark-reads Punctuation.close_parenthesis r = refl
mark-reads Punctuation.full_stop r = refl
mark-reads Punctuation.open_bracket r = refl
mark-reads Punctuation.close_bracket r = refl

pub write-reads :
    (t : Token)
    → IsWritable t
    → (r : Text) → next_of (write_as t.type t.value ++ space r) ≡ ok (t, space r)
write-reads _ (IsWritable.operator o) r = operator-reads o r
write-reads _ (IsWritable.prefix p) r = prefix-reads p r
write-reads _ (IsWritable.punctuation p) r = mark-reads p r
write-reads _ (IsWritable.name t h) r = name-reads t r h
write-reads _ (IsWritable.numeral t h) r = numeral-reads t r h
write-reads _ (IsWritable.quoted t) r = quoted-reads t r

operator-starts : (o : Operator) (r : Text) → starts_word (symbol o ++ space r) ≡ true
unfolding is_space
operator-starts o r = ground arith

prefix-starts : (p : Prefix) (r : Text) → starts_word (prefix_symbol p ++ space r) ≡ true
unfolding is_space
prefix-starts p r = ground arith

mark-starts : (p : Punctuation) (r : Text) → starts_word (mark p ++ space r) ≡ true
unfolding is_space
mark-starts p r = ground arith

pub write-starts :
    (t : Token)
    → IsWritable t
    → (r : Text) → starts_word (write_as t.type t.value ++ space r) ≡ true
unfolding is_space
write-starts _ (IsWritable.operator o) r = operator-starts o r
write-starts _ (IsWritable.prefix p) r = prefix-starts p r
write-starts _ (IsWritable.punctuation p) r = mark-starts p r
write-starts _ (IsWritable.name [] h) r = absurd (no_name h)
write-starts _ (IsWritable.name (c ∷ cs) h) r = part-start c (start→part c (name-start c cs h))
write-starts _ (IsWritable.numeral [] h) r = absurd h
write-starts _ (IsWritable.numeral (c ∷ cs) h) r = part-start c (digit→part c h.0)
write-starts _ (IsWritable.quoted t) r = refl
