-- ===== src/Expression/Matching.antt =====
-- What the tokenizer matches does not change with a space and more text behind it (`tokenize` of
-- src/workflow/safe-expression.service.ts).
use model_hub.Common.{
  same_code, ℕ, [], ◌∷◌, ◌++◌, Bool, false, not, ◌&&◌, ◌||◌, Option, none, some, ◌≡◌, refl, sym, ap,
  subst, ◌∙◌, ◌==◌, Bool-cases, inl, inr,
}
use model_hub.Expression.Types.{Text, ok}
use model_hub.Expression.Lexer.{
  is_digit, is_identifier_start, is_identifier_part, span, fraction, sign, exponent, mantissa,
  with_exponent, match_number, match_identifier, is_empty, pushed, escape_map, read_string,
}
use model_hub.Expression.Writing.{escape}

abbrev pub space : Text → Text
space r = 32 ∷ r

abbrev pub behind : Text → Text × Text → Text × Text
behind r m = (m.0, m.1 ++ space r)

abbrev pub behind_match : Text → Option (Text × Text) → Option (Text × Text)
behind_match r none = none
behind_match r (some m) = some (behind r m)

pub span-behind :
    (p : ℕ → Bool) (t r : Text) → p 32 ≡ false → span p (t ++ space r) ≡ behind r (span p t)
unfolding span
span-behind p [] r h = rw (h)
span-behind p (c ∷ cs) r h = elim (Bool-cases (p c)) [
  | inl holds ↦ rw (holds, span-behind p cs r h)
  | inr other ↦ rw (other)
]

fraction-behind : (t r : Text) → fraction (t ++ space r) ≡ behind r (fraction t)
unfolding fraction is_digit
fraction-behind [] r = refl
fraction-behind (c ∷ cs) r = elim (Bool-cases (c == 46)) [
  | inl holds ↦ rw (holds, span-behind is_digit cs r refl)
  | inr other ↦ rw (other)
]

sign-behind : (t r : Text) → sign (t ++ space r) ≡ behind r (sign t)
unfolding sign
sign-behind [] r = refl
sign-behind (c ∷ cs) r = elim (Bool-cases (c == 43 || c == 45)) [
  | inl holds ↦ rw (holds)
  | inr other ↦ rw (other)
]

exponent-behind : (t r : Text) → exponent (t ++ space r) ≡ behind r (exponent t)
unfolding exponent is_digit
exponent-behind [] r = refl
exponent-behind (c ∷ cs) r =
    let signed = sign-behind cs r in
    let digits = span-behind is_digit (sign cs).1 r refl in
    elim (Bool-cases ((c == 101 || c == 69) && not (is_empty (span is_digit (sign cs).1).0))) [
      | inl holds ↦ rw (signed, digits, holds)
      | inr other ↦ rw (signed, digits, other)
    ]

mantissa-behind :
    (c : ℕ) (cs r : Text) → mantissa (c ∷ cs ++ space r) ≡ behind_match r (mantissa (c ∷ cs))
unfolding mantissa is_digit
mantissa-behind c cs r =
    let digits = span-behind is_digit cs r refl in
    let rest = fraction-behind (span is_digit cs).1 r in
    elim (Bool-cases (is_digit c)) [
      | inl holds ↦ rw (digits, holds, rest)
      | inr other ↦ elim (Bool-cases (c == 46 && not (is_empty (span is_digit cs).0))) [
        | inl holds ↦ rw (digits, other, holds)
        | inr another ↦ rw (digits, other, another)
      ]
    ]

with_exponent-behind :
    (m : Option (Text × Text)) (r : Text)
    → with_exponent (behind_match r m) ≡ behind_match r (with_exponent m)
with_exponent-behind none r = refl
with_exponent-behind (some (matched, rest)) r = rw (exponent-behind rest r)

pub match_number-behind :
    (c : ℕ) (cs r : Text)
    → match_number (c ∷ cs ++ space r) ≡ behind_match r (match_number (c ∷ cs))
unfolding match_number
match_number-behind c cs r =
    ap with_exponent (mantissa-behind c cs r) ∙ with_exponent-behind (mantissa (c ∷ cs)) r

pub match_identifier-behind :
    (t r : Text) → match_identifier (t ++ space r) ≡ behind_match r (match_identifier t)
unfolding match_identifier is_identifier_part is_identifier_start is_digit
match_identifier-behind [] r = refl
match_identifier-behind (c ∷ cs) r =
    let more = span-behind is_identifier_part cs r refl in
    elim (Bool-cases (is_identifier_start c)) [
      | inl holds ↦ rw (more, holds)
      | inr other ↦ rw (more, other)
    ]

escape_plain :
    (c : ℕ) (cs : Text) → (c == 34) ≡ false → (c == 92) ≡ false → escape (c ∷ cs) ≡ c ∷ escape cs
unfolding escape
escape_plain c cs quote backslash = rw (quote, backslash)

read_string_plain :
    (c : ℕ) (cs : Text)
    → (c == 34) ≡ false
    → (c == 92) ≡ false
    → read_string 34 false (c ∷ cs) ≡ pushed c (read_string 34 false cs)
unfolding read_string
read_string_plain c cs quote backslash = rw (quote, backslash)

EscapeReads : ℕ → Text → Text → Type 0
EscapeReads c cs r = read_string 34 false (escape (c ∷ cs) ++ 34 ∷ r) ≡ ok (c ∷ cs, r)

pub read_string-escape : (t r : Text) → read_string 34 false (escape t ++ 34 ∷ r) ≡ ok (t, r)
unfolding read_string escape escape_map EscapeReads
read_string-escape [] r = refl
read_string-escape (c ∷ cs) r = elim (Bool-cases (c == 34)) [
  | inl quote ↦
      subst (λ x. EscapeReads x cs r) (sym (same_code c 34 quote))
        (ap (pushed 34) (read_string-escape cs r))
  | inr plain ↦ elim (Bool-cases (c == 92)) [
    | inl backslash ↦
        subst (λ x. EscapeReads x cs r) (sym (same_code c 92 backslash))
          (ap (pushed 92) (read_string-escape cs r))
    | inr other ↦
        ap (λ x. read_string 34 false (x ++ 34 ∷ r)) (escape_plain c cs plain other)
        ∙ read_string_plain c (escape cs ++ 34 ∷ r) plain other
        ∙ ap (pushed c) (read_string-escape cs r)
  ]
]
