-- ===== src/Common/Double.antt =====
-- Numbers of JavaScript that are not negative and not too large or small: a mantissa over a power of
-- two. A product is rounded to 53 bits, to the nearest and in the middle to the even one.
use model_hub.Common.{
  ℕ, zero, suc, ◌+◌, ◌*◌, ◌/◌, ◌%◌, ◌^◌, Bool, ◌||◌, ◌&&◌, not, ltb, leb, if◌then◌else◌,
}

-- `mantissa / 2 ^ scale`, with a mantissa of 53 bits at most.
pub record Double : Type 0 where
  pub mantissa : ℕ
  pub scale : ℕ

abbrev pub precision : ℕ
precision = 9007199254740992

-- How many bits there are after the first 53, up to `fuel`.
abbrev pub excess : ℕ → ℕ → ℕ
excess zero p = 0
excess (suc fuel) p = let rest = excess fuel (p / 2) in if ltb p precision then 0 else suc rest

-- Whether what `n / 2 ^ s` leaves is rounded up.
abbrev pub rounds_up : ℕ → ℕ → Bool
rounds_up s n =
    ltb (2 ^ s) (2 * (n % 2 ^ s))
    || (not (ltb (2 * (n % 2 ^ s)) (2 ^ s)) && not (leb (n / 2 ^ s % 2) 0))

abbrev pub round_half_even : ℕ → ℕ → ℕ
round_half_even s n = if rounds_up s n then n / 2 ^ s + 1 else n / 2 ^ s

-- `x * 100 > t`: the product has at most 60 bits.
unfoldable pub percent_exceeds : Double → ℕ → Bool
percent_exceeds x t =
    let s = excess 7 (x.mantissa * 100) in
    ltb (t * 2 ^ x.scale) (round_half_even s (x.mantissa * 100) * 2 ^ s)

abbrev pub zero_double : Double
zero_double = record { mantissa = 0; scale = 0 }
