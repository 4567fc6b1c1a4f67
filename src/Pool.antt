-- ===== src/Pool.antt =====
-- The smooth weighted round robin over the accounts of a provider
-- (src/provider/account-pool/strategies/weighted-round-robin.strategy.ts). The running weights are an
-- ordered map from the accounts' ids; a weight is an integer, with 1 where an account has none.
pub mod Weights
pub mod Sums
pub mod Fairness
mod Tests
use model_hub.Common.{
  ℕ, zero, suc, String, List, [], ◌∷◌, Bool, true, false, Option, none, some, if◌then◌else◌,
}
use model_hub.Common.Int.{ℤ, pos, ◌+ℤ◌, ◌-ℤ◌, ltb_ℤ, leb_ℤ}
use model_hub.Common.OrderedMap.{get_key, set_key}

pub record AccountEntry : Type 0 where
  pub id : String
  pub weight : Option ℤ

-- `account.weight ?? 1`
abbrev pub weight_of : AccountEntry → ℤ
weight_of a = elim a.weight [ none ↦ pos 1 | some w ↦ w ]

abbrev pub Weights : Type 0
Weights = List (String × ℤ)

-- `this.currentWeights.get(id) ?? 0`
abbrev pub or_zero : Option ℤ → ℤ
or_zero none = pos 0
or_zero (some w) = w

abbrev pub current : String → Weights → ℤ
current id ws = or_zero (get_key id ws)

abbrev pub total_weight : List AccountEntry → ℤ
total_weight [] = pos 0
total_weight (a ∷ rest) = weight_of a +ℤ total_weight rest

-- `cw > bestCw`, where no account is best at first.
abbrev pub better : AccountEntry → ℤ → Option (AccountEntry × ℤ) → AccountEntry × ℤ
better a cw none = (a, cw)
better a cw (some (b, best_cw)) = if ltb_ℤ best_cw cw then (a, cw) else (b, best_cw)

-- The loop of `select`.
pub scan :
    List AccountEntry → Option (AccountEntry × ℤ) → Weights → Option (AccountEntry × ℤ) × Weights
scan [] best ws = (best, ws)
scan (a ∷ rest) best ws =
    let cw = current a.id ws +ℤ weight_of a in
    scan rest (some (better a cw best)) (set_key a.id cw ws)

abbrev pub settle_winner : ℤ → Option (AccountEntry × ℤ) × Weights → Option AccountEntry × Weights
settle_winner total (none, ws) = (none, ws)
settle_winner total (some (a, cw), ws) = (some a, set_key a.id (cw -ℤ total) ws)

unfoldable pub select : List AccountEntry → Weights → Option AccountEntry × Weights
unfolding scan
select [] ws = (none, ws)
select (a ∷ []) ws = (some a, ws)
select (a ∷ b ∷ rest) ws =
    if leb_ℤ (total_weight (a ∷ b ∷ rest)) (pos 0)
    then (some a, ws)
    else settle_winner (total_weight (a ∷ b ∷ rest)) (scan (a ∷ b ∷ rest) none ws)
