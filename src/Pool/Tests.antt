-- ===== src/Pool/Tests.antt =====
-- Three accounts with the weights 5, 1 and 1.
use model_hub.Common.{List, [], ◌∷◌, none, some, ◌≡◌, refl, length, arith}
use model_hub.Common.Int.{pos, ◌+ℤ◌, ◌-ℤ◌, ◌<ℤ◌, ◌≤ℤ◌}
use model_hub.Pool.{AccountEntry, total_weight, select, scan}
use model_hub.Pool.Weights.{share}
use model_hub.Pool.Sums.{times}
use model_hub.Pool.Fairness.{serve, count, NonNegative, serve-share}

abbrev heavy : AccountEntry
heavy = record { id = "a"; weight = some (pos 5) }

abbrev light : AccountEntry
light = record { id = "b"; weight = none }

abbrev other : AccountEntry
other = record { id = "c"; weight = some (pos 1) }

abbrev trio : List AccountEntry
trio = heavy ∷ light ∷ other ∷ []

trio_order : (serve 7 trio []).0 ≡ "a" ∷ "a" ∷ "b" ∷ "a" ∷ "c" ∷ "a" ∷ "a" ∷ []
unfolding serve select scan ◌+ℤ◌ ◌-ℤ◌
trio_order = refl

trio-NonNegative : NonNegative trio
trio-NonNegative = (omega arith, (omega arith, (omega arith, refl)))

serve-share_example :
    let served = times (count "a" (serve 7 trio []).0) (total_weight trio) in
    (length (serve 7 trio []).0 ≡ 7)
    × (served <ℤ (times 7 (share "a" trio) +ℤ total_weight trio))
    × ((times 7 (share "a" trio) +ℤ total_weight trio) ≤ℤ (served +ℤ times 3 (total_weight trio)))
unfolding ◌+ℤ◌
serve-share_example =
    serve-share heavy light (other ∷ []) (refl, (refl, (refl, refl))) refl 7 "a" trio-NonNegative
      refl
