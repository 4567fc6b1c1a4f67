-- ===== src/Wallet/Tests.antt =====
-- Runs of the wallet service on a small collection, and the theorems at concrete inputs.
use model_hub.Common.{String, none, some, List, [], ◌∷◌, Bool, true, ◌≡◌, refl, arith}
use model_hub.Common.Int.{pos, ◌+ℤ◌, ◌-ℤ◌}
use model_hub.Common.Collection.{assoc, find_assoc}
use model_hub.Wallet.Types.{WalletTransaction}
use model_hub.Wallet.{Service, freeze, debit}
use model_hub.Wallet.Spec.{Op, spec_run}
use model_hub.Wallet.Refines.{view, run, apply, view-run}
use model_hub.Wallet.Solvency.{IsSolvent, run-IsSolvent}
use model_hub.Wallet.Audit.{Reconciles, run-Reconciles}

abbrev yes_always : List WalletTransaction → WalletTransaction → Bool
yes_always _ _ = true

abbrev shop : Service assoc
shop = record {
  wallets =
      ("k1", record { balance = pos 100; frozen_amount = pos 10; low_balance_threshold = pos 20 })
      ∷ ("k2", record { balance = pos 5; frozen_amount = pos 0; low_balance_threshold = pos 0 })
      ∷ [];
  journal = [];
  events = [];
}

-- A freeze, a debit of what is left, one that is refused, a release and a first credit.
abbrev day : List Op
day =
    Op.freeze "k1" (pos 30) "t1"
    ∷ Op.debit none "k1" (pos 60) "t2"
    ∷ Op.debit none "k1" (pos 1) "t3"
    ∷ Op.unfreeze "k1" (pos 30) "t1"
    ∷ Op.credit "k3" (pos 7) "手动充值" none
    ∷ []

day_balance :
    find_assoc "k1" (run assoc yes_always day shop).wallets
    ≡ some (record { balance = pos 40; frozen_amount = pos 10; low_balance_threshold = pos 20 })
unfolding run apply freeze debit ◌+ℤ◌ ◌-ℤ◌ model_hub.Wallet.unfreeze model_hub.Wallet.credit
day_balance = refl

view-run_example :
    view assoc yes_always (run assoc yes_always day shop)
    ≡ spec_run day (view assoc yes_always shop)
view-run_example = view-run assoc yes_always day shop

shop-IsSolvent : (j : String) → IsSolvent (assoc.find_one j shop.wallets)
shop-IsSolvent j = ground arith

run-IsSolvent_example : IsSolvent (find_assoc "k1" (run assoc yes_always day shop).wallets)
run-IsSolvent_example = run-IsSolvent assoc yes_always day shop (omega arith) shop-IsSolvent "k1"

run-Reconciles_example : Reconciles assoc "k1" shop (run assoc yes_always day shop)
run-Reconciles_example = run-Reconciles assoc day shop "k1"
