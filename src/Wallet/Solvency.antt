-- ===== src/Wallet/Solvency.antt =====
-- No wallet is overdrawn: the frozen part never goes below zero nor above the balance.
use model_hub.Common.{
  String, Option, none, some, List, [], ◌∷◌, Bool, sym, subst, str_eq, Bool-cases, inl, inr,
}
use model_hub.Common.Int.{pos, ◌≤ℤ◌, int_laws}
use model_hub.Common.Collection.{Collection}
use model_hub.Wallet.Types.{Wallet, WalletTransaction}
use model_hub.Wallet.{Service}
use model_hub.Wallet.Spec.{Op, amount_of, Account, Accounts, key_of, step, spec, spec_run}
use model_hub.Wallet.Refines.{as_account, view, run, view-run}

abbrev pub NonNegative : List Op → Type 0
NonNegative [] = Unit
NonNegative (op ∷ ops) = (pos 0 ≤ℤ amount_of op) × NonNegative ops

-- 0 ≤ frozen ≤ balance, for the wallet of a key if there is one.
abbrev pub IsSolvent : Option Wallet → Type 0
IsSolvent none = Unit
IsSolvent (some w) = (pos 0 ≤ℤ w.frozen_amount) × (w.frozen_amount ≤ℤ w.balance)

abbrev IsCovered : Option Account → Type 0
IsCovered none = Unit
IsCovered (some x) = (pos 0 ≤ℤ x.free) × (pos 0 ≤ℤ x.held)

step-IsCovered :
    (op : Op) (o : Option Account) → pos 0 ≤ℤ amount_of op → IsCovered o → IsCovered (step op o)
step-IsCovered (Op.freeze k a t) none p h = h
step-IsCovered (Op.freeze k a t) (some x) p h = grind int_laws
step-IsCovered (Op.unfreeze k a t) none p h = h
step-IsCovered (Op.unfreeze k a t) (some x) p h = grind int_laws
step-IsCovered (Op.debit g k a t) none p h = h
step-IsCovered (Op.debit g k a t) (some x) p h = grind int_laws
step-IsCovered (Op.credit k a r t) none p h = grind int_laws
step-IsCovered (Op.credit k a r t) (some x) p h = grind int_laws

spec-IsCovered :
    (op : Op) (m : Accounts)
    → pos 0 ≤ℤ amount_of op
    → ((j : String) → IsCovered (m j))
    → (j : String) → IsCovered (spec op m j)
spec-IsCovered op m p h j = elim (Bool-cases (str_eq (key_of op) j)) [
  | inl same ↦ rw same (step-IsCovered op (m j) p (h j))
  | inr other ↦ rw other (h j)
]

spec_run-IsCovered :
    (ops : List Op) (m : Accounts)
    → NonNegative ops
    → ((j : String) → IsCovered (m j))
    → (j : String) → IsCovered (spec_run ops m j)
unfolding spec_run
spec_run-IsCovered [] m p h = h
spec_run-IsCovered (op ∷ ops) m p h =
    spec_run-IsCovered ops (spec op m) p.1 (spec-IsCovered op m p.0 h)

IsSolvent→IsCovered : (o : Option Wallet) → IsSolvent o → IsCovered (as_account o)
IsSolvent→IsCovered none h = h
IsSolvent→IsCovered (some w) h = grind int_laws

IsCovered→IsSolvent : (o : Option Wallet) → IsCovered (as_account o) → IsSolvent o
IsCovered→IsSolvent none h = h
IsCovered→IsSolvent (some w) h = grind int_laws

module _ (c : Collection Wallet) (accepts : List WalletTransaction → WalletTransaction → Bool) where
  -- After any sequence of calls with amounts that are not negative, every wallet is solvent if
  -- every wallet was: the frozen part is at least 0 and at most the balance.
  pub run-IsSolvent :
      (ops : List Op) (s : Service c)
      → NonNegative ops
      → ((j : String) → IsSolvent (c.find_one j s.wallets))
      → (j : String) → IsSolvent (c.find_one j (run c accepts ops s).wallets)
  run-IsSolvent ops s p h j = IsCovered→IsSolvent _ (
      subst (λ (m : Accounts). IsCovered (m j)) (sym (view-run c accepts ops s))
        (spec_run-IsCovered ops (view c accepts s) p
          (λ i. IsSolvent→IsCovered (c.find_one i s.wallets) (h i)) j))
