-- ===== src/Wallet/Refines.antt =====
-- The methods of the wallet service implement the accounts: what a call does to the collection is
-- what `spec` does to the accounts, and the history of a service is a history of accounts.
use mathlib.Core.Path.{fun_ext}
use model_hub.Common.{
  String, Option, none, some, List, [], ◌∷◌, Bool, true, false, ◌≡◌, ◌≢◌, refl, ap, ◌∙◌, arith,
  str_eq, Bool-cases, if◌then◌else◌, inl, inr,
}
use model_hub.Common.Int.{ℤ, leb_ℤ, int_laws}
use model_hub.Common.Collection.{Collection, updated, found_or, find-upsert_self}
use model_hub.Wallet.Types.{Wallet, WalletTransaction, available}
use model_hub.Wallet.{
  Service, ensure_wallet, freeze, unfreeze, debit, credit, has_available, has_frozen, inc_frozen,
  dec_frozen, inc_balance, dec_balance, new_wallet,
}
use model_hub.Wallet.Spec.{
  Op, Account, hold, release, spend, deposit, opened, on_account, Accounts, spec, spec_run,
}

abbrev pub account : Wallet → Account
account w = record { free = available w; held = w.frozen_amount }

abbrev pub as_account : Option Wallet → Option Account
as_account none = none
as_account (some w) = some (account w)

-- How each conditional update shows on the account.
freeze-as_account :
    (a : ℤ) (o : Option Wallet)
    → as_account (updated (has_available a) (inc_frozen a) o) ≡ on_account (hold a) (as_account o)
freeze-as_account a none = refl
freeze-as_account a (some w) = grind int_laws

unfreeze-as_account :
    (a : ℤ) (o : Option Wallet)
    → as_account (updated (has_frozen a) (dec_frozen a) o) ≡ on_account (release a) (as_account o)
unfreeze-as_account a none = refl
unfreeze-as_account a (some w) = grind int_laws

debit-as_account :
    (a : ℤ) (o : Option Wallet)
    → as_account (updated (has_available a) (dec_balance a) o) ≡ on_account (spend a) (as_account o)
debit-as_account a none = refl
debit-as_account a (some w) = grind int_laws

credit-as_account :
    (a : ℤ) (o : Option Wallet)
    → as_account (updated (λ _. true) (inc_balance a) (some (found_or new_wallet o)))
      ≡ some (deposit a (opened (as_account o)))
credit-as_account a none = grind int_laws
credit-as_account a (some w) = grind int_laws

module _ (c : Collection Wallet) (accepts : List WalletTransaction → WalletTransaction → Bool) where
  abbrev pub view : Service c → Accounts
  view s j = as_account (c.find_one j s.wallets)

  -- A call; a credit that throws leaves the state alone (it never does: `credit-ne-none`).
  unfoldable pub apply : Op → Service c → Service c
  apply (Op.freeze k a t) s = (freeze c accepts k a t s).1
  apply (Op.unfreeze k a t) s = unfreeze c accepts k a t s
  apply (Op.debit g k a t) s = (debit c accepts g k a t s).1
  apply (Op.credit k a r t) s = elim (credit c accepts k a r t s) [ none ↦ s | some s' ↦ s' ]

  unfoldable pub run : List Op → Service c → Service c
  run [] s = s
  run (op ∷ ops) s = run ops (apply op s)

  pub freeze-wallets :
      (k : String) (a : ℤ) (t : String) (s : Service c)
      → (freeze c accepts k a t s).1.wallets
        ≡ c.update_one k (has_available a) (inc_frozen a) s.wallets
  unfolding freeze
  freeze-wallets k a t s = ground arith

  pub unfreeze-wallets :
      (k : String) (a : ℤ) (t : String) (s : Service c)
      → (unfreeze c accepts k a t s).wallets
        ≡ c.update_one k (has_frozen a) (dec_frozen a) s.wallets
  unfolding unfreeze
  unfreeze-wallets k a t s = ground arith

  pub debit-wallets :
      (g : Option ℤ) (k : String) (a : ℤ) (t : String) (s : Service c)
      → (debit c accepts g k a t s).1.wallets
        ≡ c.update_one k (has_available a) (dec_balance a) s.wallets
  unfolding debit
  debit-wallets g k a t s = ground arith

  pub credit-ne-none :
      (k : String) (a : ℤ) (r : String) (t : Option String) (s : Service c)
      → credit c accepts k a r t s ≢ none
  unfolding credit ensure_wallet
  credit-ne-none k a r t s = ground (arith, find-upsert_self c k new_wallet s.wallets)

  pub credit-wallets :
      (k : String) (a : ℤ) (r : String) (t : Option String) (s : Service c)
      → (apply (Op.credit k a r t) s).wallets
        ≡ c.update_one k (λ _. true) (inc_balance a) (c.upsert k new_wallet s.wallets)
  unfolding credit apply ensure_wallet
  credit-wallets k a r t s = ground (arith, find-upsert_self c k new_wallet s.wallets)

  module _ (k j : String) (a : ℤ) (s : Service c) where
    -- A conditional update under `k`, seen at `j`.
    view-update :
        (p : Wallet → Bool) (f : Wallet → Wallet) (g : Option Account → Option Account)
        → ((o : Option Wallet) → as_account (updated p f o) ≡ g (as_account o))
        → as_account (c.find_one j (c.update_one k p f s.wallets))
          ≡ (if str_eq k j then g (view s j) else view s j)
    view-update p f g h = elim (Bool-cases (str_eq k j)) [
      | inl same ↦ rw (c.find_one-update_one, same) (h (c.find_one j s.wallets))
      | inr other ↦ rw (c.find_one-update_one, other) refl
    ]

    view-credit :
        as_account (
          c.find_one j
            (c.update_one k (λ _. true) (inc_balance a) (c.upsert k new_wallet s.wallets)))
        ≡ (if str_eq k j then some (deposit a (opened (view s j))) else view s j)
    view-credit = elim (Bool-cases (str_eq k j)) [
      | inl same ↦
          simp (c.find_one-update_one, c.find_one-upsert, same)
            (credit-as_account a (c.find_one j s.wallets))
      | inr other ↦ simp (c.find_one-update_one, c.find_one-upsert, other)
    ]

  -- One call does to the collection what `spec` does to the accounts.
  pub view-apply : (op : Op) (s : Service c) (j : String) → view (apply op s) j ≡ spec op (view s) j
  unfolding apply
  view-apply (Op.freeze k a t) s j = rw (freeze-wallets k a t s) (
      view-update k j a s (has_available a) (inc_frozen a) (on_account (hold a))
        (freeze-as_account a))
  view-apply (Op.unfreeze k a t) s j = rw (unfreeze-wallets k a t s) (
      view-update k j a s (has_frozen a) (dec_frozen a) (on_account (release a))
        (unfreeze-as_account a))
  view-apply (Op.debit g k a t) s j = rw (debit-wallets g k a t s) (
      view-update k j a s (has_available a) (dec_balance a) (on_account (spend a))
        (debit-as_account a))
  view-apply (Op.credit k a r t) s j = rw (credit-wallets k a r t s) (view-credit k j a s)

  -- The accounts that a service shows after any sequence of calls, whatever was recorded in the
  -- journal, are those of the abstract history of the same calls.
  pub view-run : (ops : List Op) (s : Service c) → view (run ops s) ≡ spec_run ops (view s)
  unfolding run spec_run
  view-run [] s = refl
  view-run (op ∷ ops) s = view-run ops (apply op s) ∙ ap (spec_run ops) (fun_ext (view-apply op s))

  -- The answers of `freeze` and `debit`: whether the account has that much free money.
  abbrev pub affords : ℤ → Option Account → Bool
  affords a none = false
  affords a (some x) = leb_ℤ a x.free

  pub freeze-affords :
      (k : String) (a : ℤ) (t : String) (s : Service c)
      → (freeze c accepts k a t s).0 ≡ affords a (view s k)
  unfolding freeze
  freeze-affords k a t s = ground arith

  pub debit-affords :
      (g : Option ℤ) (k : String) (a : ℤ) (t : String) (s : Service c)
      → (debit c accepts g k a t s).0 ≡ affords a (view s k)
  unfolding debit
  debit-affords g k a t s = ground arith
