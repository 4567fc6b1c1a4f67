-- ===== src/Wallet.antt =====
-- The wallet service (src/billing/wallet.service.ts): one wallet for each API key, a journal of
-- transactions and the low-balance events. A method takes the state and returns the new one.
-- The database is a `Collection`. Whether the journal takes an entry is a parameter, since a
-- failed insertion is caught and only logged.
pub mod Types
pub mod Spec
pub mod Refines
pub mod Solvency
pub mod Audit
mod Tests
use model_hub.Common.{String, Option, none, some, List, ◌∷◌, Bool, true, false, ◌&&◌, if◌then◌else◌}
use model_hub.Common.Int.{ℤ, pos, ◌+ℤ◌, ◌-ℤ◌, ltb_ℤ, leb_ℤ}
use model_hub.Common.Collection.{Collection, find_one_and_update}
use Types.{Wallet, WalletTransaction, LowBalance, TransactionType, available}

pub record Service (c : Collection Wallet) : Type 0 where
  pub wallets : c.Db
  pub journal : List WalletTransaction
  pub events : List LowBalance

-- `{ balance: 0, frozenAmount: 0, lowBalanceThreshold: 0 }`
abbrev pub new_wallet : Wallet
new_wallet = record { balance = pos 0; frozen_amount = pos 0; low_balance_threshold = pos 0 }

-- The filter of `freeze` and `debit`: `balance - frozenAmount >= amount`.
abbrev pub has_available : ℤ → Wallet → Bool
has_available amount w = leb_ℤ amount (available w)

-- The filter of `unfreeze`: `frozenAmount >= amount`.
abbrev pub has_frozen : ℤ → Wallet → Bool
has_frozen amount w = leb_ℤ amount w.frozen_amount

abbrev pub inc_frozen : ℤ → Wallet → Wallet
inc_frozen amount w = record w { frozen_amount = w.frozen_amount +ℤ amount }

abbrev pub dec_frozen : ℤ → Wallet → Wallet
dec_frozen amount w = record w { frozen_amount = w.frozen_amount -ℤ amount }

abbrev pub inc_balance : ℤ → Wallet → Wallet
inc_balance amount w = record w { balance = w.balance +ℤ amount }

abbrev pub dec_balance : ℤ → Wallet → Wallet
dec_balance amount w = record w { balance = w.balance -ℤ amount }

-- `walletBefore?.balance ?? 0`
abbrev pub balance_or_zero : Option Wallet → ℤ
balance_or_zero none = pos 0
balance_or_zero (some w) = w.balance

-- `this.config.billing?.wallet?.lowBalanceThreshold ?? wallet.lowBalanceThreshold`
abbrev pub threshold_of : Option ℤ → Wallet → ℤ
threshold_of none w = w.low_balance_threshold
threshold_of (some t) w = t

module _ (c : Collection Wallet) (accepts : List WalletTransaction → WalletTransaction → Bool) where
  -- `recordTransaction`: an entry that the database refuses is dropped.
  pub record_transaction : WalletTransaction → Service c → Service c
  record_transaction t s = if accepts s.journal t then record s { journal = t ∷ s.journal } else s

  -- `ensureWallet`
  pub ensure_wallet : String → Service c → Service c
  ensure_wallet key s = record s { wallets = c.upsert key new_wallet s.wallets }

  unfoldable pub freeze : String → ℤ → String → Service c → Bool × Service c
  unfolding record_transaction
  freeze key amount task s =
      let (found, db) =
        find_one_and_update c key (has_available amount) (inc_frozen amount) s.wallets in
      let s' : Service c = record s { wallets = db } in
      elim found [
        | none ↦ (false, s')
        | some w ↦ (
          true,
          record_transaction
              (record {
                api_key = key;
                type = TransactionType.freeze;
                amount = amount;
                balance_before = w.balance;
                balance_after = w.balance;
                related_task_id = some task;
                reason = "预扣费冻结";
              })
              s',
        )
      ]

  unfoldable pub unfreeze : String → ℤ → String → Service c → Service c
  unfolding record_transaction
  unfreeze key amount task s =
      let (found, db) =
        find_one_and_update c key (has_frozen amount) (dec_frozen amount) s.wallets in
      let s' : Service c = record s { wallets = db } in
      elim found [
        | none ↦ s'
        | some w ↦
            record_transaction
              (record {
                api_key = key;
                type = TransactionType.unfreeze;
                amount = amount;
                balance_before = w.balance;
                balance_after = w.balance;
                related_task_id = some task;
                reason = "解冻释放";
              })
              s'
      ]

  -- The alert at the end of `debit`.
  pub alert : Option ℤ → String → Wallet → Service c → Service c
  alert config key w s =
      let threshold = threshold_of config w in
      if ltb_ℤ (pos 0) threshold && ltb_ℤ w.balance threshold
      then record s {
        events = record { api_key = key; balance = w.balance; threshold = threshold } ∷ s.events;
      }
      else s

  unfoldable pub debit : Option ℤ → String → ℤ → String → Service c → Bool × Service c
  unfolding record_transaction alert
  debit config key amount task s =
      let before = balance_or_zero (c.find_one key s.wallets) in
      let (found, db) =
        find_one_and_update c key (has_available amount) (dec_balance amount) s.wallets in
      let s' : Service c = record s { wallets = db } in
      elim found [
        | none ↦ (false, s')
        | some w ↦ (
          true,
          alert config key w (
              record_transaction
                (record {
                  api_key = key;
                  type = TransactionType.debit;
                  amount = amount;
                  balance_before = before;
                  balance_after = w.balance;
                  related_task_id = some task;
                  reason = "任务扣费";
                })
                s'),
        )
      ]

  -- `wallet!.balance` of a wallet that is not there would throw; `ensureWallet` has made it.
  unfoldable pub credit : String → ℤ → String → Option String → Service c → Option (Service c)
  unfolding record_transaction ensure_wallet
  credit key amount reason task s =
      let s₁ : Service c = ensure_wallet key s in
      let before = balance_or_zero (c.find_one key s₁.wallets) in
      let (found, db) = find_one_and_update c key (λ _. true) (inc_balance amount) s₁.wallets in
      let s₂ : Service c = record s₁ { wallets = db } in
      elim found [
        | none ↦ none
        | some w ↦ some (
            record_transaction
              (record {
                api_key = key;
                type = TransactionType.credit;
                amount = amount;
                balance_before = before;
                balance_after = w.balance;
                related_task_id = task;
                reason = reason;
              })
              s₂)
      ]
