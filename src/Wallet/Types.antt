-- ===== src/Wallet/Types.antt =====
-- The documents of the wallet service (database/schemas/wallet.schema.ts and
-- wallet-transaction.schema.ts, billing/interfaces/wallet.interface.ts). Amounts are integers in
-- the smallest unit of account; the key of a wallet, its `apiKey`, is the key of the collection.
use model_hub.Common.{String, Option}
use model_hub.Common.Int.{ℤ, ◌-ℤ◌}

pub data TransactionType : Type 0 where
  credit debit freeze unfreeze : TransactionType

pub record Wallet : Type 0 where
  pub balance : ℤ
  pub frozen_amount : ℤ
  pub low_balance_threshold : ℤ

pub record WalletTransaction : Type 0 where
  pub api_key : String
  pub type : TransactionType
  pub amount : ℤ
  pub balance_before : ℤ
  pub balance_after : ℤ
  pub related_task_id : Option String
  pub reason : String

-- The payload of the event `wallet.low_balance`.
pub record LowBalance : Type 0 where
  pub api_key : String
  pub balance : ℤ
  pub threshold : ℤ

-- `balance - frozenAmount`, as the database computes it in a filter.
abbrev pub available : Wallet → ℤ
available w = w.balance -ℤ w.frozen_amount
