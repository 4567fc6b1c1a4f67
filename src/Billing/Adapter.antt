-- ===== src/Billing/Adapter.antt =====
-- The billing adapter (src/billing/billing.adapter.ts) and the estimate that it starts from
-- (`estimate` in src/billing/pricing.service.ts). It joins the records and the wallets: the state
-- is both. Parameters: the two collections, whether the journal takes an entry, the policies and
-- prices that the adapter reads, and the configured alert threshold. The clock is an argument.
pub mod Settlement
pub mod Task
pub mod Twice
pub mod Retry
use model_hub.Common.{
  String, Option, none, some, ℕ, zero, suc, ◌+◌, List, Bool, true, false, ◌&&◌, if◌then◌else◌,
}
use model_hub.Common.Int.{ℤ, pos, ◌*ℤ◌}
use model_hub.Common.Collection.{Collection}
use model_hub.Wallet.Types.{Wallet, WalletTransaction}
use model_hub.Wallet.{Service, freeze, unfreeze, debit}
use model_hub.Billing.Types.{
  UsageType, BillingStatus, BillingPolicy, PriceEstimate, BillingRecord, is_internal,
  is_pre_deducted,
}
use model_hub.Billing.{
  CreateRecordParams, create_record, mark_pre_deducted, settle, mark_refunded, mark_failed,
}

-- What `getUnitPrice` answers.
pub record UnitPrice : Type 0 where
  pub unit_price : ℤ
  pub usage_type : UsageType
  pub currency : String
  pub duration_step : ℤ

-- The three fields of a request's input that `estimate` reads.
pub record Input : Type 0 where
  pub batch_quantity : Option ℤ
  pub duration : Option ℤ
  pub max_tokens : Option ℤ

abbrev or_else {ℓ} : {A : Type ℓ} → Option A → A → A
or_else none d = d
or_else (some a) d = a

unfoldable pub estimated_usage : UnitPrice → Input → ℤ
estimated_usage price input = elim price.usage_type [
  | UsageType.count ↦ or_else input.batch_quantity (pos 1)
  | UsageType.duration ↦ or_else input.duration price.duration_step
  | UsageType.token ↦ or_else input.max_tokens (pos 1000)
]

unfoldable pub estimate : UnitPrice → String → Input → PriceEstimate
estimate price model input = record {
  model = model;
  usage_type = price.usage_type;
  unit_price = price.unit_price;
  estimated_usage = estimated_usage price input;
  estimated_cost = price.unit_price *ℤ estimated_usage price input;
  currency = price.currency;
}

pub record InitContext : Type 0 where
  pub task_id : String
  pub api_key : String
  pub model : String
  pub provider : String
  pub input : Input

-- How a call ends: it returns, or it throws.
pub data Outcome : Type 0 where
  done : Outcome
  no_policy : String → Outcome
  duplicate_record : String → Outcome
  insufficient_balance : String → ℤ → Outcome
  debit_failed : String → Outcome

-- How a call of `unfreeze` ends: it returns, it throws with nothing done, or it throws although the
-- database has released the money.
pub data Attempt : Type 0 where
  works refused reply_lost : Attempt

-- The collections and the surroundings that the adapter is built on.
pub record Setup : Type 1 where
  pub wallets : Collection Wallet
  pub records : Collection BillingRecord
  pub accepts : List WalletTransaction → WalletTransaction → Bool
  pub client_policy : String → Option BillingPolicy
  pub portal_policy : String → Option BillingPolicy
  pub get_unit_price : String → UnitPrice
  pub low_balance_threshold : Option ℤ

pub record System (u : Setup) : Type 0 where
  pub records : u.records.Db
  pub wallet : Service u.wallets

abbrev pub prepays : UsageType → Bool
prepays UsageType.token = false
prepays _ = true

module _ (u : Setup) where
  -- The client's policy first, then that of an enabled portal key.
  unfoldable pub resolve_policy : String → Option BillingPolicy
  resolve_policy key = elim (u.client_policy key) [ some p ↦ some p | none ↦ u.portal_policy key ]

  -- `initBilling` from the freeze on, for an internal policy.
  unfoldable pub pre_deduct : InitContext → PriceEstimate → System u → Outcome × System u
  pre_deduct ctx est s =
      let (frozen, w) =
        freeze u.wallets u.accepts ctx.api_key est.estimated_cost ctx.task_id s.wallet in
      if frozen
      then (
        done,
        record { records = mark_pre_deducted u.records ctx.task_id s.records; wallet = w },
      )
      else (insufficient_balance ctx.api_key est.estimated_cost, record s { wallet = w })

  unfoldable pub bill : InitContext → PriceEstimate → BillingPolicy → System u → Outcome × System u
  unfolding pre_deduct
  bill ctx est policy s =
      elim (create_record u.records ctx.task_id
        (record {
          api_key = ctx.api_key;
          model = ctx.model;
          provider = ctx.provider;
          estimate = est;
          billing_policy = policy;
        })
        s.records) [
          | none ↦ (duplicate_record ctx.task_id, s)
          | some db ↦
              if is_internal policy && prepays est.usage_type
              then pre_deduct ctx est (record s { records = db })
              else (done, record s { records = db })
        ]

  unfoldable pub init_billing : InitContext → System u → Outcome × System u
  unfolding resolve_policy bill estimate
  init_billing ctx s = elim (resolve_policy ctx.api_key) [
    | none ↦ (no_policy ctx.api_key, s)
    | some BillingPolicy.exempt ↦ (done, s)
    | some policy ↦ bill ctx (estimate (u.get_unit_price ctx.model) ctx.model ctx.input) policy s
  ]

  -- The wallet's part of `settle`: whether the debit went through, and the wallets.
  unfoldable pub charge : BillingRecord → ℤ → String → Service u.wallets → Bool × Service u.wallets
  charge r cost task w =
      let released =
        if is_pre_deducted r.status
        then unfreeze u.wallets u.accepts r.api_key r.estimated_cost task w
        else w in
      debit u.wallets u.accepts u.low_balance_threshold r.api_key cost task released

  unfoldable pub settle_task : String → ℤ → ℕ → System u → Outcome × System u
  unfolding charge
  settle_task task usage now s = elim (u.records.find_one task s.records) [
    | none ↦ (done, s)
    | some r ↦
        let cost = r.unit_price *ℤ usage in
        let closed = settle u.records task usage cost now s.records in
        if is_internal r.billing_policy
        then (let (ok, w) = charge r cost task s.wallet in
            if ok then (done, record { records = closed; wallet = w }) else (
              debit_failed task,
              record { records = mark_failed u.records task "debit_failed" s.records; wallet = w },
            ))
        else (done, record s { records = closed })
  ]

  -- `retryUnfreeze`: `attempts i` says how the i-th call of `unfreeze` ends. Where the reply is
  -- lost, the money is released and the call throws before it writes to the journal.
  unfoldable pub retry_unfreeze :
      (ℕ → Attempt) → ℕ → ℕ → String → ℤ → String → Service u.wallets → Service u.wallets
  retry_unfreeze attempts zero attempt key amount task w = w
  retry_unfreeze attempts (suc left) attempt key amount task w = elim (attempts attempt) [
    | works ↦ unfreeze u.wallets u.accepts key amount task w
    | refused ↦ retry_unfreeze attempts left (attempt + 1) key amount task w
    | reply_lost ↦
        retry_unfreeze attempts left (attempt + 1) key amount task
          (unfreeze u.wallets (λ _ _. false) key amount task w)
  ]

  abbrev pub max_retries : ℕ
  max_retries = 3

  unfoldable pub refund : (ℕ → Attempt) → String → ℕ → System u → Outcome × System u
  unfolding retry_unfreeze
  refund attempts task now s = elim (u.records.find_one task s.records) [
    | none ↦ (done, s)
    | some r ↦ (
      done,
      record {
        records = mark_refunded u.records task now s.records;
        wallet =
            if is_internal r.billing_policy && is_pre_deducted r.status
            then retry_unfreeze attempts max_retries 1 r.api_key r.estimated_cost task s.wallet
            else s.wallet;
      },
    )
  ]
