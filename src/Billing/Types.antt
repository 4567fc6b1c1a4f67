-- ===== src/Billing/Types.antt =====
-- The data of the billing module: billing/interfaces/billing.interface.ts and
-- database/schemas/billing-record.schema.ts. Prices, usages and costs are integers in the smallest
-- unit; times are milliseconds.
use model_hub.Common.{String, Option, ℕ, Bool, true, false}
use model_hub.Common.Int.{ℤ}

pub data UsageType : Type 0 where
  token count duration : UsageType

pub data BillingStatus : Type 0 where
  estimated pre_deducted settled refunded failed : BillingStatus

pub data BillingPolicy : Type 0 where
  internal external exempt : BillingPolicy

pub record PriceEstimate : Type 0 where
  pub model : String
  pub usage_type : UsageType
  pub unit_price : ℤ
  pub estimated_usage : ℤ
  pub estimated_cost : ℤ
  pub currency : String

-- The key of a record is its `taskId`, under a unique index.
pub record BillingRecord : Type 0 where
  pub api_key : String
  pub model : String
  pub provider : String
  pub usage_type : UsageType
  pub estimated_usage : ℤ
  pub actual_usage : ℤ
  pub unit_price : ℤ
  pub estimated_cost : ℤ
  pub actual_cost : ℤ
  pub currency : String
  pub billing_policy : BillingPolicy
  pub status : BillingStatus
  pub settled_at : Option ℕ
  pub refunded_at : Option ℕ
  pub fail_reason : Option String

abbrev pub is_estimated : BillingStatus → Bool
is_estimated BillingStatus.estimated = true
is_estimated _ = false

abbrev pub is_pre_deducted : BillingStatus → Bool
is_pre_deducted BillingStatus.pre_deducted = true
is_pre_deducted _ = false

abbrev pub is_settled : BillingStatus → Bool
is_settled BillingStatus.settled = true
is_settled _ = false

abbrev pub is_refunded : BillingStatus → Bool
is_refunded BillingStatus.refunded = true
is_refunded _ = false

-- `status: { $in: [ESTIMATED, PRE_DEDUCTED] }`
abbrev pub is_open : BillingStatus → Bool
is_open BillingStatus.estimated = true
is_open BillingStatus.pre_deducted = true
is_open _ = false

abbrev pub is_internal : BillingPolicy → Bool
is_internal BillingPolicy.internal = true
is_internal _ = false

-- The calls that change a record that is there.
pub data Call : Type 0 where
  mark_pre_deducted : Call
  settle : ℤ → ℤ → ℕ → Call
  mark_refunded : ℕ → Call
  mark_failed : String → Call
