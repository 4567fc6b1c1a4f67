-- ===== src/Billing.antt =====
-- The billing records (src/billing/billing.service.ts): one record for each task, whose status
-- changes by conditional updates. The collection is a parameter; `now` is the clock at the call.
pub mod Types
pub mod Lifecycle
pub mod Adapter
mod Tests
use model_hub.Common.{String, Option, none, some, ℕ, Bool, true, if◌then◌else◌}
use model_hub.Common.Int.{ℤ, pos}
use model_hub.Common.Collection.{Collection}
use Types.{
  BillingStatus, BillingPolicy, PriceEstimate, BillingRecord, is_estimated, is_settled, is_refunded,
  is_open,
}

-- `CreateRecordParams`, without the task ID, which is the key.
pub record CreateRecordParams : Type 0 where
  pub api_key : String
  pub model : String
  pub provider : String
  pub estimate : PriceEstimate
  pub billing_policy : BillingPolicy

-- The document that `createRecord` inserts, with the defaults of the schema.
unfoldable pub new_record : CreateRecordParams → BillingRecord
new_record p = record {
  api_key = p.api_key;
  model = p.model;
  provider = p.provider;
  usage_type = p.estimate.usage_type;
  estimated_usage = p.estimate.estimated_usage;
  actual_usage = pos 0;
  unit_price = p.estimate.unit_price;
  estimated_cost = p.estimate.estimated_cost;
  actual_cost = pos 0;
  currency = p.estimate.currency;
  billing_policy = p.billing_policy;
  status = BillingStatus.estimated;
  settled_at = none;
  refunded_at = none;
  fail_reason = none;
}

abbrev pub set_status : BillingStatus → BillingRecord → BillingRecord
set_status st r = record r { status = st }

abbrev pub set_settled : ℤ → ℤ → ℕ → BillingRecord → BillingRecord
set_settled usage cost now r = record r {
  status = BillingStatus.settled;
  actual_usage = usage;
  actual_cost = cost;
  settled_at = some now;
}

abbrev pub set_refunded : ℕ → BillingRecord → BillingRecord
set_refunded now r = record r { status = BillingStatus.refunded; refunded_at = some now }

abbrev pub set_failed : String → BillingRecord → BillingRecord
set_failed reason r = record r { status = BillingStatus.failed; fail_reason = some reason }

module _ (b : Collection BillingRecord) where
  -- `createRecord`: a second record for a task violates the unique index, and the insertion throws.
  unfoldable pub create_record : String → CreateRecordParams → b.Db → Option b.Db
  create_record task p db = elim (b.find_one task db) [
    | none ↦ some (b.upsert task (new_record p) db)
    | some _ ↦ none
  ]

  unfoldable pub mark_pre_deducted : String → b.Db → b.Db
  mark_pre_deducted task db =
      b.update_one task (λ r. is_estimated r.status) (set_status BillingStatus.pre_deducted) db

  unfoldable pub settle : String → ℤ → ℤ → ℕ → b.Db → b.Db
  settle task usage cost now db = elim (b.find_one task db) [
    | none ↦ db
    | some existing ↦
        if is_settled existing.status
        then db
        else b.update_one task (λ r. is_open r.status) (set_settled usage cost now) db
  ]

  unfoldable pub mark_refunded : String → ℕ → b.Db → b.Db
  mark_refunded task now db = elim (b.find_one task db) [
    | none ↦ db
    | some existing ↦
        if is_refunded existing.status
        then db
        else b.update_one task (λ r. is_open r.status) (set_refunded now) db
  ]

  unfoldable pub mark_failed : String → String → b.Db → b.Db
  mark_failed task reason db = b.update_one task (λ _. true) (set_failed reason) db
