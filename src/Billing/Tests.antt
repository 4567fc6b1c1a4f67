-- ===== src/Billing/Tests.antt =====
-- Billing on small collections, and the theorems at concrete inputs.
use model_hub.Common.{
  ℕ, if◌then◌else◌, String, none, some, List, [], ◌∷◌, true, false, ◌≡◌, refl, arith, str_eq,
  if◌then◌else◌, ◌==◌,
}
use model_hub.Common.Int.{pos, ◌+ℤ◌, ◌-ℤ◌, ◌*ℤ◌}
use model_hub.Common.Collection.{assoc}
use model_hub.Wallet.Spec.{Account}
use model_hub.Billing.Types.{UsageType, BillingStatus, BillingPolicy, BillingRecord, Call}
use model_hub.Billing.Lifecycle.{run_calls, find-run_calls_final}
use model_hub.Billing.Adapter.{
  Setup, System, InitContext, done, debit_failed, resolve_policy, estimate, estimated_usage,
  settle_task, init_billing, refund, Attempt, works, refused, reply_lost,
}
use model_hub.Billing.{set_settled, set_failed, set_refunded}
use model_hub.Billing.Adapter.Settlement.{account_at, settle_task_pays, settle_task_fails}
use model_hub.Billing.Adapter.Task.{started, init_billing-settle_task, init_billing-refund}
use model_hub.Billing.Adapter.Retry.{refund_releases_twice}
use model_hub.Billing.Adapter.Twice.{settle_task_charges_again}

abbrev setup : Setup
setup = record {
  wallets = assoc;
  records = assoc;
  accepts = λ _ _. true;
  client_policy = λ k. if str_eq k "k1" then some BillingPolicy.internal else none;
  portal_policy = λ _. none;
  get_unit_price = λ _. record {
    unit_price = pos 3;
    usage_type = UsageType.duration;
    currency = "credit";
    duration_step = pos 5;
  };
  low_balance_threshold = none;
}

abbrev paid : BillingStatus → BillingRecord
paid st = record {
  api_key = "k1";
  model = "m";
  provider = "p";
  usage_type = UsageType.duration;
  estimated_usage = pos 5;
  actual_usage = pos 0;
  unit_price = pos 3;
  estimated_cost = pos 15;
  actual_cost = pos 0;
  currency = "credit";
  billing_policy = BillingPolicy.internal;
  status = st;
  settled_at = none;
  refunded_at = none;
  fail_reason = none;
}

abbrev system : System setup
system = record {
  records = ("t1", paid BillingStatus.pre_deducted) ∷ ("t2", paid BillingStatus.settled) ∷ [];
  wallet = record {
    wallets =
        ("k1", record { balance = pos 100; frozen_amount = pos 15; low_balance_threshold = pos 0 })
        ∷ [];
    journal = [];
    events = [];
  };
}

abbrev ctx : InitContext
ctx = record {
  task_id = "t9";
  api_key = "k1";
  model = "m";
  provider = "p";
  input = record { batch_quantity = none; duration = some (pos 8); max_tokens = none };
}

abbrev calls : List (String × Call)
calls =
    ("t2", Call.settle (pos 9) (pos 27) 5)
    ∷ ("t1", Call.mark_failed "x")
    ∷ ("t2", Call.mark_refunded 6)
    ∷ []

find-run_calls_final_example :
    setup.records.find_one "t2" (run_calls assoc calls system.records)
    ≡ some (paid BillingStatus.settled)
find-run_calls_final_example =
    find-run_calls_final assoc calls "t2" (paid BillingStatus.settled) system.records refl tt
      (ground arith)

abbrev k1 : Account
k1 = record { free = pos 85; held = pos 15 }

settle_task_pays_example :
    let (o, s') = settle_task setup "t1" (pos 4) 9 system in
    (o ≡ done)
    × (account_at setup s' "k1"
        ≡ some (record { free = pos 85 +ℤ pos 15 -ℤ pos 3 *ℤ pos 4; held = pos 15 -ℤ pos 15 }))
    × ((j : String) → str_eq "k1" j ≡ false → account_at setup s' j ≡ account_at setup system j)
    × (assoc.find_one "t1" s'.records
        ≡ some (set_settled (pos 4) (pos 3 *ℤ pos 4) 9 (paid BillingStatus.pre_deducted)))
unfolding ◌-ℤ◌ ◌*ℤ◌ ◌+ℤ◌
settle_task_pays_example =
    settle_task_pays setup "t1" (pos 4) 9 system {x = k1} refl refl refl refl (omega arith)
      (omega arith)

settle_task_fails_example :
    let (o, s') = settle_task setup "t1" (pos 90) 9 system in
    (o ≡ debit_failed "t1")
    × (account_at setup s' "k1"
        ≡ some (record { free = pos 85 +ℤ pos 15; held = pos 15 -ℤ pos 15 }))
    × ((j : String) → str_eq "k1" j ≡ false → account_at setup s' j ≡ account_at setup system j)
    × (assoc.find_one "t1" s'.records
        ≡ some (set_failed "debit_failed" (paid BillingStatus.pre_deducted)))
unfolding ◌-ℤ◌ ◌*ℤ◌ ◌+ℤ◌
settle_task_fails_example =
    settle_task_fails setup "t1" (pos 90) 9 system {x = k1} refl refl refl refl (omega arith)
      (omega arith)

init_billing-settle_task_example :
    let (o₁, s₁) = init_billing setup ctx system in
    let (o₂, s₂) = settle_task setup "t9" (pos 7) 9 s₁ in
    (o₁ ≡ done)
    × (o₂ ≡ done)
    × (account_at setup s₂ "k1" ≡ some (record k1 { free = pos 85 -ℤ pos 3 *ℤ pos 7 }))
    × ((j : String) → str_eq "k1" j ≡ false → account_at setup s₂ j ≡ account_at setup system j)
unfolding resolve_policy estimate estimated_usage ◌*ℤ◌ ◌-ℤ◌
init_billing-settle_task_example =
    init_billing-settle_task setup ctx system {x = k1} refl refl refl refl (omega arith) (pos 7) 9
      (omega arith) (omega arith)

abbrev second_works : ℕ → Attempt
second_works i = if i == 1 then refused else works

init_billing-refund_example :
    let (o₁, s₁) = init_billing setup ctx system in
    let (o₂, s₂) = refund setup second_works "t9" 9 s₁ in
    (o₁ ≡ done)
    × (o₂ ≡ done)
    × ((j : String) → account_at setup s₂ j ≡ account_at setup system j)
    × (assoc.find_one "t9" s₂.records ≡ some (set_refunded 9 (started setup ctx)))
unfolding resolve_policy estimate estimated_usage ◌*ℤ◌ ◌-ℤ◌
init_billing-refund_example =
    init_billing-refund setup ctx system {x = k1} refl refl refl refl (omega arith) second_works 9
      (omega arith) refl

-- A second task of the client holds as much as the task t1.
abbrev two_tasks : System setup
two_tasks = record {
  records = system.records;
  wallet = record {
    wallets =
        ("k1", record { balance = pos 100; frozen_amount = pos 30; low_balance_threshold = pos 0 })
        ∷ [];
    journal = [];
    events = [];
  };
}

abbrev first_lost : ℕ → Attempt
first_lost i = if i == 1 then reply_lost else works

refund_releases_twice_example :
    account_at setup (refund setup first_lost "t1" 9 two_tasks).1 "k1"
    ≡ some (record { free = pos 70 +ℤ pos 15 +ℤ pos 15; held = pos 30 -ℤ pos 15 -ℤ pos 15 })
unfolding ◌-ℤ◌ ◌+ℤ◌
refund_releases_twice_example =
    refund_releases_twice setup first_lost "t1" 9 two_tasks {r = paid BillingStatus.pre_deducted}
      {x = record { free = pos 70; held = pos 30 }} refl refl refl refl refl refl (omega arith)
      (omega arith)

settle_task_charges_again_example :
    let (o, s') = settle_task setup "t2" (pos 4) 9 system in
    (o ≡ done)
    × (account_at setup s' "k1" ≡ some (record k1 { free = pos 85 -ℤ pos 3 *ℤ pos 4 }))
    × (assoc.find_one "t2" s'.records ≡ some (paid BillingStatus.settled))
unfolding ◌*ℤ◌ ◌-ℤ◌
settle_task_charges_again_example =
    settle_task_charges_again setup "t2" (pos 4) 9 system {x = k1} refl refl refl refl (omega arith)
