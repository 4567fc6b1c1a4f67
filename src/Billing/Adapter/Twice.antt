-- ===== src/Billing/Adapter/Twice.antt =====
-- `settle` of the adapter reads the record but tests only whether it is pre-deducted: every other
-- status is taken for a task that pays afterwards.
use model_hub.Common.{String, some, ℕ, true, ◌≡◌, refl, str_eq_refl}
use model_hub.Common.Int.{ℤ, ◌-ℤ◌, ◌≤ℤ◌, ◌*ℤ◌, leb_ℤ, ≤ℤ→leb_ℤ}
use model_hub.Wallet.{debit}
use model_hub.Wallet.Spec.{Account}
use model_hub.Wallet.Refines.{debit-affords}
use model_hub.Billing.Types.{BillingStatus, BillingPolicy, BillingRecord, Call}
use model_hub.Billing.{settle}
use model_hub.Billing.Lifecycle.{find-call_on, call_on}
use model_hub.Billing.Adapter.{Setup, System, done, charge, settle_task}
use model_hub.Billing.Adapter.Settlement.{account_at, view-debit}

module _ (u : Setup) (task : String) (usage : ℤ) (now : ℕ) (s : System u) {r : BillingRecord}
    {x : Account} (there : u.records.find_one task s.records ≡ some r)
    (policy : r.billing_policy ≡ BillingPolicy.internal)
    (settled : r.status ≡ BillingStatus.settled) (found : account_at u s r.api_key ≡ some x)
    (covered : r.unit_price *ℤ usage ≤ℤ x.free) where
  charged : (charge u r (r.unit_price *ℤ usage) task s.wallet).0 ≡ true
  unfolding charge
  charged = rw (settled, debit-affords, found) (≤ℤ→leb_ℤ _ x.free covered)

  settle_task_run : settle_task u task usage now s ≡ (
    done,
    record {
      records = settle u.records task usage (r.unit_price *ℤ usage) now s.records;
      wallet =
          (debit u.wallets u.accepts u.low_balance_threshold r.api_key
            (r.unit_price *ℤ usage)
            task
            s.wallet).1;
    },
  )
  unfolding settle_task charge
  settle_task_run = rw (there, policy, charged, settle_task) (rw (settled, charge))

  -- A record of an internal client that is already settled is charged again when its task is
  -- settled once more, if the free money covers the cost: the call returns, the cost leaves the
  -- account, and the record does not change.
  pub settle_task_charges_again :
      let (o, s') = settle_task u task usage now s in
      (o ≡ done)
      × (account_at u s' r.api_key ≡ some (record x { free = x.free -ℤ r.unit_price *ℤ usage }))
      × (u.records.find_one task s'.records ≡ some r)
  unfolding call_on
  settle_task_charges_again =
      let cost = r.unit_price *ℤ usage in
      let enough : leb_ℤ cost x.free ≡ true = ≤ℤ→leb_ℤ cost x.free covered in
      rw settle_task_run (
        refl,
        rw (view-debit u r.api_key cost task s.wallet r.api_key, str_eq_refl, found, enough) refl,
        rw
            (
              find-call_on u.records (Call.settle usage cost now) task task s.records,
              str_eq_refl,
              there,
              settled,
            )
            refl,
      )
