-- ===== src/Billing/Adapter/Settlement.antt =====
-- What a billed task does to the account of its key, from the freeze to the settlement or refund.
use model_hub.Common.{
  String, Option, some, ℕ, true, false, ◌≡◌, refl, ◌∙◌, arith, str_eq, str_eq_refl, if◌then◌else◌,
}
use model_hub.Common.Int.{ℤ, ◌+ℤ◌, ◌-ℤ◌, ◌≤ℤ◌, ◌<ℤ◌, ◌*ℤ◌, leb_ℤ}
use model_hub.Wallet.{Service, freeze, unfreeze, debit}
use model_hub.Wallet.Spec.{Op, Account, spend, step}
use model_hub.Wallet.Refines.{view, apply, view-apply, debit-affords}
use model_hub.Billing.Types.{BillingStatus, BillingPolicy, BillingRecord, Call}
use model_hub.Billing.{set_settled, set_failed, settle, mark_failed}
use model_hub.Billing.Lifecycle.{find-call_on, call_on}
use model_hub.Billing.Adapter.{Setup, System, done, debit_failed, charge, settle_task}

module _ (u : Setup) where
  -- The account of a key, as the wallets show it.
  abbrev pub account_at : System u → String → Option Account
  account_at s = view u.wallets u.accepts s.wallet

  module _ (k : String) (a : ℤ) (t : String) (w : Service u.wallets) (j : String) where
    pub view-freeze : view u.wallets u.accepts (freeze u.wallets u.accepts k a t w).1 j ≡ (
        if str_eq k j
        then step (Op.freeze k a t) (view u.wallets u.accepts w j)
        else view u.wallets u.accepts w j)
    unfolding apply
    view-freeze = view-apply u.wallets u.accepts (Op.freeze k a t) w j

    pub view-unfreeze : view u.wallets u.accepts (unfreeze u.wallets u.accepts k a t w) j ≡ (
        if str_eq k j
        then step (Op.unfreeze k a t) (view u.wallets u.accepts w j)
        else view u.wallets u.accepts w j)
    unfolding apply
    view-unfreeze = view-apply u.wallets u.accepts (Op.unfreeze k a t) w j

    pub view-debit :
        (g : Option ℤ)
        → view u.wallets u.accepts (debit u.wallets u.accepts g k a t w).1 j ≡ (
            if str_eq k j
            then step (Op.debit g k a t) (view u.wallets u.accepts w j)
            else view u.wallets u.accepts w j)
    unfolding apply
    view-debit g = view-apply u.wallets u.accepts (Op.debit g k a t) w j

  module _ (r : BillingRecord) (cost : ℤ) (task : String) (w : Service u.wallets) {x : Account}
      (pre : r.status ≡ BillingStatus.pre_deducted)
      (found : view u.wallets u.accepts w r.api_key ≡ some x)
      (held : r.estimated_cost ≤ℤ x.held) where
    view-released :
        view u.wallets u.accepts
          (unfreeze u.wallets u.accepts r.api_key r.estimated_cost task w)
          r.api_key
        ≡ some (record { free = x.free +ℤ r.estimated_cost; held = x.held -ℤ r.estimated_cost })
    view-released =
        rw (view-unfreeze r.api_key r.estimated_cost task w r.api_key, str_eq_refl, found)
          (ground arith)

    charge-ok : (charge u r cost task w).0 ≡ leb_ℤ cost (x.free +ℤ r.estimated_cost)
    unfolding charge
    charge-ok = rw (pre, debit-affords, view-released)

    charge-view :
        view u.wallets u.accepts (charge u r cost task w).1 r.api_key
        ≡ some (
            spend cost
              (record { free = x.free +ℤ r.estimated_cost; held = x.held -ℤ r.estimated_cost }))
    unfolding charge
    charge-view = rw (pre, view-debit, str_eq_refl, view-released)

    charge-view_other :
        (j : String)
        → str_eq r.api_key j ≡ false
        → view u.wallets u.accepts (charge u r cost task w).1 j ≡ view u.wallets u.accepts w j
    unfolding charge
    charge-view_other j h =
        rw (pre, view-debit r.api_key cost task _ j, h)
          (rw (view-unfreeze r.api_key r.estimated_cost task w j, h))

  module _ (task : String) (usage : ℤ) (now : ℕ) (s : System u) {r : BillingRecord} {x : Account}
      (there : u.records.find_one task s.records ≡ some r)
      (policy : r.billing_policy ≡ BillingPolicy.internal)
      (pre : r.status ≡ BillingStatus.pre_deducted) (found : account_at s r.api_key ≡ some x)
      (held : r.estimated_cost ≤ℤ x.held) where
    settle_task_run :
        let cost = r.unit_price *ℤ usage in
        let (ok, w) = charge u r cost task s.wallet in
        settle_task u task usage now s ≡ (
          if ok
          then (
            done,
            record { records = settle u.records task usage cost now s.records; wallet = w },
          )
          else (
            debit_failed task,
            record { records = mark_failed u.records task "debit_failed" s.records; wallet = w },
          ))
    unfolding settle_task
    settle_task_run = rw (there, policy, settle_task)

    -- Settling a pre-deducted record of an internal client, where the account holds at least the
    -- estimated cost, and the free money and the estimated cost together cover the actual cost:
    -- the call returns, the estimated cost is no longer held, exactly the actual cost has left the
    -- account, no other account has changed, and the record is settled at that cost.
    pub settle_task_pays :
        r.unit_price *ℤ usage ≤ℤ x.free +ℤ r.estimated_cost
        → let (o, s') = settle_task u task usage now s in
          let cost = r.unit_price *ℤ usage in
          (o ≡ done)
          × (account_at s' r.api_key
              ≡ some (record {
                free = x.free +ℤ r.estimated_cost -ℤ cost;
                held = x.held -ℤ r.estimated_cost;
              }))
          × ((j : String) → str_eq r.api_key j ≡ false → account_at s' j ≡ account_at s j)
          × (u.records.find_one task s'.records ≡ some (set_settled usage cost now r))
    unfolding call_on
    settle_task_pays cover =
        let cost = r.unit_price *ℤ usage in
        let covered : leb_ℤ cost (x.free +ℤ r.estimated_cost) ≡ true = ground arith in
        let ok : (charge u r cost task s.wallet).0 ≡ true =
          charge-ok r cost task s.wallet pre found held ∙ covered in
        rw (settle_task_run, ok)
          (
            refl,
            rw (charge-view r cost task s.wallet pre found held, covered) refl,
            charge-view_other r cost task s.wallet pre found held,
            rw
                (
                  find-call_on u.records (Call.settle usage cost now) task task s.records,
                  str_eq_refl,
                  there,
                  pre,
                )
                refl,
          )

    -- Settling a pre-deducted record of an internal client, where the account holds at least the
    -- estimated cost, but the free money and the estimated cost together do not cover the actual
    -- cost: the call throws `debit_failed`, the estimated cost is no longer held, no money has
    -- left the account, no other account has changed, and the record is marked as failed.
    pub settle_task_fails :
        x.free +ℤ r.estimated_cost <ℤ r.unit_price *ℤ usage
        → let (o, s') = settle_task u task usage now s in
          (o ≡ debit_failed task)
          × (account_at s' r.api_key
              ≡ some
                  (record { free = x.free +ℤ r.estimated_cost; held = x.held -ℤ r.estimated_cost }))
          × ((j : String) → str_eq r.api_key j ≡ false → account_at s' j ≡ account_at s j)
          × (u.records.find_one task s'.records ≡ some (set_failed "debit_failed" r))
    unfolding call_on
    settle_task_fails short =
        let cost = r.unit_price *ℤ usage in
        let no_cover : leb_ℤ cost (x.free +ℤ r.estimated_cost) ≡ false = ground arith in
        let bad : (charge u r cost task s.wallet).0 ≡ false =
          charge-ok r cost task s.wallet pre found held ∙ no_cover in
        rw (settle_task_run, bad)
          (
            refl,
            rw (charge-view r cost task s.wallet pre found held, no_cover) refl,
            charge-view_other r cost task s.wallet pre found held,
            rw
                (
                  find-call_on u.records (Call.mark_failed "debit_failed") task task s.records,
                  str_eq_refl,
                  there,
                )
                refl,
          )
