-- ===== src/Billing/Adapter/Task.antt =====
-- A whole task of an internal client that pays in advance: started and refunded, or started and
-- settled.
use model_hub.Common.{
  String, none, some, ℕ, true, false, ◌≡◌, refl, ap, ◌∙◌, arith, str_eq, str_eq_refl, str_eq_iff,
  subst, Bool-cases, inl, inr,
}
use model_hub.Common.Int.{ℤ, pos, ◌+ℤ◌, ◌-ℤ◌, ◌≤ℤ◌, ◌*ℤ◌, int_laws}
use model_hub.Wallet.{freeze, unfreeze}
use model_hub.Wallet.Spec.{Account, release}
use model_hub.Wallet.Refines.{view, freeze-affords}
use model_hub.Billing.Types.{BillingStatus, BillingPolicy, BillingRecord, PriceEstimate, Call}
use model_hub.Billing.{
  CreateRecordParams, new_record, create_record, mark_pre_deducted, set_status, set_refunded,
}
use model_hub.Billing.Lifecycle.{find-call_on, call_on}
use model_hub.Billing.Adapter.{
  Setup, System, InitContext, done, prepays, estimate, resolve_policy, bill, pre_deduct,
  init_billing, refund, Attempt, settle_task,
}
use model_hub.Billing.Adapter.Retry.{tried, releases_once, refund_run}
use model_hub.Billing.Adapter.Settlement.{account_at, view-freeze, view-unfreeze, settle_task_pays}

spent :
    (x : Account) (est cost : ℤ)
    → ◌≡◌ {A = Account}
        (record { free = x.free -ℤ est +ℤ est -ℤ cost; held = x.held +ℤ est -ℤ est })
        (record x { free = x.free -ℤ cost })
spent x est cost = grind int_laws

returned :
    (x : Account) (est : ℤ)
    → pos 0 ≤ℤ x.held
    → release est (record { free = x.free -ℤ est; held = x.held +ℤ est }) ≡ x
returned x est h = grind int_laws

module _ (u : Setup) where
  -- The estimate of a task, and the record that its start leaves.
  abbrev pub estimate_of : InitContext → PriceEstimate
  estimate_of ctx = estimate (u.get_unit_price ctx.model) ctx.model ctx.input

  pub started : InitContext → BillingRecord
  started ctx = set_status BillingStatus.pre_deducted (
      new_record (record {
        api_key = ctx.api_key;
        model = ctx.model;
        provider = ctx.provider;
        estimate = estimate_of ctx;
        billing_policy = BillingPolicy.internal;
      }))

  module _ (ctx : InitContext) (s : System u) {x : Account}
      (policy : resolve_policy u ctx.api_key ≡ some BillingPolicy.internal)
      (prepaid : prepays (estimate_of ctx).usage_type ≡ true)
      (fresh : u.records.find_one ctx.task_id s.records ≡ none)
      (found : account_at u s ctx.api_key ≡ some x)
      (covered : (estimate_of ctx).estimated_cost ≤ℤ x.free) where
    params : CreateRecordParams
    params = record {
      api_key = ctx.api_key;
      model = ctx.model;
      provider = ctx.provider;
      estimate = estimate_of ctx;
      billing_policy = BillingPolicy.internal;
    }

    init_billing_run : init_billing u ctx s ≡ (
      done,
      record {
        records =
            mark_pre_deducted u.records ctx.task_id
              (u.records.upsert ctx.task_id (new_record params) s.records);
        wallet =
            (freeze u.wallets u.accepts ctx.api_key
              (estimate_of ctx).estimated_cost
              ctx.task_id
              s.wallet).1;
      },
    )
    unfolding init_billing params create_record
    init_billing_run =
        let ok : (freeze u.wallets u.accepts ctx.api_key (estimate_of ctx).estimated_cost
              ctx.task_id s.wallet).0
            ≡ true =
          freeze-affords u.wallets u.accepts ctx.api_key (estimate_of ctx).estimated_cost
            ctx.task_id s.wallet
          ∙ rw found (ground arith) in
        rw (policy, fresh, prepaid, ok, init_billing, bill, pre_deduct, create_record)

    start-found :
        u.records.find_one ctx.task_id (init_billing u ctx s).1.records ≡ some (started ctx)
    unfolding started call_on new_record params
    start-found =
        rw
          (
            init_billing_run,
            find-call_on u.records Call.mark_pre_deducted ctx.task_id ctx.task_id
                (u.records.upsert ctx.task_id (new_record params) s.records),
            str_eq_refl,
            u.records.find_one-upsert,
            str_eq_refl,
            fresh,
          )
          refl

    start-account :
        let est = (estimate_of ctx).estimated_cost in
        account_at u (init_billing u ctx s).1 ctx.api_key
        ≡ some (record { free = x.free -ℤ est; held = x.held +ℤ est })
    start-account =
        rw
          (
            init_billing_run,
            view-freeze u ctx.api_key (estimate_of ctx).estimated_cost ctx.task_id s.wallet
                ctx.api_key,
            str_eq_refl,
            found,
          )
          (ground arith)

    start-account_other :
        (j : String)
        → str_eq ctx.api_key j ≡ false
        → account_at u (init_billing u ctx s).1 j ≡ account_at u s j
    start-account_other j h =
        rw
          (
            init_billing_run,
            view-freeze u ctx.api_key (estimate_of ctx).estimated_cost ctx.task_id s.wallet j,
            h,
          )
          refl

    start-done : (init_billing u ctx s).0 ≡ done
    start-done = rw init_billing_run

    -- A new task of an internal client with a prepaid usage type, whose estimated cost the free
    -- money covers, on an account that holds no negative amount, is started and then settled at an
    -- actual cost of at most the estimate: neither call throws, the account has lost exactly the
    -- actual cost and holds what it held before, and no other account has changed.
    pub init_billing-settle_task :
        (usage : ℤ) (now : ℕ)
        → pos 0 ≤ℤ x.held
        → (u.get_unit_price ctx.model).unit_price *ℤ usage ≤ℤ (estimate_of ctx).estimated_cost
        → let (o₁, s₁) = init_billing u ctx s in
          let (o₂, s₂) = settle_task u ctx.task_id usage now s₁ in
          let cost = (u.get_unit_price ctx.model).unit_price *ℤ usage in
          (o₁ ≡ done)
          × (o₂ ≡ done)
          × (account_at u s₂ ctx.api_key ≡ some (record x { free = x.free -ℤ cost }))
          × ((j : String) → str_eq ctx.api_key j ≡ false → account_at u s₂ j ≡ account_at u s j)
    unfolding started new_record estimate
    init_billing-settle_task usage now held cheap =
        let est = (estimate_of ctx).estimated_cost in
        let cost = (u.get_unit_price ctx.model).unit_price *ℤ usage in
        let (settled, account, others, stored) =
          settle_task_pays u ctx.task_id usage now (init_billing u ctx s).1 {r = started ctx}
            {x = record { free = x.free -ℤ est; held = x.held +ℤ est }} start-found refl refl
            start-account (omega int_laws) (omega int_laws) in
        (
          start-done,
          settled,
          account ∙ ap some (spent x est cost),
          λ j h. others j h ∙ start-account_other j h,
        )

    released-accounts :
        pos 0 ≤ℤ x.held
        → (j : String)
        → view u.wallets u.accepts
            (unfreeze u.wallets u.accepts ctx.api_key
              (estimate_of ctx).estimated_cost
              ctx.task_id
              (init_billing u ctx s).1.wallet)
            j
          ≡ account_at u s j
    released-accounts held j =
        let est = (estimate_of ctx).estimated_cost in
        let w = (init_billing u ctx s).1.wallet in
        let self : view u.wallets u.accepts
              (unfreeze u.wallets u.accepts ctx.api_key est ctx.task_id w) ctx.api_key
            ≡ account_at u s ctx.api_key =
          rw
            (
              view-unfreeze u ctx.api_key est ctx.task_id w ctx.api_key,
              str_eq_refl,
              start-account,
              found,
            )
            (ap some (returned x est held)) in
        elim (Bool-cases (str_eq ctx.api_key j)) [
          | inl same ↦
              subst
                (λ i.
                  view u.wallets u.accepts
                    (unfreeze u.wallets u.accepts ctx.api_key est ctx.task_id w) i
                  ≡ account_at u s i)
                ((str_eq_iff ctx.api_key j).0 same) self
          | inr other ↦
              rw (view-unfreeze u ctx.api_key est ctx.task_id w j, other)
                (start-account_other j other)
        ]

    -- A new task of an internal client with a prepaid usage type, whose estimated cost the free
    -- money covers, on an account that holds no negative amount, is started and then refunded,
    -- where one of the three attempts to release the money returns and those before it throw with
    -- nothing done: neither call throws, every account is what it was before the task, and the record is refunded.
    pub init_billing-refund :
        (attempts : ℕ → Attempt) (now : ℕ)
        → pos 0 ≤ℤ x.held
        → releases_once (tried attempts 3 1) ≡ true
        → let (o₁, s₁) = init_billing u ctx s in
          let (o₂, s₂) = refund u attempts ctx.task_id now s₁ in
          (o₁ ≡ done)
          × (o₂ ≡ done)
          × ((j : String) → account_at u s₂ j ≡ account_at u s j)
          × (u.records.find_one ctx.task_id s₂.records ≡ some (set_refunded now (started ctx)))
    unfolding started new_record estimate call_on
    init_billing-refund attempts now held once =
        let est = (estimate_of ctx).estimated_cost in
        let s₁ : System u = (init_billing u ctx s).1 in
        let released =
          refund_run u attempts ctx.task_id now s₁ {r = started ctx} start-found refl refl once in
        (
          start-done,
          rw released,
          λ j. rw released (released-accounts held j),
          rw
              (
                released,
                find-call_on u.records (Call.mark_refunded now) ctx.task_id ctx.task_id s₁.records,
                str_eq_refl,
                start-found,
              )
              refl,
        )
