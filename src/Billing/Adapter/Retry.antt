-- ===== src/Billing/Adapter/Retry.antt =====
-- The attempts of `retryUnfreeze` (src/billing/billing.adapter.ts): calls of `unfreeze` that may throw,
-- with nothing done or after the money has been released.
use model_hub.Common.{
  List, [], ◌∷◌, zero, suc, ◌+◌, Bool, true, false-true, String, ℕ, some, false, ◌≡◌, refl, ap, ◌∙◌,
  str_eq_refl,
}
use model_hub.Common.Int.{ℤ, pos, ◌+ℤ◌, ◌-ℤ◌, ◌≤ℤ◌, int_laws}
use model_hub.Wallet.{Service, unfreeze}
use model_hub.Wallet.Spec.{Account, Op, release}
use model_hub.Wallet.Refines.{view, apply, view-apply}
use model_hub.Billing.{mark_refunded}
use model_hub.Billing.Types.{BillingStatus, BillingPolicy, BillingRecord}
use model_hub.Billing.Adapter.{
  Setup, System, done, refund, retry_unfreeze, Attempt, works, refused, reply_lost,
}
use model_hub.Billing.Adapter.Settlement.{account_at, view-unfreeze}

-- The calls of `unfreeze` that are tried, one after the other.
abbrev pub tried : (ℕ → Attempt) → ℕ → ℕ → List Attempt
tried attempts zero i = []
tried attempts (suc n) i = attempts i ∷ tried attempts n (i + 1)

-- One of the calls returns, and those before it throw with nothing done.
abbrev pub releases_once : List Attempt → Bool
releases_once [] = false
releases_once (works ∷ rest) = true
releases_once (refused ∷ rest) = releases_once rest
releases_once (reply_lost ∷ rest) = false

module _ (u : Setup) where
  retry-once :
      (attempts : ℕ → Attempt) (left i : ℕ) (key : String) (amount : ℤ) (task : String)
      (w : Service u.wallets)
      → releases_once (tried attempts left i) ≡ true
      → retry_unfreeze u attempts left i key amount task w
        ≡ unfreeze u.wallets u.accepts key amount task w
  unfolding retry_unfreeze
  retry-once attempts zero i key amount task w h = absurd (false-true h)
  retry-once attempts (suc left) i key amount task w h =
      by_end (attempts i) h (retry-once attempts left (i + 1) key amount task w)
    where
      released : Service u.wallets
      released = unfreeze u.wallets u.accepts key amount task w

      by_end :
          (a : Attempt)
          → releases_once (a ∷ tried attempts left (i + 1)) ≡ true
          → (releases_once (tried attempts left (i + 1)) ≡ true
              → retry_unfreeze u attempts left (i + 1) key amount task w
                ≡ unfreeze u.wallets u.accepts key amount task w)
          → ◌≡◌ {A = Service u.wallets}
              (elim a [
                | works ↦ unfreeze u.wallets u.accepts key amount task w
                | refused ↦ retry_unfreeze u attempts left (i + 1) key amount task w
                | reply_lost ↦
                    retry_unfreeze u attempts left
                      (i + 1)
                      key
                      amount
                      task
                      (unfreeze u.wallets (λ _ _. false) key amount task w)
              ])
              (unfreeze u.wallets u.accepts key amount task w)
      by_end works h rest = refl
      by_end refused h rest = rest h
      by_end reply_lost h rest = absurd (false-true h)

  -- The loop of `retryUnfreeze` releases the money once, if an attempt returns and no earlier one
  -- has lost its reply.
  pub refund_run :
      (attempts : ℕ → Attempt) (task : String) (now : ℕ) (s : System u) {r : BillingRecord}
      → u.records.find_one task s.records ≡ some r
      → r.billing_policy ≡ BillingPolicy.internal
      → r.status ≡ BillingStatus.pre_deducted
      → releases_once (tried attempts 3 1) ≡ true
      → refund u attempts task now s ≡ (
        done,
        record {
          records = mark_refunded u.records task now s.records;
          wallet = unfreeze u.wallets u.accepts r.api_key r.estimated_cost task s.wallet;
        },
      )
  unfolding refund
  refund_run attempts task now s {r} there policy pre once =
      rw
        (
          there,
          policy,
          pre,
          retry-once attempts 3 1 r.api_key r.estimated_cost task s.wallet once,
          refund,
        )
        refl

released_twice :
    (x : Account) (a : ℤ)
    → a +ℤ a ≤ℤ x.held
    → a ≤ℤ x.held
    → release a (release a x) ≡ record { free = x.free +ℤ a +ℤ a; held = x.held -ℤ a -ℤ a }
released_twice x a h h' = grind int_laws

module _ (u : Setup) (attempts : ℕ → Attempt) (task : String) (now : ℕ) (s : System u)
    {r : BillingRecord} {x : Account} (there : u.records.find_one task s.records ≡ some r)
    (policy : r.billing_policy ≡ BillingPolicy.internal)
    (pre : r.status ≡ BillingStatus.pre_deducted) (found : account_at u s r.api_key ≡ some x)
    (first : attempts 1 ≡ reply_lost) (second : attempts 2 ≡ works) where
  -- The wallets after the call whose reply is lost.
  lost : Service u.wallets
  lost = unfreeze u.wallets (λ _ _. false) r.api_key r.estimated_cost task s.wallet

  retried :
      retry_unfreeze u attempts 3 1 r.api_key r.estimated_cost task s.wallet
      ≡ unfreeze u.wallets u.accepts r.api_key r.estimated_cost task lost
  unfolding retry_unfreeze lost
  retried = rw (first, second, retry_unfreeze) refl

  refund-wallet :
      (refund u attempts task now s).1.wallet
      ≡ unfreeze u.wallets u.accepts r.api_key r.estimated_cost task lost
  unfolding refund
  refund-wallet = rw (there, policy, pre, refund) retried

  view-lost : view u.wallets u.accepts lost r.api_key ≡ some (release r.estimated_cost x)
  unfolding lost apply
  view-lost =
      view-apply u.wallets (λ _ _. false) (Op.unfreeze r.api_key r.estimated_cost task) s.wallet
        r.api_key
      ∙ rw (str_eq_refl, found) refl

  -- The refund of a pre-deducted record of an internal client whose estimated cost is not negative,
  -- where the first call of `unfreeze` releases the money and loses its reply, and the second
  -- returns: if the account holds at least twice the cost, that much is released, the cost once
  -- for this task and once more of what is held for others.
  pub refund_releases_twice :
      pos 0 ≤ℤ r.estimated_cost
      → r.estimated_cost +ℤ r.estimated_cost ≤ℤ x.held
      → account_at u (refund u attempts task now s).1 r.api_key
        ≡ some (record {
          free = x.free +ℤ r.estimated_cost +ℤ r.estimated_cost;
          held = x.held -ℤ r.estimated_cost -ℤ r.estimated_cost;
        })
  refund_releases_twice cost two =
      rw
        (
          refund-wallet,
          view-unfreeze u r.api_key r.estimated_cost task lost r.api_key,
          str_eq_refl,
          view-lost,
        )
        (ap some (released_twice x r.estimated_cost two (omega int_laws)))
