-- ===== src/Wallet/Audit.antt =====
-- The journal accounts for the money: the entries of the four types, summed with their signs, give
-- the change of every balance and of every frozen amount.
use model_hub.Common.{
  String, Option, none, some, List, [], ◌∷◌, Bool, true, false, ◌&&◌, ◌≡◌, refl, ap, arith, str_eq,
  str_eq_iff, if◌then◌else◌,
}
use model_hub.Common.Int.{ℤ, pos, ◌+ℤ◌, ◌-ℤ◌, int_laws}
use model_hub.Common.Collection.{Collection, updated, find-upsert_self}
use model_hub.Wallet.Types.{Wallet, WalletTransaction, TransactionType}
use model_hub.Wallet.{
  Service, freeze, unfreeze, debit, credit, has_available, has_frozen, inc_frozen, dec_frozen,
  inc_balance, dec_balance, new_wallet, ensure_wallet,
}
use model_hub.Wallet.Spec.{Op}
use model_hub.Wallet.Refines.{
  apply, run, freeze-wallets, unfreeze-wallets, debit-wallets, credit-wallets,
}

-- The signed effect of an entry on the balance, and on the frozen amount.
abbrev pub balance_change : TransactionType → ℤ → ℤ
balance_change TransactionType.credit a = a
balance_change TransactionType.debit a = pos 0 -ℤ a
balance_change TransactionType.freeze a = pos 0
balance_change TransactionType.unfreeze a = pos 0

abbrev pub frozen_change : TransactionType → ℤ → ℤ
frozen_change TransactionType.credit a = pos 0
frozen_change TransactionType.debit a = pos 0
frozen_change TransactionType.freeze a = a
frozen_change TransactionType.unfreeze a = pos 0 -ℤ a

module _ (j : String) where
  abbrev pub net_balance : List WalletTransaction → ℤ
  net_balance [] = pos 0
  net_balance (t ∷ ts) =
      (if str_eq t.api_key j then balance_change t.type t.amount else pos 0) +ℤ net_balance ts

  abbrev pub net_frozen : List WalletTransaction → ℤ
  net_frozen [] = pos 0
  net_frozen (t ∷ ts) =
      (if str_eq t.api_key j then frozen_change t.type t.amount else pos 0) +ℤ net_frozen ts

abbrev pub balance_in : Option Wallet → ℤ
balance_in none = pos 0
balance_in (some w) = w.balance

abbrev pub frozen_in : Option Wallet → ℤ
frozen_in none = pos 0
frozen_in (some w) = w.frozen_amount

-- Whether a conditional update finds a document to change.
abbrev hits : (Wallet → Bool) → Option Wallet → Bool
hits p none = false
hits p (some w) = p w

-- What one successful call adds to a balance and to a frozen amount.
record Posts (ty : TransactionType) (a : ℤ) (p : Wallet → Bool) (f : Wallet → Wallet) : Type 0 where
  balance : (w : Wallet) → (f w).balance ≡ balance_change ty a +ℤ w.balance
  frozen : (w : Wallet) → (f w).frozen_amount ≡ frozen_change ty a +ℤ w.frozen_amount

freeze-Posts : (a : ℤ) → Posts TransactionType.freeze a (has_available a) (inc_frozen a)
freeze-Posts a = record { balance = λ w. omega int_laws; frozen = λ w. omega int_laws }

unfreeze-Posts : (a : ℤ) → Posts TransactionType.unfreeze a (has_frozen a) (dec_frozen a)
unfreeze-Posts a = record { balance = λ w. omega int_laws; frozen = λ w. omega int_laws }

debit-Posts : (a : ℤ) → Posts TransactionType.debit a (has_available a) (dec_balance a)
debit-Posts a = record { balance = λ w. omega int_laws; frozen = λ w. omega int_laws }

credit-Posts : (a : ℤ) → Posts TransactionType.credit a (λ _. true) (inc_balance a)
credit-Posts a = record { balance = λ w. omega int_laws; frozen = λ w. omega int_laws }

-- The journal after a call: one entry more if the update found its document.
abbrev Posted :
    TransactionType → String → ℤ → Bool → List WalletTransaction → List WalletTransaction → Type 0
Posted ty k a hit old new =
    (j : String)
    → (net_balance j new
        ≡ (if hit && str_eq k j then balance_change ty a else pos 0) +ℤ net_balance j old)
      × (net_frozen j new
          ≡ (if hit && str_eq k j then frozen_change ty a else pos 0) +ℤ net_frozen j old)

books_trans :
    (b b' b'' n n' n'' : ℤ) → b' +ℤ n ≡ b +ℤ n' → b'' +ℤ n' ≡ b' +ℤ n'' → b'' +ℤ n ≡ b +ℤ n''
books_trans b b' b'' n n' n'' h h' = grind int_laws

-- The books of one key: `o` is the updated document and `o'` that of the key, where both may be one.
module _ {ty : TransactionType} {a : ℤ} {p : Wallet → Bool} {f : Wallet → Wallet}
    (posts : Posts ty a p f) (x y : ℤ) where
  balance_kept :
      (b : Bool) (o o' : Option Wallet)
      → (b ≡ true → o ≡ o')
      → y ≡ (if hits p o && b then balance_change ty a else pos 0) +ℤ x
      → balance_in (if b then updated p f o' else o') +ℤ x ≡ balance_in o' +ℤ y
  balance_kept false o o' same e = grind int_laws
  balance_kept true o none same e = grind (int_laws, same refl)
  balance_kept true o (some w) same e = grind (int_laws, same refl, posts.balance w)

  frozen_kept :
      (b : Bool) (o o' : Option Wallet)
      → (b ≡ true → o ≡ o')
      → y ≡ (if hits p o && b then frozen_change ty a else pos 0) +ℤ x
      → frozen_in (if b then updated p f o' else o') +ℤ x ≡ frozen_in o' +ℤ y
  frozen_kept false o o' same e = grind int_laws
  frozen_kept true o none same e = grind (int_laws, same refl)
  frozen_kept true o (some w) same e = grind (int_laws, same refl, posts.frozen w)

module _ (c : Collection Wallet) where
  abbrev always : List WalletTransaction → WalletTransaction → Bool
  always _ _ = true

  -- The change of a key's balance since `s`, and the change that the journal shows.
  abbrev pub Reconciles : String → Service c → Service c → Type 0
  Reconciles j s s' =
      (balance_in (c.find_one j s'.wallets) +ℤ net_balance j s.journal
        ≡ balance_in (c.find_one j s.wallets) +ℤ net_balance j s'.journal)
      × (frozen_in (c.find_one j s'.wallets) +ℤ net_frozen j s.journal
          ≡ frozen_in (c.find_one j s.wallets) +ℤ net_frozen j s'.journal)

  freeze-Posted :
      (k : String) (a : ℤ) (t : String) (s : Service c)
      → Posted TransactionType.freeze k a
          (hits (has_available a) (c.find_one k s.wallets))
          s.journal
          (freeze c always k a t s).1.journal
  unfolding freeze
  freeze-Posted k a t s j = grind int_laws

  unfreeze-Posted :
      (k : String) (a : ℤ) (t : String) (s : Service c)
      → Posted TransactionType.unfreeze k a
          (hits (has_frozen a) (c.find_one k s.wallets))
          s.journal
          (unfreeze c always k a t s).journal
  unfolding unfreeze
  unfreeze-Posted k a t s j = grind int_laws

  debit-Posted :
      (g : Option ℤ) (k : String) (a : ℤ) (t : String) (s : Service c)
      → Posted TransactionType.debit k a
          (hits (has_available a) (c.find_one k s.wallets))
          s.journal
          (debit c always g k a t s).1.journal
  unfolding debit
  debit-Posted g k a t s j = grind int_laws

  credit-Posted :
      (k : String) (a : ℤ) (r : String) (t : Option String) (s : Service c)
      → Posted TransactionType.credit k a true s.journal
          (apply c always (Op.credit k a r t) s).journal
  unfolding apply credit ensure_wallet
  credit-Posted k a r t s j = grind (int_laws, find-upsert_self c k new_wallet s.wallets)

  -- An update and its entry keep the books.
  update-Reconciles :
      (ty : TransactionType) (k : String) (a : ℤ) (p : Wallet → Bool) (f : Wallet → Wallet)
      (s s' : Service c)
      → Posts ty a p f
      → s'.wallets ≡ c.update_one k p f s.wallets
      → Posted ty k a (hits p (c.find_one k s.wallets)) s.journal s'.journal
      → (j : String) → Reconciles j s s'
  update-Reconciles ty k a p f s s' posts e journal j =
      let same : str_eq k j ≡ true → c.find_one k s.wallets ≡ c.find_one j s.wallets =
        λ h. ap (λ i. c.find_one i s.wallets) ((str_eq_iff k j).0 h) in
      rw (e, c.find_one-update_one)
        (
          balance_kept posts (net_balance j s.journal) (net_balance j s'.journal) (str_eq k j)
              (c.find_one k s.wallets) (c.find_one j s.wallets) same (journal j).0,
          frozen_kept posts (net_frozen j s.journal) (net_frozen j s'.journal) (str_eq k j)
              (c.find_one k s.wallets) (c.find_one j s.wallets) same (journal j).1,
        )

  -- Making sure that a wallet is there changes no amount.
  ensure_wallet-amounts :
      (k j : String) (s : Service c)
      → (balance_in (c.find_one j (ensure_wallet c always k s).wallets)
          ≡ balance_in (c.find_one j s.wallets))
        × (frozen_in (c.find_one j (ensure_wallet c always k s).wallets)
            ≡ frozen_in (c.find_one j s.wallets))
  unfolding ensure_wallet
  ensure_wallet-amounts k j s = rw c.find_one-upsert (ground arith)

  credit-Reconciles :
      (k : String) (a : ℤ) (r : String) (t : Option String) (s : Service c) (j : String)
      → Reconciles j s (apply c always (Op.credit k a r t) s)
  unfolding ensure_wallet
  credit-Reconciles k a r t s j =
      let s₁ : Service c = ensure_wallet c always k s in
      let hit : hits (λ _. true) (c.find_one k s₁.wallets) ≡ true =
        rw (find-upsert_self c k new_wallet s.wallets) in
      let kept =
        update-Reconciles TransactionType.credit k a (λ _. true) (inc_balance a) s₁
          (apply c always (Op.credit k a r t) s) (credit-Posts a)
          (credit-wallets c always k a r t s) (rw hit (credit-Posted k a r t s)) j in
      let amounts = ensure_wallet-amounts k j s in
      (rw (← amounts.0) kept.0, rw (← amounts.1) kept.1)

  apply-Reconciles : (op : Op) (s : Service c) (j : String) → Reconciles j s (apply c always op s)
  unfolding apply
  apply-Reconciles (Op.freeze k a t) s j =
      update-Reconciles TransactionType.freeze k a (has_available a) (inc_frozen a) s
        (freeze c always k a t s).1 (freeze-Posts a) (freeze-wallets c always k a t s)
        (freeze-Posted k a t s) j
  apply-Reconciles (Op.unfreeze k a t) s j =
      update-Reconciles TransactionType.unfreeze k a (has_frozen a) (dec_frozen a) s
        (unfreeze c always k a t s) (unfreeze-Posts a) (unfreeze-wallets c always k a t s)
        (unfreeze-Posted k a t s) j
  apply-Reconciles (Op.debit g k a t) s j =
      update-Reconciles TransactionType.debit k a (has_available a) (dec_balance a) s
        (debit c always g k a t s).1 (debit-Posts a) (debit-wallets c always g k a t s)
        (debit-Posted g k a t s) j
  apply-Reconciles (Op.credit k a r t) s j = credit-Reconciles k a r t s j

  Reconciles-trans :
      (j : String) (s s' s'' : Service c)
      → Reconciles j s s'
      → Reconciles j s' s''
      → Reconciles j s s''
  Reconciles-trans j s s' s'' h h' =
      (books_trans _ _ _ _ _ _ h.0 h'.0, books_trans _ _ _ _ _ _ h.1 h'.1)

  -- Where the database takes every journal entry, the journal accounts for every amount: after any
  -- sequence of calls, the balance and the frozen amount under each key have changed by exactly the
  -- signed sums of the entries that were added under that key.
  pub run-Reconciles :
      (ops : List Op) (s : Service c) (j : String) → Reconciles j s (run c always ops s)
  unfolding run
  run-Reconciles [] s j = (omega int_laws, omega int_laws)
  run-Reconciles (op ∷ ops) s j =
      Reconciles-trans j s (apply c always op s) (run c always (op ∷ ops) s)
        (apply-Reconciles op s j) (run-Reconciles ops (apply c always op s) j)
