-- ===== src/Wallet/Spec.antt =====
-- What the wallet service promises: an account of free and held money for each key, and four
-- moves on it. The service keeps a total and a frozen part of it, in a shared collection.
use model_hub.Common.{String, Option, none, some, List, [], ◌∷◌, str_eq, if◌then◌else◌}
use model_hub.Common.Int.{ℤ, pos, ◌+ℤ◌, ◌-ℤ◌, leb_ℤ}

-- Calls of the service. A `debit` carries the configured threshold.
pub data Op : Type 0 where
  freeze : String → ℤ → String → Op
  unfreeze : String → ℤ → String → Op
  debit : Option ℤ → String → ℤ → String → Op
  credit : String → ℤ → String → Option String → Op

abbrev pub key_of : Op → String
key_of (Op.freeze k a t) = k
key_of (Op.unfreeze k a t) = k
key_of (Op.debit g k a t) = k
key_of (Op.credit k a r t) = k

abbrev pub amount_of : Op → ℤ
amount_of (Op.freeze k a t) = a
amount_of (Op.unfreeze k a t) = a
amount_of (Op.debit g k a t) = a
amount_of (Op.credit k a r t) = a

-- Money that can be spent, and money that is held for a task.
pub record Account : Type 0 where
  pub free : ℤ
  pub held : ℤ

abbrev pub hold : ℤ → Account → Account
hold a x = if leb_ℤ a x.free then record { free = x.free -ℤ a; held = x.held +ℤ a } else x

abbrev pub release : ℤ → Account → Account
release a x = if leb_ℤ a x.held then record { free = x.free +ℤ a; held = x.held -ℤ a } else x

abbrev pub spend : ℤ → Account → Account
spend a x = if leb_ℤ a x.free then record x { free = x.free -ℤ a } else x

abbrev pub deposit : ℤ → Account → Account
deposit a x = record x { free = x.free +ℤ a }

abbrev pub opened : Option Account → Account
opened none = record { free = pos 0; held = pos 0 }
opened (some x) = x

abbrev pub on_account : (Account → Account) → Option Account → Option Account
on_account f none = none
on_account f (some x) = some (f x)

-- The effect of a call on the account under its own key; only a credit opens an account.
abbrev pub step : Op → Option Account → Option Account
step (Op.freeze k a t) o = on_account (hold a) o
step (Op.unfreeze k a t) o = on_account (release a) o
step (Op.debit g k a t) o = on_account (spend a) o
step (Op.credit k a r t) o = some (deposit a (opened o))

abbrev pub Accounts : Type 0
Accounts = String → Option Account

abbrev pub spec : Op → Accounts → Accounts
spec op m j = if str_eq (key_of op) j then step op (m j) else m j

unfoldable pub spec_run : List Op → Accounts → Accounts
spec_run [] m = m
spec_run (op ∷ ops) m = spec_run ops (spec op m)
