-- ===== src/Billing/Action.antt =====
-- What a use case of billing-service runs on: the database, with one transaction that may be open,
-- and the outside world that decides which statements fail and which UUIDs and times are drawn.
use cloudmini_reseller.Common.{ℕ, suc, Bool, Option, List, ◌∷◌, if◌then◌else◌}
use cloudmini_reseller.Billing.Entity.{Wallet, Transaction, Payment, PricingRule, BillingEvent}

-- `fails n` says whether the n-th statement sent to the database fails, which a lost connection
-- does, or a UNIQUE column. `uuids` and `nanos` are what uuid.New and the clock give.
pub record Env : Type 0 where
  pub fails : ℕ → Bool
  pub uuids : ℕ → ℕ
  pub nanos : ℕ → ℕ

-- `staged` holds the rows that an open transaction has inserted. `events` are those handed to the
-- publisher, the latest first.
pub record World : Type 0 where
  pub wallets : List Wallet
  pub transactions : List Transaction
  pub payments : List Payment
  pub rules : List PricingRule
  pub staged : Option (List Transaction)
  pub statements : ℕ
  pub draws : ℕ
  pub events : List BillingEvent

pub data Error : Type 0 where
  err_wallet_not_found err_insufficient_funds err_invalid_amount : Error
  err_payment_not_found err_unsupported_gateway err_pricing_rule_not_found : Error
  hold_below_amount minimum_deposit database_failure check_violation : Error

pub data Result {ℓ} (A : Type ℓ) : Type ℓ where
  ok : A → Result A
  err : Error → Result A

abbrev pub Action : Type 0 → Type 0
Action A = Env → World → Result A × World

abbrev pub pure : {A : Type 0} → A → Action A
pure a env w = (ok a, w)

abbrev pub raise : {A : Type 0} → Error → Action A
raise e env w = (err e, w)

infixl 5 ◌>>=◌ ◌>>◌
abbrev pub ◌>>=◌ : {A B : Type 0} → Action A → (A → Action B) → Action B
◌>>=◌ m f env w = let (r, w') = m env w in elim r [ ok a ↦ f a env w' | err e ↦ (err e, w') ]

abbrev pub ◌>>◌ : {A B : Type 0} → Action A → Action B → Action B
m >> k = m >>= λ _. k

abbrev pub raise_if : Bool → Error → Action (Unit {0})
raise_if c e env w = (if c then err e else ok tt, w)

-- Sends one statement.
abbrev pub statement : Action (Unit {0})
statement env w = (
  if env.fails w.statements then err database_failure else ok tt,
  record w { statements = suc w.statements },
)

abbrev pub new_uuid : Action ℕ
new_uuid env w = (ok (env.uuids w.draws), record w { draws = suc w.draws })

abbrev pub unix_nano : Action ℕ
unix_nano env w = (ok (env.nanos w.draws), record w { draws = suc w.draws })

abbrev pub publish : BillingEvent → Action (Unit {0})
publish e env w = (ok tt, record w { events = e ∷ w.events })
