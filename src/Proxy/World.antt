-- ===== src/Proxy/World.antt =====
-- What the order use cases run on: the tables, and the calls to billing-service and to the proxy
-- providers, which are recorded with what became of them.
use cloudmini_reseller.Common.{
  ℕ, suc, String, Bool, false, not, ◌||◌, Option, List, ◌∷◌, if◌then◌else◌,
}
use cloudmini_reseller.Common.Int.{ℤ, pos, leb_ℤ}
use cloudmini_reseller.Common.Action.{Action as Act, ok, err}
use cloudmini_reseller.Proxy.Entity.{Provider, Product, Order, EventType, Message}

pub data BillingOp : Type 0 where
  hold confirm release : BillingOp

-- A request to billing-service, and whether it was answered without an error.
pub record BillingCall : Type 0 where
  pub op : BillingOp
  pub user : ℕ
  pub amount : ℤ
  pub order : ℕ
  pub done : Bool

-- A request to a provider: the purchase of a quantity for an order, or what is asked of an order
-- that the provider knows by its own id.
pub data VendorCall : Type 0 where
  purchase : ℕ → ℕ → ℤ → VendorCall
  cancel suspend resume : ℕ → String → VendorCall

-- `credentials` is none for an asynchronous provider.
pub record PurchaseResult : Type 0 where
  pub provider_order_id : String
  pub credentials : Option String

-- `fails n` says whether the n-th call to the outside fails: a statement to the database, a request
-- to billing-service or to a provider, an encryption, an event. A request for a hold that the
-- balance does not cover is one that fails, too. The other fields are what the
-- outside answers: the price that billing-service calculates, whether the registry has a provider,
-- what a purchase returns and an encryption, by the number of
-- the call, the index that rand.Intn draws below a bound.
pub record Env : Type 0 where
  pub fails : ℕ → Bool
  pub price : ℤ → ℕ → Option ℕ → ℤ
  pub registered : ℕ → Bool
  pub purchases : ℕ → PurchaseResult
  pub encrypt : ℕ → String → String
  pub pick : ℕ → ℕ
  pub uuids : ℕ → ℕ
  pub now : ℤ

pub record World : Type 0 where
  pub orders : List Order
  pub products : List Product
  pub providers : List Provider
  pub billing : List BillingCall
  pub vendor : List VendorCall
  pub events : List (ℕ × EventType)
  pub messages : List Message
  pub calls : ℕ
  pub draws : ℕ

pub data Error : Type 0 where
  err_order_not_found err_product_not_found err_provider_not_found : Error
  err_no_provider_available err_provider_purchase err_order_not_cancellable : Error
  product_not_active forbidden not_active not_expired no_fixed_duration no_expiry_date : Error
  not_lockable not_suspended duplicate_key call_failed hold_failed price_failed : Error
  update_failed confirm_failed encrypt_failed still_referenced bad_offset : Error

abbrev pub Action : Type 0 → Type 0
Action A = Act Env World Error A

-- One call to the outside.
abbrev pub call : Action (Unit {0})
call env w =
    (if env.fails w.calls then err call_failed else ok tt, record w { calls = suc w.calls })

abbrev pub new_uuid : Action ℕ
new_uuid env w = (ok (env.uuids w.draws), record w { draws = suc w.draws })

-- WalletUsecase.Hold refuses amounts of 0 and below.
abbrev pub is_refused : BillingOp → ℤ → Bool
is_refused hold amount = leb_ℤ amount (pos 0)
is_refused _ amount = false

abbrev pub bill : BillingOp → ℕ → ℤ → ℕ → Action (Unit {0})
bill op user amount order env w =
    let refused = env.fails w.calls || is_refused op amount in
    (
      if refused then err call_failed else ok tt,
      record w {
        calls = suc w.calls;
        billing =
            record { op = op; user = user; amount = amount; order = order; done = not refused }
            ∷ w.billing;
      },
    )

abbrev pub vend : VendorCall → Action (Unit {0})
vend c env w = (
  if env.fails w.calls then err call_failed else ok tt,
  record w { calls = suc w.calls; vendor = c ∷ w.vendor },
)

-- OrderEventRepository.Log, whose error every caller drops.
abbrev pub log_event : ℕ → EventType → Action (Unit {0})
log_event order kind env w = (
  ok tt,
  record w {
    calls = suc w.calls;
    events = if env.fails w.calls then w.events else (order, kind) ∷ w.events;
  },
)

abbrev pub publish : Message → Action (Unit {0})
publish m env w = (ok tt, record w { messages = m ∷ w.messages })

-- Provider.Purchase.
abbrev pub buy : VendorCall → Action PurchaseResult
buy c env w = (
  if env.fails w.calls then err call_failed else ok (env.purchases w.calls),
  record w { calls = suc w.calls; vendor = c ∷ w.vendor },
)

-- Cipher.Encrypt.
abbrev pub encrypt : String → Action String
encrypt plain env w = (
  if env.fails w.calls then err call_failed else ok (env.encrypt w.calls plain),
  record w { calls = suc w.calls },
)

-- BillingClient.CalculatePrice.
abbrev pub ask_price : ℤ → ℕ → Option ℕ → Action ℤ
ask_price base product reseller env w = (
  if env.fails w.calls then err price_failed else ok (env.price base product reseller),
  record w { calls = suc w.calls },
)
