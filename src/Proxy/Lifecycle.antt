-- ===== src/Proxy/Lifecycle.antt =====
-- What becomes of an order: its owner cancels, renews or reads it, an administrator locks and
-- unlocks it, a provider's webhook fulfils it. The methods of OrderUsecase after CreateOrder,
-- lock_usecase.go and webhook_usecase.go of services/proxy-service/internal/usecase.
pub mod Closing
pub mod History
pub mod Owners
pub mod Refund
use cloudmini_reseller.Common.{
  ℕ, String, str_eq, Bool, true, false, not, ◌&&◌, ◌||◌, Option, none, some, ◌==◌, if◌then◌else◌,
}
use cloudmini_reseller.Common.Int.{ℤ, pos, leb_ℤ}
use cloudmini_reseller.Common.Action.{
  Outcome, ok, err, pure, raise, ◌>>=◌, ◌>>◌, raise_if, attempt, or_else,
}
use cloudmini_reseller.Proxy.Entity.{
  OrderStatus, pending, processing, active, expired, cancelled, suspended, Product, Order,
  order_cancelled, order_renewed, order_locked, order_unlocked, order_activated, order_fulfilled,
  order_was_cancelled,
}
use cloudmini_reseller.Proxy.World.{
  Env, World, Action, VendorCall, cancel, suspend, resume, hold, confirm, release, bill, vend,
  encrypt, log_event, publish, forbidden, not_active, not_expired, no_fixed_duration,
  no_expiry_date, not_lockable, not_suspended, err_order_not_cancellable, hold_failed,
  confirm_failed, update_failed, encrypt_failed,
}
use cloudmini_reseller.Proxy.Repo.{
  get_by_id, get_by_provider_order_id, update_status, update_order, update_after_purchase,
  product_get_by_id, effective_expiry, is_active, is_expired,
}
use cloudmini_reseller.Proxy.Orders.{add_days, first_expiry}

abbrev pub is_pending : OrderStatus → Bool
is_pending pending = true
is_pending _ = false

abbrev pub is_suspended : OrderStatus → Bool
is_suspended suspended = true
is_suspended _ = false

abbrev pub is_processing : OrderStatus → Bool
is_processing processing = true
is_processing _ = false

-- A request to the order's provider, if it knows the order and is registered; its error is dropped.
abbrev pub tell_provider : (ℕ → String → VendorCall) → Order → Action (Unit {0})
tell_provider kind o env w =
    if not (str_eq o.provider_order_id "") && env.registered o.provider_id
    then attempt (vend (kind o.provider_id o.provider_order_id)) env w
    else (ok tt, w)

unfoldable pub get_order : ℕ → ℕ → Action Order
get_order id user = do o ← get_by_id id; raise_if (not (o.user_id == user)) forbidden; pure o

-- The stored credentials, still encrypted: what follows only decrypts and reformats them.
unfoldable pub get_credentials : ℕ → ℕ → Action String
get_credentials id user = do
  o ← get_by_id id
  raise_if (not (o.user_id == user)) forbidden
  raise_if (not (is_active o.status)) not_active
  pure o.credentials

abbrev pub is_cancellable : OrderStatus → Bool
is_cancellable s = is_active s || is_pending s || is_expired s

abbrev pub refund : Order → Action (Unit {0})
refund o =
    if is_active o.status || is_pending o.status
    then attempt (bill release o.user_id o.total_amount o.id)
    else pure tt

unfoldable pub cancel_order : ℕ → ℕ → Action (Unit {0})
cancel_order id user = do
  o ← get_by_id id
  raise_if (not (o.user_id == user)) forbidden
  raise_if (not (is_cancellable o.status)) err_order_not_cancellable
  tell_provider cancel o
  update_status o.id cancelled
  refund o
  log_event o.id order_cancelled
  publish (order_was_cancelled o.id)

abbrev pub renew_price : Order → ℤ
renew_price o = elim o.custom_price [ some p ↦ p | none ↦ o.total_amount ]

-- `product.DurationDays == nil || *product.DurationDays <= 0`
abbrev pub fixed_duration : Product → Action ℤ
fixed_duration product = elim product.duration_days [
  | none ↦ raise no_fixed_duration
  | some days ↦ if leb_ℤ days (pos 0) then raise no_fixed_duration else pure days
]

abbrev pub expiry_of : Order → Action ℤ
expiry_of o = elim (effective_expiry o) [ some t ↦ pure t | none ↦ raise no_expiry_date ]

-- From the charge to the new row.
unfoldable pub renew_to : Order → ℤ → Action Order
renew_to o expiry = do
  or_else (bill hold o.user_id (renew_price o) o.id) (pure tt) hold_failed
  or_else (bill confirm o.user_id (renew_price o) o.id)
      (attempt (bill release o.user_id (renew_price o) o.id)) confirm_failed
  tell_provider resume o
  update_after_purchase o.id o.provider_order_id o.credentials o.activated_at (some expiry)
  attempt (update_order o.id none none o.admin_note)
  update_status o.id active
  log_event o.id order_renewed
  pure (record o { status = active; expires_at = some expiry; custom_expires_at = none })

unfoldable pub renew_found : Order → Action Order
unfolding renew_to
renew_found o = do
  product ← product_get_by_id o.product_id
  days ← fixed_duration product
  expiry ← expiry_of o
  renew_to o (add_days expiry days)

unfoldable pub renew_order : ℕ → ℕ → Action Order
renew_order id user = do
  o ← get_by_id id
  raise_if (not (o.user_id == user)) forbidden
  raise_if (not (is_expired o.status)) not_expired
  renew_found o

unfoldable pub lock_order : ℕ → Action (Unit {0})
lock_order id = do
  o ← get_by_id id
  raise_if (not (is_active o.status) && not (is_expired o.status)) not_lockable
  tell_provider suspend o
  update_status id suspended
  log_event id order_locked

unfoldable pub unlock_order : ℕ → Action (Unit {0})
unlock_order id = do
  o ← get_by_id id
  raise_if (not (is_suspended o.status)) not_suspended
  tell_provider resume o
  update_status id active
  log_event id order_unlocked

-- What the provider reports: the credentials as JSON, and an expiry unless it is the zero time.
pub record Proxy : Type 0 where
  pub credentials : String
  pub expires_at : Option ℤ

-- The reported expiry, or else that of the product, if the product can be read.
abbrev pub fulfilled_expiry : Order → Proxy → Env → World → Option ℤ × World
fulfilled_expiry o proxy env w = elim proxy.expires_at [
  | some t ↦ (some t, w)
  | none ↦
      let (r, w') = product_get_by_id o.product_id env w in
      (elim r [ ok product ↦ first_expiry product env.now | err e ↦ none ], w')
]

unfoldable pub fulfill : Order → String → Proxy → Action (Unit {0})
fulfill o provider_id proxy = do
  encrypted ← or_else (encrypt proxy.credentials) (pure tt) encrypt_failed
  λ env w.
      let (expiry, w') = fulfilled_expiry o proxy env w in
      or_else (update_after_purchase o.id provider_id encrypted (some env.now) expiry) (pure tt)
        update_failed env w'
  attempt (bill confirm o.user_id o.total_amount o.id)
  log_event o.id order_activated
  publish (order_fulfilled o.id)

unfoldable pub fulfill_from_proxy_cheap : String → Proxy → Action (Unit {0})
unfolding fulfill
fulfill_from_proxy_cheap provider_id proxy = do
  o ← get_by_provider_order_id provider_id
  if is_processing o.status then fulfill o provider_id proxy else pure tt
