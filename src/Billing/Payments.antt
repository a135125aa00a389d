-- ===== src/Billing/Payments.antt =====
-- Deposits, services/billing-service/internal/usecase/pricing_usecase.go (PaymentUsecase).
pub mod Webhook
use cloudmini_reseller.Common.{
  ℕ, String, str_eq, Bool, true, false, ◌||◌, Option, none, some, List, if◌then◌else◌,
}
use cloudmini_reseller.Common.Int.{ℤ, pos, ltb_ℤ}
use cloudmini_reseller.Billing.Entity.{
  Payment, PaymentStatus, pending, completed, Transaction, unit, deposit_via,
}
use cloudmini_reseller.Billing.Action.{
  World, Env, Error, Result, ok, err, Action, pure, raise, ◌>>=◌, ◌>>◌, raise_if, new_uuid,
  unix_nano, err_unsupported_gateway, minimum_deposit,
}
use cloudmini_reseller.Billing.Repo.{payment_create, get_by_gateway_txn_id, update_status}
use cloudmini_reseller.Billing.Wallet.{Reference, credit}

pub record CreateDepositRequest : Type 0 where
  pub user_id : ℕ
  pub wallet_id : ℕ
  pub gateway : String
  pub amount : ℤ
  pub currency : String

-- The parts of the URL "<base>/billing/pending?payment_id=<id>&gateway=<gateway>".
pub record CheckoutUrl : Type 0 where
  pub base : String
  pub payment_id : ℕ
  pub gateway : String

pub record CreateDepositResult : Type 0 where
  pub payment : Payment
  pub checkout_url : CheckoutUrl

is_gateway : String → Bool
is_gateway g = str_eq g "stripe" || str_eq g "vnpay" || str_eq g "momo"

build_checkout_url : String → Payment → Action CheckoutUrl
unfolding is_gateway
build_checkout_url base p =
    if is_gateway p.gateway
    then pure (record { base = base; payment_id = p.id; gateway = p.gateway })
    else raise err_unsupported_gateway

new_payment : CreateDepositRequest → ℕ → ℕ → Payment
new_payment req id number = record {
  id = id;
  payment_number = number;
  user_id = req.user_id;
  wallet_id = req.wallet_id;
  gateway = req.gateway;
  gateway_txn_id = none;
  amount = req.amount;
  currency = if str_eq req.currency "" then "USD" else req.currency;
  status = pending;
}

unfoldable pub create_deposit : String → CreateDepositRequest → Action CreateDepositResult
unfolding new_payment build_checkout_url
create_deposit frontend_base_url req = do
  raise_if (ltb_ℤ req.amount (pos unit)) minimum_deposit
  id ← new_uuid
  number ← unix_nano
  payment_create (new_payment req id number)
  url ← build_checkout_url frontend_base_url (new_payment req id number)
  pure (record { payment = new_payment req id number; checkout_url = url })

is_completed : PaymentStatus → Bool
is_completed completed = true
is_completed _ = false

payment_reference : String → Payment → Reference
payment_reference gateway p = record {
  reference_type = "payment";
  reference_id = some p.id;
  description = deposit_via gateway p.payment_number;
}

complete : String → String → Payment → Action Bool
unfolding payment_reference
complete gateway t p = do
  update_status p.id completed t
  credit p.user_id p.amount (payment_reference gateway p)
  pure true

-- What follows the look-up: `true` for a payment that has now been credited, `false` for a
-- duplicate.
settle : String → String → Payment → Action Bool
unfolding is_completed complete
settle gateway t p = if is_completed p.status then pure false else complete gateway t p

-- The amount that the gateway reports is not read by the source.
unfoldable pub handle_webhook : String → String → ℤ → Action Bool
unfolding settle
handle_webhook gateway t amount = get_by_gateway_txn_id t >>= settle gateway t
