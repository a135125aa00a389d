-- ===== src/Proxy/Tests.antt =====
-- Runs and witnesses of proxy-service.
use cloudmini_reseller.Common.{
  ◌⊎◌, ◌+◌, ◌*◌, ◌==◌, false, true, ◌≡◌, refl, none, some, List, [], ◌∷◌, All, arith, any,
  find_where,
}
use cloudmini_reseller.Common.Int.{pos, ◌*ℤ◌, ◌-ℤ◌, ◌≤ℤ◌}
use cloudmini_reseller.Common.Action.{ok, err}
use cloudmini_reseller.Proxy.Entity.{Order, Product, Provider, active, expired, cancelled}
use cloudmini_reseller.Proxy.World.{Env, World, PurchaseResult, hold, confirm, hold_failed}
use cloudmini_reseller.Proxy.Repo.{
  has_run_out, is_order, order_create, update_status, update_after_purchase, product_get_by_id,
  provider_get_by_id,
}
use cloudmini_reseller.Proxy.Orders.{
  CreateOrderRequest, create_order, place_order, prepare, open_order, select_provider,
  active_providers, settle, activate, add_days,
}
use cloudmini_reseller.Proxy.Orders.Saga.{asked, Pays, Same, create_order-Pays, create_order_again}
use cloudmini_reseller.Proxy.Lifecycle.{cancel_order, renew_order, renew_price}
use cloudmini_reseller.Proxy.Lifecycle.Closing.{Closed}
use cloudmini_reseller.Proxy.Lifecycle.History.{
  Command, cancels, renews, unlocks, expires, run_all, run_all-Closed,
}
use cloudmini_reseller.Proxy.Lifecycle.Owners.{renewed, renew_order_extends}
use cloudmini_reseller.Proxy.Lifecycle.Refund.{serve, not_refunded, cancel_order_unrefunded}
use cloudmini_reseller.Proxy.Expiry.{process_expired}
use cloudmini_reseller.Proxy.Expiry.Sweep.{process_expired_sweeps}
use cloudmini_reseller.Billing.Entity.{Wallet, unit, text, available_balance}
use cloudmini_reseller.Billing.Action.{World as Bank, Env as BankEnv}
use cloudmini_reseller.Billing.Repo.{find_by_user}
use cloudmini_reseller.Billing.Wallet.{Reference}

abbrev sale : PurchaseResult
sale = record { provider_order_id = "p-1"; credentials = some "secret" }

abbrev pub up : Env
up = record {
  fails = λ _. false;
  price = λ base product reseller. base;
  registered = λ _. true;
  purchases = λ _. sale;
  encrypt = λ n s. "sealed";
  pick = λ n. 0;
  uuids = λ n. n + 100;
  now = pos 1000000;
}

-- The purchase fails: it is the seventh call.
abbrev purchase_fails : Env
purchase_fails = record up { fails = λ n. n == 6 }

abbrev pub monthly : Product
monthly = record {
  id = 5;
  provider_ids = none ∷ some 8 ∷ [];
  duration_days = some (pos 30);
  base_cost = pos (3 * unit);
  is_active = true;
}

abbrev vendor : Provider
vendor = record { id = 8; is_active = true }

-- An order of user 7, sold at time 0 for 6.00.
abbrev pub sold : Order
sold = record {
  id = 20;
  user_id = 7;
  reseller_id = none;
  product_id = 5;
  provider_id = 8;
  status = active;
  quantity = pos 2;
  unit_price = pos (3 * unit);
  total_amount = pos (6 * unit);
  custom_price = none;
  provider_order_id = "p-0";
  credentials = "sealed";
  activated_at = some (pos 0);
  expires_at = some (pos 2592000);
  custom_expires_at = none;
  admin_note = "";
  idempotency_key = "";
  request_id = none;
}

abbrev pub ended : Order
ended = record sold { status = expired }

abbrev gone : Order
gone = record sold { status = cancelled }

abbrev world : World
world = record {
  orders = [];
  products = monthly ∷ [];
  providers = vendor ∷ [];
  billing = [];
  vendor = [];
  events = [];
  messages = [];
  calls = 0;
  draws = 0;
}

abbrev pub with_order : Order → World
with_order o = record world { orders = o ∷ [] }

abbrev wish : CreateOrderRequest
wish = record {
  user_id = 7;
  reseller_id = none;
  product_id = 5;
  quantity = pos 0;
  idempotency_key = "k";
  request_id = none;
}

abbrev keyless : CreateOrderRequest
keyless = record wish { idempotency_key = "" }

-- One proxy for 3.00, active for thirty days.
created :
    (create_order keyless up world).1.billing
    ≡ record (asked confirm sold true) { amount = pos (3 * unit); order = 100 }
      ∷ record (asked hold sold true) { amount = pos (3 * unit); order = 100 }
      ∷ []
unfolding create_order place_order prepare open_order select_provider active_providers settle
    activate order_create update_status update_after_purchase product_get_by_id provider_get_by_id
    ◌*ℤ◌
created = refl

create_order-Pays_example :
    let (r, w') = create_order wish purchase_fails world in Pays wish world r w'
create_order-Pays_example = create_order-Pays wish purchase_fails world

create_order_again_example : Same (with_order sold) (create_order keyless up (with_order sold)).1
create_order_again_example = create_order_again keyless up (with_order sold) refl

abbrev history : List (Command × Env)
history = (cancels 20 7, up) ∷ (renews 20 7, up) ∷ (unlocks 20, up) ∷ (expires, up) ∷ []

run_all-Closed_example : All (Closed 20 cancelled) (run_all history (with_order gone)).orders
run_all-Closed_example =
    run_all-Closed 20 cancelled history (with_order gone) refl ((λ e. refl), tt)

abbrev later : Env
later = record up { now = pos 3000000 }

process_expired_sweeps_example :
    any (has_run_out (pos 3000000)) (process_expired later (with_order sold)).1.orders ≡ false
process_expired_sweeps_example = process_expired_sweeps later (with_order sold) (λ n. refl)

renew_order_extends_example :
    let (r, w') = renew_order 20 7 up (with_order ended) in
    ((pos 1 ≤ℤ renew_price ended)
      × (r ≡ ok (renewed (add_days (pos 2592000) (pos 30)) ended))
      × (w'.billing ≡ asked confirm ended true ∷ asked hold ended true ∷ [])
      × (find_where (is_order 20) w'.orders
          ≡ some (renewed (add_days (pos 2592000) (pos 30)) ended)))
    ⊎ ((renew_price ended ≤ℤ pos 0)
        × (r ≡ err hold_failed)
        × (w'.billing ≡ asked hold ended false ∷ [])
        × (w'.orders ≡ ended ∷ []))
renew_order_extends_example =
    renew_order_extends 20 7 ended up (with_order ended) refl monthly (pos 30) (pos 2592000)
      (λ n. refl) refl refl refl refl (omega arith) refl

-- 20.00, of which 5.00 are held.
abbrev purse : Wallet
purse = record {
  id = 1;
  user_id = 7;
  balance = pos (20 * unit);
  hold_amount = pos (5 * unit);
  currency = "USD";
  low_balance_threshold = pos (5 * unit);
}

abbrev bank : Bank
bank = record {
  wallets = purse ∷ [];
  transactions = [];
  payments = [];
  rules = [];
  staged = none;
  statements = 0;
  draws = 0;
  events = [];
}

abbrev bank_up : BankEnv
bank_up = record { fails = λ _. false; uuids = λ n. n + 100; nanos = λ n. n }

abbrev paid : World
paid = record (with_order sold) { billing = asked confirm sold true ∷ asked hold sold true ∷ [] }

abbrev refund : Reference
refund = record { reference_type = "proxy_order"; reference_id = some 20; description = text "" }

found : find_by_user 7 bank.wallets ≡ some purse
unfolding find_by_user
found = refl

covered : pos (6 * unit) ≤ℤ available_balance purse
unfolding available_balance ◌-ℤ◌
covered = omega arith

cancel_order_unrefunded_example :
    find_by_user 7 (serve refund (cancel_order 20 7 up paid).1.billing bank_up bank).wallets
    ≡ some (not_refunded (pos (6 * unit)) purse)
cancel_order_unrefunded_example =
    cancel_order_unrefunded sold refund bank_up bank purse (λ n. refl) found
      (omega arith, omega arith) (omega arith, covered) 20 7 up paid (λ n. refl) refl refl refl refl
