-- ===== src/Proxy/Repo.antt =====
-- The repositories, services/proxy-service/internal/repository/postgres/proxy_repo.go, and the
-- UNIQUE idempotency_key of migrations/000004_create_proxy_schema.sql.
pub mod Catalogue
use cloudmini_reseller.Common.{
  ℕ, String, str_eq, Bool, true, false, ◌&&◌, Option, none, some, List, ◌∷◌, ◌==◌, if◌then◌else◌,
  find_where, select_where, update_where, any,
}
use cloudmini_reseller.Common.Int.{ℤ, ltb_ℤ, ◌-ℤ◌}
use cloudmini_reseller.Common.Action.{ok, err, ◌>>◌, modify, or_raise}
use cloudmini_reseller.Proxy.Entity.{OrderStatus, active, expired, Provider, Product, Order}
use cloudmini_reseller.Proxy.World.{
  Action, call, err_order_not_found, err_product_not_found, err_provider_not_found, duplicate_key,
}

abbrev pub has_key : String → Order → Bool
has_key key o = str_eq o.idempotency_key key

abbrev pub has_provider_id : String → Order → Bool
has_provider_id provider_id o = str_eq o.provider_order_id provider_id

abbrev pub is_order : ℕ → Order → Bool
is_order id o = o.id == id

unfoldable pub order_create : Order → Action (Unit {0})
order_create o = do
  call
  λ env w.
      (if any (has_key o.idempotency_key) w.orders
        then (err duplicate_key, w)
        else (ok tt, record w { orders = o ∷ w.orders }))

unfoldable pub get_by_id : ℕ → Action Order
get_by_id id = do
  call
  λ env w. or_raise (find_where (is_order id) w.orders) err_order_not_found env w

unfoldable pub get_by_idempotency_key : String → Action Order
get_by_idempotency_key key = do
  call
  λ env w. or_raise (find_where (has_key key) w.orders) err_order_not_found env w

unfoldable pub get_by_provider_order_id : String → Action Order
get_by_provider_order_id provider_id = do
  call
  λ env w. or_raise (find_where (has_provider_id provider_id) w.orders) err_order_not_found env w

abbrev pub set_status : OrderStatus → Order → Order
set_status s o = record o { status = s }

unfoldable pub update_status : ℕ → OrderStatus → Action (Unit {0})
update_status id s = do
  call
  modify λ w. record w { orders = update_where (is_order id) (set_status s) w.orders }

abbrev pub set_overrides : Option ℤ → Option ℤ → String → Order → Order
set_overrides price expiry note o = record o {
  custom_price = price;
  custom_expires_at = expiry;
  admin_note = note;
}

unfoldable pub update_order : ℕ → Option ℤ → Option ℤ → String → Action (Unit {0})
update_order id price expiry note = do
  call
  modify λ w. record w {
    orders = update_where (is_order id) (set_overrides price expiry note) w.orders;
  }

-- `status=CASE WHEN $2='' THEN status ELSE 'active' END`
abbrev pub set_purchase : String → String → Option ℤ → Option ℤ → Order → Order
set_purchase provider_id credentials activated expiry o = record o {
  provider_order_id = provider_id;
  credentials = credentials;
  activated_at = activated;
  expires_at = expiry;
  status = if str_eq credentials "" then o.status else active;
}

unfoldable pub update_after_purchase : ℕ → String → String → Option ℤ → Option ℤ → Action (Unit {0})
update_after_purchase id provider_id credentials activated expiry = do
  call
  modify λ w. record w {
    orders =
        update_where (is_order id) (set_purchase provider_id credentials activated expiry) w.orders;
  }

-- COALESCE(custom_expires_at, expires_at)
abbrev pub effective_expiry : Order → Option ℤ
effective_expiry o = elim o.custom_expires_at [ some t ↦ some t | none ↦ o.expires_at ]

abbrev pub is_before : Option ℤ → ℤ → Bool
is_before none t = false
is_before (some e) t = ltb_ℤ e t

abbrev pub is_active : OrderStatus → Bool
is_active active = true
is_active _ = false

abbrev pub is_expired : OrderStatus → Bool
is_expired expired = true
is_expired _ = false

abbrev pub has_run_out : ℤ → Order → Bool
has_run_out t o = is_active o.status && is_before (effective_expiry o) t

unfoldable pub list_expired_active : Action (List Order)
list_expired_active = do call; λ env w. (ok (select_where (has_run_out env.now) w.orders), w)

abbrev pub has_lapsed : ℤ → Order → Bool
has_lapsed t o = is_expired o.status && is_before (effective_expiry o) t

unfoldable pub list_expired_grace : ℤ → Action (List Order)
list_expired_grace grace = do
  call
  λ env w. (ok (select_where (has_lapsed (env.now -ℤ grace)) w.orders), w)

unfoldable pub product_get_by_id : ℕ → Action Product
product_get_by_id id = do
  call
  λ env w.
      or_raise (find_where (λ (p : Product). p.id == id) w.products) err_product_not_found env w

unfoldable pub provider_get_by_id : ℕ → Action Provider
provider_get_by_id id = do
  call
  λ env w.
      or_raise (find_where (λ (p : Provider). p.id == id) w.providers) err_provider_not_found env w
