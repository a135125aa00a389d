-- ===== src/Proxy/Orders.antt =====
-- OrderUsecase.CreateOrder, services/proxy-service/internal/usecase/order_usecase.go.
--
-- Everything before the hold is `prepare`, and what follows it is `settle`. An event that the
-- source publishes in a goroutine of its own is recorded where the goroutine starts.
pub mod Saga
use cloudmini_reseller.Common.{
  ℕ, ◌%◌, ◌-◌, String, str_eq, Bool, true, false, not, Option, none, some, List, [], ◌∷◌, length,
  if◌then◌else◌, zero, suc,
}
use cloudmini_reseller.Common.Int.{ℤ, pos, ◌+ℤ◌, ◌*ℤ◌, leb_ℤ}
use cloudmini_reseller.Common.Action.{
  Outcome, ok, err, pure, raise, ◌>>=◌, ◌>>◌, raise_if, attempt, or_else,
}
use cloudmini_reseller.Proxy.Entity.{
  pending, processing, active, failed, Product, Order, order_created, order_activated, order_failed,
  order_fulfilled,
}
use cloudmini_reseller.Proxy.World.{
  Env, World, Error, Action, PurchaseResult, hold, confirm, release, purchase, bill, buy, encrypt,
  ask_price, new_uuid, log_event, publish, err_no_provider_available, err_provider_purchase,
  product_not_active, hold_failed, update_failed, encrypt_failed,
}
use cloudmini_reseller.Proxy.Repo.{
  order_create, get_by_idempotency_key, update_status, update_after_purchase, product_get_by_id,
  provider_get_by_id,
}

pub record CreateOrderRequest : Type 0 where
  pub user_id : ℕ
  pub reseller_id : Option ℕ
  pub product_id : ℕ
  pub quantity : ℤ
  pub idempotency_key : String
  pub request_id : Option ℕ

-- The providers of a product that exist and are active; an id that cannot be looked up is skipped.
unfoldable pub active_providers : List (Option ℕ) → Env → World → List ℕ × World
active_providers [] env w = ([], w)
active_providers (none ∷ ids) env w = active_providers ids env w
active_providers (some id ∷ ids) env w =
    let (r, w') = provider_get_by_id id env w in
    let (rest, w'') = active_providers ids env w' in
    (elim r [ ok p ↦ if p.is_active then id ∷ rest else rest | err e ↦ rest ], w'')

nth_or : ℕ → ℕ → List ℕ → ℕ
nth_or i x [] = x
nth_or zero x (y ∷ ys) = y
nth_or (suc i) x (y ∷ ys) = nth_or i x ys

-- activeProviders[rand.Intn(len(activeProviders))]
pick_from : List ℕ → Action ℕ
unfolding nth_or
pick_from [] env w = (err err_no_provider_available, w)
pick_from (x ∷ xs) env w =
    (ok (nth_or (env.pick (length (x ∷ xs)) % length (x ∷ xs)) x (x ∷ xs)), w)

unfoldable pub select_provider : List (Option ℕ) → Action ℕ
unfolding active_providers pick_from
select_provider ids env w = let (found, w') = active_providers ids env w in pick_from found env w'

-- `if req.Quantity <= 0 { req.Quantity = 1 }`
abbrev pub at_least_one : ℤ → ℤ
at_least_one q = if leb_ℤ q (pos 0) then pos 1 else q

new_order : CreateOrderRequest → Product → ℕ → ℤ → ℕ → Order
new_order req product provider price id = record {
  id = id;
  user_id = req.user_id;
  reseller_id = req.reseller_id;
  product_id = req.product_id;
  provider_id = provider;
  status = pending;
  quantity = at_least_one req.quantity;
  unit_price = price;
  total_amount = price *ℤ at_least_one req.quantity;
  custom_price = none;
  provider_order_id = "";
  credentials = "";
  activated_at = none;
  expires_at = none;
  custom_expires_at = none;
  admin_note = "";
  idempotency_key = req.idempotency_key;
  request_id = req.request_id;
}

-- From the choice of a provider to the new row in the pending state.
unfoldable pub open_order : CreateOrderRequest → Product → Action (Product × Order)
unfolding new_order
open_order req product = do
  provider ← select_provider product.provider_ids
  price ← ask_price product.base_cost product.id req.reseller_id
  id ← new_uuid
  order_create (new_order req product provider price id)
  log_event id order_created
  pure (product, new_order req product provider price id)

-- Steps 1 and 2, and the new row.
unfoldable pub prepare : CreateOrderRequest → Action (Product × Order)
prepare req = do
  product ← product_get_by_id req.product_id
  raise_if (not product.is_active) product_not_active
  open_order req product

-- t.AddDate(0, 0, days)
unfoldable pub add_days : ℤ → ℤ → ℤ
add_days t days = t +ℤ days *ℤ pos 86400

abbrev pub fail_order : Order → String → Action (Unit {0})
fail_order o reason = do attempt (update_status o.id failed); publish (order_failed o.id reason)

abbrev pub give_back : Order → Action (Unit {0})
give_back o = do
  attempt (bill release o.user_id o.total_amount o.id)
  attempt (update_status o.id failed)

-- An asynchronous provider: the hold is kept until the provider's webhook.
unfoldable pub await : Order → String → Action Order
await o provider_id = do
  or_else (update_after_purchase o.id provider_id "" none none) (give_back o) update_failed
  attempt (update_status o.id processing)
  pure (record o { status = processing; provider_order_id = provider_id })

abbrev pub first_expiry : Product → ℤ → Option ℤ
first_expiry product t = elim product.duration_days [
  | none ↦ none
  | some days ↦ some (add_days t days)
]

unfoldable pub activate : Product → Order → String → String → Action Order
activate product o provider_id plain = do
  encrypted ← or_else (encrypt plain) (give_back o) encrypt_failed
  λ env w.
      or_else
        (update_after_purchase o.id provider_id encrypted (some env.now)
          (first_expiry product env.now))
        (give_back o) update_failed env w
  attempt (bill confirm o.user_id o.total_amount o.id)
  log_event o.id order_activated
  publish (order_fulfilled o.id)
  λ env w. (
    ok (record o {
      status = active;
      activated_at = some env.now;
      expires_at = first_expiry product env.now;
      credentials = encrypted;
    }),
    w,
  )

abbrev pub deliver : Product → Order → PurchaseResult → Action Order
deliver product o result = elim result.credentials [
  | none ↦ await o result.provider_order_id
  | some plain ↦ activate product o result.provider_order_id plain
]

abbrev pub not_sold : Order → String → Action (Unit {0})
not_sold o reason = do give_back o; publish (order_failed o.id reason)

-- Steps 3 to 7.
unfoldable pub settle : Product → Order → Action Order
unfolding await activate
settle product o = do
  or_else (bill hold o.user_id o.total_amount o.id) (fail_order o "insufficient_funds") hold_failed
  λ env w.
      or_else (if env.registered o.provider_id then pure tt else raise err_no_provider_available)
        (not_sold o "no_provider_available") err_no_provider_available env w
  result ←
      or_else (buy (purchase o.provider_id o.id o.quantity)) (not_sold o "provider_purchase_failed")
        err_provider_purchase
  deliver product o result

abbrev pub settle_opened : Outcome Error (Product × Order) → Action Order
settle_opened (ok (product, o)) env w = settle product o env w
settle_opened (err e) env w = (err e, w)

unfoldable pub place_order : CreateOrderRequest → Action Order
place_order req env w = let (r, w') = prepare req env w in settle_opened r env w'

-- `if err == nil { return existing, nil }`
abbrev pub reuse : CreateOrderRequest → Outcome Error Order → Action Order
reuse req (ok o) env w = (ok o, w)
reuse req (err e) env w = place_order req env w

-- The first argument says whether the request has no key.
abbrev pub create_unless : Bool → CreateOrderRequest → Action Order
create_unless true req env w = place_order req env w
create_unless false req env w =
    let (r, w') = get_by_idempotency_key req.idempotency_key env w in reuse req r env w'

unfoldable pub create_order : CreateOrderRequest → Action Order
create_order req = create_unless (str_eq req.idempotency_key "") req
