-- ===== src/Proxy/Repo/Catalogue.antt =====
-- The page queries of proxy_repo.go, and what administrators do to products and providers. Rows
-- stand newest first, as ORDER BY created_at DESC returns them; providers in no order. The columns
-- that reference another table are those of migrations/000004_create_proxy_schema.sql.
use mathlib.Core.List.{reverse}
use cloudmini_reseller.Common.{
  ℕ, Bool, true, false, not, ◌&&◌, List, ◌∷◌, ◌==◌, if◌then◌else◌, length, select_where,
  update_where, any,
}
use cloudmini_reseller.Common.Int.{ℤ, ◌+ℤ◌}
use cloudmini_reseller.Common.Action.{ok, err, pure, ◌>>=◌, ◌>>◌, modify, or_raise}
use cloudmini_reseller.Proxy.Entity.{
  OrderStatus, failed, cancelled, Provider, Product, Order, EventType,
}
use cloudmini_reseller.Proxy.World.{World, Action, call, still_referenced, bad_offset}
use cloudmini_reseller.Proxy.Repo.{is_active, is_before}
use cloudmini_reseller.Web.Pages.{limit_offset}

-- The SELECT of a page.
abbrev page : {A : Type 0} → (World → List A) → ℤ → ℕ → Action (List A)
page rows offset limit = do
  call
  λ env w. or_raise (limit_offset limit offset (rows w)) bad_offset env w

abbrev is_failed_or_cancelled : OrderStatus → Bool
is_failed_or_cancelled failed = true
is_failed_or_cancelled cancelled = true
is_failed_or_cancelled _ = false

-- WHERE user_id=$1 AND status NOT IN ('failed', 'cancelled')
abbrev pub is_listed : ℕ → Order → Bool
is_listed user o = o.user_id == user && not (is_failed_or_cancelled o.status)

unfoldable pub list_by_user : ℕ → ℤ → ℕ → Action (List Order × ℕ)
list_by_user user offset limit = do
  call
  total ← λ env w. (ok (length (select_where (is_listed user) w.orders)), w)
  rows ← page (λ w. select_where (is_listed user) w.orders) offset limit
  pure (rows, total)

-- `within` from now, in seconds.
unfoldable pub list_expiring : ℤ → Action (List Order)
list_expiring within = do
  call
  λ env w. (
    ok (
        select_where
          (λ (o : Order). is_active o.status && is_before o.expires_at (env.now +ℤ within))
          w.orders),
    w,
  )

-- `_ = r.db.GetContext(…)`: a count that fails is 0.
abbrev count : (World → ℕ) → Action ℕ
count rows env w = let (r, w') = call env w in (elim r [ ok _ ↦ ok (rows w) | err e ↦ ok 0 ], w')

-- The three filters of the request are not in the query.
unfoldable pub product_list : ℤ → ℕ → Action (List Product × ℕ)
product_list offset limit = do
  total ← count (λ w. length (select_where (λ (p : Product). p.is_active) w.products))
  rows ← page (λ w. select_where (λ (p : Product). p.is_active) w.products) offset limit
  pure (rows, total)

unfoldable pub product_admin_list : ℤ → ℕ → Action (List Product × ℕ)
product_admin_list offset limit = do
  total ← count (λ w. length w.products)
  rows ← page (λ w. w.products) offset limit
  pure (rows, total)

unfoldable pub product_create : Product → Action (Unit {0})
product_create p = do call; modify λ w. record w { products = p ∷ w.products }

abbrev pub is_product : ℕ → Product → Bool
is_product id p = p.id == id

-- All columns but is_active.
unfoldable pub product_update : Product → Action (Unit {0})
product_update p = do
  call
  modify λ w. record w {
    products =
        update_where (is_product p.id)
          (λ (q : Product). record p { id = q.id; is_active = q.is_active }) w.products;
  }

-- A product that an order names cannot be deleted.
unfoldable pub product_delete : ℕ → Action (Unit {0})
product_delete id = do
  call
  λ env w.
      (if any (λ (o : Order). o.product_id == id) w.orders
        then (err still_referenced, w)
        else (ok tt, record w { products = select_where (λ p. not (is_product id p)) w.products }))

unfoldable pub product_toggle_active : ℕ → Action (Unit {0})
product_toggle_active id = do
  call
  modify λ w. record w {
    products =
        update_where (is_product id) (λ p. record p { is_active = not p.is_active }) w.products;
  }

abbrev pub is_provider : ℕ → Provider → Bool
is_provider id p = p.id == id

unfoldable pub provider_list_active : Action (List Provider)
provider_list_active = do
  call
  λ env w. (ok (select_where (λ (p : Provider). p.is_active) w.providers), w)

unfoldable pub provider_list_all : Action (List Provider)
provider_list_all = do call; λ env w. (ok w.providers, w)

unfoldable pub provider_create : Provider → Action (Unit {0})
provider_create p = do call; modify λ w. record w { providers = p ∷ w.providers }

unfoldable pub provider_update : Provider → Action (Unit {0})
provider_update p = do
  call
  modify λ w. record w { providers = update_where (is_provider p.id) (λ _. p) w.providers }

unfoldable pub provider_toggle_active : ℕ → Bool → Action (Unit {0})
provider_toggle_active id active = do
  call
  modify λ w. record w {
    providers = update_where (is_provider id) (λ p. record p { is_active = active }) w.providers;
  }

-- A provider that an order names cannot be deleted.
unfoldable pub provider_delete : ℕ → Action (Unit {0})
provider_delete id = do
  call
  λ env w.
      (if any (λ (o : Order). o.provider_id == id) w.orders then (err still_referenced, w) else (
        ok tt,
        record w { providers = select_where (λ p. not (is_provider id p)) w.providers },
      ))

-- OrderEventRepository.ListByOrder, the earliest first.
unfoldable pub events_by_order : ℕ → Action (List (ℕ × EventType))
events_by_order id = do
  call
  λ env w. (ok (reverse (select_where (λ (e : ℕ × EventType). e.0 == id) w.events)), w)
