-- ===== src/Proxy/Http/Admin.antt =====
-- The handlers of what administrators ask of proxy-service.
use cloudmini_reseller.Common.{ℕ, String, str_eq, true, not, ◌||◌, Option, map, if◌then◌else◌}
use cloudmini_reseller.Common.Int.{pos}
use cloudmini_reseller.Common.Action.{pure, raise, ◌>>=◌, ◌>>◌}
use cloudmini_reseller.Proxy.Entity.{Product}
use cloudmini_reseller.Proxy.World.{new_uuid}
use cloudmini_reseller.Proxy.Repo.{provider_get_by_id}
use cloudmini_reseller.Proxy.Repo.Catalogue.{
  product_create, product_update, product_delete, product_toggle_active, provider_create,
  provider_update, provider_toggle_active, provider_delete,
}
use cloudmini_reseller.Proxy.Lifecycle.{lock_order, unlock_order}
use cloudmini_reseller.Web.{
  respond_json, no_content, bad_request, Libraries, decimal_or_zero, demand, reject_if,
}
use cloudmini_reseller.Web.Json.{Fields, ◌>>=◌ as ◌>>?◌}
use cloudmini_reseller.Web.Pages.{PageQuery, parse}
use cloudmini_reseller.Proxy.Http.Bodies.{
  ProductBody, product_body, provider_body, provider_update_body, action_body,
}
use cloudmini_reseller.Proxy.Http.{product, provider, Serve, try, query, found}
use cloudmini_reseller.Proxy.Http.Handlers.{show_orders}

unfoldable pub toggle_product : ℕ → Serve
toggle_product id = do query (product_toggle_active id); pure no_content

unfoldable pub delete_product : ℕ → Serve
delete_product id = do query (product_delete id); pure no_content

unfoldable pub toggle_provider : ℕ → Serve
toggle_provider id = do
  p ← found (provider_get_by_id id)
  query (provider_toggle_active id (not p.is_active))
  pure (respond_json 200 (provider (record p { is_active = not p.is_active })))

unfoldable pub delete_provider : ℕ → Serve
delete_provider id = do query (provider_delete id); pure no_content

unfoldable pub order_action : ℕ → Option Fields → Serve
order_action id body = do
  req ← demand (body >>? action_body) bad_request
  if str_eq req.action "lock"
      then try (lock_order id)
      else if str_eq req.action "unlock"
      then try (unlock_order id)
      else raise bad_request
  pure no_content

module _ (lib : Libraries) where
  abbrev new_product : ℕ → ProductBody → Product
  new_product id req = record {
    id = id;
    provider_ids = map lib.parse_uuid req.provider_ids;
    duration_days = req.duration_days;
    base_cost = decimal_or_zero lib req.base_cost;
    is_active = true;
  }

  unfoldable pub post_product : Option Fields → Serve
  post_product body = do
    req ← demand (body >>? product_body) bad_request
    id ← query new_uuid
    query (product_create (new_product id req))
    pure (respond_json 201 (product (new_product id req)))

  unfoldable pub put_product : ℕ → Option Fields → Serve
  put_product id body = do
    req ← demand (body >>? product_body) bad_request
    query (product_update (new_product id req))
    pure no_content

  unfoldable pub post_provider : Option Fields → Serve
  post_provider body = do
    req ← demand (body >>? provider_body) bad_request
    reject_if (str_eq req.name "" || str_eq req.adapter_type "") bad_request
    id ← query new_uuid
    query (provider_create (record { id = id; is_active = true }))
    pure (respond_json 201 (provider (record { id = id; is_active = true })))

  unfoldable pub put_provider : ℕ → Option Fields → Serve
  put_provider id body = do
    req ← demand (body >>? provider_update_body) bad_request
    query (provider_update (record { id = id; is_active = req.is_active }))
    pure (respond_json 200 (provider (record { id = id; is_active = req.is_active })))

  -- The orders of the user whom the query names, from offset 0 on whatever page is asked for.
  unfoldable pub show_user_orders : String → PageQuery → Serve
  show_user_orders user q = do
    reject_if (str_eq user "") bad_request
    id ← demand (lib.parse_uuid user) bad_request
    show_orders id (pos 0) (parse q)
