-- ===== src/Proxy/Http/Routes.antt =====
-- The handler of each endpoint, behind its middleware.
use cloudmini_reseller.Common.{Option}
use cloudmini_reseller.Proxy.World.{Env, World}
use cloudmini_reseller.Proxy.Repo.Catalogue.{product_list, product_admin_list}
use cloudmini_reseller.Web.{Response, Claims, Libraries, must_parse_uuid, run_guarded}
use cloudmini_reseller.Web.Json.{Fields}
use cloudmini_reseller.Web.Pages.{parse}
use cloudmini_reseller.Proxy.Http.{
  Endpoint, Request, Data, Serve, guard_of, list_products, list_orders, create_order, get_order,
  patch_order, cancel_order, get_credentials, get_order_events, renew_order, admin_list_products,
  admin_create_product, admin_update_product, admin_toggle_product, admin_delete_product,
  admin_list_providers, admin_create_provider, admin_update_provider, admin_toggle_provider,
  admin_delete_provider, admin_get_user_orders, admin_order_action,
}
use cloudmini_reseller.Proxy.Http.Handlers.{
  show_products, show_orders, show_providers, post_order, patch, show_order, show_credentials,
  delete_order, post_renewal, show_events,
}
use cloudmini_reseller.Proxy.Http.Admin.{
  post_product, put_product, toggle_product, delete_product, post_provider, put_provider,
  toggle_provider, delete_provider, show_user_orders, order_action,
}

module _ (lib : Libraries) where
  -- The handler of an endpoint.
  unfoldable pub handle : Endpoint → Claims → Option Fields → Serve
  handle (list_products q) claims body = show_products product_list q
  handle (list_orders q) claims body =
      show_orders (must_parse_uuid lib claims.user_id) (parse q).offset (parse q)
  handle create_order claims body = post_order lib (must_parse_uuid lib claims.user_id) body
  handle (get_order id) claims body =
      show_order (must_parse_uuid lib claims.user_id) (must_parse_uuid lib id)
  handle (patch_order id) claims body =
      patch lib (must_parse_uuid lib claims.user_id) (must_parse_uuid lib id) body
  handle (cancel_order id) claims body =
      delete_order (must_parse_uuid lib claims.user_id) (must_parse_uuid lib id)
  handle (get_credentials id) claims body =
      show_credentials (must_parse_uuid lib claims.user_id) (must_parse_uuid lib id)
  handle (get_order_events id) claims body =
      show_events (must_parse_uuid lib claims.user_id) (must_parse_uuid lib id)
  handle (renew_order id) claims body =
      post_renewal (must_parse_uuid lib claims.user_id) (must_parse_uuid lib id)
  handle (admin_list_products q) claims body = show_products product_admin_list q
  handle admin_create_product claims body = post_product lib body
  handle (admin_update_product id) claims body = put_product lib (must_parse_uuid lib id) body
  handle (admin_toggle_product id) claims body = toggle_product (must_parse_uuid lib id)
  handle (admin_delete_product id) claims body = delete_product (must_parse_uuid lib id)
  handle admin_list_providers claims body = show_providers
  handle admin_create_provider claims body = post_provider lib body
  handle (admin_update_provider id) claims body = put_provider lib (must_parse_uuid lib id) body
  handle (admin_toggle_provider id) claims body = toggle_provider (must_parse_uuid lib id)
  handle (admin_delete_provider id) claims body = delete_provider (must_parse_uuid lib id)
  handle (admin_get_user_orders user q) claims body = show_user_orders lib user q
  handle (admin_order_action id) claims body = order_action (must_parse_uuid lib id) body

  unfoldable pub serve : Request → Env → World → Response Data × World
  serve req =
      run_guarded lib (guard_of req.endpoint) req.authorization
        (λ claims. handle req.endpoint claims req.body)
