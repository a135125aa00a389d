-- ===== src/Proxy/Http.antt =====
-- The HTTP interface of proxy-service, services/proxy-service/internal/handler/http/handler.go.
--
-- Left out are the three endpoints that only ask a provider for its groups and options, and the
-- webhook of proxy-cheap.
pub mod Bodies
mod Tests
pub mod Handlers
pub mod Admin
pub mod Routes
pub mod Owners
pub mod Renewals
use cloudmini_reseller.Common.{
  ℕ, String, str_eq, Bool, true, false, not, ◌||◌, Option, none, some, List, map, if◌then◌else◌,
}
use cloudmini_reseller.Common.Int.{ℤ, pos}
use cloudmini_reseller.Common.Action.{pure, raise, ◌>>=◌, ◌>>◌}
use cloudmini_reseller.Proxy.Entity.{Order, Product, Provider, EventType, order_patched}
use cloudmini_reseller.Proxy.World.{
  Env, World, Error, Action, new_uuid, log_event, err_order_not_found, err_product_not_found,
  err_order_not_cancellable, err_no_provider_available,
}
use cloudmini_reseller.Proxy.Repo.{update_order, provider_get_by_id}
use cloudmini_reseller.Proxy.Repo.Catalogue.{
  list_by_user, product_list, product_admin_list, product_create, product_update, product_delete,
  product_toggle_active, provider_list_all, provider_create, provider_update,
  provider_toggle_active, provider_delete, events_by_order,
}
use cloudmini_reseller.Proxy.Orders.{create_order as place_new_order}
use cloudmini_reseller.Proxy.Lifecycle.{
  get_order as read_order, get_credentials as read_credentials, cancel_order as cancel,
  renew_order as renew, lock_order, unlock_order,
}
use cloudmini_reseller.Web.{
  Response, respond, respond_json, no_content, bad_request, internal, Code, not_found, conflict,
  provider_unavailable, Claims, Libraries, must_parse_uuid, decimal_or_zero, Guard, signed_in,
  with_role, admins, Handler, or_respond, demand, reject_if, run_guarded,
}
use cloudmini_reseller.Web.Json.{Fields, ◌>>=◌ as ◌>>?◌}
use cloudmini_reseller.Web.Pages.{PageQuery, Params, parse, Meta, new_meta}
use Bodies.{
  order_body, PatchBody, patch_body, ProductBody, product_body, provider_body, provider_update_body,
  action_body,
}

-- The routes of NewRouter, with the text of {id} and what is read of the query.
pub data Endpoint : Type 0 where
  list_products list_orders admin_list_products : PageQuery → Endpoint
  create_order : Endpoint
  get_order patch_order cancel_order get_credentials get_order_events renew_order :
      String → Endpoint
  admin_create_product admin_list_providers admin_create_provider : Endpoint
  admin_update_product admin_toggle_product admin_delete_product : String → Endpoint
  admin_update_provider admin_toggle_provider admin_delete_provider : String → Endpoint
  admin_get_user_orders : String → PageQuery → Endpoint
  admin_order_action : String → Endpoint

pub record Request : Type 0 where
  pub endpoint : Endpoint
  pub authorization : String
  pub body : Option Fields

pub data Data : Type 0 where
  order : Order → Data
  orders : List Order → Meta → Data
  credentials : String → Data
  events : List (ℕ × EventType) → Data
  product : Product → Data
  products : List Product → Meta → Data
  provider : Provider → Data
  providers : List Provider → Data

unfoldable pub guard_of : Endpoint → Guard
guard_of (list_products q) = signed_in
guard_of (list_orders q) = signed_in
guard_of create_order = signed_in
guard_of (get_order id) = signed_in
guard_of (patch_order id) = signed_in
guard_of (cancel_order id) = signed_in
guard_of (get_credentials id) = signed_in
guard_of (get_order_events id) = signed_in
guard_of (renew_order id) = signed_in
guard_of _ = with_role admins

unfoldable pub handle_error : Error → Response Data
handle_error err_order_not_found = respond 404 not_found
handle_error err_product_not_found = respond 404 not_found
handle_error err_order_not_cancellable = respond 409 conflict
handle_error err_no_provider_available = respond 503 provider_unavailable
handle_error e = internal

abbrev pub Serve : Type 0
Serve = Handler Env World Data (Response Data)

abbrev pub try : {A : Type 0} → Action A → Handler Env World Data A
try m = or_respond m handle_error

-- A failing statement that the handler itself sends.
abbrev pub query : {A : Type 0} → Action A → Handler Env World Data A
query m = or_respond m (λ e. internal)

-- A look-up whose every error is answered as a missing row.
abbrev pub found : {A : Type 0} → Action A → Handler Env World Data A
found m = or_respond m (λ e. respond 404 not_found)
