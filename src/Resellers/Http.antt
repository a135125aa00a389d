-- ===== src/Resellers/Http.antt =====
-- The HTTP interface of reseller-service, services/reseller-service/internal/handler/http/handler.go.
--
-- A body is decoded less the fields that the rows of the model have no column for.
pub mod Handlers
pub mod Prices
mod Tests
use cloudmini_reseller.Common.{ℕ, String, Option, some, List, [], ◌∷◌}
use cloudmini_reseller.Common.Int.{ℤ}
use cloudmini_reseller.Resellers.Entity.{
  ResellerAccount, PricingOverride, SubAccount, ResellerApiKey, ResellerWebhook,
}
use cloudmini_reseller.Resellers.Keys.{CreateApiKeyResult}
use cloudmini_reseller.Resellers.World.{
  Env, World, Error, Action, err_reseller_not_found, err_reseller_not_approved,
  err_reseller_already_exists, err_api_key_not_found, err_api_key_revoked, err_api_key_expired,
  err_sub_account_not_found, err_price_below_cost, err_price_below_floor, err_price_above_cap,
  err_webhook_not_found, err_forbidden,
}
use cloudmini_reseller.Web.{
  Response, respond, internal, Code, not_found, conflict, forbidden, unauthorized, validation_error,
  Guard, with_role, admins, Handler, or_respond,
}
use cloudmini_reseller.Web.Json.{Fields, text_field, texts_field, optional_field, ◌>>=◌}
use cloudmini_reseller.Web.Pages.{PageQuery, Meta}

-- The routes of NewRouter, with the text of what is in braces and what is read of the query.
pub data Endpoint : Type 0 where
  admin_list_resellers : String → PageQuery → Endpoint
  admin_create_reseller : Endpoint
  admin_approve_reseller admin_suspend_reseller admin_set_pricing : String → Endpoint
  reseller_dashboard : Endpoint
  list_sub_accounts : PageQuery → Endpoint
  create_sub_account : Endpoint
  set_user_credit : String → Endpoint
  list_pricing : Endpoint
  set_pricing : String → Endpoint
  list_api_keys create_api_key : Endpoint
  revoke_api_key : String → Endpoint
  list_webhooks create_webhook : Endpoint
  delete_webhook : String → Endpoint

pub record Request : Type 0 where
  pub endpoint : Endpoint
  pub authorization : String
  pub body : Option Fields

pub data Data : Type 0 where
  account dashboard : ResellerAccount → Data
  accounts : List ResellerAccount → Meta → Data
  sub : SubAccount → Data
  subs : List SubAccount → Meta → Data
  price : PricingOverride → Data
  prices : List PricingOverride → Data
  new_api_key : CreateApiKeyResult → Data
  api_keys : List ResellerApiKey → Data
  webhook : ResellerWebhook → Data
  webhooks : List ResellerWebhook → Data

abbrev pub resellers : List String
resellers = "reseller" ∷ []

unfoldable pub guard_of : Endpoint → Guard
guard_of (admin_list_resellers status q) = with_role admins
guard_of admin_create_reseller = with_role admins
guard_of (admin_approve_reseller id) = with_role admins
guard_of (admin_suspend_reseller id) = with_role admins
guard_of (admin_set_pricing id) = with_role admins
guard_of _ = with_role resellers

unfoldable pub handle_error : Error → Response Data
handle_error err_reseller_not_found = respond 404 not_found
handle_error err_api_key_not_found = respond 404 not_found
handle_error err_sub_account_not_found = respond 404 not_found
handle_error err_webhook_not_found = respond 404 not_found
handle_error err_forbidden = respond 403 forbidden
handle_error err_reseller_already_exists = respond 409 conflict
handle_error err_reseller_not_approved = respond 403 forbidden
handle_error err_price_below_cost = respond 422 validation_error
handle_error err_price_below_floor = respond 422 validation_error
handle_error err_price_above_cap = respond 422 validation_error
handle_error err_api_key_revoked = respond 401 unauthorized
handle_error err_api_key_expired = respond 401 unauthorized
handle_error e = internal

abbrev pub Serve : Type 0
Serve = Handler Env World Data (Response Data)

abbrev pub try : {A : Type 0} → Action A → Handler Env World Data A
try m = or_respond m handle_error

pub record ResellerBody : Type 0 where
  pub user_id : String
  pub company_name : String
  pub commission_pct : String

abbrev pub reseller_body : Fields → Option ResellerBody
reseller_body fields = do
  user ← text_field "user_id" fields
  name ← text_field "company_name" fields
  pct ← text_field "commission_pct" fields
  some (record { user_id = user; company_name = name; commission_pct = pct })

pub record PricingBody : Type 0 where
  pub product_type : String
  pub cost_price : String
  pub floor_price : String
  pub sell_price : String

abbrev pub pricing_body : Fields → Option PricingBody
pricing_body fields = do
  kind ← text_field "product_type" fields
  cost ← text_field "cost_price" fields
  floor ← text_field "floor_price" fields
  sell ← text_field "sell_price" fields
  some (record { product_type = kind; cost_price = cost; floor_price = floor; sell_price = sell })

pub record KeyBody : Type 0 where
  pub name : String
  pub expires_at : Option String

abbrev pub key_body : Fields → Option KeyBody
key_body fields = do
  name ← text_field "name" fields
  scopes ← texts_field "scopes" fields
  expiry ← optional_field "expires_at" fields
  some (record { name = name; expires_at = expiry })

pub record WebhookBody : Type 0 where
  pub url : String
  pub secret : String
  pub events : List String

abbrev pub webhook_body : Fields → Option WebhookBody
webhook_body fields = do
  url ← text_field "url" fields
  secret ← text_field "secret" fields
  events ← texts_field "events" fields
  some (record { url = url; secret = secret; events = events })
