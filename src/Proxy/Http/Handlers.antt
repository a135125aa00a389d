-- ===== src/Proxy/Http/Handlers.antt =====
-- The handlers of what users ask of proxy-service.
use cloudmini_reseller.Common.{ℕ, String, str_eq, Option, none, some, List, if◌then◌else◌}
use cloudmini_reseller.Common.Int.{ℤ}
use cloudmini_reseller.Common.Action.{pure, ◌>>=◌, ◌>>◌}
use cloudmini_reseller.Proxy.Entity.{Product, order_patched}
use cloudmini_reseller.Proxy.World.{Env, World, Action, log_event}
use cloudmini_reseller.Proxy.Repo.{update_order}
use cloudmini_reseller.Proxy.Repo.Catalogue.{list_by_user, provider_list_all, events_by_order}
use cloudmini_reseller.Proxy.Orders.{create_order as place_new_order}
use cloudmini_reseller.Proxy.Lifecycle.{
  get_order as read_order, get_credentials as read_credentials, cancel_order as cancel,
  renew_order as renew,
}
use cloudmini_reseller.Web.{
  respond_json, no_content, bad_request, Libraries, decimal_or_zero, Handler, demand,
}
use cloudmini_reseller.Web.Json.{Fields, ◌>>=◌ as ◌>>?◌}
use cloudmini_reseller.Web.Pages.{PageQuery, Params, parse, new_meta}
use cloudmini_reseller.Proxy.Http.Bodies.{order_body, PatchBody, patch_body}
use cloudmini_reseller.Proxy.Http.{
  Data, order, orders, credentials, events, products, providers, Serve, try, query,
}

unfoldable pub show_products : (ℤ → ℕ → Action (List Product × ℕ)) → PageQuery → Serve
show_products list q =
    let p = parse q in
    query (list p.offset p.limit) >>= λ (rows, total).
    pure (respond_json 200 (products rows (new_meta p total)))

-- A page of the orders of a user, from an offset.
unfoldable pub show_orders : ℕ → ℤ → Params → Serve
show_orders user offset p = try (list_by_user user offset p.limit) >>= λ (rows, total).
    pure (respond_json 200 (orders rows (new_meta p total)))

unfoldable pub show_providers : Serve
show_providers = do ps ← query provider_list_all; pure (respond_json 200 (providers ps))

-- `_ = h.orderEvtRepo.Log(…)`
abbrev log_patched : ℕ → Handler Env World Data (Unit {0})
log_patched id = query (log_event id order_patched)

unfoldable pub show_order : ℕ → ℕ → Serve
show_order user id = do o ← try (read_order id user); pure (respond_json 200 (order o))

unfoldable pub show_credentials : ℕ → ℕ → Serve
show_credentials user id = do
  c ← try (read_credentials id user)
  pure (respond_json 200 (credentials c))

unfoldable pub delete_order : ℕ → ℕ → Serve
delete_order user id = do try (cancel id user); pure no_content

unfoldable pub post_renewal : ℕ → ℕ → Serve
post_renewal user id = do o ← try (renew id user); pure (respond_json 200 (order o))

unfoldable pub show_events : ℕ → ℕ → Serve
show_events user id = do
  try (read_order id user)
  es ← query (events_by_order id)
  pure (respond_json 200 (events es))

module _ (lib : Libraries) where
  unfoldable pub post_order : ℕ → Option Fields → Serve
  post_order user body = do
    req ← demand (body >>? order_body) bad_request
    product_id ← demand (lib.parse_uuid req.product_id) bad_request
    o ← try (
        place_new_order (record {
          user_id = user;
          reseller_id = none;
          product_id = product_id;
          quantity = req.quantity;
          idempotency_key = req.idempotency_key;
          request_id = none;
        }))
    pure (respond_json 201 (order o))

  -- `if s != nil && *s != ""`
  abbrev pub given : Option String → Option String
  given none = none
  given (some s) = if str_eq s "" then none else some s

  abbrev pub price_of : PatchBody → Option ℤ
  price_of req = elim (given req.custom_price) [
    | none ↦ none
    | some s ↦ some (decimal_or_zero lib s)
  ]

  -- The expiry that a body asks for, if any; none where it is no time.
  abbrev pub expiry_of : PatchBody → Option (Option ℤ)
  expiry_of req = elim (given req.custom_expires_at) [
    | none ↦ some none
    | some s ↦ elim (lib.parse_time s) [ none ↦ none | some t ↦ some (some t) ]
  ]

  unfoldable pub patch : ℕ → ℕ → Option Fields → Serve
  patch user id body = do
    try (read_order id user)
    req ← demand (body >>? patch_body) bad_request
    expiry ← demand (expiry_of req) bad_request
    query (update_order id (price_of req) expiry req.admin_note)
    log_patched id
    pure no_content
