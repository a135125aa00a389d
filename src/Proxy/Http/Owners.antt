-- ===== src/Proxy/Http/Owners.antt =====
-- What the owner of an order and what others get from the endpoints that name an order.
use cloudmini_reseller.Common.{
  suc, String, false, ◌≡◌, refl, Option, none, some, arith, find_where, ◌==◌,
}
use cloudmini_reseller.Common.Action.{Outcome, ok, err}
use cloudmini_reseller.Proxy.Entity.{Order}
use cloudmini_reseller.Proxy.World.{Env, World}
use cloudmini_reseller.Proxy.Repo.{is_order, get_by_id}
use cloudmini_reseller.Proxy.Lifecycle.{
  get_order as read_order, get_credentials as read_credentials, cancel_order as cancel,
  renew_order as renew,
}
use cloudmini_reseller.Web.{
  Response, either, internal, Claims, Libraries, must_parse_uuid, auth, signed_in,
}
use cloudmini_reseller.Web.Guards.{run_guarded-signed}
use cloudmini_reseller.Web.Json.{Fields}
use cloudmini_reseller.Proxy.Http.{
  Endpoint, Request, Data, get_order, patch_order, cancel_order, get_credentials, get_order_events,
  renew_order, handle_error, guard_of,
}
use cloudmini_reseller.Proxy.Http.Handlers.{
  show_order, show_credentials, delete_order, post_renewal, show_events, patch,
}
use cloudmini_reseller.Proxy.Http.Routes.{handle, serve}

-- The text by which an endpoint names an order that a user has to own.
abbrev pub order_of : Endpoint → Option String
order_of (get_order id) = some id
order_of (patch_order id) = some id
order_of (cancel_order id) = some id
order_of (get_credentials id) = some id
order_of (get_order_events id) = some id
order_of (renew_order id) = some id
order_of _ = none

module _ (lib : Libraries) (claims : Claims) (env : Env) (w : World) where
  handle-foreign :
      (e : Endpoint) (body : Option Fields) (id : String) (o : Order)
      → order_of e ≡ some id
      → find_where (is_order (must_parse_uuid lib id)) w.orders ≡ some o
      → (o.user_id == must_parse_uuid lib claims.user_id) ≡ false
      → handle lib e claims body env w ≡ (err internal, record w { calls = suc w.calls })
  unfolding handle show_order show_credentials delete_order post_renewal show_events patch
      handle_error read_order read_credentials cancel renew get_by_id
  handle-foreign (get_order id') body id o names found foreign = ground arith
  handle-foreign (patch_order id') body id o names found foreign = ground arith
  handle-foreign (cancel_order id') body id o names found foreign = ground arith
  handle-foreign (get_credentials id') body id o names found foreign = ground arith
  handle-foreign (get_order_events id') body id o names found foreign = ground arith
  handle-foreign (renew_order id') body id o names found foreign = ground arith
  handle-foreign _ body id o names found foreign = cc

module _ (lib : Libraries) (claims : Claims) where
  -- The request carries a valid token with these claims.
  abbrev pub Carries : Request → Type 0
  Carries req = auth {P = Data} lib req.authorization ≡ ok claims

  pub serve-signed :
      (req : Request) (env : Env) (w : World) (r : Outcome (Response Data) (Response Data) × World)
      → Carries req
      → guard_of req.endpoint ≡ signed_in
      → handle lib req.endpoint claims req.body env w ≡ r
      → serve lib req env w ≡ (either r.0, r.1)
  unfolding serve
  serve-signed req env w r carries signed e =
      run_guarded-signed lib (guard_of req.endpoint) req.authorization claims _ env w r signed
        carries e

  order_of-signed : (e : Endpoint) (id : String) → order_of e ≡ some id → guard_of e ≡ signed_in
  unfolding guard_of
  order_of-signed (get_order id') id names = refl
  order_of-signed (patch_order id') id names = refl
  order_of-signed (cancel_order id') id names = refl
  order_of-signed (get_credentials id') id names = refl
  order_of-signed (get_order_events id') id names = refl
  order_of-signed (renew_order id') id names = refl
  order_of-signed _ id names = cc

  -- A request that names an order of somebody else, by any of the six endpoints that do, is
  -- answered with an internal error, and nothing happens but the look-up of the order: it is not
  -- shown, not changed, and neither billing-service nor a provider is asked for anything.
  pub serve_foreign :
      (req : Request) (env : Env) (w : World) (id : String) (o : Order)
      → Carries req
      → order_of req.endpoint ≡ some id
      → find_where (is_order (must_parse_uuid lib id)) w.orders ≡ some o
      → (o.user_id == must_parse_uuid lib claims.user_id) ≡ false
      → serve lib req env w ≡ (internal, record w { calls = suc w.calls })
  serve_foreign req env w id o carries names found foreign =
      serve-signed req env w _ carries (order_of-signed req.endpoint id names)
        (handle-foreign lib claims env w req.endpoint req.body id o names found foreign)
