-- ===== src/Proxy/Http/Renewals.antt =====
-- A PATCH of an order and its renewal, both by the owner.
use mathlib.Core.Path.{ap₂}
use cloudmini_reseller.Common.{
  ℕ, suc, String, true, false, ◌≡◌, refl, Option, none, some, List, [], ◌∷◌, arith, find_where,
  update_where, ◌==◌, str_eq, ap, ◌∙◌,
}
use cloudmini_reseller.Common.Int.{ℤ, pos, ◌≤ℤ◌}
use cloudmini_reseller.Common.Action.{ok}
use cloudmini_reseller.Proxy.Entity.{Order, Product, expired}
use cloudmini_reseller.Proxy.World.{BillingCall, Env, World, hold, confirm}
use cloudmini_reseller.Proxy.Repo.{
  is_order, set_overrides, get_by_id, update_order, effective_expiry,
}
use cloudmini_reseller.Proxy.Orders.{add_days}
use cloudmini_reseller.Proxy.Orders.Saga.{asked}
use cloudmini_reseller.Proxy.Expiry.Sweep.{IsReliable}
use cloudmini_reseller.Proxy.Lifecycle.{get_order as read_order, renew_price}
use cloudmini_reseller.Proxy.Lifecycle.Owners.{renew_order_paid, renewed}
use cloudmini_reseller.Web.{
  respond_json, either, no_content, Claims, Libraries, must_parse_uuid, decimal_or_zero, signed_in,
}
use cloudmini_reseller.Web.Json.{Fields, text}
use cloudmini_reseller.Proxy.Http.{Endpoint, Request, order, patch_order, renew_order, guard_of}
use cloudmini_reseller.Proxy.Http.Handlers.{post_renewal, patch}
use cloudmini_reseller.Proxy.Http.Routes.{handle, serve}
use cloudmini_reseller.Proxy.Http.Owners.{Carries, serve-signed}

-- An UPDATE of the row of an id is seen by a look-up of that id.
find-updated :
    (f : Order → Order) (id : ℕ) (os : List Order) (o : Order)
    → ((o : Order) → (f o).id ≡ o.id)
    → find_where (is_order id) os ≡ some o
    → find_where (is_order id) (update_where (is_order id) f os) ≡ some (f o)
find-updated f id [] o same e = cc
find-updated f id (x ∷ os) o same e = ground (arith, same x, find-updated f id os o same)

module _ (lib : Libraries) (claims : Claims) (id : String) (o : Order) (p s note : String) (t : ℤ)
    (w : World) (found : find_where (is_order (must_parse_uuid lib id)) w.orders ≡ some o)
    (owner : (o.user_id == must_parse_uuid lib claims.user_id) ≡ true)
    (some_price : str_eq p "" ≡ false) (some_time : str_eq s "" ≡ false)
    (a_time : lib.parse_time s ≡ some t) where
  -- The body of a PATCH with a price and an expiry.
  abbrev pub patch_fields : Fields
  patch_fields =
      ("custom_price", text p) ∷ ("custom_expires_at", text s) ∷ ("admin_note", text note) ∷ []

  -- The order as that PATCH leaves it.
  abbrev pub patched : Order
  patched = set_overrides (some (decimal_or_zero lib p)) (some t) note o

  handle-patch :
      (env : Env)
      → IsReliable env
      → let (r, w') = handle lib (patch_order id) claims (some patch_fields) env w in
        (r ≡ ok no_content)
        × (w'.billing ≡ w.billing)
        × (w'.products ≡ w.products)
        × (find_where (is_order (must_parse_uuid lib id)) w'.orders ≡ some patched)
  unfolding handle patch read_order get_by_id update_order
  handle-patch env up = ground (
    arith,
    up w.calls,
    up (suc w.calls),
    up (suc (suc w.calls)),
    find-updated (set_overrides (some (decimal_or_zero lib p)) (some t) note)
        (must_parse_uuid lib id) w.orders o (λ x. refl) found,
  )

  renewal :
      (env : Env) (w' : World) (x : Order) (product : Product) (days u : ℤ)
      → IsReliable env
      → find_where (is_order (must_parse_uuid lib id)) w'.orders ≡ some x
      → (x.user_id == must_parse_uuid lib claims.user_id) ≡ true
      → x.status ≡ expired
      → find_where (λ (q : Product). q.id == x.product_id) w'.products ≡ some product
      → product.duration_days ≡ some days
      → pos 1 ≤ℤ days
      → effective_expiry x ≡ some u
      → pos 1 ≤ℤ renew_price x
      → let (r, w'') = handle lib (renew_order id) claims none env w' in
        (r
          ≡ ok (
              respond_json 200
                (order (record (renewed (add_days u days) x) { custom_price = x.custom_price }))))
        × (w''.billing
            ≡ record (asked confirm x true) { amount = renew_price x }
              ∷ record (asked hold x true) { amount = renew_price x }
              ∷ w'.billing)
        × (find_where (is_order (must_parse_uuid lib id)) w''.orders
            ≡ some (renewed (add_days u days) x))
  unfolding handle post_renewal
  renewal env w' x product days u up found' owner' late sells lasts some_days ends some_charge =
      let (r, billing, row) =
        renew_order_paid (must_parse_uuid lib id) (must_parse_uuid lib claims.user_id) x env w'
          found' product days u up owner' late sells lasts some_days ends some_charge in
      (ground (arith, r), ground (arith, r, billing), ground (arith, r, row))

  -- A hold for the order and its confirmation, after some requests.
  abbrev pub paid_once : ℤ → List BillingCall → List BillingCall
  paid_once a calls =
      record (asked confirm o true) { amount = a }
      ∷ record (asked hold o true) { amount = a }
      ∷ calls

  served :
      (req : Request) (env : Env) (w' : World) (e : Endpoint) (body : Option Fields)
      → Carries lib claims req
      → req.endpoint ≡ e
      → req.body ≡ body
      → guard_of e ≡ signed_in
      → let (r, w'') = handle lib e claims body env w' in serve lib req env w' ≡ (either r, w'')
  served req env w' e body carries same_e same_b signed =
      serve-signed lib claims req env w' (handle lib e claims body env w') carries
        (ap guard_of same_e ∙ signed) (ap₂ (λ e b. handle lib e claims b env w') same_e same_b)

  -- While nothing fails, the owner of an expired order chooses what its renewal costs and when it
  -- ends: a PATCH with the text of a price above 0 and that of a time is answered with 204 and asks
  -- billing-service for nothing; a renewal after it charges this price, however low, and the order
  -- is active again for the days of its product from this time on.
  pub patch_then_renew :
      (req req' : Request) (env env' : Env) (product : Product) (days : ℤ)
      → Carries lib claims req
      → req.endpoint ≡ patch_order id
      → req.body ≡ some patch_fields
      → Carries lib claims req'
      → req'.endpoint ≡ renew_order id
      → req'.body ≡ none
      → IsReliable env
      → IsReliable env'
      → o.status ≡ expired
      → find_where (λ (q : Product). q.id == o.product_id) w.products ≡ some product
      → product.duration_days ≡ some days
      → pos 1 ≤ℤ days
      → pos 1 ≤ℤ decimal_or_zero lib p
      → let (r, w') = serve lib req env w in
        let (r', w'') = serve lib req' env' w' in
        (r ≡ no_content)
        × (w'.billing ≡ w.billing)
        × (r'.status ≡ 200)
        × (w''.billing ≡ paid_once (decimal_or_zero lib p) w.billing)
        × (find_where (is_order (must_parse_uuid lib id)) w''.orders
            ≡ some (renewed (add_days t days) patched))
  unfolding guard_of
  patch_then_renew req req' env env' product days carries e b carries' e' b' up up' late sells lasts
        some_days some_charge =
      let (h, w') = handle lib (patch_order id) claims (some patch_fields) env w in
      let (done, quiet, same, row) = handle-patch env up in
      let (h', w'') = handle lib (renew_order id) claims none env' w' in
      let (paid, billing, row') =
        renewal env' w' patched product days t up' row owner late (cc) lasts some_days refl
          some_charge in
      let first : serve lib req env w ≡ (either h, w') =
        served req env w (patch_order id) (some patch_fields) carries e b refl in
      let second : serve lib req' env' w' ≡ (either h', w'') =
        served req' env' w' (renew_order id) none carries' e' b' refl in
      let again : serve lib req' env' (serve lib req env w).1 ≡ (either h', w'') =
        ap (λ x. serve lib req' env' x.1) first ∙ second in
      (
        ap (λ x. x.0) first ∙ ap either done,
        ap (λ x. x.1.billing) first ∙ quiet,
        ap (λ x. x.0.status) again ∙ ap (λ x. (either x).status) paid,
        ap (λ x. x.1.billing) again ∙ billing ∙ ap (paid_once (decimal_or_zero lib p)) quiet,
        ap (λ x. find_where (is_order (must_parse_uuid lib id)) x.1.orders) again ∙ row',
      )
