-- ===== src/Resellers/Http/Prices.antt =====
-- What a reseller can set its prices to by a request.
use cloudmini_reseller.Common.{
  ℕ, String, true, ◌≡◌, ap, ◌∙◌, some, [], ◌∷◌, arith, find_where, ◌==◌, suc,
}
use cloudmini_reseller.Common.Int.{pos}
use cloudmini_reseller.Common.Action.{ok}
use cloudmini_reseller.Resellers.Entity.{ResellerAccount, PricingOverride}
use cloudmini_reseller.Resellers.World.{Env, World, IsReliable}
use cloudmini_reseller.Resellers.Repo.{is_price_of, reseller_get_by_user_id}
use cloudmini_reseller.Resellers.Accounts.{new_pricing}
use cloudmini_reseller.Resellers.Accounts.Prices.{at_any_price, set_pricing_undercuts}
use cloudmini_reseller.Web.{
  either, respond_json, Claims, Libraries, must_parse_uuid, decimal_or_zero, is_allowed, auth,
  admit, require_role, run_guarded,
}
use cloudmini_reseller.Web.Json.{Fields, text}
use cloudmini_reseller.Resellers.Http.{Request, Data, set_pricing, resellers, guard_of, price}
use cloudmini_reseller.Resellers.Http.Handlers.{must_reseller, put_pricing, handle, serve}

-- A body that names a price as cost and as sell price, and no floor.
abbrev pub any_price : String → Fields
any_price t = ("product_type", text "") ∷ ("cost_price", text t) ∷ ("sell_price", text t) ∷ []

module _ (lib : Libraries) (claims : Claims) where
  handle-undercuts :
      (product t : String) (user n : ℕ) (env : Env) (w : World) (a : ResellerAccount)
      (p : PricingOverride)
      → lib.parse_uuid claims.user_id ≡ some user
      → lib.parse_decimal t ≡ some (pos n)
      → decimal_or_zero lib "" ≡ pos 0
      → IsReliable env
      → find_where (λ (a : ResellerAccount). a.user_id == user) w.accounts ≡ some a
      → find_where (is_price_of a.id (must_parse_uuid lib product)) w.pricing ≡ some p
      → let (r, w') = handle lib (set_pricing product) claims (some (any_price t)) env w in
        (r
          ≡ ok (
              respond_json 200 (
                price (
                  new_pricing
                    (at_any_price a.id (must_parse_uuid lib product) n)
                    (env.uuids w.draws)))))
        × (find_where (is_price_of a.id (must_parse_uuid lib product)) w'.pricing
            ≡ some (record p { sell_price = pos n; floor_price = pos 0 }))
  unfolding handle must_reseller put_pricing reseller_get_by_user_id
  handle-undercuts product t user n env w a p is_user is_price no_floor up known stored =
      let (r, row) =
        set_pricing_undercuts a.id (must_parse_uuid lib product) n env
          (record w { calls = suc w.calls }) p up stored in
      ground (arith, is_user, is_price, no_floor, up w.calls, known, r, row)

  serve-allowed :
      (req : Request) (env : Env) (w : World) (product : String)
      → auth {P = Data} lib req.authorization ≡ ok claims
      → is_allowed resellers claims.role ≡ true
      → req.endpoint ≡ set_pricing product
      → let (r, w') = handle lib (set_pricing product) claims req.body env w in
        serve lib req env w ≡ (either r, w')
  unfolding serve run_guarded admit require_role guard_of
  serve-allowed req env w product carries allowed same = ground (arith, carries, allowed, same)

  -- The cost and the floor that an administrator has set bind no reseller, whatever the status of
  -- its account: while nothing fails, a PUT of a price that names the price as the cost too and
  -- leaves the floor out is answered with 200 for any price from 0 on; the stored sell price
  -- becomes this price and the stored floor 0, the stored cost stays, be it higher than the price.
  pub serve_undercuts :
      (req : Request) (product t : String) (user n : ℕ) (env : Env) (w : World)
      (a : ResellerAccount) (p : PricingOverride)
      → auth {P = Data} lib req.authorization ≡ ok claims
      → is_allowed resellers claims.role ≡ true
      → req.endpoint ≡ set_pricing product
      → req.body ≡ some (any_price t)
      → lib.parse_uuid claims.user_id ≡ some user
      → lib.parse_decimal t ≡ some (pos n)
      → decimal_or_zero lib "" ≡ pos 0
      → IsReliable env
      → find_where (λ (a : ResellerAccount). a.user_id == user) w.accounts ≡ some a
      → find_where (is_price_of a.id (must_parse_uuid lib product)) w.pricing ≡ some p
      → let (r, w') = serve lib req env w in
        (r.status ≡ 200)
        × (find_where (is_price_of a.id (must_parse_uuid lib product)) w'.pricing
            ≡ some (record p { sell_price = pos n; floor_price = pos 0 }))
  serve_undercuts req product t user n env w a p carries allowed same sent is_user is_price no_floor
        up known stored =
      let (r, row) =
        handle-undercuts product t user n env w a p is_user is_price no_floor up known stored in
      let e =
        serve-allowed req env w product carries allowed same
        ∙ ap (λ b. let (r, w') = handle lib (set_pricing product) claims b env w in (either r, w'))
            sent in
      (
        ap (λ x. x.0.status) e ∙ ap (λ x. (either x).status) r,
        ap (λ x. find_where (is_price_of a.id (must_parse_uuid lib product)) x.1.pricing) e ∙ row,
      )
