-- ===== src/Resellers/Accounts/Prices.antt =====
-- Which prices a reseller can set.
use cloudmini_reseller.Common.{
  ℕ, ◌*◌, ◌≤◌, true, ◌≡◌, some, List, [], ◌∷◌, arith, any, find_where, update_where,
}
use cloudmini_reseller.Common.Int.{ℤ, pos, *ℤ_pos}
use cloudmini_reseller.Common.Action.{ok}
use cloudmini_reseller.Resellers.Entity.{PricingOverride}
use cloudmini_reseller.Resellers.World.{Env, World, IsReliable}
use cloudmini_reseller.Resellers.Repo.{is_price_of, upsert}
use cloudmini_reseller.Resellers.Accounts.{SetPricingRequest, new_pricing, set_pricing}

-- What a reseller sends who names the price as the cost too.
abbrev pub at_any_price : ℕ → ℕ → ℕ → SetPricingRequest
at_any_price reseller product n = record {
  reseller_id = reseller;
  product_id = product;
  product_type = "";
  cost_price = pos n;
  floor_price = pos 0;
  sell_price = pos n;
}

find-repriced :
    (reseller product : ℕ) (sell floor : ℤ) (ps : List PricingOverride) (p : PricingOverride)
    → find_where (is_price_of reseller product) ps ≡ some p
    → find_where (is_price_of reseller product) (
        update_where
          (is_price_of reseller product)
          (λ q. record q { sell_price = sell; floor_price = floor })
          ps)
      ≡ some (record p { sell_price = sell; floor_price = floor })
find-repriced reseller product sell floor [] p e = cc
find-repriced reseller product sell floor (q ∷ ps) p e =
    ground (arith, find-repriced reseller product sell floor ps p)

any-found :
    (reseller product : ℕ) (ps : List PricingOverride) (p : PricingOverride)
    → find_where (is_price_of reseller product) ps ≡ some p
    → any (is_price_of reseller product) ps ≡ true
any-found reseller product [] p e = cc
any-found reseller product (q ∷ ps) p e = ground (arith, any-found reseller product ps p)

-- The stored cost and floor bind nobody: whatever cost and floor a stored price has, any price from
-- 0 on that is sent as cost and sell price with a floor of 0 is accepted while nothing fails; the
-- sell price and the floor are replaced and the stored cost stays, be it higher than the price.
pub set_pricing_undercuts :
    (reseller product n : ℕ) (env : Env) (w : World) (p : PricingOverride)
    → IsReliable env
    → find_where (is_price_of reseller product) w.pricing ≡ some p
    → let req = at_any_price reseller product n in
      let (r, w') = set_pricing req env w in
      (r ≡ ok (new_pricing req (env.uuids w.draws)))
      × (find_where (is_price_of reseller product) w'.pricing
          ≡ some (record p { sell_price = pos n; floor_price = pos 0 }))
unfolding set_pricing upsert
set_pricing_undercuts reseller product n env w p up stored =
    let at_most_cap : n ≤ n * 100 = omega arith in
    ground (
      arith,
      up w.calls,
      *ℤ_pos n 100,
      at_most_cap,
      any-found reseller product w.pricing p stored,
      find-repriced reseller product (pos n) (pos 0) w.pricing p stored,
    )
