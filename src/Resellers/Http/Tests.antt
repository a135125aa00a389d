-- ===== src/Resellers/Http/Tests.antt =====
-- Runs and witnesses of the HTTP interface of reseller-service.
use cloudmini_reseller.Common.{◌≡◌, refl, none, some, [], ◌∷◌, find_where}
use cloudmini_reseller.Common.Int.{pos}
use cloudmini_reseller.Common.Action.{Outcome}
use cloudmini_reseller.Resellers.Entity.{ResellerAccount, suspended}
use cloudmini_reseller.Resellers.World.{World}
use cloudmini_reseller.Resellers.Repo.{is_price_of}
use cloudmini_reseller.Resellers.Tests.{up, listed, world}
use cloudmini_reseller.Resellers.Http.{Request, Data, set_pricing}
use cloudmini_reseller.Resellers.Http.Handlers.{serve}
use cloudmini_reseller.Resellers.Http.Prices.{any_price, serve_undercuts}
use cloudmini_reseller.Web.{Claims, auth}
use cloudmini_reseller.Web.Tests.{signs}

-- User 9, a suspended reseller.
abbrev shop : ResellerAccount
shop = record {
  id = 7;
  user_id = 9;
  company_name = "Shop";
  status = suspended;
  credit_limit = pos 0;
  commission_pct = pos 0;
  approved_at = none;
  suspended_at = some (pos 1);
  suspend_reason = none;
}

abbrev with_shop : World
with_shop = record world { accounts = shop ∷ [] }

abbrev nine : Claims
nine = record { user_id = "xxxxxxxxx"; role = "reseller"; reseller_id = "" }

nine_signed : auth {P = Data} (signs nine) "Bearer t" ≡ Outcome.ok nine
unfolding auth
nine_signed = refl

abbrev cheap : Request
cheap = record {
  endpoint = set_pricing "xx";
  authorization = "Bearer t";
  body = some (any_price "+xxx");
}

-- A price of 0.0003 against a cost of 10.
serve_undercuts_example :
    let (r, w') = serve (signs nine) cheap up with_shop in
    (r.status ≡ 200)
    × (find_where (is_price_of 7 2) w'.pricing
        ≡ some (record listed { sell_price = pos 3; floor_price = pos 0 }))
serve_undercuts_example =
    serve_undercuts (signs nine) nine cheap "xx" "+xxx" 9 3 up with_shop shop listed nine_signed
      refl refl refl refl refl refl (λ n. refl) refl refl
