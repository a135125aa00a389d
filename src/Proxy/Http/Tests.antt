-- ===== src/Proxy/Http/Tests.antt =====
-- Runs and witnesses of the HTTP interface of proxy-service.
use cloudmini_reseller.Common.{String, suc, ◌≡◌, refl, none, some, [], arith, find_where}
use cloudmini_reseller.Common.Int.{pos}
use cloudmini_reseller.Common.Action.{Outcome}
use cloudmini_reseller.Proxy.Lifecycle.Owners.{renewed}
use cloudmini_reseller.Proxy.Orders.{add_days}
use cloudmini_reseller.Proxy.Repo.{is_order}
use cloudmini_reseller.Proxy.Tests.{up, with_order, ended, monthly}
use cloudmini_reseller.Proxy.Http.{Request, Data, patch_order, renew_order}
use cloudmini_reseller.Proxy.Http.Routes.{serve}
use cloudmini_reseller.Proxy.Http.Owners.{serve_foreign}
use cloudmini_reseller.Proxy.Http.Renewals.{patch_fields, patched, paid_once, patch_then_renew}
use cloudmini_reseller.Web.{auth, internal, no_content}
use cloudmini_reseller.Web.Tests.{signs, seven, boss}

abbrev order_id : String
order_id = "xxxxxxxxxxxxxxxxxxxx"

-- User 9 wants to renew an order of user 7.
abbrev renewal : Request
renewal = record { endpoint = renew_order order_id; authorization = "Bearer t"; body = none }

boss_signed : auth {P = Data} (signs boss) "Bearer t" ≡ Outcome.ok boss
unfolding auth
boss_signed = refl

serve_foreign_example :
    serve (signs boss) renewal up (with_order ended)
    ≡ (internal, record (with_order ended) { calls = suc (with_order ended).calls })
serve_foreign_example =
    serve_foreign (signs boss) boss renewal up (with_order ended) order_id ended boss_signed refl
      refl refl

seven_signed : auth {P = Data} (signs seven) "Bearer t" ≡ Outcome.ok seven
unfolding auth
seven_signed = refl

-- The owner of an expired order patches it to a price of 0.0003 and an expiry at time 5.
patch_then_renew_example :
    let order =
      patched
        (signs seven)
        seven
        order_id
        ended
        "+xxx"
        "+xxxxx"
        ""
        (pos 5)
        (with_order ended)
        refl
        refl
        refl
        refl
        refl in
    let fields =
      patch_fields
        (signs seven)
        seven
        order_id
        ended
        "+xxx"
        "+xxxxx"
        ""
        (pos 5)
        (with_order ended)
        refl
        refl
        refl
        refl
        refl in
    let patch : Request = record {
      endpoint = patch_order order_id;
      authorization = "Bearer t";
      body = some fields;
    } in
    let (r, w') = serve (signs seven) patch up (with_order ended) in
    let (r', w'') = serve (signs seven) renewal up w' in
    (r ≡ no_content)
    × (w'.billing ≡ [])
    × (r'.status ≡ 200)
    × (w''.billing
        ≡ paid_once
            (signs seven)
            seven
            order_id
            ended
            "+xxx"
            "+xxxxx"
            ""
            (pos 5)
            (with_order ended)
            refl
            refl
            refl
            refl
            refl
            (pos 3)
            [])
    × (find_where (is_order 20) w''.orders ≡ some (renewed (add_days (pos 5) (pos 30)) order))
patch_then_renew_example =
    patch_then_renew (signs seven) seven order_id ended "+xxx" "+xxxxx" "" (pos 5)
      (with_order ended) refl refl refl refl refl
      (record {
        endpoint = patch_order order_id;
        authorization = "Bearer t";
        body = some (
            patch_fields (signs seven) seven order_id ended "+xxx" "+xxxxx" "" (pos 5)
              (with_order ended) refl refl refl refl refl);
      })
      renewal up up monthly (pos 30) seven_signed refl refl seven_signed refl refl (λ n. refl)
      (λ n. refl) refl refl refl (omega arith) (omega arith)
