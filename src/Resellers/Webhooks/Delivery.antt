-- ===== src/Resellers/Webhooks/Delivery.antt =====
-- Which events reach the webhooks of a reseller.
use cloudmini_reseller.Common.{
  ℕ, suc, ◌∙◌, String, ◌&&◌, ◌==◌, ◌≡◌, refl, List, [], ◌∷◌, arith, select_where, map,
}
use cloudmini_reseller.Common.Action.{ok}
use cloudmini_reseller.Resellers.Entity.{ResellerWebhook}
use cloudmini_reseller.Resellers.World.{Env, World}
use cloudmini_reseller.Resellers.Repo.{without_events, webhook_create, webhooks_by_reseller}
use cloudmini_reseller.Resellers.Webhooks.{
  is_subscribed, deliver_all, deliver_to_reseller, create_webhook,
}

deliver_all-without_events :
    (event : String) (hs : List ResellerWebhook) (env : Env) (w : World)
    → deliver_all event (map without_events hs) env w ≡ (ok tt, w)
unfolding deliver_all is_subscribed
deliver_all-without_events event [] env w = refl
deliver_all-without_events event (h ∷ hs) env w =
    ground (arith, deliver_all-without_events event hs env w)

deliver_to_reseller-sent :
    (reseller : ℕ) (event : String) (env : Env) (w : World)
    → (deliver_to_reseller reseller event env w).1.deliveries ≡ w.deliveries
unfolding deliver_to_reseller webhooks_by_reseller
deliver_to_reseller-sent reseller event env w =
    let listed = λ (h : ResellerWebhook). h.reseller_id == reseller && h.is_active in
    ground (
      arith,
      deliver_all-without_events event (select_where listed w.webhooks) env
          (record w { calls = suc w.calls }),
    )

create_webhook-sent :
    (reseller : ℕ) (url secret : String) (events : List String) (env : Env) (w : World)
    → (create_webhook reseller url secret events env w).1.deliveries ≡ w.deliveries
unfolding create_webhook webhook_create
create_webhook-sent reseller url secret events env w = ground arith

-- No event is ever delivered: whatever webhooks are stored, also right after one that subscribes to
-- the event was created, DeliverToReseller sends no request, whatever fails.
deliver_nothing :
    (reseller : ℕ) (url secret event : String) (events : List String) (env env' : Env) (w : World)
    → let w₁ = (create_webhook reseller url secret events env w).1 in
      (deliver_to_reseller reseller event env' w₁).1.deliveries ≡ w.deliveries
deliver_nothing reseller url secret event events env env' w =
    deliver_to_reseller-sent reseller event env' (create_webhook reseller url secret events env w).1
    ∙ create_webhook-sent reseller url secret events env w
