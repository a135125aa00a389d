-- ===== src/Resellers/Webhooks.antt =====
-- Webhooks of resellers and their delivery,
-- services/reseller-service/internal/usecase/webhook_usecase.go.
pub mod Delivery
use cloudmini_reseller.Common.{
  ℕ, zero, suc, String, str_eq, Bool, true, false, not, ◌&&◌, ◌||◌, ◌==◌, List, [], ◌∷◌, any,
  if◌then◌else◌,
}
use cloudmini_reseller.Common.Action.{Outcome, ok, err, pure, raise, ◌>>=◌, ◌>>◌, raise_if, or_else}
use cloudmini_reseller.Resellers.Entity.{ResellerWebhook}
use cloudmini_reseller.Resellers.World.{
  Env, World, Error, Action, new_uuid, post, err_webhook_not_found, err_forbidden,
}
use cloudmini_reseller.Resellers.Repo.{
  webhook_create, webhook_get_by_id, webhooks_by_reseller, webhook_delete,
}

abbrev pub new_webhook : ℕ → String → String → List String → ℕ → ResellerWebhook
new_webhook reseller url secret events id = record {
  id = id;
  reseller_id = reseller;
  url = url;
  secret = secret;
  events = events;
  is_active = true;
}

unfoldable pub create_webhook : ℕ → String → String → List String → Action ResellerWebhook
create_webhook reseller url secret events = do
  id ← new_uuid
  webhook_create (new_webhook reseller url secret events id)
  pure (new_webhook reseller url secret events id)

unfoldable pub delete_webhook : ℕ → ℕ → Action (Unit {0})
delete_webhook id reseller = do
  h ← or_else (webhook_get_by_id id) (pure tt) err_webhook_not_found
  raise_if (not (h.reseller_id == reseller)) err_forbidden
  webhook_delete id

-- At most that many attempts, until one is answered. The pauses between them are left out.
unfoldable pub deliver_with_retry : ℕ → String → String → String → Action (Unit {0})
deliver_with_retry zero url secret event env w = (ok tt, w)
deliver_with_retry (suc n) url secret event env w =
    let (r, w') = post url secret event env w in
    let rest = deliver_with_retry n url secret event env w' in
    elim r [ ok a ↦ (ok tt, w') | err e ↦ rest ]

unfoldable pub is_subscribed : String → ResellerWebhook → Bool
is_subscribed event h = any (λ e. str_eq e "*" || str_eq e event) h.events

abbrev pub deliver_one : String → ResellerWebhook → Action (Unit {0})
deliver_one event h =
    if h.is_active && is_subscribed event h
    then deliver_with_retry 3 h.url h.secret event
    else pure tt

-- The deliveries run in the background at once; here one after the other.
unfoldable pub deliver_all : String → List ResellerWebhook → Action (Unit {0})
deliver_all event [] = pure tt
deliver_all event (h ∷ hs) = do deliver_one event h; deliver_all event hs

-- An error of the query ends it silently.
abbrev pub deliver_listed : String → Outcome Error (List ResellerWebhook) → Action (Unit {0})
deliver_listed event (ok hs) = deliver_all event hs
deliver_listed event (err e) = pure tt

unfoldable pub deliver_to_reseller : ℕ → String → Action (Unit {0})
deliver_to_reseller reseller event env w =
    let (r, w') = webhooks_by_reseller reseller env w in deliver_listed event r env w'
