-- ===== src/Resellers/Repo.antt =====
-- The repositories, services/reseller-service/internal/repository/postgres/reseller_repo.go, with
-- the UNIQUE columns of migrations/000002_create_resellers_schema.sql and
-- migrations/000008_patch_resellers_schema.sql.
--
-- resellers.accounts has columns that ResellerAccount lacks, on which sqlx refuses its rows: such a
-- query is one that fails.
use cloudmini_reseller.Common.{
  ℕ, String, str_eq, Bool, false, ◌&&◌, Option, some, List, [], ◌∷◌, ◌==◌, is_none, if◌then◌else◌,
  find_where, select_where, update_where, any, map,
}
use cloudmini_reseller.Common.Int.{ℤ}
use cloudmini_reseller.Common.Action.{ok, err, ◌>>◌, modify, or_raise}
use cloudmini_reseller.Resellers.Entity.{
  ResellerStatus, ResellerAccount, PricingOverride, SubAccount, ResellerApiKey, ResellerWebhook,
}
use cloudmini_reseller.Resellers.World.{
  Action, call, duplicate_key, err_reseller_not_found, err_api_key_not_found,
  err_sub_account_not_found, err_webhook_not_found, err_pricing_not_found,
}

abbrev pub is_account : ℕ → ResellerAccount → Bool
is_account id a = a.id == id

unfoldable pub reseller_create : ResellerAccount → Action (Unit {0})
reseller_create a = do
  call
  λ env w.
      (if any (λ b. b.user_id == a.user_id) w.accounts
        then (err duplicate_key, w)
        else (ok tt, record w { accounts = a ∷ w.accounts }))

unfoldable pub reseller_get_by_id : ℕ → Action ResellerAccount
reseller_get_by_id id = do
  call
  λ env w. or_raise (find_where (is_account id) w.accounts) err_reseller_not_found env w

unfoldable pub reseller_get_by_user_id : ℕ → Action ResellerAccount
reseller_get_by_user_id user = do
  call
  λ env w.
      or_raise (find_where (λ (a : ResellerAccount). a.user_id == user) w.accounts)
        err_reseller_not_found env w

unfoldable pub update_status : ℕ → ResellerStatus → Option ℤ → Option ℤ → String → Action (Unit {0})
update_status id s approved_at suspended_at reason = do
  call
  modify λ w. record w {
    accounts =
        update_where (is_account id)
          (λ a. record a {
            status = s;
            approved_at = approved_at;
            suspended_at = suspended_at;
            suspend_reason = some reason;
          })
          w.accounts;
  }

abbrev pub is_price_of : ℕ → ℕ → PricingOverride → Bool
is_price_of reseller product p = p.reseller_id == reseller && p.product_id == product

-- On a conflict the cost price, the type and the activity stay as they are.
unfoldable pub upsert : PricingOverride → Action (Unit {0})
upsert p = do
  call
  modify λ w. record w {
    pricing =
        if any (is_price_of p.reseller_id p.product_id) w.pricing
        then update_where (is_price_of p.reseller_id p.product_id)
            (λ q. record q { sell_price = p.sell_price; floor_price = p.floor_price }) w.pricing
        else p ∷ w.pricing;
  }

unfoldable pub sub_create : SubAccount → Action (Unit {0})
sub_create s = do
  call
  λ env w.
      (if any (λ t. t.user_id == s.user_id) w.subs
        then (err duplicate_key, w)
        else (ok tt, record w { subs = s ∷ w.subs }))

unfoldable pub sub_get_by_user_id : ℕ → Action SubAccount
sub_get_by_user_id user = do
  call
  λ env w.
      or_raise (find_where (λ (s : SubAccount). s.user_id == user) w.subs) err_sub_account_not_found
        env w

unfoldable pub update_credit_limit : ℕ → ℤ → Action (Unit {0})
update_credit_limit id limit = do
  call
  modify λ w. record w {
    subs = update_where (λ s. s.id == id) (λ s. record s { credit_limit = limit }) w.subs;
  }

abbrev pub is_key : ℕ → ResellerApiKey → Bool
is_key id k = k.id == id

abbrev pub has_hash : String → ResellerApiKey → Bool
has_hash h k = str_eq k.key_hash h

unfoldable pub key_create : ResellerApiKey → Action (Unit {0})
key_create k = do
  call
  λ env w.
      (if any (has_hash k.key_hash) w.keys
        then (err duplicate_key, w)
        else (ok tt, record w { keys = k ∷ w.keys }))

unfoldable pub get_by_hash : String → Action ResellerApiKey
get_by_hash h = do
  call
  λ env w.
      or_raise (find_where (λ k. has_hash h k && is_none k.revoked_at) w.keys) err_api_key_not_found
        env w

unfoldable pub keys_by_reseller : ℕ → Action (List ResellerApiKey)
keys_by_reseller reseller = do
  call
  λ env w. (ok (select_where (λ k. k.reseller_id == reseller) w.keys), w)

unfoldable pub key_revoke : ℕ → Action (Unit {0})
key_revoke id = do
  call
  λ env w. (
    ok tt,
    record w {
      keys = update_where (is_key id) (λ k. record k { revoked_at = some env.now }) w.keys;
    },
  )

unfoldable pub update_last_used : ℕ → Action (Unit {0})
update_last_used id = do
  call
  λ env w. (
    ok tt,
    record w {
      keys = update_where (is_key id) (λ k. record k { last_used_at = some env.now }) w.keys;
    },
  )

abbrev pub is_webhook : ℕ → ResellerWebhook → Bool
is_webhook id h = h.id == id

-- The columns that are written and read leave the events out, which have the tag db:"-".
abbrev pub without_events : ResellerWebhook → ResellerWebhook
without_events h = record h { events = [] }

unfoldable pub webhook_create : ResellerWebhook → Action (Unit {0})
webhook_create h = do call; modify λ w. record w { webhooks = without_events h ∷ w.webhooks }

unfoldable pub webhook_get_by_id : ℕ → Action ResellerWebhook
webhook_get_by_id id = do
  call
  λ env w.
      or_raise (find_where (is_webhook id) (map without_events w.webhooks)) err_webhook_not_found
        env w

unfoldable pub webhooks_by_reseller : ℕ → Action (List ResellerWebhook)
webhooks_by_reseller reseller = do
  call
  λ env w. (
    ok (
        map without_events
          (select_where (λ h. h.reseller_id == reseller && h.is_active) w.webhooks)),
    w,
  )

unfoldable pub webhook_delete : ℕ → Action (Unit {0})
webhook_delete id = do
  call
  modify λ w. record w {
    webhooks = update_where (is_webhook id) (λ h. record h { is_active = false }) w.webhooks;
  }

unfoldable pub account_update_credit_limit : ℕ → ℤ → Action (Unit {0})
account_update_credit_limit id limit = do
  call
  modify λ w. record w {
    accounts = update_where (is_account id) (λ a. record a { credit_limit = limit }) w.accounts;
  }

unfoldable pub get_by_reseller_and_product : ℕ → ℕ → Action PricingOverride
get_by_reseller_and_product reseller product = do
  call
  λ env w.
      or_raise (find_where (is_price_of reseller product) w.pricing) err_pricing_not_found env w

unfoldable pub pricing_by_reseller : ℕ → Action (List PricingOverride)
pricing_by_reseller reseller = do
  call
  λ env w. (ok (select_where (λ p. p.reseller_id == reseller && p.is_active) w.pricing), w)

unfoldable pub pricing_delete : ℕ → Action (Unit {0})
pricing_delete id = do
  call
  modify λ w. record w {
    pricing = update_where (λ p. p.id == id) (λ p. record p { is_active = false }) w.pricing;
  }
