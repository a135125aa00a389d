-- ===== src/Resellers/World.antt =====
-- What the use cases of reseller-service run on: the tables, the events that were published, and the
-- deliveries of webhooks.
use cloudmini_reseller.Common.{ℕ, suc, String, Bool, false, not, ◌≡◌, List, ◌∷◌, if◌then◌else◌}
use cloudmini_reseller.Common.Int.{ℤ}
use cloudmini_reseller.Common.Action.{Action as Act, ok, err}
use cloudmini_reseller.Resellers.Entity.{
  ResellerAccount, PricingOverride, SubAccount, ResellerApiKey, ResellerWebhook,
}

pub data Message : Type 0 where
  reseller_created reseller_approved : ℕ → Message
  reseller_suspended : ℕ → String → Message
  pricing_updated : ℕ → ℕ → ℤ → Message

-- An HTTP request to the address of a webhook, and whether it was answered with a status of 2xx.
pub record Delivery : Type 0 where
  pub url : String
  pub secret : String
  pub event : String
  pub done : Bool

-- `fails n` says whether the n-th call to the outside fails: a statement to the database, a random
-- read, a delivery. `plain_keys` is rvk_ with the random bytes in hex, `hash_key` is SHA-256 in hex.
pub record Env : Type 0 where
  pub fails : ℕ → Bool
  pub plain_keys : ℕ → String
  pub hash_key : String → String
  pub uuids : ℕ → ℕ
  pub now : ℤ

pub record World : Type 0 where
  pub accounts : List ResellerAccount
  pub pricing : List PricingOverride
  pub subs : List SubAccount
  pub keys : List ResellerApiKey
  pub webhooks : List ResellerWebhook
  pub messages : List Message
  pub deliveries : List Delivery
  pub calls : ℕ
  pub draws : ℕ

pub data Error : Type 0 where
  err_reseller_not_found err_reseller_not_approved err_reseller_already_exists : Error
  err_api_key_not_found err_api_key_revoked err_api_key_expired : Error
  err_sub_account_not_found err_price_below_cost err_price_below_floor : Error
  err_price_above_cap err_webhook_not_found err_forbidden err_pricing_not_found : Error
  duplicate_key call_failed : Error

abbrev pub Action : Type 0 → Type 0
Action A = Act Env World Error A

-- No call fails.
abbrev pub IsReliable : Env → Type 0
IsReliable env = (n : ℕ) → env.fails n ≡ false

-- One call to the outside.
abbrev pub call : Action (Unit {0})
call env w =
    (if env.fails w.calls then err call_failed else ok tt, record w { calls = suc w.calls })

-- A call that answers.
abbrev pub ask : {A : Type 0} → (Env → ℕ → A) → Action A
ask f env w = (
  if env.fails w.calls then err call_failed else ok (f env w.calls),
  record w { calls = suc w.calls },
)

abbrev pub new_uuid : Action ℕ
new_uuid env w = (ok (env.uuids w.draws), record w { draws = suc w.draws })

abbrev pub publish : Message → Action (Unit {0})
publish m env w = (ok tt, record w { messages = m ∷ w.messages })

abbrev pub post : String → String → String → Action (Unit {0})
post url secret event env w = (
  if env.fails w.calls then err call_failed else ok tt,
  record w {
    calls = suc w.calls;
    deliveries =
        record { url = url; secret = secret; event = event; done = not (env.fails w.calls) }
        ∷ w.deliveries;
  },
)
