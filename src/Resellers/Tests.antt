-- ===== src/Resellers/Tests.antt =====
-- Runs and witnesses of reseller-service.
use cloudmini_reseller.Common.{false, true, ◌≡◌, refl, none, List, [], ◌∷◌, ◌+◌}
use cloudmini_reseller.Common.Int.{pos}
use cloudmini_reseller.Common.Action.{ok, err}
use cloudmini_reseller.Resellers.Entity.{PricingOverride, ResellerApiKey}
use cloudmini_reseller.Resellers.World.{Env, World, Delivery, err_api_key_not_found}
use cloudmini_reseller.Resellers.Repo.{keys_by_reseller, key_revoke}
use cloudmini_reseller.Resellers.Keys.{validate_api_key, revoke_api_key}
use cloudmini_reseller.Resellers.Keys.Revocation.{
  Command, creates, validates, run_all, validate_revoked,
}
use cloudmini_reseller.Resellers.Webhooks.{deliver_with_retry}

-- Keys and their hashes are the same texts here.
abbrev pub up : Env
up = record {
  fails = λ n. false;
  plain_keys = λ n. "rvk_0";
  hash_key = λ raw. raw;
  uuids = λ n. n + 100;
  now = pos 1000;
}

abbrev pub listed : PricingOverride
listed = record {
  id = 1;
  reseller_id = 7;
  product_id = 2;
  product_type = "proxy";
  cost_price = pos 100000;
  floor_price = pos 120000;
  sell_price = pos 150000;
  is_active = true;
}

abbrev pub stored_key : ResellerApiKey
stored_key = record {
  id = 3;
  reseller_id = 7;
  name = "ci";
  key_hash = "rvk_1";
  last_used_at = none;
  expires_at = none;
  revoked_at = none;
}

abbrev pub world : World
world = record {
  accounts = [];
  pricing = listed ∷ [];
  subs = [];
  keys = stored_key ∷ [];
  webhooks = [];
  messages = [];
  deliveries = [];
  calls = 0;
  draws = 0;
}

abbrev later : List (Command × Env)
later = (creates 7 "new" none, up) ∷ (validates "rvk_1", up) ∷ []

revoked : (revoke_api_key 3 7 up world).0 ≡ ok tt
unfolding revoke_api_key keys_by_reseller key_revoke
revoked = refl

validate_revoked_example :
    (validate_api_key "rvk_1" up (run_all later (revoke_api_key 3 7 up world).1)).0
    ≡ err err_api_key_not_found
validate_revoked_example =
    validate_revoked 3 7 "rvk_1" up up world refl ((λ e. refl), tt) revoked later

-- Every attempt fails; there are three.
abbrev down : Env
down = record up { fails = λ n. true }

abbrev lost : Delivery
lost = record { url = "u"; secret = "s"; event = "e"; done = false }

deliver_with_retry-down :
    (deliver_with_retry 3 "u" "s" "e" down world).1.deliveries ≡ lost ∷ lost ∷ lost ∷ []
unfolding deliver_with_retry
deliver_with_retry-down = refl
