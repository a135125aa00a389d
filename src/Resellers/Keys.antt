-- ===== src/Resellers/Keys.antt =====
-- API keys of resellers, services/reseller-service/internal/usecase/reseller_usecase.go.
pub mod Revocation
use cloudmini_reseller.Common.{
  ℕ, String, Bool, true, false, not, ◌==◌, Option, none, some, List, [], ◌∷◌, any, is_none,
  if◌then◌else◌,
}
use cloudmini_reseller.Common.Int.{ℤ, ltb_ℤ}
use cloudmini_reseller.Common.Action.{
  Outcome, ok, err, pure, raise, ◌>>=◌, ◌>>◌, raise_if, attempt, or_else,
}
use cloudmini_reseller.Resellers.Entity.{ResellerApiKey}
use cloudmini_reseller.Resellers.World.{
  Env, World, Error, Action, ask, new_uuid, err_api_key_not_found, err_api_key_revoked,
  err_api_key_expired,
}
use cloudmini_reseller.Resellers.Repo.{
  is_key, key_create, get_by_hash, keys_by_reseller, key_revoke, update_last_used,
}

abbrev pub new_key : ℕ → String → Option ℤ → String → ℕ → ResellerApiKey
new_key reseller name expires hash id = record {
  id = id;
  reseller_id = reseller;
  name = name;
  key_hash = hash;
  last_used_at = none;
  expires_at = expires;
  revoked_at = none;
}

pub record CreateApiKeyResult : Type 0 where
  pub api_key : ResellerApiKey
  pub plain_key : String

-- With the hash of the key that was drawn.
unfoldable pub save_key : ℕ → String → Option ℤ → String → String → Action CreateApiKeyResult
save_key reseller name expires plain hash = do
  id ← new_uuid
  key_create (new_key reseller name expires hash id)
  pure (record { api_key = new_key reseller name expires hash id; plain_key = plain })

unfoldable pub create_api_key : ℕ → String → Option ℤ → Action CreateApiKeyResult
create_api_key reseller name expires = do
  plain ← ask λ env. env.plain_keys
  λ env. save_key reseller name expires plain (env.hash_key plain) env

-- `k.ExpiresAt != nil && time.Now().After(*k.ExpiresAt)`
abbrev pub is_expired : ℤ → Option ℤ → Bool
is_expired now none = false
is_expired now (some t) = ltb_ℤ t now

-- The key of a given hash.
unfoldable pub validate_hash : String → Action ResellerApiKey
validate_hash hash = do
  k ← or_else (get_by_hash hash) (pure tt) err_api_key_not_found
  raise_if (not (is_none k.revoked_at)) err_api_key_revoked
  λ env. raise_if (is_expired env.now k.expires_at) err_api_key_expired env
  attempt (update_last_used k.id)
  pure k

unfoldable pub validate_api_key : String → Action ResellerApiKey
validate_api_key raw env = validate_hash (env.hash_key raw) env

unfoldable pub revoke_api_key : ℕ → ℕ → Action (Unit {0})
revoke_api_key id reseller = do
  keys ← keys_by_reseller reseller
  if any (is_key id) keys then key_revoke id else raise err_api_key_not_found
