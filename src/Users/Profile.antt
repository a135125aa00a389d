-- ===== src/Users/Profile.antt =====
-- Profiles, roles, one-time codes and API keys,
-- services/user-service/internal/usecase/user_usecase.go.
use cloudmini_reseller.Common.{
  ℕ, String, Bool, true, false, not, Option, none, some, List, any, if◌then◌else◌,
}
use cloudmini_reseller.Common.Action.{ok, pure, raise, ◌>>=◌, ◌>>◌, raise_if}
use cloudmini_reseller.Users.Entity.{
  Role, user, reseller, admin, super_admin, AccountStatus, active, suspended, banned,
  pending_verification, Account, ApiKey,
}
use cloudmini_reseller.Users.World.{
  Error, Action, ask, draw, publish, user_2fa_enabled, user_2fa_disabled, user_2fa_admin_disabled,
  err_invalid_credentials, err_invalid_totp_code, err_api_key_not_found, not_set_up, invalid_status,
  invalid_role, nil_dereference,
}
use cloudmini_reseller.Users.Repo.{
  account_get_by_id, account_update, account_update_status, account_update_role, update_totp,
  account_soft_delete, key_create, list_keys_by_user, key_revoke, is_key,
}
use cloudmini_reseller.Users.Auth.{validate_password}

unfoldable pub get_profile : ℕ → Action Account
get_profile id = account_get_by_id id

unfoldable pub update_profile : ℕ → String → String → Action Account
update_profile id full_name phone = do
  a ← account_get_by_id id
  account_update (record a { full_name = full_name; phone = phone })
  pure (record a { full_name = full_name; phone = phone })

unfoldable pub change_password : ℕ → List ℕ → List ℕ → Action (Unit {0})
change_password id old new = do
  a ← account_get_by_id id
  λ env. raise_if (not (env.compare_hash a.password_hash old)) err_invalid_credentials env
  validate_password new
  hash ← ask λ env n. env.bcrypt n new
  account_update (record a { password_hash = hash })

abbrev pub is_settable_status : AccountStatus → Bool
is_settable_status active = true
is_settable_status suspended = true
is_settable_status banned = true
is_settable_status pending_verification = false

unfoldable pub update_status : ℕ → AccountStatus → Action (Unit {0})
update_status id s = do
  raise_if (not (is_settable_status s)) invalid_status
  account_update_status id s

abbrev pub is_settable_role : Role → Bool
is_settable_role user = true
is_settable_role reseller = true
is_settable_role admin = true
is_settable_role super_admin = false

unfoldable pub update_role : ℕ → Role → Action (Unit {0})
update_role id r = do raise_if (not (is_settable_role r)) invalid_role; account_update_role id r

unfoldable pub soft_delete : ℕ → Action (Unit {0})
soft_delete id = account_soft_delete id

-- The secret that totp.Generate draws is stored, and one-time codes are off until it is confirmed.
unfoldable pub setup_totp : ℕ → Action String
setup_totp id = do
  account_get_by_id id
  secret ← ask λ env. env.secrets
  update_totp id false (some secret)
  pure secret

abbrev pub secret_of : Option String → Error → Action String
secret_of none e = raise e
secret_of (some secret) e = pure secret

unfoldable pub enable_totp : ℕ → String → Action (Unit {0})
enable_totp id code = do
  a ← account_get_by_id id
  secret ← secret_of a.totp_secret not_set_up
  λ env. raise_if (not (env.validate_code code secret)) err_invalid_totp_code env
  update_totp id true (some secret)
  publish (user_2fa_enabled id)

-- `*acc.TotpSecret` of an account without a secret is a panic.
unfoldable pub disable_enabled : ℕ → Account → String → Action (Unit {0})
disable_enabled id a code = do
  secret ← secret_of a.totp_secret nil_dereference
  λ env. raise_if (not (env.validate_code code secret)) err_invalid_totp_code env
  update_totp id false none
  publish (user_2fa_disabled id)

unfoldable pub disable_totp : ℕ → String → Action (Unit {0})
disable_totp id code = do
  a ← account_get_by_id id
  if a.totp_enabled then disable_enabled id a code else pure tt

unfoldable pub admin_disable_totp : ℕ → ℕ → Action (Unit {0})
admin_disable_totp id actor = do
  update_totp id false none
  publish (user_2fa_admin_disabled id actor)

abbrev pub new_key : ℕ → String → String → ℕ → ApiKey
new_key owner name hash id = record {
  id = id;
  user_id = owner;
  name = name;
  key_hash = hash;
  revoked_at = none;
}

unfoldable pub create_api_key : ℕ → String → Action (String × ApiKey)
create_api_key owner name = do
  raw ← ask λ env. env.tokens
  id ← draw λ env. env.uuids
  λ env. key_create (new_key owner name (env.hash_token raw) id) env
  λ env w. (ok (raw, new_key owner name (env.hash_token raw) id), w)

unfoldable pub revoke_api_key : ℕ → ℕ → Action (Unit {0})
revoke_api_key owner id = do
  keys ← list_keys_by_user owner
  raise_if (not (any (is_key id) keys)) err_api_key_not_found
  key_revoke id
