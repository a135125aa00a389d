-- ===== src/Users/Repo.antt =====
-- The repositories of services/user-service/internal/repository/postgres, with the UNIQUE columns of
-- migrations/000001_create_users_schema.sql and the type of ip_address there.
use cloudmini_reseller.Common.{
  is_none, ℕ, String, str_eq, Bool, false, ◌&&◌, Option, none, some, List, [], ◌∷◌, ◌==◌,
  if◌then◌else◌, find_where, select_where, update_where, any, count_where, not,
}
use cloudmini_reseller.Common.Int.{ℤ, ltb_ℤ}
use cloudmini_reseller.Common.Action.{ok, err, ◌>>◌, modify, or_raise}
use cloudmini_reseller.Users.Entity.{Role, AccountStatus, Account, Session, ApiKey}
use cloudmini_reseller.Users.World.{
  Env, World, Action, call, call_failed, err_user_not_found, err_session_not_found, duplicate_key,
  err_api_key_not_found,
}

abbrev pub is_account : ℕ → Account → Bool
is_account id a = a.id == id

abbrev pub is_present : ℕ → Account → Bool
is_present id a = is_account id a && is_none a.deleted_at

abbrev pub has_email : String → Account → Bool
has_email email a = str_eq a.email email

unfoldable pub account_create : Account → Action (Unit {0})
account_create a = do
  call
  λ env w.
      (if any (has_email a.email) w.accounts
        then (err duplicate_key, w)
        else (ok tt, record w { accounts = a ∷ w.accounts }))

unfoldable pub account_get_by_id : ℕ → Action Account
account_get_by_id id = do
  call
  λ env w. or_raise (find_where (is_present id) w.accounts) err_user_not_found env w

unfoldable pub account_get_by_email : String → Action Account
account_get_by_email email = do
  call
  λ env w.
      or_raise (find_where (λ a. has_email email a && is_none a.deleted_at) w.accounts)
        err_user_not_found env w

abbrev pub update_accounts : ℕ → (Account → Account) → Action (Unit {0})
update_accounts id f = do
  call
  modify λ w. record w { accounts = update_where (is_account id) f w.accounts }

-- The columns that Update writes.
unfoldable pub account_update : Account → Action (Unit {0})
account_update a = update_accounts a.id λ b. record b {
  full_name = a.full_name;
  phone = a.phone;
  password_hash = a.password_hash;
  email_verified = a.email_verified;
}

unfoldable pub account_update_status : ℕ → AccountStatus → Action (Unit {0})
account_update_status id s = update_accounts id λ a. record a { status = s }

unfoldable pub account_update_role : ℕ → Role → Action (Unit {0})
account_update_role id r = update_accounts id λ a. record a { role = r }

unfoldable pub update_last_login : ℕ → Action (Unit {0})
update_last_login id = do
  call
  λ env.
      modify
        (λ w. record w {
          accounts =
              update_where (is_account id) (λ a. record a { last_login_at = some env.now })
                w.accounts;
        })
        env

unfoldable pub update_totp : ℕ → Bool → Option String → Action (Unit {0})
update_totp id enabled secret =
    update_accounts id λ a. record a { totp_enabled = enabled; totp_secret = secret }

unfoldable pub account_soft_delete : ℕ → Action (Unit {0})
account_soft_delete id = do
  call
  λ env.
      modify
        (λ w. record w {
          accounts =
              update_where (is_account id) (λ a. record a { deleted_at = some env.now }) w.accounts;
        })
        env

abbrev pub has_token : String → Session → Bool
has_token h s = str_eq s.refresh_token h

unfoldable pub session_create : Session → Action (Unit {0})
session_create s = do
  call
  λ env w.
      (if not (env.is_inet s.ip_address)
        then (err call_failed, w)
        else if any (has_token s.refresh_token) w.sessions
        then (err duplicate_key, w)
        else (ok tt, record w { sessions = s ∷ w.sessions }))

unfoldable pub get_by_token : String → Action Session
get_by_token h = do
  call
  λ env w. or_raise (find_where (has_token h) w.sessions) err_session_not_found env w

-- user_id = $1 AND revoked_at IS NULL AND expires_at > NOW()
abbrev pub is_live : ℤ → ℕ → Session → Bool
is_live now user s = s.user_id == user && is_none s.revoked_at && ltb_ℤ now s.expires_at

unfoldable pub count_active_by_user : ℕ → Action ℕ
count_active_by_user user = do
  call
  λ env w. (ok (count_where (is_live env.now user) w.sessions), w)

abbrev pub revoked : ℤ → Session → Session
revoked now s = record s { revoked_at = some now }

abbrev pub revoke_where : (Env → World → Session → Bool) → Action (Unit {0})
revoke_where p = do
  call
  λ env w. (ok tt, record w { sessions = update_where (p env w) (revoked env.now) w.sessions })

unfoldable pub revoke_by_token : String → Action (Unit {0})
revoke_by_token h = revoke_where λ env w. has_token h

-- ORDER BY created_at ASC LIMIT 1; of two sessions of one time the earlier row is taken.
abbrev pub older : Session → Option Session → Session
older s none = s
older s (some t) = if ltb_ℤ t.created_at s.created_at then t else s

abbrev pub oldest_live : ℤ → ℕ → List Session → Option Session
oldest_live now user [] = none
oldest_live now user (s ∷ ss) =
    let rest = oldest_live now user ss in if is_live now user s then some (older s rest) else rest

abbrev pub is_chosen : Option Session → Session → Bool
is_chosen none s = false
is_chosen (some t) s = s.id == t.id

unfoldable pub revoke_oldest_by_user : ℕ → Action (Unit {0})
revoke_oldest_by_user user = revoke_where λ env w. is_chosen (oldest_live env.now user w.sessions)

abbrev pub is_key : ℕ → ApiKey → Bool
is_key id k = k.id == id

unfoldable pub key_create : ApiKey → Action (Unit {0})
key_create k = do
  call
  λ env w.
      (if any (λ j. str_eq j.key_hash k.key_hash) w.keys
        then (err duplicate_key, w)
        else (ok tt, record w { keys = k ∷ w.keys }))

unfoldable pub list_keys_by_user : ℕ → Action (List ApiKey)
list_keys_by_user user = do
  call
  λ env w. (ok (select_where (λ k. k.user_id == user && is_none k.revoked_at) w.keys), w)

unfoldable pub key_revoke : ℕ → Action (Unit {0})
key_revoke id = do
  call
  λ env w. (
    ok tt,
    record w {
      keys = update_where (is_key id) (λ k. record k { revoked_at = some env.now }) w.keys;
    },
  )

unfoldable pub revoke_all_by_user : ℕ → Action (Unit {0})
revoke_all_by_user user = revoke_where λ env w s. s.user_id == user && is_none s.revoked_at

-- The sessions past their time are deleted; the answer is how many.
unfoldable pub delete_expired : Action ℕ
delete_expired = do
  call
  λ env w. (
    ok (count_where (λ s. ltb_ℤ s.expires_at env.now) w.sessions),
    record w { sessions = select_where (λ s. not (ltb_ℤ s.expires_at env.now)) w.sessions },
  )

unfoldable pub key_get_by_hash : String → Action ApiKey
key_get_by_hash h = do
  call
  λ env w.
      or_raise (find_where (λ k. str_eq k.key_hash h && is_none k.revoked_at) w.keys)
        err_api_key_not_found env w
