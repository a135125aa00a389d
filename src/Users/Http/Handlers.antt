-- ===== src/Users/Http/Handlers.antt =====
-- The handlers of user-service and the middleware before them.
use cloudmini_reseller.Common.{ℕ, String, str_eq, ◌||◌, Option, none, some, if◌then◌else◌}
use cloudmini_reseller.Common.Action.{pure, raise, ◌>>=◌, ◌>>◌}
use cloudmini_reseller.Users.Entity.{Role, AccountStatus}
use cloudmini_reseller.Users.World.{Env, World, Config, Action, invalid_status, invalid_role}
use cloudmini_reseller.Users.Repo.{list_keys_by_user}
use cloudmini_reseller.Users.Auth as Auth
use cloudmini_reseller.Users.Profile as Profile
use cloudmini_reseller.Web.{
  Response, respond_json, no_content, bad_request, Libraries, must_parse_uuid, demand, reject_if,
  run_guarded,
}
use cloudmini_reseller.Web.Json.{Fields, text_field, ◌>>=◌ as ◌>>?◌}
use cloudmini_reseller.Web.Pages.{PageQuery, parse, new_meta}
use cloudmini_reseller.Users.Http.Bodies.{register_body, pair_body}
use cloudmini_reseller.Users.Http.{
  Endpoint, Request, Data, registered, tokens, account, accounts, keys, new_key, secret, guard_of,
  Serve, try, codes, is_blank, status_of, role_of, account_list, register, login, refresh_token,
  logout, get_me, update_me, change_password, list_api_keys, create_api_key, revoke_api_key,
  setup_2fa, enable_2fa, disable_2fa, admin_list_users, admin_get_user, admin_update_status,
  admin_update_role, admin_update_profile, admin_delete_user, admin_disable_2fa,
}

unfoldable pub post_register : Option Fields → Serve
post_register body = do
  req ← demand (body >>? register_body) bad_request
  reject_if
      (is_blank (codes req.email)
        || is_blank (codes req.password)
        || is_blank (codes req.full_name))
      bad_request
  id ← try (
      Auth.register (record {
        email = req.email;
        password = codes req.password;
        full_name = req.full_name;
        phone = req.phone;
      }))
  pure (respond_json 201 (registered id))

-- A body with one text under a key, which must not be empty.
abbrev required : String → Option Fields → Option String
required key body = body >>? text_field key >>? λ s. if str_eq s "" then none else some s

module _ (cfg : Config) where
  unfoldable pub post_login : Request → Serve
  post_login r =
      demand (r.body >>? pair_body "email" "password") bad_request >>= λ (email, password).
      try (
        Auth.login cfg (record {
          email = email;
          password = codes password;
          ip_address = r.remote_host;
          user_agent = r.user_agent;
        }))
      >>= λ result. pure (respond_json 200 (tokens result))

  unfoldable pub post_refresh : Request → Serve
  post_refresh r = do
    raw ← demand (required "refresh_token" r.body) bad_request
    result ← try (
        Auth.refresh cfg
          (record { refresh_token = raw; ip_address = r.remote_addr; user_agent = r.user_agent }))
    pure (respond_json 200 (tokens result))

unfoldable pub post_logout : Option Fields → Serve
post_logout body = do
  raw ← demand (required "refresh_token" body) bad_request
  try (Auth.logout raw)
  pure no_content

-- GetMe and AdminGetUser.
unfoldable pub show_account : ℕ → Serve
show_account id = do a ← try (Profile.get_profile id); pure (respond_json 200 (account a))

-- UpdateMe and AdminUpdateProfile.
unfoldable pub put_profile : ℕ → Option Fields → Serve
put_profile id body =
    demand (body >>? pair_body "full_name" "phone") bad_request >>= λ (name, phone).
    try (Profile.update_profile id name phone) >>= λ a. pure (respond_json 200 (account a))

unfoldable pub put_password : ℕ → Option Fields → Serve
put_password id body =
    demand (body >>? pair_body "old_password" "new_password") bad_request >>= λ (old, new).
    try (Profile.change_password id (codes old) (codes new)) >> pure no_content

unfoldable pub show_keys : ℕ → Serve
show_keys id = do ks ← try (list_keys_by_user id); pure (respond_json 200 (keys ks))

-- The scopes are only passed on.
unfoldable pub post_key : ℕ → Option Fields → Serve
post_key id body = demand (required "name" body) bad_request >>= λ name.
    try (Profile.create_api_key id name) >>= λ (raw, key). pure (respond_json 201 (new_key raw key))

unfoldable pub delete_key : ℕ → ℕ → Serve
delete_key id key = do try (Profile.revoke_api_key id key); pure no_content

unfoldable pub post_setup : ℕ → Serve
post_setup id = do s ← try (Profile.setup_totp id); pure (respond_json 200 (secret s))

unfoldable pub post_code : (String → Action (Unit {0})) → Option Fields → Serve
post_code operation body = do
  code ← demand (required "code" body) bad_request
  try (operation code)
  pure no_content

unfoldable pub show_accounts : PageQuery → Serve
show_accounts q =
    let p = parse q in
    try (account_list p.offset p.limit) >>= λ (rows, total).
    pure (respond_json 200 (accounts rows (new_meta p total)))

-- UpdateStatus, which checks the text.
abbrev pub set_status : ℕ → Option AccountStatus → Action (Unit {0})
set_status id none = raise invalid_status
set_status id (some status) = Profile.update_status id status

unfoldable pub put_status : ℕ → Option Fields → Serve
put_status id body = do
  s ← demand (body >>? text_field "status") bad_request
  try (set_status id (status_of s))
  pure no_content

-- UpdateRole, which checks the text.
abbrev pub set_role : ℕ → Option Role → Action (Unit {0})
set_role id none = raise invalid_role
set_role id (some role) = Profile.update_role id role

unfoldable pub put_role : ℕ → Option Fields → Serve
put_role id body = do
  s ← demand (body >>? text_field "role") bad_request
  try (set_role id (role_of s))
  pure no_content

unfoldable pub delete_account : ℕ → Serve
delete_account id = do try (Profile.soft_delete id); pure no_content

unfoldable pub put_2fa_disabled : ℕ → ℕ → Serve
put_2fa_disabled id actor = do try (Profile.admin_disable_totp id actor); pure no_content

module _ (cfg : Config) (lib : Libraries) where
  -- The handler of an endpoint, with the account that the claims name.
  unfoldable pub handle : Endpoint → ℕ → Request → Serve
  handle register me r = post_register r.body
  handle login me r = post_login cfg r
  handle refresh_token me r = post_refresh cfg r
  handle logout me r = post_logout r.body
  handle get_me me r = show_account me
  handle update_me me r = put_profile me r.body
  handle change_password me r = put_password me r.body
  handle list_api_keys me r = show_keys me
  handle create_api_key me r = post_key me r.body
  handle (revoke_api_key id) me r = delete_key me (must_parse_uuid lib id)
  handle setup_2fa me r = post_setup me
  handle enable_2fa me r = post_code (Profile.enable_totp me) r.body
  handle disable_2fa me r = post_code (Profile.disable_totp me) r.body
  handle (admin_list_users q) me r = show_accounts q
  handle (admin_get_user id) me r = show_account (must_parse_uuid lib id)
  handle (admin_update_status id) me r = put_status (must_parse_uuid lib id) r.body
  handle (admin_update_role id) me r = put_role (must_parse_uuid lib id) r.body
  handle (admin_update_profile id) me r = put_profile (must_parse_uuid lib id) r.body
  handle (admin_delete_user id) me r = delete_account (must_parse_uuid lib id)
  handle (admin_disable_2fa id) me r = put_2fa_disabled (must_parse_uuid lib id) me

  unfoldable pub serve : Request → Env → World → Response Data × World
  serve req =
      run_guarded lib (guard_of req.endpoint) req.authorization
        (λ claims. handle req.endpoint (must_parse_uuid lib claims.user_id) req)
