-- ===== src/Users/Http.antt =====
-- The HTTP interface of user-service, services/user-service/internal/handler/http/handler.go and
-- router.go.
pub mod Bodies
mod Tests
pub mod Handlers
mod Rows
mod Cases
pub mod Roles
use Prim.Native.Char.{code}
use cloudmini_reseller.Common.{
  ℕ, String, str_eq, Bool, true, false, ◌&&◌, ◌||◌, ◌==◌, leb, Option, none, some, List, [], ◌∷◌,
  if◌then◌else◌, length, select_where, is_none,
}
use cloudmini_reseller.Common.Int.{ℤ}
use cloudmini_reseller.Common.Action.{ok, err, pure, raise, ◌>>=◌, ◌>>◌, or_raise}
use cloudmini_reseller.Users.Entity.{
  Role, user, reseller, admin, super_admin, AccountStatus, active, suspended, banned,
  pending_verification, Account, ApiKey,
}
use cloudmini_reseller.Users.World.{
  Env, World, Error, Action, call, call_failed, err_user_not_found, err_api_key_not_found,
  err_session_not_found, err_invalid_credentials, err_token_expired, err_invalid_totp_code,
  err_account_suspended, err_email_not_verified, err_email_already_exists, err_weak_password,
}
use cloudmini_reseller.Users.Auth.{LoginResult}
use cloudmini_reseller.Web.{
  Response, respond, respond_json, no_content, bad_request, internal, Code, not_found, unauthorized,
  forbidden, conflict, validation_error, Guard, anyone, signed_in, with_role, admins, Handler,
  or_respond,
}
use cloudmini_reseller.Web.Json.{Fields}
use cloudmini_reseller.Web.Pages.{PageQuery, Params, Meta, limit_offset}

-- The routes of NewRouter, with the text of {id} and what is read of the query.
pub data Endpoint : Type 0 where
  register login refresh_token logout : Endpoint
  get_me update_me change_password list_api_keys create_api_key : Endpoint
  revoke_api_key : String → Endpoint
  setup_2fa enable_2fa disable_2fa : Endpoint
  admin_list_users : PageQuery → Endpoint
  admin_get_user admin_update_status admin_update_role admin_update_profile : String → Endpoint
  admin_delete_user admin_disable_2fa : String → Endpoint

-- `remote_addr` is the address of the connection, `remote_host` what SplitHostPort leaves of it.
pub record Request : Type 0 where
  pub endpoint : Endpoint
  pub authorization : String
  pub body : Option Fields
  pub remote_addr : String
  pub remote_host : String
  pub user_agent : String

pub data Data : Type 0 where
  registered : ℕ → Data
  tokens : LoginResult → Data
  account : Account → Data
  accounts : List Account → Meta → Data
  keys : List ApiKey → Data
  new_key : String → ApiKey → Data
  secret : String → Data

unfoldable pub guard_of : Endpoint → Guard
guard_of register = anyone
guard_of login = anyone
guard_of refresh_token = anyone
guard_of logout = anyone
guard_of (admin_list_users q) = with_role admins
guard_of (admin_get_user id) = with_role admins
guard_of (admin_update_status id) = with_role admins
guard_of (admin_update_role id) = with_role admins
guard_of (admin_update_profile id) = with_role admins
guard_of (admin_delete_user id) = with_role admins
guard_of (admin_disable_2fa id) = with_role admins
guard_of _ = signed_in

unfoldable pub handle_error : Error → Response Data
handle_error err_user_not_found = respond 404 not_found
handle_error err_api_key_not_found = respond 404 not_found
handle_error err_session_not_found = respond 404 not_found
handle_error err_invalid_credentials = respond 401 unauthorized
handle_error err_token_expired = respond 401 unauthorized
handle_error err_invalid_totp_code = respond 401 unauthorized
handle_error err_account_suspended = respond 403 forbidden
handle_error err_email_not_verified = respond 403 forbidden
handle_error err_email_already_exists = respond 409 conflict
handle_error err_weak_password = respond 400 validation_error
handle_error e = internal

abbrev pub Serve : Type 0
Serve = Handler Env World Data (Response Data)

abbrev pub try : {A : Type 0} → Action A → Handler Env World Data A
try m = or_respond m handle_error

-- The code points of a text.
abbrev pub codes : String → List ℕ
codes String.[] = []
codes (String.◌∷◌ c s) = code c ∷ codes s

-- unicode.IsSpace
abbrev pub is_space : ℕ → Bool
is_space c =
    leb 9 c && leb c 13
    || c == 32
    || c == 133
    || c == 160
    || c == 5760
    || leb 8192 c && leb c 8202
    || c == 8232
    || c == 8233
    || c == 8239
    || c == 8287
    || c == 12288

-- `strings.TrimSpace(s) == ""`
abbrev pub is_blank : List ℕ → Bool
is_blank [] = true
is_blank (c ∷ cs) = is_space c && is_blank cs

-- The texts that UpdateStatus and UpdateRole know; any other is invalid.
abbrev pub status_of : String → Option AccountStatus
status_of s =
    if str_eq s "active"
    then some active
    else if str_eq s "suspended"
    then some suspended
    else if str_eq s "banned"
    then some banned
    else none

abbrev pub role_of : String → Option Role
role_of s =
    if str_eq s "user"
    then some user
    else if str_eq s "reseller"
    then some reseller
    else if str_eq s "admin"
    then some admin
    else none

-- AccountRepository.List: the count, then the page, newest first.
unfoldable pub account_list : ℤ → ℕ → Action (List Account × ℕ)
account_list offset limit = do
  call
  total ←
      λ env w. (ok (length (select_where (λ (a : Account). is_none a.deleted_at) w.accounts)), w)
  call
  rows ← λ env w.
      or_raise
        (limit_offset limit offset
          (select_where (λ (a : Account). is_none a.deleted_at) w.accounts))
        call_failed env w
  pure (rows, total)
