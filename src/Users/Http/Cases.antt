-- ===== src/Users/Http/Cases.antt =====
-- What the use cases of user-service keep of the roles of accounts.
use cloudmini_reseller.Common.{ℕ, String, refl, Option, none, some, List, arith}
use cloudmini_reseller.Common.Keeps.{Keeps}
use cloudmini_reseller.Users.Entity.{Account, AccountStatus}
use cloudmini_reseller.Users.World.{Error, Config}
use cloudmini_reseller.Users.Repo.{account_get_by_id, session_create, get_by_token, key_create}
use cloudmini_reseller.Users.Auth as Auth
use cloudmini_reseller.Users.Auth.{
  new_account, RegisterRequest, LoginRequest, RefreshTokenRequest, validate_password, is_taken,
}
use cloudmini_reseller.Users.Http.{account_list}
use cloudmini_reseller.Common.Int.{ℤ}
use cloudmini_reseller.Users.Profile as Profile
use cloudmini_reseller.Users.Http.Rows.{
  same, get_by_id-Keeps, soft_delete-Keeps, revoke-Keeps, keeping, Holds, IsAboutRoles,
}

module _ {Q : List Account → Type 0} (law : IsAboutRoles Q) where
  pub register-Keeps : (req : RegisterRequest) → Keeps (Holds Q) (Auth.register req)
  unfolding Auth.register
  register-Keeps req = search keeping depth 14 fits 9000

  authenticate-Keeps :
      (email : String) (password : List ℕ) → Keeps (Holds Q) (Auth.authenticate email password)
  unfolding Auth.authenticate
  authenticate-Keeps email password = search keeping depth 14 fits 9000

  open_session-Keeps :
      (cfg : Config) (a : Account) (ip agent : String)
      → Keeps (Holds Q) (Auth.open_session cfg a ip agent)
  unfolding Auth.open_session session_create
  open_session-Keeps cfg a ip agent = same law _ (λ env w. ground arith)

  login_result-Keeps :
      (cfg : Config) (a : Account) (access raw : String)
      → Keeps (Holds Q) (Auth.login_result cfg a access raw)
  login_result-Keeps cfg a access raw = same law _ (λ env w. refl)

  issue-Keeps : (cfg : Config) (a : Account) → Keeps (Holds Q) (Auth.issue_access_token cfg a)
  unfolding Auth.issue_access_token
  issue-Keeps cfg a = same law _ (λ env w. refl)

  make_room-Keeps : (cfg : Config) (id : ℕ) → Keeps (Holds Q) (Auth.make_room cfg id)
  unfolding Auth.make_room
  make_room-Keeps cfg id = search keeping

  redeem-Keeps : (hashed : String) → Keeps (Holds Q) (Auth.redeem hashed)
  unfolding Auth.redeem get_by_token account_get_by_id
  redeem-Keeps hashed = same law _ (λ env w. ground arith)

  ruleset sessions = (
    keeping, authenticate-Keeps, open_session-Keeps, login_result-Keeps, issue-Keeps,
    make_room-Keeps, redeem-Keeps,
  )

  pub login-Keeps : (cfg : Config) (req : LoginRequest) → Keeps (Holds Q) (Auth.login cfg req)
  unfolding Auth.login Auth.enter
  login-Keeps cfg req = search sessions depth 14 fits 9000

  rotate-Keeps :
      (cfg : Config) (hashed : String) (req : RefreshTokenRequest)
      → Keeps (Holds Q) (Auth.rotate cfg hashed req)
  unfolding Auth.rotate Auth.reissue
  rotate-Keeps cfg hashed req = search sessions depth 14 fits 9000

  pub refresh-Keeps :
      (cfg : Config) (req : RefreshTokenRequest) → Keeps (Holds Q) (Auth.refresh cfg req)
  unfolding Auth.refresh
  refresh-Keeps cfg req = record {
    at = λ env w q. (rotate-Keeps cfg (env.hash_token req.refresh_token) req).at env w q;
  }

  pub logout-Keeps : (raw : String) → Keeps (Holds Q) (Auth.logout raw)
  unfolding Auth.logout
  logout-Keeps raw = record { at = λ env w q. (revoke-Keeps law (env.hash_token raw)).at env w q }

  pub update_profile-Keeps :
      (id : ℕ) (name phone : String) → Keeps (Holds Q) (Profile.update_profile id name phone)
  unfolding Profile.update_profile
  update_profile-Keeps id name phone = search keeping depth 12

  pub get_profile-Keeps : (id : ℕ) → Keeps (Holds Q) (Profile.get_profile id)
  unfolding Profile.get_profile
  get_profile-Keeps id = get_by_id-Keeps law id

  pub change_password-Keeps :
      (id : ℕ) (old new : List ℕ) → Keeps (Holds Q) (Profile.change_password id old new)
  unfolding Profile.change_password
  change_password-Keeps id old new = search keeping depth 12

  pub update_status-Keeps :
      (id : ℕ) (s : AccountStatus) → Keeps (Holds Q) (Profile.update_status id s)
  unfolding Profile.update_status
  update_status-Keeps id s = search keeping depth 12

  pub soft_delete_account-Keeps : (id : ℕ) → Keeps (Holds Q) (Profile.soft_delete id)
  unfolding Profile.soft_delete
  soft_delete_account-Keeps id = soft_delete-Keeps law id

  pub setup_totp-Keeps : (id : ℕ) → Keeps (Holds Q) (Profile.setup_totp id)
  unfolding Profile.setup_totp
  setup_totp-Keeps id = search keeping depth 12

  secret_of-Keeps : (o : Option String) (e : Error) → Keeps (Holds Q) (Profile.secret_of o e)
  secret_of-Keeps none e = same law _ (λ env w. refl)
  secret_of-Keeps (some s) e = same law _ (λ env w. refl)

  pub enable_totp-Keeps : (id : ℕ) (code : String) → Keeps (Holds Q) (Profile.enable_totp id code)
  unfolding Profile.enable_totp
  enable_totp-Keeps id code = search (keeping, secret_of-Keeps) depth 12

  disable_enabled-Keeps :
      (id : ℕ) (a : Account) (code : String) → Keeps (Holds Q) (Profile.disable_enabled id a code)
  unfolding Profile.disable_enabled
  disable_enabled-Keeps id a code = search (keeping, secret_of-Keeps) depth 12

  pub disable_totp-Keeps : (id : ℕ) (code : String) → Keeps (Holds Q) (Profile.disable_totp id code)
  unfolding Profile.disable_totp
  disable_totp-Keeps id code = search (keeping, disable_enabled-Keeps) depth 12

  pub admin_disable_totp-Keeps :
      (id actor : ℕ) → Keeps (Holds Q) (Profile.admin_disable_totp id actor)
  unfolding Profile.admin_disable_totp
  admin_disable_totp-Keeps id actor = search keeping depth 12

  pub create_api_key-Keeps :
      (id : ℕ) (name : String) → Keeps (Holds Q) (Profile.create_api_key id name)
  unfolding Profile.create_api_key key_create
  create_api_key-Keeps id name = same law _ (λ env w. ground arith)

  pub revoke_api_key-Keeps : (id key : ℕ) → Keeps (Holds Q) (Profile.revoke_api_key id key)
  unfolding Profile.revoke_api_key
  revoke_api_key-Keeps id key = search keeping depth 12

  pub account_list-Keeps : (offset : ℤ) (limit : ℕ) → Keeps (Holds Q) (account_list offset limit)
  unfolding account_list
  account_list-Keeps offset limit = same law _ (λ env w. ground arith)
