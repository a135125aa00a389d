-- ===== src/Users/Auth.antt =====
-- Registration, login, the rotation of refresh tokens and logout,
-- services/user-service/internal/usecase/auth_usecase.go.
pub mod Spending
pub mod Rotation
pub mod Limits
use cloudmini_reseller.Common.{
  ℕ, ◌+◌, String, str_eq, Bool, true, false, not, ◌&&◌, ◌||◌, Option, none, some, List, [], ◌∷◌,
  ltb, leb, if◌then◌else◌, is_none,
}
use cloudmini_reseller.Common.Int.{ℤ, ◌+ℤ◌, ltb_ℤ}
use cloudmini_reseller.Common.Action.{
  Outcome, ok, err, pure, raise, ◌>>=◌, ◌>>◌, raise_if, attempt, or_else,
}
use cloudmini_reseller.Users.Entity.{
  Role, user, admin, super_admin, AccountStatus, active, suspended, banned, pending_verification,
  Account, Session,
}
use cloudmini_reseller.Users.World.{
  Env, World, Error, Action, Config, Claims, ask, draw, publish, user_registered, user_login,
  err_user_not_found, err_email_already_exists, err_invalid_credentials, err_account_suspended,
  err_email_not_verified, err_token_expired, err_session_not_found, err_session_revoked,
  err_weak_password,
}
use cloudmini_reseller.Users.Repo.{
  account_create, account_get_by_id, account_get_by_email, update_last_login, session_create,
  get_by_token, count_active_by_user, revoke_by_token, revoke_oldest_by_user,
}

-- The length of a text in UTF-8, which len counts.
abbrev pub byte_length : List ℕ → ℕ
byte_length [] = 0
byte_length (c ∷ cs) =
    (if ltb c 128 then 1 else if ltb c 2048 then 2 else if ltb c 65536 then 3 else 4)
    + byte_length cs

pub record Seen : Type 0 where
  pub has_upper : Bool
  pub has_lower : Bool
  pub has_digit : Bool

-- One turn of the loop over the runes: the first case of the switch that fits.
abbrev pub see : Env → ℕ → Seen → Seen
see env c seen =
    if env.is_upper c
    then record seen { has_upper = true }
    else if env.is_lower c
    then record seen { has_lower = true }
    else if env.is_digit c
    then record seen { has_digit = true }
    else seen

unfoldable pub see_all : Env → List ℕ → Seen → Seen
see_all env [] seen = seen
see_all env (c ∷ cs) seen = see_all env cs (see env c seen)

unfoldable pub is_strong : Env → List ℕ → Bool
unfolding see_all
is_strong env password =
    let seen =
      see_all env password (record { has_upper = false; has_lower = false; has_digit = false }) in
    leb 8 (byte_length password) && (seen.has_upper && (seen.has_lower && seen.has_digit))

unfoldable pub validate_password : List ℕ → Action (Unit {0})
validate_password password env = raise_if (not (is_strong env password)) err_weak_password env

pub record RegisterRequest : Type 0 where
  pub email : String
  pub password : List ℕ
  pub full_name : String
  pub phone : String

abbrev pub new_account : RegisterRequest → String → ℕ → Account
new_account req hash id = record {
  id = id;
  email = req.email;
  password_hash = hash;
  full_name = req.full_name;
  phone = req.phone;
  role = user;
  status = pending_verification;
  reseller_id = none;
  email_verified = false;
  totp_enabled = false;
  totp_secret = none;
  last_login_at = none;
  deleted_at = none;
}

-- Whether the look-up finds an account; its error counts as none.
abbrev pub is_taken : String → Action Bool
is_taken email env w =
    let (r, w') = account_get_by_email email env w in
    (elim r [ ok a ↦ ok true | err e ↦ ok false ], w')

unfoldable pub register : RegisterRequest → Action ℕ
register req = do
  λ env. raise_if (not (env.matches_email req.email)) err_weak_password env
  validate_password req.password
  taken ← is_taken req.email
  raise_if taken err_email_already_exists
  hash ← ask λ env n. env.bcrypt n req.password
  id ← draw λ env. env.uuids
  account_create (new_account req hash id)
  publish (user_registered id req.email)
  pure id

pub record LoginResult : Type 0 where
  pub access_token : String
  pub refresh_token : String
  pub expires_at : ℤ
  pub user_id : ℕ
  pub role : Role

pub record LoginRequest : Type 0 where
  pub email : String
  pub password : List ℕ
  pub ip_address : String
  pub user_agent : String

abbrev pub is_blocked : AccountStatus → Bool
is_blocked suspended = true
is_blocked banned = true
is_blocked _ = false

abbrev pub is_pending : AccountStatus → Bool
is_pending pending_verification = true
is_pending _ = false

abbrev pub is_admin : Role → Bool
is_admin admin = true
is_admin super_admin = true
is_admin _ = false

-- The check of the account and of the password.
unfoldable pub authenticate : String → List ℕ → Action Account
authenticate email password = do
  a ← or_else (account_get_by_email email) (pure tt) err_invalid_credentials
  raise_if (is_blocked a.status) err_account_suspended
  raise_if (not a.email_verified && is_pending a.status) err_email_not_verified
  λ env. raise_if (not (env.compare_hash a.password_hash password)) err_invalid_credentials env
  pure a

pub record RefreshTokenRequest : Type 0 where
  pub refresh_token : String
  pub ip_address : String
  pub user_agent : String

-- The account of a session that is neither revoked nor past its time.
unfoldable pub redeem : String → Action Account
redeem hashed = do
  s ← or_else (get_by_token hashed) (pure tt) err_session_not_found
  raise_if (not (is_none s.revoked_at)) err_session_revoked
  λ env. raise_if (ltb_ℤ s.expires_at env.now) err_token_expired env
  or_else (account_get_by_id s.user_id) (pure tt) err_user_not_found

module _ (cfg : Config) where
  abbrev pub claims_of : Account → ℤ → Claims
  claims_of a now = record {
    user_id = a.id;
    role = a.role;
    reseller_id = a.reseller_id;
    email = a.email;
    issued_at = now;
    expires_at = now +ℤ cfg.access_ttl;
  }

  unfoldable pub issue_access_token : Account → Action String
  issue_access_token a = ask λ env n. env.sign (claims_of a env.now)

  abbrev pub ttl_of : Account → ℤ
  ttl_of a = if is_admin a.role then cfg.admin_refresh_ttl else cfg.refresh_ttl

  abbrev pub new_session : Account → String → String → Env → String → ℕ → Session
  new_session a ip agent env raw id = record {
    id = id;
    user_id = a.id;
    refresh_token = env.hash_token raw;
    ip_address = ip;
    user_agent = agent;
    expires_at = env.now +ℤ ttl_of a;
    created_at = env.now;
    revoked_at = none;
  }

  -- The tokens, and the row of the new session; `raw` is drawn at random.
  unfoldable pub open_session : Account → String → String → Action String
  open_session a ip agent = do
    raw ← draw λ env. env.tokens
    id ← draw λ env. env.uuids
    λ env. session_create (new_session a ip agent env raw id) env
    pure raw

  abbrev pub login_result : Account → String → String → Action LoginResult
  login_result a access raw env w = (
    ok (record {
      access_token = access;
      refresh_token = raw;
      expires_at = env.now +ℤ cfg.access_ttl;
      user_id = a.id;
      role = a.role;
    }),
    w,
  )

  -- `if count >= u.maxSessions { … }`
  unfoldable pub make_room : ℕ → Action (Unit {0})
  make_room id = do
    count ← count_active_by_user id
    if leb cfg.max_sessions count then revoke_oldest_by_user id else pure tt

  unfoldable pub enter : LoginRequest → Account → Action LoginResult
  enter req a = do
    make_room a.id
    access ← issue_access_token a
    raw ← open_session a req.ip_address req.user_agent
    attempt (update_last_login a.id)
    publish (user_login a.id req.ip_address)
    login_result a access raw

  unfoldable pub login : LoginRequest → Action LoginResult
  login req = do a ← authenticate req.email req.password; enter req a

  -- What follows the revocation of the old token.
  unfoldable pub reissue : RefreshTokenRequest → Account → Action LoginResult
  reissue req a = do
    access ← issue_access_token a
    raw ← open_session a req.ip_address req.user_agent
    login_result a access raw

  -- The hash of the old token is given.
  unfoldable pub rotate : String → RefreshTokenRequest → Action LoginResult
  rotate hashed req = do a ← redeem hashed; revoke_by_token hashed; reissue req a

  unfoldable pub refresh : RefreshTokenRequest → Action LoginResult
  refresh req env = rotate (env.hash_token req.refresh_token) req env

unfoldable pub logout : String → Action (Unit {0})
logout raw env = revoke_by_token (env.hash_token raw) env
