-- ===== src/Users/Tests.antt =====
-- Runs and witnesses of user-service.
use cloudmini_reseller.Common.{◌+◌, ◌≤◌, str_eq, false, true, ◌≡◌, refl, none, List, [], ◌∷◌, arith}
use cloudmini_reseller.Common.Int.{pos, ◌+ℤ◌}
use cloudmini_reseller.Common.Action.{ok}
use cloudmini_reseller.Users.Entity.{Account, Session, user, active}
use cloudmini_reseller.Users.World.{Env, World, Config}
use cloudmini_reseller.Users.Repo.{account_get_by_id, session_create, get_by_token, revoke_by_token}
use cloudmini_reseller.Users.Auth.{
  LoginRequest, RefreshTokenRequest, LoginResult, login, refresh, rotate, reissue, redeem,
  issue_access_token, open_session,
}
use cloudmini_reseller.Users.Auth.Rotation.{
  IsRefused, Request, logs_in, logs_out, serve_all, refresh_once,
}
use cloudmini_reseller.Users.Auth.Limits.{live_count, login-live}

-- Raw tokens and their hashes are the same texts here.
abbrev pub up : Env
up = record {
  fails = λ _. false;
  matches_email = λ _. true;
  is_upper = λ _. true;
  is_lower = λ _. true;
  is_digit = λ _. true;
  bcrypt = λ n p. "hash";
  compare_hash = λ h p. true;
  hash_token = λ raw. raw;
  sign = λ c. "jwt";
  validate_code = λ code secret. true;
  tokens = λ n. "new";
  secrets = λ n. "secret";
  uuids = λ n. n + 100;
  is_inet = λ s. str_eq s "10.0.0.1";
  now = pos 1000;
}

abbrev pub cfg : Config
cfg = record {
  access_ttl = pos 900;
  refresh_ttl = pos 604800;
  admin_refresh_ttl = pos 2592000;
  max_sessions = 1;
}

abbrev alice : Account
alice = record {
  id = 7;
  email = "a@b.co";
  password_hash = "hash";
  full_name = "Alice";
  phone = "";
  role = user;
  status = active;
  reseller_id = none;
  email_verified = true;
  totp_enabled = false;
  totp_secret = none;
  last_login_at = none;
  deleted_at = none;
}

abbrev open_one : Session
open_one = record {
  id = 1;
  user_id = 7;
  refresh_token = "old";
  ip_address = "10.0.0.1";
  user_agent = "";
  expires_at = pos 5000;
  created_at = pos 0;
  revoked_at = none;
}

abbrev pub world : World
world = record {
  accounts = alice ∷ [];
  sessions = open_one ∷ [];
  keys = [];
  messages = [];
  calls = 0;
  draws = 0;
}

abbrev with_old : RefreshTokenRequest
with_old = record { refresh_token = "old"; ip_address = "10.0.0.1"; user_agent = "" }

abbrev by_password : LoginRequest
by_password = record { email = "a@b.co"; password = []; ip_address = "10.0.0.1"; user_agent = "" }

abbrev issued : LoginResult
issued = record {
  access_token = "jwt";
  refresh_token = "new";
  expires_at = pos 1900;
  user_id = 7;
  role = user;
}

refreshed : (refresh cfg with_old up world).0 ≡ ok issued
unfolding refresh rotate reissue redeem issue_access_token open_session get_by_token
    account_get_by_id revoke_by_token session_create ◌+ℤ◌
refreshed = refl

abbrev between : List (Request × Env)
between = (logs_out "new", up) ∷ (logs_in by_password, up) ∷ []

refresh_once_example :
    IsRefused (refresh cfg with_old up (serve_all cfg between (refresh cfg with_old up world).1)).0
refresh_once_example = refresh_once cfg with_old with_old up up world refreshed refl between

login-live_example : live_count (pos 1000) 7 (login cfg by_password up world).1.sessions ≤ 1
login-live_example = login-live cfg up by_password 7 world (omega arith) (λ id. ground arith)
