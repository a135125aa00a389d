-- ===== src/Users/World.antt =====
-- What the use cases of user-service run on: the tables, and the events that were published.
use cloudmini_reseller.Common.{◌≡◌, false, ℕ, suc, String, Bool, Option, List, ◌∷◌, if◌then◌else◌}
use cloudmini_reseller.Common.Int.{ℤ}
use cloudmini_reseller.Common.Action.{Action as Act, ok, err}
use cloudmini_reseller.Users.Entity.{Role, Account, Session, ApiKey}

-- What a JSON web token says of its bearer.
pub record Claims : Type 0 where
  pub user_id : ℕ
  pub role : Role
  pub reseller_id : Option ℕ
  pub email : String
  pub issued_at : ℤ
  pub expires_at : ℤ

pub data Message : Type 0 where
  user_registered : ℕ → String → Message
  user_login : ℕ → String → Message
  user_2fa_enabled user_2fa_disabled : ℕ → Message
  user_2fa_admin_disabled : ℕ → ℕ → Message

-- `fails n` says whether the n-th call to the outside fails: a statement to the database, a hash, a
-- signature, a random read. The libraries are functions: the match of the e-mail pattern, the
-- Unicode classes, bcrypt (a hash by the number of the call, and the comparison), SHA-256 in hex,
-- HS256, the check of a one-time code. `tokens`, `secrets` and `uuids` are what is drawn, `is_inet`
-- says which texts the column type INET takes.
pub record Env : Type 0 where
  pub fails : ℕ → Bool
  pub matches_email : String → Bool
  pub is_upper : ℕ → Bool
  pub is_lower : ℕ → Bool
  pub is_digit : ℕ → Bool
  pub bcrypt : ℕ → List ℕ → String
  pub compare_hash : String → List ℕ → Bool
  pub hash_token : String → String
  pub sign : Claims → String
  pub validate_code : String → String → Bool
  pub tokens : ℕ → String
  pub secrets : ℕ → String
  pub uuids : ℕ → ℕ
  pub is_inet : String → Bool
  pub now : ℤ

-- The configuration that NewAuthUsecase takes.
pub record Config : Type 0 where
  pub access_ttl : ℤ
  pub refresh_ttl : ℤ
  pub admin_refresh_ttl : ℤ
  pub max_sessions : ℕ

pub record World : Type 0 where
  pub accounts : List Account
  pub sessions : List Session
  pub keys : List ApiKey
  pub messages : List Message
  pub calls : ℕ
  pub draws : ℕ

pub data Error : Type 0 where
  err_user_not_found err_email_already_exists err_invalid_credentials : Error
  err_account_suspended err_email_not_verified err_token_expired : Error
  err_session_not_found err_session_revoked err_api_key_not_found : Error
  err_weak_password err_invalid_totp_code : Error
  not_set_up invalid_status invalid_role nil_dereference duplicate_key call_failed : Error

abbrev pub Action : Type 0 → Type 0
Action A = Act Env World Error A

-- No call fails.
abbrev pub IsReliable : Env → Type 0
IsReliable env = (n : ℕ) → env.fails n ≡ false

-- One call to the outside.
abbrev pub call : Action (Unit {0})
call env w =
    (if env.fails w.calls then err call_failed else ok tt, record w { calls = suc w.calls })

-- A call that answers.
abbrev pub ask : {A : Type 0} → (Env → ℕ → A) → Action A
ask f env w = (
  if env.fails w.calls then err call_failed else ok (f env w.calls),
  record w { calls = suc w.calls },
)

abbrev pub draw : {A : Type 0} → (Env → ℕ → A) → Action A
draw f env w = (ok (f env w.draws), record w { draws = suc w.draws })

abbrev pub publish : Message → Action (Unit {0})
publish m env w = (ok tt, record w { messages = m ∷ w.messages })
