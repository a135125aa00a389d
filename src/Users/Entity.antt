-- ===== src/Users/Entity.antt =====
-- The rows of the users schema, services/user-service/internal/domain/entity.go.
--
-- A UUID is a number, a time an integer of seconds. A text that is compared character by character,
-- a password, is a list of code points. Fields that no operation of the model reads are left out.
use cloudmini_reseller.Common.{ℕ, String, Bool, Option}
use cloudmini_reseller.Common.Int.{ℤ}

pub data Role : Type 0 where
  user reseller admin super_admin : Role

pub data AccountStatus : Type 0 where
  active suspended banned pending_verification : AccountStatus

pub record Account : Type 0 where
  pub id : ℕ
  pub email : String
  pub password_hash : String
  pub full_name : String
  pub phone : String
  pub role : Role
  pub status : AccountStatus
  pub reseller_id : Option ℕ
  pub email_verified : Bool
  pub totp_enabled : Bool
  pub totp_secret : Option String
  pub last_login_at : Option ℤ
  pub deleted_at : Option ℤ

pub record Session : Type 0 where
  pub id : ℕ
  pub user_id : ℕ
  pub refresh_token : String
  pub ip_address : String
  pub user_agent : String
  pub expires_at : ℤ
  pub created_at : ℤ
  pub revoked_at : Option ℤ

pub record ApiKey : Type 0 where
  pub id : ℕ
  pub user_id : ℕ
  pub name : String
  pub key_hash : String
  pub revoked_at : Option ℤ
